-- ===== src/Tsdb/Shard/Match.antt =====
-- `Match` and `Bounds` of pkg/phlaredb/tsdb/index/shard.go, and the fingerprints of a shard.
use mathlib.Core.Path.{subst, ap₂}
use native.Mathlib.Decide.{ℕ_discrete}
use native.Mathlib.Nat.{pow-le-pow_right, mod-eq_of_lt, le-div_iff_mul-le, div-lt_iff_lt-mul}
use phlare.Base.{
  ℕ, suc, ◌+◌, ◌-◌, ◌*◌, ◌/◌, ◌%◌, ◌^◌, ◌≤◌, ◌<◌, ◌≡◌, ◌↔◌, ap, ◌∙◌, arith, true, false, ltb, ◌==◌,
}
use Prim.Native.Nat.{bit_xor}
use phlare.Base.Bits.{bit_xor-prefix}
use phlare.Tsdb.Shard.{
  required_bits, new_shard, uint64_mod, uint32_mod, max_uint64, shift_left, match, bounds,
}
use phlare.Tsdb.Shard.Powers.{pow-pos, pow_split, mul_lt, lt-pow, required_bits-pow}

-- `b` is the number of bits of a shard factor that is a power of two and a uint32, and `x` one of
-- its shards.
pub record IsShard (b x : ℕ) : Type 0 where
  pub some_bits : 1 ≤ b
  pub few_bits : b ≤ 31
  pub inside : x < 2 ^ b

two-le-pow : (b : ℕ) → 1 ≤ b → 2 ≤ 2 ^ b
two-le-pow b h = omega (arith, lt-pow b)

module _ (b x : ℕ) (s : IsShard b x) where
  -- how many fingerprints a shard has
  abbrev pub span : ℕ
  span = 2 ^ (64 - b)

  pub shifted_inside : x * span < uint64_mod
  shifted_inside =
      subst (λ n. x * span < n) (pow_split b (omega (arith, s.few_bits)))
        (mul_lt x (2 ^ b) span s.inside (pow-pos (64 - b)))

  shift_left-shard : shift_left x (64 - b) ≡ x * span
  shift_left-shard = mod-eq_of_lt shifted_inside

  span-lt : 1 * span < uint64_mod
  span-lt =
      subst (λ n. 1 * span < n) (pow_split b (omega (arith, s.few_bits)))
        (mul_lt 1 (2 ^ b) span (two-le-pow b s.some_bits) (pow-pos (64 - b)))

  one_span : 1 * span ≡ span
  one_span = omega arith

  shift_left-one : shift_left 1 (64 - b) ≡ 1 * span
  shift_left-one = mod-eq_of_lt span-lt

  bits : required_bits (new_shard x (2 ^ b)) ≡ b
  bits = required_bits-pow x b

  prefix_match : (fp : ℕ) → match (new_shard x (2 ^ b)) fp ≡ ltb (bit_xor (x * span) fp) span
  unfolding match
  prefix_match fp =
      ap (λ r. ltb (bit_xor (shift_left x (64 - r)) fp) (shift_left 1 (64 - r))) bits
      ∙ ap₂ (λ u v. ltb (bit_xor u fp) v) shift_left-shard (shift_left-one ∙ one_span)

  -- A shard of a power-of-two factor from two to 2^31 matches exactly the fingerprints whose
  -- highest bits are its number.
  pub match_iff : (fp : ℕ) → (match (new_shard x (2 ^ b)) fp ≡ true) ↔ (fp / span ≡ x)
  match_iff fp =
      let prefix = bit_xor-prefix (64 - b) x fp in
      let same = prefix_match fp in (λ h. prefix.0 (ground arith), λ e. ground (arith, prefix.1 e))

  -- the fingerprints with prefix `x` form an interval
  pub prefix_interval : (fp : ℕ) → (fp / span ≡ x) ↔ ((x * span ≤ fp) × (fp < suc x * span))
  prefix_interval fp =
      let pos = pow-pos (64 - b) in
      let low = le-div_iff_mul-le {k = span} {x = x} {y = fp} pos in
      let high = div-lt_iff_lt-mul {k = span} {x = fp} {y = suc x} pos in
      (λ e. (low.0 (omega arith), high.0 (omega arith)), λ h. omega (arith, low.1 h.0, high.1 h.1))

  pub small_pow : 2 ^ b ≤ 2 ^ 31
  small_pow = pow-le-pow_right {n = 2} (omega arith) s.few_bits

  after_shard : (x + 1) % uint32_mod ≡ suc x
  after_shard = omega (arith, small_pow, s.inside)

-- The bounds of a shard: the last one's upper bound is the greatest uint64.
pub bounds_open :
    (b x : ℕ)
    → IsShard b x
    → suc x < 2 ^ b
    → bounds (new_shard x (2 ^ b)) ≡ (x * 2 ^ (64 - b), suc x * 2 ^ (64 - b))
unfolding bounds
bounds_open b x s h =
    let next : IsShard b (suc x) = record {
      some_bits = s.some_bits;
      few_bits = s.few_bits;
      inside = h;
    } in
    let differs : (suc x == 2 ^ b) ≡ false = ground arith in
    simp (
      bits b x s,
      after_shard b x s,
      differs,
      shift_left-shard b x s,
      shift_left-shard b (suc x) next,
    )

pub bounds_last :
    (b x : ℕ)
    → IsShard b x
    → suc x ≡ 2 ^ b
    → bounds (new_shard x (2 ^ b)) ≡ (x * 2 ^ (64 - b), max_uint64)
unfolding bounds
bounds_last b x s h =
    let agrees : (suc x == 2 ^ b) ≡ true = ground arith in
    simp (bits b x s, after_shard b x s, agrees, shift_left-shard b x s)

pub through-lt : (b x : ℕ) → IsShard b x → (bounds (new_shard x (2 ^ b))).1 < uint64_mod
through-lt b x s = elim (ℕ_discrete (suc x) (2 ^ b)) [
  | yes e ↦ rw (bounds_last b x s e) (omega arith)
  | no e ↦
      let next : IsShard b (suc x) = record {
        some_bits = s.some_bits;
        few_bits = s.few_bits;
        inside = omega (arith, s.inside);
      } in
      rw (bounds_open b x s next.inside) (shifted_inside b (suc x) next)
]

-- Only the last shard matches the greatest uint64.
pub last_of_max :
    (b x : ℕ) → IsShard b x → match (new_shard x (2 ^ b)) max_uint64 ≡ true → suc x ≡ 2 ^ b
last_of_max b x s m =
    let above = ((prefix_interval b x s max_uint64).0 ((match_iff b x s max_uint64).0 m)).1 in
    elim (ℕ_discrete (suc x) (2 ^ b)) [
      | yes e ↦ e
      | no e ↦
          let next : IsShard b (suc x) = record {
            some_bits = s.some_bits;
            few_bits = s.few_bits;
            inside = omega (arith, s.inside);
          } in
          absurd (omega (arith, shifted_inside b (suc x) next))
    ]

-- For a power-of-two factor from two to 2^31 and a fingerprint below the greatest uint64, a shard
-- matches the fingerprint exactly if it lies in the shard's bounds.
pub bounds_iff :
    (b x fp : ℕ)
    → IsShard b x
    → fp < max_uint64
    → (match (new_shard x (2 ^ b)) fp ≡ true)
      ↔ (((bounds (new_shard x (2 ^ b))).0 ≤ fp) × (fp < (bounds (new_shard x (2 ^ b))).1))
bounds_iff b x fp s h =
    let matches = match_iff b x s fp in
    let interval = prefix_interval b x s fp in
    elim (ℕ_discrete (suc x) (2 ^ b)) [
      | no e ↦
          rw (bounds_open b x s (omega (arith, s.inside)))
            (λ m. interval.0 (matches.0 m), λ i. matches.1 (interval.1 i))
      | yes e ↦
          let top : suc x * 2 ^ (64 - b) ≡ uint64_mod =
            ap (λ t. t * 2 ^ (64 - b)) e ∙ pow_split b (omega (arith, s.few_bits)) in
          rw (bounds_last b x s e) (
            λ m. let i = interval.0 (matches.0 m) in (i.0, h),
            λ i. matches.1 (interval.1 (i.0, omega (arith, top))),
          )
    ]

-- The last shard of a power-of-two factor from two to 2^31 matches the greatest uint64, and its
-- bounds leave that fingerprint out.
pub bounds_miss_max :
    (b x : ℕ)
    → IsShard b x
    → suc x ≡ 2 ^ b
    → (match (new_shard x (2 ^ b)) max_uint64 ≡ true)
      × ¬ (max_uint64 < (bounds (new_shard x (2 ^ b))).1)
bounds_miss_max b x s e =
    let top : suc x * 2 ^ (64 - b) ≡ uint64_mod =
      ap (λ t. t * 2 ^ (64 - b)) e ∙ pow_split b (omega (arith, s.few_bits)) in
    let pos = pow-pos (64 - b) in
    (
      (match_iff b x s max_uint64).1
          ((prefix_interval b x s max_uint64).1 (omega (arith, top, pos), omega (arith, top))),
      rw (bounds_last b x s e) (λ h. omega arith),
    )

-- The only shard of factor one matches no fingerprint.
not-match-one : (fp : ℕ) → match (new_shard 0 1) fp ≡ false
unfolding match required_bits
not-match-one fp = ground arith
