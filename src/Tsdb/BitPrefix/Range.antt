-- ===== src/Tsdb/BitPrefix/Range.antt =====
-- The index of a fingerprint's shard, and the bounds of the slice that a request reads.
use mathlib.Core.Path.{subst}
use native.Mathlib.Nat.{
  pow-suc, pow-le-pow_right, mod-eq_of_lt, le-div_iff_mul-le, div-lt_iff_lt-mul,
}
use phlare.Base.{
  ℕ, suc, ◌-◌, ◌*◌, ◌/◌, ◌%◌, ◌^◌, ◌≤◌, ◌<◌, ◌≡◌, ◌↔◌, sym, ap, ◌∙◌, arith, true, inl, inr, ltb,
  ◌==◌, if◌then◌else◌, Bool-cases,
}
use phlare.Tsdb.Shard.{
  new_shard, required_bits, bounds, uint32_mod, uint64_mod, max_uint64, shift_left,
}
use phlare.Tsdb.Shard.Powers.{pow-pos, pow-required_bits-le, required_bits-pow}
use phlare.Tsdb.Shard.Match.{IsShard, small_pow}
use phlare.Tsdb.BitPrefix.{validate_bit_prefix_shard_factor, select_requested, shard_for_fp}

-- A positive uint32 is accepted as the factor of a bit prefix index exactly if it is a power of
-- two.
pub validate_iff :
    (factor : ℕ)
    → 0 < factor
    → factor < uint32_mod
    → (validate_bit_prefix_shard_factor factor ≡ true) ↔ ((b : ℕ) × (2 ^ b ≡ factor))
unfolding validate_bit_prefix_shard_factor
validate_iff factor p h =
    let small = pow-required_bits-le 0 factor p in
    (λ e. (required_bits (new_shard 0 factor), ground arith), λ (b, e). accepts b e)
  where
    accepts :
        (b : ℕ)
        → 2 ^ b ≡ factor
        → (2 ^ required_bits (new_shard 0 factor) % uint32_mod == factor) ≡ true
    accepts b e =
        let same = subst (λ n. required_bits (new_shard 0 n) ≡ b) e (required_bits-pow 0 b) in
        rw same (ground arith)

pub ==→eq : (m n : ℕ) → (m == n) ≡ true → m ≡ n
==→eq m n h = ground arith

module _ (a : ℕ) (few : a ≤ 31) where
  abbrev pub part : ℕ
  part = 2 ^ (64 - a)

  pub index_bits : required_bits (new_shard 0 (2 ^ a % uint32_mod)) ≡ a
  index_bits =
      let small : 2 ^ a ≤ 2 ^ 31 = pow-le-pow_right {n = 2} (omega arith) few in
      let same : 2 ^ a % uint32_mod ≡ 2 ^ a = omega arith in
      ap (λ n. required_bits (new_shard 0 n)) same ∙ required_bits-pow 0 a

  pub shard_for_fp-part : (fp : ℕ) → shard_for_fp (2 ^ a) fp ≡ fp / part
  unfolding shard_for_fp
  shard_for_fp-part fp = rw index_bits

  abbrev pub rounded_up : ℕ → ℕ
  rounded_up fp = if shift_left (fp / part) (64 - a) == fp then fp / part else suc (fp / part)

  pub select-lem :
      (b x : ℕ)
      → IsShard b x
      → select_requested (2 ^ a) (record { shard = x; of = 2 ^ b }) ≡ record {
        lower = (bounds (new_shard x (2 ^ b))).0 / part;
        upper = rounded_up (bounds (new_shard x (2 ^ b))).1;
        filter = ltb (2 ^ a) (2 ^ b);
      }
  unfolding select_requested
  select-lem b x s =
      let small = small_pow b x s in
      let same : 2 ^ b % uint32_mod ≡ 2 ^ b = omega arith in
      let same_x : x % uint32_mod ≡ x = omega (arith, s.inside) in simp (index_bits, same, same_x)

  pub part-pos : 0 < part
  part-pos = pow-pos (64 - a)

  pub div_mono : (m n : ℕ) → m ≤ n → m / part ≤ n / part
  div_mono m n h = (le-div_iff_mul-le {k = part} {x = m / part} {y = n} part-pos).1 (
      omega (arith, (le-div_iff_mul-le {k = part} {x = m / part} {y = m} part-pos).0 (omega arith)))

  back : (t : ℕ) → t / part * part ≤ t
  back t = (le-div_iff_mul-le {k = part} {x = t / part} {y = t} part-pos).0 (omega arith)

  pub shift_back : (t : ℕ) → t < uint64_mod → shift_left (t / part) (64 - a) ≡ t / part * part
  shift_back t h = mod-eq_of_lt (omega (arith, back t))

  -- the bound of the read shards is past every fingerprint below the bound of the request
  pub rounded_up-covers : (t fp : ℕ) → t < uint64_mod → fp < t → fp / part < rounded_up t
  rounded_up-covers t fp h lt = elim (Bool-cases (shift_left (t / part) (64 - a) == t)) [
    | inl e ↦
        let aligned : t / part * part ≡ t = sym (shift_back t h) ∙ (==→eq _ _ e) in
        rw e ((div-lt_iff_lt-mul {k = part} {x = fp} {y = t / part} part-pos).1 (omega arith))
    | inr e ↦ rw e (omega (arith, div_mono fp t (omega arith)))
  ]

  one_less : 64 - a ≡ suc (63 - a)
  one_less = omega arith

  part-even : part ≡ 2 ^ (63 - a) * 2
  part-even = ap (λ n. 2 ^ n) one_less ∙ pow-suc 2 (63 - a)

  pub rounded_up-max : rounded_up max_uint64 ≡ suc (max_uint64 / part)
  rounded_up-max =
      let u : ℕ = max_uint64 / part in
      let even : u * part ≡ u * (2 ^ (63 - a) * 2) = ap (λ t. u * t) part-even in
      elim (Bool-cases (shift_left u (64 - a) == max_uint64)) [
        | inl e ↦
            let whole : u * part ≡ max_uint64 =
              sym (shift_back max_uint64 (omega arith))
              ∙ ==→eq (shift_left u (64 - a)) max_uint64 e in
            absurd (omega arith)
        | inr e ↦ rw e
      ]
