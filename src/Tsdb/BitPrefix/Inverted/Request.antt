-- ===== src/Tsdb/BitPrefix/Inverted/Request.antt =====
-- The slice of shards that a request for a shard of a power of two reads, and its validation.
use mathlib.Core.Path.{subst}
use native.Mathlib.Decide.{ℕ_discrete}
use native.Mathlib.Nat.{div-lt_iff_lt-mul, pow-suc, pow-le-pow_right}
use phlare.Base.{
  ℕ, suc, ◌-◌, ◌*◌, ◌/◌, ◌%◌, ◌^◌, ◌≤◌, ◌<◌, ◌≡◌, sym, ap, ◌∙◌, true, false, some, inl, inr, arith,
  ◌==◌, ltb, Bool-cases,
}
use phlare.Tsdb.Shard.{new_shard, required_bits, bounds, uint32_mod, shift_left}
use phlare.Tsdb.Shard.Powers.{pow_split, pow-pos, mul_le, required_bits-pow}
use phlare.Tsdb.Shard.Match.{
  IsShard, small_pow, bounds_open, bounds_last, through-lt, shifted_inside,
}
use phlare.Tsdb.BitPrefix.{Annotation}
use phlare.Tsdb.BitPrefix.Range.{part, part-pos, rounded_up, div_mono}
use phlare.Tsdb.BitPrefix.Cover.{selection, selection-lem, from, through}
use phlare.Tsdb.BitPrefix.Inverted.{tsdb, validate_shard}

module _ (a b x : ℕ) (few : a ≤ 31) (s : IsShard b x) where
  pub bounds_ordered : (bounds (new_shard x (2 ^ b))).0 ≤ (bounds (new_shard x (2 ^ b))).1
  bounds_ordered = elim (ℕ_discrete (suc x) (2 ^ b)) [
    | yes e ↦
        let last = bounds_last b x s e in
        subst (λ (r : ℕ × ℕ). r.0 ≤ r.1) (sym last) (omega (arith, shifted_inside b x s))
    | no e ↦
        let known = bounds_open b x s (omega (arith, s.inside)) in
        subst (λ (r : ℕ × ℕ). r.0 ≤ r.1) (sym known) (mul_le x (suc x) (2 ^ (64 - b)) (omega arith))
  ]

  pub lower-le : (selection a b x few s).lower ≤ rounded_up a few (through a b x few s)
  lower-le =
      let f = from a b x few s in
      let t = through a b x few s in
      let mono = div_mono a few f t bounds_ordered in
      subst (λ r. r.lower ≤ rounded_up a few t) (sym (selection-lem a b x few s))
        (elim (Bool-cases (shift_left (t / part a few) (64 - a) == t)) [
          | inl e ↦ rw e mono
          | inr e ↦ rw e (omega (arith, mono))
        ])

  pub upper-le : rounded_up a few (through a b x few s) ≤ 2 ^ a
  upper-le =
      let t = through a b x few s in
      let small : t < 2 ^ a * part a few =
        subst (λ n. t < n) (sym (pow_split a (omega arith))) (through-lt b x s) in
      let lt = (div-lt_iff_lt-mul {k = part a few} {x = t} {y = 2 ^ a} (part-pos a few)).1 small in
      elim (Bool-cases (shift_left (t / part a few) (64 - a) == t)) [
        | inl e ↦ rw e (omega arith)
        | inr e ↦ rw e (omega arith)
      ]

  pub upper_is : (selection a b x few s).upper ≡ rounded_up a few (through a b x few s)
  upper_is = ap (λ r. r.upper) (selection-lem a b x few s)

  pub fewer_of_filter : (selection a b x few s).filter ≡ false → b ≤ a
  fewer_of_filter h =
      let known : ltb (2 ^ a) (2 ^ b) ≡ false =
        sym (ap (λ r. r.filter) (selection-lem a b x few s)) ∙ h in
      elim (Bool-cases (ltb a b)) [
        | inr e ↦ ground arith
        | inl e ↦
            let lt : suc a ≤ b = ground arith in
            let grown = pow-le-pow_right {n = 2} (omega arith) lt in
            absurd (ground (arith, known, grown, pow-suc 2 a, pow-pos a))
      ]

  -- the request, as `Lookup` reads it
  abbrev pub request : Annotation
  request = record { shard = x; of = 2 ^ b }

  pub tsdb_lem : tsdb request ≡ new_shard x (2 ^ b)
  tsdb_lem =
      let small = small_pow b x s in
      let same : 2 ^ b % uint32_mod ≡ 2 ^ b = omega arith in
      let same_x : x % uint32_mod ≡ x = omega (arith, s.inside) in simp (same, same_x)

  pub validate_lem : validate_shard (some request) ≡ true
  unfolding validate_shard
  validate_lem =
      let known : required_bits (tsdb request) ≡ b =
        ap required_bits tsdb_lem ∙ required_bits-pow x b in
      rw known (ground arith)
