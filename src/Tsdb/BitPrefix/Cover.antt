-- ===== src/Tsdb/BitPrefix/Cover.antt =====
-- What the slice of shards that `getShards` returns holds of the requested shard.
use mathlib.Core.Path.{subst}
use native.Mathlib.Decide.{ℕ_discrete}
use native.Mathlib.Nat.{
  pow-le-pow_right, le-div_iff_mul-le, div-lt_iff_lt-mul, mul_assoc, mul-div_cancel,
}
use phlare.Base.{
  ℕ, suc, ◌+◌, ◌-◌, ◌*◌, ◌/◌, ◌^◌, ◌≤◌, ◌<◌, ◌≡◌, sym, ap, ◌∙◌, arith, true, false, some, ltb, ◌==◌,
}
use phlare.Tsdb.Shard.{new_shard, bounds, match, uint64_mod, max_uint64, shift_left}
use phlare.Tsdb.Shard.Powers.{pow-add, pow_split}
use phlare.Tsdb.Shard.Match.{
  IsShard, match_iff, bounds_iff, bounds_open, bounds_last, through-lt, last_of_max,
  prefix_interval,
}
use phlare.Tsdb.BitPrefix.{Selection, get_shards, shard_for_fp}
use phlare.Tsdb.BitPrefix.Range.{
  part, rounded_up, select-lem, shard_for_fp-part, div_mono, rounded_up-covers, rounded_up-max,
  part-pos, shift_back,
}

eq→== : (m n : ℕ) → m ≡ n → (m == n) ≡ true
eq→== m n h = ground arith

ge→ltb : (m n : ℕ) → n ≤ m → ltb m n ≡ false
ge→ltb m n h = ground arith

module _ (a b x : ℕ) (few : a ≤ 31) (s : IsShard b x) where
  abbrev pub from : ℕ
  from = (bounds (new_shard x (2 ^ b))).0

  abbrev pub through : ℕ
  through = (bounds (new_shard x (2 ^ b))).1

  -- the request for shard `x` of `2 ^ b`, to an index of `2 ^ a` shards
  abbrev pub selection : Selection
  selection = get_shards (2 ^ a) (some (record { shard = x; of = 2 ^ b }))

  pub selection-lem : selection ≡ record {
    lower = from / part a few;
    upper = rounded_up a few through;
    filter = ltb (2 ^ a) (2 ^ b);
  }
  unfolding get_shards
  selection-lem = select-lem a few b x s

  covers_below :
      (fp : ℕ)
      → fp < max_uint64
      → match (new_shard x (2 ^ b)) fp ≡ true
      → (from / part a few ≤ fp / part a few) × (fp / part a few < rounded_up a few through)
  covers_below fp h m =
      let inside = (bounds_iff b x fp s h).0 m in
      (
        div_mono a few from fp inside.0,
        rounded_up-covers a few through fp (through-lt b x s) inside.1,
      )

  covers_max :
      match (new_shard x (2 ^ b)) max_uint64 ≡ true
      → (from / part a few ≤ max_uint64 / part a few)
        × (max_uint64 / part a few < rounded_up a few through)
  covers_max m =
      let below = through-lt b x s in
      let last = bounds_last b x s (last_of_max b x s m) in
      let least : from ≤ max_uint64 =
        subst (λ p. p.0 ≤ max_uint64) (sym last)
          (((prefix_interval b x s max_uint64).0 ((match_iff b x s max_uint64).0 m)).0) in
      (
        div_mono a few from max_uint64 least,
        subst (λ p. max_uint64 / part a few < rounded_up a few p.1) (sym last)
            (omega (arith, rounded_up-max a few)),
      )

  -- A request for shard x of 2^b (b from 1 to 31) to an index of 2^a shards (a at most 31) reads
  -- the shard of every fingerprint that the requested shard matches.
  pub get_shards-covers :
      (fp : ℕ)
      → fp < uint64_mod
      → match (new_shard x (2 ^ b)) fp ≡ true
      → (selection.lower ≤ shard_for_fp (2 ^ a) fp) × (shard_for_fp (2 ^ a) fp < selection.upper)
  get_shards-covers fp h m = elim (ℕ_discrete fp max_uint64) [
    | yes e ↦
        rw (selection-lem, shard_for_fp-part a few, e)
          (covers_max (subst (λ p. match (new_shard x (2 ^ b)) p ≡ true) e m))
    | no e ↦ rw (selection-lem, shard_for_fp-part a few) (covers_below fp (omega arith) m)
  ]

  module _ (fewer : b ≤ a) where
    -- how many shards of the index make one requested shard
    abbrev group : ℕ
    group = 2 ^ (a - b)

    exponents : a - b + (64 - a) ≡ 64 - b
    exponents = omega (arith, s.few_bits)

    span-group : 2 ^ (64 - b) ≡ group * part a few
    span-group = ap (λ n. 2 ^ n) (sym exponents) ∙ pow-add (a - b) (64 - a)

    spans : (y : ℕ) → y * 2 ^ (64 - b) ≡ y * group * part a few
    spans y = ap (λ t. y * t) span-group ∙ sym (mul_assoc y group (part a few))

    spans_divide : (y : ℕ) → y * 2 ^ (64 - b) / part a few ≡ y * group
    spans_divide y =
        ap (λ t. t / part a few) (spans y) ∙ mul-div_cancel (y * group) (part-pos a few)

    above : (y fp : ℕ) → y * group ≤ fp / part a few → y * 2 ^ (64 - b) ≤ fp
    above y fp h =
        subst (λ t. t ≤ fp) (sym (spans y))
          ((le-div_iff_mul-le {k = part a few} {x = y * group} {y = fp} (part-pos a few)).0 h)

    below : (y fp : ℕ) → fp / part a few < y * group → fp < y * 2 ^ (64 - b)
    below y fp h =
        subst (λ t. fp < t) (sym (spans y))
          ((div-lt_iff_lt-mul {k = part a few} {x = fp} {y = y * group} (part-pos a few)).0 h)

    from_group : from / part a few ≡ x * group
    from_group = elim (ℕ_discrete (suc x) (2 ^ b)) [
      | yes e ↦ ap (λ r. r.0 / part a few) (bounds_last b x s e) ∙ spans_divide x
      | no e ↦
          ap (λ r. r.0 / part a few) (bounds_open b x s (omega (arith, s.inside))) ∙ spans_divide x
    ]

    upper_group : suc x < 2 ^ b → rounded_up a few through ≡ suc x * group
    upper_group h =
        let known = bounds_open b x s h in
        let inside : suc x * 2 ^ (64 - b) < uint64_mod =
          subst (λ p. p.1 < uint64_mod) known (through-lt b x s) in
        let aligned : shift_left (suc x * 2 ^ (64 - b) / part a few) (64 - a)
            ≡ suc x * 2 ^ (64 - b) =
          shift_back a few (suc x * 2 ^ (64 - b)) inside
          ∙ ap (λ t. t * part a few) (spans_divide (suc x))
          ∙ sym (spans (suc x)) in
        ap (λ r. rounded_up a few r.1) known
        ∙ rounded (suc x * 2 ^ (64 - b)) aligned
        ∙ spans_divide (suc x)
      where
        rounded :
            (t : ℕ) → shift_left (t / part a few) (64 - a) ≡ t → rounded_up a few t ≡ t / part a few
        rounded t e = rw (eq→== _ t e)

    under :
        (fp : ℕ)
        → fp < uint64_mod
        → fp / part a few < rounded_up a few through
        → fp < suc x * 2 ^ (64 - b)
    under fp h hi = elim (ℕ_discrete (suc x) (2 ^ b)) [
      | yes e ↦ omega (arith, ap (λ t. t * 2 ^ (64 - b)) e, pow_split b (omega (arith, s.few_bits)))
      | no e ↦
          let open_end = upper_group (omega (arith, s.inside)) in below (suc x) fp (omega arith)
    ]

    -- If an index of 2^a shards (a at most 31) has at least as many shards as are asked for (2^b, b
    -- from 1 to 31), a request for shard x of 2^b is answered without a filter, and the requested
    -- shard matches every fingerprint of the shards that are read.
    pub get_shards-exact :
        (fp : ℕ)
        → fp < uint64_mod
        → selection.lower ≤ shard_for_fp (2 ^ a) fp
        → shard_for_fp (2 ^ a) fp < selection.upper
        → (selection.filter ≡ false) × (match (new_shard x (2 ^ b)) fp ≡ true)
    get_shards-exact fp h lo hi =
        let idx = shard_for_fp-part a few fp in
        let lower_is = ap (λ r. r.lower) selection-lem ∙ from_group in
        let upper_is = ap (λ r. r.upper) selection-lem in
        let filter_is = ap (λ r. r.filter) selection-lem in
        let low : x * group ≤ fp / part a few = omega arith in
        (
          filter_is ∙ ge→ltb (2 ^ a) (2 ^ b) (pow-le-pow_right {n = 2} (omega arith) fewer),
          (match_iff b x s fp).1
              ((prefix_interval b x s fp).1 (above x fp low, under fp h (omega arith))),
        )
