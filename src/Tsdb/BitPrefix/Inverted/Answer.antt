-- ===== src/Tsdb/BitPrefix/Inverted/Answer.antt =====
-- What `Lookup` of pkg/phlaredb/tsdb/bitprefix.go answers for a shard.
use mathlib.Core.Path.{subst}
use phlare.Base.{
  ℕ, zero, suc, ◌+◌, ◌-◌, ◌*◌, ◌^◌, ◌≤◌, ◌<◌, ◌≡◌, refl, sym, ap, ◌∙◌, Bool, true, false, ◌&&◌,
  Option, none, some, List, [], ◌∷◌, inl, inr, arith, ltb, leb, if◌then◌else◌, elem, Ascends,
  Ascends-weaken, get_elem?, take, drop, length, le→leb, Bool-cases,
}
use phlare.Base.Outcome.{ok}
use phlare.Tsdb.Shard.{new_shard, bounds, match, max_uint64}
use phlare.Tsdb.Shard.Match.{IsShard, bounds_iff}
use phlare.Tsdb.BitPrefix.{Selection, get_shards, shard_for_fp}
use phlare.Tsdb.BitPrefix.Range.{part}
use phlare.Tsdb.BitPrefix.Cover.{selection, get_shards-covers, get_shards-exact}
use phlare.Tsdb.Index.{Matcher}
use phlare.Tsdb.Index.Lookup.{all_select, elem-lookup}
use phlare.Tsdb.BitPrefix.Inverted.{
  IndexShard, BitPrefixInvertedIndex, tsdb, shards_of, read_shards, filtered, lookup_series,
}
use phlare.Tsdb.BitPrefix.Inverted.Placed.{
  ShardsAt, ShardsAt-take, ShardsAt-drop, has, read_shards-before, read_shards-at,
  read_shards-Ascends, IsWellFormed, get_elem?-take, get_elem?-drop,
}
use phlare.Tsdb.BitPrefix.Inverted.Cut.{cut_lem}
use phlare.Tsdb.BitPrefix.Inverted.Request.{
  bounds_ordered, lower-le, upper-le, upper_is, fewer_of_filter, request, tsdb_lem, validate_lem,
}

-- whether every matcher selects the fingerprint in its shard
abbrev pub selects : ℕ → List Matcher → Option IndexShard → Bool
selects fp matchers none = false
selects fp matchers (some s) = all_select fp matchers s.idx

Bool-ext : (p q : Bool) → (p ≡ true → q ≡ true) → (q ≡ true → p ≡ true) → p ≡ q
Bool-ext p q f g = ground (arith, f, g)

when : (p r : Bool) → p ≡ true → r ≡ (p && true && r)
when p r h = ground (arith, h)

outside_too : (p r : Bool) → false ≡ (p && false && r)
outside_too p r = ground arith

cut_to :
    (i h l r m : Bool) → (m ≡ true → i ≡ true) → ((l && r) ≡ m) → ((i && h) && (l && r)) ≡ (m && h)
cut_to i h l r m f e = ground (arith, f, e)

and_true : (p q : Bool) → p ≡ true → q ≡ true → (p && q) ≡ true
and_true p q h k = ground (arith, h, k)

module _ (a b x : ℕ) (ii : BitPrefixInvertedIndex) (w : IsWellFormed a ii) (s : IsShard b x) where
  abbrev chosen : Selection
  chosen = selection a b x w.few s

  -- the shards that are read
  abbrev part_shards : List IndexShard
  part_shards = take (chosen.upper - chosen.lower) (drop chosen.lower ii.shards)

  lower-upper : chosen.lower ≤ chosen.upper
  lower-upper =
      subst (λ u. chosen.lower ≤ u) (sym (upper_is a b x w.few s)) (lower-le a b x w.few s)

  upper-count : chosen.upper ≤ length ii.shards
  upper-count =
      subst (λ n. chosen.upper ≤ n) (sym w.count)
        (subst (λ u. u ≤ 2 ^ a) (sym (upper_is a b x w.few s)) (upper-le a b x w.few s))

  shards_of-lem : shards_of ii (some (request a b x w.few s)) ≡ ok (part_shards, chosen.filter)
  unfolding shards_of
  shards_of-lem =
      let n = length ii.shards in
      let counted : get_shards n (some (request a b x w.few s)) ≡ chosen =
        ap (λ m. get_shards m (some (request a b x w.few s))) w.count in
      rw (counted, le→leb chosen.lower chosen.upper lower-upper, le→leb chosen.upper n upper-count)
        refl

  part_shards-At : ShardsAt a w.few chosen.lower part_shards
  part_shards-At =
      ShardsAt-take a w.few chosen.lower (chosen.upper - chosen.lower) (drop chosen.lower ii.shards)
        (subst (λ i. ShardsAt a w.few i (drop chosen.lower ii.shards)) (omega arith)
          (ShardsAt-drop a w.few 0 chosen.lower ii.shards w.placed))

  module _ (fp : ℕ) (matcher : Matcher) (matchers : List Matcher) where
    abbrev i : ℕ
    i = shard_for_fp (2 ^ a) fp

    abbrev inside : Bool
    inside = leb chosen.lower i && ltb i chosen.upper

    has-selects :
        (k j : ℕ) (shards : List IndexShard)
        → ShardsAt a w.few j shards
        → has fp (matcher ∷ matchers) (get_elem? shards k)
          ≡ selects fp (matcher ∷ matchers) (get_elem? shards k)
    has-selects k j [] p = refl
    has-selects zero j (s ∷ shards) p = elem-lookup s.idx matcher matchers fp p.0.1
    has-selects (suc k) j (s ∷ shards) p = has-selects k (suc j) shards p.1

    -- the shards read have the fingerprint if its shard is one of them and has it
    read_lem :
        elem fp (read_shards (matcher ∷ matchers) part_shards)
        ≡ (inside && selects fp (matcher ∷ matchers) (get_elem? ii.shards i))
    read_lem = elim (Bool-cases (leb chosen.lower i)) [
      | inr e ↦
          read_shards-before a w.few fp (matcher ∷ matchers) chosen.lower part_shards part_shards-At
            (ground arith)
          ∙ outside (leb chosen.lower i) (ltb i chosen.upper)
              (selects fp (matcher ∷ matchers) (get_elem? ii.shards i)) e
      | inl e ↦
          let k = i - chosen.lower in
          let le : chosen.lower ≤ i = ground arith in
          let back : chosen.lower + k ≡ i = omega arith in
          let forth : ltb k (chosen.upper - chosen.lower) ≡ ltb i chosen.upper =
            ground (arith, lower-upper) in
          read_shards-at a w.few fp (matcher ∷ matchers) chosen.lower k part_shards part_shards-At
            (omega arith)
          ∙ ap (has fp (matcher ∷ matchers)) (
              get_elem?-take (chosen.upper - chosen.lower) k (drop chosen.lower ii.shards)
              ∙ ap (λ t. if t then get_elem? (drop chosen.lower ii.shards) k else none) forth
              ∙ ap (λ o. if ltb i chosen.upper then o else none)
                  (get_elem?-drop chosen.lower k ii.shards ∙ ap (get_elem? ii.shards) back))
          ∙ in_range (leb chosen.lower i) (ltb i chosen.upper) e (get_elem? ii.shards i)
              (has-selects i 0 ii.shards w.placed)
    ]
      where
        outside : (p q r : Bool) → p ≡ false → false ≡ (p && q && r)
        outside p q r h = ground (arith, h)

        in_range :
            (p q : Bool)
            → p ≡ true
            → (o : Option IndexShard)
            → has fp (matcher ∷ matchers) o ≡ selects fp (matcher ∷ matchers) o
            → has fp (matcher ∷ matchers) (if q then o else none)
              ≡ (p && q && selects fp (matcher ∷ matchers) o)
        in_range p true h o e = e ∙ when p (selects fp (matcher ∷ matchers) o) h
        in_range p false h o e = outside_too p (selects fp (matcher ∷ matchers) o)

    abbrev matches : Bool
    matches = match (new_shard x (2 ^ b)) fp

    inside_of_match : fp < max_uint64 → matches ≡ true → inside ≡ true
    inside_of_match h m =
        let c = get_shards-covers a b x w.few s fp (omega arith) m in
        and_true (leb chosen.lower i) (ltb i chosen.upper) (ground (arith, c.0))
          (ground (arith, c.1))

    match_of_inside : fp < max_uint64 → chosen.filter ≡ false → inside ≡ true → matches ≡ true
    match_of_inside h f e =
        (get_shards-exact a b x w.few s (fewer_of_filter a b x w.few s f) fp (omega arith)
          (ground arith) (ground arith)).1

    in_bounds :
        fp < max_uint64
        → (leb (bounds (tsdb (request a b x w.few s))).0 fp
            && ltb fp (bounds (tsdb (request a b x w.few s))).1)
          ≡ matches
    in_bounds h =
        let both = bounds_iff b x fp s h in
        let lo = (bounds (new_shard x (2 ^ b))).0 in
        let hi = (bounds (new_shard x (2 ^ b))).1 in
        subst (λ r. (leb (bounds r).0 fp && ltb fp (bounds r).1) ≡ matches)
          (sym (tsdb_lem a b x w.few s))
          (Bool-ext (leb lo fp && ltb fp hi) matches (λ e. both.1 (ground arith, ground arith))
            (λ m.
              and_true (leb lo fp) (ltb fp hi) (ground (arith, (both.0 m).0))
                (ground (arith, (both.0 m).1))))

    abbrev wanted : Bool
    wanted = selects fp (matcher ∷ matchers) (get_elem? ii.shards i)

    whole_lem :
        fp < max_uint64
        → chosen.filter ≡ false
        → elem fp (read_shards (matcher ∷ matchers) part_shards) ≡ (matches && wanted)
    whole_lem h f =
        read_lem
        ∙ ap (λ t. t && wanted) (Bool-ext inside matches (match_of_inside h f) (inside_of_match h))

    cut_wanted :
        fp < max_uint64
        → (elem fp (read_shards (matcher ∷ matchers) part_shards)
            && (leb (bounds (tsdb (request a b x w.few s))).0 fp
                && ltb fp (bounds (tsdb (request a b x w.few s))).1))
          ≡ (matches && wanted)
    cut_wanted h =
        let r = tsdb (request a b x w.few s) in
        ap (λ t. t && (leb (bounds r).0 fp && ltb fp (bounds r).1)) read_lem
        ∙ cut_to inside wanted (leb (bounds r).0 fp) (ltb fp (bounds r).1) matches
            (inside_of_match h) (in_bounds h)

  -- what a lookup by at least one matcher comes to before and after the cut
  lookup_round :
      (matcher : Matcher) (matchers : List Matcher)
      → lookup_series ii (matcher ∷ matchers) (some (request a b x w.few s))
        ≡ filtered
            (some (request a b x w.few s))
            chosen.filter
            (read_shards (matcher ∷ matchers) part_shards)
  unfolding lookup_series
  lookup_round matcher matchers = rw (validate_lem a b x w.few s, shards_of-lem) refl

-- On a well-formed index of 2^a shards a lookup by at least one matcher for shard x of 2^b (b from
-- 1 to 31) succeeds, in ascending order, and has a fingerprint below the greatest uint64 exactly if
-- the requested shard matches it and every matcher selects it in the shard of the index that it
-- belongs to, whether the index has more shards than are asked for or fewer.
pub lookup_series-answers :
    (a b x : ℕ) (ii : BitPrefixInvertedIndex) (matcher : Matcher) (matchers : List Matcher)
    → IsWellFormed a ii
    → IsShard b x
    → (result : List ℕ) × (lookup_series ii
          (matcher ∷ matchers)
          (some (record { shard = x; of = 2 ^ b }))
        ≡ ok result)
      × Ascends 0 result
      × ((fp : ℕ)
          → fp < max_uint64
          → elem fp result ≡ (
              match (new_shard x (2 ^ b)) fp
              && selects fp (matcher ∷ matchers) (get_elem? ii.shards (shard_for_fp (2 ^ a) fp))))
lookup_series-answers a b x ii matcher matchers w s =
    let round = lookup_round a b x ii w s matcher matchers in
    let chosen = selection a b x w.few s in
    let found = read_shards (matcher ∷ matchers) (part_shards a b x ii w s) in
    let ascending =
      read_shards-Ascends a w.few chosen.lower matcher matchers (part_shards a b x ii w s)
        (part_shards-At a b x ii w s) in
    elim (Bool-cases chosen.filter) [
      | inl e ↦
          let ordered =
            subst (λ r. (bounds r).0 ≤ (bounds r).1) (sym (tsdb_lem a b x w.few s))
              (bounds_ordered a b x w.few s) in
          let (result, (cut_is, (ascends, has_them))) =
            cut_lem (tsdb (request a b x w.few s)) (chosen.lower * part a w.few) found ordered
              ascending in
          (
            result,
            round ∙ ap (λ t. filtered (some (request a b x w.few s)) t found) e ∙ cut_is,
            Ascends-weaken 0 (chosen.lower * part a w.few) result (omega arith) ascends,
            λ fp h. has_them fp ∙ cut_wanted a b x ii w s fp matcher matchers h,
          )
      | inr e ↦ (
        found,
        round ∙ ap (λ t. filtered (some (request a b x w.few s)) t found) e,
        Ascends-weaken 0 (chosen.lower * part a w.few) found (omega arith) ascending,
        λ fp h. whole_lem a b x ii w s fp matcher matchers h e,
      )
    ]
