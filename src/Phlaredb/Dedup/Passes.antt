-- ===== src/Phlaredb/Dedup/Passes.antt =====
-- The two passes of `ingest` in pkg/phlaredb/deduplicating_slice.go, between which other calls may
-- extend the slice.
use phlare.Base.{ℕ, ◌≡◌, refl, sym, ◌∙◌, Option, none, some, List, [], ◌∷◌, ◌⊎◌, inl, inr, All}
use phlare.Phlaredb.Dedup.{
  Helper, IsLawful, DeduplicatingSlice, find_key, add_round, add_pass, known_round, known_pass,
  numbered,
}
use phlare.Phlaredb.Dedup.Lists.{IsIn, All-of, All-both, All-map}
use phlare.Phlaredb.Dedup.Indexed.{
  IsIndexed, Extends, old_of, IsRewritten, IsRewritten-extend, IsRewritten-other, IsRewritten-here,
  add_round-Adds,
}

module _ {M K R : Type 0} (h : Helper M K R) (law : IsLawful h) where
  abbrev pub Differs : ℕ × M → ℕ × M → Type 0
  Differs q r = ¬ (old_of h law r ≡ old_of h law q)

  -- the elements come with different identifiers
  abbrev pub HasDistinct : List (ℕ × M) → Type 0
  HasDistinct [] = Unit
  HasDistinct (q ∷ pairs) = All (Differs q) pairs × HasDistinct pairs

  -- The second pass: its elements are rewritten, and those of other identifiers stay rewritten.
  pub record AddsAll (s : DeduplicatingSlice M K) (map : List (ℕ × ℕ)) (missing : List (ℕ × M))
      (after : DeduplicatingSlice M K × List (ℕ × ℕ)) : Type 0 where
    pub indexed : IsIndexed h law after.0
    pub grown : Extends h law s after.0
    pub rewritten : All (IsRewritten h law after.0 after.1) missing
    pub others :
        (r : ℕ × M)
        → All (Differs r) missing
        → IsRewritten h law s map r
        → IsRewritten h law after.0 after.1 r

  pub add_pass-AddsAll :
      (s : DeduplicatingSlice M K) (map : List (ℕ × ℕ)) (missing : List (ℕ × M))
      → IsIndexed h law s
      → HasDistinct missing
      → AddsAll s map missing (add_pass h s map missing)
  unfolding add_pass
  add_pass-AddsAll s map [] i d = record {
    indexed = i;
    grown = λ p m e. e;
    rewritten = tt;
    others = λ r a w. w;
  }
  add_pass-AddsAll s map (q ∷ missing) i d =
      let o = find_key h (h.key q.1) s.lookup in
      let after = add_round h s map q o in
      let first = add_round-Adds h law s map q i o refl in
      let rest = add_pass-AddsAll after.0 after.1 missing first.indexed d.1 in
      record {
        indexed = rest.indexed;
        grown = λ p m e. rest.grown p m (first.grown p m e);
        rewritten = (rest.others q d.0 first.rewritten, rest.rewritten);
        others = λ r a w. rest.others r a.1 (first.others r a.0 w);
      }

  module _ (s : DeduplicatingSlice M K) (i : IsIndexed h law s) where
    -- The first pass: an element is missing, or rewritten and unlike the missing ones.
    abbrev pub IsSortedOut : List (ℕ × ℕ) × List (ℕ × M) → ℕ × M → Type 0
    IsSortedOut after r = IsIn r after.1 ⊎ (IsRewritten h law s after.0 r × All (Differs r) after.1)

    record Sorts (map : List (ℕ × ℕ)) (pairs : List (ℕ × M)) (after : List (ℕ × ℕ) × List (ℕ × M))
        : Type 0 where
      subset : (r : ℕ × M) → All (Differs r) pairs → All (Differs r) after.1
      distinct : HasDistinct after.1
      sorted_out : All (IsSortedOut after) pairs
      others :
          (r : ℕ × M)
          → All (Differs r) pairs
          → IsRewritten h law s map r
          → IsRewritten h law s after.0 r

    known_round-Sorts :
        (q : ℕ × M) (pairs : List (ℕ × M)) (map : List (ℕ × ℕ))
        → HasDistinct (q ∷ pairs)
        → ((map : List (ℕ × ℕ)) → Sorts map pairs (known_pass h s.lookup pairs map))
        → (o : Option ℕ) → find_key h (h.key q.1) s.lookup ≡ o
        → Sorts map (q ∷ pairs) (
            known_round h q
              (known_pass h s.lookup pairs map)
              (λ p. known_pass h s.lookup pairs (((h.set_id q.0 p q.1).1, p) ∷ map))
              o)
    known_round-Sorts q pairs map d rest none e =
        let r = rest map in
        let after = known_pass h s.lookup pairs map in
        record {
          subset = λ t a. (a.0, r.subset t a.1);
          distinct = (r.subset q d.0, r.distinct);
          sorted_out = (
            inl (inl refl),
            All-both (Differs q) (IsSortedOut after) (IsSortedOut (after.0, q ∷ after.1)) pairs
                (λ t ne so. listed after t q ne so) d.0 r.sorted_out,
          );
          others = λ t a w. r.others t a.1 w;
        }
      where
        listed :
            (after : List (ℕ × ℕ) × List (ℕ × M)) (t q : ℕ × M)
            → Differs q t
            → IsSortedOut after t
            → IsSortedOut (after.0, q ∷ after.1) t
        listed after t q ne (inl j) = inl (inr j)
        listed after t q ne (inr w) = inr (w.0, ((λ same. ne (sym same)), w.1))
    known_round-Sorts q pairs map d rest (some p) e =
        let o = (h.set_id q.0 p q.1).1 in
        let r = rest ((o, p) ∷ map) in
        let (m, (f, k)) = i.stored (h.key q.1) p e in
        record {
          subset = λ t a. r.subset t a.1;
          distinct = r.distinct;
          sorted_out = (
            inr (r.others q d.0 (IsRewritten-here h law s map q p p m f k), r.subset q d.0),
            r.sorted_out,
          );
          others = λ t a w. r.others t a.1 (
              IsRewritten-other h law s map t o p
                (λ same. a.0 (sym (law.old-set_id q.0 p q.1) ∙ same)) w);
        }

    known_pass-Sorts :
        (pairs : List (ℕ × M)) (map : List (ℕ × ℕ))
        → HasDistinct pairs
        → Sorts map pairs (known_pass h s.lookup pairs map)
    unfolding known_pass
    known_pass-Sorts [] map d = record {
      subset = λ r a. tt;
      distinct = tt;
      sorted_out = tt;
      others = λ r a w. w;
    }
    known_pass-Sorts (q ∷ pairs) map d =
        known_round-Sorts q pairs map d (λ map'. known_pass-Sorts pairs map' d.1)
          (find_key h (h.key q.1) s.lookup) refl

-- Over a lawful helper, where a profile's elements come with different identifiers: if the first
-- pass runs on one indexed slice and the second on another that extends it, as other calls may
-- leave it in between, then the slice is indexed afterwards, has kept every position, and the
-- rewriting map leads from every element to the stored element of its key.
pub ingest-rewrites :
    {M K R : Type 0} (h : Helper M K R) (law : IsLawful h) (s s' : DeduplicatingSlice M K)
    (elems : List M)
    → IsIndexed h law s
    → IsIndexed h law s'
    → Extends h law s s'
    → HasDistinct h law (numbered h 0 elems)
    → (let (map, missing) = known_pass h s.lookup (numbered h 0 elems) [] in
        let after = add_pass h s' map missing in
        IsIndexed h law after.0
        × Extends h law s' after.0
        × All (IsRewritten h law after.0 after.1) (numbered h 0 elems))
ingest-rewrites h law s s' elems i i' x d =
    let pairs = numbered h 0 elems in
    let first = known_pass-Sorts h law s i pairs [] d in
    let (map, missing) = known_pass h s.lookup pairs [] in
    let second = add_pass-AddsAll h law s' map missing i' first.distinct in
    let after = add_pass h s' map missing in
    (
      second.indexed,
      second.grown,
      All-map (IsSortedOut h law s i (map, missing)) (IsRewritten h law after.0 after.1) pairs
          (λ r so. elim so [
            | inl j ↦ All-of (IsRewritten h law after.0 after.1) r missing j second.rewritten
            | inr w ↦ second.others r w.1 (IsRewritten-extend h law s s' map r x w.0)
          ])
          first.sorted_out,
    )
