-- ===== src/Tsdb/Index/Tests.antt =====
-- Runs of the inverted index and of its list functions at concrete inputs.
use phlare.Base.{ℕ, ◌≡◌, refl, true, not, [], ◌∷◌, arith, inl, inr, Bool-cases, elem, Ascends, some}
use phlare.Base.Order.{Bytes, IsStrict, ltb_bytes, ltb_bytes-IsOrder, contains}
use phlare.Base.Map.{find, eq_bytes}
use phlare.Tsdb.Index.{LabelPair, UnlockIndex, Matcher, match_equal, match_not_equal, add, lookup}
use phlare.Tsdb.Index.Merge.{merge_slices, merge_slices-IsStrict}
use phlare.Tsdb.Index.Intersect.{intersect, intersect-Ascends}
use phlare.Tsdb.Index.SetMatches.{find_set_matches, is_regex_meta_character}
use phlare.Tsdb.Index.SetMatches.RoundTrip.{IsNonempty, find_set_matches-set_pattern}
use phlare.Tsdb.Index.Store.{IsSorted, indexed, add-indexed}
use phlare.Tsdb.Index.Lookup.{elem-lookup}

-- the strings "a", "b" and "c"
abbrev a : Bytes
a = 97 ∷ []

abbrev b : Bytes
b = 98 ∷ []

abbrev c : Bytes
c = 99 ∷ []

merge_slices-IsStrict_example :
    IsStrict ltb_bytes (merge_slices ltb_bytes ((a ∷ c ∷ []) ∷ (b ∷ c ∷ []) ∷ (a ∷ []) ∷ []))
    × (contains ltb_bytes b (merge_slices ltb_bytes ((a ∷ c ∷ []) ∷ (b ∷ c ∷ []) ∷ (a ∷ []) ∷ []))
        ≡ true)
merge_slices-IsStrict_example =
    merge_slices-IsStrict ltb_bytes ltb_bytes-IsOrder b
      ((a ∷ c ∷ []) ∷ (b ∷ c ∷ []) ∷ (a ∷ []) ∷ [])
      (((refl, tt), (tt, tt)), (((refl, tt), (tt, tt)), ((tt, tt), tt)))

intersect-Ascends_example :
    Ascends 0 (intersect (some (1 ∷ 3 ∷ 5 ∷ [])) (3 ∷ 4 ∷ 5 ∷ []))
    × (elem 3 (intersect (some (1 ∷ 3 ∷ 5 ∷ [])) (3 ∷ 4 ∷ 5 ∷ [])) ≡ true)
intersect-Ascends_example =
    intersect-Ascends 3 0 (1 ∷ 3 ∷ 5 ∷ []) (3 ∷ 4 ∷ 5 ∷ []) (omega arith) (omega arith)

-- the pattern `^(?:a\.|b)$`
find_set_matches-set_pattern_example :
    find_set_matches (94 ∷ 40 ∷ 63 ∷ 58 ∷ 97 ∷ 92 ∷ 46 ∷ 124 ∷ 98 ∷ 41 ∷ 36 ∷ [])
    ≡ (97 ∷ 46 ∷ []) ∷ b ∷ []
unfolding is_regex_meta_character
find_set_matches-set_pattern_example =
    find_set_matches-set_pattern (97 ∷ 46 ∷ []) (b ∷ [])
      ((λ e. nonempty 97 (46 ∷ []) e), ((λ e. nonempty 98 [] e), tt))
  where
    nonempty : (x : ℕ) (xs : Bytes) → IsNonempty (x ∷ xs)
    nonempty x xs e = absurd (ground (arith, e))

abbrev pair : LabelPair
pair = record { name = a; value = b }

abbrev idx : UnlockIndex
idx = (a, (b, 2 ∷ 5 ∷ []) ∷ []) ∷ []

idx-IsSorted : IsSorted idx
unfolding find
idx-IsSorted n v = elim (Bool-cases (eq_bytes n a)) [
  | inr e ↦ rw e tt
  | inl e ↦ elim (Bool-cases (eq_bytes v b)) [
    | inl f ↦ rw (e, f) (omega arith)
    | inr f ↦ rw (e, f) tt
  ]
]

add-indexed_example :
    (indexed 3 a b (add (pair ∷ []) 3 idx) ≡ true) × IsSorted (add (pair ∷ []) 3 idx)
unfolding find
add-indexed_example = add-indexed (pair ∷ []) 3 idx 3 a b idx-IsSorted

abbrev equals : Matcher
equals = record {
  matcher_type = match_equal;
  label_name = a;
  pattern = b;
  matches = λ v. eq_bytes v b;
}

abbrev differs : Matcher
differs = record {
  matcher_type = match_not_equal;
  label_name = a;
  pattern = c;
  matches = λ v. not (eq_bytes v c);
}

elem-lookup_example : elem 5 (lookup idx (equals ∷ differs ∷ [])) ≡ true
unfolding find
elem-lookup_example = elem-lookup idx equals (differs ∷ []) 5 idx-IsSorted
