-- ===== src/Tsdb/Index/Lookup.antt =====
-- What `lookup` of pkg/phlaredb/tsdb/index.go returns for a list of matchers.
use phlare.Base.{
  ℕ, ◌≡◌, refl, sym, ap, ◌∙◌, Bool, true, false, ◌&&◌, Option, none, some, List, [], ◌∷◌, inl, inr,
  arith, elem, Ascends, Bool-cases,
}
use phlare.Base.Order.{Bytes}
use phlare.Base.Map.{find}
use phlare.Tsdb.Index.{
  or_empty, is_none, is_empty, IndexEntry, UnlockIndex, Matcher, MatchType, match_equal,
  match_not_equal, match_regexp, match_not_regexp, entry_of, fps_of, collect_set, collect_matching,
  of_set, of_type, to_intersect, lookup_loop, lookup,
}
use phlare.Tsdb.Index.Collected.{
  matches_any, word_has, sort-Ascends, elem-sort, elem-collect_set, elem-collect_matching,
}
use phlare.Tsdb.Index.Intersect.{intersect, intersect-Ascends}
use phlare.Tsdb.Index.SetMatches.{find_set_matches}
use phlare.Tsdb.Index.Store.{IsSorted}
use phlare.Tsdb.Index.Delete.{is_empty-nil}

abbrev pub selected_by_set : ℕ → Matcher → IndexEntry → List Bytes → Bool
selected_by_set z matcher values [] = matches_any z matcher.matches values
selected_by_set z matcher values (word ∷ words) = word_has z (word ∷ words) values

abbrev pub selected_by_type : ℕ → Matcher → IndexEntry → MatchType → Bool
selected_by_type z matcher values match_equal = elem z (fps_of matcher.pattern values)
selected_by_type z matcher values match_regexp =
    selected_by_set z matcher values (find_set_matches matcher.pattern)
selected_by_type z matcher values match_not_equal = matches_any z matcher.matches values
selected_by_type z matcher values match_not_regexp = matches_any z matcher.matches values

-- The matcher selects the fingerprint: it is indexed under the matcher's label name with the value
-- that is asked for, or with a word of the pattern, or else with some value that matches.
abbrev pub selected : ℕ → Matcher → UnlockIndex → Bool
selected z matcher idx =
    selected_by_type z matcher (entry_of matcher.label_name idx) matcher.matcher_type

abbrev pub all_select : ℕ → List Matcher → UnlockIndex → Bool
all_select z [] idx = true
all_select z (matcher ∷ matchers) idx = selected z matcher idx && all_select z matchers idx

elem-of_type :
    (z : ℕ) (matcher : Matcher) (values : IndexEntry) (t : MatchType)
    → elem z (of_type matcher values t) ≡ selected_by_type z matcher values t
unfolding of_type of_set
elem-of_type z matcher values match_equal = refl
elem-of_type z matcher values match_not_equal =
    elem-sort z (collect_matching matcher.matches values)
    ∙ elem-collect_matching z matcher.matches values
elem-of_type z matcher values match_not_regexp =
    elem-sort z (collect_matching matcher.matches values)
    ∙ elem-collect_matching z matcher.matches values
elem-of_type z matcher values match_regexp = by_words (find_set_matches matcher.pattern)
  where
    by_words :
        (words : List Bytes)
        → elem z (of_set matcher values words) ≡ selected_by_set z matcher values words
    by_words [] =
        elem-sort z (collect_matching matcher.matches values)
        ∙ elem-collect_matching z matcher.matches values
    by_words (word ∷ words) =
        elem-sort z (collect_set (word ∷ words) values) ∙ elem-collect_set z (word ∷ words) values

of_type-Ascends :
    (matcher : Matcher) (idx : UnlockIndex) (t : MatchType)
    → IsSorted idx
    → Ascends 0 (of_type matcher (entry_of matcher.label_name idx) t)
unfolding of_type of_set
of_type-Ascends matcher idx match_equal s = s matcher.label_name matcher.pattern
of_type-Ascends matcher idx match_not_equal s =
    sort-Ascends (collect_matching matcher.matches (entry_of matcher.label_name idx))
of_type-Ascends matcher idx match_not_regexp s =
    sort-Ascends (collect_matching matcher.matches (entry_of matcher.label_name idx))
of_type-Ascends matcher idx match_regexp s = by_words (find_set_matches matcher.pattern)
  where
    by_words :
        (words : List Bytes) → Ascends 0 (of_set matcher (entry_of matcher.label_name idx) words)
    by_words [] = sort-Ascends (collect_matching matcher.matches (entry_of matcher.label_name idx))
    by_words (word ∷ words) =
        sort-Ascends (collect_set (word ∷ words) (entry_of matcher.label_name idx))

word_has-nil : (z : ℕ) (words : List Bytes) → word_has z words [] ≡ false
unfolding find
word_has-nil z [] = refl
word_has-nil z (word ∷ words) = word_has-nil z words

selected-nil : (z : ℕ) (matcher : Matcher) (t : MatchType) → selected_by_type z matcher [] t ≡ false
unfolding find
selected-nil z matcher match_equal = refl
selected-nil z matcher match_not_equal = refl
selected-nil z matcher match_not_regexp = refl
selected-nil z matcher match_regexp = by_words (find_set_matches matcher.pattern)
  where
    by_words : (words : List Bytes) → selected_by_set z matcher [] words ≡ false
    by_words [] = refl
    by_words (word ∷ words) = word_has-nil z (word ∷ words)

is_none-nil {ℓ} : {A : Type ℓ} (o : Option (List A)) → is_none o ≡ true → or_empty o ≡ []
is_none-nil none h = refl
is_none-nil (some l) h = absurd (ground arith)

module _ (idx : UnlockIndex) (sorted : IsSorted idx) (z : ℕ) where
  nothing_selected :
      (matcher : Matcher)
      → is_none (find matcher.label_name idx) ≡ true
      → selected z matcher idx ≡ false
  nothing_selected matcher e =
      ap (λ values. selected_by_type z matcher values matcher.matcher_type)
        (is_none-nil (find matcher.label_name idx) e)
      ∙ selected-nil z matcher matcher.matcher_type

  pub to_intersect_lem :
      (matcher : Matcher)
      → Ascends 0 (to_intersect matcher (entry_of matcher.label_name idx))
        × (elem z (to_intersect matcher (entry_of matcher.label_name idx)) ≡ selected z matcher idx)
  unfolding to_intersect
  to_intersect_lem matcher = (
    of_type-Ascends matcher idx matcher.matcher_type sorted,
    elem-of_type z matcher (entry_of matcher.label_name idx) matcher.matcher_type,
  )

  empty_has_none : (l : List ℕ) → is_empty l ≡ true → elem z l ≡ false
  empty_has_none l e = ap (elem z) (sym (is_empty-nil l e))

  -- a round that goes on with `result`, however it was found
  round_lem :
      (matcher : Matcher) (matchers : List Matcher) (o : Option (List ℕ)) (before : Bool)
      → elem z (intersect o (to_intersect matcher (entry_of matcher.label_name idx)))
        ≡ (before && selected z matcher idx)
      → elem z (
          lookup_loop idx matchers
            (some (intersect o (to_intersect matcher (entry_of matcher.label_name idx)))))
        ≡ (elem z (intersect o (to_intersect matcher (entry_of matcher.label_name idx)))
            && all_select z matchers idx)
      → elem z (lookup_loop idx (matcher ∷ matchers) o)
        ≡ (before && all_select z (matcher ∷ matchers) idx)
  unfolding lookup_loop
  round_lem matcher matchers o before here onward =
      let result = intersect o (to_intersect matcher (entry_of matcher.label_name idx)) in
      elim (Bool-cases (is_none (find matcher.label_name idx))) [
        | inl e ↦ rw e (
            none_found before (selected z matcher idx) (all_select z matchers idx)
              (nothing_selected matcher e))
        | inr e ↦ elim (Bool-cases (is_empty result)) [
          | inl f ↦
              rw (e, f)
                (emptied before (selected z matcher idx) (all_select z matchers idx) (elem z result)
                  here (empty_has_none result f))
          | inr f ↦
              rw (e, f)
                (onward
                  ∙ regroup before (selected z matcher idx) (all_select z matchers idx)
                      (elem z result) here)
        ]
      ]
    where
      none_found : (p q r : Bool) → q ≡ false → false ≡ (p && (q && r))
      none_found p q r h = ground (arith, h)

      emptied : (p q r i : Bool) → i ≡ (p && q) → i ≡ false → false ≡ (p && (q && r))
      emptied p q r i h k = ground (arith, h, k)

      regroup : (p q r i : Bool) → i ≡ (p && q) → (i && r) ≡ (p && (q && r))
      regroup p q r i h = ground (arith, h)

  lookup_loop_lem :
      (matchers : List Matcher) (result : List ℕ)
      → Ascends 0 result
      → elem z (lookup_loop idx matchers (some result))
        ≡ (elem z result && all_select z matchers idx)
  unfolding lookup_loop
  lookup_loop_lem [] result s = ground arith
  lookup_loop_lem (matcher ∷ matchers) result s =
      let values = to_intersect matcher (entry_of matcher.label_name idx) in
      let step = to_intersect_lem matcher in
      let both = intersect-Ascends z 0 result values s step.0 in
      round_lem matcher matchers (some result) (elem z result)
        (both.1 ∙ ap (λ b. elem z result && b) step.1)
        (lookup_loop_lem matchers (intersect (some result) values) both.0)

-- Over an index whose lists are sorted, a lookup by at least one matcher returns exactly the
-- fingerprints that every matcher selects: those indexed under its name with the value asked for,
-- or with a word of its pattern, or else with some value that it matches.
pub elem-lookup :
    (idx : UnlockIndex) (matcher : Matcher) (matchers : List Matcher) (z : ℕ)
    → IsSorted idx
    → elem z (lookup idx (matcher ∷ matchers)) ≡ all_select z (matcher ∷ matchers) idx
unfolding lookup intersect
elem-lookup idx matcher matchers z sorted =
    let step = to_intersect_lem idx sorted z matcher in
    round_lem idx sorted z matcher matchers none true step.1 (
      lookup_loop_lem idx sorted z matchers (to_intersect matcher (entry_of matcher.label_name idx))
        step.0)
