-- ===== src/Tsdb/Index/Within/Read.antt =====
-- What is read from an index whose fingerprints all have a property has it too, and a lookup's
-- result ascends.
use mathlib.Core.Path.{subst}
use phlare.Base.{
  ℕ, Bool, Option, none, some, List, [], ◌∷◌, ◌++◌, leb, if◌then◌else◌, elem, All, Ascends,
}
use phlare.Base.Order.{Bytes}
use phlare.Base.Map.{find}
use phlare.Tsdb.Index.{
  IndexEntry, UnlockIndex, Matcher, MatchType, match_equal, match_not_equal, match_regexp,
  match_not_regexp, or_empty, fps_of, insert_sorted, sort, collect_set, collect_matching, of_set,
  of_type, to_intersect, lookup_loop, lookup, fps_of_entry, fps_of_index, dedup_loop, all_fps,
  is_empty, is_none,
}
use phlare.Tsdb.Index.Intersect.{intersect, intersect-Ascends, intersect-All}
use phlare.Tsdb.Index.SetMatches.{find_set_matches}
use phlare.Tsdb.Index.Store.{IsSorted}
use phlare.Tsdb.Index.Lookup.{to_intersect_lem}
use phlare.Tsdb.Index.Within.{append-All, either, EntryWithin, IsWithin, find-All, entry_of-Within}

module _ (P : ℕ → Type 0) where
  insert_sorted-All : (x : ℕ) (xs : List ℕ) → P x → All P xs → All P (insert_sorted x xs)
  insert_sorted-All x [] h a = (h, tt)
  insert_sorted-All x (y ∷ ys) h a =
      either (All P) (leb x y) (x ∷ y ∷ ys) (y ∷ insert_sorted x ys) (h, (a.0, a.1))
        (a.0, insert_sorted-All x ys h a.1)

  sort-All : (xs : List ℕ) → All P xs → All P (sort xs)
  unfolding sort
  sort-All [] a = tt
  sort-All (x ∷ xs) a = insert_sorted-All x (sort xs) a.0 (sort-All xs a.1)

  collect_set-All :
      (words : List Bytes) (values : IndexEntry)
      → EntryWithin P values
      → All P (collect_set words values)
  unfolding collect_set
  collect_set-All [] values e = tt
  collect_set-All (word ∷ words) values e =
      append-All P (fps_of word values) (collect_set words values) (find-All P word values e)
        (collect_set-All words values e)

  collect_matching-All :
      (matches : Bytes → Bool) (values : IndexEntry)
      → EntryWithin P values
      → All P (collect_matching matches values)
  unfolding collect_matching
  collect_matching-All matches [] e = tt
  collect_matching-All matches ((value, fps) ∷ values) e =
      let rest = collect_matching matches values in
      let rest-All = collect_matching-All matches values e.1 in
      either (All P) (matches value) (fps ++ rest) rest (append-All P fps rest e.0 rest-All)
        rest-All

  of_type-All :
      (matcher : Matcher) (values : IndexEntry) (t : MatchType)
      → EntryWithin P values
      → All P (of_type matcher values t)
  unfolding of_type of_set
  of_type-All matcher values match_equal e = find-All P matcher.pattern values e
  of_type-All matcher values match_not_equal e =
      sort-All (collect_matching matcher.matches values)
        (collect_matching-All matcher.matches values e)
  of_type-All matcher values match_not_regexp e =
      sort-All (collect_matching matcher.matches values)
        (collect_matching-All matcher.matches values e)
  of_type-All matcher values match_regexp e = by_words (find_set_matches matcher.pattern)
    where
      by_words : (words : List Bytes) → All P (of_set matcher values words)
      by_words [] =
          sort-All (collect_matching matcher.matches values)
            (collect_matching-All matcher.matches values e)
      by_words (word ∷ words) =
          sort-All (collect_set (word ∷ words) values) (collect_set-All (word ∷ words) values e)

  lookup_loop-All :
      (idx : UnlockIndex) (matchers : List Matcher) (result : Option (List ℕ))
      → IsWithin P idx
      → All P (or_empty result)
      → All P (lookup_loop idx matchers result)
  unfolding lookup_loop intersect to_intersect
  lookup_loop-All idx [] none w a = tt
  lookup_loop-All idx [] (some result) w a = a
  lookup_loop-All idx (matcher ∷ matchers) o w a =
      let known = find matcher.label_name idx in
      let found = to_intersect matcher (or_empty known) in
      let found-All : All P found =
        of_type-All matcher (or_empty known) matcher.matcher_type
          (entry_of-Within P matcher.label_name idx w) in
      let result = intersect o found in
      let onward =
        lookup_loop-All idx matchers (some result) w
          (intersect-All P o found (λ left e. subst (λ r. All P (or_empty r)) e a) found-All) in
      either (All P) (is_none known) []
        (if is_empty result then [] else lookup_loop idx matchers (some result)) tt
        (either (All P) (is_empty result) [] (lookup_loop idx matchers (some result)) tt onward)

  fps_of_entry-All : (values : IndexEntry) → EntryWithin P values → All P (fps_of_entry values)
  fps_of_entry-All [] e = tt
  fps_of_entry-All ((value, fps) ∷ values) e =
      append-All P fps (fps_of_entry values) e.0 (fps_of_entry-All values e.1)

  fps_of_index-All : (idx : UnlockIndex) → IsWithin P idx → All P (fps_of_index idx)
  fps_of_index-All [] w = tt
  fps_of_index-All ((name, values) ∷ idx) w =
      append-All P (fps_of_entry values) (fps_of_index idx) (fps_of_entry-All values w.0)
        (fps_of_index-All idx w.1)

  dedup_loop-All : (seen fps : List ℕ) → All P fps → All P (dedup_loop seen fps)
  dedup_loop-All seen [] a = tt
  dedup_loop-All seen (fp ∷ fps) a =
      either (All P) (elem fp seen) (dedup_loop seen fps) (fp ∷ dedup_loop (fp ∷ seen) fps)
        (dedup_loop-All seen fps a.1) (a.0, dedup_loop-All (fp ∷ seen) fps a.1)

  pub all_fps-All : (idx : UnlockIndex) → IsWithin P idx → All P (all_fps idx)
  unfolding all_fps
  all_fps-All idx w = dedup_loop-All [] (fps_of_index idx) (fps_of_index-All idx w)

  pub lookup-All :
      (matchers : List Matcher) (idx : UnlockIndex) → IsWithin P idx → All P (lookup idx matchers)
  unfolding lookup
  lookup-All matchers idx w = lookup_loop-All idx matchers none w tt

lookup_loop-Ascends :
    (idx : UnlockIndex) (matchers : List Matcher) (result : Option (List ℕ))
    → IsSorted idx
    → Ascends 0 (or_empty result)
    → Ascends 0 (lookup_loop idx matchers result)
unfolding lookup_loop intersect
lookup_loop-Ascends idx [] none s a = tt
lookup_loop-Ascends idx [] (some result) s a = a
lookup_loop-Ascends idx (matcher ∷ matchers) o s a =
    let known = find matcher.label_name idx in
    let found = to_intersect matcher (or_empty known) in
    let result = intersect o found in
    let onward =
      lookup_loop-Ascends idx matchers (some result) s
        (met o found a (to_intersect_lem idx s 0 matcher).0) in
    either (Ascends 0) (is_none known) []
      (if is_empty result then [] else lookup_loop idx matchers (some result)) tt
      (either (Ascends 0) (is_empty result) [] (lookup_loop idx matchers (some result)) tt onward)
  where
    met :
        (o : Option (List ℕ)) (found : List ℕ)
        → Ascends 0 (or_empty o)
        → Ascends 0 found
        → Ascends 0 (intersect o found)
    met none found a b = b
    met (some left) found a b = (intersect-Ascends 0 0 left found a b).0

pub lookup-Ascends :
    (idx : UnlockIndex) (matchers : List Matcher) → IsSorted idx → Ascends 0 (lookup idx matchers)
unfolding lookup
lookup-Ascends idx matchers s = lookup_loop-Ascends idx matchers none s tt
