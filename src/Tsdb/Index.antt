-- ===== src/Tsdb/Index.antt =====
-- pkg/phlaredb/tsdb/index.go: a shard of the inverted index, from label pairs to the fingerprints of
-- the series that have them. Names and values are Go strings, as bytes; fingerprints are uint64. A
-- map of the code is an association list, in whose order the code's loops over it run.
pub mod Merge
pub mod Tests
pub mod Intersect
pub mod SetMatches
pub mod Store
pub mod Delete
pub mod Erased
pub mod Collected
pub mod Lookup
pub mod Names
pub mod Sorted
pub mod Within
pub use phlare.Base.{is_empty}
use phlare.Base.{
  ℕ, zero, suc, Bool, true, false, not, ◌&&◌, ◌||◌, Option, none, some, List, [], ◌∷◌, ◌++◌, leb,
  ◌==◌, if◌then◌else◌, length, get_or, take, drop, elem,
}
use phlare.Base.Order.{Bytes}
use phlare.Base.Map.{find, put, remove, eq_bytes}
use phlare.Iter.Search.{search}
use phlare.Tsdb.Index.Intersect.{intersect}
use phlare.Tsdb.Index.SetMatches.{find_set_matches}

pub record LabelPair : Type 0 where
  pub name : Bytes
  pub value : Bytes

-- from a label's values to their fingerprints
abbrev pub IndexEntry : Type 0
IndexEntry = List (Bytes × List ℕ)

-- from the names of labels to their entries
abbrev pub UnlockIndex : Type 0
UnlockIndex = List (Bytes × IndexEntry)

-- A missing key of a map reads as the zero value.
abbrev pub or_empty {ℓ} : {A : Type ℓ} → Option (List A) → List A
or_empty none = []
or_empty (some l) = l

abbrev pub entry_of : Bytes → UnlockIndex → IndexEntry
entry_of name idx = or_empty (find name idx)

abbrev pub fps_of : Bytes → IndexEntry → List ℕ
fps_of value entry = or_empty (find value entry)

-- `sort.Search(len(fps), func(i int) bool { return fps[i] >= fp })`
abbrev pub position : ℕ → List ℕ → ℕ
position fp fps = search (length fps) (λ i. leb fp (get_or fps i 0))

-- `append(fps, 0); copy(fps[j+1:], fps[j:]); fps[j] = fp`
abbrev pub insert_at : ℕ → ℕ → List ℕ → List ℕ
insert_at j fp fps = take j fps ++ fp ∷ drop j fps

unfoldable pub add_pair : ℕ → LabelPair → UnlockIndex → UnlockIndex
add_pair fp pair idx =
    let values = entry_of pair.name idx in
    let fps = fps_of pair.value values in
    put pair.name (put pair.value (insert_at (position fp fps) fp fps) values) idx

-- `indexShard.add`, for the index that it leaves
unfoldable pub add : List LabelPair → ℕ → UnlockIndex → UnlockIndex
unfolding add_pair
add [] fp idx = idx
add (pair ∷ metric) fp idx = add metric fp (add_pair fp pair idx)

abbrev pub is_none {ℓ} : {A : Type ℓ} → Option A → Bool
is_none none = true
is_none (some x) = false

-- The two tests after the removal at `j`: an empty list or entry is deleted from its map.
abbrev pub store_fps : LabelPair → List ℕ → IndexEntry → UnlockIndex → UnlockIndex
store_fps pair fps values idx =
    let values' = if is_empty fps then remove pair.value values else put pair.value fps values in
    if is_empty values' then remove pair.name idx else put pair.name values' idx

-- the rest of a round of `delete`, at the list that the pair's value has
pub delete_in : ℕ → LabelPair → UnlockIndex → IndexEntry → Option (List ℕ) → UnlockIndex
delete_in fp pair idx values none = idx
delete_in fp pair idx values (some fps) =
    let j = position fp fps in
    if leb (length fps) j || not (get_or fps j 0 == fp)
    then idx
    else store_fps pair (take j fps ++ drop (suc j) fps) values idx

-- and at the entry that its name has
pub delete_from : ℕ → LabelPair → UnlockIndex → Option IndexEntry → UnlockIndex
unfolding delete_in
delete_from fp pair idx none = idx
delete_from fp pair idx (some values) = delete_in fp pair idx values (find pair.value values)

unfoldable pub delete_pair : ℕ → LabelPair → UnlockIndex → UnlockIndex
unfolding delete_from
delete_pair fp pair idx = delete_from fp pair idx (find pair.name idx)

-- `indexShard.delete`
unfoldable pub delete : List LabelPair → ℕ → UnlockIndex → UnlockIndex
unfolding delete_pair
delete [] fp idx = idx
delete (pair ∷ labels) fp idx = delete labels fp (delete_pair fp pair idx)

pub data MatchType : Type 0 where
  match_equal : MatchType
  match_not_equal : MatchType
  match_regexp : MatchType
  match_not_regexp : MatchType

-- `labels.Matcher` of Prometheus; `matches` is its method of that name.
pub record Matcher : Type 0 where
  pub matcher_type : MatchType
  pub label_name : Bytes
  pub pattern : Bytes
  pub matches : Bytes → Bool

-- `sort.Sort` of fingerprints: whatever the method, the result is this.
abbrev pub insert_sorted : ℕ → List ℕ → List ℕ
insert_sorted x [] = x ∷ []
insert_sorted x (y ∷ ys) = if leb x y then x ∷ y ∷ ys else y ∷ insert_sorted x ys

unfoldable pub sort : List ℕ → List ℕ
sort [] = []
sort (x ∷ xs) = insert_sorted x (sort xs)

unfoldable pub collect_set : List Bytes → IndexEntry → List ℕ
collect_set [] values = []
collect_set (value ∷ set) values = fps_of value values ++ collect_set set values

unfoldable pub collect_matching : (Bytes → Bool) → IndexEntry → List ℕ
collect_matching matches [] = []
collect_matching matches ((value, fps) ∷ values) =
    let rest = collect_matching matches values in if matches value then fps ++ rest else rest

-- the branch of a `MatchRegexp`, at the words of its pattern
pub of_set : Matcher → IndexEntry → List Bytes → List ℕ
unfolding collect_set collect_matching sort
of_set matcher values [] = sort (collect_matching matcher.matches values)
of_set matcher values (word ∷ words) = sort (collect_set (word ∷ words) values)

pub of_type : Matcher → IndexEntry → MatchType → List ℕ
unfolding of_set collect_matching sort
of_type matcher values match_equal = fps_of matcher.pattern values
of_type matcher values match_regexp = of_set matcher values (find_set_matches matcher.pattern)
of_type matcher values match_not_equal = sort (collect_matching matcher.matches values)
of_type matcher values match_not_regexp = sort (collect_matching matcher.matches values)

unfoldable pub to_intersect : Matcher → IndexEntry → List ℕ
unfolding of_type
to_intersect matcher values = of_type matcher values matcher.matcher_type

-- the loop over the matchers, at the intersection so far; `none` is the nil that stands for
-- everything
pub lookup_loop : UnlockIndex → List Matcher → Option (List ℕ) → List ℕ
lookup_loop idx [] none = []
lookup_loop idx [] (some result) = result
lookup_loop idx (matcher ∷ matchers) result =
    let known = find matcher.label_name idx in
    let result' = intersect result (to_intersect matcher (or_empty known)) in
    let onward = lookup_loop idx matchers (some result') in
    if is_none known then [] else if is_empty result' then [] else onward

-- `indexShard.lookup`
unfoldable pub lookup : UnlockIndex → List Matcher → List ℕ
unfolding lookup_loop
lookup idx matchers = lookup_loop idx matchers none

-- `indexShard.allFPs`: the fingerprints of the whole index, each once, in the order of its first
-- occurrence.
abbrev pub fps_of_entry : IndexEntry → List ℕ
fps_of_entry [] = []
fps_of_entry ((value, fps) ∷ values) = fps ++ fps_of_entry values

abbrev pub fps_of_index : UnlockIndex → List ℕ
fps_of_index [] = []
fps_of_index ((name, values) ∷ idx) = fps_of_entry values ++ fps_of_index idx

abbrev pub dedup_loop : List ℕ → List ℕ → List ℕ
dedup_loop seen [] = []
dedup_loop seen (fp ∷ fps) =
    let skipped = dedup_loop seen fps in
    let kept = dedup_loop (fp ∷ seen) fps in if elem fp seen then skipped else fp ∷ kept

unfoldable pub all_fps : UnlockIndex → List ℕ
all_fps idx = dedup_loop [] (fps_of_index idx)
