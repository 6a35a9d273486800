-- ===== src/Tsdb/Index/Names.antt =====
-- The label names and values of a shard, in pkg/phlaredb/tsdb/index.go, and the tests by which
-- pkg/phlaredb/tsdb/bitprefix.go extracts those of a requested shard.
use phlare.Base.{ℕ, Bool, false, ◌||◌, Option, none, some, List, [], ◌∷◌, if◌then◌else◌}
use phlare.Base.Order.{Bytes, ltb_bytes}
use phlare.Base.Map.{find}
use phlare.Tsdb.Shard.{ShardAnnotation, match}
use phlare.Tsdb.Index.{IndexEntry, UnlockIndex}

-- `sort.Strings`: whatever the method, the result is this.
abbrev pub insert_string : Bytes → List Bytes → List Bytes
insert_string x [] = x ∷ []
insert_string x (y ∷ ys) = if ltb_bytes y x then y ∷ insert_string x ys else x ∷ y ∷ ys

unfoldable pub sort_strings : List Bytes → List Bytes
sort_strings [] = []
sort_strings (x ∷ xs) = insert_string x (sort_strings xs)

-- `for name := range m`
abbrev pub keys {ℓ} : {V : Type ℓ} → List (Bytes × V) → List Bytes
keys [] = []
keys ((key, v) ∷ m) = key ∷ keys m

abbrev pub any_match : ShardAnnotation → List ℕ → Bool
any_match s [] = false
any_match s (fp ∷ fps) = match s fp || any_match s fps

abbrev pub entry_matches : ShardAnnotation → IndexEntry → Bool
entry_matches s [] = false
entry_matches s ((value, fps) ∷ values) = any_match s fps || entry_matches s values

-- the extractor of `LabelNames`
unfoldable pub matching_names : ShardAnnotation → UnlockIndex → List Bytes
matching_names s [] = []
matching_names s ((name, values) ∷ idx) =
    let results = matching_names s idx in if entry_matches s values then name ∷ results else results

-- the extractor of `LabelValues`
unfoldable pub matching_values : ShardAnnotation → IndexEntry → List Bytes
matching_values s [] = []
matching_values s ((value, fps) ∷ values) =
    let results = matching_values s values in if any_match s fps then value ∷ results else results

-- `indexShard.labelNames`
unfoldable pub label_names : Option (UnlockIndex → List Bytes) → UnlockIndex → List Bytes
unfolding sort_strings
label_names none idx = sort_strings (keys idx)
label_names (some extractor) idx = sort_strings (extractor idx)

-- `indexShard.labelValues`, at the entry of the name; the extractor's result is not sorted.
pub values_of : Option (IndexEntry → List Bytes) → Option IndexEntry → List Bytes
unfolding sort_strings
values_of extractor none = []
values_of none (some values) = sort_strings (keys values)
values_of (some extractor) (some values) = extractor values

unfoldable pub label_values : Bytes → Option (IndexEntry → List Bytes) → UnlockIndex → List Bytes
unfolding values_of
label_values name extractor idx = values_of extractor (find name idx)
