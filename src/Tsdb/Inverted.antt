-- ===== src/Tsdb/Inverted.antt =====
-- `InvertedIndex` of pkg/phlaredb/tsdb/index.go: the inverted index whose shards hold the series of
-- one remainder of the series' hash each. The quoting of a value and the digest of the printed labels
-- are parameters.
use phlare.Base.{
  ℕ, zero, suc, ◌+◌, ◌*◌, ◌/◌, ◌%◌, ◌^◌, ◌||◌, ◌++◌, get_or, not, Option, none, some, List, [], ◌∷◌,
  ltb, ◌==◌, map, if◌then◌else◌, get_elem?, set,
}
use phlare.Base.Order.{Bytes, ltb_bytes}
use phlare.Base.Map.{eq_bytes}
use phlare.Base.Outcome.{Outcome, ok, panicked, ◌>>=◌, check}
use phlare.Tsdb.Shard.{uint32_mod}
use phlare.Tsdb.Index.{LabelPair, UnlockIndex, Matcher, add, delete}
use phlare.Tsdb.Index.Merge.{merge_slices}
use phlare.Tsdb.Index.Names.{label_names, label_values}
use phlare.Tsdb.BitPrefix.{Annotation}
use phlare.Tsdb.BitPrefix.Inverted.{IndexShard, empty_shards, changed, read_shards}

pub record InvertedIndex : Type 0 where
  pub total_shards : ℕ
  pub shards : List IndexShard

-- `NewWithShards`
abbrev pub new_with_shards : ℕ → InvertedIndex
new_with_shards total_shards = record {
  total_shards = total_shards;
  shards = empty_shards 0 total_shards;
}

-- `result[j] = ii.shards[subShard]` for `i` from the given one on, `n` times
pub sub_shards : List IndexShard → Annotation → ℕ → ℕ → Outcome (List IndexShard)
sub_shards shards shard i zero = ok []
sub_shards shards shard i (suc n) =
    let rest = sub_shards shards shard (suc i) n in
    read (get_elem? shards (shard.shard + i * shard.of)) rest
  where
    read : Option IndexShard → Outcome (List IndexShard) → Outcome (List IndexShard)
    read none rest = panicked
    read (some s) rest = do result ← rest; ok (s ∷ result)

-- `getShards`; a division by zero panics.
unfoldable pub requested_shards : InvertedIndex → Option Annotation → Outcome (List IndexShard)
unfolding sub_shards
requested_shards ii none = ok ii.shards
requested_shards ii (some shard) =
    if shard.of == 0 then panicked else sub_shards ii.shards shard 0 (ii.total_shards / shard.of)

-- `validateShard`, before the rest of a request
unfoldable pub with_valid_shard {ℓ} :
    {A : Type ℓ} → InvertedIndex → Option Annotation → Outcome A → Outcome A
with_valid_shard ii none rest = rest
with_valid_shard ii (some shard) rest =
    if shard.of == 0
    then panicked
    else check
        (not (not (ii.total_shards % shard.of == 0) || ltb ii.total_shards (shard.of % uint32_mod)))
        rest

-- `Lookup`
unfoldable pub lookup_requested :
    InvertedIndex → List Matcher → Option Annotation → Outcome (List ℕ)
unfolding with_valid_shard requested_shards
lookup_requested ii matchers shard =
    with_valid_shard ii shard
      (do shards ← requested_shards ii shard; ok (read_shards matchers shards))

-- `LabelNames`
unfoldable pub names_requested : InvertedIndex → Option Annotation → Outcome (List Bytes)
unfolding with_valid_shard requested_shards
names_requested ii shard = with_valid_shard ii shard (do
  shards ← requested_shards ii shard
  ok (merge_slices ltb_bytes (map (λ s. label_names none s.idx) shards)))

-- `LabelValues`
unfoldable pub values_requested : InvertedIndex → Bytes → Option Annotation → Outcome (List Bytes)
unfolding with_valid_shard requested_shards
values_requested ii name shard = with_valid_shard ii shard (do
  shards ← requested_shards ii shard
  ok (merge_slices ltb_bytes (map (λ s. label_values name none s.idx) shards)))

-- "__name__", the name of a metric
abbrev pub metric_name : Bytes
metric_name = 95 ∷ 95 ∷ 110 ∷ 97 ∷ 109 ∷ 101 ∷ 95 ∷ 95 ∷ []

-- the first value under the name of a metric
abbrev pub metric_value : List LabelPair → Bytes
metric_value [] = []
metric_value (pair ∷ labels) =
    if eq_bytes pair.name metric_name then pair.value else metric_value labels

-- `binary.BigEndian.Uint32` of the first four bytes
abbrev pub big_endian_uint32 : Bytes → ℕ
big_endian_uint32 buf =
    get_or buf 0 0 * 2 ^ 24 + get_or buf 1 0 * 2 ^ 16 + get_or buf 2 0 * 2 ^ 8 + get_or buf 3 0

-- `quote` is `strconv.AppendQuote` to an empty buffer, `digest` the base64 text of the SHA-256 sum.
module _ (quote digest : Bytes → Bytes) where
  -- the loop that writes the other labels, from the `i`-th that it writes on
  pub write_labels : ℕ → List LabelPair → Bytes
  write_labels i [] = []
  write_labels i (pair ∷ labels) =
      let skipped = write_labels i labels in
      let rest = write_labels (suc i) labels in
      if eq_bytes pair.name metric_name
      then skipped
      else (if ltb 0 i then 44 ∷ 32 ∷ [] else []) ++ pair.name ++ 61 ∷ quote pair.value ++ rest

  -- `labelsString`
  unfoldable pub labels_string : List LabelPair → Bytes
  unfolding write_labels
  labels_string labels = metric_value labels ++ 123 ∷ write_labels 0 labels ++ 125 ∷ []

  -- `labelsSeriesIDHash`
  unfoldable pub labels_series_id_hash : List LabelPair → ℕ
  unfolding labels_string
  labels_series_id_hash labels = big_endian_uint32 (digest (labels_string labels))

  pub change_hashed :
      InvertedIndex → ℕ → (UnlockIndex → UnlockIndex) → Option IndexShard → Outcome InvertedIndex
  change_hashed ii i f none = panicked
  change_hashed ii i f (some s) =
      ok (record { total_shards = ii.total_shards; shards = set ii.shards i (changed f s) })

  -- a change of the shard of the labels; a remainder by zero panics.
  pub change_shard_of :
      InvertedIndex → List LabelPair → (UnlockIndex → UnlockIndex) → Outcome InvertedIndex
  unfolding change_hashed labels_series_id_hash
  change_shard_of ii labels f =
      if ii.total_shards == 0
      then panicked
      else let i = labels_series_id_hash labels % ii.total_shards in
        change_hashed ii i f (get_elem? ii.shards i)

  -- `Add`, for the index that it leaves
  unfoldable pub add_hashed : InvertedIndex → List LabelPair → ℕ → Outcome InvertedIndex
  unfolding change_shard_of
  add_hashed ii labels fp = change_shard_of ii labels (add labels fp)

  -- `Delete`
  unfoldable pub delete_hashed : InvertedIndex → List LabelPair → ℕ → Outcome InvertedIndex
  unfolding change_shard_of
  delete_hashed ii labels fp = change_shard_of ii labels (delete labels fp)
