-- ===== src/Tsdb/BitPrefix/Inverted.antt =====
-- pkg/phlaredb/tsdb/bitprefix.go: the inverted index whose shards hold the fingerprints of one bit
-- prefix each.
pub mod Placed
pub mod Cut
pub mod Request
pub mod Answer
pub mod Reached
pub mod Total
pub mod Tests
use phlare.Base.{
  ℕ, zero, suc, ◌-◌, ◌/◌, ◌%◌, ◌^◌, Bool, true, false, Option, none, some, List, [], ◌∷◌, ◌++◌, map,
  leb, ◌==◌, length, get_or, get_elem?, set,
}
use phlare.Base.Order.{Bytes, ltb_bytes}
use phlare.Base.Outcome.{Outcome, ok, failed, panicked, ◌>>=◌, check, slice}
use phlare.Iter.Search.{search}
use phlare.Tsdb.Shard.{ShardAnnotation, new_shard, required_bits, bounds, uint32_mod}
use phlare.Tsdb.Index.{LabelPair, UnlockIndex, IndexEntry, Matcher, add, delete, lookup, all_fps}
use phlare.Tsdb.Index.Merge.{merge_slices}
use phlare.Tsdb.Index.Names.{label_names, label_values, matching_names, matching_values}
use phlare.Tsdb.BitPrefix.{
  Annotation, Selection, validate_bit_prefix_shard_factor, get_shards, shard_for_fp,
}

-- `indexShard`, without its lock
pub record IndexShard : Type 0 where
  pub idx : UnlockIndex
  pub shard : ℕ

pub record BitPrefixInvertedIndex : Type 0 where
  pub total_shards : ℕ
  pub shards : List IndexShard

abbrev pub empty_shard : ℕ → IndexShard
empty_shard i = record { idx = []; shard = i }

-- the shards from number `i` on, `n` of them
abbrev pub empty_shards : ℕ → ℕ → List IndexShard
empty_shards i zero = []
empty_shards i (suc n) = empty_shard i ∷ empty_shards (suc i) n

-- `NewBitPrefixWithShards`
unfoldable pub new_bit_prefix_with_shards : ℕ → Outcome BitPrefixInvertedIndex
new_bit_prefix_with_shards total_shards =
    check (validate_bit_prefix_shard_factor total_shards)
      (ok (record { total_shards = total_shards; shards = empty_shards 0 total_shards }))

-- `shard.TSDB()`
abbrev pub tsdb : Annotation → ShardAnnotation
tsdb shard = new_shard (shard.shard % uint32_mod) (shard.of % uint32_mod)

-- `validateShard`; true if the shard is accepted
unfoldable pub validate_shard : Option Annotation → Bool
validate_shard none = true
validate_shard (some shard) = 2 ^ required_bits (tsdb shard) == shard.of

-- `getShards`, with the slice that it returns
unfoldable pub shards_of :
    BitPrefixInvertedIndex → Option Annotation → Outcome (List IndexShard × Bool)
shards_of ii shard =
    let selection = get_shards (length ii.shards) shard in
    do shards ← slice selection.lower selection.upper ii.shards; ok (shards, selection.filter)

-- a shard of the slice after a call that changes its index
abbrev pub changed : (UnlockIndex → UnlockIndex) → IndexShard → IndexShard
changed f s = record { idx = f s.idx; shard = s.shard }

pub change_at :
    BitPrefixInvertedIndex
    → ℕ
    → (UnlockIndex → UnlockIndex)
    → Option IndexShard
    → Outcome BitPrefixInvertedIndex
change_at ii i f none = panicked
change_at ii i f (some s) =
    ok (record { total_shards = ii.total_shards; shards = set ii.shards i (changed f s) })

-- `Add`, for the index that it leaves
unfoldable pub add_series :
    BitPrefixInvertedIndex → List LabelPair → ℕ → Outcome BitPrefixInvertedIndex
unfolding change_at
add_series ii labels fp =
    let i = shard_for_fp (length ii.shards) fp in
    change_at ii i (add labels fp) (get_elem? ii.shards i)

-- `Delete`
unfoldable pub delete_series :
    BitPrefixInvertedIndex → List LabelPair → ℕ → Outcome BitPrefixInvertedIndex
unfolding change_at
delete_series ii labels fp =
    let i = fp / 2 ^ (64 - required_bits (new_shard 0 (length ii.shards % uint32_mod))) in
    change_at ii i (delete labels fp) (get_elem? ii.shards i)

-- What a shard answers: everything if there is no matcher.
abbrev pub read_shard : List Matcher → UnlockIndex → List ℕ
read_shard [] idx = all_fps idx
read_shard (matcher ∷ matchers) idx = lookup idx (matcher ∷ matchers)

-- the loop over the shards, `result = append(result, fps...)`
abbrev pub read_shards : List Matcher → List IndexShard → List ℕ
read_shards matchers [] = []
read_shards matchers (s ∷ shards) = read_shard matchers s.idx ++ read_shards matchers shards

-- `result[minIdx:maxIdx]`
abbrev pub cut : ShardAnnotation → List ℕ → Outcome (List ℕ)
cut s result =
    let (min_fp, max_fp) = bounds s in
    slice (search (length result) (λ i. leb min_fp (get_or result i 0)))
      (search (length result) (λ i. leb max_fp (get_or result i 0))) result

-- A filter is asked for only where there is a shard.
abbrev pub filtered : Option Annotation → Bool → List ℕ → Outcome (List ℕ)
filtered shard false result = ok result
filtered none true result = panicked
filtered (some shard) true result = cut (tsdb shard) result

-- `Lookup`
unfoldable pub lookup_series :
    BitPrefixInvertedIndex → List Matcher → Option Annotation → Outcome (List ℕ)
unfolding shards_of
lookup_series ii matchers shard =
    check (validate_shard shard) (do
      (shards, filter) ← shards_of ii shard
      filtered shard filter (read_shards matchers shards))

-- the extractors, which are nil unless there is a filter
abbrev pub names_extractor : Option Annotation → Bool → Option (UnlockIndex → List Bytes)
names_extractor shard false = none
names_extractor none true = none
names_extractor (some shard) true = some (matching_names (tsdb shard))

abbrev pub values_extractor : Option Annotation → Bool → Option (IndexEntry → List Bytes)
values_extractor shard false = none
values_extractor none true = none
values_extractor (some shard) true = some (matching_values (tsdb shard))

-- `LabelNames`
unfoldable pub names_of_index : BitPrefixInvertedIndex → Option Annotation → Outcome (List Bytes)
unfolding shards_of
names_of_index ii shard = check (validate_shard shard) (do
  (shards, filter) ← shards_of ii shard
  ok (merge_slices ltb_bytes (map (λ s. label_names (names_extractor shard filter) s.idx) shards)))

-- `LabelValues`
unfoldable pub values_of_index :
    BitPrefixInvertedIndex → Bytes → Option Annotation → Outcome (List Bytes)
unfolding shards_of
values_of_index ii name shard = check (validate_shard shard) (do
  (shards, filter) ← shards_of ii shard
  ok (
      merge_slices ltb_bytes
        (map (λ s. label_values name (values_extractor shard filter) s.idx) shards)))
