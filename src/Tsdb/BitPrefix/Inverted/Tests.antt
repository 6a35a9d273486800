-- ===== src/Tsdb/BitPrefix/Inverted/Tests.antt =====
-- Runs of the index by bit prefix at concrete labels and fingerprints.
use phlare.Base.{
  ℕ, ◌^◌, ◌<◌, ◌≡◌, refl, ◌&&◌, some, List, [], ◌∷◌, inl, inr, arith, elem, Ascends, get_elem?,
  Bool-cases,
}
use phlare.Base.Order.{Bytes}
use phlare.Base.Outcome.{ok, failed}
use phlare.Base.Map.{find, put, eq_bytes}
use phlare.Iter.Search.{search}
use phlare.Tsdb.Shard.{new_shard, match, max_uint64, required_bits}
use phlare.Tsdb.Shard.Match.{IsShard}
use phlare.Tsdb.BitPrefix.{shard_for_fp, validate_bit_prefix_shard_factor}
use phlare.Tsdb.Index.{LabelPair, UnlockIndex, Matcher, match_equal, add}
use phlare.Tsdb.Index.Store.{IsSorted}
use phlare.Tsdb.BitPrefix.Inverted.{
  BitPrefixInvertedIndex, empty_shard, new_bit_prefix_with_shards, add_series, delete_series,
  lookup_series, validate_shard,
}
use phlare.Tsdb.BitPrefix.Inverted.Placed.{IsWellFormed}
use phlare.Tsdb.BitPrefix.Inverted.Answer.{selects, lookup_series-answers}
use phlare.Tsdb.BitPrefix.Inverted.Reached.{Reached, created, added, Reached-IsWellFormed}
use phlare.Tsdb.BitPrefix.Inverted.Total.{changes_succeed}

-- the strings "a" and "b"
abbrev a : Bytes
a = 97 ∷ []

abbrev b : Bytes
b = 98 ∷ []

abbrev labels : List LabelPair
labels = record { name = a; value = b } ∷ []

abbrev idx : UnlockIndex
idx = (a, (b, 5 ∷ 2 ^ 62 ∷ []) ∷ []) ∷ []

abbrev ii : BitPrefixInvertedIndex
ii = record { total_shards = 2; shards = record { idx = idx; shard = 0 } ∷ empty_shard 1 ∷ [] }

idx-IsSorted : IsSorted idx
unfolding find
idx-IsSorted n v = elim (Bool-cases (eq_bytes n a)) [
  | inr e ↦ rw e tt
  | inl e ↦ elim (Bool-cases (eq_bytes v b)) [
    | inl f ↦ rw (e, f) (omega arith)
    | inr f ↦ rw (e, f) tt
  ]
]

ii-IsWellFormed : IsWellFormed 1 ii
unfolding shard_for_fp required_bits find
ii-IsWellFormed = record {
  few = omega arith;
  count = refl;
  placed = (
    (((((omega arith, refl), ((omega arith, refl), tt)), tt), tt), idx-IsSorted),
    ((tt, λ n v. tt), tt),
  );
}

second_of_four-IsShard : IsShard 2 1
second_of_four-IsShard = record {
  some_bits = omega arith;
  few_bits = omega arith;
  inside = omega arith;
}

abbrev equals : Matcher
equals = record {
  matcher_type = match_equal;
  label_name = a;
  pattern = b;
  matches = λ v. eq_bytes v b;
}

lookup_series-answers_example :
    (result : List ℕ) × (lookup_series ii (equals ∷ []) (some (record { shard = 1; of = 2 ^ 2 }))
      ≡ ok result)
    × Ascends 0 result
    × ((fp : ℕ)
        → fp < max_uint64
        → elem fp result ≡ (
            match (new_shard 1 (2 ^ 2)) fp
            && selects fp (equals ∷ []) (get_elem? ii.shards (shard_for_fp (2 ^ 1) fp))))
lookup_series-answers_example =
    lookup_series-answers 1 2 1 ii equals [] ii-IsWellFormed second_of_four-IsShard

changes_succeed_example :
    ((ii' : BitPrefixInvertedIndex) × ((add_series ii labels (2 ^ 63) ≡ ok ii')
        × IsWellFormed 1 ii'))
    × ((ii' : BitPrefixInvertedIndex) × ((delete_series ii labels (2 ^ 63) ≡ ok ii')
          × IsWellFormed 1 ii'))
changes_succeed_example = changes_succeed 1 ii labels (2 ^ 63) ii-IsWellFormed (omega arith)

abbrev fresh : BitPrefixInvertedIndex
fresh = record { total_shards = 2; shards = empty_shard 0 ∷ empty_shard 1 ∷ [] }

abbrev with_one : BitPrefixInvertedIndex
with_one = record {
  total_shards = 2;
  shards = empty_shard 0 ∷ record { idx = (a, (b, 2 ^ 63 ∷ []) ∷ []) ∷ []; shard = 1 } ∷ [];
}

fresh-Reached : Reached 1 fresh
unfolding new_bit_prefix_with_shards validate_bit_prefix_shard_factor required_bits
fresh-Reached = created fresh refl

with_one-Reached : Reached 1 with_one
unfolding add_series shard_for_fp required_bits add put find search
with_one-Reached = added fresh with_one labels (2 ^ 63) fresh-Reached (omega arith) refl

Reached-IsWellFormed_example : IsWellFormed 1 with_one
Reached-IsWellFormed_example = Reached-IsWellFormed 1 with_one (omega arith) with_one-Reached

-- A request whose factor is no power of two is refused.
refused : lookup_series ii [] (some (record { shard = 0; of = 3 })) ≡ failed
unfolding lookup_series required_bits validate_shard
refused = refl
