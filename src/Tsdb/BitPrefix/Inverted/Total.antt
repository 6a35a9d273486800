-- ===== src/Tsdb/BitPrefix/Inverted/Total.antt =====
-- `Add` and `Delete` of pkg/phlaredb/tsdb/bitprefix.go find the shard that they change.
use mathlib.Core.Path.{subst}
use native.Mathlib.Nat.{div-lt_iff_lt-mul}
use phlare.Base.{
  ℕ, zero, suc, ◌*◌, ◌^◌, ◌<◌, ◌≡◌, refl, sym, Option, some, List, [], ◌∷◌, arith, get_elem?,
  length,
}
use phlare.Base.Outcome.{ok}
use phlare.Tsdb.Shard.{uint64_mod}
use phlare.Tsdb.Shard.Powers.{pow_split}
use phlare.Tsdb.BitPrefix.{shard_for_fp}
use phlare.Tsdb.BitPrefix.Range.{part, part-pos, shard_for_fp-part}
use phlare.Tsdb.Index.{LabelPair, UnlockIndex}
use phlare.Tsdb.BitPrefix.Inverted.{
  IndexShard, BitPrefixInvertedIndex, change_at, add_series, delete_series,
}
use phlare.Tsdb.BitPrefix.Inverted.Placed.{IsWellFormed}
use phlare.Tsdb.BitPrefix.Inverted.Reached.{add_series-IsWellFormed, delete_series-IsWellFormed}

get_elem?-inside {ℓ} :
    {A : Type ℓ} (k : ℕ) (xs : List A) → k < length xs → (x : A) × (get_elem? xs k ≡ some x)
get_elem?-inside k [] h = absurd (omega arith)
get_elem?-inside zero (x ∷ xs) h = (x, refl)
get_elem?-inside (suc k) (x ∷ xs) h = get_elem?-inside k xs (omega arith)

change_at-ok :
    (ii : BitPrefixInvertedIndex) (k : ℕ) (f : UnlockIndex → UnlockIndex) (o : Option IndexShard)
    → (s : IndexShard) × (o ≡ some s)
    → (ii' : BitPrefixInvertedIndex) × (change_at ii k f o ≡ ok ii')
unfolding change_at
change_at-ok ii k f o (s, e) = rw e (_, refl)

shard_inside :
    (a : ℕ) (ii : BitPrefixInvertedIndex) (fp : ℕ)
    → IsWellFormed a ii
    → fp < uint64_mod
    → shard_for_fp (length ii.shards) fp < length ii.shards
shard_inside a ii fp w h =
    let split : fp < 2 ^ a * part a w.few =
      subst (λ n. fp < n) (sym (pow_split a (omega (arith, w.few)))) h in
    subst (λ n. shard_for_fp n fp < n) (sym w.count)
      (subst (λ i. i < 2 ^ a) (sym (shard_for_fp-part a w.few fp))
        ((div-lt_iff_lt-mul {k = part a w.few} {x = fp} {y = 2 ^ a} (part-pos a w.few)).1 split))

-- On a well-formed index the addition and the deletion of a uint64 fingerprint under any labels
-- succeed, without an index out of range, and leave a well-formed index.
pub changes_succeed :
    (a : ℕ) (ii : BitPrefixInvertedIndex) (labels : List LabelPair) (fp : ℕ)
    → IsWellFormed a ii
    → fp < uint64_mod
    → ((ii' : BitPrefixInvertedIndex) × ((add_series ii labels fp ≡ ok ii') × IsWellFormed a ii'))
      × ((ii' : BitPrefixInvertedIndex) × ((delete_series ii labels fp ≡ ok ii')
            × IsWellFormed a ii'))
unfolding add_series delete_series shard_for_fp
changes_succeed a ii labels fp w h =
    let there =
      get_elem?-inside (shard_for_fp (length ii.shards) fp) ii.shards (shard_inside a ii fp w h) in
    let (added, add_ok) =
      change_at-ok ii _ _ (get_elem? ii.shards (shard_for_fp (length ii.shards) fp)) there in
    let (deleted, delete_ok) =
      change_at-ok ii _ _ (get_elem? ii.shards (shard_for_fp (length ii.shards) fp)) there in
    (
      (added, (add_ok, add_series-IsWellFormed a w.few ii added labels fp w h add_ok)),
      (deleted, (delete_ok, delete_series-IsWellFormed a w.few ii deleted labels fp w delete_ok)),
    )
