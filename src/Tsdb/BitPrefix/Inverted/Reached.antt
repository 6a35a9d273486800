-- ===== src/Tsdb/BitPrefix/Inverted/Reached.antt =====
-- The states that an index by bit prefix reaches from its creation.
use mathlib.Core.Path.{subst}
use phlare.Base.{
  ℕ, zero, suc, ◌+◌, ◌-◌, ◌/◌, ◌%◌, ◌^◌, ◌≤◌, ◌<◌, ◌≡◌, refl, sym, ap, ◌∙◌, Bool, true, false,
  Option, none, some, List, [], ◌∷◌, arith, get_elem?, set, length,
}
use phlare.Base.Outcome.{ok, check}
use phlare.Base.Map.{find}
use phlare.Tsdb.Shard.{new_shard, required_bits, uint32_mod, uint64_mod}
use phlare.Tsdb.BitPrefix.{shard_for_fp, validate_bit_prefix_shard_factor}
use phlare.Tsdb.Index.{LabelPair, UnlockIndex, add, delete}
use phlare.Tsdb.Index.Store.{IsSorted, add-indexed}
use phlare.Tsdb.Index.Sorted.{delete-IsSorted}
use phlare.Tsdb.Index.Within.{IsWithin, add-Within, delete-Within}
use phlare.Tsdb.BitPrefix.Inverted.{
  IndexShard, BitPrefixInvertedIndex, empty_shards, new_bit_prefix_with_shards, changed, change_at,
  add_series, delete_series,
}
use phlare.Tsdb.BitPrefix.Inverted.Placed.{At, ShardsAt, IsWellFormed}

-- An index that a creation with `2 ^ a` shards and then any adds and deletes of uint64
-- fingerprints lead to.
pub data Reached (a : ℕ) : BitPrefixInvertedIndex → Type 0 where
  created :
      (ii : BitPrefixInvertedIndex) → new_bit_prefix_with_shards (2 ^ a) ≡ ok ii → Reached a ii
  added :
      (ii ii' : BitPrefixInvertedIndex) (labels : List LabelPair) (fp : ℕ)
      → Reached a ii
      → fp < uint64_mod
      → add_series ii labels fp ≡ ok ii'
      → Reached a ii'
  deleted :
      (ii ii' : BitPrefixInvertedIndex) (labels : List LabelPair) (fp : ℕ)
      → Reached a ii
      → fp < uint64_mod
      → delete_series ii labels fp ≡ ok ii'
      → Reached a ii'

length-empty_shards : (i n : ℕ) → length (empty_shards i n) ≡ n
length-empty_shards i zero = refl
length-empty_shards i (suc n) = ap suc (length-empty_shards (suc i) n)

length-set {ℓ} : {A : Type ℓ} (xs : List A) (i : ℕ) (x : A) → length (set xs i x) ≡ length xs
length-set [] i x = refl
length-set (y ∷ ys) zero x = refl
length-set (y ∷ ys) (suc i) x = ap suc (length-set ys i x)

ok-same {ℓ} : {A : Type ℓ} (x y : A) → ok x ≡ ok y → x ≡ y
ok-same x y h = cc

module _ (a : ℕ) (few : a ≤ 31) where
  empty_shards-At : (i n : ℕ) → ShardsAt a few i (empty_shards i n)
  unfolding find
  empty_shards-At i zero = tt
  empty_shards-At i (suc n) = ((tt, λ name value. tt), empty_shards-At (suc i) n)

  -- a change of the `k`-th shard that keeps what its lists must be
  set-At :
      (i k : ℕ) (shards : List IndexShard) (s : IndexShard) (f : UnlockIndex → UnlockIndex)
      → get_elem? shards k ≡ some s
      → ((idx : UnlockIndex)
          → IsWithin (At a few (k + i)) idx
          → IsWithin (At a few (k + i)) (f idx))
      → ((idx : UnlockIndex) → IsSorted idx → IsSorted (f idx))
      → ShardsAt a few i shards
      → ShardsAt a few i (set shards k (changed f s))
  set-At i k [] s f e g h w = tt
  set-At i zero (t ∷ shards) s f e g h w =
      let same : t ≡ s = cc in
      let number : 0 + i ≡ i = omega arith in
      (
        subst (λ u. IsWithin (At a few i) (f u.idx) × IsSorted (f u.idx)) same
            (
              subst
                  (λ n.
                    (idx : UnlockIndex) → IsWithin (At a few n) idx → IsWithin (At a few n) (f idx))
                  number g t.idx w.0.0,
              h t.idx w.0.1,
            ),
        w.1,
      )
  set-At i (suc k) (t ∷ shards) s f e g h w =
      let number : suc k + i ≡ k + suc i = omega arith in
      (
        w.0,
        set-At (suc i) k shards s f e
            (subst
              (λ n. (idx : UnlockIndex) → IsWithin (At a few n) idx → IsWithin (At a few n) (f idx))
              number g)
            h w.1,
      )

  change_at-IsWellFormed :
      (ii ii' : BitPrefixInvertedIndex) (k : ℕ) (f : UnlockIndex → UnlockIndex)
      → IsWellFormed a ii
      → ((idx : UnlockIndex) → IsWithin (At a few k) idx → IsWithin (At a few k) (f idx))
      → ((idx : UnlockIndex) → IsSorted idx → IsSorted (f idx))
      → (o : Option IndexShard) → get_elem? ii.shards k ≡ o
      → change_at ii k f o ≡ ok ii'
      → IsWellFormed a ii'
  unfolding change_at
  change_at-IsWellFormed ii ii' k f w g h none e r = absurd (ground arith)
  change_at-IsWellFormed ii ii' k f w g h (some s) e r =
      let left : BitPrefixInvertedIndex = record {
        total_shards = ii.total_shards;
        shards = set ii.shards k (changed f s);
      } in
      let number : k ≡ k + 0 = omega arith in
      subst (IsWellFormed a) (ok-same left ii' r) (record {
        few = few;
        count = length-set ii.shards k (changed f s) ∙ w.count;
        placed =
            set-At 0 k ii.shards s f e
              (subst
                (λ n.
                  (idx : UnlockIndex) → IsWithin (At a few n) idx → IsWithin (At a few n) (f idx))
                number g)
              h w.placed;
      })

  own_shard : (n fp : ℕ) → n ≡ 2 ^ a → fp < uint64_mod → At a few (shard_for_fp n fp) fp
  own_shard n fp e h = (h, ap (λ m. shard_for_fp m fp) (sym e))

  add-IsSorted :
      (labels : List LabelPair) (fp : ℕ) (idx : UnlockIndex)
      → IsSorted idx
      → IsSorted (add labels fp idx)
  add-IsSorted labels fp idx s = (add-indexed labels fp idx 0 [] [] s).1

  pub add_series-IsWellFormed :
      (ii ii' : BitPrefixInvertedIndex) (labels : List LabelPair) (fp : ℕ)
      → IsWellFormed a ii
      → fp < uint64_mod
      → add_series ii labels fp ≡ ok ii'
      → IsWellFormed a ii'
  unfolding add_series
  add_series-IsWellFormed ii ii' labels fp w h r =
      let k = shard_for_fp (length ii.shards) fp in
      change_at-IsWellFormed ii ii' k (add labels fp) w
        (add-Within (At a few k) fp (own_shard (length ii.shards) fp w.count h) labels)
        (add-IsSorted labels fp) (get_elem? ii.shards k) refl r

  pub delete_series-IsWellFormed :
      (ii ii' : BitPrefixInvertedIndex) (labels : List LabelPair) (fp : ℕ)
      → IsWellFormed a ii
      → delete_series ii labels fp ≡ ok ii'
      → IsWellFormed a ii'
  unfolding delete_series
  delete_series-IsWellFormed ii ii' labels fp w r =
      let k = fp / 2 ^ (64 - required_bits (new_shard 0 (length ii.shards % uint32_mod))) in
      change_at-IsWellFormed ii ii' k (delete labels fp) w (delete-Within (At a few k) fp labels)
        (delete-IsSorted labels fp) (get_elem? ii.shards k) refl r

  new_index-IsWellFormed :
      (ii : BitPrefixInvertedIndex) → new_bit_prefix_with_shards (2 ^ a) ≡ ok ii → IsWellFormed a ii
  unfolding new_bit_prefix_with_shards
  new_index-IsWellFormed ii r = by_check (validate_bit_prefix_shard_factor (2 ^ a)) r
    where
      by_check :
          (t : Bool)
          → check t (ok (record { total_shards = 2 ^ a; shards = empty_shards 0 (2 ^ a) })) ≡ ok ii
          → IsWellFormed a ii
      by_check false r = absurd (ground arith)
      by_check true r =
          subst (IsWellFormed a)
            (ok-same (record { total_shards = 2 ^ a; shards = empty_shards 0 (2 ^ a) }) ii r)
            (record {
              few = few;
              count = length-empty_shards 0 (2 ^ a);
              placed = empty_shards-At 0 (2 ^ a);
            })

-- Every index of 2^a shards, a at most 31, that its creation and then any adds and deletes of
-- uint64 fingerprints lead to has 2^a shards, each of which holds, in sorted lists, only
-- fingerprints of its own.
pub Reached-IsWellFormed :
    (a : ℕ) (ii : BitPrefixInvertedIndex) → a ≤ 31 → Reached a ii → IsWellFormed a ii
Reached-IsWellFormed a ii few (created _ r) = new_index-IsWellFormed a few ii r
Reached-IsWellFormed a ii few (added before _ labels fp reached h r) =
    add_series-IsWellFormed a few before ii labels fp (Reached-IsWellFormed a before few reached) h
      r
Reached-IsWellFormed a ii few (deleted before _ labels fp reached h r) =
    delete_series-IsWellFormed a few before ii labels fp (Reached-IsWellFormed a before few reached)
      r
