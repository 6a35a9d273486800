-- ===== src/Postings/Sharded/Correct.antt =====
-- The values that `ShardedPostings` walks.
use mathlib.Core.Path.{subst}
use phlare.Base.{
  ℕ, ◌≤◌, ◌<◌, ◌≡◌, ◌⊎◌, refl, sym, ap, ◌∙◌, Bool, true, false, not, List, [], ◌∷◌, inl, inr, arith,
  ltb, leb, if◌then◌else◌, skip_below, Ascends, Bool-cases, elem,
}
use phlare.Iter.Seekable.{SeekIterator, NextContract, SeekContract, Lands}
use phlare.Postings.Expand.{expand_postings, expand_postings_lem}
use phlare.Tsdb.Shard.{ShardAnnotation}
use phlare.Tsdb.Offsets.{Sample, range}
use phlare.Postings.Sharded.{
  ShardedPostings, new_sharded_postings, take_below, head_and_below, clipped, moved, seek,
  after_first, after_next, next, left, sharded,
}
use phlare.Postings.Sharded.Lists.{take_below-Ascends, clipped-Ascends, clipped-covers}

module _ {S : Type 0} (it : SeekIterator S) {V : S → Type 0} (n : NextContract it V)
    (s : SeekContract it V) where
  abbrev pub IsValid : ShardedPostings S → Type 0
  IsValid sp = V sp.p

  left-Ascends : (sp : ShardedPostings S) → IsValid sp → Ascends (it.at sp.p) (left it sp)
  left-Ascends sp v = elim (Bool-cases sp.initialized) [
    | inl e ↦ rw e (take_below-Ascends (it.at sp.p) sp.max_offset (it.rest sp.p) (n.ascends sp.p v))
    | inr e ↦
        rw e (
          clipped-Ascends (it.at sp.p) sp.min_offset sp.max_offset (it.rest sp.p)
            (n.ascends sp.p v))
  ]

  -- where the underlying iterator lands, the sharded one does, on what its bound leaves
  moved-Lands :
      (sp : ShardedPostings S) (l : List ℕ) (r : S × Bool)
      → sp.initialized ≡ true
      → Lands it V l r
      → Lands (sharded it) IsValid (head_and_below sp.max_offset l) (moved it sp r)
  unfolding sharded
  moved-Lands sp [] r i h = h
  moved-Lands sp (x ∷ xs) r i h = (h.0, h.1, rw (i, h.2) refl, h.3)

  after_next-Lands :
      (sp : ShardedPostings S) (l : List ℕ) (r : S × Bool)
      → sp.initialized ≡ true
      → Lands it V l r
      → Lands (sharded it) IsValid (take_below sp.max_offset l) (after_next it (moved it sp r))
  unfolding sharded after_next
  after_next-Lands sp [] (p, found) i h = rw h refl
  after_next-Lands sp (x ∷ xs) (p, found) i h =
      let at = ap (λ y. leb sp.max_offset y) h.1 in
      elim (Bool-cases (leb sp.max_offset x)) [
        | inl e ↦ let stops = at ∙ e in rw (h.0, e, stops) refl
        | inr e ↦ let goes = at ∙ e in rw (h.0, e, goes) (refl, h.1, rw (i, h.2) refl, h.3)
      ]

  -- `Seek(0)` just after the first value has been reached
  seek-Lands :
      (sp : ShardedPostings S) (xs : List ℕ)
      → sp.initialized ≡ true
      → V sp.p
      → it.rest sp.p ≡ xs
      → Lands
          (sharded it)
          IsValid
          (clipped sp.min_offset sp.max_offset (it.at sp.p ∷ xs))
          (seek it 0 sp)
  unfolding seek
  seek-Lands sp xs i v e = elim (Bool-cases (leb sp.max_offset 0)) [
    | inl none_left ↦ rw none_left refl
    | inr some_left ↦ rw some_left (by_start (Bool-cases (ltb (it.at sp.p) sp.min_offset)))
  ]
    where
      start : ℕ
      start = if ltb 0 sp.min_offset then sp.min_offset else 0

      start_is : start ≡ sp.min_offset
      start_is = ground arith

      from_start :
          (l : List ℕ)
          → Lands it V l (it.seek sp.min_offset sp.p)
          → Lands
              (sharded it)
              IsValid
              (head_and_below sp.max_offset l)
              (moved it sp (it.seek start sp.p))
      from_start l h =
          moved-Lands sp l (it.seek start sp.p) i
            (subst (λ x. Lands it V l (it.seek x sp.p)) (sym start_is) h)

      by_start :
          (ltb (it.at sp.p) sp.min_offset ≡ true) ⊎ (ltb (it.at sp.p) sp.min_offset ≡ false)
          → Lands
              (sharded it)
              IsValid
              (head_and_below sp.max_offset (skip_below sp.min_offset (it.at sp.p ∷ xs)))
              (moved it sp (it.seek start sp.p))
      by_start (inl below) =
          let lands =
            subst (λ l. Lands it V (skip_below sp.min_offset l) (it.seek sp.min_offset sp.p)) e
              (s.seek_lands sp.min_offset sp.p v (ground arith)) in
          rw below (from_start (skip_below sp.min_offset xs) lands)
      by_start (inr above) =
          let stays = s.seek_stays sp.min_offset sp.p v (ground arith) in
          rw above (
            from_start (it.at sp.p ∷ xs)
              (subst (Lands it V (it.at sp.p ∷ xs)) (sym stays) (refl, refl, e, v)))

  first-Lands :
      (sp : ShardedPostings S) (l : List ℕ) (r : S × Bool)
      → sp.initialized ≡ true
      → Lands it V l r
      → Lands
          (sharded it)
          IsValid
          (clipped sp.min_offset sp.max_offset l)
          (after_first it (moved it sp r))
  unfolding after_first
  first-Lands sp [] (p, found) i h = rw h (nothing (Bool-cases (leb sp.max_offset 0)))
    where
      nothing :
          (leb sp.max_offset 0 ≡ true) ⊎ (leb sp.max_offset 0 ≡ false)
          → Lands
              (sharded it)
              IsValid
              (clipped sp.min_offset sp.max_offset [])
              (record sp { p = p }, false)
      nothing (inl e) = rw e refl
      nothing (inr e) = rw e refl
  first-Lands sp (x ∷ xs) (p, found) i h = rw h.0 (
      subst
        (λ y.
          Lands (sharded it) IsValid (clipped sp.min_offset sp.max_offset (y ∷ xs))
            (seek it 0 (record sp { p = p })))
        h.1 (seek-Lands (record sp { p = p }) xs i h.3 h.2))

  next-Lands :
      (sp : ShardedPostings S) → IsValid sp → Lands (sharded it) IsValid (left it sp) (next it sp)
  unfolding next
  next-Lands sp v = elim (Bool-cases sp.initialized) [
    | inl e ↦
        subst by_flag (sym e)
          (after_next-Lands sp (it.rest sp.p) (it.next sp.p) e (n.next_lands sp.p v))
    | inr e ↦ subst by_flag (sym e) (
        first-Lands (record sp { initialized = true }) (it.rest sp.p) (it.next sp.p) refl
          (n.next_lands sp.p v))
  ]
    where
      by_flag : Bool → Type 0
      by_flag b =
          Lands (sharded it) IsValid
            (if b
              then take_below sp.max_offset (it.rest sp.p)
              else clipped sp.min_offset sp.max_offset (it.rest sp.p))
            (if not b
              then after_first it (moved it (record sp { initialized = true }) (it.next sp.p))
              else after_next it (moved it sp (it.next sp.p)))

  sharded-NextContract : NextContract (sharded it) IsValid
  unfolding sharded
  sharded-NextContract = record { ascends = left-Ascends; next_lands = next-Lands }

  -- Expanding the postings of a shard, over any iterator that keeps the contracts, gives its values
  -- from the first that is at least the shard's least offset up to the first after that one that is
  -- not below its greatest offset; nothing if the greatest offset is zero.
  pub expand-sharded :
      (p : S) (shard : ShardAnnotation) (offsets : List Sample)
      → V p
      → expand_postings (sharded it) (new_sharded_postings p shard offsets)
        ≡ clipped (range offsets shard).0 (range offsets shard).1 (it.rest p)
  unfolding new_sharded_postings sharded
  expand-sharded p shard offsets v =
      expand_postings_lem (sharded it) sharded-NextContract (new_sharded_postings p shard offsets) v

  -- Every value of an iterator that keeps the contracts and lies in the shard's range of offsets is
  -- among those that expanding the postings of the shard gives.
  pub expand-sharded_covers :
      (p : S) (shard : ShardAnnotation) (offsets : List Sample) (offset : ℕ)
      → V p
      → elem offset (it.rest p) ≡ true
      → (range offsets shard).0 ≤ offset
      → offset < (range offsets shard).1
      → elem offset (expand_postings (sharded it) (new_sharded_postings p shard offsets)) ≡ true
  expand-sharded_covers p shard offsets offset v in_list lo hi =
      ap (elem offset) (expand-sharded p shard offsets v)
      ∙ clipped-covers (it.at p) (range offsets shard).0 (range offsets shard).1 (it.rest p) offset
          (n.ascends p v) in_list lo hi
