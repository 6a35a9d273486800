-- ===== src/Iter/Slice.antt =====
-- pkg/iter/iter.go: `sliceIterator` and `sliceSeekIterator`, at the type of series references.
use phlare.Base.{
  ℕ, zero, suc, ◌≤◌, ◌<◌, ◌≡◌, refl, inl, inr, Bool, true, false, List, [], ◌∷◌, arith, ltb, leb,
  if◌then◌else◌, length, get_or, drop, Ascends, skip_below, Bool-cases, le→leb,
}
use phlare.Iter.Search.{search, search-Found, Rises, search-below}
use phlare.Iter.Seekable.{SeekIterator, NextContract, SeekContract, Lands}

pub record SliceIterator : Type 0 where
  pub list : List ℕ
  pub cur : ℕ

unfoldable pub new_slice_iterator : List ℕ → SliceIterator
new_slice_iterator s = record { list = s; cur = 0 }

next_from : List ℕ → SliceIterator → SliceIterator × Bool
next_from [] i = (record { list = []; cur = 0 }, false)
next_from (x ∷ xs) i = (record { list = xs; cur = x }, true)

unfoldable pub next : SliceIterator → SliceIterator × Bool
unfolding next_from
next i = next_from i.list i

-- the closure that `Seek` hands to `sort.Search`
abbrev pub reaches : ℕ → List ℕ → ℕ → Bool
reaches x list pos = leb x (get_or list pos 0)

seek_slice : ℕ → SliceIterator → SliceIterator × Bool
seek_slice x i =
    let pos = search (length i.list) (reaches x i.list) in
    if ltb pos (length i.list)
    then (record { list = drop (suc pos) i.list; cur = get_or i.list pos 0 }, true)
    else (record i { list = [] }, false)

unfoldable pub seek : ℕ → SliceIterator → SliceIterator × Bool
unfolding seek_slice
seek x i =
    if leb x i.cur then (i, true) else if leb (length i.list) 0 then (i, false) else seek_slice x i

unfoldable pub slice : SeekIterator SliceIterator
unfolding next seek
slice = record { next = next; seek = seek; at = λ i. i.cur; rest = λ i. i.list }

-- The values still to come ascend from the current one.
abbrev pub IsSorted : SliceIterator → Type 0
IsSorted i = Ascends i.cur i.list

Ascends-get : (lo : ℕ) (l : List ℕ) (i : ℕ) → Ascends lo l → i < length l → lo ≤ get_or l i 0
Ascends-get lo [] i s h = absurd (omega arith)
Ascends-get lo (x ∷ l) zero s h = s.0
Ascends-get lo (x ∷ l) (suc i) s h = omega (arith, Ascends-get x l i s.1 (omega arith))

Ascends-get_le :
    (lo : ℕ) (l : List ℕ) (i j : ℕ)
    → Ascends lo l
    → i ≤ j
    → j < length l
    → get_or l i 0 ≤ get_or l j 0
Ascends-get_le lo [] i j s le h = absurd (omega arith)
Ascends-get_le lo (x ∷ l) zero zero s le h = omega arith
Ascends-get_le lo (x ∷ l) zero (suc j) s le h = Ascends-get x l j s.1 (omega arith)
Ascends-get_le lo (x ∷ l) (suc i) zero s le h = absurd (omega arith)
Ascends-get_le lo (x ∷ l) (suc i) (suc j) s le h =
    Ascends-get_le x l i j s.1 (omega arith) (omega arith)

pub reaches-Rises : (x lo : ℕ) (l : List ℕ) → Ascends lo l → Rises (length l) (reaches x l)
reaches-Rises x lo l s i j le h e = let up = Ascends-get_le lo l i j s le h in ground arith

-- Skipping linearly stops at an index that splits the list.
skip_below-drop :
    (x : ℕ) (l : List ℕ) (p : ℕ)
    → p < length l
    → ((k : ℕ) → k < p → reaches x l k ≡ false)
    → reaches x l p ≡ true
    → skip_below x l ≡ get_or l p 0 ∷ drop (suc p) l
skip_below-drop x [] p h lo hi = absurd (omega arith)
skip_below-drop x (y ∷ l) zero h lo hi = ground arith
skip_below-drop x (y ∷ l) (suc p) h lo hi = ground (
  arith,
  lo 0 (omega arith),
  skip_below-drop x l p (omega arith) (λ k q. lo (suc k) (omega arith)) hi,
)

skip_below-none :
    (x : ℕ) (l : List ℕ) → ((k : ℕ) → k < length l → reaches x l k ≡ false) → skip_below x l ≡ []
skip_below-none x [] lo = refl
skip_below-none x (y ∷ l) lo =
    ground (arith, lo 0 (omega arith), skip_below-none x l (λ k q. lo (suc k) (omega arith)))

Ascends-drop :
    (lo : ℕ) (l : List ℕ) (p : ℕ)
    → Ascends lo l
    → p < length l
    → Ascends (get_or l p 0) (drop (suc p) l)
Ascends-drop lo [] p s h = absurd (omega arith)
Ascends-drop lo (x ∷ l) zero s h = s.1
Ascends-drop lo (x ∷ l) (suc p) s h = Ascends-drop x l p s.1 (omega arith)

next_from-Lands :
    (l : List ℕ) (i : SliceIterator) → Ascends i.cur l → Lands slice IsSorted l (next_from l i)
unfolding slice
next_from-Lands [] i v = refl
next_from-Lands (x ∷ l) i v = (refl, refl, refl, v.1)

seek_slice-Lands :
    (x : ℕ) (i : SliceIterator)
    → IsSorted i
    → Lands slice IsSorted (skip_below x i.list) (seek_slice x i)
unfolding slice
seek_slice-Lands x i v =
    let p = search (length i.list) (reaches x i.list) in
    let low = search-below (length i.list) (reaches x i.list) (reaches-Rises x i.cur i.list v) in
    let found = search-Found (length i.list) (reaches x i.list) in
    elim (Bool-cases (ltb p (length i.list))) [
      | inl some_left ↦
          let lt : p < length i.list = ground arith in
          rw (some_left, skip_below-drop x i.list p lt low (found.holds lt))
            (refl, refl, refl, Ascends-drop i.cur i.list p v lt)
      | inr none_left ↦
          let all_left : length i.list ≤ p = ground arith in
          rw (none_left, skip_below-none x i.list (λ k q. low k (omega arith))) refl
    ]

skip_below-empty : (x : ℕ) (l : List ℕ) → length l ≤ 0 → skip_below x l ≡ []
skip_below-empty x [] h = refl
skip_below-empty x (y ∷ l) h = absurd (omega arith)

seek-Lands :
    (x : ℕ) (i : SliceIterator)
    → IsSorted i
    → leb x i.cur ≡ false
    → Lands slice IsSorted (skip_below x i.list) (seek x i)
unfolding seek slice
seek-Lands x i v h = elim (Bool-cases (leb (length i.list) 0)) [
  | inl e ↦ rw (h, e, skip_below-empty x i.list (ground arith)) refl
  | inr e ↦ rw (h, e) (seek_slice-Lands x i v)
]

pub slice-NextContract : NextContract slice IsSorted
unfolding slice
slice-NextContract = record { ascends = λ i v. v; next_lands = λ i v. next_from-Lands i.list i v }

-- Over an ascending slice the binary search of `Seek` lands where a walk by `Next` to the first
-- large enough value would, and `Seek` does not move when the current value is large enough.
pub slice-SeekContract : SeekContract slice IsSorted
unfolding slice
slice-SeekContract = record {
  seek_stays = λ x i v h. rw (le→leb x i.cur h) refl;
  seek_lands = seek-Lands;
}
