-- ===== src/Postings/Sharded/Lists.antt =====
-- The values that `ShardedPostings` cuts out of an ascending list.
use phlare.Base.{
  ℕ, ◌≤◌, ◌<◌, ◌≡◌, refl, true, false, List, [], ◌∷◌, inl, inr, arith, ltb, leb, skip_below,
  Ascends, Ascends-weaken, Bool-cases, elem, ◌==◌, ◌||◌,
}
use phlare.Tsdb.Index.Intersect.{elem-below}
use phlare.Postings.Sharded.{take_below, head_and_below, clipped}

pub take_below-Ascends : (lo max : ℕ) (xs : List ℕ) → Ascends lo xs → Ascends lo (take_below max xs)
take_below-Ascends lo max [] s = tt
take_below-Ascends lo max (x ∷ xs) s = elim (Bool-cases (leb max x)) [
  | inl e ↦ rw e tt
  | inr e ↦ rw e (s.0, take_below-Ascends x max xs s.1)
]

skip_below-Ascends : (lo min : ℕ) (xs : List ℕ) → Ascends lo xs → Ascends lo (skip_below min xs)
skip_below-Ascends lo min [] s = tt
skip_below-Ascends lo min (x ∷ xs) s = elim (Bool-cases (ltb x min)) [
  | inl e ↦ rw e (skip_below-Ascends lo min xs (Ascends-weaken lo x xs s.0 s.1))
  | inr e ↦ rw e s
]

head_and_below-Ascends :
    (lo max : ℕ) (xs : List ℕ) → Ascends lo xs → Ascends lo (head_and_below max xs)
head_and_below-Ascends lo max [] s = tt
head_and_below-Ascends lo max (x ∷ xs) s = (s.0, take_below-Ascends x max xs s.1)

pub clipped-Ascends :
    (lo min max : ℕ) (xs : List ℕ) → Ascends lo xs → Ascends lo (clipped min max xs)
clipped-Ascends lo min max xs s = elim (Bool-cases (leb max 0)) [
  | inl e ↦ rw e tt
  | inr e ↦
      rw e (head_and_below-Ascends lo max (skip_below min xs) (skip_below-Ascends lo min xs s))
]

take_below-covers :
    (lo max : ℕ) (xs : List ℕ) (z : ℕ)
    → Ascends lo xs
    → elem z xs ≡ true
    → z < max
    → elem z (take_below max xs) ≡ true
take_below-covers lo max [] z s e h = absurd (ground arith)
take_below-covers lo max (x ∷ xs) z s e h = elim (Bool-cases (leb max x)) [
  | inl past ↦ absurd (above (elem-below z x (x ∷ xs) (ground arith) (omega arith, s.1)))
  | inr below ↦ rw below (either (take_below-covers x max xs z s.1))
]
  where
    above : elem z (x ∷ xs) ≡ false → ⊥
    above k = ground arith

    either :
        (elem z xs ≡ true → z < max → elem z (take_below max xs) ≡ true)
        → (z == x || elem z (take_below max xs)) ≡ true
    either rest = elim (Bool-cases (z == x)) [
      | inl here ↦ rw here refl
      | inr there ↦ let found = rest (ground arith) h in ground (arith, found)
    ]

skip_below-covers :
    (min : ℕ) (xs : List ℕ) (z : ℕ) → elem z xs ≡ true → min ≤ z → elem z (skip_below min xs) ≡ true
skip_below-covers min [] z e l = e
skip_below-covers min (x ∷ xs) z e l = elim (Bool-cases (ltb x min)) [
  | inl below ↦ rw below (skip_below-covers min xs z (ground arith) l)
  | inr above ↦ rw above e
]

head_and_below-covers :
    (lo max : ℕ) (xs : List ℕ) (z : ℕ)
    → Ascends lo xs
    → elem z xs ≡ true
    → z < max
    → elem z (head_and_below max xs) ≡ true
head_and_below-covers lo max [] z s e h = e
head_and_below-covers lo max (x ∷ xs) z s e h = elim (Bool-cases (z == x)) [
  | inl here ↦ ground arith
  | inr there ↦
      let found = take_below-covers x max xs z s.1 (ground arith) h in ground (arith, found)
]

pub clipped-covers :
    (lo min max : ℕ) (xs : List ℕ) (z : ℕ)
    → Ascends lo xs
    → elem z xs ≡ true
    → min ≤ z
    → z < max
    → elem z (clipped min max xs) ≡ true
clipped-covers lo min max xs z s e l h =
    let some_left : leb max 0 ≡ false = ground arith in
    rw some_left (
      head_and_below-covers lo max (skip_below min xs) z (skip_below-Ascends lo min xs s)
        (skip_below-covers min xs z e l) h)
