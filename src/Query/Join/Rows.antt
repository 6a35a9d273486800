-- ===== src/Query/Join/Rows.antt =====
-- What a join of the rows of several iterators is, and rows that it may leave out.
use phlare.Base.{
  ℕ, ◌+◌, ◌≡◌, refl, sym, ap, ◌∙◌, Bool, true, false, not, ◌&&◌, Option, none, some, List, [], ◌∷◌,
  ◌++◌, map, All, Bool-cases, ◌⊎◌, inl, inr, arith, length,
}
use mathlib.Core.Path.{ap₂}
use phlare.Base.Order.{IsOrder, true-false}
use phlare.Query.Join.{IteratorResult, Cursor}
use phlare.Query.Join.Skip.{
  rows_of, has, gather, skip_while, NotBelow, IsAscending, IsDown, has-skip_while,
  gather-skip_while, after-skip_while, IsAscending-skip_while, has-skipped, has-NotBelow,
}
use phlare.Query.Join.Scan.{Any}

abbrev pub total {ℓ} : {A : Type ℓ} → List (List A) → ℕ
total [] = 0
total (rows ∷ its) = length rows + total its

module _ {R E K : Type 0} (key : R → K) (lt : K → K → Bool) where
  abbrev pub all_have : K → List (List (IteratorResult R E)) → Bool
  all_have k [] = true
  all_have k (rows ∷ its) = has key lt k rows && all_have k its

  abbrev pub gather_all : K → List (List (IteratorResult R E)) → List E
  gather_all k [] = []
  gather_all k (rows ∷ its) = gather key lt k rows ++ gather_all k its

  abbrev pub skip_all :
      (K → Bool) → List (List (IteratorResult R E)) → List (List (IteratorResult R E))
  skip_all below its = map (λ rows. skip_while key lt below rows) its

module _ {R E K : Type 0} (key : R → K) (lt : K → K → Bool) (keep : List E → Bool) where
  -- whether a key is in the join: all have it, and its group is kept
  abbrev pub joins : K → List (List (IteratorResult R E)) → Bool
  joins k its = all_have key lt k its && keep (gather_all key lt k its)

  -- the first group of the join, and what is behind it
  pub record IsFirst (its : List (List (IteratorResult R E))) (res : IteratorResult R E)
      (its' : List (Cursor R E)) : Type 0 where
    pub here : joins (key res.row_number) its ≡ true
    pub entries : res.entries ≡ gather_all key lt (key res.row_number) its
    pub first : (k : K) → (lt k (key res.row_number) && joins k its) ≡ false
    pub behind :
        map (λ c. rows_of c) its' ≡ skip_all key lt (λ x. not (lt (key res.row_number) x)) its

  -- A call of `Next` finds the first group of the join, or ends where there is none.
  abbrev pub IsNext :
      List (List (IteratorResult R E))
      → Option (Option (IteratorResult R E) × List (Cursor R E))
      → Type 0
  IsNext its o =
      ((its' : List (Cursor R E)) × (o ≡ some (none, its')) × ((k : K) → joins k its ≡ false))
      ⊎ ((res : IteratorResult R E) × (its' : List (Cursor R E)) × (o ≡ some (some res, its'))
          × IsFirst its res its')

  module _ (o : IsOrder lt) where
    all_have-skip_all :
        (below : K → Bool) (k : K) (its : List (List (IteratorResult R E)))
        → below k ≡ false
        → all_have key lt k (skip_all key lt below its) ≡ all_have key lt k its
    all_have-skip_all below k [] f = refl
    all_have-skip_all below k (rows ∷ its) f =
        ap₂ (λ a b. a && b) (has-skip_while key lt o below k rows f)
          (all_have-skip_all below k its f)

    gather_all-skip_all :
        (below : K → Bool) (k : K) (its : List (List (IteratorResult R E)))
        → below k ≡ false
        → gather_all key lt k (skip_all key lt below its) ≡ gather_all key lt k its
    gather_all-skip_all below k [] f = refl
    gather_all-skip_all below k (rows ∷ its) f =
        ap₂ (λ a b. a ++ b) (gather-skip_while key lt o below k rows f)
          (gather_all-skip_all below k its f)

    pub joins-skip_all :
        (below : K → Bool) (k : K) (its : List (List (IteratorResult R E)))
        → below k ≡ false
        → joins k (skip_all key lt below its) ≡ joins k its
    joins-skip_all below k its f =
        ap₂ (λ a b. a && keep b) (all_have-skip_all below k its f)
          (gather_all-skip_all below k its f)

    after-skip_all :
        (below : K → Bool) (k : K) (its : List (List (IteratorResult R E)))
        → IsDown lt below
        → below k ≡ false
        → skip_all key lt (λ x. not (lt k x)) (skip_all key lt below its)
          ≡ skip_all key lt (λ x. not (lt k x)) its
    after-skip_all below k [] down f = refl
    after-skip_all below k (rows ∷ its) down f =
        ap₂ (λ a b. a ∷ b) (after-skip_while key lt o below k rows down f)
          (after-skip_all below k its down f)

    -- keys that were left out in front
    pub joins-skipped :
        (below : K → Bool) (k : K) (rows : List (IteratorResult R E))
        (its : List (List (IteratorResult R E)))
        → IsDown lt below
        → IsAscending key lt rows
        → below k ≡ true
        → joins k (skip_all key lt below (rows ∷ its)) ≡ false
    joins-skipped below k rows its down a f = rw (has-skipped key lt o below k rows down a f) refl

    -- A key below all rows of one iterator is not in the join.
    pub joins-NotBelow :
        (h k : K) (its : List (List (IteratorResult R E)))
        → Any (λ rows. NotBelow key lt h rows) its
        → lt k h ≡ true
        → joins k its ≡ false
    joins-NotBelow h k its a e = ap (λ b. b && keep (gather_all key lt k its)) (none_has its a)
      where
        none_has :
            (its : List (List (IteratorResult R E)))
            → Any (λ rows. NotBelow key lt h rows) its
            → all_have key lt k its ≡ false
        none_has [] a = absurd a
        none_has (rows ∷ its) (inl b) = rw (has-NotBelow key lt o h k rows b e) refl
        none_has (rows ∷ its) (inr a) = rw (none_has its a) (by_test (has key lt k rows))
          where
            by_test : (b : Bool) → (b && false) ≡ false
            by_test b = ground arith

    pub skip_all-AreAscending :
        (below : K → Bool) (its : List (List (IteratorResult R E)))
        → All (λ rows. IsAscending key lt rows) its
        → All (λ rows. IsAscending key lt rows) (skip_all key lt below its)
    skip_all-AreAscending below [] a = tt
    skip_all-AreAscending below (rows ∷ its) a =
        (IsAscending-skip_while key lt o below rows a.0, skip_all-AreAscending below its a.1)

    -- What `Next` finds behind rows that are not in the join is what it finds.
    pub IsNext-skip_all :
        (below : K → Bool) (rows : List (IteratorResult R E))
        (its : List (List (IteratorResult R E)))
        (r : Option (Option (IteratorResult R E) × List (Cursor R E)))
        → IsDown lt below
        → IsAscending key lt rows
        → ((k : K) → below k ≡ true → joins k (rows ∷ its) ≡ false)
        → IsNext (skip_all key lt below (rows ∷ its)) r
        → IsNext (rows ∷ its) r
    IsNext-skip_all below rows its r down a gone (inl (its', e, ends)) =
        inl (its', e, λ k. by_below k (Bool-cases (below k)))
      where
        by_below : (k : K) → (below k ≡ true) ⊎ (below k ≡ false) → joins k (rows ∷ its) ≡ false
        by_below k (inl f) = gone k f
        by_below k (inr f) = sym (joins-skip_all below k (rows ∷ its) f) ∙ ends k
    IsNext-skip_all below rows its r down a gone (inr (res, its', e, i)) =
        inr (res, its', e, by_below (Bool-cases (below (key res.row_number))))
      where
        first_of :
            (k : K)
            → (below k ≡ true) ⊎ (below k ≡ false)
            → (lt k (key res.row_number) && joins k (rows ∷ its)) ≡ false
        first_of k (inl f) = rw (gone k f) (by_test (lt k (key res.row_number)))
          where
            by_test : (b : Bool) → (b && false) ≡ false
            by_test b = ground arith
        first_of k (inr f) =
            ap (λ b. lt k (key res.row_number) && b) (sym (joins-skip_all below k (rows ∷ its) f))
            ∙ i.first k

        by_below :
            (below (key res.row_number) ≡ true) ⊎ (below (key res.row_number) ≡ false)
            → IsFirst (rows ∷ its) res its'
        by_below (inl f) =
            absurd
              (true-false (sym i.here ∙ joins-skipped below (key res.row_number) rows its down a f))
        by_below (inr f) = record {
          here = sym (joins-skip_all below (key res.row_number) (rows ∷ its) f) ∙ i.here;
          entries = i.entries ∙ gather_all-skip_all below (key res.row_number) (rows ∷ its) f;
          first = λ k. first_of k (Bool-cases (below k));
          behind = i.behind ∙ after-skip_all below (key res.row_number) (rows ∷ its) down f;
        }
