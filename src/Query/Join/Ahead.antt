-- ===== src/Query/Join/Ahead.antt =====
-- Rows of a join that are ahead, and what a call of `Next` finds behind rows that are left out.
use mathlib.Core.Path.{subst}
use phlare.Base.{
  ℕ, suc, ◌≤◌, ◌<◌, ◌≡◌, refl, ap, ◌∙◌, Bool, true, false, not, Option, none, some, List, [], ◌∷◌,
  All, Bool-cases, inl, inr, arith, length,
}
use phlare.Query.Join.{IteratorResult, Cursor, join_loop}
use phlare.Query.Join.Skip.{
  RowOrder, skip_while, IsAscending, IsDown, IsAscending-skip_while, rows_at, IsRow, AreRows,
}
use phlare.Query.Join.Rows.{total, skip_all, joins, IsNext, joins-skipped, IsNext-skip_all}
use phlare.Query.Join.Round.{length-all_rows, AreAt, all_rows, some_same}

pub by_not : (b : Bool) → not b ≡ true → b ≡ false
by_not b e = ground arith

pub by_no : (b : Bool) → not b ≡ false → b ≡ true
by_no b e = ground arith

module _ {R E K : Type 0} (m : RowOrder R K) (max empty : R) (keep : List E → Bool) where
  open m use {key, lt, o, compare, law, truncate, same_key}

  abbrev pub keep_group : IteratorResult R E → Bool
  keep_group res = keep res.entries

  abbrev pub Found : List (List (IteratorResult R E)) → List (Cursor R E) → ℕ → Type 0
  Found its iters fuel =
      IsNext key lt keep its (join_loop compare truncate max empty keep_group fuel iters)

  skip-IsRow :
      (below : K → Bool) (rows : List (IteratorResult R E))
      → All (λ r. IsRow key lt max empty r.row_number) rows
      → All (λ r. IsRow key lt max empty r.row_number) (skip_while key lt below rows)
  skip-IsRow below [] a = tt
  skip-IsRow below (r ∷ rows) a = elim (Bool-cases (below (key r.row_number))) [
    | inl e ↦ rw e (skip-IsRow below rows a.1)
    | inr e ↦ rw e a
  ]

  pub skip-AreRows :
      (below : K → Bool) (its : List (List (IteratorResult R E)))
      → All (AreRows key lt max empty) its
      → All (AreRows key lt max empty) (skip_all key lt below its)
  skip-AreRows below [] a = tt
  skip-AreRows below (rows ∷ its) a = (
    (IsAscending-skip_while key lt o below rows a.0.0, skip-IsRow below rows a.0.1),
    skip-AreRows below its a.1,
  )

  pub ascending :
      (its : List (List (IteratorResult R E)))
      → All (AreRows key lt max empty) its
      → All (λ rows. IsAscending key lt rows) its
  ascending [] a = tt
  ascending (rows ∷ its) a = (a.0.0, ascending its a.1)

  pub length-skip_all :
      (below : K → Bool) (its : List (List (IteratorResult R E)))
      → length (skip_all key lt below its) ≡ length its
  length-skip_all below [] = refl
  length-skip_all below (rows ∷ its) = ap suc (length-skip_all below its)

  pub still_some :
      (its' : List (Cursor R E)) (below : K → Bool) (its : List (List (IteratorResult R E)))
      → all_rows its' ≡ skip_all key lt below its
      → 1 ≤ length its
      → 1 ≤ length its'
  still_some its' below its e n =
      omega (arith, length-all_rows its', length-skip_all below its, ap length e, n)

  -- the rows that the iterators are at are rows
  pub at-IsRow :
      (its : List (Cursor R E)) (ds : List R)
      → AreAt its ds
      → All (AreRows key lt max empty) (all_rows its)
      → All (IsRow key lt max empty) ds
  at-IsRow [] [] at a = tt
  at-IsRow [] (d ∷ ds) at a = absurd at
  at-IsRow (c ∷ its) [] at a = tt
  at-IsRow (c ∷ its) (d ∷ ds) at a =
      let (r, e, f) = at.0 in (own r c.peeked e f a.0.1, at-IsRow its ds at.1 a.1)
    where
      own :
          (r : IteratorResult R E) (p : Option (IteratorResult R E))
          → p ≡ some r
          → r.row_number ≡ d
          → All (λ r. IsRow key lt max empty r.row_number) (rows_at p c.ahead)
          → IsRow key lt max empty d
      own r none e f b = absurd (ground arith)
      own r (some q) e f b =
          subst (IsRow key lt max empty) (ap (λ x. x.row_number) (some_same e) ∙ f) b.0

  -- behind rows that are not in the join
  pub further :
      (below : K → Bool) (its : List (List (IteratorResult R E)))
      (r : Option (Option (IteratorResult R E) × List (Cursor R E)))
      → IsDown lt below
      → All (AreRows key lt max empty) its
      → 1 ≤ length its
      → ((k : K) → below k ≡ true → joins key lt keep k its ≡ false)
      → IsNext key lt keep (skip_all key lt below its) r
      → IsNext key lt keep its r
  further below [] r down a n gone next = absurd (omega arith)
  further below (rows ∷ its) r down a n gone next =
      IsNext-skip_all key lt keep o below rows its r down a.0.0 gone next

  pub joins-left_out :
      (below : K → Bool) (k : K) (its : List (List (IteratorResult R E)))
      → IsDown lt below
      → All (λ rows. IsAscending key lt rows) its
      → 1 ≤ length its
      → below k ≡ true
      → joins key lt keep k (skip_all key lt below its) ≡ false
  joins-left_out below k [] down a n f = absurd (omega arith)
  joins-left_out below k (rows ∷ its) down a n f =
      joins-skipped key lt keep o below k rows its down a.0 f

  abbrev pub Claim : ℕ → Type 0
  Claim fuel =
      (iters : List (Cursor R E))
      → 1 ≤ length iters
      → All (AreRows key lt max empty) (all_rows iters)
      → total (all_rows iters) < fuel
      → Found (all_rows iters) iters fuel
