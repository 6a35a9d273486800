-- ===== src/Query/Join/Round.antt =====
-- The iterators of a join during a round of `Next`.
use mathlib.Core.Path.{ap₂, subst}
use phlare.Base.{
  ℕ, suc, ◌≤◌, ◌<◌, ◌≡◌, refl, ap, ◌∙◌, Bool, true, not, ◌&&◌, Option, none, some, List, [], ◌∷◌,
  ◌++◌, map, All, Bool-cases, Option-cases, ◌⊎◌, inl, inr, arith, length,
}
use phlare.Base.Order.{equal, equal-same}
use phlare.Query.Join.{
  IteratorResult, Cursor, Pass, peek, peek_at, scan, scan_at, collect_loop, collect, seek_all,
  pass_over,
}
use phlare.Query.Join.Skip.{
  RowOrder, rows_at, rows_of, has, gather, skip_while, after, NotBelow, IsAscending,
}
use phlare.Query.Join.Cursors.{rows-peek_at, rows-seek_at, collect_loop_lem}
use phlare.Query.Join.Scan.{Any, pass_rows}
use phlare.Query.Join.Rows.{all_have, gather_all, skip_all, total}

module _ {R E : Type 0} where
  -- The iterators are at rows.
  abbrev pub AreAt : List (Cursor R E) → List R → Type 0
  AreAt [] [] = Unit
  AreAt [] (d ∷ ds) = ⊥
  AreAt (c ∷ its) [] = ⊥
  AreAt (c ∷ its) (d ∷ ds) =
      ((r : IteratorResult R E) × (c.peeked ≡ some r) × (r.row_number ≡ d)) × AreAt its ds

  abbrev pub all_rows : List (Cursor R E) → List (List (IteratorResult R E))
  all_rows its = map (λ c. rows_of c) its

  pub length-all_rows : (its : List (Cursor R E)) → length (all_rows its) ≡ length its
  length-all_rows [] = refl
  length-all_rows (c ∷ its) = ap suc (length-all_rows its)

  pub length-AreAt : (its : List (Cursor R E)) (ds : List R) → AreAt its ds → length its ≡ length ds
  length-AreAt [] [] a = refl
  length-AreAt [] (d ∷ ds) a = absurd a
  length-AreAt (c ∷ its) [] a = absurd a
  length-AreAt (c ∷ its) (d ∷ ds) a = ap suc (length-AreAt its ds a.1)

  pub some_same :
      {q r : IteratorResult R E} → ◌≡◌ {A = Option (IteratorResult R E)} (some q) (some r) → q ≡ r
  some_same e = ground arith

  no_peek :
      (p : Option (IteratorResult R E)) (rows : List (IteratorResult R E))
      → (peek_at p rows).peeked ≡ none
      → rows_at p rows ≡ []
  no_peek none [] e = refl
  no_peek none (r ∷ rows) e = absurd (ground arith)
  no_peek (some r) rows e = absurd (ground arith)

module _ {R E K : Type 0} (m : RowOrder R K) where
  open m use {key, lt, o, compare, law, truncate, same_key}

  -- the pass over the iterators: one is exhausted, or all are at rows
  abbrev pub IsScanned :
      ℕ → List (Cursor R E) → Pass R → List (Cursor R E) × Option (Pass R) → Type 0
  IsScanned i its p r =
      ((its' : List (Cursor R E)) × (r ≡ (its', none)) × Any (λ rows. rows ≡ []) (all_rows its))
      ⊎ ((its' : List (Cursor R E)) × (ds : List R) × (r ≡ (its', some (pass_rows m i ds p)))
          × AreAt its' ds
          × (all_rows its' ≡ all_rows its))

  pub scan-IsScanned :
      (i : ℕ) (its : List (Cursor R E)) (p : Pass R) → IsScanned i its p (scan compare i its p)
  unfolding scan
  scan-IsScanned i [] p = inr ([], [], refl, tt, refl)
  scan-IsScanned i (c ∷ its) p = elim (Option-cases (peek c).peeked) [
    | inl e ↦ inl (
      peek c ∷ its,
      ap (λ r. scan_at compare i (peek c) r its (scan compare (suc i) its) p) e,
      inl (no_peek c.peeked c.ahead e),
    )
    | inr (r, e) ↦
        let q = pass_over compare i r.row_number p in
        let eq = ap (λ r. scan_at compare i (peek c) r its (scan compare (suc i) its) p) e in
        elim (scan-IsScanned (suc i) its q) [
          | inl (its', e', a) ↦ inl (
            peek c ∷ its',
            eq ∙ ap (λ (r : List (Cursor R E) × Option (Pass R)). (peek c ∷ r.0, r.1)) e',
            inr a,
          )
          | inr (its', ds, e', at, same) ↦ inr (
            peek c ∷ its',
            r.row_number ∷ ds,
            eq ∙ ap (λ (r : List (Cursor R E) × Option (Pass R)). (peek c ∷ r.0, r.1)) e',
            ((r, e, refl), at),
            ap₂ (λ rows all. rows ∷ all) (rows-peek_at m c.peeked c.ahead) same,
          )
        ]
  ]

  pub rows-seek_all :
      (to : R) (its : List (Cursor R E))
      → all_rows (seek_all compare truncate to its)
        ≡ skip_all key lt (λ x. lt x (key to)) (all_rows its)
  rows-seek_all to [] = refl
  rows-seek_all to (c ∷ its) =
      ap₂ (λ rows all. rows ∷ all)
        (rows-seek_at m (truncate to) c.peeked c.ahead
          ∙ ap (λ k. skip_while key lt (λ x. lt x k) (rows_of c)) (same_key to))
        (rows-seek_all to its)

  -- the least key of each iterator
  pub Any-NotBelow :
      (h : K) (its : List (Cursor R E)) (ds : List R)
      → AreAt its ds
      → All (λ rows. IsAscending key lt rows) (all_rows its)
      → Any (λ d. key d ≡ h) ds
      → Any (λ rows. NotBelow key lt h rows) (all_rows its)
  Any-NotBelow h [] [] at a any = absurd any
  Any-NotBelow h [] (d ∷ ds) at a any = absurd at
  Any-NotBelow h (c ∷ its) [] at a any = absurd any
  Any-NotBelow h (c ∷ its) (d ∷ ds) at a (inl e) = inl (own at.0.0 c.peeked at.0.1 at.0.2 a.0)
    where
      own :
          (r : IteratorResult R E) (p : Option (IteratorResult R E))
          → p ≡ some r
          → r.row_number ≡ d
          → IsAscending key lt (rows_at p c.ahead)
          → NotBelow key lt h (rows_at p c.ahead)
      own r none f g b = absurd (ground arith)
      own r (some q) f g b =
          subst (λ k. NotBelow key lt k (q ∷ c.ahead))
            (ap (λ x. key x.row_number) (some_same f) ∙ ap key g ∙ e)
            (o.irreflexive (key q.row_number), b.0)
  Any-NotBelow h (c ∷ its) (d ∷ ds) at a (inr any) = inr (Any-NotBelow h its ds at.1 a.1 any)

  -- Where all iterators are at one key, `collect` gives what they have of it.
  pub collect_lem :
      (row : R) (its : List (Cursor R E)) (ds : List R)
      → AreAt its ds
      → All (λ rows. IsAscending key lt rows) (all_rows its)
      → All (λ d. equal lt (key d) (key row) ≡ true) ds
      → ((collect compare row its).0 ≡ gather_all key lt (key row) (all_rows its))
        × (all_rows (collect compare row its).1
            ≡ skip_all key lt (λ x. not (lt (key row) x)) (all_rows its))
        × (all_have key lt (key row) (all_rows its) ≡ true)
        × All (λ rows. NotBelow key lt (key row) rows) (all_rows its)
  collect_lem row [] ds at a same = (refl, refl, refl, tt)
  collect_lem row (c ∷ its) [] at a same = absurd at
  collect_lem row (c ∷ its) (d ∷ ds) at a same =
      let (r, e, f) = at.0 in
      let (es, rest, have, low) = collect_lem row its ds at.1 a.1 same.1 in
      let (es', rest', have', low') = own r c.peeked e f same.0 a.0 in
      (
        ap₂ (λ x y. x ++ y) es' es,
        ap₂ (λ x y. x ∷ y) rest' rest,
        ap₂ (λ x y. x && y) have' have,
        (low', low),
      )
    where
      own :
          (r : IteratorResult R E) (p : Option (IteratorResult R E))
          → p ≡ some r
          → r.row_number ≡ d
          → equal lt (key d) (key row) ≡ true
          → IsAscending key lt (rows_at p c.ahead)
          → ((collect_loop compare row p c.ahead).0 ≡ gather key lt (key row) (rows_at p c.ahead))
            × (rows_of (collect_loop compare row p c.ahead).1
                ≡ after key lt (key row) (rows_at p c.ahead))
            × (has key lt (key row) (rows_at p c.ahead) ≡ true)
            × NotBelow key lt (key row) (rows_at p c.ahead)
      own r none e f g b = absurd (ground arith)
      own r (some q) e f g b =
          let here : equal lt (key q.row_number) (key row) ≡ true =
            ap (λ x. equal lt x (key row)) (ap (λ x. key x.row_number) (some_same e) ∙ ap key f)
            ∙ g in
          let low : NotBelow key lt (key row) (q ∷ c.ahead) =
            subst (λ k. NotBelow key lt k (q ∷ c.ahead))
              (equal-same lt o (key q.row_number) (key row) here)
              (o.irreflexive (key q.row_number), b.0) in
          let (es, rest) = collect_loop_lem m row q c.ahead low b in (es, rest, rw here refl, low)

  length-skip_while :
      (below : K → Bool) (rows : List (IteratorResult R E))
      → length (skip_while key lt below rows) ≤ length rows
  length-skip_while below [] = omega arith
  length-skip_while below (r ∷ rows) =
      let i = length-skip_while below rows in
      elim (Bool-cases (below (key r.row_number))) [
        | inl e ↦ rw e (omega (arith, i))
        | inr e ↦ rw e (omega arith)
      ]

  pub total-skip_all-le :
      (below : K → Bool) (its : List (List (IteratorResult R E)))
      → total (skip_all key lt below its) ≤ total its
  total-skip_all-le below [] = omega arith
  total-skip_all-le below (rows ∷ its) =
      let i = length-skip_while below rows in
      let j = total-skip_all-le below its in omega (arith, i, j)

  -- A row that is left out makes less of the rows.
  pub total-skip_all :
      (below : K → Bool) (its : List (Cursor R E)) (ds : List R)
      → AreAt its ds
      → Any (λ d. below (key d) ≡ true) ds
      → total (skip_all key lt below (all_rows its)) < total (all_rows its)
  total-skip_all below [] [] at any = absurd any
  total-skip_all below [] (d ∷ ds) at any = absurd at
  total-skip_all below (c ∷ its) [] at any = absurd at
  total-skip_all below (c ∷ its) (d ∷ ds) at (inl e) =
      let (r, f, g) = at.0 in
      let i = own r c.peeked f g e in
      let j = total-skip_all-le below (all_rows its) in omega (arith, i, j)
    where
      own :
          (r : IteratorResult R E) (p : Option (IteratorResult R E))
          → p ≡ some r
          → r.row_number ≡ d
          → below (key d) ≡ true
          → length (skip_while key lt below (rows_at p c.ahead)) < length (rows_at p c.ahead)
      own r none f g e = absurd (ground arith)
      own r (some q) f g e =
          let here : below (key q.row_number) ≡ true =
            ap (λ x. below (key x.row_number)) (some_same f) ∙ ap (λ x. below (key x)) g ∙ e in
          let i = length-skip_while below c.ahead in rw here (omega (arith, i))
  total-skip_all below (c ∷ its) (d ∷ ds) at (inr any) =
      let i = length-skip_while below (rows_of c) in
      let j = total-skip_all below its ds at.1 any in omega (arith, i, j)
