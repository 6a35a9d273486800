-- ===== src/Query/Join/RowNumbers.antt =====
-- The join over the row numbers of the parquet query, by `CompareRowNumbers` at its definition level.
use Prim.Native.Nat.{Ordering}
use mathlib.Core.Path.{subst}
use phlare.Base.{
  ℕ, zero, suc, ◌≤◌, ◌<◌, ◌≡◌, refl, sym, ap, ◌∙◌, Bool, true, false, Option, none, some, List, [],
  ◌∷◌, if◌then◌else◌, All, arith, length, take, get_elem?,
}
use phlare.Base.Int.{ℤ, ltb_ℤ}
use phlare.Base.Lex.{ltb_list, ltb_list-IsOrder, ltb_ℤ-IsOrder}
use native.Mathlib.Decide.{ℕ_discrete}
use phlare.Query.RowNumber.Compare.{truncate_row_number_lem}
use phlare.Query.RowNumber.{
  truncate_row_number, RowNumber, levels, compare_at, compare_loop, compare_row_numbers,
  empty_row_number, max_row_number, ◌>>=◌,
}
use phlare.Query.Join.{Cursor, seek_all, join_loop, join_seek}
use phlare.Query.Join.Skip.{RowOrder, order_of, AreRows}
use phlare.Query.Join.Rows.{total, IsNext, skip_all}
use phlare.Query.Join.Round.{length-all_rows, all_rows, rows-seek_all}
use phlare.Query.Join.Ahead.{still_some, skip-AreRows}
use phlare.Query.Join.Next.{join_loop-IsNext}

-- the array of six numbers: a list with its length
pub record Row : Type 0 where
  pub numbers : RowNumber
  pub six : length numbers ≡ levels

abbrev pub or_same : Option Ordering → Ordering
or_same none = Ordering.eq
or_same (some c) = c

abbrev or_rest : Ordering → Option Ordering → Option Ordering
or_rest c rest = elim c [ Ordering.eq ↦ rest | other ↦ some other ]

-- the comparison, which returns at a level below six
abbrev pub compare_rows : ℕ → Row → Row → Ordering
compare_rows d a b = or_same (compare_row_numbers d a.numbers b.numbers)

-- what it reads of a row number
abbrev pub key_at : ℕ → Row → List ℤ
key_at d a = take (suc d) a.numbers

abbrev as_row : Row → (t : RowNumber) → Dec (length t ≡ levels) → Row
as_row r t (yes e) = record { numbers = t; six = e }
as_row r t (no e) = r

abbrev truncated : Row → Option RowNumber → Row
truncated r none = r
truncated r (some t) = as_row r t (ℕ_discrete (length t) levels)

-- the truncation, which returns six numbers at a level below six
abbrev pub truncate_rows : ℕ → Row → Row
truncate_rows d r =
    truncated r (truncate_row_number (record { row_number = r.numbers; definition_level = d }))

compare_loop-behind :
    (n i : ℕ) (x y : ℤ) (a b : RowNumber)
    → compare_loop n (suc i) (x ∷ a) (y ∷ b) ≡ compare_loop n i a b
unfolding compare_loop
compare_loop-behind zero i x y a b = refl
compare_loop-behind (suc n) i x y a b =
    ap (λ rest. get_elem? a i >>= λ v. get_elem? b i >>= λ w. or_rest (compare_at v w) rest)
      (compare_loop-behind n (suc i) x y a b)

compare_loop-cons :
    (n : ℕ) (x y : ℤ) (a b : RowNumber)
    → compare_loop (suc n) 0 (x ∷ a) (y ∷ b) ≡ or_rest (compare_at x y) (compare_loop n 0 a b)
unfolding compare_loop
compare_loop-cons n x y a b = ap (or_rest (compare_at x y)) (compare_loop-behind n 0 x y a b)

compare_loop-order :
    (n : ℕ) (a b : RowNumber)
    → n ≤ length a
    → n ≤ length b
    → compare_loop n 0 a b
      ≡ some
          (order_of (ltb_list ltb_ℤ (take n a) (take n b)) (ltb_list ltb_ℤ (take n b) (take n a)))
unfolding compare_loop compare_at
compare_loop-order zero a b l m = refl
compare_loop-order (suc n) [] b l m = absurd (omega arith)
compare_loop-order (suc n) (x ∷ a) [] l m = absurd (omega arith)
compare_loop-order (suc n) (x ∷ a) (y ∷ b) l m =
    compare_loop-cons n x y a b
    ∙ ap (or_rest (compare_at x y)) (compare_loop-order n a b (omega arith) (omega arith))
    ∙ by_first (ltb_ℤ x y) (ltb_ℤ y x) _ _
  where
    by_first :
        (p q l m : Bool)
        → or_rest
            (if p then Ordering.lt else if q then Ordering.gt else Ordering.eq)
            (some (order_of l m))
          ≡ some (
              order_of
                (if p then true else if q then false else l)
                (if q then true else if p then false else m))
    by_first true q l m = refl
    by_first false true l m = refl
    by_first false false l m = refl

compare_rows_law :
    (d : ℕ)
    → d < levels
    → (a b : Row)
    → compare_rows d a b
      ≡ order_of
          (ltb_list ltb_ℤ (key_at d a) (key_at d b))
          (ltb_list ltb_ℤ (key_at d b) (key_at d a))
unfolding compare_row_numbers
compare_rows_law d l a b =
    ap or_same
      (compare_loop-order (suc d) a.numbers b.numbers (omega (arith, a.six)) (omega (arith, b.six)))

same_keys : (p q : Bool) → order_of p q ≡ Ordering.eq → (p ≡ false) × (q ≡ false)
same_keys true q e = absurd (ground arith)
same_keys false true e = absurd (ground arith)
same_keys false false e = (refl, refl)

key-truncate_rows : (d : ℕ) → d < levels → (r : Row) → key_at d (truncate_rows d r) ≡ key_at d r
key-truncate_rows d l r =
    let (t, e, c, at, n) = truncate_row_number_lem r.numbers d 0 l r.six in
    ap (λ o. key_at d (truncated r o)) e ∙ by_size t c n (ℕ_discrete (length t) levels)
  where
    by_size :
        (t : RowNumber)
        → compare_row_numbers d t r.numbers ≡ some Ordering.eq
        → length t ≡ levels
        → (size : Dec (length t ≡ levels)) → key_at d (as_row r t size) ≡ key_at d r
    by_size t c n (yes e) =
        let row : Row = record { numbers = t; six = e } in
        let (p, q) = same_keys _ _ (sym (compare_rows_law d l row r) ∙ ap or_same c) in
        (ltb_list-IsOrder ltb_ℤ ltb_ℤ-IsOrder).connected (key_at d row) (key_at d r) p q
    by_size t c n (no e) = absurd (e n)

abbrev pub max_row : Row
unfolding max_row_number
max_row = record { numbers = max_row_number; six = refl }

abbrev pub empty_row : Row
unfolding empty_row_number
empty_row = record { numbers = empty_row_number; six = refl }

abbrev row_order : (d : ℕ) → d < levels → RowOrder Row (List ℤ)
row_order d l = record {
  key = key_at d;
  lt = ltb_list ltb_ℤ;
  o = ltb_list-IsOrder ltb_ℤ ltb_ℤ-IsOrder;
  compare = compare_rows d;
  law = compare_rows_law d l;
  truncate = truncate_rows d;
  same_key = key-truncate_rows d l;
}

-- At a definition level below six, for a group predicate that looks at the entries only, over at
-- least one iterator, whose rows come in ascending order with row numbers above the empty one and
-- at most the greatest at that level, a call of `Next` of a join ends: with no result exactly where
-- no row number is in the join, else with the first one that is, the entries of all rows with it,
-- iterator by iterator, and each iterator at its first row behind it. A row number is in the join
-- if every iterator has a row with it at the level and the entries of all such rows are kept.
pub next-IsNext :
    {E : Type 0} (d : ℕ)
    → d < levels
    → (keep : List E → Bool) (iters : List (Cursor Row E)) → 1 ≤ length iters
    → All (AreRows (key_at d) (ltb_list ltb_ℤ) max_row empty_row) (all_rows iters)
    → IsNext (key_at d) (ltb_list ltb_ℤ) keep (all_rows iters) (
        join_loop
          (compare_rows d)
          (truncate_rows d)
          max_row
          empty_row
          (λ res. keep res.entries)
          (suc (total (all_rows iters)))
          iters)
next-IsNext d l keep iters n rows =
    join_loop-IsNext (row_order d l) max_row empty_row keep iters n rows

-- A call of `Seek` is a call of `Next` on the rows that are not below its argument.
seek-IsNext :
    {E : Type 0} (d : ℕ)
    → d < levels
    → (keep : List E → Bool) (to : Row) (iters : List (Cursor Row E)) → 1 ≤ length iters
    → All (AreRows (key_at d) (ltb_list ltb_ℤ) max_row empty_row) (all_rows iters)
    → IsNext
        (key_at d)
        (ltb_list ltb_ℤ)
        keep
        (skip_all
          (key_at d)
          (ltb_list ltb_ℤ)
          (λ k. ltb_list ltb_ℤ k (key_at d to))
          (all_rows iters))
        (join_seek
          (compare_rows d)
          (truncate_rows d)
          max_row
          empty_row
          (λ res. keep res.entries)
          (suc (total (all_rows (seek_all (compare_rows d) (truncate_rows d) to iters))))
          to
          iters)
seek-IsNext d l keep to iters n rows =
    let m = row_order d l in
    let below = λ (k : List ℤ). ltb_list ltb_ℤ k (key_at d to) in
    let sought = seek_all (compare_rows d) (truncate_rows d) to iters in
    let seek = rows-seek_all m to iters in
    subst
      (λ rows. IsNext (key_at d) (ltb_list ltb_ℤ) keep rows (
        join_loop (compare_rows d) (truncate_rows d) max_row empty_row (λ res. keep res.entries)
          (suc (total (all_rows sought))) sought))
      seek
      (next-IsNext d l keep sought
        (still_some m max_row empty_row keep sought below (all_rows iters) seek
          (omega (arith, length-all_rows iters, n)))
        (subst (All (AreRows (key_at d) (ltb_list ltb_ℤ) max_row empty_row)) (sym seek)
          (skip-AreRows m max_row empty_row keep below (all_rows iters) rows)))
