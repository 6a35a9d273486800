-- ===== src/Query/Join/Tests.antt =====
-- Runs of a join on concrete rows.
use native.Mathlib.Decide.{ℕ_discrete}
use phlare.Base.{ℕ, ◌≡◌, refl, Bool, true, none, some, List, [], ◌∷◌, arith, All}
use phlare.Base.Int.{pos, ltb_ℤ}
use phlare.Base.Lex.{ltb_list}
use phlare.Query.RowNumber.{
  truncate_row_number, copy_loop, store, compare_at, compare_loop, compare_row_numbers,
  empty_row_number, max_row_number,
}
use phlare.Query.Join.{IteratorResult, Cursor, scan, join_loop}
use phlare.Query.Join.Skip.{AreRows}
use phlare.Query.Join.Rows.{IsNext}
use phlare.Query.Join.Round.{all_rows}
use phlare.Query.Join.RowNumbers.{
  Row, compare_rows, truncate_rows, key_at, max_row, empty_row, next-IsNext,
}

abbrev row : ℕ → ℕ → Row
row n m = record { numbers = pos n ∷ pos m ∷ pos 0 ∷ pos 0 ∷ pos 0 ∷ pos 0 ∷ []; six = refl }

abbrev result : ℕ → ℕ → ℕ → IteratorResult Row ℕ
result n m v = record { row_number = row n m; entries = v ∷ [] }

abbrev left : Cursor Row ℕ
left = record { peeked = none; ahead = result 3 0 1 ∷ result 5 0 2 ∷ result 8 0 3 ∷ [] }

abbrev right : Cursor Row ℕ
right = record {
  peeked = some (result 4 0 6);
  ahead = result 5 0 7 ∷ result 5 1 8 ∷ result 9 0 9 ∷ [];
}

abbrev keep_all : List ℕ → Bool
keep_all entries = true

sides-AreRows :
    All (AreRows (key_at 0) (ltb_list ltb_ℤ) max_row empty_row) (all_rows (left ∷ right ∷ []))
unfolding max_row_number empty_row_number
sides-AreRows = (
  (
    ((refl, (refl, tt)), ((refl, tt), (tt, tt))),
    ((refl, refl), ((refl, refl), ((refl, refl), tt))),
  ),
  (
    (
      ((refl, (refl, (refl, tt))), ((refl, (refl, tt)), ((refl, tt), (tt, tt)))),
      ((refl, refl), ((refl, refl), ((refl, refl), ((refl, refl), tt)))),
    ),
    tt,
  ),
)

next-IsNext_example : IsNext (key_at 0) (ltb_list ltb_ℤ) keep_all (all_rows (left ∷ right ∷ [])) (
    join_loop
      (compare_rows 0)
      (truncate_rows 0)
      max_row
      empty_row
      (λ res. keep_all res.entries)
      8
      (left ∷ right ∷ []))
next-IsNext_example =
    next-IsNext 0 (omega arith) keep_all (left ∷ right ∷ []) (omega arith) sides-AreRows

-- The rows of both with the first common number, and what is left of each.
next_run :
    join_loop
      (compare_rows 0)
      (truncate_rows 0)
      max_row
      empty_row
      (λ res. keep_all res.entries)
      8
      (left ∷ right ∷ [])
    ≡ some (
      some (record { row_number = row 5 0; entries = 2 ∷ 7 ∷ 8 ∷ [] }),
      record { peeked = some (result 8 0 3); ahead = [] }
          ∷ record { peeked = some (result 9 0 9); ahead = [] }
          ∷ [],
    )
unfolding ℕ_discrete truncate_row_number copy_loop store join_loop scan compare_row_numbers
    compare_loop compare_at max_row_number empty_row_number
next_run = refl
