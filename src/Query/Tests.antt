-- ===== src/Query/Tests.antt =====
-- Runs of the row number operations on concrete row numbers.
use Prim.Native.Nat.{Ordering}
use phlare.Base.{◌≡◌, ◌↔◌, refl, some, [], ◌∷◌, arith, length, get_elem?}
use phlare.Base.Int.{pos, negsuc, ◌+ℤ◌}
use phlare.Query.RowNumber.{RowNumber, compare_row_numbers, next, store, fill, levels}
use phlare.Query.RowNumber.Order.{Relates}
use phlare.Query.RowNumber.Compare.{compare_row_numbers_iff}
use phlare.Query.RowNumber.Step.{next-after}

abbrev first : RowNumber
first = pos 4 ∷ pos 0 ∷ negsuc 0 ∷ negsuc 0 ∷ negsuc 0 ∷ negsuc 0 ∷ []

abbrev second : RowNumber
second = pos 4 ∷ pos 1 ∷ pos 0 ∷ negsuc 0 ∷ negsuc 0 ∷ negsuc 0 ∷ []

abbrev third : RowNumber
third = pos 5 ∷ negsuc 0 ∷ negsuc 0 ∷ negsuc 0 ∷ negsuc 0 ∷ negsuc 0 ∷ []

compare_row_numbers_iff_example :
    (compare_row_numbers 2 first second ≡ some Ordering.lt) ↔ Relates Ordering.lt 3 0 first second
compare_row_numbers_iff_example =
    compare_row_numbers_iff 2 first second (omega arith) refl refl Ordering.lt

first-second : compare_row_numbers 2 first second ≡ some Ordering.lt
unfolding compare_row_numbers
first-second = refl

second-third : compare_row_numbers 2 second third ≡ some Ordering.lt
unfolding compare_row_numbers
second-third = refl

next-after_example :
    (t : RowNumber) × (next first 1 2 ≡ some t)
    × (length t ≡ levels)
    × (get_elem? t 1 ≡ some (pos 1))
    × (compare_row_numbers 3 first t ≡ some Ordering.lt)
unfolding ◌+ℤ◌
next-after_example =
    next-after first 1 2 3 1 (pos 0) refl (omega arith) (omega arith) (omega arith) (omega arith)
      refl (omega arith)

-- the code itself, run
next_run : next first 1 2 ≡ some second
unfolding next store fill ◌+ℤ◌
next_run = refl
