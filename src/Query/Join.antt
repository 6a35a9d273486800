-- ===== src/Query/Join.antt =====
-- `JoinIterator` of pkg/phlaredb/query/iters.go, over any comparison of row numbers at its definition
-- level. An iterator is what was peeked at and the results that it still gives; `Seek` skips those that
-- are below its argument.
pub mod Skip
pub mod Cursors
pub mod Scan
pub mod Rows
pub mod Round
pub mod Over
pub mod Ahead
pub mod Loop
pub mod Next
pub mod RowNumbers
pub mod Tests
use Prim.Native.Nat.{Ordering}
use phlare.Base.{
  ℕ, zero, suc, ◌+◌, Bool, true, false, Option, none, some, List, [], ◌∷◌, ◌++◌, if◌then◌else◌,
  ◌==◌, length,
}

pub record IteratorResult (R E : Type 0) : Type 0 where
  pub row_number : R
  pub entries : List E

-- `peeks[i]`, and what `iters[i]` still gives
pub record Cursor (R E : Type 0) : Type 0 where
  pub peeked : Option (IteratorResult R E)
  pub ahead : List (IteratorResult R E)

-- the variables of a pass over the iterators
pub record Pass (R : Type 0) : Type 0 where
  pub lowest_row_number : R
  pub highest_row_number : R
  pub lowest_iters : List ℕ

abbrev pub is_lt : Ordering → Bool
is_lt Ordering.lt = true
is_lt Ordering.eq = false
is_lt Ordering.gt = false

abbrev pub is_eq : Ordering → Bool
is_eq Ordering.lt = false
is_eq Ordering.eq = true
is_eq Ordering.gt = false

abbrev pub is_gt : Ordering → Bool
is_gt Ordering.lt = false
is_gt Ordering.eq = false
is_gt Ordering.gt = true

module _ {R : Type 0} (compare : R → R → Ordering) where
  -- the switch on the comparison with the lowest row number
  abbrev pub lowest_after : Ordering → ℕ → R → Pass R → Pass R
  lowest_after Ordering.lt iter_num row pass = record {
    lowest_row_number = row;
    highest_row_number = pass.highest_row_number;
    lowest_iters = iter_num ∷ [];
  }
  lowest_after Ordering.eq iter_num row pass = record {
    lowest_row_number = pass.lowest_row_number;
    highest_row_number = pass.highest_row_number;
    lowest_iters = pass.lowest_iters ++ iter_num ∷ [];
  }
  lowest_after Ordering.gt iter_num row pass = pass

  abbrev pub highest_after : R → Pass R → Pass R
  highest_after row pass = record {
    lowest_row_number = pass.lowest_row_number;
    highest_row_number =
        if is_gt (compare row pass.highest_row_number) then row else pass.highest_row_number;
    lowest_iters = pass.lowest_iters;
  }

  abbrev pub pass_over : ℕ → R → Pass R → Pass R
  pass_over iter_num row pass =
      highest_after row (lowest_after (compare row pass.lowest_row_number) iter_num row pass)

module _ {R E : Type 0} where
  -- an iterator after a `Next`, or one that says it has none
  abbrev pub advance : List (IteratorResult R E) → Cursor R E
  advance [] = record { peeked = none; ahead = [] }
  advance (r ∷ rs) = record { peeked = some r; ahead = rs }

  abbrev pub peek_at : Option (IteratorResult R E) → List (IteratorResult R E) → Cursor R E
  peek_at none ahead = advance ahead
  peek_at (some r) ahead = record { peeked = some r; ahead = ahead }

  -- `peek`
  abbrev pub peek : Cursor R E → Cursor R E
  peek c = peek_at c.peeked c.ahead

  module _ (compare : R → R → Ordering) where
    abbrev pub scan_at :
        ℕ
        → Cursor R E
        → Option (IteratorResult R E)
        → List (Cursor R E)
        → (Pass R → List (Cursor R E) × Option (Pass R))
        → Pass R
        → List (Cursor R E) × Option (Pass R)
    scan_at iter_num c none iters onward pass = (c ∷ iters, none)
    scan_at iter_num c (some res) iters onward pass =
        let (iters', pass') = onward (pass_over compare iter_num res.row_number pass) in
        (c ∷ iters', pass')

    -- the pass over the iterators, up to one that is exhausted
    pub scan : ℕ → List (Cursor R E) → Pass R → List (Cursor R E) × Option (Pass R)
    scan iter_num [] pass = ([], some pass)
    scan iter_num (c ∷ iters) pass =
        scan_at iter_num (peek c) (peek c).peeked iters (scan (suc iter_num) iters) pass

    -- the inner loop of `collect`, over what is peeked at and what is ahead
    abbrev pub collect_loop :
        R → Option (IteratorResult R E) → List (IteratorResult R E) → List E × Cursor R E
    collect_loop row none ahead = ([], record { peeked = none; ahead = ahead })
    collect_loop row (some r) [] =
        if is_eq (compare r.row_number row)
        then (r.entries, record { peeked = none; ahead = [] })
        else ([], record { peeked = some r; ahead = [] })
    collect_loop row (some r) (q ∷ ahead) =
        let (entries, c) = collect_loop row (some q) ahead in
        if is_eq (compare r.row_number row)
        then (r.entries ++ entries, c)
        else ([], record { peeked = some r; ahead = q ∷ ahead })

    -- `collect`
    abbrev pub collect : R → List (Cursor R E) → List E × List (Cursor R E)
    collect row [] = ([], [])
    collect row (c ∷ iters) =
        let (entries, c') = collect_loop row c.peeked c.ahead in
        let (entries', iters') = collect row iters in (entries ++ entries', c' ∷ iters')

    -- `Seek` of an iterator
    abbrev pub skip_below : R → List (IteratorResult R E) → List (IteratorResult R E)
    skip_below to [] = []
    skip_below to (r ∷ rs) =
        let rest = skip_below to rs in if is_lt (compare r.row_number to) then rest else r ∷ rs

    abbrev pub seek_at : R → Option (IteratorResult R E) → List (IteratorResult R E) → Cursor R E
    seek_at to none ahead = advance (skip_below to ahead)
    seek_at to (some r) ahead =
        if is_lt (compare r.row_number to)
        then advance (skip_below to ahead)
        else record { peeked = some r; ahead = ahead }

    module _ (truncate : R → R) where
      -- `seekAll`
      abbrev pub seek_all : R → List (Cursor R E) → List (Cursor R E)
      seek_all to [] = []
      seek_all to (c ∷ iters) = seek_at (truncate to) c.peeked c.ahead ∷ seek_all to iters

      module _ (max empty : R) (keep_group : IteratorResult R E → Bool) where
        -- the rest of a round of `Next`, after the pass
        abbrev pub join_round :
            (List (Cursor R E) → Option (Option (IteratorResult R E) × List (Cursor R E)))
            → List (Cursor R E) × Option (Pass R)
            → Option (Option (IteratorResult R E) × List (Cursor R E))
        join_round onward (iters, none) = some (none, iters)
        join_round onward (iters, some pass) =
            let (entries, iters') = collect pass.lowest_row_number iters in
            let result : IteratorResult R E = record {
              row_number = pass.lowest_row_number;
              entries = entries;
            } in
            let skipped = onward (seek_all pass.highest_row_number iters) in
            let rejected = onward (seek_all pass.highest_row_number iters') in
            if length pass.lowest_iters == length iters
            then if keep_group result then some (some result, iters') else rejected
            else skipped

        abbrev pub first_pass : Pass R
        first_pass = record {
          lowest_row_number = max;
          highest_row_number = empty;
          lowest_iters = [];
        }

        -- the loop of `Next`, on fuel: the result, or none at the end, and the iterators
        pub join_loop :
            ℕ → List (Cursor R E) → Option (Option (IteratorResult R E) × List (Cursor R E))
        join_loop zero iters = none
        join_loop (suc fuel) iters = join_round (join_loop fuel) (scan 0 iters first_pass)

        -- `Seek` of a join
        abbrev pub join_seek :
            ℕ → R → List (Cursor R E) → Option (Option (IteratorResult R E) × List (Cursor R E))
        join_seek fuel to iters = join_loop fuel (seek_all to iters)
