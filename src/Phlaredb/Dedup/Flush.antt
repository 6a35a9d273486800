-- ===== src/Phlaredb/Dedup/Flush.antt =====
-- `Flush` of pkg/phlaredb/deduplicating_slice.go: the rows that are not yet flushed go out in row
-- groups. A group is the elements of its rows, which `Deconstruct` turns into rows. `sort` is the
-- sort of the parquet buffer, by the sorting columns of the table, and `write` the writer, which tells
-- whether a row group is accepted.
pub mod Rows
use phlare.Base.{
  ℕ, zero, suc, ◌+◌, ◌-◌, ◌*◌, ◌/◌, ◌≤◌, ◌<◌, ◌≡◌, refl, sym, ap, ◌∙◌, Bool, true, false, Option,
  none, some, List, [], ◌∷◌, ◌++◌, inl, inr, arith, ltb, ◌==◌, if◌then◌else◌, length, take, drop,
  length-drop, All, Bool-cases,
}
use phlare.Base.Int.{ℤ, pos, negsuc, pos_part, ltb_ℤ, to_int64}
use phlare.Base.Outcome.{Outcome, ok, failed, panicked, ◌>>=◌}
use phlare.Phlaredb.Dedup.{DeduplicatingSlice}

-- `ParquetConfig`, the limits of a row group
pub record ParquetConfig : Type 0 where
  pub max_buffer_row_count : ℕ
  pub max_row_group_bytes : ℕ

-- `maxRowsPerRowGroup`, of a slice of that length and size; a division by zero panics, and the result
-- is converted to an int.
abbrev pub max_rows_per_row_group : ParquetConfig → ℕ → ℕ → Outcome ℤ
max_rows_per_row_group cfg zero size = ok (pos 1)
max_rows_per_row_group cfg (suc n) size =
    let bytes_per_row = size / suc n in
    if bytes_per_row == 0
    then panicked
    else let max_rows = cfg.max_row_group_bytes / bytes_per_row in
      ok (if max_rows == 0 then pos 1 else to_int64 max_rows)

-- "cap max row size by bytes" and "by buffer"
abbrev pub rows_to_flush : ParquetConfig → ℤ → ℕ → ℤ
rows_to_flush cfg max_rows left =
    let capped = if ltb_ℤ max_rows (pos left) then max_rows else pos left in
    if ltb_ℤ (pos cfg.max_buffer_row_count) capped then pos cfg.max_buffer_row_count else capped

-- how a flush ends: with the counts of rows and groups, with an error, with a panic, or without end
pub data Ended : Type 0 where
  done : ℕ → ℕ → Ended
  refused : Ended
  crashed : Ended
  endless : Ended

-- what a flush leaves: how many rows are flushed, the row groups that went out, and its end
pub record Flushed (M : Type 0) : Type 0 where
  pub rows_flushed : ℕ
  pub groups : List (List M)
  pub ended : Ended

module _ {M : Type 0} (sort : List M → List M) (write : List M → Bool) (cfg : ParquetConfig)
    (max_rows : ℤ) where
  -- the rows of a round, as the buffer sorts them
  abbrev pub sorted_rows : List M → ℕ → ℕ → List M
  sorted_rows slice flushed n = sort (take n (drop flushed slice))

  -- a round in which a number of rows go out, and the rounds after it; less than none is a panic
  abbrev pub flush_round : List M → ℕ → List (List M) → ℤ → Flushed M → Flushed M
  flush_round slice flushed groups (negsuc n) onward = record {
    rows_flushed = flushed;
    groups = groups;
    ended = crashed;
  }
  flush_round slice flushed groups (pos n) onward =
      if write (sorted_rows slice flushed n)
      then onward
      else record { rows_flushed = flushed; groups = groups; ended = refused }

  -- the loop, on fuel
  pub flush_loop : ℕ → List M → ℕ → List (List M) → ℕ → ℕ → Flushed M
  flush_loop zero slice flushed groups rows count = record {
    rows_flushed = flushed;
    groups = groups;
    ended = endless;
  }
  flush_loop (suc fuel) slice flushed groups rows count =
      let left = length slice - flushed in
      let to_flush = rows_to_flush cfg max_rows left in
      let n = pos_part to_flush in
      let onward =
        flush_loop fuel slice (flushed + n) (groups ++ sorted_rows slice flushed n ∷ []) (rows + n)
          (suc count) in
      if left == 0
      then record { rows_flushed = flushed; groups = groups; ended = done rows count }
      else flush_round slice flushed groups to_flush onward

-- `Flush`, on as much fuel as there are rows and one more
unfoldable pub flush :
    {M K : Type 0}
    → (List M → List M)
    → (List M → Bool)
    → ParquetConfig
    → DeduplicatingSlice M K
    → Outcome (Flushed M)
unfolding flush_loop
flush sort write cfg s = do
  max_rows ← max_rows_per_row_group cfg (length s.slice) s.size
  ok (flush_loop sort write cfg max_rows (suc (length s.slice)) s.slice s.rows_flushed [] 0 0)
