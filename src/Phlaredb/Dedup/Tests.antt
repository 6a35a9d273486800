-- ===== src/Phlaredb/Dedup/Tests.antt =====
-- Runs of a deduplicating slice at concrete functions and limits.
use phlare.Base.{ℕ, ◌≡◌, refl, true, false, List, [], ◌∷◌, arith, All}
use phlare.Base.Outcome.{Outcome, ok, panicked}
use phlare.Phlaredb.Dedup.{DeduplicatingSlice, known_pass, add_pass, numbered, ingest}
use phlare.Phlaredb.Dedup.Indexed.{IsIndexed, Extends, IsRewritten}
use phlare.Phlaredb.Dedup.Passes.{ingest-rewrites}
use phlare.Base.{ltb, if◌then◌else◌}
use phlare.Base.Int.{pos}
use phlare.Phlaredb.Dedup.Flush.{ParquetConfig, max_rows_per_row_group, Flushed, done, flush}
use phlare.Phlaredb.Dedup.Flush.Rows.{Flushes, flush-writes}
use phlare.Phlaredb.Rewriter.{Rewriter}
use phlare.Phlaredb.Tables.{Function, FunctionsKey, functions_helper, mappings_key}
use phlare.Phlaredb.Tables.Lawful.{functions_helper-IsLawful}

abbrev main : ℕ → Function
main id = record { id = id; name = 1; system_name = 1; filename = 2; start_line = 10 }

abbrev other : ℕ → Function
other id = record { id = id; name = 3; system_name = 3; filename = 2; start_line = 20 }

abbrev functions : DeduplicatingSlice Function FunctionsKey
functions = record { slice = []; size = 0; lookup = []; rows_flushed = 0 }

functions-IsIndexed : IsIndexed (functions_helper 80) (functions_helper-IsLawful 80) functions
functions-IsIndexed = record {
  stored = λ k p e. absurd (ground (arith, e));
  found = λ p m e. absurd (ground (arith, e));
}

-- three functions, of which the first and the last have one key
abbrev elems : List Function
elems = main 7 ∷ other 8 ∷ main 9 ∷ []

ingest-rewrites_example :
    (let (map, missing) =
        known_pass (functions_helper 80) [] (numbered (functions_helper 80) 0 elems) [] in
      let after = add_pass (functions_helper 80) functions map missing in
      IsIndexed (functions_helper 80) (functions_helper-IsLawful 80) after.0
      × Extends (functions_helper 80) (functions_helper-IsLawful 80) functions after.0
      × All
          (IsRewritten (functions_helper 80) (functions_helper-IsLawful 80) after.0 after.1)
          (numbered (functions_helper 80) 0 elems))
ingest-rewrites_example =
    ingest-rewrites (functions_helper 80) (functions_helper-IsLawful 80) functions functions elems
      functions-IsIndexed functions-IsIndexed (λ p m e. e)
      (
        (λ e. absurd (omega arith), (λ e. absurd (omega arith), tt)),
        ((λ e. absurd (omega arith), tt), (tt, tt)),
      )

abbrev after_functions : Outcome (DeduplicatingSlice Function FunctionsKey × Rewriter)
after_functions = ingest (functions_helper 80) true functions elems (record {
  strings = 0 ∷ 1 ∷ 2 ∷ 3 ∷ [];
  functions = [];
  mappings = [];
  locations = [];
  stacktraces = [];
})

-- the code itself, run: two functions are stored, with their positions as identifiers
abbrev stored_of : Outcome (DeduplicatingSlice Function FunctionsKey × Rewriter) → List Function
stored_of (ok r) = r.0.slice
stored_of _ = []

stored_run : stored_of after_functions ≡ main 0 ∷ other 1 ∷ []
unfolding ingest
stored_run = refl

-- Mappings that differ only in whether they have line numbers have one key.
one_key :
    mappings_key (record {
      id = 1;
      memory_start = 0;
      memory_limit = 8;
      file_offset = 0;
      filename = 1;
      build_id = 1;
      has_functions = true;
      has_filenames = true;
      has_line_numbers = true;
      has_inline_frames = true;
    })
    ≡ mappings_key (record {
      id = 1;
      memory_start = 0;
      memory_limit = 8;
      file_offset = 0;
      filename = 1;
      build_id = 1;
      has_functions = true;
      has_filenames = true;
      has_line_numbers = false;
      has_inline_frames = true;
    })
one_key = refl

abbrev two_functions : DeduplicatingSlice Function FunctionsKey
two_functions = record { slice = main 0 ∷ other 1 ∷ []; size = 160; lookup = []; rows_flushed = 0 }

abbrev one_row : ParquetConfig
one_row = record { max_buffer_row_count = 4; max_row_group_bytes = 100 }

-- a buffer that sorts by descending start line
abbrev lower : Function → List Function → List Function
lower f [] = f ∷ []
lower f (g ∷ rows) = if ltb f.start_line g.start_line then g ∷ lower f rows else f ∷ g ∷ rows

abbrev by_line : List Function → List Function
by_line [] = []
by_line (f ∷ rows) = lower f (by_line rows)

flush-writes_example :
    (max_rows : ℕ) × (r : Flushed Function) × (max_rows_per_row_group one_row 2 160
      ≡ ok (pos max_rows))
    × (flush by_line (λ rows. true) one_row two_functions ≡ ok r)
    × Flushes by_line one_row max_rows two_functions.slice 0 [] r
flush-writes_example =
    flush-writes by_line (λ rows. true) one_row two_functions (omega arith) (omega arith)
      (omega arith) (omega arith)

flush_run :
    flush by_line (λ rows. true) one_row two_functions
    ≡ ok (record {
      rows_flushed = 2;
      groups = (main 0 ∷ []) ∷ (other 1 ∷ []) ∷ [];
      ended = done 2 2;
    })
unfolding flush
flush_run = refl

-- A row group is written in the order of the buffer, not of the slice.
sorted_run :
    flush by_line
      (λ rows. true)
      (record { max_buffer_row_count = 4; max_row_group_bytes = 200 })
      two_functions
    ≡ ok (record { rows_flushed = 2; groups = (other 1 ∷ main 0 ∷ []) ∷ []; ended = done 2 1 })
unfolding flush
sorted_run = refl

-- A slice of empty strings takes no bytes, and the division by the bytes of a row panics.
no_bytes : max_rows_per_row_group one_row 1 0 ≡ panicked
no_bytes = refl
