-- ===== src/Phlaredb/Tables.antt =====
-- The helpers of the head's tables: pkg/phlaredb/strings.go, functions.go, mappings.go, locations.go
-- and stacktraces.go. Sizes of Go structs and the hash are parameters.
pub mod Lawful
use phlare.Base.{
  ℕ, zero, suc, ◌+◌, ◌*◌, ◌/◌, ◌%◌, Bool, true, false, not, ◌&&◌, List, [], ◌∷◌, ◌++◌, ◌==◌,
  if◌then◌else◌, length,
}
use phlare.Base.Order.{Bytes}
use phlare.Base.Map.{eq_bytes}
use phlare.Base.Outcome.{Outcome, ok, failed, panicked, ◌>>=◌}
use phlare.Phlaredb.Dedup.{Helper}
use phlare.Phlaredb.Rewriter.{Rewriter, rewrite_string, rewrite_id, rewrite_ids, conversion_table}

-- `stringsHelper`
abbrev pub strings_helper : Helper Bytes Bytes Rewriter
strings_helper = record {
  key = λ s. s;
  add_to_rewriter = λ r m. record {
    strings = conversion_table m;
    functions = r.functions;
    mappings = r.mappings;
    locations = r.locations;
    stacktraces = r.stacktraces;
  };
  rewrite = λ r s. ok s;
  set_id = λ old_id new_id s. (s, old_id);
  size = length;
  clone = λ s. s;
  eq_key = eq_bytes;
}

pub record Function : Type 0 where
  pub id : ℕ
  pub name : ℕ
  pub system_name : ℕ
  pub filename : ℕ
  pub start_line : ℕ

-- `functionsKey`
abbrev pub FunctionsKey : Type 0
FunctionsKey = ℕ × ℕ × ℕ × ℕ

abbrev pub eq_functions_key : FunctionsKey → FunctionsKey → Bool
eq_functions_key (a, b, c, d) (a', b', c', d') = a == a' && (b == b' && (c == c' && d == d'))

abbrev pub functions_key : Function → FunctionsKey
functions_key f = (f.name, f.system_name, f.filename, f.start_line)

-- the method `rewrite` of `functionsHelper`
abbrev pub rewrite_function : Rewriter → Function → Outcome Function
rewrite_function r f = do
  filename ← rewrite_string r.strings f.filename
  name ← rewrite_string r.strings f.name
  system_name ← rewrite_string r.strings f.system_name
  ok (record {
    id = f.id;
    name = name;
    system_name = system_name;
    filename = filename;
    start_line = f.start_line;
  })

-- `functionsHelper`, at the size of the struct
abbrev pub functions_helper : ℕ → Helper Function FunctionsKey Rewriter
functions_helper function_size = record {
  key = functions_key;
  add_to_rewriter = λ r m. record {
    strings = r.strings;
    functions = m;
    mappings = r.mappings;
    locations = r.locations;
    stacktraces = r.stacktraces;
  };
  rewrite = rewrite_function;
  set_id = λ pos new_id f. (
    record {
      id = new_id;
      name = f.name;
      system_name = f.system_name;
      filename = f.filename;
      start_line = f.start_line;
    },
    f.id,
  );
  size = λ f. function_size;
  clone = λ f. f;
  eq_key = eq_functions_key;
}

pub record Mapping : Type 0 where
  pub id : ℕ
  pub memory_start : ℕ
  pub memory_limit : ℕ
  pub file_offset : ℕ
  pub filename : ℕ
  pub build_id : ℕ
  pub has_functions : Bool
  pub has_filenames : Bool
  pub has_line_numbers : Bool
  pub has_inline_frames : Bool

-- `mappingsKey`: its numbers, and its four flags
abbrev pub MappingsKey : Type 0
MappingsKey = (ℕ × ℕ × ℕ × ℕ × ℕ) × (Bool × Bool × Bool × Bool)

abbrev pub eq_bool : Bool → Bool → Bool
eq_bool true b = b
eq_bool false b = not b

abbrev pub eq_mappings_key : MappingsKey → MappingsKey → Bool
eq_mappings_key ((a, b, c, d, e), (p, q, r, s)) ((a', b', c', d', e'), (p', q', r', s')) =
    (a == a' && (b == b' && (c == c' && (d == d' && e == e'))))
    && (eq_bool p p' && (eq_bool q q' && (eq_bool r r' && eq_bool s s')))

-- The third flag of the key is that of the functions, as the first.
abbrev pub mappings_key : Mapping → MappingsKey
mappings_key m = (
  (m.memory_start, m.memory_limit, m.file_offset, m.filename, m.build_id),
  (m.has_functions, m.has_filenames, m.has_functions, m.has_inline_frames),
)

-- a mapping with another identifier, name and build
abbrev pub with_strings : Mapping → ℕ → ℕ → ℕ → Mapping
with_strings m id filename build_id = record {
  id = id;
  memory_start = m.memory_start;
  memory_limit = m.memory_limit;
  file_offset = m.file_offset;
  filename = filename;
  build_id = build_id;
  has_functions = m.has_functions;
  has_filenames = m.has_filenames;
  has_line_numbers = m.has_line_numbers;
  has_inline_frames = m.has_inline_frames;
}

abbrev pub rewrite_mapping : Rewriter → Mapping → Outcome Mapping
rewrite_mapping r m = do
  filename ← rewrite_string r.strings m.filename
  build_id ← rewrite_string r.strings m.build_id
  ok (with_strings m m.id filename build_id)

-- `mappingsHelper`
abbrev pub mappings_helper : ℕ → Helper Mapping MappingsKey Rewriter
mappings_helper mapping_size = record {
  key = mappings_key;
  add_to_rewriter = λ r m. record {
    strings = r.strings;
    functions = r.functions;
    mappings = m;
    locations = r.locations;
    stacktraces = r.stacktraces;
  };
  rewrite = rewrite_mapping;
  set_id = λ pos new_id m. (with_strings m new_id m.filename m.build_id, m.id);
  size = λ m. mapping_size;
  clone = λ m. m;
  eq_key = eq_mappings_key;
}

pub record Line : Type 0 where
  pub function_id : ℕ
  pub line : ℕ

pub record Location : Type 0 where
  pub id : ℕ
  pub mapping_id : ℕ
  pub address : ℕ
  pub lines : List Line

-- `binary.LittleEndian.PutUint64`, the lowest `n` bytes
abbrev pub little_endian : ℕ → ℕ → Bytes
little_endian zero v = []
little_endian (suc n) v = v % 256 ∷ little_endian n (v / 256)

-- what is written to the hash for the lines of a location, and for identifiers
abbrev pub lines_bytes : List Line → Bytes
lines_bytes [] = []
lines_bytes (l ∷ lines) =
    little_endian 8 l.function_id ++ (little_endian 8 l.line ++ lines_bytes lines)

abbrev pub ids_bytes : List ℕ → Bytes
ids_bytes [] = []
ids_bytes (x ∷ xs) = little_endian 8 x ++ ids_bytes xs

abbrev pub LocationsKey : Type 0
LocationsKey = ℕ × ℕ × ℕ

abbrev pub eq_locations_key : LocationsKey → LocationsKey → Bool
eq_locations_key (a, b, c) (a', b', c') = a == a' && (b == b' && c == c')

abbrev pub rewrite_lines : Rewriter → List Line → Outcome (List Line)
rewrite_lines r [] = ok []
rewrite_lines r (l ∷ lines) = do
  function_id ← rewrite_id r.functions l.function_id
  lines' ← rewrite_lines r lines
  ok (record { function_id = function_id; line = l.line } ∷ lines')

abbrev pub rewrite_location : Rewriter → Location → Outcome Location
rewrite_location r l = do
  mapping_id ← if l.mapping_id == 0 then ok l.mapping_id else rewrite_id r.mappings l.mapping_id
  lines ← rewrite_lines r l.lines
  ok (record { id = l.id; mapping_id = mapping_id; address = l.address; lines = lines })

-- `sum64` is the digest of what was written to `xxhash`.
module _ (sum64 : Bytes → ℕ) where
  -- `locationsHelper`, at the sizes of the structs
  abbrev pub locations_helper : ℕ → ℕ → Helper Location LocationsKey Rewriter
  locations_helper location_size line_size = record {
    key = λ l. (l.address, l.mapping_id, sum64 (lines_bytes l.lines));
    add_to_rewriter = λ r m. record {
      strings = r.strings;
      functions = r.functions;
      mappings = r.mappings;
      locations = m;
      stacktraces = r.stacktraces;
    };
    rewrite = rewrite_location;
    set_id = λ pos new_id l. (
      record { id = new_id; mapping_id = l.mapping_id; address = l.address; lines = l.lines },
      l.id,
    );
    size = λ l. length l.lines * line_size + location_size;
    clone = λ l. l;
    eq_key = eq_locations_key;
  }

  -- `stacktracesHelper`, over the identifiers of locations
  abbrev pub stacktraces_helper : ℕ → Helper (List ℕ) ℕ Rewriter
  stacktraces_helper stacktrace_size = record {
    key = λ s. sum64 (ids_bytes s);
    add_to_rewriter = λ r m. record {
      strings = r.strings;
      functions = r.functions;
      mappings = r.mappings;
      locations = r.locations;
      stacktraces = m;
    };
    rewrite = λ r s. rewrite_ids r.locations s;
    set_id = λ old_id new_id s. (s, old_id);
    size = λ s. stacktrace_size + length s * 8;
    clone = λ s. s;
    eq_key = ◌==◌;
  }
