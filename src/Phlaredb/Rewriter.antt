-- ===== src/Phlaredb/Rewriter.antt =====
-- pkg/phlaredb/head.go and strings.go: the tables by which the references within a profile become
-- references within the head. A reference is an int64 or uint64 that is not negative; one that a table
-- lacks panics.
use phlare.Base.{
  ℕ, zero, suc, Option, none, some, List, [], ◌∷◌, ltb, if◌then◌else◌, get_elem?, set,
}
use phlare.Base.Outcome.{Outcome, ok, panicked, ◌>>=◌}
use phlare.Phlaredb.Dedup.{find_id}

pub record Rewriter : Type 0 where
  pub strings : List ℕ
  pub functions : List (ℕ × ℕ)
  pub mappings : List (ℕ × ℕ)
  pub locations : List (ℕ × ℕ)
  pub stacktraces : List (ℕ × ℕ)

abbrev pub or_panic : Option ℕ → Outcome ℕ
or_panic none = panicked
or_panic (some v) = ok v

-- `rewrite` of a `stringConversionTable`
abbrev pub rewrite_string : List ℕ → ℕ → Outcome ℕ
rewrite_string t idx = or_panic (get_elem? t idx)

-- `rewrite` and `rewriteUint64` of an `idConversionTable`
abbrev pub rewrite_id : List (ℕ × ℕ) → ℕ → Outcome ℕ
rewrite_id t idx = or_panic (find_id idx t)

abbrev pub rewrite_ids : List (ℕ × ℕ) → List ℕ → Outcome (List ℕ)
rewrite_ids t [] = ok []
rewrite_ids t (x ∷ xs) = do x' ← rewrite_id t x; xs' ← rewrite_ids t xs; ok (x' ∷ xs')

-- the loop for `maxID`
abbrev pub max_id : List (ℕ × ℕ) → ℕ → ℕ
max_id [] max = max
max_id ((id, p) ∷ m) max = max_id m (if ltb max id then id else max)

abbrev pub zeros : ℕ → List ℕ
zeros zero = []
zeros (suc n) = 0 ∷ zeros n

-- `for x, y := range m { r.strings[x] = y }`, where later writes to the map stand in front
abbrev pub fill_table : List ℕ → List (ℕ × ℕ) → List ℕ
fill_table t [] = t
fill_table t ((x, y) ∷ m) = set (fill_table t m) x y

-- the table of `stringsHelper.addToRewriter`
unfoldable pub conversion_table : List (ℕ × ℕ) → List ℕ
conversion_table m = fill_table (zeros (suc (max_id m 0))) m
