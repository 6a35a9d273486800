-- ===== src/Query/RowNumber.antt =====
-- `RowNumber` of pkg/phlaredb/query/iters.go. Its array of six is a list of length six. Every
-- access goes through a check of the index, and `none` is the panic of one out of range.
pub mod Access
pub mod Order
pub mod Compare
pub mod Step
use Prim.Native.Nat.{Ordering}
use phlare.Base.{
  ℕ, zero, suc, ◌+◌, ◌-◌, ◌≤◌, ◌≡◌, Bool, true, false, not, Option, none, some, List, [], ◌∷◌, ltb,
  leb, if◌then◌else◌, length, get_elem?, set,
}
use phlare.Base.Int.{ℤ, pos, negsuc, ltb_ℤ, ◌+ℤ◌, wrap64, max_int64}

abbrev pub RowNumber : Type 0
RowNumber = List ℤ

-- the six levels of nesting
abbrev pub levels : ℕ
levels = 6

pub record RowNumberWithDefinitionLevel : Type 0 where
  pub row_number : RowNumber
  pub definition_level : ℕ

abbrev pub undefined : ℤ
undefined = negsuc 0

unfoldable pub empty_row_number : RowNumber
empty_row_number = undefined ∷ undefined ∷ undefined ∷ undefined ∷ undefined ∷ undefined ∷ []

-- A literal that gives only the first element leaves the others zero.
unfoldable pub max_row_number : RowNumber
max_row_number = pos max_int64 ∷ pos 0 ∷ pos 0 ∷ pos 0 ∷ pos 0 ∷ pos 0 ∷ []

infixl 5 ◌>>=◌
abbrev pub ◌>>=◌ {ℓ κ} : {A : Type ℓ} {B : Type κ} → Option A → (A → Option B) → Option B
none >>= f = none
some a >>= f = f a

-- The result of a comparison, -1, 0 or 1; at `eq` the loop goes on.
unfoldable pub compare_at : ℤ → ℤ → Ordering
compare_at x y = if ltb_ℤ x y then Ordering.lt else if ltb_ℤ y x then Ordering.gt else Ordering.eq

-- `for i := 0; i <= upToDefinitionLevel; i++`, at `i` with `n` rounds left
unfoldable pub compare_loop : ℕ → ℕ → RowNumber → RowNumber → Option Ordering
compare_loop zero i a b = some Ordering.eq
compare_loop (suc n) i a b =
    let rest = compare_loop n (suc i) a b in
    do
      x ← get_elem? a i
      y ← get_elem? b i
      elim (compare_at x y) [ Ordering.eq ↦ rest | other ↦ some other ]

unfoldable pub compare_row_numbers : ℕ → RowNumber → RowNumber → Option Ordering
unfolding compare_loop compare_at
compare_row_numbers up_to a b = compare_loop (suc up_to) 0 a b

unfoldable pub store : RowNumber → ℕ → ℤ → Option RowNumber
store t i v = if ltb i (length t) then some (set t i v) else none

-- `for ; i <= last; i++ { t[i] = v }`, with `n` rounds left
unfoldable pub fill : ℕ → ℕ → ℤ → RowNumber → Option RowNumber
fill zero i v t = some t
fill (suc n) i v t = do t' ← store t i v; fill n (suc i) v t'

-- `for i := 0; i <= t.DefinitionLevel; i++ { n[i] = t.RowNumber[i] }`
unfoldable pub copy_loop : ℕ → ℕ → RowNumber → RowNumber → Option RowNumber
copy_loop zero i from n = some n
copy_loop (suc k) i from n = do x ← get_elem? from i; n' ← store n i x; copy_loop k (suc i) from n'

unfoldable pub truncate_row_number : RowNumberWithDefinitionLevel → Option RowNumber
unfolding copy_loop store empty_row_number
truncate_row_number t = copy_loop (suc t.definition_level) 0 t.row_number empty_row_number

unfoldable pub valid : RowNumber → Option Bool
valid t = do x ← get_elem? t 0; some (not (ltb_ℤ x (pos 0)))

unfoldable pub next : RowNumber → ℕ → ℕ → Option RowNumber
next t repetition_level definition_level = do
  x ← get_elem? t repetition_level
  t ← store t repetition_level (wrap64 (x +ℤ pos 1))
  t ← fill (definition_level - repetition_level) (suc repetition_level) (pos 0) t
  fill (length t - suc definition_level) (suc definition_level) undefined t

unfoldable pub skip : RowNumber → ℤ → Option RowNumber
skip t num_rows = do
  x ← get_elem? t 0
  t ← store t 0 (wrap64 (x +ℤ num_rows))
  fill (length t - 1) 1 undefined t
