-- ===== src/Query/RowNumber/Step.antt =====
-- `Next` and `Skip` of a row number, and the row number that they leave.
use Prim.Native.Nat.{Ordering}
use phlare.Base.{
  ℕ, zero, suc, ◌-◌, ◌≤◌, ◌<◌, ◌≡◌, refl, Option, none, some, [], ◌∷◌, arith, length, get_elem?,
  ltb, leb, ◌==◌, set, if◌then◌else◌,
}
use phlare.Base.Int.{ℤ, pos, negsuc, ◌<ℤ◌, ◌≤ℤ◌, ◌+ℤ◌, wrap64, max_int64}
use phlare.Query.RowNumber.{RowNumber, compare_row_numbers, levels, undefined, next, skip}
use phlare.Query.RowNumber.Access.{fill_lem, store-inside, get_elem?-set, length-set}
use phlare.Query.RowNumber.Order.{BeforeOn}
use phlare.Query.RowNumber.Compare.{compare_row_numbers_iff}

-- an int64 that is at least -1 and not the greatest
abbrev pub CanGrow : ℤ → Type 0
CanGrow x = (undefined ≤ℤ x) × (x <ℤ pos max_int64)

wrap64-grow : (x : ℤ) → CanGrow x → wrap64 (x +ℤ pos 1) ≡ x +ℤ pos 1
unfolding ◌+ℤ◌
wrap64-grow (pos n) h = ground arith
wrap64-grow (negsuc n) h = ground arith

grow-less : (x : ℤ) → x <ℤ (x +ℤ pos 1)
unfolding ◌+ℤ◌
grow-less x = ground arith

-- the entry at level `j` after `Next` at `r` and `d`
abbrev pub next_entry : ℕ → ℕ → ℤ → RowNumber → ℕ → Option ℤ
next_entry r d x t j =
    if ltb j r
    then get_elem? t j
    else if j == r
    then some (x +ℤ pos 1)
    else if leb j d
    then some (pos 0)
    else if ltb j levels
    then some undefined
    else none

get_elem?-outside : (t : RowNumber) (j : ℕ) → length t ≤ j → get_elem? t j ≡ none
get_elem?-outside [] j h = refl
get_elem?-outside (x ∷ t) zero h = absurd (omega arith)
get_elem?-outside (x ∷ t) (suc j) h = get_elem?-outside t j (omega arith)

pub next_lem :
    (t : RowNumber) (r d : ℕ) (x : ℤ)
    → length t ≡ levels
    → r ≤ d
    → d < levels
    → get_elem? t r ≡ some x
    → CanGrow x
    → (t' : RowNumber) × (next t r d ≡ some t')
      × (length t' ≡ levels)
      × ((j : ℕ) → get_elem? t' j ≡ next_entry r d x t j)
unfolding next
next_lem t r d x lt rd dl at grow =
    let y = x +ℤ pos 1 in
    let t₁ = set t r y in
    let (t₂, e₂, f₂) = fill_lem (d - r) (suc r) (pos 0) t₁ (omega (arith, length-set t r y)) in
    let (t₃, e₃, f₃) =
      fill_lem (length t₂ - suc d) (suc d) undefined t₂
        (omega (arith, f₂.size, length-set t r y)) in
    (
      t₃,
      simp (at, wrap64-grow x grow, store-inside t r y (omega arith), e₂, e₃),
      omega (arith, f₂.size, f₃.size, length-set t r y),
      λ j. ground (
        arith,
        f₃.entry j,
        f₂.entry j,
        get_elem?-set t r j y,
        f₂.size,
        length-set t r y,
        get_elem?-outside t j,
      ),
    )

-- `Next` on a row number of six levels, at a repetition level no deeper than the definition level,
-- both below six, where the entry at the repetition level is at least -1 and not the greatest
-- int64, does not panic, keeps the levels above, adds one at the repetition level, resets those
-- below, and leaves a row number after the old one in the comparison at every level from the
-- repetition level on.
pub next-after :
    (t : RowNumber) (r d k j : ℕ) (x : ℤ)
    → length t ≡ levels
    → r ≤ d
    → d < levels
    → r ≤ k
    → k < levels
    → get_elem? t r ≡ some x
    → CanGrow x
    → (t' : RowNumber) × (next t r d ≡ some t')
      × (length t' ≡ levels)
      × (get_elem? t' j ≡ next_entry r d x t j)
      × (compare_row_numbers k t t' ≡ some Ordering.lt)
next-after t r d k j x lt rd dl rk kl at grow =
    let (t', e, l, entry) = next_lem t r d x lt rd dl at grow in
    let before : BeforeOn (suc k) 0 t t' = record {
      level = r;
      below = x;
      above = x +ℤ pos 1;
      from = omega arith;
      upto = omega arith;
      same = λ i p q. ground (arith, entry i);
      here = at;
      there = ground (arith, entry r);
      less = grow-less x;
    } in
    (t', e, l, entry j, (compare_row_numbers_iff k t t' kl lt l Ordering.lt).1 before)

-- `Skip` on a row number of six levels does not panic, adds the number of rows to the first entry
-- as an int64 and makes the others -1.
skip_lem :
    (t : RowNumber) (n x : ℤ) (j : ℕ)
    → length t ≡ levels
    → get_elem? t 0 ≡ some x
    → (t' : RowNumber) × (skip t n ≡ some t')
      × (length t' ≡ levels)
      × (get_elem? t' j ≡ (
          if j == 0 then some (wrap64 (x +ℤ n)) else if ltb j levels then some undefined else none))
unfolding skip
skip_lem t n x j lt at =
    let y = wrap64 (x +ℤ n) in
    let t₁ = set t 0 y in
    let (t₂, e₂, f₂) = fill_lem (length t₁ - 1) 1 undefined t₁ (omega (arith, length-set t 0 y)) in
    (
      t₂,
      simp (at, store-inside t 0 y (omega arith), e₂),
      omega (arith, f₂.size, length-set t 0 y),
      ground (arith, f₂.entry j, get_elem?-set t 0 j y, length-set t 0 y, get_elem?-outside t j),
    )
