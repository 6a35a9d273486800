-- ===== src/Query/RowNumber/Order.antt =====
-- The lexicographic order behind `CompareRowNumbers`.
use Prim.Native.Nat.{Ordering}
use mathlib.Core.Path.{subst}
use native.Mathlib.Decide.{ℕ_discrete}
use phlare.Base.{
  ℕ, zero, suc, ◌+◌, ◌-◌, ◌≤◌, ◌<◌, ◌≡◌, refl, sym, ◌∙◌, ap, Option, none, some, arith, length,
  get_elem?,
}
use phlare.Base.Int.{ℤ, ◌<ℤ◌, eq_of_parts}
use phlare.Query.RowNumber.{RowNumber, compare_at, compare_loop}
use phlare.Query.RowNumber.Access.{get_elem?-inside}

abbrev pub flip : Ordering → Ordering
flip Ordering.lt = Ordering.gt
flip Ordering.eq = Ordering.eq
flip Ordering.gt = Ordering.lt

abbrev pub flip_option : Option Ordering → Option Ordering
flip_option none = none
flip_option (some o) = some (flip o)

-- The row numbers agree at the `n` levels from `i` on.
abbrev pub SameOn : ℕ → ℕ → RowNumber → RowNumber → Type 0
SameOn n i a b = (j : ℕ) → i ≤ j → j < i + n → get_elem? a j ≡ get_elem? b j

-- At the first of those levels at which they differ, `a` is less.
pub record BeforeOn (n i : ℕ) (a b : RowNumber) : Type 0 where
  pub level : ℕ
  pub below : ℤ
  pub above : ℤ
  pub from : i ≤ level
  pub upto : level < i + n
  pub same : SameOn (level - i) i a b
  pub here : get_elem? a level ≡ some below
  pub there : get_elem? b level ≡ some above
  pub less : below <ℤ above

abbrev pub Relates : Ordering → ℕ → ℕ → RowNumber → RowNumber → Type 0
Relates Ordering.lt n i a b = BeforeOn n i a b
Relates Ordering.eq n i a b = SameOn n i a b
Relates Ordering.gt n i a b = BeforeOn n i b a

compare_at-lt : (x y : ℤ) → compare_at x y ≡ Ordering.lt → x <ℤ y
unfolding compare_at
compare_at-lt x y h = ground arith

compare_at-gt : (x y : ℤ) → compare_at x y ≡ Ordering.gt → y <ℤ x
unfolding compare_at
compare_at-gt x y h = ground arith

compare_at-eq : (x y : ℤ) → compare_at x y ≡ Ordering.eq → x ≡ y
unfolding compare_at
compare_at-eq x y h = eq_of_parts x y (ground arith)

SameOn-cons :
    (n i : ℕ) (a b : RowNumber)
    → get_elem? a i ≡ get_elem? b i
    → SameOn n (suc i) a b
    → SameOn (suc n) i a b
SameOn-cons n i a b e h j p q = elim (ℕ_discrete i j) [
  | yes k ↦ subst (λ j. get_elem? a j ≡ get_elem? b j) k e
  | no k ↦ h j (omega arith) (omega arith)
]

BeforeOn-cons :
    (n i : ℕ) (a b : RowNumber)
    → get_elem? a i ≡ get_elem? b i
    → BeforeOn n (suc i) a b
    → BeforeOn (suc n) i a b
BeforeOn-cons n i a b e h = record {
  level = h.level;
  below = h.below;
  above = h.above;
  from = omega (arith, h.from);
  upto = omega (arith, h.upto);
  same = λ j p q. SameOn-cons (h.level - suc i) i a b e h.same j p (omega (arith, h.from));
  here = h.here;
  there = h.there;
  less = h.less;
}

Relates-cons :
    (o : Ordering) (n i : ℕ) (a b : RowNumber)
    → get_elem? a i ≡ get_elem? b i
    → Relates o n (suc i) a b
    → Relates o (suc n) i a b
Relates-cons Ordering.lt n i a b e h = BeforeOn-cons n i a b e h
Relates-cons Ordering.eq n i a b e h = SameOn-cons n i a b e h
Relates-cons Ordering.gt n i a b e h = BeforeOn-cons n i b a (sym e) h

BeforeOn-here :
    (n i : ℕ) (a b : RowNumber) (x y : ℤ)
    → get_elem? a i ≡ some x
    → get_elem? b i ≡ some y
    → x <ℤ y
    → BeforeOn (suc n) i a b
BeforeOn-here n i a b x y p q h = record {
  level = i;
  below = x;
  above = y;
  from = omega arith;
  upto = omega arith;
  same = λ j k l. absurd (omega arith);
  here = p;
  there = q;
  less = h;
}

-- The loop returns, and what it returns says how the row numbers relate.
pub compare_loop_lem :
    (n i : ℕ) (a b : RowNumber)
    → i + n ≤ length a
    → i + n ≤ length b
    → (o : Ordering) × (compare_loop n i a b ≡ some o) × Relates o n i a b
unfolding compare_loop
compare_loop_lem zero i a b h g = (Ordering.eq, refl, λ j p q. absurd (omega arith))
compare_loop_lem (suc n) i a b h g =
    let (x, p) = get_elem?-inside a i (omega arith) in
    let (y, q) = get_elem?-inside b i (omega arith) in
    let (o, e, r) = compare_loop_lem n (suc i) a b (omega arith) (omega arith) in
    branch x y p q (compare_at x y) refl o e r
  where
    branch :
        (x y : ℤ)
        → get_elem? a i ≡ some x
        → get_elem? b i ≡ some y
        → (c : Ordering) → compare_at x y ≡ c
        → (o : Ordering) → compare_loop n (suc i) a b ≡ some o
        → Relates o n (suc i) a b
        → (o : Ordering) × (compare_loop (suc n) i a b ≡ some o) × Relates o (suc n) i a b
    branch x y p q Ordering.lt d o e r =
        (Ordering.lt, ground arith, BeforeOn-here n i a b x y p q (compare_at-lt x y d))
    branch x y p q Ordering.eq d o e r =
        (o, ground arith, Relates-cons o n i a b (p ∙ ap some (compare_at-eq x y d) ∙ sym q) r)
    branch x y p q Ordering.gt d o e r =
        (Ordering.gt, ground arith, BeforeOn-here n i b a y x q p (compare_at-gt x y d))
