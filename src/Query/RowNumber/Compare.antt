-- ===== src/Query/RowNumber/Compare.antt =====
-- The decisions of `CompareRowNumbers`, and what `TruncateRowNumber` keeps of a row number.
use mathlib.Core.Path.{subst}
use native.Mathlib.Decide.{ℕ_discrete, dec_lt}
use Prim.Native.Nat.{Ordering}
use phlare.Base.{
  ℕ, suc, ◌<◌, ◌≡◌, ◌↔◌, refl, sym, ◌∙◌, ap, Option, some, arith, length, get_elem?, leb,
  if◌then◌else◌,
}
use phlare.Base.Int.{◌<ℤ◌}
use phlare.Query.RowNumber.{
  RowNumber, compare_row_numbers, truncate_row_number, levels, empty_row_number,
}
use phlare.Query.RowNumber.Access.{copy_loop_lem}
use phlare.Query.RowNumber.Order.{SameOn, BeforeOn, Relates, compare_loop_lem}

same_value {ℓ} : {A : Type ℓ} {o : Option A} {x y : A} → o ≡ some x → o ≡ some y → x ≡ y
same_value p q = cc

not-BeforeOn-SameOn : (n i : ℕ) (a b : RowNumber) → BeforeOn n i a b → SameOn n i a b → ⊥
not-BeforeOn-SameOn n i a b h s =
    let e = same_value h.there (sym (s h.level h.from h.upto) ∙ h.here) in
    absurd (omega (arith, subst (λ z. h.below <ℤ z) e h.less))

module _ (n i : ℕ) (a b c : RowNumber) (h : BeforeOn n i a b) (g : BeforeOn n i b c) where
  BeforeOn-trans_early : h.level < g.level → BeforeOn n i a c
  BeforeOn-trans_early lt = record {
    level = h.level;
    below = h.below;
    above = h.above;
    from = h.from;
    upto = h.upto;
    same = λ j p q. h.same j p q ∙ g.same j p (omega (arith, g.from, h.from));
    here = h.here;
    there = sym (g.same h.level h.from (omega (arith, g.from))) ∙ h.there;
    less = h.less;
  }

  BeforeOn-trans_late : g.level < h.level → BeforeOn n i a c
  BeforeOn-trans_late lt = record {
    level = g.level;
    below = g.below;
    above = g.above;
    from = g.from;
    upto = g.upto;
    same = λ j p q. h.same j p (omega (arith, g.from, h.from)) ∙ g.same j p q;
    here = h.same g.level g.from (omega (arith, h.from)) ∙ g.here;
    there = g.there;
    less = g.less;
  }

  BeforeOn-trans_at : h.level ≡ g.level → BeforeOn n i a c
  BeforeOn-trans_at e =
      let shared : h.above ≡ g.below =
        same_value h.there (subst (λ k. get_elem? b k ≡ some g.below) (sym e) g.here) in
      let first : h.below <ℤ g.below = subst (λ z. h.below <ℤ z) shared h.less in
      let second = g.less in
      record {
        level = h.level;
        below = h.below;
        above = g.above;
        from = h.from;
        upto = h.upto;
        same = λ j p q. h.same j p q ∙ g.same j p (omega arith);
        here = h.here;
        there = subst (λ k. get_elem? c k ≡ some g.above) (sym e) g.there;
        less = omega arith;
      }

  pub BeforeOn-trans : BeforeOn n i a c
  BeforeOn-trans = elim (dec_lt h.level g.level) [
    | yes lt ↦ BeforeOn-trans_early lt
    | no ge ↦ elim (ℕ_discrete h.level g.level) [
      | yes e ↦ BeforeOn-trans_at e
      | no ne ↦ BeforeOn-trans_late (omega arith)
    ]
  ]

not-BeforeOn-self : (n i : ℕ) (a : RowNumber) → BeforeOn n i a a → ⊥
not-BeforeOn-self n i a h = not-BeforeOn-SameOn n i a a h (λ j p q. refl)

Relates-unique :
    (o o' : Ordering) (n i : ℕ) (a b : RowNumber) → Relates o n i a b → Relates o' n i a b → o ≡ o'
Relates-unique Ordering.lt Ordering.lt n i a b r s = refl
Relates-unique Ordering.lt Ordering.eq n i a b r s = absurd (not-BeforeOn-SameOn n i a b r s)
Relates-unique Ordering.lt Ordering.gt n i a b r s =
    absurd (not-BeforeOn-self n i a (BeforeOn-trans n i a b a r s))
Relates-unique Ordering.eq Ordering.lt n i a b r s = absurd (not-BeforeOn-SameOn n i a b s r)
Relates-unique Ordering.eq Ordering.eq n i a b r s = refl
Relates-unique Ordering.eq Ordering.gt n i a b r s =
    absurd (not-BeforeOn-SameOn n i b a s (λ j p q. sym (r j p q)))
Relates-unique Ordering.gt Ordering.lt n i a b r s =
    absurd (not-BeforeOn-self n i b (BeforeOn-trans n i b a b r s))
Relates-unique Ordering.gt Ordering.eq n i a b r s =
    absurd (not-BeforeOn-SameOn n i b a r (λ j p q. sym (s j p q)))
Relates-unique Ordering.gt Ordering.gt n i a b r s = refl

module _ (d : ℕ) (a b : RowNumber) (inside : d < levels) (la : length a ≡ levels)
    (lb : length b ≡ levels) where
  -- On row numbers of six levels and a level below six the comparison does not panic, and it gives
  -- less, equal or greater exactly when the first is lexicographically before, equal to or after
  -- the second through that level.
  pub compare_row_numbers_iff :
      (o : Ordering) → (compare_row_numbers d a b ≡ some o) ↔ Relates o (suc d) 0 a b
  unfolding compare_row_numbers
  compare_row_numbers_iff o =
      let (o', e, r) = compare_loop_lem (suc d) 0 a b (omega arith) (omega arith) in
      (
        (λ h. subst (λ o. Relates o (suc d) 0 a b) (same_value e h) r),
        (λ s. e ∙ ap some (Relates-unique o' o (suc d) 0 a b r s)),
      )

-- Two comparisons of row numbers of six levels at the same level below six that both give less
-- chain to one that gives less.
compare_row_numbers_trans :
    (d : ℕ) (a b c : RowNumber)
    → d < levels
    → length a ≡ levels
    → length b ≡ levels
    → length c ≡ levels
    → compare_row_numbers d a b ≡ some Ordering.lt
    → compare_row_numbers d b c ≡ some Ordering.lt
    → compare_row_numbers d a c ≡ some Ordering.lt
compare_row_numbers_trans d a b c h la lb lc p q =
    (compare_row_numbers_iff d a c h la lc Ordering.lt).1 (
      BeforeOn-trans (suc d) 0 a b c ((compare_row_numbers_iff d a b h la lb Ordering.lt).0 p)
        ((compare_row_numbers_iff d b c h lb lc Ordering.lt).0 q))

-- Truncating a row number of six levels at a level below six gives one that compares equal through
-- that level, is -1 below it, and has six levels.
pub truncate_row_number_lem :
    (a : RowNumber) (d j : ℕ)
    → d < levels
    → length a ≡ levels
    → (t : RowNumber) × (truncate_row_number (record { row_number = a; definition_level = d })
        ≡ some t)
      × (compare_row_numbers d t a ≡ some Ordering.eq)
      × (get_elem? t j ≡ (if leb j d then get_elem? a j else get_elem? empty_row_number j))
      × (length t ≡ levels)
unfolding truncate_row_number
truncate_row_number_lem a d j h la =
    let (t, e, c) = copy_loop_lem (suc d) 0 a empty_row_number (omega arith) (omega arith) in
    (
      t,
      e,
      (compare_row_numbers_iff d t a h c.size la Ordering.eq).1
          (λ k p q. ground (arith, c.entry k)),
      ground (arith, c.entry j),
      c.size,
    )
