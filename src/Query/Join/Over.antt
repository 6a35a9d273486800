-- ===== src/Query/Join/Over.antt =====
-- What a pass over all iterators of a join says of the rows that they are at.
use Prim.Native.Nat.{Ordering}
use phlare.Base.{
  ◌+◌, ◌≡◌, refl, sym, ◌∙◌, Bool, true, false, not, List, [], ◌∷◌, if◌then◌else◌, All, Bool-cases,
  ◌⊎◌, inl, inr, arith, length,
}
use phlare.Base.Order.{equal, not_below_trans, true-false}
use phlare.Query.Join.{Pass, pass_over, is_gt, lowest_after, highest_after}
use phlare.Query.Join.Skip.{RowOrder, IsDown, IsRow}
use phlare.Query.Join.Cursors.{is_gt_law}
use phlare.Query.Join.Scan.{Any, rev_onto, IsLowest, IsHighest, IsPassed}

All-rev_onto {ℓ} :
    {A : Type ℓ} (P : A → Type 0) (xs done : List A)
    → All P (rev_onto xs done)
    → All P xs × All P done
All-rev_onto P [] done a = (tt, a)
All-rev_onto P (x ∷ xs) done a = let (b, c) = All-rev_onto P xs (x ∷ done) a in ((c.0, b), c.1)

Any-rev_onto {ℓ} :
    {A : Type ℓ} (P : A → Type 0) (xs done : List A)
    → Any P (rev_onto xs done)
    → Any P xs ⊎ Any P done
Any-rev_onto P [] done a = inr a
Any-rev_onto P (x ∷ xs) done a = elim (Any-rev_onto P xs (x ∷ done) a) [
  | inl b ↦ inl (inr b)
  | inr c ↦ elim c [ inl p ↦ inl (inl p) | inr b ↦ inr b ]
]

length-rev_onto {ℓ} :
    {A : Type ℓ} (xs done : List A) → length (rev_onto xs done) ≡ length xs + length done
length-rev_onto [] done = omega arith
length-rev_onto (x ∷ xs) done = length-rev_onto xs (x ∷ done) ∙ omega arith

module _ {R K : Type 0} (m : RowOrder R K) where
  open m use {key, lt, o, compare, law}

  -- what a pass over all the rows says of them
  pub record IsOver (ds : List R) (p : Pass R) : Type 0 where
    pub same :
        length p.lowest_iters ≡ length ds
        → All (λ d. equal lt (key d) (key p.lowest_row_number) ≡ true) ds
    pub apart :
        (length p.lowest_iters ≡ length ds)
        ⊎ (lt (key p.lowest_row_number) (key p.highest_row_number) ≡ true)
    pub low_at : Any (λ d. key d ≡ key p.lowest_row_number) ds
    pub high_at : Any (λ d. key d ≡ key p.highest_row_number) ds

  lt_of : (l h d : K) → lt l d ≡ true → lt h d ≡ false → lt l h ≡ true
  lt_of l h d e f = elim (Bool-cases (lt l h)) [
    | inl g ↦ g
    | inr g ↦ absurd (true-false (sym e ∙ not_below_trans lt o d h l f g))
  ]

  apart_of :
      (l h : K) (ds : List R)
      → All (λ d. lt h (key d) ≡ false) ds
      → Any (λ d. lt l (key d) ≡ true) ds
      → lt l h ≡ true
  apart_of l h [] a any = absurd any
  apart_of l h (d ∷ ds) a (inl e) = lt_of l h (key d) e a.0
  apart_of l h (d ∷ ds) a (inr any) = apart_of l h ds a.1 any

  pub IsPassed-IsOver :
      (d : R) (rows : List R) (p : Pass R)
      → IsPassed m (rev_onto rows (d ∷ [])) p
      → IsOver (d ∷ rows) p
  IsPassed-IsOver d rows p (low, high) =
      let n = length-rev_onto rows (d ∷ []) in
      record {
        same = λ h.
            let (a, b) = All-rev_onto _ rows (d ∷ []) (low.same (omega (arith, n, h))) in (b.0, a);
        apart = (elim low.apart [
          | inl g ↦ inl (omega (arith, n, g))
          | inr g ↦ inr (apart_of _ _ (rev_onto rows (d ∷ [])) high.high g)
        ]);
        low_at = turned _ (Any-rev_onto _ rows (d ∷ []) low.low_at);
        high_at = turned _ (Any-rev_onto _ rows (d ∷ []) high.high_at);
      }
    where
      turned : (P : R → Type 0) → Any P rows ⊎ Any P (d ∷ []) → Any P (d ∷ rows)
      turned P (inl a) = inr a
      turned P (inr (inl p)) = inl p
      turned P (inr (inr a)) = absurd a

  pub below-IsDown : (h : K) → IsDown lt (λ x. lt x h)
  below-IsDown h x y e f = elim (Bool-cases (lt x h)) [
    | inl g ↦ g
    | inr g ↦ absurd (true-false (sym e ∙ not_below_trans lt o h x y g f))
  ]

  pub upto-IsDown : (l : K) → IsDown lt (λ x. not (lt l x))
  upto-IsDown l x y e f = rw (not_below_trans lt o x y l f (by_not (lt l y) e)) refl
    where
      by_not : (b : Bool) → not b ≡ true → b ≡ false
      by_not b e = ground arith

  module _ (max empty : R) where
    abbrev pub start : Pass R
    start = record { lowest_row_number = max; highest_row_number = empty; lowest_iters = [] }

    pub first-IsPassed :
        (d : R) → IsRow key lt max empty d → IsPassed m (d ∷ []) (pass_over compare 0 d start)
    first-IsPassed d (e, f) = (lowest (Bool-cases (lt (key d) (key max))), top (compare d max))
      where
        one :
            (l : R)
            → lt (key d) (key l) ≡ false
            → lt (key l) (key d) ≡ false
            → IsLowest m (d ∷ []) l (0 ∷ [])
        one l g h = record {
          low = (g, tt);
          count = omega arith;
          same = λ n. (rw g (rw h refl), tt);
          apart = inl refl;
          low_at = inl (o.connected (key d) (key l) g h);
        }

        lowest :
            (lt (key d) (key max) ≡ true) ⊎ (lt (key d) (key max) ≡ false)
            → IsLowest m
                (d ∷ [])
                (lowest_after compare (compare d max) 0 d start).lowest_row_number
                (lowest_after compare (compare d max) 0 d start).lowest_iters
        lowest (inl g) =
            rw (law d max) (rw g (one d (o.irreflexive (key d)) (o.irreflexive (key d))))
        lowest (inr g) = rw (law d max) (rw g (rw f (one max g f)))

        raised : IsHighest m (d ∷ []) (if is_gt (compare d empty) then d else empty)
        raised =
            rw (is_gt_law m d empty)
              (rw e (record { high = (o.irreflexive (key d), tt); high_at = inl refl }))

        top :
            (c : Ordering)
            → IsHighest m
                (d ∷ [])
                (highest_after compare d (lowest_after compare c 0 d start)).highest_row_number
        top Ordering.lt = raised
        top Ordering.eq = raised
        top Ordering.gt = raised
