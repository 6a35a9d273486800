-- ===== src/Tsdb/Index/Merge.antt =====
-- `mergeTwoStringSlices` and `mergeStringSlices` of pkg/phlaredb/tsdb/index.go, over any type with
-- the test `<`.
use mathlib.Core.Path.{subst, ap₂}
use phlare.Base.{
  ℕ, zero, suc, ◌/◌, ◌≤◌, ◌≡◌, refl, sym, ap, ◌∙◌, Bool, true, false, ◌||◌, List, [], ◌∷◌, inl, inr,
  arith, length, take, drop, length-take-le, length-drop, All, take-All, drop-All, Bool-cases,
}
use phlare.Base.Order.{IsOrder, IsStrict, IsAbove, IsAbove-trans, contains, equal}

module _ {A : Type 0} (lt : A → A → Bool) where
  -- the loop at `a[i:]` and `b[j:]`, and the two appends after it
  unfoldable pub merge_two : List A → List A → List A
  merge_two [] ys = ys
  merge_two (x ∷ xs) [] = x ∷ xs
  merge_two (x ∷ xs) (y ∷ ys) = elim (lt x y) [
    | true ↦ x ∷ merge_two xs (y ∷ ys)
    | false ↦ elim (lt y x) [ true ↦ y ∷ merge_two (x ∷ xs) ys | false ↦ x ∷ merge_two xs ys ]
  ]

  -- Each half is shorter than the whole, so the number of slices is enough fuel.
  merge_halves : ℕ → List (List A) → List A
  merge_halves zero ss = []
  merge_halves (suc fuel) [] = []
  merge_halves (suc fuel) (a ∷ []) = a
  merge_halves (suc fuel) (a ∷ b ∷ []) = merge_two a b
  merge_halves (suc fuel) (a ∷ b ∷ c ∷ ss) =
      let halfway = length (a ∷ b ∷ c ∷ ss) / 2 in
      merge_two (merge_halves fuel (take halfway (a ∷ b ∷ c ∷ ss)))
        (merge_halves fuel (drop halfway (a ∷ b ∷ c ∷ ss)))

  unfoldable pub merge_slices : List (List A) → List A
  unfolding merge_halves
  merge_slices ss = merge_halves (length ss) ss

  abbrev pub contained_in_any : A → List (List A) → Bool
  contained_in_any x [] = false
  contained_in_any x (s ∷ ss) = contains lt x s || contained_in_any x ss

  contained-split :
      (x : A) (n : ℕ) (ss : List (List A))
      → contained_in_any x ss ≡ (contained_in_any x (take n ss) || contained_in_any x (drop n ss))
  contained-split x zero ss = refl
  contained-split x (suc n) [] = refl
  contained-split x (suc n) (s ∷ ss) = ground (arith, contained-split x n ss)

  -- one round, on each branch
  module _ (x y : A) (xs ys : List A) where
    merge_two-left : lt x y ≡ true → merge_two (x ∷ xs) (y ∷ ys) ≡ x ∷ merge_two xs (y ∷ ys)
    unfolding merge_two
    merge_two-left e = rw (e, merge_two) refl

    merge_two-right :
        lt x y ≡ false → lt y x ≡ true → merge_two (x ∷ xs) (y ∷ ys) ≡ y ∷ merge_two (x ∷ xs) ys
    unfolding merge_two
    merge_two-right e f = rw (e, f, merge_two) refl

    merge_two-both :
        lt x y ≡ false → lt y x ≡ false → merge_two (x ∷ xs) (y ∷ ys) ≡ x ∷ merge_two xs ys
    unfolding merge_two
    merge_two-both e f = rw (e, f, merge_two) refl

  module _ (o : IsOrder lt) where
    merge_two-IsAbove :
        (z : A) (xs ys : List A)
        → IsAbove lt z xs
        → IsAbove lt z ys
        → IsAbove lt z (merge_two xs ys)
    unfolding merge_two
    merge_two-IsAbove z [] ys a b = b
    merge_two-IsAbove z (x ∷ xs) [] a b = a
    merge_two-IsAbove z (x ∷ xs) (y ∷ ys) a b = elim (Bool-cases (lt x y)) [
      | inl e ↦ by_round (merge_two-left x y xs ys e) (a.0, merge_two-IsAbove z xs (y ∷ ys) a.1 b)
      | inr e ↦ elim (Bool-cases (lt y x)) [
        | inl f ↦
            by_round (merge_two-right x y xs ys e f) (b.0, merge_two-IsAbove z (x ∷ xs) ys a b.1)
        | inr f ↦ by_round (merge_two-both x y xs ys e f) (a.0, merge_two-IsAbove z xs ys a.1 b.1)
      ]
    ]
      where
        by_round : {l m : List A} → l ≡ m → IsAbove lt z m → IsAbove lt z l
        by_round e h = subst (IsAbove lt z) (sym e) h

    pub merge_two-IsStrict :
        (xs ys : List A) → IsStrict lt xs → IsStrict lt ys → IsStrict lt (merge_two xs ys)
    unfolding merge_two
    merge_two-IsStrict [] ys a b = b
    merge_two-IsStrict (x ∷ xs) [] a b = a
    merge_two-IsStrict (x ∷ xs) (y ∷ ys) a b = elim (Bool-cases (lt x y)) [
      | inl e ↦ by_round (merge_two-left x y xs ys e) (
        merge_two-IsAbove x xs (y ∷ ys) a.0 (e, IsAbove-trans lt o x y ys e b.0),
        merge_two-IsStrict xs (y ∷ ys) a.1 b,
      )
      | inr e ↦ elim (Bool-cases (lt y x)) [
        | inl f ↦ by_round (merge_two-right x y xs ys e f) (
          merge_two-IsAbove y (x ∷ xs) ys (f, IsAbove-trans lt o y x xs f a.0) b.0,
          merge_two-IsStrict (x ∷ xs) ys a b.1,
        )
        | inr f ↦
            let above = subst (λ z. IsAbove lt z ys) (sym (o.connected x y e f)) b.0 in
            by_round (merge_two-both x y xs ys e f)
              (merge_two-IsAbove x xs ys a.0 above, merge_two-IsStrict xs ys a.1 b.1)
      ]
    ]
      where
        by_round : {l m : List A} → l ≡ m → IsStrict lt m → IsStrict lt l
        by_round e h = subst (IsStrict lt) (sym e) h

    pub contains-merge_two :
        (z : A) (xs ys : List A)
        → contains lt z (merge_two xs ys) ≡ (contains lt z xs || contains lt z ys)
    unfolding merge_two
    contains-merge_two z [] ys = refl
    contains-merge_two z (x ∷ xs) [] = ground arith
    contains-merge_two z (x ∷ xs) (y ∷ ys) = elim (Bool-cases (lt x y)) [
      | inl e ↦
          ap (contains lt z) (merge_two-left x y xs ys e)
          ∙ ground (arith, contains-merge_two z xs (y ∷ ys))
      | inr e ↦ elim (Bool-cases (lt y x)) [
        | inl f ↦
            ap (contains lt z) (merge_two-right x y xs ys e f)
            ∙ ground (arith, contains-merge_two z (x ∷ xs) ys)
        | inr f ↦
            let same = ap (λ w. equal lt z w) (o.connected x y e f) in
            ap (contains lt z) (merge_two-both x y xs ys e f)
            ∙ ground (arith, contains-merge_two z xs ys, same)
      ]
    ]

    merge_halves_lem :
        (fuel : ℕ) (z : A) (ss : List (List A))
        → length ss ≤ fuel
        → All (IsStrict lt) ss
        → IsStrict lt (merge_halves fuel ss)
          × (contains lt z (merge_halves fuel ss) ≡ contained_in_any z ss)
    unfolding merge_halves
    merge_halves_lem zero z [] h a = (tt, refl)
    merge_halves_lem zero z (s ∷ ss) h a = absurd (omega arith)
    merge_halves_lem (suc fuel) z [] h a = (tt, refl)
    merge_halves_lem (suc fuel) z (s ∷ []) h a = (a.0, ground arith)
    merge_halves_lem (suc fuel) z (s ∷ t ∷ []) h a =
        (merge_two-IsStrict s t a.0 a.1.0, ground (arith, contains-merge_two z s t))
    merge_halves_lem (suc fuel) z (s ∷ t ∷ u ∷ ss) h a =
        let all = s ∷ t ∷ u ∷ ss in
        let n = length all / 2 in
        let left =
          merge_halves_lem fuel z (take n all) (omega (arith, length-take-le n all))
            (take-All (IsStrict lt) n all a) in
        let right =
          merge_halves_lem fuel z (drop n all) (omega (arith, length-drop n all))
            (drop-All (IsStrict lt) n all a) in
        let l = merge_halves fuel (take n all) in
        let r = merge_halves fuel (drop n all) in
        (
          merge_two-IsStrict l r left.0 right.0,
          contains-merge_two z l r
              ∙ ap₂ (λ p q. p || q) left.1 right.1
              ∙ sym (contained-split z n all),
        )

    -- Merging any number of strictly ascending slices gives a strictly ascending slice that holds
    -- exactly what one of them holds, for any strict total order.
    pub merge_slices-IsStrict :
        (z : A) (ss : List (List A))
        → All (IsStrict lt) ss
        → IsStrict lt (merge_slices ss) × (contains lt z (merge_slices ss) ≡ contained_in_any z ss)
    unfolding merge_slices
    merge_slices-IsStrict z ss a = merge_halves_lem (length ss) z ss (omega arith) a
