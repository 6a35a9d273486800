-- ===== src/Base/Order.antt =====
-- Strict orders by a Boolean test, ascending lists of them, and the order of Go's strings.
use Prim.Native.Nat.{ℕ}
use mathlib.Core.Path.{◌≡◌, refl, sym, ◌∙◌, subst}
use mathlib.Core.Bool.{Bool, true, false, not, ◌&&◌, ◌||◌}
use mathlib.Core.List.{List, [], ◌∷◌}
use native.Mathlib.Omega.{arith}
use mathlib.Core.Logic.{inl, inr}
use phlare.Base.Tests.{ltb, if◌then◌else◌, Bool-cases}
use phlare.Base.Lists.{All}

pub true-false : true ≡ false → ⊥
true-false e = ground arith

-- a strict total order
pub record IsOrder {A : Type 0} (lt : A → A → Bool) : Type 0 where
  pub irreflexive : (x : A) → lt x x ≡ false
  pub transitive : (x y z : A) → lt x y ≡ true → lt y z ≡ true → lt x z ≡ true
  pub connected : (x y : A) → lt x y ≡ false → lt y x ≡ false → x ≡ y

module _ {A : Type 0} (lt : A → A → Bool) where
  abbrev pub equal : A → A → Bool
  equal x y = not (lt x y) && not (lt y x)

  abbrev pub contains : A → List A → Bool
  contains x [] = false
  contains x (y ∷ ys) = equal x y || contains x ys

  abbrev pub IsAbove : A → List A → Type 0
  IsAbove x = All (λ y. lt x y ≡ true)

  -- strictly ascending
  abbrev pub IsStrict : List A → Type 0
  IsStrict [] = Unit
  IsStrict (x ∷ xs) = IsAbove x xs × IsStrict xs

  module _ (o : IsOrder lt) where
    pub IsAbove-trans : (x y : A) (ys : List A) → lt x y ≡ true → IsAbove y ys → IsAbove x ys
    IsAbove-trans x y [] h a = tt
    IsAbove-trans x y (z ∷ ys) h a = (o.transitive x y z h a.0, IsAbove-trans x y ys h a.1)

    pub lt-asym : (x y : A) → lt x y ≡ true → lt y x ≡ false
    lt-asym x y h = elim (Bool-cases (lt y x)) [
      | inl e ↦ cc (o.irreflexive x, o.transitive x y x h e)
      | inr e ↦ e
    ]

    pub equal-same : (x y : A) → equal x y ≡ true → x ≡ y
    equal-same x y h = ground (arith, o.connected x y)

    pub not_below_trans : (x y z : A) → lt y x ≡ false → lt z y ≡ false → lt z x ≡ false
    not_below_trans x y z h k = elim (Bool-cases (lt z x)) [
      | inl e ↦ elim (Bool-cases (lt y z)) [
        | inl e' ↦ absurd (true-false (sym (o.transitive y z x e' e) ∙ h))
        | inr e' ↦
            absurd (true-false (sym e ∙ subst (λ p. lt p x ≡ false) (o.connected y z e' k) h))
      ]
      | inr e ↦ e
    ]

    -- what is above all of a list does not stand in it
    pub contains-above : (x : A) (ys : List A) → IsAbove x ys → contains x ys ≡ false
    contains-above x [] a = refl
    contains-above x (y ∷ ys) a = rw a.0 (contains-above x ys a.1)

pub ltb-IsOrder : IsOrder ltb
ltb-IsOrder = record {
  irreflexive = λ x. ground arith;
  transitive = λ x y z h k. ground arith;
  connected = λ x y h k. ground arith;
}

-- A string of Go, compared by its bytes.
abbrev pub Bytes : Type 0
Bytes = List ℕ

abbrev pub ltb_bytes : Bytes → Bytes → Bool
ltb_bytes xs [] = false
ltb_bytes [] (y ∷ ys) = true
ltb_bytes (x ∷ xs) (y ∷ ys) = if ltb x y then true else if ltb y x then false else ltb_bytes xs ys

ltb_bytes_irrefl : (xs : Bytes) → ltb_bytes xs xs ≡ false
ltb_bytes_irrefl [] = refl
ltb_bytes_irrefl (x ∷ xs) = ground (arith, ltb_bytes_irrefl xs)

ltb_bytes_trans :
    (xs ys zs : Bytes) → ltb_bytes xs ys ≡ true → ltb_bytes ys zs ≡ true → ltb_bytes xs zs ≡ true
ltb_bytes_trans xs [] zs h k = ground arith
ltb_bytes_trans xs (y ∷ ys) [] h k = ground arith
ltb_bytes_trans [] (y ∷ ys) (z ∷ zs) h k = refl
ltb_bytes_trans (x ∷ xs) (y ∷ ys) (z ∷ zs) h k = ground (arith, ltb_bytes_trans xs ys zs)

ltb_bytes-connected : (xs ys : Bytes) → ltb_bytes xs ys ≡ false → ltb_bytes ys xs ≡ false → xs ≡ ys
ltb_bytes-connected [] [] h k = refl
ltb_bytes-connected [] (y ∷ ys) h k = ground arith
ltb_bytes-connected (x ∷ xs) [] h k = ground arith
ltb_bytes-connected (x ∷ xs) (y ∷ ys) h k =
    let same : x ≡ y = ground arith in
    let rest : xs ≡ ys = ltb_bytes-connected xs ys (ground arith) (ground arith) in cc

pub ltb_bytes-IsOrder : IsOrder ltb_bytes
ltb_bytes-IsOrder = record {
  irreflexive = ltb_bytes_irrefl;
  transitive = ltb_bytes_trans;
  connected = ltb_bytes-connected;
}
