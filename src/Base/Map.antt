-- ===== src/Base/Map.antt =====
-- Maps from strings, as association lists in the order in which the keys came.
use mathlib.Core.Path.{◌≡◌, refl}
use mathlib.Core.Logic.{inl, inr}
use mathlib.Core.Bool.{Bool, true, false}
use mathlib.Core.List.{List, [], ◌∷◌}
use mathlib.Core.Option.{Option, none, some}
use native.Mathlib.Omega.{arith}
use phlare.Base.Tests.{if◌then◌else◌, Bool-cases}
use phlare.Base.Order.{Bytes, ltb_bytes, ltb_bytes-IsOrder, equal, equal-same}

abbrev pub eq_bytes : Bytes → Bytes → Bool
eq_bytes = equal ltb_bytes

pub eq_bytes-same : (a b : Bytes) → eq_bytes a b ≡ true → a ≡ b
eq_bytes-same a b h = equal-same ltb_bytes ltb_bytes-IsOrder a b h

pub eq_bytes_refl : (a : Bytes) → eq_bytes a a ≡ true
eq_bytes_refl a = let e = ltb_bytes-IsOrder.irreflexive a in rw e refl

-- Two tests in a row, of the same key or of different ones.
pub twice {ℓ} :
    {A : Type ℓ} (b : Bool) (x y z : A)
    → (if b then x else z) ≡ (if b then x else if b then y else z)
twice true x y z = refl
twice false x y z = refl

pub swap {ℓ} :
    {A : Type ℓ} (p q : Bool) (x y z : A)
    → (p ≡ true → q ≡ false)
    → (if p then x else if q then y else z) ≡ (if q then y else if p then x else z)
swap true q x y z h = rw (h refl) refl
swap false q x y z h = refl

other : (i j k : Bytes) → j ≡ i → eq_bytes k i ≡ false → eq_bytes j k ≡ false
other i j k h e = rw h (sym_test e)
  where
    sym_test : eq_bytes k i ≡ false → eq_bytes i k ≡ false
    sym_test e = ground arith

module _ {V : Type 0} where
  unfoldable pub find : Bytes → List (Bytes × V) → Option V
  find k [] = none
  find k ((j, v) ∷ m) = if eq_bytes k j then some v else find k m

  unfoldable pub put : Bytes → V → List (Bytes × V) → List (Bytes × V)
  put k v [] = (k, v) ∷ []
  put k v ((j, w) ∷ m) = if eq_bytes k j then (k, v) ∷ m else (j, w) ∷ put k v m

  unfoldable pub remove : Bytes → List (Bytes × V) → List (Bytes × V)
  remove k [] = []
  remove k ((j, w) ∷ m) = if eq_bytes k j then remove k m else (j, w) ∷ remove k m

  pub find-put :
      (j k : Bytes) (v : V) (m : List (Bytes × V))
      → find j (put k v m) ≡ (if eq_bytes j k then some v else find j m)
  unfolding find put
  find-put j k v [] = refl
  find-put j k v ((i, w) ∷ m) = elim (Bool-cases (eq_bytes k i)) [
    | inl e ↦
        let same = eq_bytes-same k i e in
        rw (e, same) (twice (eq_bytes j i) (some v) (some w) (find j m))
    | inr e ↦
        let ne : eq_bytes j i ≡ true → eq_bytes j k ≡ false =
          λ h. other i j k (eq_bytes-same j i h) e in
        rw (e, find-put j k v m)
          (swap (eq_bytes j i) (eq_bytes j k) (some w) (some v) (find j m) ne)
  ]

  pub find-remove :
      (j k : Bytes) (m : List (Bytes × V))
      → find j (remove k m) ≡ (if eq_bytes j k then none else find j m)
  unfolding find remove
  find-remove j k [] = elim (Bool-cases (eq_bytes j k)) [ inl e ↦ rw e refl | inr e ↦ rw e refl ]
  find-remove j k ((i, w) ∷ m) = elim (Bool-cases (eq_bytes k i)) [
    | inl e ↦
        let same = eq_bytes-same k i e in
        rw (e, find-remove j k m, same) (twice (eq_bytes j i) none (some w) (find j m))
    | inr e ↦
        let ne : eq_bytes j i ≡ true → eq_bytes j k ≡ false =
          λ h. other i j k (eq_bytes-same j i h) e in
        rw (e, find-remove j k m) (swap (eq_bytes j i) (eq_bytes j k) (some w) none (find j m) ne)
  ]
