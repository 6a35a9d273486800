-- ===== src/Base/Lex.antt =====
-- The order of integers, and the lexicographic order of lists, and of pairs.
use mathlib.Core.Path.{◌≡◌, refl}
use mathlib.Core.Bool.{Bool, true, false}
use mathlib.Core.List.{List, [], ◌∷◌}
use native.Mathlib.Omega.{arith}
use phlare.Base.Tests.{if◌then◌else◌}
use phlare.Base.Int.{ltb_ℤ, eq_of_parts}
use phlare.Base.Order.{IsOrder, lt-asym}

pub ltb_ℤ-IsOrder : IsOrder ltb_ℤ
ltb_ℤ-IsOrder = record {
  irreflexive = λ x. ground arith;
  transitive = λ x y z h k. ground arith;
  connected = λ x y h k. eq_of_parts x y (ground arith);
}

module _ {A : Type 0} (lt : A → A → Bool) where
  abbrev pub ltb_list : List A → List A → Bool
  ltb_list xs [] = false
  ltb_list [] (y ∷ ys) = true
  ltb_list (x ∷ xs) (y ∷ ys) = if lt x y then true else if lt y x then false else ltb_list xs ys

  module _ (o : IsOrder lt) where
    ltb_list_irrefl : (xs : List A) → ltb_list xs xs ≡ false
    ltb_list_irrefl [] = refl
    ltb_list_irrefl (x ∷ xs) = let e = o.irreflexive x in rw e (ltb_list_irrefl xs)

    ltb_list_trans :
        (xs ys zs : List A) → ltb_list xs ys ≡ true → ltb_list ys zs ≡ true → ltb_list xs zs ≡ true
    ltb_list_trans xs [] zs h k = ground arith
    ltb_list_trans xs (y ∷ ys) [] h k = ground arith
    ltb_list_trans [] (y ∷ ys) (z ∷ zs) h k = refl
    ltb_list_trans (x ∷ xs) (y ∷ ys) (z ∷ zs) h k = ground (
      arith,
      ltb_list_trans xs ys zs,
      o.transitive x y z,
      o.connected x y,
      o.connected y z,
      o.transitive z x y,
      o.transitive y z x,
      lt-asym lt o x y,
      lt-asym lt o y z,
      lt-asym lt o x z,
    )

    ltb_list_connected :
        (xs ys : List A) → ltb_list xs ys ≡ false → ltb_list ys xs ≡ false → xs ≡ ys
    ltb_list_connected [] [] h k = refl
    ltb_list_connected [] (y ∷ ys) h k = ground arith
    ltb_list_connected (x ∷ xs) [] h k = ground arith
    ltb_list_connected (x ∷ xs) (y ∷ ys) h k =
        let same : x ≡ y = ground (arith, o.connected x y) in
        let rest : xs ≡ ys =
          ltb_list_connected xs ys (ground (arith, o.irreflexive x, same))
            (ground (arith, o.irreflexive x, same)) in
        cc

    pub ltb_list-IsOrder : IsOrder ltb_list
    ltb_list-IsOrder = record {
      irreflexive = ltb_list_irrefl;
      transitive = ltb_list_trans;
      connected = ltb_list_connected;
    }
