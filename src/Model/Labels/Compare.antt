-- ===== src/Model/Labels/Compare.antt =====
-- The order that `CompareLabelPairs` decides.
use mathlib.Core.Path.{ap₂}
use phlare.Base.{
  ℕ, ◌+◌, ◌≡◌, sym, ◌∙◌, Bool, true, false, List, [], ◌∷◌, arith, if◌then◌else◌, length,
}
use phlare.Base.Int.{pos, ltb_ℤ, sub_ℕ}
use phlare.Base.Order.{IsOrder, ltb_bytes, ltb_bytes-IsOrder, lt-asym}
use phlare.Base.Lex.{ltb_list, ltb_list-IsOrder}
use phlare.Tsdb.Index.{LabelPair}
use phlare.Model.Labels.{compare_loop, compare_label_pairs}

abbrev pub ltb_pair : LabelPair → LabelPair → Bool
ltb_pair x y =
    if ltb_bytes x.name y.name
    then true
    else if ltb_bytes y.name x.name
    then false
    else ltb_bytes x.value y.value

ltb_pair-IsOrder : IsOrder ltb_pair
ltb_pair-IsOrder =
    let o = ltb_bytes-IsOrder in
    record {
      irreflexive = λ x. ground (arith, o.irreflexive x.name, o.irreflexive x.value);
      transitive = λ x y z h k. ground (
        arith,
        o.transitive x.name y.name z.name,
        o.transitive x.value y.value z.value,
        o.connected x.name y.name,
        o.connected y.name z.name,
        o.transitive z.name x.name y.name,
        o.transitive y.name z.name x.name,
        lt-asym ltb_bytes o x.name y.name,
        lt-asym ltb_bytes o y.name z.name,
        lt-asym ltb_bytes o x.name z.name,
      );
      connected = λ x y h k.
          let names : x.name ≡ y.name = ground (arith, o.connected x.name y.name) in
          let same : ltb_bytes x.name y.name ≡ false = ground arith in
          let same' : ltb_bytes y.name x.name ≡ false = ground arith in
          let values : x.value ≡ y.value =
            o.connected x.value y.value (ground (arith, same, same'))
              (ground (arith, same, same')) in
          ap₂ (λ n v. record { name = n; value = v }) names values;
    }

-- the sign of the loop's result, in both directions
compare_loop_lem :
    (n m : ℕ) (a b : List LabelPair)
    → n + length b ≡ m + length a
    → (ltb_ℤ (compare_loop (sub_ℕ n m) a b) (pos 0) ≡ ltb_list ltb_pair a b)
      × (ltb_ℤ (pos 0) (compare_loop (sub_ℕ n m) a b) ≡ ltb_list ltb_pair b a)
unfolding compare_loop
compare_loop_lem n m [] [] e = (ground arith, ground arith)
compare_loop_lem n m [] (y ∷ b) e = (ground arith, ground arith)
compare_loop_lem n m (x ∷ a) [] e = (ground arith, ground arith)
compare_loop_lem n m (x ∷ a) (y ∷ b) e =
    let rest = compare_loop_lem n m a b (omega arith) in
    let names = lt-asym ltb_bytes ltb_bytes-IsOrder x.name y.name in
    let values = lt-asym ltb_bytes ltb_bytes-IsOrder x.value y.value in
    (ground (arith, rest.0, names, values), ground (arith, rest.1, names, values))

compare_label_pairs_sign :
    (a b : List LabelPair)
    → (ltb_ℤ (compare_label_pairs a b) (pos 0) ≡ ltb_list ltb_pair a b)
      × (ltb_ℤ (pos 0) (compare_label_pairs a b) ≡ ltb_list ltb_pair b a)
unfolding compare_label_pairs
compare_label_pairs_sign a b = compare_loop_lem (length a) (length b) a b (omega arith)

abbrev pub is_less : List LabelPair → List LabelPair → Bool
is_less a b = ltb_ℤ (compare_label_pairs a b) (pos 0)

-- Label sets ordered by whether their comparison is negative form a strict total order:
-- irreflexive, transitive, and two label sets of which neither is less are equal.
pub compare_label_pairs-IsOrder : IsOrder is_less
compare_label_pairs-IsOrder =
    let o = ltb_list-IsOrder ltb_pair ltb_pair-IsOrder in
    let sign = λ (a b : List LabelPair). (compare_label_pairs_sign a b).0 in
    record {
      irreflexive = λ a. sign a a ∙ o.irreflexive a;
      transitive =
          λ a b c h k. sign a c ∙ o.transitive a b c (sym (sign a b) ∙ h) (sym (sign b c) ∙ k);
      connected = λ a b h k. o.connected a b (sym (sign a b) ∙ h) (sym (sign b a) ∙ k);
    }

-- A comparison of label sets is positive exactly if the comparison the other way round is negative.
pub compare_label_pairs_flip :
    (a b : List LabelPair)
    → ltb_ℤ (pos 0) (compare_label_pairs a b) ≡ ltb_ℤ (compare_label_pairs b a) (pos 0)
compare_label_pairs_flip a b =
    (compare_label_pairs_sign a b).1 ∙ sym (compare_label_pairs_sign b a).0
