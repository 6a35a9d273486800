-- ===== src/Model/Labels.antt =====
-- pkg/model/labels.go: label sets, and their order. Names and values are Go strings, as bytes.
pub mod Compare
pub mod Select
pub mod Builder
pub mod Tests
use phlare.Base.{ℕ, Bool, true, false, not, List, [], ◌∷◌, if◌then◌else◌, length}
use phlare.Base.Int.{ℤ, pos, negsuc, sub_ℕ}
use phlare.Base.Order.{ltb_bytes}
use phlare.Base.Map.{eq_bytes}
use phlare.Tsdb.Index.{LabelPair}

-- the loop, at the pairs not yet compared; `rest` is the difference of the lengths
pub compare_loop : ℤ → List LabelPair → List LabelPair → ℤ
compare_loop rest [] b = rest
compare_loop rest (x ∷ a) [] = rest
compare_loop rest (x ∷ a) (y ∷ b) =
    let onward = compare_loop rest a b in
    if not (eq_bytes x.name y.name)
    then (if ltb_bytes x.name y.name then negsuc 0 else pos 1)
    else if not (eq_bytes x.value y.value)
    then (if ltb_bytes x.value y.value then negsuc 0 else pos 1)
    else onward

unfoldable pub compare_label_pairs : List LabelPair → List LabelPair → ℤ
unfolding compare_loop
compare_label_pairs a b = compare_loop (sub_ℕ (length a) (length b)) a b
