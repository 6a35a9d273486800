-- ===== src/Model/Labels/Tests.antt =====
-- Comparisons of concrete label sets, and changes to them.
use mathlib.Core.List.{Permᴰ}
use mathlib.Core.List.Permᴰ
use phlare.Base.{◌≡◌, refl, List, [], ◌∷◌, if◌then◌else◌, Bool-cases, inl, inr}
use phlare.Base.Order.{ltb_bytes}
use phlare.Model.Labels.Builder.Sorted.{Permutes}
use phlare.Base.Int.{negsuc}
use phlare.Tsdb.Index.{LabelPair}
use phlare.Model.Labels.{compare_label_pairs}
use phlare.Model.Labels.Builder.{LabelsBuilder, reset, labels_of, set_label, del_names}
use phlare.Model.Labels.Builder.Change.{Changes, set_label-Changes}

abbrev short : List LabelPair
short = record { name = 97 ∷ []; value = 98 ∷ [] } ∷ []

abbrev long : List LabelPair
long = record { name = 97 ∷ []; value = 98 ∷ [] } ∷ record { name = 98 ∷ []; value = [] } ∷ []

-- the code itself, run
compare_run : compare_label_pairs short long ≡ negsuc 0
unfolding compare_label_pairs
compare_run = refl

abbrev builder : LabelsBuilder
builder = record {
  base = short;
  del = [];
  add =
      record { name = 99 ∷ []; value = 49 ∷ [] } ∷ record { name = 100 ∷ []; value = 50 ∷ [] } ∷ [];
}

-- a sort by insertion
abbrev insert_label : LabelPair → List LabelPair → List LabelPair
insert_label x [] = x ∷ []
insert_label x (y ∷ ys) = if ltb_bytes y.name x.name then y ∷ insert_label x ys else x ∷ y ∷ ys

abbrev sort_labels : List LabelPair → List LabelPair
sort_labels [] = []
sort_labels (x ∷ xs) = insert_label x (sort_labels xs)

insert_label-perm : (x : LabelPair) (xs : List LabelPair) → Permᴰ (x ∷ xs) (insert_label x xs)
insert_label-perm x [] = Permᴰ.refl (x ∷ [])
insert_label-perm x (y ∷ ys) = elim (Bool-cases (ltb_bytes y.name x.name)) [
  | inl e ↦ rw e (Permᴰ.trans (Permᴰ.swap refl refl) (Permᴰ.cons refl (insert_label-perm x ys)))
  | inr e ↦ rw e (Permᴰ.refl (x ∷ y ∷ ys))
]

sort_labels-Permutes : Permutes sort_labels
sort_labels-Permutes [] = Permᴰ.nil
sort_labels-Permutes (x ∷ xs) =
    Permᴰ.trans (Permᴰ.cons refl (sort_labels-Permutes xs)) (insert_label-perm x (sort_labels xs))

set_label-Changes_example :
    Changes sort_labels (99 ∷ []) [] builder (set_label (99 ∷ []) [] builder)
    × Changes sort_labels (99 ∷ []) [] builder (del_names ((99 ∷ []) ∷ []) builder)
set_label-Changes_example =
    set_label-Changes sort_labels sort_labels-Permutes (99 ∷ []) [] builder (refl, tt)
      (refl, (refl, tt))

-- a builder without changes
del_run : labels_of sort_labels (reset short builder) ≡ short
unfolding labels_of
del_run = refl
