-- ===== src/Model/Labels/Builder.antt =====
-- `LabelsBuilder` of pkg/model/labels.go.
pub mod Delete
pub mod Sorted
pub mod Get
pub mod Change
use phlare.Base.{
  ℕ, zero, suc, ◌-◌, Bool, true, false, ◌||◌, ◌&&◌, not, Option, none, some, List, [], ◌∷◌, ◌++◌,
  leb, if◌then◌else◌, length, take, drop, get_elem?,
}
use phlare.Base.Order.{Bytes}
use phlare.Base.Map.{eq_bytes}
use phlare.Base.Outcome.{Outcome, ok, panicked, ◌>>=◌}
use phlare.Tsdb.Index.{LabelPair, is_empty}
use phlare.Model.Labels.Select.{is_one_of}

pub record LabelsBuilder : Type 0 where
  pub base : List LabelPair
  pub del : List Bytes
  pub add : List LabelPair

-- the names of the labels with an empty value
abbrev pub emptied : List LabelPair → List Bytes
emptied [] = []
emptied (l ∷ ls) = if is_empty l.value then l.name ∷ emptied ls else emptied ls

-- `Reset`
abbrev pub reset : List LabelPair → LabelsBuilder → LabelsBuilder
reset base b = record { base = base; del = emptied base; add = [] }

-- `NewLabelsBuilder`
abbrev pub new_labels_builder : List LabelPair → LabelsBuilder
new_labels_builder base = reset base (record { base = []; del = []; add = [] })

-- `n - 1`, of a positive number
abbrev pub less_one : ℕ → ℕ
less_one zero = zero
less_one (suc n) = n

-- `b.add[:i]` and `b.add[i+1:]` joined in place, where `arr` is the array that the loop ranges over
-- and `cur` the length of `b.add`: what lies past the new length keeps its place.
abbrev pub removed_at : ℕ → ℕ → List LabelPair → List LabelPair
removed_at i cur arr = take i arr ++ drop (suc i) (take cur arr) ++ drop (less_one cur) arr

-- a round of the inner loop of `Del`, given what the next one comes to with and without a removal
abbrev pub del_round :
    Bytes
    → ℕ
    → ℕ
    → Outcome (List LabelPair)
    → Outcome (List LabelPair)
    → Option LabelPair
    → Outcome (List LabelPair)
del_round n i cur onward shorter none = panicked
del_round n i cur onward shorter (some a) =
    if eq_bytes a.name n then (if leb (suc i) cur then shorter else panicked) else onward

-- the inner loop of `Del` at index `i`, with `k` rounds left of those that the range set out with
pub del_loop : Bytes → ℕ → ℕ → ℕ → List LabelPair → Outcome (List LabelPair)
del_loop n zero i cur arr = ok (take cur arr)
del_loop n (suc k) i cur arr =
    let onward = del_loop n k (suc i) cur arr in
    let shorter = del_loop n k (suc i) (less_one cur) (removed_at i cur arr) in
    del_round n i cur onward shorter (get_elem? arr i)

-- `Del` of one name
pub del_one : Bytes → LabelsBuilder → Outcome LabelsBuilder
unfolding del_loop
del_one n b = do
  add ← del_loop n (length b.add) 0 (length b.add) b.add
  ok (record { base = b.base; del = b.del ++ n ∷ []; add = add })

-- `Del`
unfoldable pub del_names : List Bytes → LabelsBuilder → Outcome LabelsBuilder
unfolding del_one
del_names [] b = ok b
del_names (n ∷ ns) b = do b' ← del_one n b; del_names ns b'

-- the loop of `Set` and the append after it
abbrev pub set_in : Bytes → Bytes → List LabelPair → List LabelPair
set_in n v [] = record { name = n; value = v } ∷ []
set_in n v (a ∷ add) =
    if eq_bytes a.name n then record { name = a.name; value = v } ∷ add else a ∷ set_in n v add

-- `Set`
unfoldable pub set_label : Bytes → Bytes → LabelsBuilder → Outcome LabelsBuilder
unfolding del_one
set_label n v b =
    if is_empty v
    then del_one n b
    else ok (record { base = b.base; del = b.del; add = set_in n v b.add })

abbrev pub has_name : Bytes → List LabelPair → Bool
has_name n [] = false
has_name n (l ∷ ls) = eq_bytes l.name n || has_name n ls

-- whether `add` has the name of `l`
abbrev pub is_added : LabelPair → List LabelPair → Bool
is_added l [] = false
is_added l (la ∷ add) = eq_bytes l.name la.name || is_added l add

-- the loop over the base in `Labels`
abbrev pub retained : List Bytes → List LabelPair → List LabelPair → List LabelPair
retained ns added [] = []
retained ns added (l ∷ base) =
    let res = retained ns added base in
    if is_one_of l.name ns then res else if is_added l added then res else l ∷ res

-- `Labels`, by a sort of labels, which need not be stable
unfoldable pub labels_of : (List LabelPair → List LabelPair) → LabelsBuilder → List LabelPair
labels_of sort b =
    if is_empty b.del && is_empty b.add then b.base else sort (retained b.del b.add b.base ++ b.add)
