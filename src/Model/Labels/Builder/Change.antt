-- ===== src/Model/Labels/Builder/Change.antt =====
-- What `Set` and `Del` of a `LabelsBuilder` of pkg/model/labels.go change.
use mathlib.Core.Path.{subst}
use phlare.Base.{
  ◌≡◌, refl, sym, ap, ◌∙◌, Bool, true, false, ◌||◌, ◌&&◌, not, List, [], ◌∷◌, ◌++◌, inl, inr, arith,
  if◌then◌else◌, Bool-cases,
}
use phlare.Base.Order.{Bytes}
use phlare.Base.Map.{eq_bytes, eq_bytes-same, swap, twice}
use phlare.Base.Outcome.{Outcome, ok, failed, panicked, ◌>>=◌}
use phlare.Tsdb.Index.{LabelPair, is_empty}
use phlare.Tsdb.Index.Delete.{is_empty-nil}
use phlare.Model.Labels.Select.{get, is_one_of}
use phlare.Model.Labels.Builder.{
  LabelsBuilder, del_one, del_names, set_in, set_label, has_name, labels_of,
}
use phlare.Model.Labels.Builder.Delete.{IsUnique, without, del_loop_lem}
use phlare.Model.Labels.Builder.Sorted.{eq_bytes_sym, Permutes}
use phlare.Model.Labels.Builder.Get.{look, get-labels_of}

-- a label of the name, in front of the others
has_name-set_in :
    (m n v : Bytes) (add : List LabelPair)
    → has_name m (set_in n v add) ≡ (eq_bytes m n || has_name m add)
has_name-set_in m n v [] = ground (arith, eq_bytes_sym m n)
has_name-set_in m n v (a ∷ add) = elim (Bool-cases (eq_bytes a.name n)) [
  | inl e ↦
      let same = eq_bytes-same a.name n e in
      rw e (ground (arith, eq_bytes_sym m n, ap (λ k. eq_bytes k m) same))
  | inr e ↦ rw e (ground (arith, has_name-set_in m n v add))
]

get-set_in :
    (m n v : Bytes) (add : List LabelPair)
    → get (set_in n v add) m ≡ (if eq_bytes m n then v else get add m)
get-set_in m n v [] = ap (λ t. if t then v else []) (eq_bytes_sym n m)
get-set_in m n v (a ∷ add) = elim (Bool-cases (eq_bytes a.name n)) [
  | inl e ↦
      let same = eq_bytes-same a.name n e in
      let named : eq_bytes a.name m ≡ eq_bytes m n =
        ap (λ k. eq_bytes k m) same ∙ eq_bytes_sym n m in
      rw (e, named) (twice (eq_bytes m n) v a.value (get add m))
  | inr e ↦ rw e (
      ap (λ r. if eq_bytes a.name m then a.value else r) (get-set_in m n v add)
      ∙ swap (eq_bytes a.name m) (eq_bytes m n) a.value v (get add m)
          (λ h. subst (λ k. eq_bytes k n ≡ false) (eq_bytes-same a.name m h) e))
]

set_in-IsUnique : (n v : Bytes) (add : List LabelPair) → IsUnique add → IsUnique (set_in n v add)
set_in-IsUnique n v [] u = (refl, tt)
set_in-IsUnique n v (a ∷ add) u = elim (Bool-cases (eq_bytes a.name n)) [
  | inl e ↦ rw e u
  | inr e ↦ rw e (has_name-set_in a.name n v add ∙ ground (arith, u.0), set_in-IsUnique n v add u.1)
]

has_name-without :
    (m n : Bytes) (add : List LabelPair)
    → IsUnique add
    → has_name m (without n add) ≡ (has_name m add && not (eq_bytes m n))
has_name-without m n [] u = refl
has_name-without m n (a ∷ add) u = elim (Bool-cases (eq_bytes a.name n)) [
  | inl e ↦
      let same = eq_bytes-same a.name n e in
      elim (Bool-cases (eq_bytes m n)) [
        | inl f ↦
            let out : has_name m add ≡ false =
              ap (λ k. has_name k add) (eq_bytes-same m n f ∙ sym same) ∙ u.0 in
            rw (e, f) (ground (arith, out))
        | inr f ↦
            let other : eq_bytes a.name m ≡ false =
              ap (λ k. eq_bytes k m) same ∙ eq_bytes_sym n m ∙ f in
            rw (e, f) (ground (arith, other))
      ]
  | inr e ↦ rw e (
      keep (eq_bytes a.name m) (has_name m add) (eq_bytes m n) (has_name m (without n add))
        (has_name-without m n add u.1)
        (λ h. subst (λ k. eq_bytes k n ≡ false) (eq_bytes-same a.name m h) e))
]
  where
    keep :
        (p q r t : Bool)
        → t ≡ (q && not r)
        → (p ≡ true → r ≡ false)
        → (p || t) ≡ ((p || q) && not r)
    keep p q r t h k = ground (arith, h, k)

get-without :
    (m n : Bytes) (add : List LabelPair) → eq_bytes m n ≡ false → get (without n add) m ≡ get add m
get-without m n [] h = refl
get-without m n (a ∷ add) h = elim (Bool-cases (eq_bytes a.name n)) [
  | inl e ↦
      let other : eq_bytes a.name m ≡ false =
        ap (λ k. eq_bytes k m) (eq_bytes-same a.name n e) ∙ eq_bytes_sym n m ∙ h in
      rw (e, other) refl
  | inr e ↦ rw e (ap (λ r. if eq_bytes a.name m then a.value else r) (get-without m n add h))
]

without-IsUnique : (n : Bytes) (add : List LabelPair) → IsUnique add → IsUnique (without n add)
without-IsUnique n [] u = tt
without-IsUnique n (a ∷ add) u = elim (Bool-cases (eq_bytes a.name n)) [
  | inl e ↦ rw e u.1
  | inr e ↦
      rw e (has_name-without a.name n add u.1 ∙ ground (arith, u.0), without-IsUnique n add u.1)
]

is_one_of-append :
    (m n : Bytes) (ns : List Bytes) → is_one_of m (ns ++ n ∷ []) ≡ (is_one_of m ns || eq_bytes m n)
is_one_of-append m n [] = ground arith
is_one_of-append m n (k ∷ ns) = ground (arith, is_one_of-append m n ns)

-- what a builder is after `Del` of a name
abbrev deleted : Bytes → LabelsBuilder → LabelsBuilder
deleted n b = record { base = b.base; del = b.del ++ n ∷ []; add = without n b.add }

del_one_lem : (n : Bytes) (b : LabelsBuilder) → IsUnique b.add → del_one n b ≡ ok (deleted n b)
unfolding del_one
del_one_lem n b u = rw (del_loop_lem n b.add u) refl

look-deleted :
    (m n : Bytes) (b : LabelsBuilder)
    → IsUnique b.add
    → look (deleted n b) m ≡ (if eq_bytes m n then [] else look b m)
look-deleted m n b u = elim (Bool-cases (eq_bytes m n)) [
  | inl e ↦
      let gone : has_name m (without n b.add) ≡ false =
        has_name-without m n b.add u ∙ ground (arith, e) in
      let listed : is_one_of m (b.del ++ n ∷ []) ≡ true =
        is_one_of-append m n b.del ∙ ground (arith, e) in
      rw (e, gone, listed) refl
  | inr e ↦
      let there : has_name m (without n b.add) ≡ has_name m b.add =
        has_name-without m n b.add u ∙ ground (arith, e) in
      let listed : is_one_of m (b.del ++ n ∷ []) ≡ is_one_of m b.del =
        is_one_of-append m n b.del ∙ ground (arith, e) in
      rw (e, there, listed, get-without m n b.add e) refl
]

look-set :
    (m n v : Bytes) (b : LabelsBuilder)
    → look (record { base = b.base; del = b.del; add = set_in n v b.add }) m
      ≡ (if eq_bytes m n then v else look b m)
look-set m n v b = elim (Bool-cases (eq_bytes m n)) [
  | inl e ↦
      let there : has_name m (set_in n v b.add) ≡ true =
        has_name-set_in m n v b.add ∙ ground (arith, e) in
      let value : get (set_in n v b.add) m ≡ v =
        get-set_in m n v b.add ∙ ap (λ t. if t then v else get b.add m) e in
      rw (e, there, value) refl
  | inr e ↦
      let there : has_name m (set_in n v b.add) ≡ has_name m b.add =
        has_name-set_in m n v b.add ∙ ground (arith, e) in
      let value : get (set_in n v b.add) m ≡ get b.add m =
        get-set_in m n v b.add ∙ ap (λ t. if t then v else get b.add m) e in
      rw (e, there, value) refl
]

bind_ok {ℓ} : {A : Type ℓ} (o : Outcome A) → (o >>= λ a. ok a) ≡ o
bind_ok (ok a) = refl
bind_ok failed = refl
bind_ok panicked = refl

module _ (sort : List LabelPair → List LabelPair) where
  -- A builder is changed as it should be: the names that were set stay unique, and the labels read
  -- as before but for one name.
  abbrev pub Changes : Bytes → Bytes → LabelsBuilder → Outcome LabelsBuilder → Type 0
  Changes n v b after =
      (b' : LabelsBuilder) × (after ≡ ok b')
      × (b'.base ≡ b.base)
      × IsUnique b'.add
      × ((m : Bytes)
          → get (labels_of sort b') m ≡ (if eq_bytes m n then v else get (labels_of sort b) m))

  module _ (permutes : Permutes sort) where
    by_look :
        (n v : Bytes) (b b' : LabelsBuilder)
        → IsUnique b.base
        → IsUnique b.add
        → IsUnique b'.base
        → IsUnique b'.add
        → ((m : Bytes) → look b' m ≡ (if eq_bytes m n then v else look b m))
        → (m : Bytes)
        → get (labels_of sort b') m ≡ (if eq_bytes m n then v else get (labels_of sort b) m)
    by_look n v b b' base add base' add' h m =
        get-labels_of sort b' m permutes base' add'
        ∙ h m
        ∙ ap (λ r. if eq_bytes m n then v else r) (sym (get-labels_of sort b m permutes base add))

    del_one-Changes :
        (n : Bytes) (b : LabelsBuilder)
        → IsUnique b.base
        → IsUnique b.add
        → Changes n [] b (del_one n b)
    del_one-Changes n b base u = (
      deleted n b,
      del_one_lem n b u,
      refl,
      without-IsUnique n b.add u,
      by_look n [] b (deleted n b) base u base (without-IsUnique n b.add u)
          (λ m. look-deleted m n b u),
    )

    -- Where the names of the base are unique, and so are the names that were set, and the sort of
    -- `Labels` puts labels in some order, stable or not, setting a name to a value, the empty one
    -- included, or deleting it succeeds, leaves the base, keeps the names that were set unique, and
    -- changes what the builder's labels read at that name to the value, or to nothing, and at no
    -- other name.
    pub set_label-Changes :
        (n v : Bytes) (b : LabelsBuilder)
        → IsUnique b.base
        → IsUnique b.add
        → Changes n v b (set_label n v b) × Changes n [] b (del_names (n ∷ []) b)
    unfolding set_label del_names
    set_label-Changes n v b base u = (
      elim (Bool-cases (is_empty v)) [
        | inl e ↦
            let none = is_empty-nil v e in
            rw e (subst (λ w. Changes n w b (del_one n b)) none (del_one-Changes n b base u))
        | inr e ↦
            let add = set_in-IsUnique n v b.add u in
            rw e (
              record { base = b.base; del = b.del; add = set_in n v b.add },
              refl,
              refl,
              add,
              by_look n v b (record { base = b.base; del = b.del; add = set_in n v b.add }) base u
                  base add (λ m. look-set m n v b),
            )
      ],
      subst (Changes n [] b) (sym (bind_ok (del_one n b))) (del_one-Changes n b base u),
    )
