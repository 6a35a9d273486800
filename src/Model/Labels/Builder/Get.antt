-- ===== src/Model/Labels/Builder/Get.antt =====
-- What `Get` reads from the labels of a `LabelsBuilder` of pkg/model/labels.go.
use mathlib.Core.Path.{ap₂}
use phlare.Base.{
  ◌≡◌, refl, sym, ap, ◌∙◌, Bool, true, false, ◌&&◌, List, [], ◌∷◌, ◌++◌, inl, inr, arith,
  if◌then◌else◌, Bool-cases,
}
use phlare.Base.Order.{Bytes}
use phlare.Base.Map.{eq_bytes, eq_bytes-same}
use phlare.Tsdb.Index.{LabelPair, is_empty}
use phlare.Tsdb.Index.Delete.{is_empty-nil}
use phlare.Model.Labels.Select.{get, is_one_of}
use phlare.Model.Labels.Builder.Delete.{IsUnique}
use phlare.Model.Labels.Builder.Sorted.{is_added-has_name, Permutes, get-perm, retained-IsUnique}
use phlare.Model.Labels.Builder.{LabelsBuilder, has_name, is_added, retained, labels_of}

-- the name that is asked for may be replaced by an equal one
same_name {ℓ} : {A : Type ℓ} (f : Bytes → A) (a b : Bytes) → eq_bytes a b ≡ true → f a ≡ f b
same_name f a b e = ap f (eq_bytes-same a b e)

get-absent : (n : Bytes) (xs : List LabelPair) → has_name n xs ≡ false → get xs n ≡ []
get-absent n [] h = refl
get-absent n (x ∷ xs) h = elim (Bool-cases (eq_bytes x.name n)) [
  | inl e ↦ absurd (ground (arith, h, e))
  | inr e ↦ rw e (get-absent n xs (ground (arith, h)))
]

both_nothing : (b : Bool) → ◌≡◌ {A = Bytes} [] (if b then [] else [])
both_nothing true = refl
both_nothing false = refl

-- the base does not matter for a name that was added or deleted
covered :
    (p q : Bool) (u x y : Bytes)
    → (p ≡ false → q ≡ true)
    → (if p then u else if q then [] else x) ≡ (if p then u else if q then [] else y)
covered true q u x y h = refl
covered false q u x y h = rw (h refl) refl

-- what the builder says of a name
abbrev pub look : LabelsBuilder → Bytes → Bytes
look b n = if has_name n b.add then get b.add n else if is_one_of n b.del then [] else get b.base n

get-retained :
    (n : Bytes) (ns : List Bytes) (added base : List LabelPair)
    → get (retained ns added base ++ added) n
      ≡ (if has_name n added then get added n else if is_one_of n ns then [] else get base n)
get-retained n ns added [] = elim (Bool-cases (has_name n added)) [
  | inl e ↦ rw e refl
  | inr e ↦ rw e (get-absent n added e ∙ both_nothing (is_one_of n ns))
]
get-retained n ns added (l ∷ base) =
    let rest = get-retained n ns added base in
    let named = λ (e : eq_bytes l.name n ≡ true). same_name (λ m. is_one_of m ns) l.name n e in
    let has = λ (e : eq_bytes l.name n ≡ true).
      is_added-has_name l added ∙ same_name (λ m. has_name m added) l.name n e in
    elim (Bool-cases (is_one_of l.name ns)) [
      | inl d ↦ elim (Bool-cases (eq_bytes l.name n)) [
        | inl e ↦
            let d' : is_one_of n ns ≡ true = sym (named e) ∙ d in
            rw d (
              rest
              ∙ covered (has_name n added) (is_one_of n ns) (get added n) (get base n)
                  (get (l ∷ base) n) (λ h. d'))
        | inr e ↦ rw (d, e) rest
      ]
      | inr d ↦ elim (Bool-cases (is_added l added)) [
        | inl a ↦ elim (Bool-cases (eq_bytes l.name n)) [
          | inl e ↦
              let a' : has_name n added ≡ true = sym (has e) ∙ a in
              rw (d, a)
                (rest
                  ∙ covered (has_name n added) (is_one_of n ns) (get added n) (get base n)
                      (get (l ∷ base) n) (λ h. absurd (ground (arith, h, a'))))
          | inr e ↦ rw (d, a, e) rest
        ]
        | inr a ↦ elim (Bool-cases (eq_bytes l.name n)) [
          | inl e ↦
              let a' : has_name n added ≡ false = sym (has e) ∙ a in
              let d' : is_one_of n ns ≡ false = sym (named e) ∙ d in rw (d, a, e, a', d') refl
          | inr e ↦ rw (d, a, e) rest
        ]
      ]
    ]

pub get-labels_of :
    (sort : List LabelPair → List LabelPair) (b : LabelsBuilder) (n : Bytes)
    → Permutes sort
    → IsUnique b.base
    → IsUnique b.add
    → get (labels_of sort b) n ≡ look b n
unfolding labels_of
get-labels_of sort b n permutes u v = elim (Bool-cases (is_empty b.del && is_empty b.add)) [
  | inr e ↦ rw e (
      sym (
        get-perm n (permutes (retained b.del b.add b.base ++ b.add))
          (retained-IsUnique b.del b.add b.base u v))
      ∙ get-retained n b.del b.add b.base)
  | inl e ↦
      let no_del = is_empty-nil b.del (ground arith) in
      let no_add = is_empty-nil b.add (ground arith) in
      rw e (
        ap₂
          (λ (ns : List Bytes) (add : List LabelPair).
            if has_name n add then get add n else if is_one_of n ns then [] else get b.base n)
          no_del no_add)
]
