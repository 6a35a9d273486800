-- ===== src/Model/Labels/Builder/Sorted.antt =====
-- Labels of distinct names, in any order: what `Labels` of a `LabelsBuilder` sorts.
use mathlib.Core.Path.{ap₂, subst}
use mathlib.Core.List.{Permᴰ}
use phlare.Base.{
  ◌≡◌, refl, sym, ap, ◌∙◌, Bool, true, false, ◌||◌, List, [], ◌∷◌, ◌++◌, inl, inr, arith,
  if◌then◌else◌, Bool-cases,
}
use phlare.Base.Order.{Bytes}
use phlare.Base.Map.{eq_bytes, eq_bytes-same, swap}
use phlare.Tsdb.Index.{LabelPair}
use phlare.Model.Labels.Select.{get, is_one_of}
use phlare.Model.Labels.Builder.{has_name, is_added, retained}
use phlare.Model.Labels.Builder.Delete.{IsUnique}

pub eq_bytes_sym : (a b : Bytes) → eq_bytes a b ≡ eq_bytes b a
eq_bytes_sym a b = ground arith

pub is_added-has_name : (l : LabelPair) (xs : List LabelPair) → is_added l xs ≡ has_name l.name xs
is_added-has_name l [] = refl
is_added-has_name l (x ∷ xs) = ground (arith, eq_bytes_sym l.name x.name, is_added-has_name l xs)

-- A sort may put labels in any order.
abbrev pub Permutes : (List LabelPair → List LabelPair) → Type 0
Permutes sort = (xs : List LabelPair) → Permᴰ xs (sort xs)

has_name-perm : (n : Bytes) {xs ys : List LabelPair} → Permᴰ xs ys → has_name n xs ≡ has_name n ys
has_name-perm n Permᴰ.nil = refl
has_name-perm n (Permᴰ.cons e d) =
    ap₂ (λ (l : LabelPair) b. eq_bytes l.name n || b) e (has_name-perm n d)
has_name-perm n (Permᴰ.swap {l = l} e e') = rw e (rw e' (by_tests _ _ (has_name n l)))
  where
    by_tests : (a b c : Bool) → (a || (b || c)) ≡ (b || (a || c))
    by_tests a b c = ground arith
has_name-perm n (Permᴰ.trans d d') = has_name-perm n d ∙ has_name-perm n d'

IsUnique-perm : {xs ys : List LabelPair} → Permᴰ xs ys → IsUnique xs → IsUnique ys
IsUnique-perm Permᴰ.nil u = u
IsUnique-perm (Permᴰ.cons {l₁ = xs} e d) u = (
  sym (has_name-perm _ d) ∙ ap (λ (l : LabelPair). has_name l.name xs) (sym e) ∙ u.0,
  IsUnique-perm d u.1,
)
IsUnique-perm (Permᴰ.swap {a = a} {b = b} {b' = b'} {l = l} e e') u =
    subst (λ x. IsUnique (x ∷ b' ∷ l)) e'
      (subst (λ y. IsUnique (b ∷ y ∷ l)) e
        (ground (arith, u.0, u.1.0, eq_bytes_sym a.name b.name), (ground (arith, u.0), u.1.1)))
IsUnique-perm (Permᴰ.trans d d') u = IsUnique-perm d' (IsUnique-perm d u)

-- The order of labels of distinct names does not matter to a reader.
pub get-perm :
    (n : Bytes) {xs ys : List LabelPair} → Permᴰ xs ys → IsUnique xs → get xs n ≡ get ys n
get-perm n Permᴰ.nil u = refl
get-perm n (Permᴰ.cons e d) u =
    ap₂ (λ (l : LabelPair) r. if eq_bytes l.name n then l.value else r) e (get-perm n d u.1)
get-perm n (Permᴰ.swap {a = a} {b = b} {l = l} e e') u =
    swap (eq_bytes a.name n) (eq_bytes b.name n) a.value b.value (get l n) apart
    ∙ ap₂
        (λ (x y : LabelPair).
          if eq_bytes x.name n then x.value else if eq_bytes y.name n then y.value else get l n)
        e' e
  where
    apart : eq_bytes a.name n ≡ true → eq_bytes b.name n ≡ false
    apart h =
        subst (λ m. eq_bytes b.name m ≡ false) (eq_bytes-same a.name n h) (ground (arith, u.0))
get-perm n (Permᴰ.trans d d') u = get-perm n d u ∙ get-perm n d' (IsUnique-perm d u)

has_name-append :
    (n : Bytes) (xs ys : List LabelPair) → has_name n (xs ++ ys) ≡ (has_name n xs || has_name n ys)
has_name-append n [] ys = refl
has_name-append n (x ∷ xs) ys = ground (arith, has_name-append n xs ys)

has_name-retained :
    (n : Bytes) (ns : List Bytes) (added base : List LabelPair)
    → has_name n base ≡ false
    → has_name n (retained ns added base) ≡ false
has_name-retained n ns added [] h = refl
has_name-retained n ns added (l ∷ base) h = ground (arith, h, has_name-retained n ns added base)

-- `Labels` sorts labels of distinct names.
pub retained-IsUnique :
    (ns : List Bytes) (added base : List LabelPair)
    → IsUnique base
    → IsUnique added
    → IsUnique (retained ns added base ++ added)
retained-IsUnique ns added [] u v = v
retained-IsUnique ns added (l ∷ base) u v =
    let rest = retained-IsUnique ns added base u.1 v in
    elim (Bool-cases (is_one_of l.name ns)) [
      | inl d ↦ rw d rest
      | inr d ↦ elim (Bool-cases (is_added l added)) [
        | inl a ↦ rw (d, a) rest
        | inr a ↦
            let out = sym (is_added-has_name l added) ∙ a in
            let kept = has_name-retained l.name ns added base u.0 in
            rw (d, a)
              (
                has_name-append l.name (retained ns added base) added ∙ ground (arith, out, kept),
                rest,
              )
      ]
    ]
