-- ===== src/Phlaredb/Delta/Store.antt =====
-- Writes to the store of samples, and which samples the map of stack traces points to.
use native.Mathlib.Decide.{ℕ_discrete}
use phlare.Base.{
  ℕ, zero, suc, ◌≤◌, ◌<◌, ◌≡◌, refl, sym, ap, ◌∙◌, Bool, true, false, Option, none, some, List, [],
  ◌∷◌, inl, inr, arith, if◌then◌else◌, length, get_or, set, ltb, Bool-cases,
}
use phlare.Phlaredb.Delta.{
  Sample, no_sample, id_of, value_of, set_value, le_int64, sub_int64, step_heap,
}

get_or-set_same :
    (r : ℕ) (x : Sample) (heap : List Sample)
    → r < length heap
    → get_or (set heap r x) r no_sample ≡ x
get_or-set_same r x [] h = absurd (omega arith)
get_or-set_same zero x (y ∷ heap) h = refl
get_or-set_same (suc r) x (y ∷ heap) h = get_or-set_same r x heap (omega arith)

get_or-set_other :
    (q r : ℕ) (x : Sample) (heap : List Sample)
    → ¬ (q ≡ r)
    → get_or (set heap r x) q no_sample ≡ get_or heap q no_sample
get_or-set_other q r x [] h = refl
get_or-set_other zero zero x (y ∷ heap) h = absurd (h refl)
get_or-set_other zero (suc r) x (y ∷ heap) h = refl
get_or-set_other (suc q) zero x (y ∷ heap) h = refl
get_or-set_other (suc q) (suc r) x (y ∷ heap) h = get_or-set_other q r x heap (λ e. h (ap suc e))

set-out : (r : ℕ) (x : Sample) (heap : List Sample) → length heap ≤ r → set heap r x ≡ heap
set-out r x [] h = refl
set-out zero x (y ∷ heap) h = absurd (omega arith)
set-out (suc r) x (y ∷ heap) h = ap (λ l. y ∷ l) (set-out r x heap (omega arith))

length-set_value : (r v : ℕ) (heap : List Sample) → length (set_value r v heap) ≡ length heap
length-set_value r v heap = go r (record { stacktrace_id = id_of heap r; value = v }) heap
  where
    go : (r : ℕ) (x : Sample) (heap : List Sample) → length (set heap r x) ≡ length heap
    go r x [] = refl
    go zero x (y ∷ heap) = refl
    go (suc r) x (y ∷ heap) = ap suc (go r x heap)

-- A write changes the value of one sample and no identifier.
pub id_of-set_value : (q r v : ℕ) (heap : List Sample) → id_of (set_value r v heap) q ≡ id_of heap q
id_of-set_value q r v heap = elim (ℕ_discrete q r) [
  | no ne ↦
      ap (λ s. s.stacktrace_id)
        (get_or-set_other q r (record { stacktrace_id = id_of heap r; value = v }) heap ne)
  | yes e ↦ elim (Bool-cases (ltb r (length heap))) [
    | inl lt ↦
        ap (id_of (set_value r v heap)) e
        ∙ ap (λ s. s.stacktrace_id)
            (get_or-set_same r (record { stacktrace_id = id_of heap r; value = v }) heap
              (ground arith))
        ∙ ap (id_of heap) (sym e)
    | inr ge ↦
        ap (λ l. id_of l q)
          (set-out r (record { stacktrace_id = id_of heap r; value = v }) heap (ground arith))
  ]
]

pub value_of-set_value_other :
    (q r v : ℕ) (heap : List Sample) → ¬ (q ≡ r) → value_of (set_value r v heap) q ≡ value_of heap q
value_of-set_value_other q r v heap ne =
    ap (λ s. s.value)
      (get_or-set_other q r (record { stacktrace_id = id_of heap r; value = v }) heap ne)

pub value_of-set_value :
    (r v : ℕ) (heap : List Sample) → r < length heap → value_of (set_value r v heap) r ≡ v
value_of-set_value r v heap h =
    ap (λ s. s.value)
      (get_or-set_same r (record { stacktrace_id = id_of heap r; value = v }) heap h)

if-both {ℓ κ} :
    {A : Type ℓ} {B : Type κ} (f : A → B) (b : Bool) (x y : A) (z : B)
    → f x ≡ z
    → f y ≡ z
    → f (if b then x else y) ≡ z
if-both f true x y z h k = h
if-both f false x y z h k = k

pub length-step_heap :
    (heap : List Sample) (n : ℕ) (o : Option ℕ) → length (step_heap heap n o) ≡ length heap
length-step_heap heap n none = refl
length-step_heap heap n (some s) =
    let new_max = value_of heap n in
    let old = value_of heap s in
    let less = set_value n (sub_int64 new_max old) heap in
    if-both length (le_int64 old new_max) (set_value s new_max less) (set_value s new_max heap)
      (length heap)
      (length-set_value s new_max less ∙ length-set_value n (sub_int64 new_max old) heap)
      (length-set_value s new_max heap)

pub id_of-step_heap :
    (q : ℕ) (heap : List Sample) (n : ℕ) (o : Option ℕ)
    → id_of (step_heap heap n o) q ≡ id_of heap q
id_of-step_heap q heap n none = refl
id_of-step_heap q heap n (some s) =
    let new_max = value_of heap n in
    let old = value_of heap s in
    let less = set_value n (sub_int64 new_max old) heap in
    if-both (λ l. id_of l q) (le_int64 old new_max) (set_value s new_max less)
      (set_value s new_max heap) (id_of heap q)
      (id_of-set_value q s new_max less ∙ id_of-set_value q n (sub_int64 new_max old) heap)
      (id_of-set_value q s new_max heap)

pub value_of-step_other :
    (q : ℕ) (heap : List Sample) (n : ℕ) (o : Option ℕ)
    → ¬ (q ≡ n)
    → ¬ (o ≡ some q)
    → value_of (step_heap heap n o) q ≡ value_of heap q
value_of-step_other q heap n none h k = refl
value_of-step_other q heap n (some s) h k =
    let new_max = value_of heap n in
    let old = value_of heap s in
    let less = set_value n (sub_int64 new_max old) heap in
    let ne : ¬ (q ≡ s) = λ e. k (ap some (sym e)) in
    if-both (λ l. value_of l q) (le_int64 old new_max) (set_value s new_max less)
      (set_value s new_max heap) (value_of heap q)
      (value_of-set_value_other q s new_max less ne
        ∙ value_of-set_value_other q n (sub_int64 new_max old) heap h)
      (value_of-set_value_other q s new_max heap ne)

-- What a sample's value becomes: the increase since the maximum, if it is no less.
abbrev pub delta_value : List Sample → Option ℕ → ℕ → ℕ
delta_value heap none v = v
delta_value heap (some s) v =
    if le_int64 (value_of heap s) v then sub_int64 v (value_of heap s) else v

pub value_of-step_new :
    (heap : List Sample) (n : ℕ) (o : Option ℕ)
    → n < length heap
    → ¬ (o ≡ some n)
    → value_of (step_heap heap n o) n ≡ delta_value heap o (value_of heap n)
value_of-step_new heap n none h k = refl
value_of-step_new heap n (some s) h k =
    let new_max = value_of heap n in
    let old = value_of heap s in
    let less = set_value n (sub_int64 new_max old) heap in
    let ne : ¬ (n ≡ s) = λ e. k (ap some (sym e)) in
    elim (Bool-cases (le_int64 old new_max)) [
      | inl e ↦ rw e (
          value_of-set_value_other n s new_max less ne
          ∙ value_of-set_value n (sub_int64 new_max old) heap h)
      | inr e ↦ rw e (value_of-set_value_other n s new_max heap ne)
    ]

pub value_of-step_max :
    (heap : List Sample) (n s : ℕ)
    → s < length heap
    → value_of (step_heap heap n (some s)) s ≡ value_of heap n
value_of-step_max heap n s h =
    let new_max = value_of heap n in
    let old = value_of heap s in
    let less = set_value n (sub_int64 new_max old) heap in
    if-both (λ l. value_of l s) (le_int64 old new_max) (set_value s new_max less)
      (set_value s new_max heap) new_max
      (value_of-set_value s new_max less
        (omega (arith, length-set_value n (sub_int64 new_max old) heap)))
      (value_of-set_value s new_max heap h)
