-- ===== src/Phlaredb/Delta/Loop.antt =====
-- The loop of `deltaSamples` in pkg/phlaredb/delta.go over the new samples.
use mathlib.Core.Path.{subst}
use phlare.Base.{
  ℕ, ◌<◌, ◌≡◌, refl, sym, ap, ◌∙◌, true, Option, none, some, List, [], ◌∷◌, inl, inr, arith, ◌==◌,
  length, elem, All, Bool-cases,
}
use phlare.Phlaredb.Delta.{Sample, id_of, value_of, find_ref, step_heap, step_highest, delta_loop}
use phlare.Phlaredb.Delta.Store.{
  length-step_heap, id_of-step_heap, value_of-step_other, delta_value, value_of-step_new,
  value_of-step_max,
}

eq_of : (p n : ℕ) → (n == p) ≡ true → p ≡ n
eq_of p n h = ground arith

pub elem-All : (P : ℕ → Type 0) (x : ℕ) (xs : List ℕ) → elem x xs ≡ true → All P xs → P x
elem-All P x [] h a = absurd (ground arith)
elem-All P x (y ∷ ys) h a = elim (Bool-cases (x == y)) [
  | inl e ↦ subst P (eq_of y x e) a.0
  | inr e ↦ elem-All P x ys (ground arith) a.1
]

delta_value-same :
    (heap heap' : List Sample) (o : Option ℕ) (v : ℕ)
    → ((s : ℕ) → o ≡ some s → value_of heap' s ≡ value_of heap s)
    → delta_value heap' o v ≡ delta_value heap o v
delta_value-same heap heap' none v h = refl
delta_value-same heap heap' (some s) v h = rw (h s refl) refl

-- the stack traces of the samples differ
abbrev pub HasDistinct : (ℕ → ℕ) → List ℕ → Type 0
HasDistinct ids [] = Unit
HasDistinct ids (n ∷ new) = All (λ p. ¬ (ids p ≡ ids n)) new × HasDistinct ids new

-- `ids` are the stack traces of the samples, which no round changes.
module _ (m : List (ℕ × ℕ)) (ids : ℕ → ℕ) (size : ℕ) where
  abbrev pub HasIds : List Sample → Type 0
  HasIds heap = (length heap ≡ size) × ((q : ℕ) → id_of heap q ≡ ids q)

  step-HasIds :
      (heap : List Sample) (n : ℕ) (o : Option ℕ) → HasIds heap → HasIds (step_heap heap n o)
  step-HasIds heap n o h =
      (length-step_heap heap n o ∙ h.0, λ q. id_of-step_heap q heap n o ∙ h.1 q)

  -- neither a new sample nor the maximum of one
  abbrev pub IsUntouched : ℕ → List ℕ → Type 0
  IsUntouched q = All (λ n. (¬ (q ≡ n)) × (¬ (find_ref (ids n) m ≡ some q)))

  delta_loop-untouched :
      (q : ℕ) (heap : List Sample) (highest new : List ℕ)
      → HasIds heap
      → IsUntouched q new
      → value_of (delta_loop m heap highest new).0 q ≡ value_of heap q
  unfolding delta_loop
  delta_loop-untouched q heap highest [] h u = refl
  delta_loop-untouched q heap highest (n ∷ new) h u =
      let o = find_ref (id_of heap n) m in
      let known : o ≡ find_ref (ids n) m = ap (λ k. find_ref k m) (h.1 n) in
      delta_loop-untouched q (step_heap heap n o) (step_highest highest n o) new
        (step-HasIds heap n o h) u.1
      ∙ value_of-step_other q heap n o u.0.0 (λ e. u.0.1 (sym known ∙ e))

  -- The map points to samples of their stack trace in the store.
  module _ (keyed : (k s : ℕ) → find_ref k m ≡ some s → (ids s ≡ k) × (s < size)) where
    -- a new sample is in the store and none of the maxima
    abbrev pub IsNew : ℕ → Type 0
    IsNew n = (n < size) × ((k : ℕ) → ¬ (find_ref k m ≡ some n))

    new-IsUntouched :
        (n : ℕ) (new : List ℕ) → IsNew n → All (λ p. ¬ (ids p ≡ ids n)) new → IsUntouched n new
    new-IsUntouched n [] f d = tt
    new-IsUntouched n (p ∷ new) f d =
        ((λ e. d.0 (ap ids (sym e)), f.1 (ids p)), new-IsUntouched n new f d.1)

    max-IsUntouched :
        (n s : ℕ) (new : List ℕ)
        → find_ref (ids n) m ≡ some s
        → All IsNew new
        → All (λ p. ¬ (ids p ≡ ids n)) new
        → IsUntouched s new
    max-IsUntouched n s [] e f d = tt
    max-IsUntouched n s (p ∷ new) e f d = (
      (
        λ same. f.0.1 (ids n) (e ∙ ap some same),
        λ other. d.0 (sym ((keyed (ids p) s other).0) ∙ (keyed (ids n) s e).0),
      ),
      max-IsUntouched n s new e f.1 d.1,
    )

    -- the first of the new samples, after all rounds
    first_lem :
        (heap : List Sample) (highest : List ℕ) (n : ℕ) (new : List ℕ)
        → HasIds heap
        → All IsNew (n ∷ new)
        → HasDistinct ids (n ∷ new)
        → (value_of (delta_loop m heap highest (n ∷ new)).0 n
            ≡ delta_value heap (find_ref (ids n) m) (value_of heap n))
          × ((s : ℕ)
              → find_ref (ids n) m ≡ some s
              → value_of (delta_loop m heap highest (n ∷ new)).0 s ≡ value_of heap n)
    unfolding delta_loop
    first_lem heap highest n new h f d =
        let o = find_ref (id_of heap n) m in
        let known : o ≡ find_ref (ids n) m = ap (λ k. find_ref k m) (h.1 n) in
        let onward = λ (q : ℕ) (u : IsUntouched q new).
          delta_loop-untouched q (step_heap heap n o) (step_highest highest n o) new
            (step-HasIds heap n o h) u in
        let size_is : length heap ≡ size = h.0 in
        (
          onward n (new-IsUntouched n new f.0 d.0)
              ∙ value_of-step_new heap n o (omega (arith, f.0.0)) (λ e. f.0.1 (id_of heap n) e)
              ∙ ap (λ p. delta_value heap p (value_of heap n)) known,
          λ s e.
              onward s (max-IsUntouched n s new e f.1 d.0)
              ∙ ap (λ p. value_of (step_heap heap n p) s) (known ∙ e)
              ∙ value_of-step_max heap n s (omega (arith, (keyed (ids n) s e).1)),
        )

    pub delta_loop_lem :
        (heap : List Sample) (highest : List ℕ) (new : List ℕ) (n : ℕ)
        → HasIds heap
        → All IsNew new
        → HasDistinct ids new
        → elem n new ≡ true
        → (value_of (delta_loop m heap highest new).0 n
            ≡ delta_value heap (find_ref (ids n) m) (value_of heap n))
          × ((s : ℕ)
              → find_ref (ids n) m ≡ some s
              → value_of (delta_loop m heap highest new).0 s ≡ value_of heap n)
    unfolding delta_loop
    delta_loop_lem heap highest [] n h f d e = absurd (ground arith)
    delta_loop_lem heap highest (p ∷ new) n h f d e = elim (Bool-cases (n == p)) [
      | inl same ↦
          subst
            (λ q.
              (value_of (delta_loop m heap highest (p ∷ new)).0 q
                ≡ delta_value heap (find_ref (ids q) m) (value_of heap q))
              × ((s : ℕ)
                  → find_ref (ids q) m ≡ some s
                  → value_of (delta_loop m heap highest (p ∷ new)).0 s ≡ value_of heap q))
            (eq_of p n (ground arith)) (first_lem heap highest p new h f d)
      | inr ne ↦
          let inside : elem n new ≡ true = ground arith in
          let here = elem-All IsNew n new inside f.1 in
          let apart = elem-All (λ q. ¬ (ids q ≡ ids p)) n new inside d.0 in
          let o = find_ref (id_of heap p) m in
          let known : o ≡ find_ref (ids p) m = ap (λ k. find_ref k m) (h.1 p) in
          let rest =
            delta_loop_lem (step_heap heap p o) (step_highest highest p o) new n
              (step-HasIds heap p o h) f.1 d.1 inside in
          let kept : value_of (step_heap heap p o) n ≡ value_of heap n =
            value_of-step_other n heap p o (λ k. absurd (ground (arith, k, ne)))
              (λ k. here.1 (id_of heap p) k) in
          let max_kept = λ (s : ℕ) (k : find_ref (ids n) m ≡ some s).
            value_of-step_other s heap p o (λ t. f.0.1 (ids n) (k ∙ ap some t))
              (λ t. apart (sym ((keyed (ids n) s k).0) ∙ (keyed (ids p) s (sym known ∙ t)).0)) in
          (
            rest.0
                ∙ delta_value-same heap (step_heap heap p o) (find_ref (ids n) m)
                    (value_of (step_heap heap p o) n) max_kept
                ∙ ap (delta_value heap (find_ref (ids n) m)) kept,
            λ s k. rest.1 s k ∙ kept,
          )
    ]
