-- ===== src/Querier/SelectMerge/Collect.antt =====
-- What the loop that pops the duplicates does to the heap.
use mathlib.Core.Path.{subst}
use mathlib.Core.List.Permᴰ
use mathlib.Core.List.{Permᴰ}
use phlare.Base.{
  ℕ, zero, suc, ◌≤◌, ◌≡◌, refl, sym, ap, ◌∙◌, true, false, not, List, [], ◌∷◌, ◌++◌, inl, inr,
  arith, length, Bool-cases, ++-assoc,
}
use phlare.Base.Order.{not_below_trans, equal, equal-same, lt-asym}
use phlare.Querier.SelectMerge.{Profile, MergeIterator, less, pop_least, collect, differs}
use phlare.Querier.SelectMerge.Order.{less-IsOrder, differs-equal}
use phlare.Querier.SelectMerge.Heap.{Above, NotBelow, AreAt, All-perm}

NotBelow-weaken :
    (x y : Profile) (h : List MergeIterator) → less y x ≡ false → NotBelow y h → NotBelow x h
NotBelow-weaken x y [] e a = tt
NotBelow-weaken x y (c ∷ h) e a =
    (not_below_trans less less-IsOrder x y c.current e a.0, NotBelow-weaken x y h e a.1)

-- `Pop` takes one iterator from the heap, and none of the others is below it.
pop_least-perm :
    (c : MergeIterator) (h : List MergeIterator)
    → Permᴰ ((pop_least c h).0 ∷ (pop_least c h).1) (c ∷ h)
pop_least-perm c [] = Permᴰ.refl _
pop_least-perm c (d ∷ h) = elim (Bool-cases (less (pop_least d h).0.current c.current)) [
  | inl e ↦ rw e (Permᴰ.trans (Permᴰ.swap refl refl) (Permᴰ.cons refl (pop_least-perm d h)))
  | inr e ↦ rw e (Permᴰ.refl (c ∷ d ∷ h))
]

pop_least-NotBelow :
    (c : MergeIterator) (h : List MergeIterator)
    → NotBelow (pop_least c h).0.current (pop_least c h).1
pop_least-NotBelow c [] = tt
pop_least-NotBelow c (d ∷ h) =
    let least = (pop_least d h).0 in
    elim (Bool-cases (less least.current c.current)) [
      | inl e ↦ rw e ((lt-asym less less-IsOrder least.current c.current e, pop_least-NotBelow d h))
      | inr e ↦ rw e (
          All-perm (λ x. less x.current c.current ≡ false) (pop_least-perm d h)
            (e, NotBelow-weaken c.current least.current _ e (pop_least-NotBelow d h)))
    ]

length-pop_least :
    (c : MergeIterator) (h : List MergeIterator) → length (pop_least c h).1 ≡ length h
length-pop_least c [] = refl
length-pop_least c (d ∷ h) = elim (Bool-cases (less (pop_least d h).0.current c.current)) [
  | inl e ↦ rw e (ap suc (length-pop_least d h))
  | inr e ↦ rw e refl
]

-- what is left and what is popped, where all that is popped is at one profile
record IsCollected (m : Profile) (others tuples h t : List MergeIterator) : Type 0 where
  perm : Permᴰ (tuples ++ others) (t ++ h)
  at : AreAt m tuples
  above : Above m others

less_of :
    (m x c : Profile)
    → less x m ≡ false
    → equal less m x ≡ false
    → less c x ≡ false
    → less m c ≡ true
less_of m x c e d a = elim (Bool-cases (less m c)) [
  | inl h ↦ h
  | inr h ↦
      let same : m ≡ c =
        less-IsOrder.connected m c h (not_below_trans less less-IsOrder m x c e a) in
      absurd (by_tests (subst (λ p. less p x ≡ false) (sym same) a) e d)
]
  where
    by_tests : less m x ≡ false → less x m ≡ false → equal less m x ≡ false → ⊥
    by_tests h e d = ground arith

above_of :
    (m x : Profile) (h : List MergeIterator)
    → less x m ≡ false
    → equal less m x ≡ false
    → NotBelow x h
    → Above m h
above_of m x [] e d a = tt
above_of m x (c ∷ h) e d a = (less_of m x c.current e d a.0, above_of m x h e d a.1)

AreAt-snoc :
    (m : Profile) (ts : List MergeIterator) (x : MergeIterator)
    → AreAt m ts
    → x.current ≡ m
    → AreAt m (ts ++ x ∷ [])
AreAt-snoc m [] x at e = (e, tt)
AreAt-snoc m (t ∷ ts) x at e = (at.0, AreAt-snoc m ts x at.1 e)

-- the popped iterator behind the tuples
moved :
    (c : MergeIterator) (h ts : List MergeIterator)
    → Permᴰ ((ts ++ (pop_least c h).0 ∷ []) ++ (pop_least c h).1) (ts ++ (c ∷ h))
moved c h ts =
    subst (λ l. Permᴰ l (ts ++ (c ∷ h)))
      (sym (++-assoc ts ((pop_least c h).0 ∷ []) (pop_least c h).1))
      (Permᴰ.append_left ts (pop_least-perm c h))

collect-Collected :
    (fuel : ℕ) (h : List MergeIterator) (t : MergeIterator) (ts : List MergeIterator) (m : Profile)
    → length h ≤ fuel
    → AreAt m (t ∷ ts)
    → NotBelow m h
    → (others : List MergeIterator) × (tuples : List MergeIterator) × (collect fuel h (t ∷ ts)
        ≡ (others, t ∷ tuples))
      × IsCollected m others (t ∷ tuples) h (t ∷ ts)
unfolding collect
collect-Collected zero [] t ts m l at a =
    ([], ts, refl, record { perm = Permᴰ.refl _; at = at; above = tt })
collect-Collected zero (c ∷ h) t ts m l at a = absurd (omega arith)
collect-Collected (suc fuel) [] t ts m l at a =
    ([], ts, refl, record { perm = Permᴰ.refl _; at = at; above = tt })
collect-Collected (suc fuel) (c ∷ h) t ts m l at a =
    let x = (pop_least c h).0 in
    let rest = (pop_least c h).1 in
    let test : differs t.current x.current ≡ not (equal less m x.current) =
      differs-equal t.current x.current ∙ ap (λ p. not (equal less p x.current)) at.0 in
    let not_below : less x.current m ≡ false =
      (All-perm (λ y. less y.current m ≡ false) (Permᴰ.symm (pop_least-perm c h)) a).0 in
    elim (Bool-cases (equal less m x.current)) [
      | inl e ↦
          let same : m ≡ x.current = equal-same less less-IsOrder m x.current e in
          let (others, tuples, eq, collected) =
            collect-Collected fuel rest t (ts ++ x ∷ []) m (shorter (length-pop_least c h) l)
              (at.0, AreAt-snoc m ts x at.1 (sym same))
              (subst (λ p. NotBelow p rest) (sym same) (pop_least-NotBelow c h)) in
          (
            others,
            tuples,
            rw (test ∙ ap not e) eq,
            record {
              perm = Permᴰ.trans collected.perm (Permᴰ.cons refl (moved c h ts));
              at = collected.at;
              above = collected.above;
            },
          )
      | inr e ↦ (
        c ∷ h,
        ts,
        rw (test ∙ ap not e) refl,
        record {
          perm = Permᴰ.refl _;
          at = at;
          above =
              All-perm (λ y. less m y.current ≡ true) (pop_least-perm c h)
                (above_of m x.current (x ∷ rest) not_below e
                  (less-IsOrder.irreflexive x.current, pop_least-NotBelow c h));
        },
      )
    ]
  where
    shorter : {r h fuel : ℕ} → r ≡ h → suc h ≤ suc fuel → r ≤ fuel
    shorter e h = omega arith

-- from a heap that is not empty
pub collect-first :
    (c : MergeIterator) (h : List MergeIterator)
    → (t : MergeIterator) × (others : List MergeIterator) × (ts : List MergeIterator) × (collect
          (length (c ∷ h))
          (c ∷ h)
          []
        ≡ (others, t ∷ ts))
      × (Permᴰ ((t ∷ ts) ++ others) (c ∷ h))
      × AreAt t.current (t ∷ ts)
      × Above t.current others
unfolding collect
collect-first c h =
    let x = (pop_least c h).0 in
    let (others, ts, e, r) =
      collect-Collected (length h) (pop_least c h).1 x [] x.current (at_most (length-pop_least c h))
        (refl, tt) (pop_least-NotBelow c h) in
    (x, others, ts, e, Permᴰ.trans r.perm (pop_least-perm c h), r.at, r.above)
  where
    at_most : {a b : ℕ} → a ≡ b → a ≤ b
    at_most e = omega arith
