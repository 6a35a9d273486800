-- ===== src/Querier/SelectMerge/Loop.antt =====
-- What `skipDuplicates` keeps.
use mathlib.Core.List.Permᴰ
use mathlib.Core.List.{Permᴰ}
use phlare.Base.{
  ℕ, zero, suc, ◌<◌, ◌≡◌, refl, sym, ap, ◌∙◌, true, false, ◌||◌, some, List, [], ◌∷◌, ◌++◌, map,
  inl, inr, arith, All, Bool-cases,
}
use phlare.Base.Order.{equal, contains, IsStrict, IsAbove, IsAbove-trans, true-false}
use phlare.Querier.SelectMerge.{
  Profile, Stream, MergeIterator, Kept, Walked, less, requeued, streams_of, any_fails, sent,
  skip_loop, skip_round, skip_duplicates,
}
use phlare.Querier.SelectMerge.Collect.{collect-first}
use phlare.Querier.SelectMerge.Heap.{
  weight, occurs, AreStrict, Above, All-perm, weight-perm, occurs-perm,
}
use phlare.Querier.SelectMerge.Order.{less-IsOrder}
use phlare.Querier.SelectMerge.Requeue.{
  IsFine, sent_by, weight-requeued, occurs-requeued, AreStrict-requeued, AreFine-requeued,
  any_fails-fine,
}
use phlare.Querier.SelectMerge.Round.{
  IsRound, round-AreStrict, round-AreFine, round-any_fails, round-Above, round-first, round-weight,
  round-occurs,
}

abbrev pub kept_profiles : Walked → List Profile
kept_profiles w = map (λ e. e.profile) w.1

-- what a walk from a heap keeps, and when it ends without an error
pub record IsWalk (h : List MergeIterator) (w : Walked) : Type 0 where
  pub strict : IsStrict less (kept_profiles w)
  pub above : (q : Profile) → Above q h → IsAbove less q (kept_profiles w)
  pub complete : w.0 ≡ true → (k : Profile) → contains less k (kept_profiles w) ≡ occurs k h
  pub fine : All IsFine h → w.0 ≡ true

abbrev kept_of : MergeIterator → Kept
kept_of c = record { kept_at = c.stream.ingester_addr; profile = c.current }

module _ (h next others ts : List MergeIterator) (t : MergeIterator)
    (r : IsRound h next others ts t) (strict : AreStrict h) where
  keep-IsWalk : (w : Walked) → IsWalk next w → IsWalk h (w.0, kept_of t ∷ w.1)
  keep-IsWalk w i =
      let rest = i.above t.current (round-Above h next others ts t r strict) in
      record {
        strict = (rest, i.strict);
        above = λ q a.
            let first = round-first h next others ts t r q a in
            (first, IsAbove-trans less less-IsOrder q t.current (kept_profiles w) first rest);
        complete = λ e k.
            ap (λ b. equal less k t.current || b) (i.complete e k)
            ∙ round-occurs h next others ts t r k;
        fine = λ a. i.fine (round-AreFine h next others ts t r a);
      }

  failed-IsWalk : any_fails (streams_of (t ∷ ts)) ≡ true → IsWalk h (false, kept_of t ∷ [])
  failed-IsWalk e = record {
    strict = (tt, tt);
    above = λ q a. (round-first h next others ts t r q a, tt);
    complete = λ e' k. absurd (true-false (sym e'));
    fine = λ a. sym (sym e ∙ round-any_fails h next others ts t r a);
  }

nil-IsWalk : IsWalk [] (true, [])
unfolding occurs
nil-IsWalk = record { strict = tt; above = λ q a. tt; complete = λ e k. refl; fine = λ a. refl }

module _ (arrange : ℕ → List MergeIterator → List MergeIterator)
    (law : (n : ℕ) (h : List MergeIterator) → Permᴰ (arrange n h) h) where
  skip_loop-IsWalk :
      (fuel : ℕ) (h : List MergeIterator)
      → weight h < fuel
      → AreStrict h
      → (w : Walked) × (skip_loop arrange fuel h ≡ some w) × IsWalk h w
  unfolding skip_loop
  skip_loop-IsWalk zero h l strict = absurd (omega arith)
  skip_loop-IsWalk (suc fuel) [] l strict = ((true, []), refl, nil-IsWalk)
  skip_loop-IsWalk (suc fuel) (c ∷ []) l strict =
      let next = requeued (c.stream ∷ []) in
      let r : IsRound (c ∷ []) next [] [] c = record {
        perm = Permᴰ.refl _;
        at = (refl, tt);
        above = tt;
        after = Permᴰ.refl _;
      } in
      let (w, e, i) =
        skip_loop-IsWalk fuel next (lighter (round-weight _ next [] [] c r) l)
          (round-AreStrict _ next [] [] c r strict) in
      ((w.0, kept_of c ∷ w.1), rw e refl, keep-IsWalk _ next [] [] c r strict w i)
    where
      lighter : {n h fuel : ℕ} → n < h → h < suc fuel → n < fuel
      lighter e f = omega arith
  skip_loop-IsWalk (suc fuel) (c ∷ d ∷ h) l strict =
      let (t, others, ts, e, perm, at, above) = collect-first c (d ∷ h) in
      let eis = streams_of (t ∷ ts) in
      let next = arrange fuel (others ++ requeued eis) in
      let r : IsRound (c ∷ d ∷ h) next others ts t = record {
        perm = perm;
        at = at;
        above = above;
        after = Permᴰ.symm (law fuel _);
      } in
      let (w, e', i) =
        skip_loop-IsWalk fuel next (fewer (round-weight _ next others ts t r) l)
          (round-AreStrict _ next others ts t r strict) in
      let round = ap (skip_round (λ h'. skip_loop arrange fuel (arrange fuel h'))) e in
      elim (Bool-cases (any_fails eis)) [
        | inl f ↦ (
          (false, kept_of t ∷ []),
          round ∙ rw f refl,
          failed-IsWalk _ next others ts t r strict f,
        )
        | inr f ↦ (
          (w.0, kept_of t ∷ w.1),
          round ∙ rw f (rw e' refl),
          keep-IsWalk _ next others ts t r strict w i,
        )
      ]
    where
      fewer : {n h fuel : ℕ} → n < h → h < suc fuel → n < fuel
      fewer e f = omega arith

  -- any streams, those that fail included
  skip_duplicates-walks :
      (its : List Stream)
      → All (λ s. IsStrict less s.ahead) its
      → (w : Walked) × (skip_duplicates arrange its ≡ some w)
        × IsStrict less (kept_profiles w)
        × (w.0 ≡ true → (k : Profile) → contains less k (kept_profiles w) ≡ sent_by k its)
        × (All (λ s. s.fails ≡ false) its → w.0 ≡ true)
  unfolding skip_duplicates
  skip_duplicates-walks its strict = elim (Bool-cases (any_fails its)) [
    | inl f ↦ (
      (false, []),
      rw f refl,
      tt,
      (λ e k. absurd (true-false (sym e))),
      (λ a. sym (sym f ∙ any_fails-fine its a)),
    )
    | inr f ↦
        let fuel = suc (suc (sent its)) in
        let next = arrange fuel (requeued its) in
        let (w, e, i) =
          skip_loop-IsWalk fuel next
            (enough (weight-perm (law fuel (requeued its)) ∙ weight-requeued its))
            (All-perm _ (Permᴰ.symm (law fuel _)) (AreStrict-requeued its strict)) in
        (
          w,
          rw f e,
          i.strict,
          (λ e k. i.complete e k ∙ occurs-perm k (law fuel _) ∙ occurs-requeued k its),
          (λ a. i.fine (All-perm _ (Permᴰ.symm (law fuel _)) (AreFine-requeued its a))),
        )
  ]
    where
      enough : {n s : ℕ} → n ≡ s → n < suc (suc s)
      enough e = omega arith

  -- Where the heap is rearranged in any way that keeps its iterators, each stream sends strictly
  -- ascending profiles and none ends by an error, the walk over the streams ends without an error,
  -- and what it keeps is strictly ascending and holds exactly the profiles that a stream sends: one
  -- of each, however many ingesters have it.
  pub skip_duplicates-keeps :
      (its : List Stream)
      → All (λ s. IsStrict less s.ahead) its
      → All (λ s. s.fails ≡ false) its
      → (kept : List Kept) × (skip_duplicates arrange its ≡ some (true, kept))
        × IsStrict less (map (λ e. e.profile) kept)
        × ((k : Profile) → contains less k (map (λ e. e.profile) kept) ≡ sent_by k its)
  skip_duplicates-keeps its strict fine =
      let (w, e, ascending, complete, ends) = skip_duplicates-walks its strict in
      (w.1, e ∙ ap (λ b. some (b, w.1)) (ends fine), ascending, complete (ends fine))
