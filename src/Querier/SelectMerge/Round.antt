-- ===== src/Querier/SelectMerge/Round.antt =====
-- A round of `skipDuplicates` over a heap.
use mathlib.Core.List.Permᴰ
use mathlib.Core.List.{Permᴰ}
use phlare.Base.{
  ℕ, suc, ◌+◌, ◌<◌, ◌≡◌, refl, sym, ap, ◌∙◌, Bool, true, false, ◌||◌, List, [], ◌∷◌, ◌++◌, arith,
  length, All,
}
use phlare.Base.Order.{equal, contains}
use phlare.Querier.SelectMerge.{Profile, MergeIterator, less, requeued, streams_of, any_fails}
use phlare.Querier.SelectMerge.Heap.{
  weight, occurs, AreStrict, Above, AreAt, All-perm, weight-perm, occurs-perm,
}
use phlare.Querier.SelectMerge.Requeue.{
  IsFine, AreStrict-requeued, AreFine-requeued, any_fails-fine, Above-requeued, occurs-streams,
  weight-streams, streams-AreStrict, streams-AreFine,
}

occurs-append :
    (k : Profile) (xs ys : List MergeIterator) → occurs k (xs ++ ys) ≡ (occurs k xs || occurs k ys)
unfolding occurs
occurs-append k [] ys = refl
occurs-append k (x ∷ xs) ys = rw (occurs-append k xs ys) (by_tests _ (occurs k xs) (occurs k ys))
  where
    by_tests : (a b c : Bool) → (a || (b || c)) ≡ ((a || b) || c)
    by_tests a b c = ground arith

weight-append : (xs ys : List MergeIterator) → weight (xs ++ ys) ≡ weight xs + weight ys
unfolding weight
weight-append [] ys = omega arith
weight-append (x ∷ xs) ys = let i = weight-append xs ys in omega arith

All-append :
    (P : MergeIterator → Type 0) (xs ys : List MergeIterator)
    → All P xs
    → All P ys
    → All P (xs ++ ys)
All-append P [] ys a b = b
All-append P (x ∷ xs) ys a b = (a.0, All-append P xs ys a.1 b)

split-All :
    (P : MergeIterator → Type 0) (xs ys : List MergeIterator)
    → All P (xs ++ ys)
    → All P xs × All P ys
split-All P [] ys a = (tt, a)
split-All P (x ∷ xs) ys a = let (b, c) = split-All P xs ys a.1 in ((a.0, b), c)

occurs-first :
    (k : Profile) (t : MergeIterator) (ts : List MergeIterator)
    → (equal less k t.current || occurs k (t ∷ ts)) ≡ occurs k (t ∷ ts)
unfolding occurs
occurs-first k t ts =
    by_tests (equal less k t.current) (contains less k t.stream.ahead) (occurs k ts)
  where
    by_tests : (e c o : Bool) → (e || ((e || c) || o)) ≡ ((e || c) || o)
    by_tests e c o = ground arith

-- A round over a heap: the tuples, which are at one profile, and the others, which are above it; and
-- the heap after the round, where the tuples have gone on.
pub record IsRound (h next others ts : List MergeIterator) (t : MergeIterator) : Type 0 where
  pub perm : Permᴰ ((t ∷ ts) ++ others) h
  pub at : AreAt t.current (t ∷ ts)
  pub above : Above t.current others
  pub after : Permᴰ (others ++ requeued (streams_of (t ∷ ts))) next

module _ (h next others ts : List MergeIterator) (t : MergeIterator)
    (r : IsRound h next others ts t) where
  round-All :
      (P : MergeIterator → Type 0)
      → All P h
      → (All P (t ∷ ts) → All P (requeued (streams_of (t ∷ ts))))
      → All P next
  round-All P a f =
      let (b, c) = split-All P (t ∷ ts) others (All-perm P (Permᴰ.symm r.perm) a) in
      All-perm P r.after (All-append P others _ c (f b))

  pub round-AreStrict : AreStrict h → AreStrict next
  round-AreStrict a =
      round-All _ a (λ b. AreStrict-requeued (streams_of (t ∷ ts)) (streams-AreStrict (t ∷ ts) b))

  pub round-AreFine : All IsFine h → All IsFine next
  round-AreFine a =
      round-All _ a (λ b. AreFine-requeued (streams_of (t ∷ ts)) (streams-AreFine (t ∷ ts) b))

  pub round-any_fails : All IsFine h → any_fails (streams_of (t ∷ ts)) ≡ false
  round-any_fails a =
      any_fails-fine (streams_of (t ∷ ts)) (
        streams-AreFine (t ∷ ts) (split-All _ (t ∷ ts) others (All-perm _ (Permᴰ.symm r.perm) a)).0)

  pub round-Above : AreStrict h → Above t.current next
  round-Above a = All-perm _ r.after (
      All-append _ others _ r.above (
        Above-requeued t.current (t ∷ ts)
          (split-All _ (t ∷ ts) others (All-perm _ (Permᴰ.symm r.perm) a)).0 r.at))

  pub round-first : (q : Profile) → Above q h → less q t.current ≡ true
  round-first q a = (All-perm _ (Permᴰ.symm r.perm) a).0

  pub round-weight : weight next < weight h
  round-weight =
      let a = weight-perm r.after in
      let b = weight-perm r.perm in
      let c = weight-append others (requeued (streams_of (t ∷ ts))) in
      let d = weight-append (t ∷ ts) others in
      let e = weight-streams (t ∷ ts) in
      lighter (length ts) (weight (t ∷ ts)) (weight others)
        (weight (requeued (streams_of (t ∷ ts)))) (sym a ∙ c) (sym b ∙ d) e
    where
      lighter : {n h : ℕ} (l a o r : ℕ) → n ≡ o + r → h ≡ a + o → a ≡ suc l + r → n < h
      lighter l a o r e f g = omega arith

  pub round-occurs : (k : Profile) → (equal less k t.current || occurs k next) ≡ occurs k h
  round-occurs k =
      ap (λ b. equal less k t.current || b)
        (sym (occurs-perm k r.after) ∙ occurs-append k others (requeued (streams_of (t ∷ ts))))
      ∙ by_tests _ (occurs k others) _ _ (occurs-streams k t.current (t ∷ ts) r.at)
          (occurs-first k t ts)
      ∙ sym (occurs-append k (t ∷ ts) others)
      ∙ occurs-perm k r.perm
    where
      by_tests : (e o q s : Bool) → (e || s) ≡ (e || q) → (e || s) ≡ s → (e || (o || q)) ≡ (s || o)
      by_tests e o q s f g = ground arith
