-- ===== src/Querier/SelectMerge/Requeue.antt =====
-- What `requeueAsync` pushes to the heap.
use mathlib.Core.Path.{subst}
use phlare.Base.{
  ◌+◌, ◌≡◌, refl, sym, ap, ◌∙◌, Bool, true, false, ◌||◌, List, [], ◌∷◌, arith, length, All,
}
use phlare.Base.Order.{equal, contains, IsStrict, IsAbove}
use phlare.Querier.SelectMerge.{
  Profile, Stream, MergeIterator, less, next_of, push_some, requeued, streams_of, any_fails, sent,
}
use phlare.Querier.SelectMerge.Heap.{weight, occurs, AreStrict, Above, AreAt}

-- whether a stream sends a profile
abbrev pub sent_by : Profile → List Stream → Bool
sent_by k [] = false
sent_by k (s ∷ its) = contains less k s.ahead || sent_by k its

abbrev pub IsFine : MergeIterator → Type 0
IsFine c = c.stream.fails ≡ false

weight-push_some :
    (s : Stream) (ahead : List Profile) (h : List MergeIterator)
    → weight (push_some (next_of s ahead) h) ≡ length ahead + weight h
unfolding weight
weight-push_some s [] h = omega arith
weight-push_some s (p ∷ ahead) h = refl

occurs-push_some :
    (k : Profile) (s : Stream) (ahead : List Profile) (h : List MergeIterator)
    → occurs k (push_some (next_of s ahead) h) ≡ (contains less k ahead || occurs k h)
unfolding occurs
occurs-push_some k s [] h = refl
occurs-push_some k s (p ∷ ahead) h = refl

pub weight-requeued : (its : List Stream) → weight (requeued its) ≡ sent its
unfolding weight
weight-requeued [] = refl
weight-requeued (s ∷ its) =
    weight-push_some s s.ahead (requeued its) ∙ ap (λ n. length s.ahead + n) (weight-requeued its)

pub occurs-requeued : (k : Profile) (its : List Stream) → occurs k (requeued its) ≡ sent_by k its
unfolding occurs
occurs-requeued k [] = refl
occurs-requeued k (s ∷ its) =
    occurs-push_some k s s.ahead (requeued its)
    ∙ ap (λ b. contains less k s.ahead || b) (occurs-requeued k its)

AreStrict-push_some :
    (s : Stream) (ahead : List Profile) (h : List MergeIterator)
    → IsStrict less ahead
    → AreStrict h
    → AreStrict (push_some (next_of s ahead) h)
AreStrict-push_some s [] h a b = b
AreStrict-push_some s (p ∷ ahead) h a b = (a, b)

pub AreStrict-requeued :
    (its : List Stream) → All (λ s. IsStrict less s.ahead) its → AreStrict (requeued its)
AreStrict-requeued [] a = tt
AreStrict-requeued (s ∷ its) a =
    AreStrict-push_some s s.ahead (requeued its) a.0 (AreStrict-requeued its a.1)

AreFine-push_some :
    (s : Stream) (ahead : List Profile) (h : List MergeIterator)
    → s.fails ≡ false
    → All IsFine h
    → All IsFine (push_some (next_of s ahead) h)
AreFine-push_some s [] h a b = b
AreFine-push_some s (p ∷ ahead) h a b = (a, b)

pub AreFine-requeued :
    (its : List Stream) → All (λ s. s.fails ≡ false) its → All IsFine (requeued its)
AreFine-requeued [] a = tt
AreFine-requeued (s ∷ its) a =
    AreFine-push_some s s.ahead (requeued its) a.0 (AreFine-requeued its a.1)

pub any_fails-fine : (its : List Stream) → All (λ s. s.fails ≡ false) its → any_fails its ≡ false
any_fails-fine [] a = refl
any_fails-fine (s ∷ its) a = let e = a.0 in let i = any_fails-fine its a.1 in ground (arith, e, i)

Above-push_some :
    (m : Profile) (s : Stream) (ahead : List Profile) (h : List MergeIterator)
    → IsAbove less m ahead
    → Above m h
    → Above m (push_some (next_of s ahead) h)
Above-push_some m s [] h a b = b
Above-push_some m s (p ∷ ahead) h a b = (a.0, b)

-- The iterators at a profile, which go on:
-- what they come to next is above it.
pub Above-requeued :
    (m : Profile) (ts : List MergeIterator)
    → AreStrict ts
    → AreAt m ts
    → Above m (requeued (streams_of ts))
Above-requeued m [] a at = tt
Above-requeued m (t ∷ ts) a at =
    Above-push_some m t.stream t.stream.ahead (requeued (streams_of ts))
      (subst (λ p. IsAbove less p t.stream.ahead) at.0 a.0.0) (Above-requeued m ts a.1 at.1)

-- What they give is the profile, and what they give next.
pub occurs-streams :
    (k m : Profile) (ts : List MergeIterator)
    → AreAt m ts
    → (equal less k m || occurs k ts) ≡ (equal less k m || occurs k (requeued (streams_of ts)))
unfolding occurs
occurs-streams k m [] at = refl
occurs-streams k m (t ∷ ts) at =
    ap (λ p. equal less k m || ((equal less k p || contains less k t.stream.ahead) || occurs k ts))
      at.0
    ∙ by_tests _ _ _ _ _ (occurs-streams k m ts at.1)
        (occurs-push_some k t.stream t.stream.ahead (requeued (streams_of ts)))
  where
    by_tests :
        (e c o r q : Bool) → (e || o) ≡ (e || r) → q ≡ (c || r) → (e || ((e || c) || o)) ≡ (e || q)
    by_tests true c o r q h i = refl
    by_tests false c o r q h i = ap (λ b. c || b) h ∙ sym i

pub weight-streams :
    (ts : List MergeIterator) → weight ts ≡ length ts + weight (requeued (streams_of ts))
unfolding weight
weight-streams [] = refl
weight-streams (t ∷ ts) =
    let i = weight-streams ts in
    let j = weight-push_some t.stream t.stream.ahead (requeued (streams_of ts)) in omega arith

pub streams-AreStrict :
    (ts : List MergeIterator) → AreStrict ts → All (λ s. IsStrict less s.ahead) (streams_of ts)
streams-AreStrict [] a = tt
streams-AreStrict (t ∷ ts) a = (a.0.1, streams-AreStrict ts a.1)

pub streams-AreFine :
    (ts : List MergeIterator) → All IsFine ts → All (λ s. s.fails ≡ false) (streams_of ts)
streams-AreFine [] a = tt
streams-AreFine (t ∷ ts) a = (a.0, streams-AreFine ts a.1)
