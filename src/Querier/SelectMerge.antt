-- ===== src/Querier/SelectMerge.antt =====
-- pkg/querier/select_merge.go: `skipDuplicates`, which walks the profiles that several ingesters
-- stream, and keeps one of those that are the same. An iterator is the profiles that its stream still
-- sends, and whether it ends by an error. `Keep` on an iterator is an entry of a log. The heap is the
-- slice of its iterators: where equal ones stand, and in which order the goroutines push, is the
-- parameter `arrange`, one order for each number of rounds that are left.
pub mod Heap
pub mod Collect
pub mod Order
pub mod Requeue
pub mod Round
pub mod Loop
use Prim.Native.String.{String}
use phlare.Base.{
  ℕ, zero, suc, ◌+◌, Bool, true, false, not, ◌&&◌, ◌||◌, Option, none, some, List, [], ◌∷◌, ◌++◌,
  if◌then◌else◌, length,
}
use phlare.Base.Int.{ℤ, pos, ltb_ℤ}
use phlare.Tsdb.Index.{LabelPair, is_empty}
use phlare.Model.Labels.{compare_label_pairs}

pub record Profile : Type 0 where
  pub timestamp : ℤ
  pub labels : List LabelPair

-- a stream before a call of `Next`
pub record Stream : Type 0 where
  pub ingester_addr : String
  pub ahead : List Profile
  pub fails : Bool

-- an iterator at a profile, after a `Next` that gave true
pub record MergeIterator : Type 0 where
  pub current : Profile
  pub stream : Stream

abbrev pub eq_ℤ : ℤ → ℤ → Bool
eq_ℤ a b = not (ltb_ℤ a b) && not (ltb_ℤ b a)

-- `Less` of the heap, on the profiles at which two iterators are
abbrev pub less : Profile → Profile → Bool
less p1 p2 =
    if eq_ℤ p1.timestamp p2.timestamp
    then ltb_ℤ (compare_label_pairs p1.labels p2.labels) (pos 0)
    else ltb_ℤ p1.timestamp p2.timestamp

-- the condition under which a profile is not a duplicate of the first
abbrev pub differs : Profile → Profile → Bool
differs first value =
    not (eq_ℤ first.timestamp value.timestamp)
    || not (eq_ℤ (compare_label_pairs first.labels value.labels) (pos 0))

-- `heap.Pop`: a least iterator, and the others
abbrev pub pop_least : MergeIterator → List MergeIterator → MergeIterator × List MergeIterator
pop_least c [] = (c, [])
pop_least c (d ∷ h) =
    let (least, others) = pop_least d h in
    if less least.current c.current then (least, c ∷ others) else (c, d ∷ h)

abbrev pub is_other : List MergeIterator → MergeIterator → Bool
is_other [] next = false
is_other (t ∷ tuples) next = differs t.current next.current

-- The loop that pops the duplicates, on as much fuel as the heap has iterators: what it leaves, and
-- the tuples.
pub collect : ℕ → List MergeIterator → List MergeIterator → List MergeIterator × List MergeIterator
collect zero h tuples = (h, tuples)
collect (suc fuel) [] tuples = ([], tuples)
collect (suc fuel) (c ∷ h) tuples =
    let (next, others) = pop_least c h in
    let onward = collect fuel others (tuples ++ next ∷ []) in
    if is_other tuples next then (c ∷ h, tuples) else onward

-- `Next`
abbrev pub next_of : Stream → List Profile → Option MergeIterator
next_of s [] = none
next_of s (p ∷ ahead) = some (record {
  current = p;
  stream = record { ingester_addr = s.ingester_addr; ahead = ahead; fails = s.fails };
})

abbrev pub push_some : Option MergeIterator → List MergeIterator → List MergeIterator
push_some none h = h
push_some (some c) h = c ∷ h

-- what `requeueAsync` pushes, and whether it gives an error
abbrev pub requeued : List Stream → List MergeIterator
requeued [] = []
requeued (s ∷ eis) = push_some (next_of s s.ahead) (requeued eis)

abbrev pub any_fails : List Stream → Bool
any_fails [] = false
any_fails (s ∷ eis) = (is_empty s.ahead && s.fails) || any_fails eis

abbrev pub streams_of : List MergeIterator → List Stream
streams_of [] = []
streams_of (c ∷ tuples) = c.stream ∷ streams_of tuples

-- a call of `Keep`: on which ingester's iterator, at which profile
pub record Kept : Type 0 where
  pub kept_at : String
  pub profile : Profile

-- how the walk ends, without an error or with one, and what it keeps
abbrev pub Walked : Type 0
Walked = Bool × List Kept

abbrev pub keep : MergeIterator → Option Walked → Option Walked
keep c none = none
keep c (some (fine, kept)) =
    some (fine, record { kept_at = c.stream.ingester_addr; profile = c.current } ∷ kept)

abbrev pub keep_first : List MergeIterator → Option Walked → Option Walked
keep_first [] onward = none
keep_first (t ∷ tuples) onward = keep t onward

-- a round of the loop, after the duplicates are popped
abbrev pub skip_round :
    (List MergeIterator → Option Walked) → List MergeIterator × List MergeIterator → Option Walked
skip_round onward (others, tuples) =
    let eis = streams_of tuples in
    let rest = onward (others ++ requeued eis) in
    keep_first tuples (if any_fails eis then some (false, []) else rest)

abbrev pub sent : List Stream → ℕ
sent [] = 0
sent (s ∷ its) = length s.ahead + sent its

module _ (arrange : ℕ → List MergeIterator → List MergeIterator) where
  -- The loop, on fuel. Where one iterator is left, its error is not looked at.
  pub skip_loop : ℕ → List MergeIterator → Option Walked
  skip_loop zero h = none
  skip_loop (suc fuel) [] = some (true, [])
  skip_loop (suc fuel) (c ∷ []) = keep c (skip_loop fuel (requeued (c.stream ∷ [])))
  skip_loop (suc fuel) (c ∷ d ∷ h) =
      skip_round (λ h'. skip_loop fuel (arrange fuel h'))
        (collect (length (c ∷ d ∷ h)) (c ∷ d ∷ h) [])

  -- `skipDuplicates`, on as much fuel as profiles are sent and two more
  unfoldable pub skip_duplicates : List Stream → Option Walked
  unfolding skip_loop collect
  skip_duplicates its =
      let fuel = suc (suc (sent its)) in
      if any_fails its then some (false, []) else skip_loop fuel (arrange fuel (requeued its))
