-- ===== src/Postings/Sharded.antt =====
-- pkg/phlaredb/tsdb/index/postings.go: `ShardedPostings`, which cuts an iterator to the offsets of a
-- shard.
pub mod Correct
pub mod Lists
pub mod Tests
use phlare.Base.{ℕ, Bool, true, false, not, List, [], ◌∷◌, ltb, leb, if◌then◌else◌, skip_below}
use phlare.Iter.Seekable.{SeekIterator}
use phlare.Tsdb.Shard.{ShardAnnotation}
use phlare.Tsdb.Offsets.{Sample, range}

pub record ShardedPostings (S : Type 0) : Type 0 where
  pub p : S
  pub min_offset : ℕ
  pub max_offset : ℕ
  pub initialized : Bool

unfoldable pub new_sharded_postings :
    {S : Type 0} → S → ShardAnnotation → List Sample → ShardedPostings S
new_sharded_postings p shard offsets =
    let (min, max) = range offsets shard in
    record { p = p; min_offset = min; max_offset = max; initialized = false }

-- the values up to the first that is not below the bound
abbrev pub take_below : ℕ → List ℕ → List ℕ
take_below max [] = []
take_below max (x ∷ xs) = if leb max x then [] else x ∷ take_below max xs

-- The first value is not checked against the bound.
abbrev pub head_and_below : ℕ → List ℕ → List ℕ
head_and_below max [] = []
head_and_below max (x ∷ xs) = x ∷ take_below max xs

abbrev pub clipped : ℕ → ℕ → List ℕ → List ℕ
clipped min max xs = if leb max 0 then [] else head_and_below max (skip_below min xs)

module _ {S : Type 0} (it : SeekIterator S) where
  abbrev pub moved : ShardedPostings S → S × Bool → ShardedPostings S × Bool
  moved sp r = (record sp { p = r.0 }, r.1)

  unfoldable pub seek : ℕ → ShardedPostings S → ShardedPostings S × Bool
  seek v sp =
      if leb sp.max_offset v
      then (sp, false)
      else moved sp (it.seek (if ltb v sp.min_offset then sp.min_offset else v) sp.p)

  -- the rest of the first call of `Next`, once the iterator has been advanced
  unfoldable pub after_first : ShardedPostings S × Bool → ShardedPostings S × Bool
  unfolding seek
  after_first (sp, false) = (sp, false)
  after_first (sp, true) = seek 0 sp

  -- and of any later call
  unfoldable pub after_next : ShardedPostings S × Bool → ShardedPostings S × Bool
  after_next (sp, false) = (sp, false)
  after_next (sp, true) = if leb sp.max_offset (it.at sp.p) then (sp, false) else (sp, true)

  unfoldable pub next : ShardedPostings S → ShardedPostings S × Bool
  unfolding after_first after_next
  next sp =
      let first = after_first (moved (record sp { initialized = true }) (it.next sp.p)) in
      let later = after_next (moved sp (it.next sp.p)) in
      if not sp.initialized then first else later

  abbrev pub left : ShardedPostings S → List ℕ
  left sp =
      if sp.initialized
      then take_below sp.max_offset (it.rest sp.p)
      else clipped sp.min_offset sp.max_offset (it.rest sp.p)

  unfoldable pub sharded : SeekIterator (ShardedPostings S)
  unfolding next seek
  sharded = record { next = next; seek = seek; at = λ sp. it.at sp.p; rest = left }
