-- ===== src/Postings/Sharded/Tests.antt =====
-- Runs of the postings of a shard at concrete inputs.
use phlare.Base.{◌+◌, ◌^◌, ◌≤◌, ◌<◌, ◌≡◌, refl, true, List, [], ◌∷◌, arith, elem}
use phlare.Iter.Search.{search}
use phlare.Iter.Slice.{SliceIterator, slice, IsSorted, slice-NextContract, slice-SeekContract}
use phlare.Postings.Expand.{expand_postings}
use phlare.Postings.Sharded.{new_sharded_postings, sharded}
use phlare.Postings.Sharded.Correct.{expand-sharded, expand-sharded_covers}
use phlare.Tsdb.Shard.{ShardAnnotation, bounds, required_bits}
use phlare.Tsdb.Offsets.{Sample, range, range_within}

abbrev offsets : List Sample
offsets =
    record { offset = 10; fingerprint = 5 }
    ∷ record { offset = 20; fingerprint = 2 ^ 63 }
    ∷ record { offset = 30; fingerprint = 2 ^ 63 + 2 ^ 62 }
    ∷ []

abbrev third_of_four : ShardAnnotation
third_of_four = record { shard = 2; of = 4 }

abbrev postings : SliceIterator
postings = record { list = 3 ∷ 8 ∷ 25 ∷ 40 ∷ 50 ∷ []; cur = 0 }

postings-IsSorted : IsSorted postings
postings-IsSorted = omega arith

expand-sharded_example :
    expand_postings (sharded slice) (new_sharded_postings postings third_of_four offsets) ≡ 25 ∷ []
unfolding range range_within bounds required_bits search slice
expand-sharded_example =
    expand-sharded slice slice-NextContract slice-SeekContract postings third_of_four offsets
      postings-IsSorted

in_list : elem 25 (slice.rest postings) ≡ true
unfolding slice
in_list = refl

lower : (range offsets third_of_four).0 ≤ 25
unfolding range range_within bounds required_bits search
lower = omega arith

upper : 25 < (range offsets third_of_four).1
unfolding range range_within bounds required_bits search
upper = omega arith

expand-sharded_covers_example :
    elem 25 (expand_postings (sharded slice) (new_sharded_postings postings third_of_four offsets))
    ≡ true
expand-sharded_covers_example =
    expand-sharded_covers slice slice-NextContract slice-SeekContract postings third_of_four offsets
      25 postings-IsSorted in_list lower upper
