-- ===== src/Tsdb/Offsets.antt =====
-- pkg/phlaredb/tsdb/index/fingerprint.go: the range of series offsets that a shard can occupy,
-- from a sample of (offset, fingerprint) pairs.
use phlare.Base.{
  ℕ, ◌-◌, ◌≤◌, ◌<◌, Bool, inl, inr, List, ◌&&◌, arith, ltb, leb, ◌==◌, if◌then◌else◌, length,
  get_or, Bool-cases,
}
use phlare.Iter.Search.{search, search-Found}
use phlare.Tsdb.Shard.{ShardAnnotation, bounds, max_uint64}

pub record Sample : Type 0 where
  pub offset : ℕ
  pub fingerprint : ℕ

abbrev pub no_sample : Sample
no_sample = record { offset = 0; fingerprint = 0 }

-- the closures that `Range` hands to `sort.Search`
abbrev reaches : ℕ → List Sample → ℕ → Bool
reaches bound xs i = leb bound (get_or xs i no_sample).fingerprint

unfoldable pub range_within : List Sample → ℕ → ℕ → ℕ × ℕ
range_within xs from through =
    let lower = search (length xs) (reaches from xs) in
    let upper = search (length xs) (reaches through xs) in
    (
      (if ltb lower (length xs) && ltb 0 lower
          then (get_or xs (lower - 1) no_sample).offset
          else 0),
      (if upper == length xs then max_uint64 else (get_or xs upper no_sample).offset),
    )

unfoldable pub range : List Sample → ShardAnnotation → ℕ × ℕ
unfolding range_within
range xs shard = let (from, through) = bounds shard in range_within xs from through

-- The series stand in the order of their fingerprints, and the sample agrees with that order.
abbrev pub Agrees : List Sample → ℕ → ℕ → Type 0
Agrees xs offset fp =
    (i : ℕ)
    → i < length xs
    → ((get_or xs i no_sample).offset ≤ offset → (get_or xs i no_sample).fingerprint ≤ fp)
      × (offset ≤ (get_or xs i no_sample).offset → fp ≤ (get_or xs i no_sample).fingerprint)

module _ (xs : List Sample) (from through offset fp : ℕ) (agrees : Agrees xs offset fp) where
  min_offset-le : from ≤ fp → (range_within xs from through).0 ≤ offset
  unfolding range_within
  min_offset-le h =
      let lower = search (length xs) (reaches from xs) in
      let found = search-Found (length xs) (reaches from xs) in
      elim (Bool-cases (ltb lower (length xs) && ltb 0 lower)) [
        | inr e ↦ rw e (omega arith)
        | inl e ↦
            let inside : lower - 1 < length xs = ground arith in
            let fails = found.before (lower - 1) (ground arith) in
            rw e (ground (arith, agrees (lower - 1) inside))
      ]

  lt-max_offset : fp < through → offset < max_uint64 → offset < (range_within xs from through).1
  unfolding range_within
  lt-max_offset h small =
      let upper = search (length xs) (reaches through xs) in
      let found = search-Found (length xs) (reaches through xs) in
      elim (Bool-cases (upper == length xs)) [
        | inl e ↦ rw e small
        | inr e ↦
            let inside : upper < length xs = ground (arith, found.inside) in
            rw e (ground (arith, agrees upper inside, found.holds inside))
      ]

-- Every series whose fingerprint lies in a shard's bounds has its offset in the range that is
-- computed for the shard, if the sample of offsets agrees with the order of the series and the
-- offset is below the greatest uint64.
pub range-covers :
    (xs : List Sample) (shard : ShardAnnotation) (offset fp : ℕ)
    → Agrees xs offset fp
    → (bounds shard).0 ≤ fp
    → fp < (bounds shard).1
    → offset < max_uint64
    → ((range xs shard).0 ≤ offset) × (offset < (range xs shard).1)
unfolding range
range-covers xs shard offset fp agrees lo hi small = (
  min_offset-le xs (bounds shard).0 (bounds shard).1 offset fp agrees lo,
  lt-max_offset xs (bounds shard).0 (bounds shard).1 offset fp agrees hi small,
)
