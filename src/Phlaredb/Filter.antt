-- ===== src/Phlaredb/Filter.antt =====
-- pkg/phlaredb/phlaredb.go: `filterProfiles`, which sends the profiles that were found to the client in
-- batches, and keeps those that the client selects. The stream is a parameter: what `Send` and
-- `Receive` do to its state, where `none` is an error. An error of `Receive` is shadowed in the code,
-- which goes on with no selection.
pub mod Sets
pub mod Select
pub mod Tests
use phlare.Base.{
  ℕ, zero, suc, ◌+◌, ◌%◌, ◌^◌, Bool, true, false, Option, none, some, List, [], ◌∷◌, ◌++◌,
  if◌then◌else◌, ◌==◌, length,
}
use phlare.Base.Int.{ℤ, to_int32}
use phlare.Base.Outcome.{Outcome, ok, failed, panicked, ◌>>=◌}
use phlare.Iter.Batch.{read_batch}
use phlare.Tsdb.Index.{LabelPair}
use phlare.Querier.MergeIterator.{SeriesProfile, ProfileSets}

pub record FoundProfile : Type 0 where
  pub fingerprint : ℕ
  pub timestamp : ℤ
  pub labels : List LabelPair

-- `seriesByFP`, of which only the index is read
abbrev pub find_series : ℕ → List (ℕ × ℕ) → Option ℕ
find_series fp [] = none
find_series fp ((k, i) ∷ series) = if fp == k then some i else find_series fp series

-- The index is converted to an int32.
abbrev pub place_profile :
    FoundProfile → ℕ → List (List LabelPair) → List SeriesProfile → ProfileSets
place_profile profile i labels_sets profiles = record {
  labels_sets = labels_sets;
  profiles = profiles ++ record { label_index = to_int32 i; timestamp = profile.timestamp } ∷ [];
}

-- a round of the loop over the batch
abbrev pub sets_round :
    FoundProfile → Option ℕ → List (ℕ × ℕ) → ProfileSets → List (ℕ × ℕ) × ProfileSets
sets_round profile (some i) series sets =
    (series, place_profile profile i sets.labels_sets sets.profiles)
sets_round profile none series sets =
    let i = length sets.labels_sets in
    (
      (profile.fingerprint, i) ∷ series,
      place_profile profile i (sets.labels_sets ++ profile.labels ∷ []) sets.profiles,
    )

pub sets_loop : List FoundProfile → List (ℕ × ℕ) → ProfileSets → ProfileSets
sets_loop [] series sets = sets
sets_loop (profile ∷ batch) series sets =
    let (series', sets') =
      sets_round profile (find_series profile.fingerprint series) series sets in
    sets_loop batch series' sets'

-- the sets that are sent for a batch
unfoldable pub sets_of : List FoundProfile → ProfileSets
unfolding sets_loop
sets_of batch = sets_loop batch [] (record { labels_sets = []; profiles = [] })

-- the selected profiles of a batch, where a flag beyond the batch panics
abbrev pub pick : List Bool → List FoundProfile → Outcome (List FoundProfile)
pick [] batch = ok []
pick (true ∷ selected) [] = panicked
pick (false ∷ selected) [] = pick selected []
pick (true ∷ selected) (profile ∷ batch) =
    pick selected batch >>= λ selection. ok (profile ∷ selection)
pick (false ∷ selected) (profile ∷ batch) = pick selected batch

abbrev pub flags_of : Option (List Bool) → List Bool
flags_of none = []
flags_of (some selected) = selected

module _ {S : Type 0} (send : ProfileSets → S → Option S)
    (receive : S → S × Option (List Bool)) where
  abbrev pub after_send :
      List FoundProfile → List FoundProfile → Option S → Outcome (S × List FoundProfile)
  after_send batch selection none = failed
  after_send batch selection (some stream) =
      let (stream', answer) = receive stream in
      pick (flags_of answer) batch >>= λ chosen. ok (stream', selection ++ chosen)

  -- the function that `filterProfiles` gives to `ReadBatch`
  abbrev pub filter_batch :
      List FoundProfile → S × List FoundProfile → Outcome (S × List FoundProfile)
  filter_batch batch (stream, selection) = after_send batch selection (send (sets_of batch) stream)

  -- `filterProfiles`, over profiles that may end by an error
  unfoldable pub filter_profiles :
      ℕ → List FoundProfile → Bool → S → Option (Outcome (S × List FoundProfile))
  unfolding read_batch
  filter_profiles batch_profile_size profiles fails stream =
      read_batch batch_profile_size filter_batch fails profiles (stream, [])
