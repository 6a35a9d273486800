-- ===== src/Querier/MergeIterator.antt =====
-- pkg/querier/select_merge.go: `mergeIterator`, which receives batches of profiles from an ingester, and
-- sends for each batch which of its profiles are kept. The bidirectional client is a parameter: what
-- `Send` and `Receive` do to its state, where `none` is an error. A response without sets selects
-- the empty ones, as does the iterator before the first. The capacity of the slice of flags is left out: it is reset to the length of a batch.
pub mod Lists
pub mod Sends
use phlare.Base.{
  ℕ, zero, suc, ◌+◌, Bool, true, false, Option, none, some, List, [], ◌∷◌, ◌++◌, map, if◌then◌else◌,
  ltb, length, get_elem?,
}
use phlare.Base.Int.{ℤ, pos, negsuc}
use phlare.Tsdb.Index.{LabelPair}
use phlare.Querier.SelectMerge.{Profile}

pub record SeriesProfile : Type 0 where
  pub label_index : ℤ
  pub timestamp : ℤ

pub record ProfileSets : Type 0 where
  pub labels_sets : List (List LabelPair)
  pub profiles : List SeriesProfile

-- the labels at an index, where `none` is the panic
abbrev pub labels_at : List (List LabelPair) → ℤ → Option (List LabelPair)
labels_at labels_sets (pos i) = get_elem? labels_sets i
labels_at labels_sets (negsuc i) = none

abbrev pub labelled : ℤ → Option (List LabelPair) → Option Profile
labelled t none = none
labelled t (some labels) = some (record { timestamp = t; labels = labels })

-- a profile of the sets, with the labels at its index
abbrev pub read_profile : List (List LabelPair) → SeriesProfile → Option Profile
read_profile labels_sets p = labelled p.timestamp (labels_at labels_sets p.label_index)

abbrev pub read_at : List (List LabelPair) → Option SeriesProfile → Option Profile
read_at labels_sets none = none
read_at labels_sets (some p) = read_profile labels_sets p

pub record MergeState (S : Type 0) : Type 0 where
  pub bidi : S
  pub err : Bool
  pub curr : ProfileSets
  pub curr_idx : ℕ
  pub keep : List Bool
  pub keep_sent : Bool

-- the flags of a batch, reset to none
abbrev pub reset_keep : List SeriesProfile → List Bool
reset_keep [] = []
reset_keep (p ∷ profiles) = false ∷ reset_keep profiles

abbrev pub behind : Bool → Option (List Bool) → Option (List Bool)
behind b none = none
behind b (some keep) = some (b ∷ keep)

-- `keep[i] = true`, where `none` is the panic
abbrev pub set_true : ℕ → List Bool → Option (List Bool)
set_true i [] = none
set_true zero (b ∷ keep) = some (true ∷ keep)
set_true (suc i) (b ∷ keep) = behind b (set_true i keep)

module _ {S : Type 0} where
  -- `NewMergeIterator`
  abbrev pub new_merge_iterator : S → MergeState S
  new_merge_iterator bidi = record {
    bidi = bidi;
    err = false;
    curr = record { labels_sets = []; profiles = [] };
    curr_idx = 0;
    keep = [];
    keep_sent = true;
  }

  abbrev pub with_error : MergeState S → MergeState S
  with_error s = record {
    bidi = s.bidi;
    err = true;
    curr = s.curr;
    curr_idx = s.curr_idx;
    keep = s.keep;
    keep_sent = s.keep_sent;
  }

  abbrev pub with_bidi : MergeState S → S → MergeState S
  with_bidi s bidi = record {
    bidi = bidi;
    err = s.err;
    curr = s.curr;
    curr_idx = s.curr_idx;
    keep = s.keep;
    keep_sent = s.keep_sent;
  }

  abbrev pub with_keep : MergeState S → Option (List Bool) → Option (MergeState S)
  with_keep s none = none
  with_keep s (some keep) = some (record {
    bidi = s.bidi;
    err = s.err;
    curr = s.curr;
    curr_idx = s.curr_idx;
    keep = keep;
    keep_sent = s.keep_sent;
  })

  -- `Keep`
  abbrev pub keep_curr : MergeState S → Option (MergeState S)
  keep_curr s = with_keep s (set_true s.curr_idx s.keep)

  -- the profile of `At`, where `none` is the panic of an index out of range
  abbrev pub at_curr : MergeState S → Option Profile
  at_curr s = read_at s.curr.labels_sets (get_elem? s.curr.profiles s.curr_idx)

  module _ (send : List Bool → S → Option S) (receive : S → Option (S × ProfileSets)) where
    -- what `Next` does with the sets of a response
    abbrev pub start_batch :
        MergeState S → S → List (List LabelPair) → List SeriesProfile → Bool × MergeState S
    start_batch s bidi labels_sets [] = (false, with_bidi s bidi)
    start_batch s bidi labels_sets (p ∷ profiles) = (
      true,
      record {
        bidi = bidi;
        err = s.err;
        curr = record { labels_sets = labels_sets; profiles = p ∷ profiles };
        curr_idx = 0;
        keep = reset_keep (p ∷ profiles);
        keep_sent = false;
      },
    )

    abbrev pub received : MergeState S → Option (S × ProfileSets) → Bool × MergeState S
    received s none = (false, with_error s)
    received s (some (bidi, sets)) = start_batch s bidi sets.labels_sets sets.profiles

    -- the flags are sent, or there are none to send
    abbrev pub after_send : MergeState S → Option S → Bool × MergeState S
    after_send s none = (false, with_error s)
    after_send s (some bidi) = received (with_bidi s bidi) (receive bidi)

    -- `Next`
    unfoldable pub next_profile : MergeState S → Bool × MergeState S
    next_profile s =
        if ltb (suc s.curr_idx) (length s.curr.profiles)
        then (
          true,
          record {
            bidi = s.bidi;
            err = s.err;
            curr = s.curr;
            curr_idx = suc s.curr_idx;
            keep = s.keep;
            keep_sent = s.keep_sent;
          },
        )
        else after_send s (if s.keep_sent then some s.bidi else send s.keep s.bidi)
