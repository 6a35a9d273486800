-- ===== src/Phlaredb/Delta.antt =====
-- pkg/phlaredb/delta.go: deltas of cumulative profiles. The samples are shared by pointers between the
-- profiles and the recorded maxima, so that they stand in a store, and a pointer is a position in it.
-- Values are int64, as bit patterns modulo 2^64. A sample's labels are left out: nothing reads them.
pub mod Store
pub mod Loop
pub mod Correct
pub mod Tests
use phlare.Base.{
  ℕ, zero, suc, ◌+◌, ◌-◌, ◌%◌, ◌^◌, Bool, true, false, ◌&&◌, ◌||◌, Option, none, some, List, [],
  ◌∷◌, ◌++◌, leb, ◌==◌, if◌then◌else◌, get_or, set,
}
use phlare.Base.Order.{Bytes}
use phlare.Base.Map.{eq_bytes}
use phlare.Tsdb.Index.{LabelPair}
use phlare.Tsdb.Inverted.{metric_name}
use phlare.Model.Labels.Select.{get}

pub record Sample : Type 0 where
  pub stacktrace_id : ℕ
  pub value : ℕ

-- what a position out of the store reads as
abbrev pub no_sample : Sample
no_sample = record { stacktrace_id = 0; value = 0 }

abbrev pub id_of : List Sample → ℕ → ℕ
id_of heap r = (get_or heap r no_sample).stacktrace_id

abbrev pub value_of : List Sample → ℕ → ℕ
value_of heap r = (get_or heap r no_sample).value

abbrev pub set_value : ℕ → ℕ → List Sample → List Sample
set_value r v heap = set heap r (record { stacktrace_id = id_of heap r; value = v })

-- `a <= b` and `a - b` of int64
abbrev pub le_int64 : ℕ → ℕ → Bool
le_int64 a b = leb ((a + 2 ^ 63) % 2 ^ 64) ((b + 2 ^ 63) % 2 ^ 64)

abbrev pub sub_int64 : ℕ → ℕ → ℕ
sub_int64 a b = (a + 2 ^ 64 - b) % 2 ^ 64

-- the map `stacktraces`, whose later writes stand in front
abbrev pub find_ref : ℕ → List (ℕ × ℕ) → Option ℕ
find_ref k [] = none
find_ref k ((j, r) ∷ m) = if k == j then some r else find_ref k m

abbrev pub index_stacktraces : List Sample → List ℕ → List (ℕ × ℕ) → List (ℕ × ℕ)
index_stacktraces heap [] m = m
index_stacktraces heap (h ∷ highest) m = index_stacktraces heap highest ((id_of heap h, h) ∷ m)

-- A round for a new sample `n`, at what the map has for its stack trace: the store it leaves, and the
-- maxima.
abbrev pub step_heap : List Sample → ℕ → Option ℕ → List Sample
step_heap heap n none = heap
step_heap heap n (some s) =
    let new_max = value_of heap n in
    let old = value_of heap s in
    if le_int64 old new_max
    then set_value s new_max (set_value n (sub_int64 new_max old) heap)
    else set_value s new_max heap

abbrev pub step_highest : List ℕ → ℕ → Option ℕ → List ℕ
step_highest highest n none = highest ++ n ∷ []
step_highest highest n (some s) = highest

pub delta_loop : List (ℕ × ℕ) → List Sample → List ℕ → List ℕ → List Sample × List ℕ
delta_loop m heap highest [] = (heap, highest)
delta_loop m heap highest (n ∷ new) =
    let known = find_ref (id_of heap n) m in
    delta_loop m (step_heap heap n known) (step_highest highest n known) new

-- `deltaSamples`
unfoldable pub delta_samples : List Sample → List ℕ → List ℕ → List Sample × List ℕ
unfolding delta_loop
delta_samples heap highest new = delta_loop (index_stacktraces heap highest []) heap highest new

-- "memory", "__type__", "alloc_objects" and "alloc_space"
abbrev pub memory_profile_name : Bytes
memory_profile_name = 109 ∷ 101 ∷ 109 ∷ 111 ∷ 114 ∷ 121 ∷ []

abbrev pub label_name_type : Bytes
label_name_type = 95 ∷ 95 ∷ 116 ∷ 121 ∷ 112 ∷ 101 ∷ 95 ∷ 95 ∷ []

abbrev pub alloc_object_type_name : Bytes
alloc_object_type_name = 97 ∷ 108 ∷ 108 ∷ 111 ∷ 99 ∷ 95 ∷ 111 ∷ 98 ∷ 106 ∷ 101 ∷ 99 ∷ 116 ∷ 115 ∷ []

abbrev pub alloc_space_type_name : Bytes
alloc_space_type_name = 97 ∷ 108 ∷ 108 ∷ 111 ∷ 99 ∷ 95 ∷ 115 ∷ 112 ∷ 97 ∷ 99 ∷ 101 ∷ []

-- `isDelta`
abbrev pub is_delta : List LabelPair → Bool
is_delta lbs =
    let ty = get lbs label_name_type in
    eq_bytes (get lbs metric_name) memory_profile_name
    && (eq_bytes ty alloc_object_type_name || eq_bytes ty alloc_space_type_name)

-- `highestSamples`, by the fingerprints of the series
abbrev pub find_series : ℕ → List (ℕ × List ℕ) → Option (List ℕ)
find_series fp [] = none
find_series fp ((k, refs) ∷ m) = if fp == k then some refs else find_series fp m

pub record DeltaProfiles : Type 0 where
  pub heap : List Sample
  pub highest_samples : List (ℕ × List ℕ)

-- `newDeltaProfiles`, over a store
abbrev pub new_delta_profiles : List Sample → DeltaProfiles
new_delta_profiles heap = record { heap = heap; highest_samples = [] }

-- `schemav1.Profile`, the two fields that are read
pub record Profile : Type 0 where
  pub series_fingerprint : ℕ
  pub samples : List ℕ

-- the samples that are not zero
abbrev pub nonzero : List Sample → List ℕ → List ℕ
nonzero heap [] = []
nonzero heap (x ∷ samples) =
    if value_of heap x == 0 then nonzero heap samples else x ∷ nonzero heap samples

-- the rest of `computeDelta`, at the maxima recorded for the series; a nil profile is `none`.
pub delta_against : DeltaProfiles → Profile → Option (List ℕ) → DeltaProfiles × Option Profile
unfolding delta_samples
delta_against d ps none = (
  record {
    heap = d.heap;
    highest_samples = (ps.series_fingerprint, ps.samples) ∷ d.highest_samples;
  },
  none,
)
delta_against d ps (some []) = (d, some ps)
delta_against d ps (some (last ∷ samples)) =
    let (heap, highest) = delta_samples d.heap (last ∷ samples) ps.samples in
    (
      record {
        heap = heap;
        highest_samples = (ps.series_fingerprint, highest) ∷ d.highest_samples;
      },
      some (record {
        series_fingerprint = ps.series_fingerprint;
        samples = nonzero heap ps.samples;
      }),
    )

-- `computeDelta`
unfoldable pub compute_delta :
    DeltaProfiles → Profile → List LabelPair → DeltaProfiles × Option Profile
unfolding delta_against
compute_delta d ps lbs =
    if is_delta lbs
    then delta_against d ps (find_series ps.series_fingerprint d.highest_samples)
    else (d, some ps)
