-- ===== src/Phlaredb/Delta/Tests.antt =====
-- Runs of the deltas at concrete profiles.
use phlare.Base.{ℕ, ◌≡◌, refl, Option, some, List, [], ◌∷◌, arith}
use phlare.Tsdb.Index.{LabelPair}
use phlare.Tsdb.Inverted.{metric_name}
use phlare.Phlaredb.Delta.{
  Sample, DeltaProfiles, Profile, id_of, value_of, delta_samples, compute_delta, new_delta_profiles,
  memory_profile_name, label_name_type, alloc_space_type_name,
}
use phlare.Phlaredb.Delta.Store.{delta_value}
use phlare.Phlaredb.Delta.Correct.{last_of, delta_samples-values}

-- three profiles of a series, of one sample, of two and of two
abbrev heap : List Sample
heap =
    record { stacktrace_id = 1; value = 10 }
    ∷ record { stacktrace_id = 1; value = 15 }
    ∷ record { stacktrace_id = 2; value = 7 }
    ∷ record { stacktrace_id = 1; value = 20 }
    ∷ record { stacktrace_id = 2; value = 9 }
    ∷ []

delta_samples-values_example :
    (value_of (delta_samples heap (0 ∷ []) (1 ∷ 2 ∷ [])).0 1
      ≡ delta_value heap (last_of heap (0 ∷ []) (id_of heap 1)) (value_of heap 1))
    × ((s : ℕ)
        → last_of heap (0 ∷ []) (id_of heap 1) ≡ some s
        → value_of (delta_samples heap (0 ∷ []) (1 ∷ 2 ∷ [])).0 s ≡ value_of heap 1)
delta_samples-values_example =
    delta_samples-values heap (0 ∷ []) (1 ∷ 2 ∷ []) 1 (omega arith, tt)
      ((omega arith, refl), ((omega arith, refl), tt)) ((λ e. absurd (omega arith), tt), (tt, tt))
      refl

-- the code itself, run: what the new sample 1 and the maximum 0 come to
delta_run : value_of (delta_samples heap (0 ∷ []) (1 ∷ 2 ∷ [])).0 1 ≡ 5
unfolding delta_samples
delta_run = refl

max_run : value_of (delta_samples heap (0 ∷ []) (1 ∷ 2 ∷ [])).0 0 ≡ 15
unfolding delta_samples
max_run = refl

abbrev lbs : List LabelPair
lbs =
    record { name = metric_name; value = memory_profile_name }
    ∷ record { name = label_name_type; value = alloc_space_type_name }
    ∷ []

abbrev after_first : DeltaProfiles × Option Profile
after_first =
    compute_delta (new_delta_profiles heap) (record { series_fingerprint = 8; samples = 0 ∷ [] })
      lbs

abbrev after_second : DeltaProfiles × Option Profile
after_second =
    compute_delta after_first.0 (record { series_fingerprint = 8; samples = 1 ∷ 2 ∷ [] }) lbs

abbrev after_third : DeltaProfiles × Option Profile
after_third =
    compute_delta after_second.0 (record { series_fingerprint = 8; samples = 3 ∷ 4 ∷ [] }) lbs

-- The second profile is returned with its sample 2, of a stack trace not seen before, at the value 7.
second_run : after_second.1 ≡ some (record { series_fingerprint = 8; samples = 1 ∷ 2 ∷ [] })
unfolding compute_delta
second_run = refl

seven : value_of after_second.0.heap 2 ≡ 7
unfolding compute_delta
seven = refl

-- The third profile turns that sample, which the second still holds, into the cumulative value.
nine : value_of after_third.0.heap 2 ≡ 9
unfolding compute_delta
nine = refl
