-- ===== src/Phlaredb/Filter/Tests.antt =====
-- Concrete profiles, sent to a client in batches of two.
use phlare.Base.{
  ℕ, ◌%◌, ◌≡◌, refl, ap, ◌∙◌, ◌⊎◌, Bool, true, false, ◌==◌, Option, none, some, List, [], ◌∷◌, ◌++◌,
  map, All, arith,
}
use phlare.Base.Int.{pos, pos_part}
use phlare.Base.Outcome.{ok, ◌>>=◌}
use phlare.Iter.Batch.{read_batch}
use phlare.Iter.Batch.Rounds.{concat, each, finish, IsBatch, read_batch-batches}
use phlare.Tsdb.Index.{LabelPair}
use phlare.Querier.SelectMerge.{Profile}
use phlare.Querier.MergeIterator.{ProfileSets}
use phlare.Phlaredb.Filter.{FoundProfile, sets_of, filter_profiles}
use phlare.Phlaredb.Filter.Select.{filter_profiles-retain}
use phlare.Phlaredb.Filter.Sets.{shown, read_profiles, read_profiles-sets_of}

abbrev labels_of : ℕ → List LabelPair
labels_of fp = record { name = fp ∷ []; value = [] } ∷ []

abbrev found : ℕ → ℕ → FoundProfile
found fp t = record { fingerprint = fp; timestamp = pos t; labels = labels_of fp }

abbrev profiles : List FoundProfile
profiles = found 7 1 ∷ found 8 2 ∷ found 7 4 ∷ []

read_profiles-sets_of_example :
    read_profiles (sets_of profiles) ≡ map (λ p. some (shown p)) profiles
read_profiles-sets_of_example =
    read_profiles-sets_of labels_of profiles (refl, (refl, (refl, tt))) (omega arith)

sets_of_run : sets_of profiles ≡ record {
  labels_sets = labels_of 7 ∷ labels_of 8 ∷ [];
  profiles =
      record { label_index = pos 0; timestamp = pos 1 }
      ∷ record { label_index = pos 1; timestamp = pos 2 }
      ∷ record { label_index = pos 0; timestamp = pos 4 }
      ∷ [];
}
unfolding sets_of
sets_of_run = refl

abbrev is_even : Profile → Bool
is_even p = pos_part p.timestamp % 2 == 0

abbrev answer : List (Option Profile) → List Bool
answer [] = []
answer (none ∷ read) = false ∷ answer read
answer (some p ∷ read) = is_even p ∷ answer read

answer-map : (read : List Profile) → answer (map some read) ≡ map is_even read
answer-map [] = refl
answer-map (p ∷ read) = ap (λ l. is_even p ∷ l) (answer-map read)

-- a client that keeps the answer to the last batch until it is received
abbrev Client : Type 0
Client = Option (List Bool)

abbrev send : ProfileSets → Client → Option Client
send sets client = some (some (answer (read_profiles sets)))

abbrev receive : Client → Client × Option (List Bool)
receive client = (none, client)

answers :
    (sets : ProfileSets) (read : List Profile) (s : Client)
    → read_profiles sets ≡ map some read
    → (s' : Client) × (s'' : Client) × (send sets s ≡ some s')
      × (receive s' ≡ (s'', some (map is_even read)))
answers sets read s h = (
  some (answer (read_profiles sets)),
  none,
  refl,
  ap (λ r. (none, some r)) (ap answer h ∙ answer-map read),
)

filter_profiles-retain_example :
    (s : Client) × (filter_profiles send receive 2 profiles false none
      ≡ some (ok (s, found 8 2 ∷ found 7 4 ∷ [])))
filter_profiles-retain_example =
    filter_profiles-retain send receive is_even answers labels_of 2 profiles none (omega arith)
      (refl, (refl, (refl, tt)))

-- An error of `Receive` is not returned: the walk goes on, and nothing is kept.
lost_answer_run :
    filter_profiles send (λ client. (none, none)) 2 profiles false none ≡ some (ok (none, []))
unfolding filter_profiles sets_of
lost_answer_run = refl

read_batch-batches_example :
    (batches : List (List ℕ)) × (rest : List ℕ) × (read_batch 2
        (λ batch s. ok (s ++ batch ∷ []))
        true
        (5 ∷ 6 ∷ 7 ∷ [])
        []
      ≡ some (
          each (λ batch s. ok (s ++ batch ∷ [])) batches []
          >>= finish 2 (λ batch s. ok (s ++ batch ∷ [])) true))
    × (concat batches ++ rest ≡ 5 ∷ 6 ∷ 7 ∷ [])
    × All (IsBatch 2) batches
    × ((rest ≡ []) ⊎ (true ≡ true))
read_batch-batches_example =
    read_batch-batches 2 (λ batch s. ok (s ++ batch ∷ [])) true (5 ∷ 6 ∷ 7 ∷ []) []
