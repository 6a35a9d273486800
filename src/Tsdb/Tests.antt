-- ===== src/Tsdb/Tests.antt =====
-- Runs of the shards and of the index's choice of shards at concrete factors and fingerprints.
use phlare.Base.{
  ℕ, zero, suc, ◌+◌, ◌^◌, ◌≤◌, ◌<◌, ◌≡◌, ◌↔◌, refl, true, false, some, List, [], ◌∷◌, arith,
}
use phlare.Tsdb.Shard.{new_shard, match, bounds, max_uint64, required_bits}
use phlare.Tsdb.Shard.Match.{IsShard, bounds_iff, bounds_miss_max}
use phlare.Tsdb.Offsets.{Sample, Agrees, range, range-covers}
use phlare.Tsdb.BitPrefix.{validate_bit_prefix_shard_factor, get_shards, shard_for_fp}
use phlare.Tsdb.BitPrefix.Range.{validate_iff}
use phlare.Tsdb.BitPrefix.Cover.{get_shards-covers, get_shards-exact}

third_of_four-IsShard : IsShard 2 2
third_of_four-IsShard = record {
  some_bits = omega arith;
  few_bits = omega arith;
  inside = omega arith;
}

last_of_four-IsShard : IsShard 2 3
last_of_four-IsShard = record {
  some_bits = omega arith;
  few_bits = omega arith;
  inside = omega arith;
}

abbrev fp : ℕ
fp = 2 ^ 63 + 12345

third_matches : match (new_shard 2 (2 ^ 2)) fp ≡ true
unfolding match required_bits
third_matches = refl

bounds_iff_example :
    (match (new_shard 2 (2 ^ 2)) fp ≡ true)
    ↔ (((bounds (new_shard 2 (2 ^ 2))).0 ≤ fp) × (fp < (bounds (new_shard 2 (2 ^ 2))).1))
bounds_iff_example = bounds_iff 2 2 fp third_of_four-IsShard (omega arith)

bounds_miss_max_example :
    (match (new_shard 3 (2 ^ 2)) max_uint64 ≡ true)
    × ¬ (max_uint64 < (bounds (new_shard 3 (2 ^ 2))).1)
bounds_miss_max_example = bounds_miss_max 2 3 last_of_four-IsShard refl

validate_iff_example : (validate_bit_prefix_shard_factor 16 ≡ true) ↔ ((b : ℕ) × (2 ^ b ≡ 16))
validate_iff_example = validate_iff 16 (omega arith) (omega arith)

get_shards-covers_example :
    ((get_shards (2 ^ 5) (some (record { shard = 2; of = 2 ^ 2 }))).lower ≤ shard_for_fp (2 ^ 5) fp)
    × (shard_for_fp (2 ^ 5) fp
        < (get_shards (2 ^ 5) (some (record { shard = 2; of = 2 ^ 2 }))).upper)
get_shards-covers_example =
    get_shards-covers 5 2 2 (omega arith) third_of_four-IsShard fp (omega arith) third_matches

reads_lower :
    (get_shards (2 ^ 5) (some (record { shard = 2; of = 2 ^ 2 }))).lower ≤ shard_for_fp (2 ^ 5) fp
reads_lower =
    (get_shards-covers 5 2 2 (omega arith) third_of_four-IsShard fp (omega arith) third_matches).0

reads_upper :
    shard_for_fp (2 ^ 5) fp < (get_shards (2 ^ 5) (some (record { shard = 2; of = 2 ^ 2 }))).upper
reads_upper =
    (get_shards-covers 5 2 2 (omega arith) third_of_four-IsShard fp (omega arith) third_matches).1

get_shards-exact_example :
    ((get_shards (2 ^ 5) (some (record { shard = 2; of = 2 ^ 2 }))).filter ≡ false)
    × (match (new_shard 2 (2 ^ 2)) fp ≡ true)
get_shards-exact_example =
    get_shards-exact 5 2 2 (omega arith) third_of_four-IsShard (omega arith) fp (omega arith)
      reads_lower reads_upper

abbrev sample : List Sample
sample =
    record { offset = 10; fingerprint = 5 }
    ∷ record { offset = 20; fingerprint = 2 ^ 63 }
    ∷ record { offset = 30; fingerprint = 2 ^ 63 + 2 ^ 62 }
    ∷ []

sample-Agrees : Agrees sample 25 fp
sample-Agrees zero h = omega arith
sample-Agrees (suc zero) h = omega arith
sample-Agrees (suc (suc zero)) h = omega arith
sample-Agrees (suc (suc (suc n))) h = absurd (omega arith)

third_lower : (bounds (new_shard 2 4)).0 ≤ fp
unfolding bounds required_bits
third_lower = omega arith

third_upper : fp < (bounds (new_shard 2 4)).1
unfolding bounds required_bits
third_upper = omega arith

range-covers_example :
    ((range sample (new_shard 2 4)).0 ≤ 25) × (25 < (range sample (new_shard 2 4)).1)
range-covers_example =
    range-covers sample (new_shard 2 4) 25 fp sample-Agrees third_lower third_upper (omega arith)
