-- ===== src/Tsdb/BitPrefix.antt =====
-- pkg/phlaredb/tsdb/bitprefix.go: which shards of the inverted index a request reads.
pub mod Range
pub mod Cover
pub mod Inverted
use phlare.Base.{
  ℕ, zero, suc, ◌+◌, ◌-◌, ◌*◌, ◌/◌, ◌%◌, ◌^◌, ◌≤◌, ◌<◌, ◌≡◌, Bool, true, false, Option, none, some,
  ltb, leb, ◌==◌, if◌then◌else◌,
}
use phlare.Tsdb.Shard.{new_shard, required_bits, bounds, uint32_mod, shift_left}

-- pkg/phlaredb/tsdb/shard/shard.go: `Annotation`, whose fields are int
pub record Annotation : Type 0 where
  pub shard : ℕ
  pub of : ℕ

-- The slice `shards[lower:upper]` of an index, and whether its fingerprints need filtering.
pub record Selection : Type 0 where
  pub lower : ℕ
  pub upper : ℕ
  pub filter : Bool

-- `1<<requiredBits != factor`, of uint32; true if the factor is accepted
unfoldable pub validate_bit_prefix_shard_factor : ℕ → Bool
validate_bit_prefix_shard_factor factor =
    2 ^ required_bits (new_shard 0 factor) % uint32_mod == factor

-- `getShards` of an index with `n` shards
pub select_requested : ℕ → Annotation → Selection
select_requested n shard =
    let (min_fp, max_fp) = bounds (new_shard (shard.shard % uint32_mod) (shard.of % uint32_mod)) in
    let required = required_bits (new_shard 0 (n % uint32_mod)) in
    let upper = max_fp / 2 ^ (64 - required) in
    record {
      lower = min_fp / 2 ^ (64 - required);
      upper = if shift_left upper (64 - required) == max_fp then upper else suc upper;
      filter = ltb n shard.of;
    }

unfoldable pub get_shards : ℕ → Option Annotation → Selection
unfolding select_requested
get_shards n none = record { lower = 0; upper = n; filter = false }
get_shards n (some shard) = select_requested n shard

unfoldable pub shard_for_fp : ℕ → ℕ → ℕ
shard_for_fp n fp = fp / 2 ^ (64 - required_bits (new_shard 0 (n % uint32_mod)))
