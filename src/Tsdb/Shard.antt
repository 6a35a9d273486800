-- ===== src/Tsdb/Shard.antt =====
-- pkg/phlaredb/tsdb/index/shard.go and fingerprint.go: shards of the fingerprints by bit prefix.
-- Fingerprints and offsets are uint64, shard numbers uint32.
pub mod Powers
pub mod Match
use Prim.Native.Nat.{bit_xor}
use phlare.Base.{
  ℕ, zero, suc, ◌+◌, ◌-◌, ◌*◌, ◌/◌, ◌%◌, ◌^◌, ◌≤◌, ◌<◌, ◌≡◌, Bool, List, ltb, leb, ◌==◌,
  if◌then◌else◌,
}

abbrev pub uint64_mod : ℕ
uint64_mod = 2 ^ 64

abbrev pub uint32_mod : ℕ
uint32_mod = 2 ^ 32

-- `math.MaxUint64`
abbrev pub max_uint64 : ℕ
max_uint64 = 2 ^ 64 - 1

-- `x << n` on uint64; a shift by 64 or more leaves zero.
abbrev pub shift_left : ℕ → ℕ → ℕ
shift_left x n = x * 2 ^ n % uint64_mod

pub record ShardAnnotation : Type 0 where
  pub shard : ℕ
  pub of : ℕ

abbrev pub new_shard : ℕ → ℕ → ShardAnnotation
new_shard x of = record { shard = x; of = of }

log2_loop : ℕ → ℕ → ℕ
log2_loop zero n = 0
log2_loop (suc fuel) n = let more = suc (log2_loop fuel (n / 2)) in if leb n 1 then 0 else more

-- `uint64(math.Log2(float64(shard.Of)))`: the floor of the logarithm, for a positive uint32.
unfoldable pub required_bits : ShardAnnotation → ℕ
unfolding log2_loop
required_bits s = log2_loop s.of s.of

unfoldable pub match : ShardAnnotation → ℕ → Bool
match s fp =
    let required = required_bits s in
    let prefix = shift_left s.shard (64 - required) in
    ltb (bit_xor prefix fp) (shift_left 1 (64 - required))

unfoldable pub bounds : ShardAnnotation → ℕ × ℕ
bounds s =
    let required = required_bits s in
    let from = shift_left s.shard (64 - required) in
    let after = (s.shard + 1) % uint32_mod in
    if after == s.of then (from, max_uint64) else (from, shift_left after (64 - required))
