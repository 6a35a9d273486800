-- ===== src/Tsdb/Shard/Powers.antt =====
-- Powers of two, and the logarithm that `RequiredBits` takes.
use native.Mathlib.Nat.{add-zero, add-suc, pow-suc, mul_assoc}
use phlare.Base.{
  ℕ, zero, suc, ◌+◌, ◌-◌, ◌*◌, ◌/◌, ◌^◌, ◌≤◌, ◌<◌, ◌≡◌, false, inl, inr, Bool-cases, refl, sym, ap,
  ◌∙◌, arith, leb, gt→leb,
}
use phlare.Tsdb.Shard.{log2_loop, required_bits, new_shard, uint64_mod}

pub pow-pos : (k : ℕ) → 0 < 2 ^ k
pow-pos zero = omega arith
pow-pos (suc k) = omega (arith, pow-suc 2 k, pow-pos k)

pub lt-pow : (k : ℕ) → k < 2 ^ k
lt-pow zero = omega arith
lt-pow (suc k) = omega (arith, pow-suc 2 k, lt-pow k)

pub pow-add : (j k : ℕ) → 2 ^ (j + k) ≡ 2 ^ j * 2 ^ k
pow-add j zero = ap (λ n. 2 ^ n) (add-zero j) ∙ omega arith
pow-add j (suc k) =
    ap (λ n. 2 ^ n) (add-suc j k)
    ∙ pow-suc 2 (j + k)
    ∙ ap (λ t. t * 2) (pow-add j k)
    ∙ mul_assoc (2 ^ j) (2 ^ k) 2
    ∙ ap (λ t. 2 ^ j * t) (sym (pow-suc 2 k))

whole : (b : ℕ) → b ≤ 64 → b + (64 - b) ≡ 64
whole b h = omega arith

pub mul_lt : (a c p : ℕ) → a < c → 0 < p → a * p < c * p
mul_lt a c p h k = grind arith

pub mul_le : (a c p : ℕ) → a ≤ c → a * p ≤ c * p
mul_le a c p h = grind arith

-- `b` bits of prefix and the rest make a uint64.
pub pow_split : (b : ℕ) → b ≤ 64 → 2 ^ b * 2 ^ (64 - b) ≡ uint64_mod
pow_split b h = sym (pow-add b (64 - b)) ∙ ap (λ n. 2 ^ n) (whole b h)

log2_loop-pow : (fuel b : ℕ) → b < fuel → log2_loop fuel (2 ^ b) ≡ b
unfolding log2_loop
log2_loop-pow zero b h = absurd (omega arith)
log2_loop-pow (suc fuel) zero h = refl
log2_loop-pow (suc fuel) (suc b) h =
    let half : 2 ^ suc b / 2 ≡ 2 ^ b = omega (arith, pow-suc 2 b) in
    let big : leb (2 ^ suc b) 1 ≡ false =
      gt→leb (2 ^ suc b) 1 (omega (arith, pow-suc 2 b, pow-pos b)) in
    rw (big, half) (ap suc (log2_loop-pow fuel b (omega arith)))

pub required_bits-pow : (x b : ℕ) → required_bits (new_shard x (2 ^ b)) ≡ b
unfolding required_bits
required_bits-pow x b = log2_loop-pow (2 ^ b) b (lt-pow b)

log2_loop-le : (fuel n : ℕ) → 0 < n → n ≤ fuel → 2 ^ log2_loop fuel n ≤ n
unfolding log2_loop
log2_loop-le zero n p h = absurd (omega arith)
log2_loop-le (suc fuel) n p h = elim (Bool-cases (leb n 1)) [
  | inl e ↦ rw e (omega arith)
  | inr e ↦
      let big : 1 < n = ground arith in
      rw e (
        omega (
          arith,
          pow-suc 2 (log2_loop fuel (n / 2)),
          log2_loop-le fuel (n / 2) (omega arith) (omega arith),
        ))
]

pub pow-required_bits-le : (x n : ℕ) → 0 < n → 2 ^ required_bits (new_shard x n) ≤ n
unfolding required_bits
pow-required_bits-le x n p = log2_loop-le n n p (omega arith)
