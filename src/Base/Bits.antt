-- ===== src/Base/Bits.antt =====
-- Exclusive or with a shifted prefix, from the digit recursion.
use Prim.Native.Nat.{
  ℕ, zero, suc, ◌+◌, ◌*◌, ◌/◌, ◌%◌, ◌^◌, ◌≤◌, ◌<◌, bit_xor, digits, bit_xor-bitwise, differ,
}
use mathlib.Core.Path.{◌≡◌, refl, ap, ap₂, subst, sym, ◌∙◌}
use mathlib.Core.Logic.{◌↔◌}
use native.Mathlib.Nat.{div-div-eq-div-mul, pow-suc}
use native.Mathlib.Omega.{arith}

abbrev xor_digits : ℕ → ℕ → ℕ → ℕ
xor_digits n a b = digits (λ b. b) differ n a b

xor_digits_fuel : (n m a b : ℕ) → a ≤ n → a ≤ m → xor_digits n a b ≡ xor_digits m a b
xor_digits_fuel zero zero a b p q = refl
xor_digits_fuel zero (suc m) zero b p q = refl
xor_digits_fuel zero (suc m) (suc a) b p q = absurd (omega arith)
xor_digits_fuel (suc n) zero zero b p q = refl
xor_digits_fuel (suc n) zero (suc a) b p q = absurd (omega arith)
xor_digits_fuel (suc n) (suc m) zero b p q = refl
xor_digits_fuel (suc n) (suc m) (suc a) b p q =
    omega (arith, xor_digits_fuel n m (suc a / 2) (b / 2) (omega arith) (omega arith))

zero-bit_xor : (b : ℕ) → bit_xor 0 b ≡ b
zero-bit_xor b = bit_xor-bitwise 0 b

bit_xor_step : (a b : ℕ) → bit_xor a b ≡ bit_xor (a / 2) (b / 2) * 2 + differ (a % 2) (b % 2)
bit_xor_step zero b = ground (arith, zero-bit_xor b, zero-bit_xor (b / 2))
bit_xor_step (suc a) b = omega (
  arith,
  bit_xor-bitwise (suc a) b,
  bit_xor-bitwise (suc a / 2) (b / 2),
  xor_digits_fuel a (suc a / 2) (suc a / 2) (b / 2) (omega arith) (omega arith),
)

differ-zero : (x y : ℕ) → x < 2 → y < 2 → (differ x y ≡ 0) ↔ (x ≡ y)
differ-zero zero y h g = (λ e. sym e, λ e. sym e)
differ-zero (suc zero) zero h g = ground arith
differ-zero (suc zero) (suc zero) h g = ground arith
differ-zero (suc zero) (suc (suc y)) h g = absurd (omega arith)
differ-zero (suc (suc x)) y h g = absurd (omega arith)

bit_xor-eq : (fuel a b : ℕ) → a + b ≤ fuel → bit_xor a b ≡ 0 → a ≡ b
bit_xor-eq fuel zero b h e = sym e ∙ zero-bit_xor b
bit_xor-eq zero (suc a) b h e = absurd (omega arith)
bit_xor-eq (suc fuel) (suc a) b h e =
    let step = bit_xor_step (suc a) b in
    let low = (differ-zero (suc a % 2) (b % 2) (omega arith) (omega arith)).0 (omega arith) in
    let high = bit_xor-eq fuel (suc a / 2) (b / 2) (omega arith) (omega arith) in omega arith

bit_xor_self : (fuel a : ℕ) → a ≤ fuel → bit_xor a a ≡ 0
bit_xor_self fuel zero h = zero-bit_xor 0
bit_xor_self zero (suc a) h = absurd (omega arith)
bit_xor_self (suc fuel) (suc a) h =
    let step = bit_xor_step (suc a) (suc a) in
    let low = (differ-zero (suc a % 2) (suc a % 2) (omega arith) (omega arith)).1 refl in
    let high = bit_xor_self fuel (suc a / 2) (omega arith) in omega arith

differ-zero_left : (x y : ℕ) → x ≡ 0 → differ x y ≡ y
differ-zero_left zero y e = refl
differ-zero_left (suc x) y e = absurd (omega arith)

div_half : (k x : ℕ) → x / 2 ^ suc k ≡ x / 2 / 2 ^ k
div_half k x = ap (λ t. x / t) (omega (arith, pow-suc 2 k)) ∙ sym (div-div-eq-div-mul x 2 (2 ^ k))

xor_half : (k s x : ℕ) → bit_xor (s * 2 ^ suc k) x ≡ bit_xor (s * 2 ^ k) (x / 2) * 2 + x % 2
xor_half k s x =
    let a : ℕ = s * 2 ^ suc k in
    let whole : a ≡ s * (2 ^ k * 2) = ap (λ t. s * t) (pow-suc 2 k) in
    let half : a / 2 ≡ s * 2 ^ k = omega arith in
    let even : a % 2 ≡ 0 = omega arith in
    bit_xor_step a x
    ∙ ap₂ (λ u v. bit_xor u (x / 2) * 2 + v) half (differ-zero_left (a % 2) (x % 2) even)

-- The numbers that agree with the prefix `s` above their lowest `k` bits.
pub bit_xor-prefix : (k s x : ℕ) → (bit_xor (s * 2 ^ k) x < 2 ^ k) ↔ (x / 2 ^ k ≡ s)
bit_xor-prefix zero s x =
    let same : s * 2 ^ 0 ≡ s = omega arith in
    (
      (λ h. omega (arith, bit_xor-eq (s * 2 ^ 0 + x) (s * 2 ^ 0) x (omega arith) (omega arith))),
      (λ e.
          let at : x ≡ s * 2 ^ 0 = omega arith in
          subst (λ y. bit_xor (s * 2 ^ 0) y < 1) (sym at)
            (omega (arith, bit_xor_self (s * 2 ^ 0) (s * 2 ^ 0) (omega arith)))),
    )
bit_xor-prefix (suc k) s x =
    let ih = bit_xor-prefix k s (x / 2) in
    let size = pow-suc 2 k in
    (
      (λ h. div_half k x ∙ ih.0 (omega (arith, xor_half k s x))),
      (λ e. omega (arith, xor_half k s x, ih.1 (sym (div_half k x) ∙ e))),
    )
