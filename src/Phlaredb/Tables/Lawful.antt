-- ===== src/Phlaredb/Tables/Lawful.antt =====
-- The helpers of pkg/phlaredb compare keys, and no key depends on an identifier.
use phlare.Base.{ℕ, ◌≡◌, refl, Bool, true, false, ◌&&◌, arith, ◌==◌}
use phlare.Base.Order.{Bytes}
use phlare.Base.Map.{eq_bytes-same, eq_bytes_refl}
use phlare.Phlaredb.Dedup.{IsLawful}
use phlare.Phlaredb.Tables.{
  strings_helper, FunctionsKey, eq_functions_key, functions_helper, MappingsKey, eq_bool,
  eq_mappings_key, mappings_helper, LocationsKey, eq_locations_key, locations_helper,
  stacktraces_helper,
}

pub strings_helper-IsLawful : IsLawful strings_helper
strings_helper-IsLawful = record {
  eq_key-same = eq_bytes-same;
  eq_key_refl = eq_bytes_refl;
  key-set_id = λ i j m. refl;
  key-clone = λ m. refl;
  old-set_id = λ i j m. refl;
}

eq_functions_key-same : (j k : FunctionsKey) → eq_functions_key j k ≡ true → j ≡ k
eq_functions_key-same (a, b, c, d) (a', b', c', d') h =
    let e₀ : a ≡ a' = ground arith in
    let e₁ : b ≡ b' = ground arith in
    let e₂ : c ≡ c' = ground arith in let e₃ : d ≡ d' = ground arith in cc

pub functions_helper-IsLawful : (size : ℕ) → IsLawful (functions_helper size)
functions_helper-IsLawful size = record {
  eq_key-same = eq_functions_key-same;
  eq_key_refl = λ k. ground arith;
  key-set_id = λ i j m. refl;
  key-clone = λ m. refl;
  old-set_id = λ i j m. refl;
}

eq_bool-same : (p q : Bool) → eq_bool p q ≡ true → p ≡ q
eq_bool-same p q h = ground (arith, h)

both : (p q : Bool) → (p && q) ≡ true → (p ≡ true) × (q ≡ true)
both p q h = (ground (arith, h), ground (arith, h))

numbers-same :
    (a b c d e a' b' c' d' e' : ℕ)
    → (a == a' && (b == b' && (c == c' && (d == d' && e == e')))) ≡ true
    → ◌≡◌ {A = ℕ × ℕ × ℕ × ℕ × ℕ} (a, b, c, d, e) (a', b', c', d', e')
numbers-same a b c d e a' b' c' d' e' h =
    let e₀ : a ≡ a' = ground arith in
    let e₁ : b ≡ b' = ground arith in
    let e₂ : c ≡ c' = ground arith in
    let e₃ : d ≡ d' = ground arith in let e₄ : e ≡ e' = ground arith in cc

flags-same :
    (p q r s p' q' r' s' : Bool)
    → (eq_bool p p' && (eq_bool q q' && (eq_bool r r' && eq_bool s s'))) ≡ true
    → ◌≡◌ {A = Bool × Bool × Bool × Bool} (p, q, r, s) (p', q', r', s')
flags-same p q r s p' q' r' s' h =
    let h₀ = both (eq_bool p p') (eq_bool q q' && (eq_bool r r' && eq_bool s s')) h in
    let h₁ = both (eq_bool q q') (eq_bool r r' && eq_bool s s') h₀.1 in
    let h₂ = both (eq_bool r r') (eq_bool s s') h₁.1 in
    let e₀ = eq_bool-same p p' h₀.0 in
    let e₁ = eq_bool-same q q' h₁.0 in
    let e₂ = eq_bool-same r r' h₂.0 in let e₃ = eq_bool-same s s' h₂.1 in cc

eq_mappings_key-same : (j k : MappingsKey) → eq_mappings_key j k ≡ true → j ≡ k
eq_mappings_key-same ((a, b, c, d, e), (p, q, r, s)) ((a', b', c', d', e'), (p', q', r', s')) h =
    let halves =
      both (a == a' && (b == b' && (c == c' && (d == d' && e == e'))))
        (eq_bool p p' && (eq_bool q q' && (eq_bool r r' && eq_bool s s'))) h in
    let e₀ = numbers-same a b c d e a' b' c' d' e' halves.0 in
    let e₁ = flags-same p q r s p' q' r' s' halves.1 in cc

eq_bool_refl : (b : Bool) → eq_bool b b ≡ true
eq_bool_refl true = refl
eq_bool_refl false = refl

eq_mappings_key_refl : (k : MappingsKey) → eq_mappings_key k k ≡ true
eq_mappings_key_refl ((a, b, c, d, e), (p, q, r, s)) =
    rw (eq_bool_refl p, eq_bool_refl q, eq_bool_refl r, eq_bool_refl s) (ground arith)

pub mappings_helper-IsLawful : (size : ℕ) → IsLawful (mappings_helper size)
mappings_helper-IsLawful size = record {
  eq_key-same = eq_mappings_key-same;
  eq_key_refl = eq_mappings_key_refl;
  key-set_id = λ i j m. refl;
  key-clone = λ m. refl;
  old-set_id = λ i j m. refl;
}

eq_locations_key-same : (j k : LocationsKey) → eq_locations_key j k ≡ true → j ≡ k
eq_locations_key-same (a, b, c) (a', b', c') h =
    let e₀ : a ≡ a' = ground arith in
    let e₁ : b ≡ b' = ground arith in let e₂ : c ≡ c' = ground arith in cc

pub locations_helper-IsLawful :
    (sum64 : Bytes → ℕ) (size line : ℕ) → IsLawful (locations_helper sum64 size line)
locations_helper-IsLawful sum64 size line = record {
  eq_key-same = eq_locations_key-same;
  eq_key_refl = λ k. ground arith;
  key-set_id = λ i j m. refl;
  key-clone = λ m. refl;
  old-set_id = λ i j m. refl;
}

number-same : (j k : ℕ) → (j == k) ≡ true → j ≡ k
number-same j k h = ground arith

pub stacktraces_helper-IsLawful :
    (sum64 : Bytes → ℕ) (size : ℕ) → IsLawful (stacktraces_helper sum64 size)
stacktraces_helper-IsLawful sum64 size = record {
  eq_key-same = number-same;
  eq_key_refl = λ k. ground arith;
  key-set_id = λ i j m. refl;
  key-clone = λ m. refl;
  old-set_id = λ i j m. refl;
}
