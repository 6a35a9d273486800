-- ===== src/Tsdb/BitPrefix/Inverted/Placed.antt =====
-- Shards of an index that hold only the fingerprints of their own prefix, and what a pass over a
-- slice of them reads.
use mathlib.Core.Path.{subst}
use native.Mathlib.Nat.{le-div_iff_mul-le, div-lt_iff_lt-mul}
use phlare.Base.{
  ℕ, zero, suc, ◌+◌, ◌*◌, ◌^◌, ◌≤◌, ◌<◌, ◌≡◌, refl, ap, ◌∙◌, Bool, true, false, ◌||◌, Option, none,
  some, List, [], ◌∷◌, ◌++◌, arith, ◌==◌, ltb, if◌then◌else◌, elem, All, Ascends, get_elem?, length,
  take, drop, inl, inr, Bool-cases,
}
use phlare.Tsdb.Shard.{uint64_mod}
use phlare.Tsdb.BitPrefix.{shard_for_fp}
use phlare.Tsdb.Shard.Powers.{mul_le}
use phlare.Tsdb.BitPrefix.Range.{part, part-pos, shard_for_fp-part, ==→eq}
use phlare.Tsdb.Index.{Matcher}
use phlare.Tsdb.Index.Store.{IsSorted, elem-append}
use phlare.Tsdb.Index.Within.{IsWithin}
use phlare.Tsdb.Index.Within.Read.{all_fps-All, lookup-All, lookup-Ascends}
use phlare.Tsdb.BitPrefix.Inverted.{IndexShard, BitPrefixInvertedIndex, read_shard, read_shards}

All-map : (P Q : ℕ → Type 0) (xs : List ℕ) → ((x : ℕ) → P x → Q x) → All P xs → All Q xs
All-map P Q [] f a = tt
All-map P Q (x ∷ xs) f a = (f x a.0, All-map P Q xs f a.1)

Ascends-above : (lo : ℕ) (xs : List ℕ) → All (λ x. lo ≤ x) xs → Ascends 0 xs → Ascends lo xs
Ascends-above lo [] a s = tt
Ascends-above lo (x ∷ xs) a s = (a.0, s.1)

Ascends-append :
    (lo hi : ℕ) (xs ys : List ℕ)
    → lo ≤ hi
    → All (λ x. x ≤ hi) xs
    → Ascends lo xs
    → Ascends hi ys
    → Ascends lo (xs ++ ys)
Ascends-append lo hi [] [] h a s t = tt
Ascends-append lo hi [] (y ∷ ys) h a s t = (omega (arith, t.0), t.1)
Ascends-append lo hi (x ∷ xs) ys h a s t = (s.0, Ascends-append x hi xs ys a.0 a.1 s.1 t)

elem-other :
    (z : ℕ) (P : ℕ → Type 0) (xs : List ℕ)
    → ((x : ℕ) → P x → (z == x) ≡ false)
    → All P xs
    → elem z xs ≡ false
elem-other z P [] f a = refl
elem-other z P (x ∷ xs) f a = ground (arith, f x a.0, elem-other z P xs f a.1)

-- what a shard that may be missing answers of a fingerprint
abbrev pub has : ℕ → List Matcher → Option IndexShard → Bool
has fp matchers none = false
has fp matchers (some s) = elem fp (read_shard matchers s.idx)

same_branches {ℓ} : {A : Type ℓ} (b : Bool) (x : A) → x ≡ (if b then x else x)
same_branches true x = refl
same_branches false x = refl

pub get_elem?-take {ℓ} :
    {A : Type ℓ} (n k : ℕ) (xs : List A)
    → get_elem? (take n xs) k ≡ (if ltb k n then get_elem? xs k else none)
get_elem?-take zero k xs = ground arith
get_elem?-take (suc n) k [] = same_branches (ltb k (suc n)) none
get_elem?-take (suc n) zero (x ∷ xs) =
    let here : true ≡ ltb 0 (suc n) = ground arith in ap (λ b. if b then some x else none) here
get_elem?-take (suc n) (suc k) (x ∷ xs) =
    get_elem?-take n k xs ∙ ap (λ b. if b then get_elem? xs k else none) (shift k n)
  where
    shift : (k n : ℕ) → ltb k n ≡ ltb (suc k) (suc n)
    shift k n = ground arith

pub get_elem?-drop {ℓ} :
    {A : Type ℓ} (l k : ℕ) (xs : List A) → get_elem? (drop l xs) k ≡ get_elem? xs (l + k)
get_elem?-drop zero k xs = ap (get_elem? xs) (omega arith)
get_elem?-drop (suc l) k [] = refl
get_elem?-drop (suc l) k (x ∷ xs) =
    let next : suc (l + k) ≡ suc l + k = omega arith in
    get_elem?-drop l k xs ∙ ap (get_elem? (x ∷ xs)) next

neither : (p q : Bool) → p ≡ false → q ≡ false → (p || q) ≡ false
neither p q h k = ground (arith, h, k)

first : (p q : Bool) → q ≡ false → (p || q) ≡ p
first p q h = ground (arith, h)

module _ (a : ℕ) (few : a ≤ 31) where
  -- the fingerprint belongs to shard `i` of `2 ^ a`
  abbrev pub At : ℕ → ℕ → Type 0
  At i fp = (fp < uint64_mod) × (shard_for_fp (2 ^ a) fp ≡ i)

  -- the shards from number `i` on: each has sorted lists, of its own fingerprints
  abbrev pub ShardsAt : ℕ → List IndexShard → Type 0
  ShardsAt i [] = Unit
  ShardsAt i (s ∷ shards) = (IsWithin (At i) s.idx × IsSorted s.idx) × ShardsAt (suc i) shards

  pub ShardsAt-take :
      (i n : ℕ) (shards : List IndexShard) → ShardsAt i shards → ShardsAt i (take n shards)
  ShardsAt-take i zero shards w = tt
  ShardsAt-take i (suc n) [] w = tt
  ShardsAt-take i (suc n) (s ∷ shards) w = (w.0, ShardsAt-take (suc i) n shards w.1)

  pub ShardsAt-drop :
      (i l : ℕ) (shards : List IndexShard) → ShardsAt i shards → ShardsAt (l + i) (drop l shards)
  ShardsAt-drop i zero shards w = subst (λ n. ShardsAt n shards) (omega arith) w
  ShardsAt-drop i (suc l) [] w = tt
  ShardsAt-drop i (suc l) (s ∷ shards) w =
      subst (λ n. ShardsAt n (drop l shards)) (omega arith) (ShardsAt-drop (suc i) l shards w.1)

  read_shard-All :
      (i : ℕ) (matchers : List Matcher) (s : IndexShard)
      → IsWithin (At i) s.idx
      → All (At i) (read_shard matchers s.idx)
  read_shard-All i [] s w = all_fps-All (At i) s.idx w
  read_shard-All i (m ∷ ms) s w = lookup-All (At i) (m ∷ ms) s.idx w

  module _ (fp : ℕ) (matchers : List Matcher) where
    differs : (i x : ℕ) → ¬ (shard_for_fp (2 ^ a) fp ≡ i) → At i x → (fp == x) ≡ false
    differs i x ne at = elim (Bool-cases (fp == x)) [
      | inr e ↦ e
      | inl e ↦ absurd (ne (ap (shard_for_fp (2 ^ a)) (==→eq fp x e) ∙ at.1))
    ]

    elsewhere :
        (i : ℕ) (s : IndexShard)
        → IsWithin (At i) s.idx
        → ¬ (shard_for_fp (2 ^ a) fp ≡ i)
        → elem fp (read_shard matchers s.idx) ≡ false
    elsewhere i s w ne =
        elem-other fp (At i) (read_shard matchers s.idx) (λ x at. differs i x ne at)
          (read_shard-All i matchers s w)

    -- the shards after that of the fingerprint do not have it
    pub read_shards-before :
        (i : ℕ) (shards : List IndexShard)
        → ShardsAt i shards
        → shard_for_fp (2 ^ a) fp < i
        → elem fp (read_shards matchers shards) ≡ false
    read_shards-before i [] w h = refl
    read_shards-before i (s ∷ shards) w h =
        elem-append fp (read_shard matchers s.idx) (read_shards matchers shards)
        ∙ neither _ _ (elsewhere i s w.0.0 (λ e. absurd (omega arith)))
            (read_shards-before (suc i) shards w.1 (omega arith))

    -- and a slice that may have it answers as its shard does
    pub read_shards-at :
        (i k : ℕ) (shards : List IndexShard)
        → ShardsAt i shards
        → shard_for_fp (2 ^ a) fp ≡ k + i
        → elem fp (read_shards matchers shards) ≡ has fp matchers (get_elem? shards k)
    read_shards-at i k [] w e = refl
    read_shards-at i zero (s ∷ shards) w e =
        elem-append fp (read_shard matchers s.idx) (read_shards matchers shards)
        ∙ first _ _ (read_shards-before (suc i) shards w.1 (omega arith))
    read_shards-at i (suc k) (s ∷ shards) w e =
        elem-append fp (read_shard matchers s.idx) (read_shards matchers shards)
        ∙ ap (λ b. b || elem fp (read_shards matchers shards))
            (elsewhere i s w.0.0 (λ d. absurd (omega arith)))
        ∙ read_shards-at (suc i) k shards w.1 (omega arith)

  from_part : (i fp : ℕ) → At i fp → i * part a few ≤ fp
  from_part i fp at =
      (le-div_iff_mul-le {k = part a few} {x = i} {y = fp} (part-pos a few)).0
        (omega (arith, shard_for_fp-part a few fp, at.1))

  to_part : (i fp : ℕ) → At i fp → fp ≤ suc i * part a few
  to_part i fp at =
      let below =
        (div-lt_iff_lt-mul {k = part a few} {x = fp} {y = suc i} (part-pos a few)).0
          (omega (arith, shard_for_fp-part a few fp, at.1)) in
      omega arith

  -- A lookup over ascending shards ascends.
  pub read_shards-Ascends :
      (i : ℕ) (m : Matcher) (ms : List Matcher) (shards : List IndexShard)
      → ShardsAt i shards
      → Ascends (i * part a few) (read_shards (m ∷ ms) shards)
  read_shards-Ascends i m ms [] w = tt
  read_shards-Ascends i m ms (s ∷ shards) w =
      let found = read_shard (m ∷ ms) s.idx in
      let at = read_shard-All i (m ∷ ms) s w.0.0 in
      Ascends-append (i * part a few) (suc i * part a few) found (read_shards (m ∷ ms) shards)
        (mul_le i (suc i) (part a few) (omega arith))
        (All-map (At i) (λ x. x ≤ suc i * part a few) found (to_part i) at)
        (Ascends-above (i * part a few) found
          (All-map (At i) (λ x. i * part a few ≤ x) found (from_part i) at)
          (lookup-Ascends s.idx (m ∷ ms) w.0.1))
        (read_shards-Ascends (suc i) m ms shards w.1)

-- An index of `2 ^ a` shards, each of which holds, in sorted lists, fingerprints of its own only.
pub record IsWellFormed (a : ℕ) (ii : BitPrefixInvertedIndex) : Type 0 where
  pub few : a ≤ 31
  pub count : length ii.shards ≡ 2 ^ a
  pub placed : ShardsAt a few 0 ii.shards
