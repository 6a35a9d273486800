-- ===== src/Phlaredb/Dedup.antt =====
-- pkg/phlaredb/deduplicating_slice.go: a slice that keeps one element of each key, and tells which
-- positions the elements of a profile come to. A table's helper is an interface. Positions and
-- identifiers are int64 and uint64 that are not negative.
pub mod Lists
pub mod Indexed
pub mod Passes
pub mod Flush
pub mod Tests
use phlare.Base.{
  ℕ, zero, suc, ◌+◌, ◌-◌, ◌/◌, ◌≡◌, Bool, true, false, Option, none, some, List, [], ◌∷◌, ◌++◌, ltb,
  ◌==◌, if◌then◌else◌, length,
}
use phlare.Base.Outcome.{Outcome, ok, failed, panicked, ◌>>=◌}

-- `Helper[M, K]` over rewriters `R`; `set_id` returns the element with its new identifier, and the
-- old one.
pub record Helper (M K R : Type 0) : Type 0 where
  pub key : M → K
  pub add_to_rewriter : R → List (ℕ × ℕ) → R
  pub rewrite : R → M → Outcome M
  pub set_id : ℕ → ℕ → M → M × ℕ
  pub size : M → ℕ
  pub clone : M → M
  pub eq_key : K → K → Bool

-- What every table's helper keeps to: keys are compared, and neither the identifier nor the way an
-- element is stored is part of its key; the old identifier does not depend on the new one.
pub record IsLawful {M K R : Type 0} (h : Helper M K R) : Type 0 where
  pub eq_key-same : (j k : K) → h.eq_key j k ≡ true → j ≡ k
  pub eq_key_refl : (k : K) → h.eq_key k k ≡ true
  pub key-set_id : (i j : ℕ) (m : M) → h.key (h.set_id i j m).0 ≡ h.key m
  pub key-clone : (m : M) → h.key (h.clone m) ≡ h.key m
  pub old-set_id : (i j : ℕ) (m : M) → (h.set_id i j m).1 ≡ (h.set_id i 0 m).1

-- the fields that hold data: `slice`, `size`, `lookup`, and how many rows were flushed
pub record DeduplicatingSlice (M K : Type 0) : Type 0 where
  pub slice : List M
  pub size : ℕ
  pub lookup : List (K × ℕ)
  pub rows_flushed : ℕ

-- the rewriting map of a profile, from old identifiers to positions; later writes stand in front.
abbrev pub find_id : ℕ → List (ℕ × ℕ) → Option ℕ
find_id i [] = none
find_id i ((j, p) ∷ m) = if i == j then some p else find_id i m

module _ {M K R : Type 0} (h : Helper M K R) where
  abbrev pub find_key : K → List (K × ℕ) → Option ℕ
  find_key k [] = none
  find_key k ((j, p) ∷ m) = if h.eq_key k j then some p else find_key k m

  -- the elements with their positions, `for pos := range elems`
  abbrev pub numbered : ℕ → List M → List (ℕ × M)
  numbered pos [] = []
  numbered pos (e ∷ elems) = (pos, e) ∷ numbered (suc pos) elems

  -- "rewrite elements"
  pub rewrite_all : R → List M → Outcome (List M)
  rewrite_all r [] = ok []
  rewrite_all r (e ∷ elems) = do e' ← h.rewrite r e; elems' ← rewrite_all r elems; ok (e' ∷ elems')

  -- the pass under the read lock: the rewriting map, and the elements that are missing
  abbrev pub known_round :
      ℕ × M
      → List (ℕ × ℕ) × List (ℕ × M)
      → (ℕ → List (ℕ × ℕ) × List (ℕ × M))
      → Option ℕ
      → List (ℕ × ℕ) × List (ℕ × M)
  known_round q absent present none = (absent.0, q ∷ absent.1)
  known_round q absent present (some p) = present p

  pub known_pass : List (K × ℕ) → List (ℕ × M) → List (ℕ × ℕ) → List (ℕ × ℕ) × List (ℕ × M)
  known_pass lookup [] map = (map, [])
  known_pass lookup (q ∷ pairs) map =
      let absent = known_pass lookup pairs map in
      let present = λ (p : ℕ). known_pass lookup pairs (((h.set_id q.0 p q.1).1, p) ∷ map) in
      known_round q absent present (find_key (h.key q.1) lookup)

  -- a round of the pass under the write lock, at what the slice has for the key by then. The element
  -- and its clone are one object, so that the clone gets the new identifier too.
  abbrev pub add_round :
      DeduplicatingSlice M K
      → List (ℕ × ℕ)
      → ℕ × M
      → Option ℕ
      → DeduplicatingSlice M K × List (ℕ × ℕ)
  add_round s map q (some p) = (s, ((h.set_id q.0 p q.1).1, p) ∷ map)
  add_round s map q none =
      let pos_slice = length s.slice in
      (
        record {
          slice = s.slice ++ (h.set_id q.0 pos_slice (h.clone q.1)).0 ∷ [];
          size = s.size + h.size q.1;
          lookup = (h.key q.1, pos_slice) ∷ s.lookup;
          rows_flushed = s.rows_flushed;
        },
        ((h.set_id q.0 pos_slice q.1).1, pos_slice) ∷ map,
      )

  pub add_pass :
      DeduplicatingSlice M K → List (ℕ × ℕ) → List (ℕ × M) → DeduplicatingSlice M K × List (ℕ × ℕ)
  add_pass s map [] = (s, map)
  add_pass s map (q ∷ missing) =
      let (s', map') = add_round s map q (find_key (h.key q.1) s.lookup) in add_pass s' map' missing

  -- "shortcut if not deduplication is requested"
  pub append_all : DeduplicatingSlice M K → List M → DeduplicatingSlice M K
  append_all s [] = s
  append_all s (e ∷ elems) =
      append_all
        (record {
          slice = s.slice ++ h.clone e ∷ [];
          size = s.size + h.size e;
          lookup = s.lookup;
          rows_flushed = s.rows_flushed;
        })
        elems

  -- `ingest`, where no other call comes between the two locks
  unfoldable pub ingest :
      Bool → DeduplicatingSlice M K → List M → R → Outcome (DeduplicatingSlice M K × R)
  unfolding rewrite_all known_pass add_pass append_all
  ingest is_deduplicating s elems r = do
    elems' ← rewrite_all r elems
    (let (map, missing) = known_pass s.lookup (numbered 0 elems') [] in
        let (s', map') = add_pass s map missing in
        ok (if is_deduplicating then (s', h.add_to_rewriter r map') else (append_all s elems', r)))

  -- `getIndex`
  abbrev pub get_index : DeduplicatingSlice M K → K → Option ℕ
  get_index s k = find_key k s.lookup
