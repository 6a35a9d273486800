-- ===== src/Query/RowNumber/Access.antt =====
-- The loops of `RowNumber` that write, entry by entry.
use phlare.Base.{
  ℕ, zero, suc, ◌+◌, ◌≤◌, ◌<◌, ◌≡◌, refl, ap, some, [], ◌∷◌, ◌&&◌, arith, ltb, leb, if◌then◌else◌,
  ◌==◌, length, get_elem?, set,
}
use phlare.Base.Int.{ℤ}
use phlare.Query.RowNumber.{RowNumber, store, fill, copy_loop}

pub get_elem?-set :
    (t : RowNumber) (i j : ℕ) (v : ℤ)
    → i < length t
    → get_elem? (set t i v) j ≡ (if i == j then some v else get_elem? t j)
get_elem?-set [] i j v h = absurd (omega arith)
get_elem?-set (x ∷ t) zero zero v h = refl
get_elem?-set (x ∷ t) zero (suc j) v h = ground arith
get_elem?-set (x ∷ t) (suc i) zero v h = ground arith
get_elem?-set (x ∷ t) (suc i) (suc j) v h = ground (arith, get_elem?-set t i j v (omega arith))

pub length-set : (t : RowNumber) (i : ℕ) (v : ℤ) → length (set t i v) ≡ length t
length-set [] i v = refl
length-set (x ∷ t) zero v = refl
length-set (x ∷ t) (suc i) v = ap suc (length-set t i v)

pub get_elem?-inside : (t : RowNumber) (i : ℕ) → i < length t → (x : ℤ) × (get_elem? t i ≡ some x)
get_elem?-inside [] i h = absurd (omega arith)
get_elem?-inside (x ∷ t) zero h = (x, refl)
get_elem?-inside (x ∷ t) (suc i) h = get_elem?-inside t i (omega arith)

pub store-inside : (t : RowNumber) (i : ℕ) (v : ℤ) → i < length t → store t i v ≡ some (set t i v)
unfolding store
store-inside t i v h = ground arith

-- `t'` is `t` with `v` at the `n` entries from `i` on.
pub record Filled (n i : ℕ) (v : ℤ) (t t' : RowNumber) : Type 0 where
  pub size : length t' ≡ length t
  pub entry :
      (j : ℕ) → get_elem? t' j ≡ (if leb i j && ltb j (i + n) then some v else get_elem? t j)

pub fill_lem :
    (n i : ℕ) (v : ℤ) (t : RowNumber)
    → i + n ≤ length t
    → (t' : RowNumber) × (fill n i v t ≡ some t') × Filled n i v t t'
unfolding fill
fill_lem zero i v t h = (t, refl, record { size = refl; entry = λ j. ground arith })
fill_lem (suc n) i v t h =
    let (t', e, f) = fill_lem n (suc i) v (set t i v) (omega (arith, length-set t i v)) in
    (
      t',
      rw (store-inside t i v (omega arith)) e,
      record {
        size = omega (arith, f.size, length-set t i v);
        entry = λ j. ground (arith, f.entry j, get_elem?-set t i j v);
      },
    )

-- The copy loop overwrites `n` from `i` on with the entries of `from`.
pub record Copied (k i : ℕ) (from n n' : RowNumber) : Type 0 where
  pub size : length n' ≡ length n
  pub entry :
      (j : ℕ)
      → get_elem? n' j ≡ (if leb i j && ltb j (i + k) then get_elem? from j else get_elem? n j)

pub copy_loop_lem :
    (k i : ℕ) (from n : RowNumber)
    → i + k ≤ length n
    → i + k ≤ length from
    → (n' : RowNumber) × (copy_loop k i from n ≡ some n') × Copied k i from n n'
unfolding copy_loop
copy_loop_lem zero i from n h g = (n, refl, record { size = refl; entry = λ j. ground arith })
copy_loop_lem (suc k) i from n h g =
    let (x, at) = get_elem?-inside from i (omega arith) in
    let (n', e, c) =
      copy_loop_lem k (suc i) from (set n i x) (omega (arith, length-set n i x)) (omega arith) in
    (
      n',
      rw (at, store-inside n i x (omega arith)) e,
      record {
        size = omega (arith, c.size, length-set n i x);
        entry = λ j. ground (arith, c.entry j, get_elem?-set n i j x, at);
      },
    )
