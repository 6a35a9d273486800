-- ===== src/Iter/Search.antt =====
-- `sort.Search` of Go's standard library, which the iterators and the shard offsets call: the
-- smallest index below `n` at which `f` holds, by binary search.
use mathlib.Core.Path.{subst}
use phlare.Base.{
  ℕ, zero, suc, ◌+◌, ◌-◌, ◌/◌, ◌≤◌, ◌<◌, ◌≡◌, Bool, true, false, inl, inr, arith, ltb,
  if◌then◌else◌, Bool-cases,
}

-- `for i < j { h := (i + j) / 2; if !f(h) { i = h + 1 } else { j = h } }`
search_loop : ℕ → (ℕ → Bool) → ℕ → ℕ → ℕ
search_loop zero f i j = i
search_loop (suc fuel) f i j =
    let h = (i + j) / 2 in
    let lower = search_loop fuel f i h in
    let upper = search_loop fuel f (suc h) j in
    if ltb i j then (if f h then lower else upper) else i

unfoldable pub search : ℕ → (ℕ → Bool) → ℕ
unfolding search_loop
search n f = search_loop (suc n) f 0 n

pub record Found (n : ℕ) (f : ℕ → Bool) (r : ℕ) : Type 0 where
  pub inside : r ≤ n
  pub holds : r < n → f r ≡ true
  pub before : (k : ℕ) → suc k ≡ r → f k ≡ false

search_loop-Found :
    (fuel n : ℕ) (f : ℕ → Bool) (i j : ℕ)
    → j - i < fuel
    → i ≤ j
    → j ≤ n
    → (j < n → f j ≡ true)
    → ((k : ℕ) → suc k ≡ i → f k ≡ false)
    → Found n f (search_loop fuel f i j)
unfolding search_loop
search_loop-Found zero n f i j m le jn hi lo = absurd (omega arith)
search_loop-Found (suc fuel) n f i j m le jn hi lo = elim (Bool-cases (ltb i j)) [
  | inr done ↦
      let same : j ≡ i = ground arith in
      rw done
        (record { inside = omega arith; holds = λ r. rw same at (hi (omega arith)); before = lo })
  | inl more ↦
      let lt : i < j = ground arith in
      rw more (elim (Bool-cases (f ((i + j) / 2))) [
        | inl up ↦ rw up (
            search_loop-Found fuel n f i ((i + j) / 2) (omega arith) (omega arith) (omega arith)
              (λ _. up) lo)
        | inr down ↦ rw down (
            search_loop-Found fuel n f (suc ((i + j) / 2)) j (omega arith) (omega arith) jn hi
              (λ k e. subst (λ x. f x ≡ false) (omega arith) down))
      ])
]

-- The result splits the indices: `f` fails just before it, and holds at it unless it is `n`.
pub search-Found : (n : ℕ) (f : ℕ → Bool) → Found n f (search n f)
unfolding search
search-Found n f =
    search_loop-Found (suc n) n f 0 n (omega arith) (omega arith) (omega arith)
      (λ h. absurd (omega arith)) (λ k e. absurd (omega arith))

-- `f` stays true once it holds, as the callers' tests do over ascending data.
abbrev pub Rises : ℕ → (ℕ → Bool) → Type 0
Rises n f = (i j : ℕ) → i ≤ j → j < n → f i ≡ true → f j ≡ true

pub search-below : (n : ℕ) (f : ℕ → Bool) → Rises n f → (k : ℕ) → k < search n f → f k ≡ false
search-below n f rises k h =
    let found = search-Found n f in
    elim (Bool-cases (f k)) [
      | inr e ↦ e
      | inl e ↦
          let last = found.before (search n f - 1) (omega arith) in
          let up = rises k (search n f - 1) (omega arith) (omega (arith, found.inside)) e in cc
    ]

pub search-above :
    (n : ℕ) (f : ℕ → Bool) → Rises n f → (k : ℕ) → search n f ≤ k → k < n → f k ≡ true
search-above n f rises k h p = rises (search n f) k h p ((search-Found n f).holds (omega arith))
