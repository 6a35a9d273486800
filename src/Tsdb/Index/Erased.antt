-- ===== src/Tsdb/Index/Erased.antt =====
-- What `delete` leaves of one sorted slice of fingerprints.
use phlare.Base.{
  ℕ, zero, suc, ◌≤◌, ◌<◌, ◌≡◌, refl, ap, true, false, not, ◌&&◌, ◌||◌, List, [], ◌∷◌, ◌++◌, inl,
  inr, arith, ltb, leb, ◌==◌, if◌then◌else◌, length, get_or, take, drop, elem, Ascends, Bool-cases,
}
use phlare.Base.Order.{IsAbove, IsStrict}
use phlare.Iter.Search.{search-Found, search-below}
use phlare.Iter.Slice.{reaches-Rises}
use phlare.Tsdb.Index.{position}

elem-above : (z x : ℕ) (xs : List ℕ) → z ≤ x → IsAbove ltb x xs → elem z xs ≡ false
elem-above z x [] h a = refl
elem-above z x (y ∷ xs) h a = ground (arith, a.0, elem-above z x xs h a.1)

-- the slice without the position `j`
abbrev pub erase_at : ℕ → List ℕ → List ℕ
erase_at j fps = take j fps ++ drop (suc j) fps

erase_at-IsAbove : (z j : ℕ) (fps : List ℕ) → IsAbove ltb z fps → IsAbove ltb z (erase_at j fps)
erase_at-IsAbove z zero [] a = tt
erase_at-IsAbove z zero (x ∷ fps) a = a.1
erase_at-IsAbove z (suc j) [] a = tt
erase_at-IsAbove z (suc j) (x ∷ fps) a = (a.0, erase_at-IsAbove z j fps a.1)

erase_at-IsStrict : (j : ℕ) (fps : List ℕ) → IsStrict ltb fps → IsStrict ltb (erase_at j fps)
erase_at-IsStrict zero [] s = tt
erase_at-IsStrict zero (x ∷ fps) s = s.1
erase_at-IsStrict (suc j) [] s = tt
erase_at-IsStrict (suc j) (x ∷ fps) s = (erase_at-IsAbove x j fps s.0, erase_at-IsStrict j fps s.1)

elem-erase_at :
    (z j fp : ℕ) (fps : List ℕ)
    → IsStrict ltb fps
    → ((k : ℕ) → k < j → leb fp (get_or fps k 0) ≡ false)
    → j < length fps
    → get_or fps j 0 ≡ fp
    → elem z (erase_at j fps) ≡ (elem z fps && not (z == fp))
elem-erase_at z j fp [] s low h e = absurd (omega arith)
elem-erase_at z zero fp (x ∷ fps) s low h e = elim (Bool-cases (z == fp)) [
  | inl same ↦ let out = elem-above z x fps (ground arith) s.0 in ground (arith, out)
  | inr differs ↦ ground arith
]
elem-erase_at z (suc j) fp (x ∷ fps) s low h e =
    let rest = elem-erase_at z j fp fps s.1 (λ k lt. low (suc k) (omega arith)) (omega arith) e in
    ground (arith, rest, low 0 (omega arith))

-- A fingerprint that is not at the position of the search is not in the slice.
elem-absent :
    (j fp : ℕ) (fps : List ℕ)
    → IsStrict ltb fps
    → ((k : ℕ) → k < j → leb fp (get_or fps k 0) ≡ false)
    → (j < length fps → leb fp (get_or fps j 0) ≡ true)
    → j ≤ length fps
    → (leb (length fps) j || not (get_or fps j 0 == fp)) ≡ true
    → elem fp fps ≡ false
elem-absent j fp [] s low high inside h = refl
elem-absent zero fp (x ∷ fps) s low high inside h =
    let above : fp < x = ground (arith, high (omega arith)) in
    ground (arith, elem-above fp x fps (omega arith) s.0)
elem-absent (suc j) fp (x ∷ fps) s low high inside h =
    let rest =
      elem-absent j fp fps s.1 (λ k lt. low (suc k) (omega arith)) (λ lt. high (omega arith))
        (omega arith) (ground arith) in
    ground (arith, rest, low 0 (omega arith))

IsAbove-Ascends : (lo : ℕ) (xs : List ℕ) → IsAbove ltb lo xs → IsStrict ltb xs → Ascends lo xs
IsAbove-Ascends lo [] a s = tt
IsAbove-Ascends lo (x ∷ xs) a s = (ground (arith, a.0), IsAbove-Ascends x xs s.0 s.1)

IsStrict-Ascends : (xs : List ℕ) → IsStrict ltb xs → Ascends 0 xs
IsStrict-Ascends [] s = tt
IsStrict-Ascends (x ∷ xs) s = (omega arith, IsAbove-Ascends x xs s.0 s.1)

-- what `delete` leaves of a slice
abbrev pub erased : ℕ → List ℕ → List ℕ
erased fp fps =
    let j = position fp fps in
    if leb (length fps) j || not (get_or fps j 0 == fp) then fps else erase_at j fps

pub erased_lem :
    (z fp : ℕ) (fps : List ℕ)
    → IsStrict ltb fps
    → IsStrict ltb (erased fp fps) × (elem z (erased fp fps) ≡ (elem z fps && not (z == fp)))
erased_lem z fp fps s =
    let test = λ (i : ℕ). leb fp (get_or fps i 0) in
    let j = position fp fps in
    let found = search-Found (length fps) test in
    let low = search-below (length fps) test (reaches-Rises fp 0 fps (IsStrict-Ascends fps s)) in
    elim (Bool-cases (leb (length fps) j || not (get_or fps j 0 == fp))) [
      | inl e ↦
          let out = elem-absent j fp fps s low found.holds found.inside e in
          rw e (s, without_it z fp fps out)
      | inr e ↦
          rw e (
            erase_at-IsStrict j fps s,
            elem-erase_at z j fp fps s low (ground arith) (ground arith),
          )
    ]
  where
    without_it :
        (z fp : ℕ) (fps : List ℕ) → elem fp fps ≡ false → elem z fps ≡ (elem z fps && not (z == fp))
    without_it z fp fps out = elim (Bool-cases (z == fp)) [
      | inr e ↦ ground arith
      | inl e ↦
          let same : elem z fps ≡ elem fp fps = ap (λ w. elem w fps) (ground arith) in
          ground (arith, same, out)
    ]
