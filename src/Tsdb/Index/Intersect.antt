-- ===== src/Tsdb/Index/Intersect.antt =====
-- `intersect` of pkg/phlaredb/tsdb/index.go: the common fingerprints of two sorted slices.
use mathlib.Core.Path.{subst}
use phlare.Base.{
  ℕ, ◌<◌, ◌≡◌, refl, sym, ap, ◌∙◌, Bool, true, false, ◌&&◌, ◌||◌, Option, none, some, List, [], ◌∷◌,
  inl, inr, arith, if◌then◌else◌, ltb, ◌==◌, elem, All, Ascends, Ascends-weaken, Bool-cases,
}

-- the loop at `a[i:]` and `b[j:]`; a value that both hold moves `j` only
pub intersect_loop : List ℕ → List ℕ → List ℕ
intersect_loop [] right = []
intersect_loop (a ∷ left) [] = []
intersect_loop (a ∷ left) (b ∷ right) =
    let rest : List ℕ = elim (ltb a b) [
      | true ↦ intersect_loop left (b ∷ right)
      | false ↦ intersect_loop (a ∷ left) right
    ] in
    if a == b then a ∷ rest else rest

-- A nil slice stands for everything.
unfoldable pub intersect : Option (List ℕ) → List ℕ → List ℕ
unfolding intersect_loop
intersect none right = right
intersect (some left) right = intersect_loop left right

module _ (a b : ℕ) (left right : List ℕ) where
  loop_less :
      ltb a b ≡ true → intersect_loop (a ∷ left) (b ∷ right) ≡ intersect_loop left (b ∷ right)
  unfolding intersect_loop
  loop_less e = let ne : (a == b) ≡ false = ground arith in rw (e, ne, intersect_loop) refl

  loop_greater :
      ltb a b ≡ false
      → (a == b) ≡ false
      → intersect_loop (a ∷ left) (b ∷ right) ≡ intersect_loop (a ∷ left) right
  unfolding intersect_loop
  loop_greater e f = rw (e, f, intersect_loop) refl

  loop_same :
      ltb a b ≡ false
      → (a == b) ≡ true
      → intersect_loop (a ∷ left) (b ∷ right) ≡ a ∷ intersect_loop (a ∷ left) right
  unfolding intersect_loop
  loop_same e f = rw (e, f, intersect_loop) refl

pub elem-below : (z lo : ℕ) (xs : List ℕ) → z < lo → Ascends lo xs → elem z xs ≡ false
elem-below z lo [] h s = refl
elem-below z lo (x ∷ xs) h s = ground (arith, elem-below z x xs)

intersect_loop-Ascends :
    (lo : ℕ) (left right : List ℕ)
    → Ascends lo left
    → Ascends lo right
    → Ascends lo (intersect_loop left right)
unfolding intersect_loop
intersect_loop-Ascends lo [] right s t = tt
intersect_loop-Ascends lo (a ∷ left) [] s t = tt
intersect_loop-Ascends lo (a ∷ left) (b ∷ right) s t = elim (Bool-cases (ltb a b)) [
  | inl e ↦
      by_round (loop_less a b left right e)
        (intersect_loop-Ascends lo left (b ∷ right) (Ascends-weaken lo a left s.0 s.1) t)
  | inr e ↦ elim (Bool-cases (a == b)) [
    | inl f ↦
        let same : b ≡ a = ground arith in
        by_round (loop_same a b left right e f) (
          s.0,
          intersect_loop-Ascends a (a ∷ left) right (omega arith, s.1)
              (subst (λ n. Ascends n right) same t.1),
        )
    | inr f ↦
        by_round (loop_greater a b left right e f)
          (intersect_loop-Ascends lo (a ∷ left) right s (Ascends-weaken lo b right t.0 t.1))
  ]
]
  where
    by_round : {l m : List ℕ} → l ≡ m → Ascends lo m → Ascends lo l
    by_round e h = subst (Ascends lo) (sym e) h

elem-intersect_loop :
    (z lo : ℕ) (left right : List ℕ)
    → Ascends lo left
    → Ascends lo right
    → elem z (intersect_loop left right) ≡ (elem z left && elem z right)
unfolding intersect_loop
elem-intersect_loop z lo [] right s t = refl
elem-intersect_loop z lo (a ∷ left) [] s t = ground arith
elem-intersect_loop z lo (a ∷ left) (b ∷ right) s t = elim (Bool-cases (ltb a b)) [
  | inl e ↦
      let rest = elem-intersect_loop z lo left (b ∷ right) (Ascends-weaken lo a left s.0 s.1) t in
      let out : z ≡ a → elem z (b ∷ right) ≡ false =
        λ h. elem-below z b (b ∷ right) (ground arith) (omega arith, t.1) in
      ap (elem z) (loop_less a b left right e)
      ∙ rest
      ∙ skip_left (z == a) (elem z left) (elem z (b ∷ right)) (λ h. out (ground arith))
  | inr e ↦ elim (Bool-cases (a == b)) [
    | inl f ↦
        let rest =
          elem-intersect_loop z lo (a ∷ left) right s (Ascends-weaken lo b right t.0 t.1) in
        let same : (z == b) ≡ (z == a) = ap (λ n. z == n) (ground arith) in
        ap (elem z) (loop_same a b left right e f) ∙ ground (arith, rest, same)
    | inr f ↦
        let rest =
          elem-intersect_loop z lo (a ∷ left) right s (Ascends-weaken lo b right t.0 t.1) in
        let out : z ≡ b → elem z (a ∷ left) ≡ false =
          λ h. elem-below z a (a ∷ left) (ground arith) (omega arith, s.1) in
        ap (elem z) (loop_greater a b left right e f)
        ∙ rest
        ∙ skip_right (z == b) (elem z (a ∷ left)) (elem z right) (λ h. out (ground arith))
  ]
]
  where
    skip_left : (p q r : Bool) → (p ≡ true → r ≡ false) → (q && r) ≡ ((p || q) && r)
    skip_left true q r h = ground (arith, h refl)
    skip_left false q r h = refl

    skip_right : (p q r : Bool) → (p ≡ true → q ≡ false) → (q && r) ≡ (q && (p || r))
    skip_right true q r h = ground (arith, h refl)
    skip_right false q r h = refl

-- The intersection of two ascending slices, with or without repeated values, is ascending and holds
-- exactly what both hold.
pub intersect-Ascends :
    (z lo : ℕ) (left right : List ℕ)
    → Ascends lo left
    → Ascends lo right
    → Ascends lo (intersect (some left) right)
      × (elem z (intersect (some left) right) ≡ (elem z left && elem z right))
unfolding intersect
intersect-Ascends z lo left right s t =
    (intersect_loop-Ascends lo left right s t, elem-intersect_loop z lo left right s t)

-- what holds of all that both hold
module _ (P : ℕ → Type 0) where
  kept-All : (b : Bool) (x : ℕ) (xs : List ℕ) → P x → All P xs → All P (if b then x ∷ xs else xs)
  kept-All true x xs h a = (h, a)
  kept-All false x xs h a = a

  intersect_loop-All : (left right : List ℕ) → All P left → All P (intersect_loop left right)
  unfolding intersect_loop
  intersect_loop-All [] right l = tt
  intersect_loop-All (a ∷ left) [] l = tt
  intersect_loop-All (a ∷ left) (b ∷ right) l =
      let rest : List ℕ = elim (ltb a b) [
        | true ↦ intersect_loop left (b ∷ right)
        | false ↦ intersect_loop (a ∷ left) right
      ] in
      let rest-All : All P rest =
        which (ltb a b) (intersect_loop-All left (b ∷ right) l.1)
          (intersect_loop-All (a ∷ left) right l) in
      kept-All (a == b) a rest l.0 rest-All
    where
      which :
          (t : Bool)
          → All P (intersect_loop left (b ∷ right))
          → All P (intersect_loop (a ∷ left) right)
          → All P (elim t [
            | true ↦ intersect_loop left (b ∷ right)
            | false ↦ intersect_loop (a ∷ left) right
          ])
      which true h k = h
      which false h k = k

  pub intersect-All :
      (result : Option (List ℕ)) (right : List ℕ)
      → ((left : List ℕ) → result ≡ some left → All P left)
      → All P right
      → All P (intersect result right)
  unfolding intersect
  intersect-All none right a b = b
  intersect-All (some left) right a b = intersect_loop-All left right (a left refl)
