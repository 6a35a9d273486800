-- ===== src/Phlaredb/Dedup/Lists.antt =====
-- Elements by position, and properties of all or some elements.
use mathlib.Core.Path.{subst}
use phlare.Base.{
  ℕ, zero, suc, ◌≡◌, refl, ap, some, List, [], ◌∷◌, ◌++◌, ◌⊎◌, inl, inr, arith, length, get_elem?,
  All,
}

module _ {A : Type 0} where
  -- the element stands in the list
  abbrev pub IsIn : A → List A → Type 0
  IsIn x [] = ⊥
  IsIn x (y ∷ ys) = (y ≡ x) ⊎ IsIn x ys

  pub get_elem?-append :
      (xs ys : List A) (p : ℕ) (m : A) → get_elem? xs p ≡ some m → get_elem? (xs ++ ys) p ≡ some m
  get_elem?-append [] ys p m h = absurd (ground (arith, h))
  get_elem?-append (x ∷ xs) ys zero m h = h
  get_elem?-append (x ∷ xs) ys (suc p) m h = get_elem?-append xs ys p m h

  pub get_elem?-last : (xs : List A) (m : A) → get_elem? (xs ++ m ∷ []) (length xs) ≡ some m
  get_elem?-last [] m = refl
  get_elem?-last (x ∷ xs) m = get_elem?-last xs m

  -- what stands in a list with one more element stood there or is the last
  pub get_elem?-split :
      (xs : List A) (m : A) (p : ℕ) (n : A)
      → get_elem? (xs ++ m ∷ []) p ≡ some n
      → (get_elem? xs p ≡ some n) ⊎ ((p ≡ length xs) × (m ≡ n))
  get_elem?-split [] m zero n h = inr (refl, cc)
  get_elem?-split [] m (suc p) n h = absurd (ground (arith, h))
  get_elem?-split (x ∷ xs) m zero n h = inl h
  get_elem?-split (x ∷ xs) m (suc p) n h = elim (get_elem?-split xs m p n h) [
    | inl e ↦ inl e
    | inr e ↦ inr (ap suc e.0, e.1)
  ]

  pub All-of : (P : A → Type 0) (x : A) (xs : List A) → IsIn x xs → All P xs → P x
  All-of P x [] i a = absurd i
  All-of P x (y ∷ ys) (inl e) a = subst P e a.0
  All-of P x (y ∷ ys) (inr i) a = All-of P x ys i a.1

  pub All-both :
      (P Q S : A → Type 0) (xs : List A)
      → ((x : A) → P x → Q x → S x)
      → All P xs
      → All Q xs
      → All S xs
  All-both P Q S [] f a b = tt
  All-both P Q S (x ∷ xs) f a b = (f x a.0 b.0, All-both P Q S xs f a.1 b.1)

  pub All-map : (P Q : A → Type 0) (xs : List A) → ((x : A) → P x → Q x) → All P xs → All Q xs
  All-map P Q [] f a = tt
  All-map P Q (x ∷ xs) f a = (f x a.0, All-map P Q xs f a.1)
