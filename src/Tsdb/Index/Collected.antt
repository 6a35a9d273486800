-- ===== src/Tsdb/Index/Collected.antt =====
-- What the lists that `lookup` collects and sorts hold.
use phlare.Base.{
  ℕ, ◌≤◌, ◌≡◌, refl, ap, ◌∙◌, Bool, false, ◌&&◌, ◌||◌, List, [], ◌∷◌, inl, inr, arith, leb, ◌==◌,
  elem, Ascends, Bool-cases,
}
use phlare.Base.Order.{Bytes}
use phlare.Tsdb.Index.{IndexEntry, fps_of, insert_sorted, sort, collect_set, collect_matching}
use phlare.Tsdb.Index.Store.{elem-append}

-- a value that the test accepts has the fingerprint
abbrev pub matches_any : ℕ → (Bytes → Bool) → IndexEntry → Bool
matches_any z matches [] = false
matches_any z matches ((value, fps) ∷ values) =
    matches value && elem z fps || matches_any z matches values

-- a word has the fingerprint
abbrev pub word_has : ℕ → List Bytes → IndexEntry → Bool
word_has z [] values = false
word_has z (word ∷ words) values = elem z (fps_of word values) || word_has z words values

insert_sorted-Ascends :
    (lo x : ℕ) (xs : List ℕ) → lo ≤ x → Ascends lo xs → Ascends lo (insert_sorted x xs)
insert_sorted-Ascends lo x [] h s = (h, tt)
insert_sorted-Ascends lo x (y ∷ xs) h s = elim (Bool-cases (leb x y)) [
  | inl e ↦ rw e (h, (ground arith, s.1))
  | inr e ↦ rw e (s.0, insert_sorted-Ascends y x xs (ground arith) s.1)
]

pub sort-Ascends : (xs : List ℕ) → Ascends 0 (sort xs)
unfolding sort
sort-Ascends [] = tt
sort-Ascends (x ∷ xs) = insert_sorted-Ascends 0 x (sort xs) (omega arith) (sort-Ascends xs)

elem-insert_sorted : (z x : ℕ) (xs : List ℕ) → elem z (insert_sorted x xs) ≡ (z == x || elem z xs)
elem-insert_sorted z x [] = refl
elem-insert_sorted z x (y ∷ xs) = elim (Bool-cases (leb x y)) [
  | inl e ↦ rw e refl
  | inr e ↦ rw e (ground (arith, elem-insert_sorted z x xs))
]

pub elem-sort : (z : ℕ) (xs : List ℕ) → elem z (sort xs) ≡ elem z xs
unfolding sort
elem-sort z [] = refl
elem-sort z (x ∷ xs) = elem-insert_sorted z x (sort xs) ∙ ap (λ b. z == x || b) (elem-sort z xs)

pub elem-collect_set :
    (z : ℕ) (words : List Bytes) (values : IndexEntry)
    → elem z (collect_set words values) ≡ word_has z words values
unfolding collect_set
elem-collect_set z [] values = refl
elem-collect_set z (word ∷ words) values =
    elem-append z (fps_of word values) (collect_set words values)
    ∙ ap (λ b. elem z (fps_of word values) || b) (elem-collect_set z words values)

pub elem-collect_matching :
    (z : ℕ) (matches : Bytes → Bool) (values : IndexEntry)
    → elem z (collect_matching matches values) ≡ matches_any z matches values
unfolding collect_matching
elem-collect_matching z matches [] = refl
elem-collect_matching z matches ((value, fps) ∷ values) = elim (Bool-cases (matches value)) [
  | inl e ↦ rw e (
      elem-append z fps (collect_matching matches values)
      ∙ ap (λ b. elem z fps || b) (elem-collect_matching z matches values))
  | inr e ↦ rw e (elem-collect_matching z matches values)
]
