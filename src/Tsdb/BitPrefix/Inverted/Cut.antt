-- ===== src/Tsdb/BitPrefix/Inverted/Cut.antt =====
-- What the two searches of `Lookup` cut out of an ascending result.
use mathlib.Core.Path.{subst}
use phlare.Base.{
  ℕ, zero, suc, ◌+◌, ◌-◌, ◌≤◌, ◌<◌, ◌≡◌, refl, sym, ap, ◌∙◌, Bool, true, false, ◌&&◌, List, [], ◌∷◌,
  inl, inr, arith, ltb, leb, length, get_or, take, drop, elem, Ascends, Ascends-weaken, length-drop,
  le→leb, Bool-cases,
}
use phlare.Base.Outcome.{ok, slice}
use phlare.Iter.Search.{search-Found, search-below}
use phlare.Iter.Slice.{reaches-Rises}
use phlare.Tsdb.Shard.{ShardAnnotation, bounds}
use phlare.Tsdb.Index.{position}
use phlare.Tsdb.Index.Intersect.{elem-below}
use phlare.Tsdb.BitPrefix.Inverted.{cut}

-- `j` splits the list into what is below `m` and the rest.
record Splits (m j : ℕ) (xs : List ℕ) : Type 0 where
  inside : j ≤ length xs
  low : (k : ℕ) → k < j → leb m (get_or xs k 0) ≡ false
  high : j < length xs → leb m (get_or xs j 0) ≡ true

position-Splits : (m lo : ℕ) (xs : List ℕ) → Ascends lo xs → Splits m (position m xs) xs
position-Splits m lo xs s =
    let found = search-Found (length xs) (λ i. leb m (get_or xs i 0)) in
    record {
      inside = found.inside;
      low = search-below (length xs) (λ i. leb m (get_or xs i 0)) (reaches-Rises m lo xs s);
      high = found.holds;
    }

tail-Splits : (m j x : ℕ) (xs : List ℕ) → Splits m (suc j) (x ∷ xs) → Splits m j xs
tail-Splits m j x xs p = record {
  inside = omega (arith, p.inside);
  low = λ k h. p.low (suc k) (omega arith);
  high = λ h. p.high (omega arith);
}

elem-drop :
    (z m j lo : ℕ) (xs : List ℕ)
    → Ascends lo xs
    → Splits m j xs
    → elem z (drop j xs) ≡ (elem z xs && leb m z)
elem-drop z m zero lo [] s p = refl
elem-drop z m zero lo (x ∷ xs) s p = elim (Bool-cases (leb m z)) [
  | inl e ↦ rw e (ground arith)
  | inr e ↦
      let least : m ≤ x = ground (arith, p.high (omega arith)) in
      let out = elem-below z m (x ∷ xs) (ground arith) (least, s.1) in ground (arith, e, out)
]
elem-drop z m (suc j) lo [] s p = refl
elem-drop z m (suc j) lo (x ∷ xs) s p =
    ground (arith, elem-drop z m j x xs s.1 (tail-Splits m j x xs p), p.low 0 (omega arith))

elem-take :
    (z m j lo : ℕ) (xs : List ℕ)
    → Ascends lo xs
    → Splits m j xs
    → elem z (take j xs) ≡ (elem z xs && ltb z m)
elem-take z m zero lo [] s p = refl
elem-take z m zero lo (x ∷ xs) s p = elim (Bool-cases (ltb z m)) [
  | inr e ↦ rw e (ground arith)
  | inl e ↦
      let least : m ≤ x = ground (arith, p.high (omega arith)) in
      let out = elem-below z m (x ∷ xs) (ground arith) (least, s.1) in ground (arith, e, out)
]
elem-take z m (suc j) lo [] s p = refl
elem-take z m (suc j) lo (x ∷ xs) s p =
    ground (arith, elem-take z m j x xs s.1 (tail-Splits m j x xs p), p.low 0 (omega arith))

get_or-drop : (p k : ℕ) (xs : List ℕ) → get_or (drop p xs) k 0 ≡ get_or xs (p + k) 0
get_or-drop zero k xs = ap (λ i. get_or xs i 0) (omega arith)
get_or-drop (suc p) k [] = refl
get_or-drop (suc p) k (x ∷ xs) =
    let next : suc (p + k) ≡ suc p + k = omega arith in
    get_or-drop p k xs ∙ ap (λ i. get_or (x ∷ xs) i 0) next

drop-Ascends : (p lo : ℕ) (xs : List ℕ) → Ascends lo xs → Ascends lo (drop p xs)
drop-Ascends zero lo xs s = s
drop-Ascends (suc p) lo [] s = tt
drop-Ascends (suc p) lo (x ∷ xs) s = drop-Ascends p lo xs (Ascends-weaken lo x xs s.0 s.1)

take-Ascends : (p lo : ℕ) (xs : List ℕ) → Ascends lo xs → Ascends lo (take p xs)
take-Ascends zero lo xs s = tt
take-Ascends (suc p) lo [] s = tt
take-Ascends (suc p) lo (x ∷ xs) s = (s.0, take-Ascends p x xs s.1)

module _ (min_fp max_fp lo : ℕ) (xs : List ℕ) (le : min_fp ≤ max_fp) (s : Ascends lo xs) where
  abbrev p : ℕ
  p = position min_fp xs

  abbrev q : ℕ
  q = position max_fp xs

  p-le-q : p ≤ q
  p-le-q =
      let low = position-Splits min_fp lo xs s in
      let high = position-Splits max_fp lo xs s in
      elim (Bool-cases (ltb q p)) [
        | inr e ↦ ground arith
        | inl e ↦
            let lt : q < p = ground arith in
            let under = low.low q lt in
            let over = high.high (omega (arith, low.inside)) in absurd (ground (arith, under, over))
      ]

  dropped-Splits : Splits max_fp (q - p) (drop p xs)
  dropped-Splits =
      let high = position-Splits max_fp lo xs s in
      record {
        inside = omega (arith, length-drop p xs, high.inside, p-le-q);
        low = λ k h.
            subst (λ v. leb max_fp v ≡ false) (sym (get_or-drop p k xs))
              (high.low (p + k) (omega (arith, p-le-q)));
        high = λ h.
            subst (λ v. leb max_fp v ≡ true) (sym (get_or-drop p (q - p) xs))
              (subst (λ i. leb max_fp (get_or xs i 0) ≡ true) (omega (arith, p-le-q))
                (high.high (omega (arith, length-drop p xs, p-le-q))));
      }

  abbrev piece : List ℕ
  piece = take (q - p) (drop p xs)

  slice_lem : slice p q xs ≡ ok piece
  slice_lem =
      let inside = (position-Splits max_fp lo xs s).inside in
      rw (le→leb p q p-le-q, le→leb q (length xs) inside) refl

  elem-piece : (z : ℕ) → elem z piece ≡ (elem z xs && (leb min_fp z && ltb z max_fp))
  elem-piece z =
      elem-take z max_fp (q - p) lo (drop p xs) (drop-Ascends p lo xs s) dropped-Splits
      ∙ regroup _ _ _ _ (elem-drop z min_fp p lo xs s (position-Splits min_fp lo xs s))
    where
      regroup : (d e l u : Bool) → d ≡ (e && l) → (d && u) ≡ (e && (l && u))
      regroup d e l u h = ground (arith, h)

-- The bounds of a shard cut an ascending result to the fingerprints between them.
pub cut_lem :
    (s : ShardAnnotation) (lo : ℕ) (xs : List ℕ)
    → (bounds s).0 ≤ (bounds s).1
    → Ascends lo xs
    → (result : List ℕ) × ((cut s xs ≡ ok result)
        × (Ascends lo result
            × ((z : ℕ)
                → elem z result ≡ (elem z xs && (leb (bounds s).0 z && ltb z (bounds s).1)))))
cut_lem s lo xs le a =
    let min_fp = (bounds s).0 in
    let max_fp = (bounds s).1 in
    (
      piece min_fp max_fp lo xs le a,
      (
        slice_lem min_fp max_fp lo xs le a,
        (
          take-Ascends (position max_fp xs - position min_fp xs) lo (drop (position min_fp xs) xs)
              (drop-Ascends (position min_fp xs) lo xs a),
          elem-piece min_fp max_fp lo xs le a,
        ),
      ),
    )
