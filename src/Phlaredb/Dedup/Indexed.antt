-- ===== src/Phlaredb/Dedup/Indexed.antt =====
-- The invariant of a deduplicating slice, and what a round of its ingestion keeps.
use mathlib.Core.Path.{subst}
use phlare.Base.{
  ℕ, ◌≡◌, refl, sym, ap, ◌∙◌, true, false, Option, none, some, List, [], ◌∷◌, ◌++◌, inl, inr, arith,
  ◌==◌, length, get_elem?, Bool-cases,
}
use phlare.Phlaredb.Dedup.{Helper, IsLawful, DeduplicatingSlice, find_id, find_key, add_round}
use phlare.Phlaredb.Dedup.Lists.{get_elem?-append, get_elem?-last, get_elem?-split}

module _ {M K R : Type 0} (h : Helper M K R) (law : IsLawful h) where
  -- The lookup has a key exactly if an element of it is stored, at the position of that element.
  pub record IsIndexed (s : DeduplicatingSlice M K) : Type 0 where
    pub stored :
        (k : K) (p : ℕ)
        → find_key h k s.lookup ≡ some p
        → (m : M) × ((get_elem? s.slice p ≡ some m) × (h.key m ≡ k))
    pub found :
        (p : ℕ) (m : M) → get_elem? s.slice p ≡ some m → find_key h (h.key m) s.lookup ≡ some p

  -- what is stored stays at its position
  abbrev pub Extends : DeduplicatingSlice M K → DeduplicatingSlice M K → Type 0
  Extends s s' = (p : ℕ) (m : M) → get_elem? s.slice p ≡ some m → get_elem? s'.slice p ≡ some m

  -- the identifier that an element comes with
  abbrev pub old_of : ℕ × M → ℕ
  old_of q = (h.set_id q.0 0 q.1).1

  -- the rewriting map leads from an element to the stored one of its key
  abbrev pub IsRewritten : DeduplicatingSlice M K → List (ℕ × ℕ) → ℕ × M → Type 0
  IsRewritten s map q =
      (p : ℕ) × ((find_id (old_of q) map ≡ some p)
        × ((m : M) × ((get_elem? s.slice p ≡ some m) × (h.key m ≡ h.key q.1))))

  pub IsRewritten-extend :
      (s s' : DeduplicatingSlice M K) (map : List (ℕ × ℕ)) (q : ℕ × M)
      → Extends s s'
      → IsRewritten s map q
      → IsRewritten s' map q
  IsRewritten-extend s s' map q x (p, (e, (m, (f, k)))) = (p, (e, (m, (x p m f, k))))

  -- a write under the identifier of another element
  pub IsRewritten-other :
      (s : DeduplicatingSlice M K) (map : List (ℕ × ℕ)) (q : ℕ × M) (o p : ℕ)
      → ¬ (o ≡ old_of q)
      → IsRewritten s map q
      → IsRewritten s ((o, p) ∷ map) q
  IsRewritten-other s map q o p ne (i, (e, rest)) =
      let differs : (old_of q == o) ≡ false = other (old_of q) o ne in (i, (rw differs e, rest))
    where
      other : (a b : ℕ) → ¬ (b ≡ a) → (a == b) ≡ false
      other a b n = elim (Bool-cases (a == b)) [ inr e ↦ e | inl e ↦ absurd (n (ground arith)) ]

  -- a write under an element's own identifier
  pub IsRewritten-here :
      (s : DeduplicatingSlice M K) (map : List (ℕ × ℕ)) (q : ℕ × M) (j p : ℕ) (m : M)
      → get_elem? s.slice p ≡ some m
      → h.key m ≡ h.key q.1
      → IsRewritten s (((h.set_id q.0 j q.1).1, p) ∷ map) q
  IsRewritten-here s map q j p m e k =
      let same : (old_of q == (h.set_id q.0 j q.1).1) ≡ true =
        equal (old_of q) (h.set_id q.0 j q.1).1 (law.old-set_id q.0 j q.1) in
      (p, (rw same refl, (m, (e, k))))
    where
      equal : (a b : ℕ) → b ≡ a → (a == b) ≡ true
      equal a b n = ground arith

  -- what a round of the second pass leaves
  abbrev left : DeduplicatingSlice M K → List (ℕ × ℕ) → ℕ × M → DeduplicatingSlice M K
  left s map q = (add_round h s map q none).0

  left-Extends :
      (s : DeduplicatingSlice M K) (map : List (ℕ × ℕ)) (q : ℕ × M) → Extends s (left s map q)
  left-Extends s map q p m e =
      get_elem?-append s.slice ((h.set_id q.0 (length s.slice) (h.clone q.1)).0 ∷ []) p m e

  left-IsIndexed :
      (s : DeduplicatingSlice M K) (map : List (ℕ × ℕ)) (q : ℕ × M)
      → IsIndexed s
      → find_key h (h.key q.1) s.lookup ≡ none
      → IsIndexed (left s map q)
  left-IsIndexed s map q i missing =
      let m' = (h.set_id q.0 (length s.slice) (h.clone q.1)).0 in
      let key_is : h.key m' ≡ h.key q.1 =
        law.key-set_id q.0 (length s.slice) (h.clone q.1) ∙ law.key-clone q.1 in
      record {
        stored = λ k p e. elim (Bool-cases (h.eq_key k (h.key q.1))) [
          | inl same ↦
              let p_is : length s.slice ≡ p = cc (rw same at e) in
              (
                m',
                (
                  subst (λ n. get_elem? (s.slice ++ m' ∷ []) n ≡ some m') p_is
                      (get_elem?-last s.slice m'),
                  key_is ∙ sym (law.eq_key-same k (h.key q.1) same),
                ),
              )
          | inr differs ↦
              let (m, (f, k_is)) = i.stored k p (rw differs at e) in
              (m, (get_elem?-append s.slice (m' ∷ []) p m f, k_is))
        ];
        found = λ p m e. elim (get_elem?-split s.slice m' p m e) [
          | inl f ↦ elim (Bool-cases (h.eq_key (h.key m) (h.key q.1))) [
            | inl same ↦
                let bad : none ≡ some p =
                  sym missing
                  ∙ ap (λ k. find_key h k s.lookup)
                      (sym (law.eq_key-same (h.key m) (h.key q.1) same))
                  ∙ i.found p m f in
                absurd (ground (arith, bad))
            | inr differs ↦ rw differs (i.found p m f)
          ]
          | inr f ↦
              let same : h.eq_key (h.key m) (h.key q.1) ≡ true =
                ap (λ k. h.eq_key k (h.key q.1)) (ap h.key (sym f.1) ∙ key_is)
                ∙ law.eq_key_refl (h.key q.1) in
              rw same (ap some (sym f.0))
        ];
      }

  -- What a round comes to: the slice stays indexed and grows, the element is rewritten, and the others
  -- stay rewritten.
  pub record Adds (s : DeduplicatingSlice M K) (map : List (ℕ × ℕ)) (q : ℕ × M)
      (after : DeduplicatingSlice M K × List (ℕ × ℕ)) : Type 0 where
    pub indexed : IsIndexed after.0
    pub grown : Extends s after.0
    pub rewritten : IsRewritten after.0 after.1 q
    pub others :
        (r : ℕ × M) → ¬ (old_of q ≡ old_of r) → IsRewritten s map r → IsRewritten after.0 after.1 r

  pub add_round-Adds :
      (s : DeduplicatingSlice M K) (map : List (ℕ × ℕ)) (q : ℕ × M)
      → IsIndexed s
      → (o : Option ℕ) → find_key h (h.key q.1) s.lookup ≡ o
      → Adds s map q (add_round h s map q o)
  add_round-Adds s map q i (some p) e =
      let (m, (f, k)) = i.stored (h.key q.1) p e in
      record {
        indexed = i;
        grown = λ n m f. f;
        rewritten = IsRewritten-here s map q p p m f k;
        others = λ r ne w.
            IsRewritten-other s map r (h.set_id q.0 p q.1).1 p
              (λ same. ne (sym (law.old-set_id q.0 p q.1) ∙ same)) w;
      }
  add_round-Adds s map q i none e =
      let pos = length s.slice in
      let m' = (h.set_id q.0 pos (h.clone q.1)).0 in
      record {
        indexed = left-IsIndexed s map q i e;
        grown = left-Extends s map q;
        rewritten =
            IsRewritten-here (left s map q) map q pos pos m' (get_elem?-last s.slice m')
              (law.key-set_id q.0 pos (h.clone q.1) ∙ law.key-clone q.1);
        others = λ r ne w.
            IsRewritten-other (left s map q) map r (h.set_id q.0 pos q.1).1 pos
              (λ same. ne (sym (law.old-set_id q.0 pos q.1) ∙ same))
              (IsRewritten-extend s (left s map q) map r (left-Extends s map q) w);
      }
