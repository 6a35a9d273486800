-- ===== src/Query/Join/Skip.antt =====
-- Rows with the keys by which they are joined, and rows left out in front.
use Prim.Native.Nat.{Ordering}
use phlare.Base.{
  ◌≡◌, refl, sym, ap, ◌∙◌, Bool, true, false, not, ◌||◌, Option, none, some, List, [], ◌∷◌, ◌++◌,
  if◌then◌else◌, All, Bool-cases, ◌⊎◌, inl, inr, arith,
}
use phlare.Base.Order.{IsOrder, equal, equal-same, lt-asym, true-false}
use phlare.Query.Join.{IteratorResult, Cursor}

-- the comparison by two tests
abbrev pub order_of : Bool → Bool → Ordering
order_of true b = Ordering.lt
order_of false true = Ordering.gt
order_of false false = Ordering.eq

-- row numbers by the keys that a definition level reads of them: the order of the keys, the comparison
-- and the truncation
pub record RowOrder (R K : Type 0) : Type 0 where
  pub key : R → K
  pub lt : K → K → Bool
  pub o : IsOrder lt
  pub compare : R → R → Ordering
  pub law : (a b : R) → compare a b ≡ order_of (lt (key a) (key b)) (lt (key b) (key a))
  pub truncate : R → R
  pub same_key : (r : R) → key (truncate r) ≡ key r

module _ {K : Type 0} (lt : K → K → Bool) where
  -- what is below something below is below
  abbrev pub IsDown : (K → Bool) → Type 0
  IsDown below = (x y : K) → below y ≡ true → lt y x ≡ false → below x ≡ true

  module _ (o : IsOrder lt) where
    pub equal_refl : (x : K) → equal lt x x ≡ true
    equal_refl x = let e = o.irreflexive x in rw e refl

    -- a row that is left out has no key that is kept
    pub other :
        (below : K → Bool) (x k : K) → below x ≡ true → below k ≡ false → equal lt x k ≡ false
    other below x k e f = elim (Bool-cases (equal lt x k)) [
      | inl h ↦ absurd (true-false (sym e ∙ ap below (equal-same lt o x k h) ∙ f))
      | inr h ↦ h
    ]

module _ {R K : Type 0} (key : R → K) (lt : K → K → Bool) (max empty : R) where
  -- a row number between the two that a pass starts from
  abbrev pub IsRow : R → Type 0
  IsRow d = (lt (key empty) (key d) ≡ true) × (lt (key max) (key d) ≡ false)

module _ {R E : Type 0} where
  abbrev pub rows_at :
      Option (IteratorResult R E) → List (IteratorResult R E) → List (IteratorResult R E)
  rows_at none ahead = ahead
  rows_at (some r) ahead = r ∷ ahead

  -- what an iterator gives, with what was peeked at
  abbrev pub rows_of : Cursor R E → List (IteratorResult R E)
  rows_of c = rows_at c.peeked c.ahead

module _ {R E K : Type 0} (key : R → K) (lt : K → K → Bool) where
  abbrev pub key_of : IteratorResult R E → K
  key_of r = key r.row_number

  abbrev pub has : K → List (IteratorResult R E) → Bool
  has k [] = false
  has k (r ∷ rows) = equal lt (key_of r) k || has k rows

  -- the entries of all rows with a key
  abbrev pub gather : K → List (IteratorResult R E) → List E
  gather k [] = []
  gather k (r ∷ rows) = if equal lt (key_of r) k then r.entries ++ gather k rows else gather k rows

  abbrev pub skip_while : (K → Bool) → List (IteratorResult R E) → List (IteratorResult R E)
  skip_while below [] = []
  skip_while below (r ∷ rows) =
      let rest = skip_while below rows in if below (key_of r) then rest else r ∷ rows

  abbrev pub after : K → List (IteratorResult R E) → List (IteratorResult R E)
  after k = skip_while (λ x. not (lt k x))

  abbrev pub NotBelow : K → List (IteratorResult R E) → Type 0
  NotBelow k = All (λ r. lt (key_of r) k ≡ false)

  abbrev pub IsAscending : List (IteratorResult R E) → Type 0
  IsAscending [] = Unit
  IsAscending (r ∷ rows) = NotBelow (key_of r) rows × IsAscending rows

  module _ (max empty : R) where
    -- rows in ascending order of such row numbers
    abbrev pub AreRows : List (IteratorResult R E) → Type 0
    AreRows rows = IsAscending rows × All (λ r. IsRow key lt max empty r.row_number) rows

  module _ (o : IsOrder lt) where
    pub has-skip_while :
        (below : K → Bool) (k : K) (rows : List (IteratorResult R E))
        → below k ≡ false
        → has k (skip_while below rows) ≡ has k rows
    has-skip_while below k [] f = refl
    has-skip_while below k (r ∷ rows) f = elim (Bool-cases (below (key_of r))) [
      | inl e ↦ rw e (rw (other lt o below (key_of r) k e f) (has-skip_while below k rows f))
      | inr e ↦ rw e refl
    ]

    pub gather-skip_while :
        (below : K → Bool) (k : K) (rows : List (IteratorResult R E))
        → below k ≡ false
        → gather k (skip_while below rows) ≡ gather k rows
    gather-skip_while below k [] f = refl
    gather-skip_while below k (r ∷ rows) f = elim (Bool-cases (below (key_of r))) [
      | inl e ↦ rw e (rw (other lt o below (key_of r) k e f) (gather-skip_while below k rows f))
      | inr e ↦ rw e refl
    ]

    pub after-skip_while :
        (below : K → Bool) (k : K) (rows : List (IteratorResult R E))
        → IsDown lt below
        → below k ≡ false
        → after k (skip_while below rows) ≡ after k rows
    after-skip_while below k [] down f = refl
    after-skip_while below k (r ∷ rows) down f = elim (Bool-cases (below (key_of r))) [
      | inl e ↦
          rw e (rw (not_above (lt k (key_of r)) refl e) (after-skip_while below k rows down f))
      | inr e ↦ rw e refl
    ]
      where
        not_above :
            (b : Bool) → lt k (key_of r) ≡ b → below (key_of r) ≡ true → lt k (key_of r) ≡ false
        not_above true h e =
            absurd (true-false (sym (down k (key_of r) e (lt-asym lt o k (key_of r) h)) ∙ f))
        not_above false h e = h

    -- What is below all rows is none of them.
    pub has-NotBelow :
        (h k : K) (rows : List (IteratorResult R E))
        → NotBelow h rows
        → lt k h ≡ true
        → has k rows ≡ false
    has-NotBelow h k [] a e = refl
    has-NotBelow h k (r ∷ rows) a e =
        rw (differs (Bool-cases (equal lt (key_of r) k))) (has-NotBelow h k rows a.1 e)
      where
        differs :
            (equal lt (key_of r) k ≡ true) ⊎ (equal lt (key_of r) k ≡ false)
            → equal lt (key_of r) k ≡ false
        differs (inl f) =
            absurd
              (true-false (sym e ∙ ap (λ x. lt x h) (sym (equal-same lt o (key_of r) k f)) ∙ a.0))
        differs (inr f) = f

    pub IsAscending-skip_while :
        (below : K → Bool) (rows : List (IteratorResult R E))
        → IsAscending rows
        → IsAscending (skip_while below rows)
    IsAscending-skip_while below [] a = tt
    IsAscending-skip_while below (r ∷ rows) a = elim (Bool-cases (below (key_of r))) [
      | inl e ↦ rw e (IsAscending-skip_while below rows a.1)
      | inr e ↦ rw e a
    ]

    pub has-skipped :
        (below : K → Bool) (k : K) (rows : List (IteratorResult R E))
        → IsDown lt below
        → IsAscending rows
        → below k ≡ true
        → has k (skip_while below rows) ≡ false
    has-skipped below k [] down a f = refl
    has-skipped below k (r ∷ rows) down a f = elim (Bool-cases (below (key_of r))) [
      | inl e ↦ rw e (has-skipped below k rows down a.1 f)
      | inr e ↦ rw e (
          has-NotBelow (key_of r) k (r ∷ rows) (o.irreflexive (key_of r), a.0)
            (under (Bool-cases (lt k (key_of r))) e))
    ]
      where
        under :
            (lt k (key_of r) ≡ true) ⊎ (lt k (key_of r) ≡ false)
            → below (key_of r) ≡ false
            → lt k (key_of r) ≡ true
        under (inl h) e = h
        under (inr h) e = absurd (true-false (sym (down (key_of r) k f h) ∙ e))

    pub gather-NotBelow :
        (h k : K) (rows : List (IteratorResult R E))
        → NotBelow h rows
        → lt k h ≡ true
        → gather k rows ≡ []
    gather-NotBelow h k [] a e = refl
    gather-NotBelow h k (r ∷ rows) a e =
        let absent = has-NotBelow h k (r ∷ []) (a.0, tt) e in
        rw (first absent) (gather-NotBelow h k rows a.1 e)
      where
        first : (equal lt (key_of r) k || false) ≡ false → equal lt (key_of r) k ≡ false
        first e = ground arith
