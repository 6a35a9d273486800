-- ===== src/Query/Join/Scan.antt =====
-- What a pass over the iterators of a join finds: the lowest and the highest of the rows they are at.
use Prim.Native.Nat.{Ordering}
use phlare.Base.{
  ℕ, suc, ◌≤◌, ◌≡◌, refl, ap, ◌∙◌, true, false, List, [], ◌∷◌, ◌++◌, length, All, Bool-cases, ◌⊎◌,
  inl, inr, arith, length-append,
}
use phlare.Base.Order.{equal, lt-asym, not_below_trans}
use phlare.Query.Join.{Pass, lowest_after, highest_after, pass_over}
use phlare.Query.Join.Skip.{RowOrder}
use phlare.Query.Join.Cursors.{is_gt_law}

abbrev pub Any {ℓ} : {A : Type ℓ} → (A → Type 0) → List A → Type 0
Any P [] = ⊥
Any P (x ∷ xs) = P x ⊎ Any P xs

pub Any-map {ℓ} :
    {A : Type ℓ} (P Q : A → Type 0) (xs : List A) → ((x : A) → P x → Q x) → Any P xs → Any Q xs
Any-map P Q [] f a = a
Any-map P Q (x ∷ xs) f (inl p) = inl (f x p)
Any-map P Q (x ∷ xs) f (inr a) = inr (Any-map P Q xs f a)

-- the rows of a pass, the last one first, before those that were passed
abbrev pub rev_onto {ℓ} : {A : Type ℓ} → List A → List A → List A
rev_onto [] done = done
rev_onto (x ∷ xs) done = rev_onto xs (x ∷ done)

module _ {R K : Type 0} (m : RowOrder R K) where
  open m use {key, lt, o, compare, law}

  -- the lowest row of those that were passed, and the iterators that are at it
  pub record IsLowest (done : List R) (lowest : R) (iters : List ℕ) : Type 0 where
    pub low : All (λ d. lt (key d) (key lowest) ≡ false) done
    pub count : length iters ≤ length done
    pub same : length iters ≡ length done → All (λ d. equal lt (key d) (key lowest) ≡ true) done
    pub apart : (length iters ≡ length done) ⊎ Any (λ d. lt (key lowest) (key d) ≡ true) done
    pub low_at : Any (λ d. key d ≡ key lowest) done

  pub record IsHighest (done : List R) (highest : R) : Type 0 where
    pub high : All (λ d. lt (key highest) (key d) ≡ false) done
    pub high_at : Any (λ d. key d ≡ key highest) done

  weaken :
      (l d : R) (done : List R)
      → lt (key l) (key d) ≡ false
      → All (λ x. lt (key x) (key l) ≡ false) done
      → All (λ x. lt (key x) (key d) ≡ false) done
  weaken l d [] e a = tt
  weaken l d (x ∷ done) e a =
      (not_below_trans lt o (key d) (key l) (key x) e a.0, weaken l d done e a.1)

  raise :
      (h d : R) (done : List R)
      → lt (key d) (key h) ≡ false
      → All (λ x. lt (key h) (key x) ≡ false) done
      → All (λ x. lt (key d) (key x) ≡ false) done
  raise h d [] e a = tt
  raise h d (x ∷ done) e a =
      (not_below_trans lt o (key x) (key h) (key d) a.0 e, raise h d done e a.1)

  some_done : (P : R → Type 0) (done : List R) → Any P done → length done ≡ 0 → ⊥
  some_done P [] a e = a
  some_done P (x ∷ done) a e = absurd (omega arith)

  module _ (p : Pass R) (i : ℕ) (d : R) (done : List R) where
    abbrev step : Ordering → Pass R
    step c = lowest_after compare c i d p

    lower-lt :
        lt (key d) (key p.lowest_row_number) ≡ true
        → IsLowest done p.lowest_row_number p.lowest_iters
        → IsLowest (d ∷ done) d (i ∷ [])
    lower-lt e f = record {
      low = (
        o.irreflexive (key d),
        weaken p.lowest_row_number d done (lt-asym lt o (key d) (key p.lowest_row_number) e) f.low,
      );
      count = omega arith;
      same = λ h. absurd (some_done _ done f.low_at (omega arith));
      apart = inr (
          inr (
            Any-map (λ x. key x ≡ key p.lowest_row_number) (λ x. lt (key d) (key x) ≡ true) done
              (λ x h. ap (λ k. lt (key d) k) h ∙ e) f.low_at));
      low_at = inl refl;
    }

    lower-eq :
        lt (key d) (key p.lowest_row_number) ≡ false
        → lt (key p.lowest_row_number) (key d) ≡ false
        → IsLowest done p.lowest_row_number p.lowest_iters
        → IsLowest (d ∷ done) p.lowest_row_number (p.lowest_iters ++ i ∷ [])
    lower-eq e e' f =
        let n = length-append p.lowest_iters (i ∷ []) in
        record {
          low = (e, f.low);
          count = omega (arith, n, f.count);
          same = λ h. (rw e (rw e' refl), f.same (omega (arith, n, h)));
          apart = (elim f.apart [ inl g ↦ inl (omega (arith, n, g)) | inr g ↦ inr (inr g) ]);
          low_at = inr f.low_at;
        }

    lower-gt :
        lt (key p.lowest_row_number) (key d) ≡ true
        → IsLowest done p.lowest_row_number p.lowest_iters
        → IsLowest (d ∷ done) p.lowest_row_number p.lowest_iters
    lower-gt e f = record {
      low = (lt-asym lt o (key p.lowest_row_number) (key d) e, f.low);
      count = omega (arith, f.count);
      same = λ h. absurd (omega (arith, h, f.count));
      apart = inr (inl e);
      low_at = inr f.low_at;
    }

    pub step-IsLowest :
        IsLowest done p.lowest_row_number p.lowest_iters
        → IsLowest
            (d ∷ done)
            (step (compare d p.lowest_row_number)).lowest_row_number
            (step (compare d p.lowest_row_number)).lowest_iters
    step-IsLowest f = elim (Bool-cases (lt (key d) (key p.lowest_row_number))) [
      | inl e ↦ rw (law d p.lowest_row_number) (rw e (lower-lt e f))
      | inr e ↦ elim (Bool-cases (lt (key p.lowest_row_number) (key d))) [
        | inl e' ↦ rw (law d p.lowest_row_number) (rw e (rw e' (lower-gt e' f)))
        | inr e' ↦ rw (law d p.lowest_row_number) (rw e (rw e' (lower-eq e e' f)))
      ]
    ]

    pub highest_after-IsHighest :
        IsHighest done p.highest_row_number
        → IsHighest (d ∷ done) (highest_after compare d p).highest_row_number
    highest_after-IsHighest f = elim (Bool-cases (lt (key p.highest_row_number) (key d))) [
      | inl e ↦ rw (is_gt_law m d p.highest_row_number) (
          rw e (record {
            high = (
              o.irreflexive (key d),
              raise p.highest_row_number d done (lt-asym lt o (key p.highest_row_number) (key d) e)
                  f.high,
            );
            high_at = inl refl;
          }))
      | inr e ↦
          rw (is_gt_law m d p.highest_row_number)
            (rw e (record { high = (e, f.high); high_at = inr f.high_at }))
    ]

  -- the passes over rows
  abbrev pub pass_rows : ℕ → List R → Pass R → Pass R
  pass_rows i [] p = p
  pass_rows i (d ∷ rows) p = pass_rows (suc i) rows (pass_over compare i d p)

  abbrev pub IsPassed : List R → Pass R → Type 0
  IsPassed done p =
      IsLowest done p.lowest_row_number p.lowest_iters × IsHighest done p.highest_row_number

  pub pass_rows-IsPassed :
      (i : ℕ) (rows done : List R) (p : Pass R)
      → IsPassed done p
      → IsPassed (rev_onto rows done) (pass_rows i rows p)
  pass_rows-IsPassed i [] done p f = f
  pass_rows-IsPassed i (d ∷ rows) done p f =
      pass_rows-IsPassed (suc i) rows (d ∷ done) (pass_over compare i d p)
        (step-IsLowest p i d done f.0, by_lower (compare d p.lowest_row_number))
    where
      by_lower :
          (c : Ordering)
          → IsHighest
              (d ∷ done)
              (highest_after compare d (lowest_after compare c i d p)).highest_row_number
      by_lower Ordering.lt = highest_after-IsHighest p i d done f.1
      by_lower Ordering.eq = highest_after-IsHighest p i d done f.1
      by_lower Ordering.gt = highest_after-IsHighest p i d done f.1
