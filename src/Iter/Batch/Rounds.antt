-- ===== src/Iter/Batch/Rounds.antt =====
-- The batches into which `ReadBatch` cuts what an iterator gives.
use mathlib.Core.Path.{subst}
use phlare.Base.{
  ℕ, zero, suc, ◌+◌, ◌≤◌, ◌<◌, ◌≡◌, refl, ap, ◌∙◌, ◌⊎◌, inl, inr, Bool, true, false, ◌&&◌, Option,
  some, List, [], ◌∷◌, ◌++◌, if◌then◌else◌, leb, length, is_empty, All, Bool-cases, arith, ++-assoc,
  length-append,
}
use phlare.Base.Outcome.{Outcome, ok, failed, panicked, ◌>>=◌}
use phlare.Iter.Batch.{after_fn, fill, read_round, read_loop, read_batch}

-- the most that a batch holds, which is one where the size is zero
abbrev pub most : ℕ → ℕ
most size = if leb size 1 then 1 else size

abbrev pub concat {ℓ} : {A : Type ℓ} → List (List A) → List A
concat [] = []
concat (b ∷ batches) = b ++ concat batches

module _ {T : Type 0} where
  abbrev pub IsBatch : ℕ → List T → Type 0
  IsBatch size batch = (1 ≤ length batch) × (length batch ≤ most size)

  module _ {S : Type 0} where
    -- the function on one batch after the other, up to the first that it fails on
    abbrev pub each : (List T → S → Outcome S) → List (List T) → S → Outcome S
    each fn [] s = ok s
    each fn (b ∷ batches) s = fn b s >>= each fn batches

  record IsFilled (size n : ℕ) (items : List T) (r : List T × List T × Bool) : Type 0 where
    split : r.0 ++ r.1 ≡ items
    bound : n + length r.0 ≤ most size
    rests : (r.1 ≡ []) ⊎ (r.2 ≡ false)
    some_item : (is_empty items ≡ true) ⊎ (1 ≤ length r.0)

  fill-IsFilled :
      (size n : ℕ) (items : List T) → suc n ≤ most size → IsFilled size n items (fill size n items)
  unfolding fill
  fill-IsFilled size n [] h = record {
    split = refl;
    bound = omega arith;
    rests = inl refl;
    some_item = inl refl;
  }
  fill-IsFilled size n (x ∷ items) h = elim (Bool-cases (leb size (suc n))) [
    | inl e ↦ rw e (record {
      split = refl;
      bound = omega arith;
      rests = inr refl;
      some_item = inr (omega arith);
    })
    | inr e ↦
        let r = fill-IsFilled size (suc n) items (within e) in
        rw e (record {
          split = ap (λ l. x ∷ l) r.split;
          bound = further _ r.bound;
          rests = r.rests;
          some_item = inr (omega arith);
        })
  ]
    where
      within : leb size (suc n) ≡ false → suc (suc n) ≤ most size
      within e = ground arith

      further : (m : ℕ) → suc n + m ≤ most size → n + suc m ≤ most size
      further m e = omega arith

  module _ {S : Type 0} (size : ℕ) (fn : List T → S → Outcome S) (fails : Bool) where
    -- at the end of the iterator
    abbrev pub finish : S → Outcome S
    finish s = if fails then failed else ok s

    abbrev Cut : List T → S → Option (Outcome S) → Type 0
    Cut items s o =
        (batches : List (List T)) × (rest : List T) × (o ≡ some (each fn batches s >>= finish))
        × (concat batches ++ rest ≡ items)
        × All (IsBatch size) batches
        × ((rest ≡ []) ⊎ (fails ≡ true))

    Cut-cons :
        (batch rest : List T) (s : S) (onward : S → Option (Outcome S))
        → IsBatch size batch
        → ((s' : S) → Cut rest s' (onward s'))
        → (o : Outcome S) → fn batch s ≡ o
        → Cut (batch ++ rest) s (after_fn onward o)
    Cut-cons batch rest s onward bounded ih (ok s') e =
        let (batches, left, eq, cut, all, ends) = ih s' in
        (
          batch ∷ batches,
          left,
          eq ∙ rw e refl,
          ++-assoc batch (concat batches) left ∙ ap (λ l. batch ++ l) cut,
          (bounded, all),
          ends,
        )
    Cut-cons batch rest s onward bounded ih failed e =
        let (batches, left, eq, cut, all, ends) = ih s in
        (
          batch ∷ batches,
          left,
          rw e refl,
          ++-assoc batch (concat batches) left ∙ ap (λ l. batch ++ l) cut,
          (bounded, all),
          ends,
        )
    Cut-cons batch rest s onward bounded ih panicked e =
        let (batches, left, eq, cut, all, ends) = ih s in
        (
          batch ∷ batches,
          left,
          rw e refl,
          ++-assoc batch (concat batches) left ∙ ap (λ l. batch ++ l) cut,
          (bounded, all),
          ends,
        )

    round-Cut :
        (x : T) (items : List T) (r : List T × List T × Bool) (s : S)
        (onward : S → Option (Outcome S))
        → IsFilled size 0 (x ∷ items) r
        → ((s' : S) → Cut r.1 s' (onward s'))
        → Cut (x ∷ items) s (read_round size fn fails onward r.0 r.2 s)
    round-Cut x items r s onward filled ih = elim (Bool-cases (r.2 && fails)) [
      | inl e ↦
          let failing : fails ≡ true = ground arith in
          ([], x ∷ items, rw e (rw failing refl), refl, tt, inr failing)
      | inr e ↦ rw e (
          rw (some_first filled.some_item) (
            subst (λ l. Cut l s (after_fn onward (fn r.0 s))) filled.split
              (Cut-cons r.0 r.1 s onward (some_of filled.some_item, omega (arith, filled.bound)) ih
                (fn r.0 s) refl)))
    ]
      where
        some_of : (false ≡ true) ⊎ (1 ≤ length r.0) → 1 ≤ length r.0
        some_of (inl e) = absurd (ground arith)
        some_of (inr h) = h

        some_first : (false ≡ true) ⊎ (1 ≤ length r.0) → is_empty r.0 ≡ false
        some_first h = by_list r.0 (some_of h)
          where
            by_list : (l : List T) → 1 ≤ length l → is_empty l ≡ false
            by_list [] h = absurd (omega arith)
            by_list (y ∷ l) h = refl

    read_loop-nil : (fuel : ℕ) (s : S) → read_loop size fn fails (suc fuel) [] s ≡ some (finish s)
    unfolding read_loop fill
    read_loop-nil fuel s = by_end fails
      where
        by_end :
            (fails : Bool)
            → (if fails then some failed else some (ok s)) ≡ some (if fails then failed else ok s)
        by_end true = refl
        by_end false = refl

    read_loop-Cut :
        (fuel : ℕ) (items : List T) (s : S)
        → length items < fuel
        → Cut items s (read_loop size fn fails fuel items s)
    unfolding read_loop
    read_loop-Cut zero items s h = absurd (omega arith)
    read_loop-Cut (suc fuel) [] s h = ([], [], read_loop-nil fuel s, refl, tt, inl refl)
    read_loop-Cut (suc fuel) (x ∷ items) s h =
        let r = fill size 0 (x ∷ items) in
        let filled = fill-IsFilled size 0 (x ∷ items) (one_at_least size) in
        round-Cut x items r s (read_loop size fn fails fuel r.1) filled
          (λ s'. read_loop-Cut fuel r.1 s' (fewer r (length-append r.0 r.1) filled h))
      where
        one_at_least : (size : ℕ) → 1 ≤ most size
        one_at_least size = ground arith

        fewer :
            (r : List T × List T × Bool)
            → length (r.0 ++ r.1) ≡ length r.0 + length r.1
            → IsFilled size 0 (x ∷ items) r
            → suc (length items) < suc fuel
            → length r.1 < fuel
        fewer r e filled h =
            let all = ap length filled.split in
            elim filled.some_item [ inl f ↦ absurd (ground arith) | inr f ↦ omega arith ]

    -- `ReadBatch` ends, for any batch size and any function: it gives the function consecutive
    -- batches of what the iterator gives, each with at least one item and at most as many as the
    -- size, or one where the size is zero, up to the first batch that the function fails on; then
    -- it returns the iterator's error if it has one. Only items before such an error are left over.
    pub read_batch-batches :
        (items : List T) (s : S)
        → (batches : List (List T)) × (rest : List T) × (read_batch size fn fails items s
            ≡ some (each fn batches s >>= finish))
          × (concat batches ++ rest ≡ items)
          × All (IsBatch size) batches
          × ((rest ≡ []) ⊎ (fails ≡ true))
    unfolding read_batch
    read_batch-batches items s = read_loop-Cut (suc (length items)) items s (omega arith)
