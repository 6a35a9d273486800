-- ===== src/Phlaredb/Filter/Select.antt =====
-- What `filterProfiles` keeps of the profiles that were found.
use mathlib.Core.Path.{subst}
use phlare.Base.{
  ℕ, ◌^◌, ◌≤◌, ◌≡◌, refl, sym, ap, ◌∙◌, ◌⊎◌, inl, inr, Bool, true, false, Option, some, List, [],
  ◌∷◌, ◌++◌, map, if◌then◌else◌, length, All, Bool-cases, arith, ++-assoc, append_nil,
}
use phlare.Base.Outcome.{ok, ◌>>=◌}
use phlare.Iter.Batch.Rounds.{most, concat, IsBatch, each, finish, read_batch-batches}
use phlare.Tsdb.Index.{LabelPair}
use phlare.Querier.SelectMerge.{Profile}
use phlare.Querier.MergeIterator.{ProfileSets}
use phlare.Phlaredb.Filter.{
  FoundProfile, sets_of, pick, flags_of, after_send, filter_batch, filter_profiles,
}
use phlare.Phlaredb.Filter.Sets.{shown, read_profiles, IsOfSeries, read_profiles-sets_of}

abbrev pub retain {ℓ} : {A : Type ℓ} → (A → Bool) → List A → List A
retain f [] = []
retain f (x ∷ xs) = if f x then x ∷ retain f xs else retain f xs

retain-append {ℓ} :
    {A : Type ℓ} (f : A → Bool) (xs ys : List A) → retain f (xs ++ ys) ≡ retain f xs ++ retain f ys
retain-append f [] ys = refl
retain-append f (x ∷ xs) ys = elim (Bool-cases (f x)) [
  | inl e ↦ rw e (ap (λ l. x ∷ l) (retain-append f xs ys))
  | inr e ↦ rw e (retain-append f xs ys)
]

map-map : (batch : List FoundProfile) → map (λ p. some (shown p)) batch ≡ map some (map shown batch)
map-map [] = refl
map-map (p ∷ batch) = ap (λ l. some (shown p) ∷ l) (map-map batch)

pick-map :
    (f : Profile → Bool) (batch : List FoundProfile)
    → pick (map f (map shown batch)) batch ≡ ok (retain (λ p. f (shown p)) batch)
pick-map f [] = refl
pick-map f (p ∷ batch) = elim (Bool-cases (f (shown p))) [
  | inl e ↦ rw e (ap (λ o. o >>= λ l. ok (p ∷ l)) (pick-map f batch))
  | inr e ↦ rw e (pick-map f batch)
]

-- A client that answers the sets it reads with a flag for each profile: whether it wants it.
module _ {S : Type 0} (send : ProfileSets → S → Option S) (receive : S → S × Option (List Bool))
    (wanted : Profile → Bool)
    (answers : (sets : ProfileSets) (profiles : List Profile) (s : S)
      → read_profiles sets ≡ map some profiles
      → (s' : S) × (s'' : S) × (send sets s ≡ some s')
        × (receive s' ≡ (s'', some (map wanted profiles))))
    (labels_of : ℕ → List LabelPair) where
  filter_batch-retain :
      (batch : List FoundProfile) (s : S) (selection : List FoundProfile)
      → All (IsOfSeries labels_of) batch
      → length batch ≤ 2 ^ 31
      → (s' : S) × (filter_batch send receive batch (s, selection)
          ≡ ok (s', selection ++ retain (λ p. wanted (shown p)) batch))
  filter_batch-retain batch s selection of_series l =
      let (s', s'', sent, got) =
        answers (sets_of batch) (map shown batch) s
          (read_profiles-sets_of labels_of batch of_series l ∙ map-map batch) in
      (
        s'',
        ap (after_send send receive batch selection) sent
            ∙ ap
                (λ (r : S × Option (List Bool)).
                  pick (flags_of r.1) batch >>= λ chosen. ok (r.0, selection ++ chosen))
                got
            ∙ ap (λ o. o >>= λ chosen. ok (s'', selection ++ chosen)) (pick-map wanted batch),
      )

  each-retain :
      (size : ℕ) (batches : List (List FoundProfile)) (s : S) (selection : List FoundProfile)
      → size ≤ 2 ^ 31
      → All (IsBatch size) batches
      → All (IsOfSeries labels_of) (concat batches)
      → (s' : S) × (each (filter_batch send receive) batches (s, selection)
          ≡ ok (s', selection ++ retain (λ p. wanted (shown p)) (concat batches)))
  each-retain size [] s selection l bounded of_series =
      (s, ap (λ l. ok (s, l)) (append_nil selection))
  each-retain size (b ∷ batches) s selection l bounded of_series =
      let (here, later) = split_All b (concat batches) of_series in
      let (s', e) = filter_batch-retain b s selection here (within size (length b) l bounded.0.1) in
      let (s'', e') =
        each-retain size batches s' (selection ++ retain (λ p. wanted (shown p)) b) l bounded.1
          later in
      (
        s'',
        ap (λ o. o >>= each (filter_batch send receive) batches) e
            ∙ e'
            ∙ ap (λ l. ok (s'', l))
                (++-assoc selection (retain (λ p. wanted (shown p)) b)
                    (retain (λ p. wanted (shown p)) (concat batches))
                  ∙ ap (λ l. selection ++ l)
                      (sym (retain-append (λ p. wanted (shown p)) b (concat batches)))),
      )
    where
      within : (size n : ℕ) → size ≤ 2 ^ 31 → n ≤ most size → n ≤ 2 ^ 31
      within size n l h = ground arith

      split_All :
          (xs ys : List FoundProfile)
          → All (IsOfSeries labels_of) (xs ++ ys)
          → All (IsOfSeries labels_of) xs × All (IsOfSeries labels_of) ys
      split_All [] ys a = (tt, a)
      split_All (x ∷ xs) ys a = let (b, c) = split_All xs ys a.1 in ((a.0, b), c)

  -- Over a client that answers the sets it reads with a flag for each profile, whether it wants it,
  -- where profiles of one fingerprint have the same labels and the batch size is at most 2^31:
  -- `filterProfiles` ends without an error, and keeps of all profiles, in order, exactly those that
  -- the client wants.
  pub filter_profiles-retain :
      (size : ℕ) (profiles : List FoundProfile) (s : S)
      → size ≤ 2 ^ 31
      → All (IsOfSeries labels_of) profiles
      → (s' : S) × (filter_profiles send receive size profiles false s
          ≡ some (ok (s', retain (λ p. wanted (shown p)) profiles)))
  unfolding filter_profiles
  filter_profiles-retain size profiles s l of_series =
      let (batches, rest, e, cut, bounded, ends) =
        read_batch-batches size (filter_batch send receive) false profiles (s, []) in
      let whole : concat batches ≡ profiles =
        append_nil (concat batches) ∙ ap (λ r. concat batches ++ r) (sym (no_rest ends)) ∙ cut in
      let (s', e') =
        each-retain size batches s [] l bounded
          (subst (All (IsOfSeries labels_of)) (sym whole) of_series) in
      (
        s',
        e
            ∙ ap (λ o. some (o >>= finish size (filter_batch send receive) false)) e'
            ∙ ap (λ l. some (ok (s', retain (λ p. wanted (shown p)) l))) whole,
      )
    where
      no_rest : {r : List FoundProfile} → (r ≡ []) ⊎ (false ≡ true) → r ≡ []
      no_rest (inl e) = e
      no_rest (inr e) = absurd (ground arith)
