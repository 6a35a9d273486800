-- ===== src/Phlaredb/Filter/Sets.antt =====
-- What a client reads from the sets of a batch.
use mathlib.Core.Path.{subst, ap₂}
use phlare.Base.{
  ℕ, zero, suc, ◌+◌, ◌^◌, ◌≤◌, ◌<◌, ◌≡◌, refl, sym, ap, ◌∙◌, Option, none, some, List, [], ◌∷◌,
  ◌++◌, map, ◌==◌, length, get_elem?, All, Bool-cases, Option-cases, inl, inr, arith, ++-assoc,
  length-append, append_nil,
}
use phlare.Base.Int.{ℤ, pos, negsuc, to_int32}
use phlare.Tsdb.Index.{LabelPair}
use phlare.Querier.SelectMerge.{Profile}
use phlare.Querier.MergeIterator.{SeriesProfile, ProfileSets, labels_at, labelled, read_profile}
use phlare.Phlaredb.Filter.{FoundProfile, find_series, place_profile, sets_loop, sets_of}

-- the time and labels of a profile that was found
abbrev pub shown : FoundProfile → Profile
shown p = record { timestamp = p.timestamp; labels = p.labels }

-- what the client's iterator reads of the sets
abbrev pub read_profiles : ProfileSets → List (Option Profile)
read_profiles sets = map (read_profile sets.labels_sets) sets.profiles

module _ (labels_of : ℕ → List LabelPair) where
  abbrev pub IsOfSeries : FoundProfile → Type 0
  IsOfSeries p = p.labels ≡ labels_of p.fingerprint

  Known : List (List LabelPair) → List (ℕ × ℕ) → Type 0
  Known labels_sets = All (λ e. get_elem? labels_sets e.1 ≡ some (labels_of e.0))

get_elem-append :
    (xs : List (List LabelPair)) (ys : List (List LabelPair)) (i : ℕ) (x : List LabelPair)
    → get_elem? xs i ≡ some x
    → get_elem? (xs ++ ys) i ≡ some x
get_elem-append [] ys i x h = absurd (none_some h)
  where
    none_some : ◌≡◌ {A = Option (List LabelPair)} none (some x) → ⊥
    none_some e = ground arith
get_elem-append (z ∷ xs) ys zero x h = h
get_elem-append (z ∷ xs) ys (suc i) x h = get_elem-append xs ys i x h

get_elem-end :
    (xs : List (List LabelPair)) (y : List LabelPair)
    → get_elem? (xs ++ y ∷ []) (length xs) ≡ some y
get_elem-end [] y = refl
get_elem-end (x ∷ xs) y = get_elem-end xs y

get_elem-lt :
    (xs : List (List LabelPair)) (i : ℕ) (x : List LabelPair)
    → get_elem? xs i ≡ some x
    → i < length xs
get_elem-lt [] i x h = absurd (ground arith)
get_elem-lt (z ∷ xs) zero x h = omega arith
get_elem-lt (z ∷ xs) (suc i) x h = omega (arith, get_elem-lt xs i x h)

labels_at-append :
    (xs ys : List (List LabelPair)) (i : ℤ) (x : List LabelPair)
    → labels_at xs i ≡ some x
    → labels_at (xs ++ ys) i ≡ some x
labels_at-append xs ys (pos i) x h = get_elem-append xs ys i x h
labels_at-append xs ys (negsuc i) x h = h

to_int32-small : (i : ℕ) → i < 2 ^ 31 → to_int32 i ≡ pos i
to_int32-small i h = ground arith

-- Each profile of the sets stands for a profile that was found.
Stand : List (List LabelPair) → List SeriesProfile → List FoundProfile → Type 0
Stand labels_sets [] [] = Unit
Stand labels_sets [] (p ∷ done) = ⊥
Stand labels_sets (q ∷ profiles) [] = ⊥
Stand labels_sets (q ∷ profiles) (p ∷ done) =
    (q.timestamp ≡ p.timestamp)
    × (labels_at labels_sets q.label_index ≡ some p.labels)
    × Stand labels_sets profiles done

Stand-append :
    (ls ys : List (List LabelPair)) (profiles : List SeriesProfile) (done : List FoundProfile)
    → Stand ls profiles done
    → Stand (ls ++ ys) profiles done
unfolding Stand
Stand-append ls ys [] [] st = tt
Stand-append ls ys [] (p ∷ done) st = absurd st
Stand-append ls ys (q ∷ profiles) [] st = absurd st
Stand-append ls ys (q ∷ profiles) (p ∷ done) st = (
  st.0,
  labels_at-append ls ys q.label_index p.labels st.1,
  Stand-append ls ys profiles done st.2,
)

Stand-snoc :
    (ls : List (List LabelPair)) (profiles : List SeriesProfile) (done : List FoundProfile)
    (q : SeriesProfile) (p : FoundProfile)
    → Stand ls profiles done
    → q.timestamp ≡ p.timestamp
    → labels_at ls q.label_index ≡ some p.labels
    → Stand ls (profiles ++ q ∷ []) (done ++ p ∷ [])
unfolding Stand
Stand-snoc ls [] [] q p st e f = (e, f, tt)
Stand-snoc ls [] (p' ∷ done) q p st e f = absurd st
Stand-snoc ls (q' ∷ profiles) [] q p st e f = absurd st
Stand-snoc ls (q' ∷ profiles) (p' ∷ done) q p st e f =
    (st.0, st.1, Stand-snoc ls profiles done q p st.2 e f)

-- what stands for the profiles is read as them
Stand-read :
    (ls : List (List LabelPair)) (profiles : List SeriesProfile) (done : List FoundProfile)
    → Stand ls profiles done
    → map (read_profile ls) profiles ≡ map (λ p. some (shown p)) done
unfolding Stand
Stand-read ls [] [] st = refl
Stand-read ls [] (p ∷ done) st = absurd st
Stand-read ls (q ∷ profiles) [] st = absurd st
Stand-read ls (q ∷ profiles) (p ∷ done) st =
    ap₂ (λ r rest. r ∷ rest)
      (ap (labelled q.timestamp) st.1
        ∙ ap (λ t. some (record { timestamp = t; labels = p.labels })) st.0)
      (Stand-read ls profiles done st.2)

placed :
    (ls : List (List LabelPair)) (ps : List SeriesProfile) (done : List FoundProfile)
    (p : FoundProfile) (i : ℕ)
    → Stand ls ps done
    → get_elem? ls i ≡ some p.labels
    → length ls ≤ 2 ^ 31
    → Stand ls (place_profile p i ls ps).profiles (done ++ p ∷ [])
placed ls ps done p i st e l =
    Stand-snoc ls ps done _ p st refl (small (get_elem-lt ls i p.labels e) ∙ e)
  where
    small : i < length ls → labels_at ls (to_int32 i) ≡ get_elem? ls i
    small h = ap (labels_at ls) (to_int32-small i (omega arith))

module _ (labels_of : ℕ → List LabelPair) where
  Known-append :
      (ls ys : List (List LabelPair)) (series : List (ℕ × ℕ))
      → Known labels_of ls series
      → Known labels_of (ls ++ ys) series
  unfolding Known
  Known-append ls ys [] known = tt
  Known-append ls ys (e ∷ series) known =
      (get_elem-append ls ys e.1 (labels_of e.0) known.0, Known-append ls ys series known.1)

  Known-cons :
      (ls : List (List LabelPair)) (p : FoundProfile) (series : List (ℕ × ℕ))
      → IsOfSeries labels_of p
      → Known labels_of ls series
      → Known labels_of (ls ++ p.labels ∷ []) ((p.fingerprint, length ls) ∷ series)
  unfolding Known
  Known-cons ls p series e known =
      (get_elem-end ls p.labels ∙ ap some e, Known-append ls (p.labels ∷ []) series known)

  find_series-Known :
      (ls : List (List LabelPair)) (fp i : ℕ) (series : List (ℕ × ℕ))
      → Known labels_of ls series
      → find_series fp series ≡ some i
      → get_elem? ls i ≡ some (labels_of fp)
  unfolding Known
  find_series-Known ls fp i [] known h = absurd (ground arith)
  find_series-Known ls fp i ((k, j) ∷ series) known h = elim (Bool-cases (fp == k)) [
    | inl e ↦
        let same : fp ≡ k = ground arith in
        let here : j ≡ i = ground arith in
        subst (λ n. get_elem? ls n ≡ some (labels_of fp)) here
          (subst (λ f. get_elem? ls j ≡ some (labels_of f)) (sym same) known.0)
    | inr e ↦ find_series-Known ls fp i series known.1 (ground arith)
  ]

  sets_loop-Stand :
      (batch : List FoundProfile) (series : List (ℕ × ℕ)) (ls : List (List LabelPair))
      (ps : List SeriesProfile) (done : List FoundProfile)
      → Known labels_of ls series
      → Stand ls ps done
      → All (IsOfSeries labels_of) batch
      → length ls + length batch ≤ 2 ^ 31
      → (r : ProfileSets) × (sets_loop batch series (record { labels_sets = ls; profiles = ps })
          ≡ r)
        × Stand r.labels_sets r.profiles (done ++ batch)
  unfolding sets_loop
  sets_loop-Stand [] series ls ps done known st of_series l =
      (record { labels_sets = ls; profiles = ps }, refl, subst (Stand ls ps) (append_nil done) st)
  sets_loop-Stand (p ∷ batch) series ls ps done known st of_series l =
      elim (Option-cases (find_series p.fingerprint series)) [
        | inl e ↦
            let ls' = ls ++ p.labels ∷ [] in
            let long = length-append ls (p.labels ∷ []) in
            let known' = Known-cons ls p series of_series.0 known in
            let (r, eq, st') =
              sets_loop-Stand batch ((p.fingerprint, length ls) ∷ series) ls'
                (place_profile p (length ls) ls' ps).profiles (done ++ p ∷ []) known'
                (placed ls' ps done p (length ls) (Stand-append ls (p.labels ∷ []) ps done st)
                  (get_elem-end ls p.labels) (omega (arith, long)))
                of_series.1 (omega (arith, long)) in
            (r, rw e eq, subst (Stand r.labels_sets r.profiles) (++-assoc done (p ∷ []) batch) st')
        | inr (i, e) ↦
            let (r, eq, st') =
              sets_loop-Stand batch series ls (place_profile p i ls ps).profiles (done ++ p ∷ [])
                known
                (placed ls ps done p i st
                  (find_series-Known ls p.fingerprint i series known e ∙ ap some (sym of_series.0))
                  (omega arith))
                of_series.1 (omega arith) in
            (r, rw e eq, subst (Stand r.labels_sets r.profiles) (++-assoc done (p ∷ []) batch) st')
      ]

  -- Where profiles of one fingerprint have the same labels and a batch holds at most 2^31 of them,
  -- reading the sets that are sent for the batch, each profile with the labels at its index, as the
  -- client's iterator does, gives the times and labels of the batch in order, and no index is out
  -- of range.
  pub read_profiles-sets_of :
      (batch : List FoundProfile)
      → All (IsOfSeries labels_of) batch
      → length batch ≤ 2 ^ 31
      → read_profiles (sets_of batch) ≡ map (λ p. some (shown p)) batch
  unfolding sets_of Stand Known
  read_profiles-sets_of batch of_series l =
      let (r, eq, st) = sets_loop-Stand batch [] [] [] [] tt tt of_series (omega arith) in
      ap read_profiles eq ∙ Stand-read r.labels_sets r.profiles batch st
