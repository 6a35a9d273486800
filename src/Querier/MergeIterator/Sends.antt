-- ===== src/Querier/MergeIterator/Sends.antt =====
-- The flags that a `mergeIterator` sends while a caller walks it.
use phlare.Base.Order.{true-false}
use phlare.Base.{
  ◌⊎◌, append_nil, ℕ, zero, suc, ◌+◌, ◌<◌, ◌≤◌, ltb, ◌≡◌, refl, sym, ap, ◌∙◌, Bool, true, false,
  Option, none, some, List, [], ◌∷◌, ◌++◌, map, if◌then◌else◌, inl, inr, arith, All, Bool-cases,
  length, ++-assoc,
}
use phlare.Tsdb.Index.{is_empty, LabelPair}
use phlare.Querier.SelectMerge.{Profile}
use phlare.Querier.MergeIterator.Lists.{
  total, InRange, read_profile-InRange, get_elem-append, set_true-append, map-snoc, map-append,
  length-snoc, length-middle,
}
use phlare.Querier.MergeIterator.{
  SeriesProfile, ProfileSets, read_profile, read_at, start_batch, MergeState, with_bidi, reset_keep,
  with_keep, new_merge_iterator, keep_curr, at_curr, received, after_send, next_profile,
}

module _ {S : Type 0} (choose : Profile → Bool) where
  -- A caller that keeps the profiles of its choice.
  abbrev visit_at : MergeState S → Option Profile → Option (MergeState S)
  visit_at s none = none
  visit_at s (some p) = if choose p then keep_curr s else some s

  abbrev go_on :
      (MergeState S → Option (MergeState S)) → Option (MergeState S) → Option (MergeState S)
  go_on onward none = none
  go_on onward (some s) = onward s

  abbrev drive_after :
      (MergeState S → Option (MergeState S)) → Bool × MergeState S → Option (MergeState S)
  drive_after onward (false, s) = some s
  drive_after onward (true, s) = go_on onward (visit_at s (at_curr s))

  module _ (send : List Bool → S → Option S) (receive : S → Option (S × ProfileSets)) where
    -- the caller's loop, on fuel
    pub drive : ℕ → MergeState S → Option (MergeState S)
    drive zero s = none
    drive (suc fuel) s = drive_after (drive fuel) (next_profile send receive s)

-- Sets with profiles, each of them with an index of a labels set.
abbrev pub IsBatch : ProfileSets → Type 0
IsBatch b =
    (is_empty b.profiles ≡ false) × All (λ p. InRange b.labels_sets p.label_index) b.profiles

-- whether a caller chooses what is read
abbrev pub chosen : (Profile → Bool) → Option Profile → Bool
chosen choose none = false
chosen choose (some p) = choose p

-- the flags of a batch
abbrev pub flags_for : (Profile → Bool) → ProfileSets → List Bool
flags_for choose b = map (λ p. chosen choose (read_profile b.labels_sets p)) b.profiles

-- A client: its state, the batches that it will receive, and what was sent to it.
module _ {S : Type 0} (send : List Bool → S → Option S) (receive : S → Option (S × ProfileSets))
    (inbox : S → List ProfileSets) (log : S → List (List Bool))
    (sends : (flags : List Bool) (c : S)
      → (c' : S) × (send flags c ≡ some c') × (inbox c' ≡ inbox c) × (log c' ≡ log c ++ flags ∷ []))
    (receives : (c : S) (b : ProfileSets) (batches : List ProfileSets)
      → inbox c ≡ b ∷ batches
      → (c' : S) × (receive c ≡ some (c', b)) × (inbox c' ≡ batches) × (log c' ≡ log c))
    (choose : Profile → Bool) where
  -- at a profile of a batch, before and after the caller's choice
  abbrev flag : List (List LabelPair) → SeriesProfile → Bool
  flag ls p = chosen choose (read_profile ls p)

  abbrev at_profile :
      S
      → List (List LabelPair)
      → List SeriesProfile
      → SeriesProfile
      → List SeriesProfile
      → List Bool
      → MergeState S
  at_profile c ls done p ahead flags = record {
    bidi = c;
    err = false;
    curr = record { labels_sets = ls; profiles = done ++ p ∷ ahead };
    curr_idx = length done;
    keep = map (flag ls) done ++ flags;
    keep_sent = false;
  }

  abbrev Finishes : Option (MergeState S) → List (List Bool) → Type 0
  Finishes o flags = (s : MergeState S) × (o ≡ some s) × (s.err ≡ false) × (log s.bidi ≡ flags)

  visit-at_profile :
      (c : S) (ls : List (List LabelPair)) (done : List SeriesProfile) (p : SeriesProfile)
      (ahead : List SeriesProfile)
      → InRange ls p.label_index
      → visit_at choose
          (at_profile c ls done p ahead (reset_keep (p ∷ ahead)))
          (at_curr (at_profile c ls done p ahead (reset_keep (p ∷ ahead))))
        ≡ some (at_profile c ls done p ahead (flag ls p ∷ reset_keep ahead))
  visit-at_profile c ls done p ahead inside =
      let (q, read) = read_profile-InRange ls p inside in
      let here = at_profile c ls done p ahead (reset_keep (p ∷ ahead)) in
      ap (visit_at choose here) (ap (read_at ls) (get_elem-append done p ahead) ∙ read)
      ∙ by_choice q (Bool-cases (choose q))
      ∙ ap (λ r. some (at_profile c ls done p ahead (chosen choose r ∷ reset_keep ahead)))
          (sym read)
    where
      by_choice :
          (q : Profile)
          → (choose q ≡ true) ⊎ (choose q ≡ false)
          → visit_at choose (at_profile c ls done p ahead (reset_keep (p ∷ ahead))) (some q)
            ≡ some (at_profile c ls done p ahead (choose q ∷ reset_keep ahead))
      by_choice q (inl e) = rw e (
          ap (with_keep (at_profile c ls done p ahead (reset_keep (p ∷ ahead))))
            (set_true-append (flag ls) done false (reset_keep ahead)))
      by_choice q (inr e) = rw e refl

  -- within a batch
  next_profile-within :
      (c : S) (ls : List (List LabelPair)) (done : List SeriesProfile) (p q : SeriesProfile)
      (ahead : List SeriesProfile)
      → next_profile send receive
          (at_profile c ls done p (q ∷ ahead) (flag ls p ∷ reset_keep (q ∷ ahead)))
        ≡ (true, at_profile c ls (done ++ p ∷ []) q ahead (reset_keep (q ∷ ahead)))
  unfolding next_profile
  next_profile-within c ls done p q ahead = rw (by_length _ _ (length-middle done (q ∷ ahead) p)) (
      ap
        (λ l.
          build l (suc (length done)) (map (flag ls) done ++ flag ls p ∷ reset_keep (q ∷ ahead)))
        (sym (++-assoc done (p ∷ []) (q ∷ ahead)))
      ∙ ap
          (λ n.
            build ((done ++ p ∷ []) ++ q ∷ ahead) n
              (map (flag ls) done ++ flag ls p ∷ reset_keep (q ∷ ahead)))
          (sym (length-snoc done p))
      ∙ ap (λ k. build ((done ++ p ∷ []) ++ q ∷ ahead) (length (done ++ p ∷ [])) k)
          (map-snoc (flag ls) done p (reset_keep (q ∷ ahead))))
    where
      build : List SeriesProfile → ℕ → List Bool → Bool × MergeState S
      build curr i keep = (
        true,
        record {
          bidi = c;
          err = false;
          curr = record { labels_sets = ls; profiles = curr };
          curr_idx = i;
          keep = keep;
          keep_sent = false;
        },
      )

      by_length : {n : ℕ} (d a : ℕ) → n ≡ suc (d + suc a) → ltb (suc d) n ≡ true
      by_length d a e = ground arith

  -- at the end of a batch
  next_profile-end :
      (c : S) (ls : List (List LabelPair)) (done : List SeriesProfile) (p : SeriesProfile)
      → next_profile send receive (at_profile c ls done p [] (flag ls p ∷ []))
        ≡ after_send send receive
            (at_profile c ls done p [] (flag ls p ∷ []))
            (send (map (flag ls) (done ++ p ∷ [])) c)
  unfolding next_profile
  next_profile-end c ls done p = rw (by_length _ (length-middle done [] p)) (
      ap
        (λ flags.
          after_send send receive (at_profile c ls done p [] (flag ls p ∷ [])) (send flags c))
        (map-append (flag ls) done p))
    where
      by_length : {n : ℕ} (d : ℕ) → n ≡ suc (d + 0) → ltb (suc d) n ≡ false
      by_length d e = ground arith

  Finishes-eq :
      {o o' : Option (MergeState S)} {flags flags' : List (List Bool)}
      → o ≡ o'
      → flags' ≡ flags
      → Finishes o' flags'
      → Finishes o flags
  Finishes-eq e f (s, g, h, i) = (s, e ∙ g, h, i ∙ f)

  -- what a walk from a profile that was looked at does, on some fuel
  Claim : ℕ → Type 0
  Claim fuel =
      (c : S) (ls : List (List LabelPair)) (done : List SeriesProfile) (p : SeriesProfile)
      (ahead : List SeriesProfile) (batches : List ProfileSets) (last : ProfileSets)
      (rest : List ProfileSets)
      → inbox c ≡ batches ++ last ∷ rest
      → last.profiles ≡ []
      → All (λ q. InRange ls q.label_index) ahead
      → All IsBatch batches
      → length ahead + total batches < fuel
      → Finishes
          (drive choose send receive fuel
            (at_profile c ls done p ahead (flag ls p ∷ reset_keep ahead)))
          (log c ++ map (flag ls) (done ++ p ∷ ahead) ∷ map (flags_for choose) batches)

  -- where a batch is at hand
  Claim-selected :
      (fuel : ℕ) (claim : Claim fuel) (s : MergeState S) (c : S) (ls : List (List LabelPair))
      (profiles : List SeriesProfile) (batches : List ProfileSets) (last : ProfileSets)
      (rest : List ProfileSets)
      → s.err ≡ false
      → inbox c ≡ batches ++ last ∷ rest
      → last.profiles ≡ []
      → IsBatch (record { labels_sets = ls; profiles = profiles })
      → All IsBatch batches
      → length profiles + total batches ≤ fuel
      → Finishes
          (drive_after choose
            (drive choose send receive fuel)
            (start_batch send receive s c ls profiles))
          (log c ++ map (flag ls) profiles ∷ map (flags_for choose) batches)
  unfolding Claim
  Claim-selected fuel claim s c ls [] batches last rest fine h ends here are l =
      absurd (true-false here.0)
  Claim-selected fuel claim s c ls (p ∷ ahead) batches last rest fine h ends here are l =
      Finishes-eq
        (ap (λ err. drive_after choose (drive choose send receive fuel) (true, first err)) fine
          ∙ ap (go_on choose (drive choose send receive fuel))
              (visit-at_profile c ls [] p ahead here.1.0))
        refl (claim c ls [] p ahead batches last rest h ends here.1.1 are (omega arith))
    where
      first : Bool → MergeState S
      first err = record {
        bidi = c;
        err = err;
        curr = record { labels_sets = ls; profiles = p ∷ ahead };
        curr_idx = 0;
        keep = reset_keep (p ∷ ahead);
        keep_sent = false;
      }

  -- where a batch is to be received
  Claim-received :
      (fuel : ℕ) (claim : Claim fuel) (s : MergeState S) (c : S) (batches : List ProfileSets)
      (last : ProfileSets) (rest : List ProfileSets)
      → s.err ≡ false
      → inbox c ≡ batches ++ last ∷ rest
      → last.profiles ≡ []
      → All IsBatch batches
      → total batches ≤ fuel
      → Finishes
          (drive_after choose
            (drive choose send receive fuel)
            (received send receive s (receive c)))
          (log c ++ map (flags_for choose) batches)
  Claim-received fuel claim s c [] last rest fine h ends are l =
      let (c', e, i, g) = receives c last rest h in
      let go = drive_after choose (drive choose send receive fuel) in
      Finishes-eq
        (ap (λ r. go (received send receive s r)) e
          ∙ ap (λ ps. go (start_batch send receive s c' last.labels_sets ps)) ends)
        (g ∙ append_nil (log c)) (with_bidi s c', refl, fine, refl)
  Claim-received fuel claim s c (b ∷ batches) last rest fine h ends are l =
      let (c', e, i, g) = receives c b (batches ++ last ∷ rest) h in
      Finishes-eq
        (ap (λ r. drive_after choose (drive choose send receive fuel) (received send receive s r))
          e)
        (ap (λ l. l ++ flags_for choose b ∷ map (flags_for choose) batches) g)
        (Claim-selected fuel claim s c' b.labels_sets b.profiles batches last rest fine i ends are.0
          are.1 l)

  drive-Claim : (fuel : ℕ) → Claim fuel
  unfolding Claim drive
  drive-Claim zero c ls done p ahead batches last rest h ends inside are l = absurd (omega arith)
  drive-Claim (suc fuel) c ls done p (q ∷ ahead) batches last rest h ends inside are l =
      Finishes-eq
        (ap (drive_after choose (drive choose send receive fuel))
            (next_profile-within c ls done p q ahead)
          ∙ ap (go_on choose (drive choose send receive fuel))
              (visit-at_profile c ls (done ++ p ∷ []) q ahead inside.0))
        (ap (λ b. log c ++ map (flag ls) b ∷ map (flags_for choose) batches)
          (++-assoc done (p ∷ []) (q ∷ ahead)))
        (drive-Claim fuel c ls (done ++ p ∷ []) q ahead batches last rest h ends inside.1 are
          (omega arith))
  drive-Claim (suc fuel) c ls done p [] batches last rest h ends inside are l =
      let flags = map (flag ls) (done ++ p ∷ []) in
      let s = at_profile c ls done p [] (flag ls p ∷ []) in
      let (c', e, i, g) = sends flags c in
      Finishes-eq
        (ap (drive_after choose (drive choose send receive fuel))
          (next_profile-end c ls done p ∙ ap (after_send send receive s) e))
        (ap (λ l. l ++ map (flags_for choose) batches) g
          ∙ ++-assoc (log c) (flags ∷ []) (map (flags_for choose) batches))
        (Claim-received fuel (drive-Claim fuel) (with_bidi s c') c' batches last rest refl (i ∙ h)
          ends are (omega arith))

  -- Over a client that takes every request and receives its batches in order, some with profiles,
  -- whose label indexes are all of labels sets of their batch, and then one without, a caller that
  -- walks the iterator and keeps the profiles of its choice comes to the end, without a panic or an
  -- error, and what was sent is for each batch, in order, one flag for each profile: whether it was
  -- chosen, by its time and the labels at its index.
  pub drive-sends :
      (c : S) (batches : List ProfileSets) (last : ProfileSets) (rest : List ProfileSets)
      → inbox c ≡ batches ++ last ∷ rest
      → last.profiles ≡ []
      → All IsBatch batches
      → (s : MergeState S) × (drive choose send receive (suc (total batches)) (new_merge_iterator c)
          ≡ some s)
        × (s.err ≡ false)
        × (log s.bidi ≡ log c ++ map (flags_for choose) batches)
  unfolding drive next_profile
  drive-sends c batches last rest h ends are =
      Claim-received (total batches) (drive-Claim (total batches))
        (with_bidi (new_merge_iterator c) c) c batches last rest refl h ends are (omega arith)
