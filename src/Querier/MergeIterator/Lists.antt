-- ===== src/Querier/MergeIterator/Lists.antt =====
-- Lists read and written behind the part of a batch that is done.
use phlare.Base.{
  ℕ, zero, suc, ◌+◌, ◌<◌, ◌≡◌, refl, ap, Bool, true, some, List, [], ◌∷◌, ◌++◌, map, arith, length,
  get_elem?,
}
use phlare.Base.Int.{ℤ, pos, negsuc}
use phlare.Tsdb.Index.{LabelPair}
use phlare.Querier.SelectMerge.{Profile}
use phlare.Querier.MergeIterator.{
  SeriesProfile, ProfileSets, set_true, behind, labels_at, labelled, read_profile,
}

abbrev pub total : List ProfileSets → ℕ
total [] = 0
total (b ∷ batches) = length b.profiles + total batches

-- The index of a profile is one of a labels set.
abbrev pub InRange : List (List LabelPair) → ℤ → Type 0
InRange labels_sets (pos i) = i < length labels_sets
InRange labels_sets (negsuc i) = ⊥

get_elem-InRange :
    (labels_sets : List (List LabelPair)) (i : ℕ)
    → i < length labels_sets
    → (labels : List LabelPair) × (get_elem? labels_sets i ≡ some labels)
get_elem-InRange [] i h = absurd (omega arith)
get_elem-InRange (l ∷ ls) zero h = (l, refl)
get_elem-InRange (l ∷ ls) (suc i) h = get_elem-InRange ls i (omega arith)

labels_at-InRange :
    (labels_sets : List (List LabelPair)) (i : ℤ)
    → InRange labels_sets i
    → (labels : List LabelPair) × (labels_at labels_sets i ≡ some labels)
labels_at-InRange labels_sets (pos i) h = get_elem-InRange labels_sets i h
labels_at-InRange labels_sets (negsuc i) h = absurd h

pub read_profile-InRange :
    (labels_sets : List (List LabelPair)) (p : SeriesProfile)
    → InRange labels_sets p.label_index
    → (q : Profile) × (read_profile labels_sets p ≡ some q)
read_profile-InRange labels_sets p h =
    let (labels, e) = labels_at-InRange labels_sets p.label_index h in
    (record { timestamp = p.timestamp; labels = labels }, ap (labelled p.timestamp) e)

pub get_elem-append :
    (done : List SeriesProfile) (p : SeriesProfile) (ahead : List SeriesProfile)
    → get_elem? (done ++ p ∷ ahead) (length done) ≡ some p
get_elem-append [] p ahead = refl
get_elem-append (d ∷ done) p ahead = get_elem-append done p ahead

pub set_true-append :
    (choose : SeriesProfile → Bool) (done : List SeriesProfile) (b : Bool) (keep : List Bool)
    → set_true (length done) (map choose done ++ b ∷ keep) ≡ some (map choose done ++ true ∷ keep)
set_true-append choose [] b keep = refl
set_true-append choose (d ∷ done) b keep =
    ap (behind (choose d)) (set_true-append choose done b keep)

pub map-snoc :
    (choose : SeriesProfile → Bool) (done : List SeriesProfile) (p : SeriesProfile)
    (keep : List Bool)
    → map choose done ++ choose p ∷ keep ≡ map choose (done ++ p ∷ []) ++ keep
map-snoc choose [] p keep = refl
map-snoc choose (d ∷ done) p keep = ap (λ l. choose d ∷ l) (map-snoc choose done p keep)

pub map-append :
    (choose : SeriesProfile → Bool) (done : List SeriesProfile) (p : SeriesProfile)
    → map choose done ++ choose p ∷ [] ≡ map choose (done ++ p ∷ [])
map-append choose [] p = refl
map-append choose (d ∷ done) p = ap (λ l. choose d ∷ l) (map-append choose done p)

pub length-snoc :
    (done : List SeriesProfile) (p : SeriesProfile) → length (done ++ p ∷ []) ≡ suc (length done)
length-snoc [] p = refl
length-snoc (d ∷ done) p = ap suc (length-snoc done p)

pub length-middle :
    (done ahead : List SeriesProfile) (p : SeriesProfile)
    → length (done ++ p ∷ ahead) ≡ suc (length done + length ahead)
length-middle [] ahead p = omega arith
length-middle (d ∷ done) ahead p = let i = length-middle done ahead p in omega arith
