-- ===== src/Tsdb/Index/Within.antt =====
-- A property of all the fingerprints that an index holds passes to what `add` and `delete` leave of
-- it and to what is read from it.
pub mod Read
use phlare.Base.{
  ℕ, zero, suc, ◌≡◌, Bool, true, false, Option, none, some, List, [], ◌∷◌, ◌++◌, inl, inr, arith,
  ltb, leb, ◌==◌, if◌then◌else◌, take, drop, elem, length, get_or, not, ◌||◌, All, take-All,
  drop-All, Bool-cases,
}
use phlare.Base.Order.{Bytes}
use phlare.Base.Map.{find, put, remove, eq_bytes}
use phlare.Tsdb.Index.{
  LabelPair, IndexEntry, UnlockIndex, Matcher, MatchType, match_equal, match_not_equal,
  match_regexp, match_not_regexp, or_empty, entry_of, fps_of, insert_sorted, sort, collect_set,
  collect_matching, of_set, of_type, to_intersect, lookup_loop, lookup, fps_of_entry, fps_of_index,
  dedup_loop, all_fps, position, insert_at, is_empty, is_none, store_fps, add_pair, add, delete_in,
  delete_from, delete_pair, delete,
}
use phlare.Tsdb.Index.Intersect.{intersect, intersect_loop}
use phlare.Tsdb.Index.SetMatches.{find_set_matches}

pub append-All :
    {A : Type 0} (P : A → Type 0) (xs ys : List A) → All P xs → All P ys → All P (xs ++ ys)
append-All P [] ys a b = b
append-All P (x ∷ xs) ys a b = (a.0, append-All P xs ys a.1 b)

pub either {ℓ} :
    {A : Type ℓ} (P : A → Type 0) (b : Bool) (x y : A) → P x → P y → P (if b then x else y)
either P true x y h k = h
either P false x y h k = k

-- every value of a map has the property
abbrev pub Values : {W : Type 0} → (W → Type 0) → List (Bytes × W) → Type 0
Values Q [] = Unit
Values Q ((k, v) ∷ m) = Q v × Values Q m

module _ {V : Type 0} (Q : V → Type 0) where
  put-Values : (k : Bytes) (v : V) (m : List (Bytes × V)) → Q v → Values Q m → Values Q (put k v m)
  unfolding put
  put-Values k v [] h a = (h, tt)
  put-Values k v ((j, w) ∷ m) h a =
      either (Values Q) (eq_bytes k j) ((k, v) ∷ m) ((j, w) ∷ put k v m) (h, a.1)
        (a.0, put-Values k v m h a.1)

  remove-Values : (k : Bytes) (m : List (Bytes × V)) → Values Q m → Values Q (remove k m)
  unfolding remove
  remove-Values k [] a = tt
  remove-Values k ((j, w) ∷ m) a =
      either (Values Q) (eq_bytes k j) (remove k m) ((j, w) ∷ remove k m) (remove-Values k m a.1)
        (a.0, remove-Values k m a.1)

-- what a missing key reads as has the property, if all the values do
pub find-All :
    {A : Type 0} (P : A → Type 0) (k : Bytes) (m : List (Bytes × List A))
    → Values (All P) m
    → All P (or_empty (find k m))
unfolding find
find-All P k [] a = tt
find-All P k ((j, w) ∷ m) a = elim (Bool-cases (eq_bytes k j)) [
  | inl e ↦ rw e a.0
  | inr e ↦ rw e (find-All P k m a.1)
]

module _ (P : ℕ → Type 0) where
  abbrev pub EntryWithin : IndexEntry → Type 0
  EntryWithin = Values (All P)

  -- every fingerprint of the index has the property
  abbrev pub IsWithin : UnlockIndex → Type 0
  IsWithin = Values EntryWithin

  find-Within :
      (name : Bytes) (idx : UnlockIndex) → IsWithin idx → EntryWithin (or_empty (find name idx))
  unfolding find
  find-Within name [] w = tt
  find-Within name ((j, values) ∷ idx) w = elim (Bool-cases (eq_bytes name j)) [
    | inl e ↦ rw e w.0
    | inr e ↦ rw e (find-Within name idx w.1)
  ]

  pub entry_of-Within :
      (name : Bytes) (idx : UnlockIndex) → IsWithin idx → EntryWithin (entry_of name idx)
  entry_of-Within name idx w = find-Within name idx w

  module _ (fp : ℕ) (here : P fp) where
    add_pair-Within :
        (pair : LabelPair) (idx : UnlockIndex) → IsWithin idx → IsWithin (add_pair fp pair idx)
    unfolding add_pair
    add_pair-Within pair idx w =
        let values = entry_of pair.name idx in
        let inside = entry_of-Within pair.name idx w in
        let fps = fps_of pair.value values in
        let had = find-All P pair.value values inside in
        let j = position fp fps in
        put-Values EntryWithin pair.name (put pair.value (insert_at j fp fps) values) idx
          (put-Values (All P) pair.value (insert_at j fp fps) values
            (append-All P (take j fps) (fp ∷ drop j fps) (take-All P j fps had)
              (here, drop-All P j fps had))
            inside)
          w

    pub add-Within :
        (labels : List LabelPair) (idx : UnlockIndex) → IsWithin idx → IsWithin (add labels fp idx)
    unfolding add
    add-Within [] idx w = w
    add-Within (pair ∷ labels) idx w =
        add-Within labels (add_pair fp pair idx) (add_pair-Within pair idx w)

  store_fps-Within :
      (pair : LabelPair) (fps : List ℕ) (values : IndexEntry) (idx : UnlockIndex)
      → All P fps
      → EntryWithin values
      → IsWithin idx
      → IsWithin (store_fps pair fps values idx)
  store_fps-Within pair fps values idx a e w =
      let kept = if is_empty fps then remove pair.value values else put pair.value fps values in
      let kept-Within : EntryWithin kept =
        either EntryWithin (is_empty fps) (remove pair.value values) (put pair.value fps values)
          (remove-Values (All P) pair.value values e)
          (put-Values (All P) pair.value fps values a e) in
      either IsWithin (is_empty kept) (remove pair.name idx) (put pair.name kept idx)
        (remove-Values EntryWithin pair.name idx w)
        (put-Values EntryWithin pair.name kept idx kept-Within w)

  delete_in-Within :
      (fp : ℕ) (pair : LabelPair) (idx : UnlockIndex) (values : IndexEntry) (o : Option (List ℕ))
      → All P (or_empty o)
      → EntryWithin values
      → IsWithin idx
      → IsWithin (delete_in fp pair idx values o)
  unfolding delete_in
  delete_in-Within fp pair idx values none a e w = w
  delete_in-Within fp pair idx values (some fps) a e w =
      let j = position fp fps in
      let left = take j fps ++ drop (suc j) fps in
      either IsWithin (leb (length fps) j || not (get_or fps j 0 == fp)) idx
        (store_fps pair left values idx) w
        (store_fps-Within pair left values idx
          (append-All P (take j fps) (drop (suc j) fps) (take-All P j fps a)
            (drop-All P (suc j) fps a))
          e w)

  delete_from-Within :
      (fp : ℕ) (pair : LabelPair) (idx : UnlockIndex) (o : Option IndexEntry)
      → EntryWithin (or_empty o)
      → IsWithin idx
      → IsWithin (delete_from fp pair idx o)
  unfolding delete_from
  delete_from-Within fp pair idx none e w = w
  delete_from-Within fp pair idx (some values) e w =
      delete_in-Within fp pair idx values (find pair.value values) (find-All P pair.value values e)
        e w

  pub delete-Within :
      (fp : ℕ) (labels : List LabelPair) (idx : UnlockIndex)
      → IsWithin idx
      → IsWithin (delete labels fp idx)
  unfolding delete delete_pair
  delete-Within fp [] idx w = w
  delete-Within fp (pair ∷ labels) idx w =
      delete-Within fp labels (delete_pair fp pair idx)
        (delete_from-Within fp pair idx (find pair.name idx) (entry_of-Within pair.name idx w) w)
