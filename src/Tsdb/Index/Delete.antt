-- ===== src/Tsdb/Index/Delete.antt =====
-- What `delete` of pkg/phlaredb/tsdb/index.go removes, where no fingerprint is indexed twice.
use phlare.Base.{
  ℕ, ◌≡◌, refl, sym, ap, ◌∙◌, Bool, true, false, not, ◌||◌, Option, none, some, List, [], ◌∷◌, inl,
  inr, arith, ltb, leb, ◌==◌, if◌then◌else◌, length, get_or, Bool-cases,
}
use phlare.Base.Order.{Bytes, IsStrict}
use phlare.Base.Map.{find, put, remove, eq_bytes, eq_bytes-same, find-put, find-remove}
use phlare.Tsdb.Index.{
  or_empty, LabelPair, IndexEntry, UnlockIndex, entry_of, fps_of, position, store_fps, delete_in,
  delete_from, is_empty,
}
use phlare.Tsdb.Index.Erased.{erase_at, erased}
use phlare.Tsdb.Index.Store.{stored, is_pair, or_empty-if, is_pair-same}

-- every list that the index holds is sorted and has no repetition
abbrev pub IsDistinct : UnlockIndex → Type 0
IsDistinct idx = (name value : Bytes) → IsStrict ltb (stored name value idx)

pub is_empty-nil {ℓ} : {A : Type ℓ} (l : List A) → is_empty l ≡ true → [] ≡ l
is_empty-nil [] h = refl
is_empty-nil (x ∷ l) h = absurd (ground arith)

-- Deleting an empty list and storing it read alike.
or_empty-stored {ℓ} :
    {A : Type ℓ} (b : Bool) (l : List A) (o : Option (List A))
    → [] ≡ l
    → or_empty (if b then none else o) ≡ (if b then l else or_empty o)
or_empty-stored true l o h = h
or_empty-stored false l o h = refl

-- a list stored under a key, or the key deleted if the list is empty
abbrev kept : {V : Type 0} → Bytes → List V → List (Bytes × List V) → List (Bytes × List V)
kept k l m = if is_empty l then remove k m else put k l m

find-kept :
    {V : Type 0} (j k : Bytes) (l : List V) (m : List (Bytes × List V))
    → or_empty (find j (kept k l m)) ≡ (if eq_bytes j k then l else or_empty (find j m))
find-kept j k l m = elim (Bool-cases (is_empty l)) [
  | inl e ↦ rw e (
      ap or_empty (find-remove j k m)
      ∙ or_empty-stored (eq_bytes j k) l (find j m) (is_empty-nil l e))
  | inr e ↦ rw e (ap or_empty (find-put j k l m) ∙ or_empty-if (eq_bytes j k) l (find j m))
]

stored-store_fps :
    (n v : Bytes) (pair : LabelPair) (fps : List ℕ) (idx : UnlockIndex)
    → stored n v (store_fps pair fps (entry_of pair.name idx) idx)
      ≡ (if is_pair n v pair then fps else stored n v idx)
stored-store_fps n v pair fps idx =
    let values = kept pair.value fps (entry_of pair.name idx) in
    ap (fps_of v) (find-kept n pair.name values idx) ∙ elim (Bool-cases (eq_bytes n pair.name)) [
      | inr e ↦ rw e refl
      | inl e ↦
          let same : entry_of pair.name idx ≡ entry_of n idx =
            ap (λ k. entry_of k idx) (sym (eq_bytes-same n pair.name e)) in
          rw e (
            find-kept v pair.value fps (entry_of pair.name idx)
            ∙ ap (λ entry. if eq_bytes v pair.value then fps else fps_of v entry) same)
    ]

erased-nil : (fp : ℕ) → erased fp [] ≡ []
erased-nil fp = ground arith

-- a pair's list that stays as it was
unchanged :
    (n v : Bytes) (pair : LabelPair) (idx : UnlockIndex) (fps : List ℕ)
    → stored pair.name pair.value idx ≡ fps
    → stored n v idx ≡ (if is_pair n v pair then fps else stored n v idx)
unchanged n v pair idx fps h = elim (Bool-cases (is_pair n v pair)) [
  | inl e ↦ rw e (sym (is_pair-same n v pair idx e) ∙ h)
  | inr e ↦ rw e refl
]

delete_in-stored :
    (fp : ℕ) (pair : LabelPair) (idx : UnlockIndex) (n v : Bytes) (o : Option (List ℕ))
    → find pair.value (entry_of pair.name idx) ≡ o
    → stored n v (delete_in fp pair idx (entry_of pair.name idx) o)
      ≡ (if is_pair n v pair then erased fp (or_empty o) else stored n v idx)
unfolding delete_in
delete_in-stored fp pair idx n v none e =
    unchanged n v pair idx (erased fp []) (ap or_empty e ∙ sym (erased-nil fp))
delete_in-stored fp pair idx n v (some fps) e =
    elim (Bool-cases
      (leb (length fps) (position fp fps) || not (get_or fps (position fp fps) 0 == fp))) [
        | inl t ↦ rw t (unchanged n v pair idx fps (ap or_empty e))
        | inr t ↦ rw t (stored-store_fps n v pair (erase_at (position fp fps) fps) idx)
      ]

pub delete_from-stored :
    (fp : ℕ) (pair : LabelPair) (idx : UnlockIndex) (n v : Bytes) (o : Option IndexEntry)
    → find pair.name idx ≡ o
    → stored n v (delete_from fp pair idx o)
      ≡ (if is_pair n v pair then erased fp (stored pair.name pair.value idx) else stored n v idx)
unfolding delete_from find
delete_from-stored fp pair idx n v none e =
    let nothing : stored pair.name pair.value idx ≡ [] =
      ap (λ o. fps_of pair.value (or_empty o)) e in
    unchanged n v pair idx (erased fp (stored pair.name pair.value idx))
      (nothing ∙ sym (ap (erased fp) nothing ∙ erased-nil fp))
delete_from-stored fp pair idx n v (some values) e =
    let same : values ≡ entry_of pair.name idx = sym (ap or_empty e) in
    ap (λ w. stored n v (delete_in fp pair idx w (find pair.value w))) same
    ∙ delete_in-stored fp pair idx n v (find pair.value (entry_of pair.name idx)) refl
