-- ===== src/Tsdb/Index/Store.antt =====
-- What `add` of pkg/phlaredb/tsdb/index.go stores.
use mathlib.Core.Path.{subst, ap₂}
use phlare.Base.{
  ℕ, zero, suc, ◌≤◌, ◌<◌, ◌≡◌, refl, sym, ap, ◌∙◌, Bool, true, false, ◌&&◌, ◌||◌, Option, some,
  List, [], ◌∷◌, ◌++◌, inl, inr, arith, leb, ◌==◌, if◌then◌else◌, length, get_or, elem, Ascends,
  Bool-cases,
}
use phlare.Base.Order.{Bytes}
use phlare.Base.Map.{find, put, eq_bytes, eq_bytes-same, find-put}
use phlare.Iter.Search.{search-Found, search-below}
use phlare.Iter.Slice.{reaches-Rises}
use phlare.Tsdb.Index.{
  or_empty, LabelPair, IndexEntry, UnlockIndex, entry_of, fps_of, position, insert_at, add_pair,
  add,
}

-- the fingerprints stored for a label
abbrev pub stored : Bytes → Bytes → UnlockIndex → List ℕ
stored name value idx = fps_of value (entry_of name idx)

abbrev pub indexed : ℕ → Bytes → Bytes → UnlockIndex → Bool
indexed fp name value idx = elem fp (stored name value idx)

abbrev pub is_pair : Bytes → Bytes → LabelPair → Bool
is_pair name value pair = eq_bytes name pair.name && eq_bytes value pair.value

abbrev pub has_pair : Bytes → Bytes → List LabelPair → Bool
has_pair name value [] = false
has_pair name value (pair ∷ pairs) = is_pair name value pair || has_pair name value pairs

-- every list that the index holds is sorted
abbrev pub IsSorted : UnlockIndex → Type 0
IsSorted idx = (name value : Bytes) → Ascends 0 (stored name value idx)

pub or_empty-if {ℓ} :
    {A : Type ℓ} (b : Bool) (l : List A) (o : Option (List A))
    → or_empty (if b then some l else o) ≡ (if b then l else or_empty o)
or_empty-if true l o = refl
or_empty-if false l o = refl

entry_of-put :
    (n m : Bytes) (entry : IndexEntry) (idx : UnlockIndex)
    → entry_of n (put m entry idx) ≡ (if eq_bytes n m then entry else entry_of n idx)
entry_of-put n m entry idx =
    ap or_empty (find-put n m entry idx) ∙ or_empty-if (eq_bytes n m) entry (find n idx)

fps_of-put :
    (v w : Bytes) (fps : List ℕ) (entry : IndexEntry)
    → fps_of v (put w fps entry) ≡ (if eq_bytes v w then fps else fps_of v entry)
fps_of-put v w fps entry =
    ap or_empty (find-put v w fps entry) ∙ or_empty-if (eq_bytes v w) fps (find v entry)

-- A write of a pair's list changes that list alone.
pub stored-put :
    (n v : Bytes) (pair : LabelPair) (fps : List ℕ) (idx : UnlockIndex)
    → stored n v (put pair.name (put pair.value fps (entry_of pair.name idx)) idx)
      ≡ (if is_pair n v pair then fps else stored n v idx)
stored-put n v pair fps idx =
    ap (fps_of v) (entry_of-put n pair.name (put pair.value fps (entry_of pair.name idx)) idx)
    ∙ elim (Bool-cases (eq_bytes n pair.name)) [
      | inr e ↦ rw e refl
      | inl e ↦
          let same : entry_of pair.name idx ≡ entry_of n idx =
            ap (λ k. entry_of k idx) (sym (eq_bytes-same n pair.name e)) in
          rw e (
            fps_of-put v pair.value fps (entry_of pair.name idx)
            ∙ ap (λ entry. if eq_bytes v pair.value then fps else fps_of v entry) same)
    ]

pub elem-append : (z : ℕ) (xs ys : List ℕ) → elem z (xs ++ ys) ≡ (elem z xs || elem z ys)
elem-append z [] ys = refl
elem-append z (x ∷ xs) ys = ground (arith, elem-append z xs ys)

elem-insert_at : (z j fp : ℕ) (fps : List ℕ) → elem z (insert_at j fp fps) ≡ (z == fp || elem z fps)
elem-insert_at z zero fp fps = refl
elem-insert_at z (suc j) fp [] = refl
elem-insert_at z (suc j) fp (x ∷ fps) = ground (arith, elem-insert_at z j fp fps)

insert_at-Ascends :
    (lo j fp : ℕ) (fps : List ℕ)
    → lo ≤ fp
    → Ascends lo fps
    → ((k : ℕ) → k < j → leb fp (get_or fps k 0) ≡ false)
    → (j < length fps → leb fp (get_or fps j 0) ≡ true)
    → j ≤ length fps
    → Ascends lo (insert_at j fp fps)
insert_at-Ascends lo zero fp [] h s low high inside = (h, tt)
insert_at-Ascends lo zero fp (x ∷ fps) h s low high inside =
    (h, (ground (arith, high (omega arith)), s.1))
insert_at-Ascends lo (suc j) fp [] h s low high inside = absurd (omega arith)
insert_at-Ascends lo (suc j) fp (x ∷ fps) h s low high inside = (
  s.0,
  insert_at-Ascends x j fp fps (ground (arith, low 0 (omega arith))) s.1
      (λ k lt. low (suc k) (omega arith)) (λ lt. high (omega arith)) (omega arith),
)

insert_position-Ascends :
    (fp : ℕ) (fps : List ℕ) → Ascends 0 fps → Ascends 0 (insert_at (position fp fps) fp fps)
insert_position-Ascends fp fps s =
    let found = search-Found (length fps) (λ i. leb fp (get_or fps i 0)) in
    insert_at-Ascends 0 (position fp fps) fp fps (omega arith) s
      (search-below (length fps) (λ i. leb fp (get_or fps i 0)) (reaches-Rises fp 0 fps s))
      found.holds found.inside

add_pair-stored :
    (fp : ℕ) (pair : LabelPair) (idx : UnlockIndex) (n v : Bytes)
    → stored n v (add_pair fp pair idx) ≡ (
        let fps = stored pair.name pair.value idx in
        if is_pair n v pair then insert_at (position fp fps) fp fps else stored n v idx)
unfolding add_pair
add_pair-stored fp pair idx n v =
    let fps = stored pair.name pair.value idx in
    stored-put n v pair (insert_at (position fp fps) fp fps) idx

pub is_pair-same :
    (n v : Bytes) (pair : LabelPair) (idx : UnlockIndex)
    → is_pair n v pair ≡ true
    → stored pair.name pair.value idx ≡ stored n v idx
is_pair-same n v pair idx h =
    ap₂ (λ m w. stored m w idx) (sym (eq_bytes-same n pair.name (ground arith)))
      (sym (eq_bytes-same v pair.value (ground arith)))

indexed-add_pair :
    (fp : ℕ) (pair : LabelPair) (idx : UnlockIndex) (z : ℕ) (n v : Bytes)
    → indexed z n v (add_pair fp pair idx) ≡ (z == fp && is_pair n v pair || indexed z n v idx)
indexed-add_pair fp pair idx z n v =
    let fps = stored pair.name pair.value idx in
    ap (elem z) (add_pair-stored fp pair idx n v) ∙ elim (Bool-cases (is_pair n v pair)) [
      | inl e ↦
          let same = ap (elem z) (is_pair-same n v pair idx e) in
          rw e (
            elem-insert_at z (position fp fps) fp fps
            ∙ when_pair (z == fp) (elem z fps) (indexed z n v idx) same)
      | inr e ↦ rw e (unless_pair (z == fp) (indexed z n v idx))
    ]
  where
    when_pair : (p q r : Bool) → q ≡ r → (p || q) ≡ (p && true || r)
    when_pair p q r h = ground (arith, h)

    unless_pair : (p r : Bool) → r ≡ (p && false || r)
    unless_pair p r = ground arith

add_pair-IsSorted :
    (fp : ℕ) (pair : LabelPair) (idx : UnlockIndex) → IsSorted idx → IsSorted (add_pair fp pair idx)
add_pair-IsSorted fp pair idx s n v =
    let fps = stored pair.name pair.value idx in
    subst (Ascends 0) (sym (add_pair-stored fp pair idx n v))
      (elim (Bool-cases (is_pair n v pair)) [
        | inl e ↦ rw e (insert_position-Ascends fp fps (s pair.name pair.value))
        | inr e ↦ rw e (s n v)
      ])

-- After `add` to an index whose lists are sorted, a fingerprint is indexed under a label if it was,
-- or if it is the one added and the label is one of the added ones; and the lists stay sorted.
pub add-indexed :
    (metric : List LabelPair) (fp : ℕ) (idx : UnlockIndex) (z : ℕ) (n v : Bytes)
    → IsSorted idx
    → (indexed z n v (add metric fp idx) ≡ (z == fp && has_pair n v metric || indexed z n v idx))
      × IsSorted (add metric fp idx)
unfolding add
add-indexed [] fp idx z n v s = (no_pair (z == fp) (indexed z n v idx), s)
  where
    no_pair : (p r : Bool) → r ≡ (p && false || r)
    no_pair p r = ground arith
add-indexed (pair ∷ metric) fp idx z n v s =
    let added = add_pair fp pair idx in
    let rest = add-indexed metric fp added z n v (add_pair-IsSorted fp pair idx s) in
    (
      rest.0
          ∙ regroup (z == fp) (is_pair n v pair) (has_pair n v metric) (indexed z n v idx)
              (indexed z n v added) (indexed-add_pair fp pair idx z n v),
      rest.1,
    )
  where
    regroup : (p q r i j : Bool) → j ≡ (p && q || i) → (p && r || j) ≡ (p && (q || r) || i)
    regroup p q r i j h = ground (arith, h)
