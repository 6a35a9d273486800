-- ===== src/Model/Labels/Select.antt =====
-- pkg/model/labels.go: reads of a label set, subsets of it, and the bytes of it that are hashed or
-- printed. The hash and the quoting are parameters. A byte buffer that is passed in is emptied first,
-- so that only its contents after the call are modelled.
use mathlib.Core.List.{append-nil, append_assoc}
use phlare.Base.{
  ℕ, zero, suc, ◌+◌, Bool, false, not, ◌||◌, List, [], ◌∷◌, ◌++◌, leb, ltb, if◌then◌else◌, length,
  ◌≡◌, refl, sym, ap, ◌∙◌, inl, inr, Bool-cases,
}
use phlare.Base.Order.{Bytes, ltb_bytes}
use phlare.Base.Map.{eq_bytes}
use phlare.Base.Outcome.{Outcome, ok, panicked, ◌>>=◌}
use phlare.Tsdb.Index.{LabelPair}

-- `Get`
abbrev pub get : List LabelPair → Bytes → Bytes
get [] name = []
get (l ∷ ls) name = if eq_bytes l.name name then l.value else get ls name

-- `strings.HasPrefix(name, "__")`
abbrev pub is_private : Bytes → Bool
is_private [] = false
is_private (x ∷ []) = false
is_private (x ∷ y ∷ name) = eq_bytes (x ∷ y ∷ []) (95 ∷ 95 ∷ [])

-- `WithoutPrivateLabels`
unfoldable pub without_private_labels : List LabelPair → List LabelPair
without_private_labels [] = []
without_private_labels (l ∷ ls) =
    let res = without_private_labels ls in if not (is_private l.name) then l ∷ res else res

abbrev pub is_one_of : Bytes → List Bytes → Bool
is_one_of name [] = false
is_one_of name (n ∷ names) = eq_bytes name n || is_one_of name names

-- `WithLabels`
unfoldable pub with_labels : List Bytes → List LabelPair → List LabelPair
with_labels names [] = []
with_labels names (l ∷ ls) =
    let matched = with_labels names ls in if is_one_of l.name names then l ∷ matched else matched

-- `Clone` and `CloneLabelPairs`: fresh pairs with the same contents
unfoldable pub clone : List LabelPair → List LabelPair
clone [] = []
clone (l ∷ ls) = record { name = l.name; value = l.value } ∷ clone ls

-- the loop of `LabelsFromStrings`; an odd number of strings panics.
pub pairs_of : List Bytes → Outcome (List LabelPair)
pairs_of [] = ok []
pairs_of (n ∷ []) = panicked
pairs_of (n ∷ v ∷ ss) = do res ← pairs_of ss; ok (record { name = n; value = v } ∷ res)

-- `LabelsFromStrings`, by a sort of labels, which need not be stable
unfoldable pub labels_from_strings :
    (List LabelPair → List LabelPair) → List Bytes → Outcome (List LabelPair)
unfolding pairs_of
labels_from_strings sort ss = do res ← pairs_of ss; ok (sort res)

-- a label and its value, each followed by `seps[0]`
abbrev pub separated : LabelPair → Bytes
separated l = l.name ++ 255 ∷ l.value ++ 255 ∷ []

abbrev pub all_separated : List LabelPair → Bytes
all_separated [] = []
all_separated (l ∷ ls) = separated l ++ all_separated ls

-- the merge of labels and sorted names in `HashForLabels`, on as much fuel as both have entries
pub for_names : ℕ → List LabelPair → List Bytes → Bytes
for_names zero ls names = []
for_names (suc fuel) [] names = []
for_names (suc fuel) (l ∷ ls) [] = []
for_names (suc fuel) (l ∷ ls) (n ∷ names) =
    let next_name = for_names fuel (l ∷ ls) names in
    let next_label = for_names fuel ls (n ∷ names) in
    let both = for_names fuel ls names in
    if ltb_bytes n l.name
    then next_name
    else if ltb_bytes l.name n
    then next_label
    else separated l ++ both

-- `for j < len(names) && names[j] < ls[i].Name { j++ }`, as what is left of the names
abbrev pub names_from : Bytes → List Bytes → List Bytes
names_from name [] = []
names_from name (n ∷ names) =
    let later = names_from name names in if ltb_bytes n name then later else n ∷ names

abbrev pub starts_with : Bytes → List Bytes → Bool
starts_with name [] = false
starts_with name (n ∷ names) = eq_bytes name n

-- the loop of `HashWithoutLabels`; `metric_name` is the constant of Prometheus of that name.
pub without_names : Bytes → List LabelPair → List Bytes → Bytes
without_names metric_name [] names = []
without_names metric_name (l ∷ ls) names =
    let left = names_from l.name names in
    let rest = without_names metric_name ls left in
    if eq_bytes l.name metric_name || starts_with l.name left then rest else separated l ++ rest

-- the loop of `BytesWithLabels`, after the bytes written so far
pub bytes_loop : ℕ → Bytes → List LabelPair → List Bytes → Bytes
bytes_loop zero b ls names = b
bytes_loop (suc fuel) b [] names = b
bytes_loop (suc fuel) b (l ∷ ls) [] = b
bytes_loop (suc fuel) b (l ∷ ls) (n ∷ names) =
    let next_name = bytes_loop fuel b (l ∷ ls) names in
    let next_label = bytes_loop fuel b ls (n ∷ names) in
    let b' = (if ltb 1 (length b) then b ++ 255 ∷ [] else b) ++ l.name ++ 255 ∷ l.value in
    let both = bytes_loop fuel b' ls names in
    if ltb_bytes n l.name then next_name else if ltb_bytes l.name n then next_label else both

-- `BytesWithLabels`
unfoldable pub bytes_with_labels : List LabelPair → List Bytes → Bytes
unfolding bytes_loop
bytes_with_labels ls names = bytes_loop (length ls + length names) (254 ∷ []) ls names

-- `sum64` is `xxhash.Sum64`, which the streaming digest agrees with; `quote` is `strconv.Quote`.
module _ (sum64 : Bytes → ℕ) (quote : Bytes → Bytes) where
  -- the loop of `Hash`: a set of more than 1 KB is digested as a stream, over the same bytes.
  pub hash_loop : Bytes → List LabelPair → ℕ
  hash_loop b [] = sum64 b
  hash_loop b (v ∷ ls) =
      let onward = hash_loop (b ++ separated v) ls in
      if leb 1024 (length b + length v.name + length v.value + 2)
      then sum64 (b ++ all_separated (v ∷ ls))
      else onward

  unfoldable pub hash : List LabelPair → ℕ
  unfolding hash_loop
  hash ls = hash_loop [] ls

  unfoldable pub hash_for_labels : List LabelPair → List Bytes → ℕ × Bytes
  unfolding for_names
  hash_for_labels ls names = let b = for_names (length ls + length names) ls names in (sum64 b, b)

  unfoldable pub hash_without_labels : Bytes → List LabelPair → List Bytes → ℕ × Bytes
  unfolding without_names
  hash_without_labels metric_name ls names =
      let b = without_names metric_name ls names in (sum64 b, b)

  -- `LabelPairsString`
  abbrev pub write_pairs : ℕ → List LabelPair → Bytes
  write_pairs i [] = []
  write_pairs i (l ∷ lbs) =
      (if ltb 0 i then 44 ∷ 32 ∷ [] else [])
      ++ l.name
      ++ 61 ∷ quote l.value
      ++ write_pairs (suc i) lbs

  abbrev pub label_pairs_string : List LabelPair → Bytes
  label_pairs_string lbs = 123 ∷ write_pairs 0 lbs ++ 125 ∷ []

  -- The hash is that of all the bytes, however many they are.
  hash_loop_lem : (b : Bytes) (ls : List LabelPair) → hash_loop b ls ≡ sum64 (b ++ all_separated ls)
  unfolding hash_loop
  hash_loop_lem b [] = ap sum64 (sym (append-nil b))
  hash_loop_lem b (v ∷ ls) =
      elim (Bool-cases (leb 1024 (length b + length v.name + length v.value + 2))) [
        | inl e ↦ rw e refl
        | inr e ↦ rw e (
            hash_loop_lem (b ++ separated v) ls
            ∙ ap sum64 (append_assoc b (separated v) (all_separated ls)))
      ]
