-- ===== src/Tsdb/Index/SetMatches/RoundTrip.antt =====
-- `FindSetMatches` on the patterns that join words by `|`.
use phlare.Base.{
  ℕ, suc, ◌+◌, ◌-◌, ◌≡◌, refl, sym, ap, ◌∙◌, Bool, true, false, not, ◌||◌, some, List, [], ◌∷◌,
  ◌++◌, inl, inr, arith, ltb, ◌==◌, if◌then◌else◌, length, take, drop, length-append, All,
  Bool-cases,
}
use phlare.Base.Order.{Bytes}
use phlare.Base.Map.{eq_bytes, eq_bytes_refl}
use phlare.Tsdb.Index.SetMatches.{
  is_regex_meta_character, backslash, bar, push, set_loop, opening, closing, or_nil,
  find_set_matches,
}

-- A word as a pattern that only it matches: the special bytes escaped.
abbrev pub escape : Bytes → Bytes
escape [] = []
escape (b ∷ word) =
    if is_regex_meta_character b || b == backslash
    then backslash ∷ b ∷ escape word
    else b ∷ escape word

-- the words of a set, escaped and joined by `|`
abbrev pub join : List Bytes → Bytes
join [] = []
join (word ∷ []) = escape word
join (word ∷ next ∷ words) = escape word ++ bar ∷ join (next ∷ words)

abbrev pub set_pattern : List Bytes → Bytes
set_pattern words = opening ++ (join words ++ closing)

abbrev pub IsNonempty : Bytes → Type 0
IsNonempty word = ¬ (word ≡ [])

append_assoc : (xs ys zs : Bytes) → (xs ++ ys) ++ zs ≡ xs ++ (ys ++ zs)
append_assoc [] ys zs = refl
append_assoc (x ∷ xs) ys zs = ap (λ l. x ∷ l) (append_assoc xs ys zs)

append_nil : (xs : Bytes) → xs ++ [] ≡ xs
append_nil [] = refl
append_nil (x ∷ xs) = ap (λ l. x ∷ l) (append_nil xs)

backslash_plain : is_regex_meta_character backslash ≡ false
unfolding is_regex_meta_character
backslash_plain = refl

set_loop-escaped :
    (current rest : Bytes) (b : ℕ)
    → (is_regex_meta_character b || b == backslash) ≡ true
    → set_loop false current (backslash ∷ b ∷ rest) ≡ set_loop false (current ++ b ∷ []) rest
unfolding set_loop
set_loop-escaped current rest b h = elim (Bool-cases (is_regex_meta_character b)) [
  | inl e ↦ rw (backslash_plain, e) refl
  | inr e ↦ let f : (b == backslash) ≡ true = ground (arith, e) in rw (backslash_plain, e, f) refl
]

set_loop-plain :
    (current rest : Bytes) (b : ℕ)
    → (is_regex_meta_character b || b == backslash) ≡ false
    → set_loop false current (b ∷ rest) ≡ set_loop false (current ++ b ∷ []) rest
unfolding set_loop
set_loop-plain current rest b h =
    let e : is_regex_meta_character b ≡ false = ground arith in
    let f : (b == backslash) ≡ false = ground (arith, e) in rw (e, f) refl

set_loop-bar :
    (current rest : Bytes)
    → set_loop false current (bar ∷ rest) ≡ push current (set_loop false [] rest)
unfolding set_loop is_regex_meta_character
set_loop-bar current rest = refl

set_loop-escape :
    (current word rest : Bytes)
    → set_loop false current (escape word ++ rest) ≡ set_loop false (current ++ word) rest
set_loop-escape current [] rest = ap (λ c. set_loop false c rest) (sym (append_nil current))
set_loop-escape current (b ∷ word) rest =
    let onward =
      set_loop-escape (current ++ b ∷ []) word rest
      ∙ ap (λ c. set_loop false c rest) (append_assoc current (b ∷ []) word) in
    elim (Bool-cases (is_regex_meta_character b || b == backslash)) [
      | inl e ↦ rw e (set_loop-escaped current (escape word ++ rest) b e ∙ onward)
      | inr e ↦ rw e (set_loop-plain current (escape word ++ rest) b e ∙ onward)
    ]

push-nonempty :
    (word : Bytes) (words : List Bytes)
    → IsNonempty word
    → push word (some words) ≡ some (word ∷ words)
push-nonempty [] words h = absurd (h refl)
push-nonempty (b ∷ word) words h = refl

set_loop-last :
    (word : Bytes) → IsNonempty word → set_loop false [] (escape word) ≡ some (word ∷ [])
unfolding set_loop
set_loop-last word h =
    ap (set_loop false []) (sym (append_nil (escape word)))
    ∙ set_loop-escape [] word []
    ∙ ended word h
  where
    ended : (word : Bytes) → IsNonempty word → set_loop false word [] ≡ some (word ∷ [])
    ended [] h = absurd (h refl)
    ended (b ∷ word) h = refl

set_loop-join :
    (word : Bytes) (words : List Bytes)
    → All IsNonempty (word ∷ words)
    → set_loop false [] (join (word ∷ words)) ≡ some (word ∷ words)
set_loop-join word [] h = set_loop-last word h.0
set_loop-join word (next ∷ words) h =
    set_loop-escape [] word (bar ∷ join (next ∷ words))
    ∙ set_loop-bar word (join (next ∷ words))
    ∙ ap (push word) (set_loop-join next words h.1)
    ∙ push-nonempty word (next ∷ words) h.0

take-append : (xs ys : Bytes) → take (length xs) (xs ++ ys) ≡ xs
take-append [] ys = refl
take-append (x ∷ xs) ys = ap (λ l. x ∷ l) (take-append xs ys)

drop-append : (xs ys : Bytes) → drop (length xs) (xs ++ ys) ≡ ys
drop-append [] ys = refl
drop-append (x ∷ xs) ys = drop-append xs ys

-- On the pattern that joins at least one word, none of them empty, by a bar, with the special bytes
-- escaped, the words are found again, in order.
pub find_set_matches-set_pattern :
    (word : Bytes) (words : List Bytes)
    → All IsNonempty (word ∷ words)
    → find_set_matches (set_pattern (word ∷ words)) ≡ word ∷ words
unfolding find_set_matches
find_set_matches-set_pattern word words h =
    let body = join (word ∷ words) in
    let pattern = set_pattern (word ∷ words) in
    let size : length pattern ≡ suc (suc (suc (suc (length body + 2)))) =
      omega (arith, length-append body closing) in
    let long : ltb (length pattern) 6 ≡ false = ground (arith, size) in
    let opened : eq_bytes (take 4 pattern) opening ≡ true = eq_bytes_refl opening in
    let last : length pattern - 2 ≡ suc (suc (suc (suc (length body)))) = omega (arith, size) in
    let closed : eq_bytes (drop (length pattern - 2) pattern) closing ≡ true =
      ap (λ n. eq_bytes (drop n pattern) closing) last
      ∙ ap (λ l. eq_bytes l closing) (drop-append body closing)
      ∙ eq_bytes_refl closing in
    let inner : take (length pattern - 6) (drop 4 pattern) ≡ body =
      ap (λ n. take n (body ++ closing)) (omega (arith, size)) ∙ take-append body closing in
    accepted (ltb (length pattern) 6) (eq_bytes (take 4 pattern) opening)
      (eq_bytes (drop (length pattern - 2) pattern) closing)
      (or_nil (set_loop false [] (take (length pattern - 6) (drop 4 pattern)))) long opened closed
    ∙ ap (λ l. or_nil (set_loop false [] l)) inner
    ∙ ap or_nil (set_loop-join word words h)
  where
    accepted :
        (short opens closes : Bool) (sets : List Bytes)
        → short ≡ false
        → opens ≡ true
        → closes ≡ true
        → (if short || not opens || not closes then [] else sets) ≡ sets
    accepted short opens closes sets s o c = rw (s, o, c) refl
