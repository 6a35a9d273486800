-- ===== src/Tsdb/Index/SetMatches.antt =====
-- `FindSetMatches` of pkg/phlaredb/tsdb/index.go: the words of a pattern `^(?:a|b|c)$`. Strings are
-- lists of bytes.
pub mod RoundTrip
use phlare.Base.{
  ℕ, zero, suc, ◌+◌, ◌-◌, ◌/◌, ◌%◌, ◌≡◌, refl, sym, ap, ◌∙◌, Bool, true, false, not, ◌&&◌, ◌||◌,
  Option, none, some, List, [], ◌∷◌, ◌++◌, inl, inr, arith, ltb, ◌==◌, if◌then◌else◌, length, take,
  drop, All, Bool-cases,
}
use phlare.Base.Order.{Bytes}
use phlare.Base.Map.{eq_bytes}

-- the bytes of `.+*?()|[]{}^$`
abbrev pub meta_characters : Bytes
meta_characters = 46 ∷ 43 ∷ 42 ∷ 63 ∷ 40 ∷ 41 ∷ 124 ∷ 91 ∷ 93 ∷ 123 ∷ 125 ∷ 94 ∷ 36 ∷ []

-- The bit `b/16` of the row `b%16` of the bitmap is set by a metacharacter.
abbrev pub bit_is_set : Bytes → ℕ → Bool
bit_is_set [] b = false
bit_is_set (c ∷ cs) b = (c % 16 == b % 16 && c / 16 == b / 16) || bit_is_set cs b

-- `utf8.RuneSelf` is 128.
unfoldable pub is_regex_meta_character : ℕ → Bool
is_regex_meta_character b = ltb b 128 && bit_is_set meta_characters b

abbrev pub backslash : ℕ
backslash = 92

abbrev pub bar : ℕ
bar = 124

abbrev pub add_nonempty : Bytes → List Bytes → List Bytes
add_nonempty [] sets = sets
add_nonempty (b ∷ bs) sets = (b ∷ bs) ∷ sets

abbrev pub push : Bytes → Option (List Bytes) → Option (List Bytes)
push set none = none
push set (some sets) = some (add_nonempty set sets)

-- The loop over the bytes between the wrapper, with `current` in the last builder; `none` is a
-- return of nil.
unfoldable pub set_loop : Bool → Bytes → Bytes → Option (List Bytes)
unfolding is_regex_meta_character
set_loop escaped current [] = some (add_nonempty current [])
set_loop true current (b ∷ rest) =
    let onward = set_loop false (current ++ b ∷ []) rest in
    if is_regex_meta_character b then onward else if b == backslash then onward else none
set_loop false current (b ∷ rest) =
    let next_set = set_loop false [] rest in
    let escape = set_loop true current rest in
    let onward = set_loop false (current ++ b ∷ []) rest in
    if is_regex_meta_character b
    then (if b == bar then push current next_set else none)
    else if b == backslash
    then escape
    else onward

-- `^(?:` and `)$`
abbrev pub opening : Bytes
opening = 94 ∷ 40 ∷ 63 ∷ 58 ∷ []

abbrev pub closing : Bytes
closing = 41 ∷ 36 ∷ []

abbrev pub or_nil : Option (List Bytes) → List Bytes
or_nil none = []
or_nil (some sets) = sets

unfoldable pub find_set_matches : Bytes → List Bytes
unfolding set_loop
find_set_matches pattern =
    if ltb (length pattern) 6
      || not (eq_bytes (take 4 pattern) opening)
      || not (eq_bytes (drop (length pattern - 2) pattern) closing)
    then []
    else or_nil (set_loop false [] (take (length pattern - 6) (drop 4 pattern)))
