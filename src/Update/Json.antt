-- ===== src/Update/Json.antt =====
-- The texts that jsonEscape() writes (libraries/EpoxyUpdate/src/Update.cpp), read as JSON reads a string.
use epoxy_duino.Base.{
  ℕ, zero, suc, ◌+◌, ◌-◌, ◌*◌, ◌/◌, ◌%◌, ◌<◌, ◌≡◌, refl, ap, ◌∙◌, false, ◌&&◌, ◌||◌, if◌then◌else◌,
  leb, ltb, ◌==◌, [], ◌∷◌, ◌++◌, Option, none, some, Bool-cases, inl, inr,
}
use native.Mathlib.Omega.{arith}
use epoxy_duino.Base.Text.{Bytes, All}
use epoxy_duino.Update.{json_escape, hex_digit}

-- The value of a hexadecimal digit of lower case.
abbrev pub hex_value : ℕ → Option ℕ
hex_value c =
    if leb b'0' c && leb c b'9'
    then some (c - b'0')
    else if leb b'a' c && leb c b'f'
    then some (c - b'a' + 10)
    else none

-- Where a reader of a string stands: in its plain text, behind a backslash, or in \u with the digits
-- that are to come after the next one and the value so far.
pub data Place : Type 0 where
  text : Place
  escaped : Place
  hex : ℕ → ℕ → Place

abbrev prepend : ℕ → Option (Bytes × Bytes) → Option (Bytes × Bytes)
prepend c none = none
prepend c (some (s, rest)) = some (c ∷ s, rest)

-- The string up to its quote, and what follows the quote; a control character must be escaped.
unfoldable pub json_string : Place → Bytes → Option (Bytes × Bytes)
json_string place [] = none
json_string text (c ∷ cs) =
    let later = json_string text cs in
    let behind = json_string escaped cs in
    if c == b'"'
    then some ([], cs)
    else if c == b'\\'
    then behind
    else if ltb c 32
    then none
    else prepend c later
json_string escaped (c ∷ cs) =
    let later = json_string text cs in
    let digits = json_string (hex 3 0) cs in
    if c == b'"' || c == b'\\' then prepend c later else if c == b'u' then digits else none
json_string (hex n value) (c ∷ cs) = elim (hex_value c) [
  | none ↦ none
  | some d ↦ elim n [
    | zero ↦ prepend (value * 16 + d) (json_string text cs)
    | suc m ↦ json_string (hex m (value * 16 + d)) cs
  ]
]

hex_value-hex_digit : (n : ℕ) → n < 16 → hex_value (hex_digit n) ≡ some n
hex_value-hex_digit n h = ground arith

json_string-char :
    (c : ℕ) (out : Bytes)
    → c < 256
    → json_string text (json_escape (c ∷ []) ++ out) ≡ prepend c (json_string text out)
unfolding json_string json_escape
json_string-char c out h = elim (Bool-cases (c == b'"' || c == b'\\')) [
  | inl special ↦ rw (special, special) refl
  | inr other ↦ elim (Bool-cases (ltb c 32)) [
    | inl control ↦
        let high = hex_value-hex_digit (c / 16) (omega arith) in
        let low = hex_value-hex_digit (c % 16) (omega arith) in
        let value : (0 * 16 + c / 16) * 16 + c % 16 ≡ c = omega arith in
        rw (other, control, high, low, value) refl
    | inr printed ↦
        let no_quote : (c == b'"') ≡ false = ground (arith, other) in
        let no_slash : (c == b'\\') ≡ false = ground (arith, other) in
        rw (no_quote, no_slash, printed, no_quote, no_slash, printed) refl
  ]
]

json_escape-cons :
    (c : ℕ) (s out : Bytes)
    → json_escape (c ∷ s) ++ out ≡ json_escape (c ∷ []) ++ (json_escape s ++ out)
unfolding json_escape
json_escape-cons c s out = elim (Bool-cases (c == b'"' || c == b'\\')) [
  | inl special ↦ rw special refl
  | inr other ↦ elim (Bool-cases (ltb c 32)) [
    | inl control ↦ rw (other, control) refl
    | inr printed ↦ rw (other, printed) refl
  ]
]

-- A reader of JSON strings that meets an escaped text of bytes, a quote and more reads the text, and
-- ends at that quote: no byte of the text ends the string early.
pub json_string-json_escape :
    (s rest : Bytes)
    → All (λ c. c < 256) s
    → json_string text (json_escape s ++ b'"' ∷ rest) ≡ some (s, rest)
unfolding json_string json_escape
json_string-json_escape [] rest all = refl
json_string-json_escape (c ∷ s) rest (h, all) =
    ap (json_string text) (json_escape-cons c s (b'"' ∷ rest))
    ∙ json_string-char c (json_escape s ++ b'"' ∷ rest) h
    ∙ ap (prepend c) (json_string-json_escape s rest all)
