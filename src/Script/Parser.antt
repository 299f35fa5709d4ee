-- ===== src/Script/Parser.antt =====
-- ScriptParser (cores/epoxy/epoxy_test/Script/ScriptParser.h and ScriptParser.cpp). Every function
-- eats a prefix of `line`; a reported error is counted. `unsigned long` has 64 bits and int has 32,
-- kept as a bit pattern; a period is undefined where an int overflows.
pub mod Words
pub mod Units
mod Tests
use epoxy_duino.Base.{
  ℕ, suc, zero, ◌+◌, ◌-◌, ◌*◌, ◌%◌, ◌^◌, Bool, true, false, not, ◌&&◌, ◌||◌, if◌then◌else◌, ltb,
  leb, ◌==◌, List, [], ◌∷◌, ◌++◌, Option, none, some, length, take, drop,
}
use epoxy_duino.Base.Text.{Bytes, codes, first, same_text}

pub record Parser : Type 0 where
  pub line : Bytes
  pub errors : ℕ

abbrev pub is_blank : ℕ → Bool
is_blank c = c == b' ' || c == 9

abbrev pub is_digit : ℕ → Bool
is_digit c = leb b'0' c && leb c b'9'

unfoldable pub trim : Bytes → Bytes
trim [] = []
trim (c ∷ cs) = if is_blank c then trim cs else c ∷ cs

-- The loop of getWord(): the word, and the rest of the line.
unfoldable pub split_word : Bytes → Bytes × Bytes
split_word [] = ([], [])
split_word (c ∷ cs) =
    let (word, rest) = split_word cs in
    if c == 0 || c == b' ' then ([], c ∷ cs) else (c ∷ word, rest)

unfoldable pub get_word : Bytes → Bytes × Bytes
get_word line = let (word, rest) = split_word line in (word, trim rest)

-- startsWith(): the text begins with the word, and the word ends there.
unfoldable pub starts_with : Bytes → Bytes → Bool
starts_with line [] = first line == b' ' || first line == 9 || first line == 0
starts_with [] (s ∷ start) = false
starts_with (c ∷ line) (s ∷ start) = if c == s then starts_with line start else false

unfoldable pub error : Parser → Parser
error p = record p { errors = p.errors + 1 }

unfoldable pub get_char : Parser → ℕ × Parser
get_char p = elim p.line [ [] ↦ (0, p) | c ∷ cs ↦ (c, record p { line = cs }) ]

unfoldable pub eat_word : Bytes → Bool → Parser → Bool × Parser
unfolding error
eat_word start optional p =
    if same_text p.line start
    then (true, record p { line = [] })
    else if same_text (take (length start + 1) p.line) (start ++ b' ' ∷ [])
    then (true, record p { line = trim (drop (length start) p.line) })
    else if optional
    then (false, p)
    else (false, error p)

-- The loop of getNumber<T>() for a type of `w` bits: the number, and the rest of the line.
unfoldable pub number_loop : ℕ → ℕ → Bytes → ℕ × Bytes
number_loop w t [] = (t, [])
number_loop w t (c ∷ cs) =
    let rest = number_loop w ((t * 10 + c - b'0') % 2 ^ w) cs in
    if is_digit c then rest else (t, c ∷ cs)

-- `none` where it answers false and leaves its argument alone
unfoldable pub get_number : ℕ → Parser → Option ℕ × Parser
unfolding error
get_number w p =
    let (t, rest) = number_loop w 0 p.line in
    if is_digit (first p.line) then (some t, record p { line = trim rest }) else (none, error p)

-- -1 as an int
abbrev pub bad_pin : ℕ
bad_pin = 2 ^ 32 - 1

-- `pins` is the table pins_arduino of the core.
unfoldable pub get_pin_number : (Bytes → Option ℕ) → Parser → ℕ × Parser
unfolding error
get_pin_number pins p =
    let (number, after_number) = get_number 32 p in
    let (word, rest) = get_word p.line in
    let after_word : Parser = record p { line = rest } in
    if is_digit (first p.line)
    then elim number [ some n ↦ (n, after_number) | none ↦ (bad_pin, after_number) ]
    else elim (pins word) [ some n ↦ (n, after_word) | none ↦ (bad_pin, error after_word) ]

-- A table of optional words: the value of the first one eaten, else 0.
unfoldable pub first_unit : List (Bytes × ℕ) → Parser → ℕ × Parser
first_unit [] p = (0, p)
first_unit ((name, value) ∷ units) p =
    let (eaten, p') = eat_word name true p in if eaten then (value, p') else first_unit units p'

abbrev pub frequency_units : List (Bytes × ℕ)
frequency_units = (codes "Mhz", 1) ∷ (codes "kHz", 1000) ∷ (codes "Hz", 1000000) ∷ []

abbrev pub time_units : List (Bytes × ℕ)
time_units =
    (codes "us", 1) ∷ (codes "ms", 1000) ∷ (codes "s", 1000000) ∷ (codes "mn", 1000000 * 60) ∷ []

unfoldable pub period_us : Parser → ℕ × Parser
period_us = first_unit frequency_units

unfoldable pub ratio_us : Parser → ℕ × Parser
ratio_us = first_unit time_units

-- The sums of getNumber<int>() stay below 2 ^ 31; `t * 10 + line[0]` is one of them.
unfoldable pub number_fits : ℕ → Bytes → Bool
number_fits t [] = true
number_fits t (c ∷ cs) =
    let rest = number_fits (t * 10 + c - b'0') cs in
    if is_digit c then ltb (t * 10 + c) (2 ^ 31) && rest else true

-- `none` where an int overflows, which is undefined.
unfoldable pub get_period_us : Parser → Option (ℕ × Parser)
unfolding error number_fits
get_period_us p =
    let (val, p₁) = get_number 32 p in
    let (period, p₂) = period_us p₁ in
    let (ratio, p₃) = ratio_us p₂ in
    let unit = if period == 0 then ratio else period in
    let p₄ = if period == 0 then p₃ else p₂ in
    elim val [
      | none ↦ some (0, error p)
      | some v ↦
          if not (number_fits 0 p.line)
          then none
          else if unit == 0
          then some (0, error p₄)
          else if ltb (v * unit) (2 ^ 31)
          then some (v * unit, p₄)
          else none
    ]

-- What it answers, and what it leaves in its argument.
unfoldable pub get_duration : Parser → Bool × ℕ × Parser
unfolding error
get_duration p =
    let (val, p₁) = get_number 64 p in
    let (ratio, p₂) = ratio_us p₁ in
    if is_digit (first p.line)
    then elim val [
      | none ↦ (false, 0, p₁)
      | some t ↦ if ratio == 0 then (false, t, error p₂) else (true, t * ratio % 2 ^ 64, p₂)
    ]
    else (false, 0, error p)
