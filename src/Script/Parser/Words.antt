-- ===== src/Script/Parser/Words.antt =====
-- What ScriptParser's words and numbers are (cores/epoxy/epoxy_test/Script/ScriptParser.cpp).
use epoxy_duino.Base.{
  ℕ, ◌+◌, ◌-◌, ◌*◌, ◌%◌, ◌^◌, ◌≤◌, ◌<◌, ◌≡◌, ◌≢◌, ◌⊎◌, inl, inr, refl, sym, ap, ◌∙◌, true, false,
  Bool-cases, ◌||◌, ◌==◌, [], ◌∷◌, ◌++◌, append_assoc, some, arith, length,
}
use native.Mathlib.Nat.{mod-eq_of_lt}
use epoxy_duino.Base.Text.{Bytes, first, All}
use epoxy_duino.Number.RoundTrip.{
  IsDigit, digit_value, value, value_from, value_from-ge, decimal_digit,
}
use epoxy_duino.Script.Parser.{
  is_blank, is_digit, trim, split_word, get_word, number_loop, get_number,
}

abbrev pub IsBlank : ℕ → Type 0
IsBlank c = is_blank c ≡ true

abbrev pub IsWordByte : ℕ → Type 0
IsWordByte c = (c ≢ 0) × (c ≢ b' ')

pub trim_lem :
    (line : Bytes)
    → (gap : Bytes) × (line ≡ gap ++ trim line)
      × All IsBlank gap
      × (is_blank (first (trim line)) ≡ false)
unfolding trim
trim_lem [] = ([], refl, tt, refl)
trim_lem (c ∷ cs) = elim (Bool-cases (is_blank c)) [
  | inl blank ↦
      let (gap, e, all, h) = trim_lem cs in
      (c ∷ gap, rw blank (ap (◌∷◌ c) e), (blank, all), rw blank h)
  | inr solid ↦ ([], rw solid, tt, rw solid solid)
]

split_word_lem :
    (line : Bytes)
    → (line ≡ (split_word line).0 ++ (split_word line).1)
      × All IsWordByte (split_word line).0
      × ((first (split_word line).1 ≡ 0) ⊎ (first (split_word line).1 ≡ b' '))
unfolding split_word
split_word_lem [] = (refl, tt, inl refl)
split_word_lem (c ∷ cs) =
    let (e, all, stop) = split_word_lem cs in
    elim (Bool-cases (c == 0 || c == b' ')) [
      | inl over ↦ rw over (refl, tt, ground arith)
      | inr more ↦ rw more (ap (◌∷◌ c) e, ((ground arith, ground arith), all), stop)
    ]

-- getWord() cuts the line into the word, a gap of blanks, and the rest: the word has no space and no
-- NUL, and is followed by one or by the end; the rest begins with no blank.
get_word_lem :
    (line : Bytes)
    → (gap : Bytes) × (line ≡ (get_word line).0 ++ gap ++ (get_word line).1)
      × All IsWordByte (get_word line).0
      × All IsBlank gap
      × (is_blank (first (get_word line).1) ≡ false)
      × ((first (gap ++ (get_word line).1) ≡ 0) ⊎ (first (gap ++ (get_word line).1) ≡ b' '))
unfolding get_word
get_word_lem line =
    let (e, all, stop) = split_word_lem line in
    let (gap, g, blanks, h) = trim_lem (split_word line).1 in
    (
      gap,
      e
          ∙ ap (λ (z : Bytes). (split_word line).0 ++ z) g
          ∙ sym (append_assoc (split_word line).0 gap (trim (split_word line).1)),
      all,
      blanks,
      h,
      rw (← g) stop,
    )

number_loop_lem :
    (w t : ℕ) (ds rest : Bytes)
    → All (IsDigit 10) ds
    → is_digit (first rest) ≡ false
    → value_from 10 t ds < 2 ^ w
    → number_loop w t (ds ++ rest) ≡ (value_from 10 t ds, rest)
unfolding number_loop
number_loop_lem w t [] [] all stop fits = refl
number_loop_lem w t [] (c ∷ rest) all stop fits = rw stop
number_loop_lem w t (c ∷ ds) rest (dig, all) stop fits =
    let (lo, hi, v) = decimal_digit c dig in
    let is : is_digit c ≡ true = ground arith in
    let next : (t * 10 + c - b'0') % 2 ^ w ≡ t * 10 + digit_value c =
      mod-eq_of_lt (omega (arith, v, lo, value_from-ge (t * 10 + digit_value c) ds))
      ∙ omega (arith, v, lo) in
    rw (is, next) (number_loop_lem w (t * 10 + digit_value c) ds rest all stop fits)

pub first_digit :
    (ds rest : Bytes) → All (IsDigit 10) ds → 1 ≤ length ds → is_digit (first (ds ++ rest)) ≡ true
first_digit [] rest all h = absurd (omega arith)
first_digit (c ∷ ds) rest (dig, all) h = let (lo, hi, v) = decimal_digit c dig in ground arith

-- getNumber() reads digits that spell a number below 2 ^ w, up to the first byte that is no digit,
-- and eats the blanks behind them; it reports no error.
pub get_number_digits :
    (w : ℕ) (ds rest : Bytes) (errors : ℕ)
    → All (IsDigit 10) ds
    → 1 ≤ length ds
    → is_digit (first rest) ≡ false
    → value 10 ds < 2 ^ w
    → get_number w (record { line = ds ++ rest; errors = errors })
      ≡ (some (value 10 ds), record { line = trim rest; errors = errors })
unfolding get_number
get_number_digits w ds rest errors all h stop fits =
    rw (number_loop_lem w 0 ds rest all stop fits, first_digit ds rest all h)
