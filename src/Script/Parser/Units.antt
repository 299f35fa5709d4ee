-- ===== src/Script/Parser/Units.antt =====
-- Durations and periods of a script line: getDuration() and getPeriodUs() of
-- cores/epoxy/epoxy_test/Script/ScriptParser.cpp.
use epoxy_duino.Base.{
  ℕ, ◌+◌, ◌-◌, ◌*◌, ◌%◌, ◌^◌, ◌≤◌, ◌<◌, ◌≡◌, refl, ◌∙◌, true, false, ltb, ◌==◌, [], ◌∷◌, ◌++◌,
  append_assoc, Option, some, none, arith, length,
}
use epoxy_duino.Base.Text.{Bytes, first, same_text, All}
use epoxy_duino.Number.RoundTrip.{
  IsDigit, digit_value, value_from, value_from-ge, value, decimal_digit,
}
use epoxy_duino.Script.Parser.{
  is_blank, is_digit, trim, eat_word, first_unit, ratio_us, period_us, get_number, get_duration,
  number_fits, get_period_us,
}
use epoxy_duino.Script.Parser.Words.{IsBlank, get_number_digits, first_digit}

-- The units of time, and the units of frequency.
pub data TimeUnit : Type 0 where
  micro : TimeUnit
  milli : TimeUnit
  second : TimeUnit
  minute : TimeUnit

pub data FrequencyUnit : Type 0 where
  megahertz : FrequencyUnit
  kilohertz : FrequencyUnit
  hertz : FrequencyUnit

abbrev pub time_name : TimeUnit → Bytes
time_name micro = b'u' ∷ b's' ∷ []
time_name milli = b'm' ∷ b's' ∷ []
time_name second = b's' ∷ []
time_name minute = b'm' ∷ b'n' ∷ []

abbrev pub microseconds : TimeUnit → ℕ
microseconds micro = 1
microseconds milli = 1000
microseconds second = 1000000
microseconds minute = 60000000

abbrev pub frequency_name : FrequencyUnit → Bytes
frequency_name megahertz = b'M' ∷ b'h' ∷ b'z' ∷ []
frequency_name kilohertz = b'k' ∷ b'H' ∷ b'z' ∷ []
frequency_name hertz = b'H' ∷ b'z' ∷ []

-- the period of one of the unit
abbrev pub period : FrequencyUnit → ℕ
period megahertz = 1
period kilohertz = 1000
period hertz = 1000000

-- what may follow a word: nothing, or a space and more
abbrev pub after_word : Option Bytes → Bytes
after_word none = []
after_word (some tail) = b' ' ∷ tail

ratio_us_lem :
    (u : TimeUnit) (tail : Option Bytes) (errors : ℕ)
    → ratio_us (record { line = time_name u ++ after_word tail; errors = errors })
      ≡ (microseconds u, record { line = trim (after_word tail); errors = errors })
unfolding ratio_us first_unit eat_word same_text trim
ratio_us_lem micro none errors = refl
ratio_us_lem micro (some tail) errors = refl
ratio_us_lem milli none errors = refl
ratio_us_lem milli (some tail) errors = refl
ratio_us_lem second none errors = refl
ratio_us_lem second (some tail) errors = refl
ratio_us_lem minute none errors = refl
ratio_us_lem minute (some tail) errors = refl

period_us_lem :
    (u : FrequencyUnit) (tail : Option Bytes) (errors : ℕ)
    → period_us (record { line = frequency_name u ++ after_word tail; errors = errors })
      ≡ (period u, record { line = trim (after_word tail); errors = errors })
unfolding period_us first_unit eat_word same_text trim
period_us_lem megahertz none errors = refl
period_us_lem megahertz (some tail) errors = refl
period_us_lem kilohertz none errors = refl
period_us_lem kilohertz (some tail) errors = refl
period_us_lem hertz none errors = refl
period_us_lem hertz (some tail) errors = refl

nonzero : (u : TimeUnit) → (microseconds u == 0) ≡ false
nonzero micro = refl
nonzero milli = refl
nonzero second = refl
nonzero minute = refl

period_nonzero : (u : FrequencyUnit) → (period u == 0) ≡ false
period_nonzero megahertz = refl
period_nonzero kilohertz = refl
period_nonzero hertz = refl

trim-append :
    (gap rest : Bytes) → All IsBlank gap → is_blank (first rest) ≡ false → trim (gap ++ rest) ≡ rest
unfolding trim
trim-append [] [] all h = refl
trim-append [] (c ∷ rest) all h = rw h
trim-append (c ∷ gap) rest (blank, all) h = rw blank (trim-append gap rest all h)

gap_stops :
    (gap rest : Bytes)
    → All IsBlank gap
    → is_digit (first rest) ≡ false
    → is_digit (first (gap ++ rest)) ≡ false
gap_stops [] rest all h = h
gap_stops (c ∷ gap) rest (blank, all) h = ground arith

-- a number, blanks, and a word that begins with neither a blank nor a digit
number_before :
    (w : ℕ) (ds gap rest : Bytes) (errors : ℕ)
    → All (IsDigit 10) ds
    → 1 ≤ length ds
    → value 10 ds < 2 ^ w
    → All IsBlank gap
    → is_blank (first rest) ≡ false
    → is_digit (first rest) ≡ false
    → get_number w (record { line = ds ++ gap ++ rest; errors = errors })
      ≡ (some (value 10 ds), record { line = rest; errors = errors })
number_before w ds gap rest errors all h fits blanks solid stop = rw append_assoc (
    get_number_digits w ds (gap ++ rest) errors all h (gap_stops gap rest blanks stop) fits
    ∙ rw (trim-append gap rest blanks solid) refl)

name_starts :
    (u : TimeUnit) (tail : Option Bytes)
    → (is_blank (first (time_name u ++ after_word tail)) ≡ false)
      × (is_digit (first (time_name u ++ after_word tail)) ≡ false)
name_starts micro tail = (refl, refl)
name_starts milli tail = (refl, refl)
name_starts second tail = (refl, refl)
name_starts minute tail = (refl, refl)

frequency_starts :
    (u : FrequencyUnit) (tail : Option Bytes)
    → (is_blank (first (frequency_name u ++ after_word tail)) ≡ false)
      × (is_digit (first (frequency_name u ++ after_word tail)) ≡ false)
frequency_starts megahertz tail = (refl, refl)
frequency_starts kilohertz tail = (refl, refl)
frequency_starts hertz tail = (refl, refl)

-- getDuration() on digits of a number below 2 ^ 64, blanks and a unit of time, which the end of the
-- line or a space follows, answers true with the number of microseconds modulo 2 ^ 64; it eats this
-- much and the blanks behind it, and reports no error.
pub get_duration_lem :
    (ds gap : Bytes) (u : TimeUnit) (tail : Option Bytes) (errors : ℕ)
    → All (IsDigit 10) ds
    → 1 ≤ length ds
    → value 10 ds < 2 ^ 64
    → All IsBlank gap
    → get_duration
        (record { line = ds ++ gap ++ (time_name u ++ after_word tail); errors = errors })
      ≡ (
        true,
        value 10 ds * microseconds u % 2 ^ 64,
        record { line = trim (after_word tail); errors = errors },
      )
unfolding get_duration
get_duration_lem ds gap u tail errors all h fits blanks =
    let rest = time_name u ++ after_word tail in
    let (solid, stop) = name_starts u tail in
    let number = number_before 64 ds gap rest errors all h fits blanks solid stop in
    let digit : is_digit (first (ds ++ gap ++ rest)) ≡ true =
      rw append_assoc (first_digit ds (gap ++ rest) all h) in
    rw (digit, get_duration, number, number, ratio_us_lem u tail errors, nonzero u) refl

-- the sums over digits of a number that stays 48 below the limit
number_fits_digits :
    (t : ℕ) (ds rest : Bytes)
    → All (IsDigit 10) ds
    → is_digit (first rest) ≡ false
    → value_from 10 t ds + 48 < 2 ^ 31
    → number_fits t (ds ++ rest) ≡ true
unfolding number_fits
number_fits_digits t [] [] all stop h = refl
number_fits_digits t [] (c ∷ rest) all stop h = rw stop refl
number_fits_digits t (c ∷ ds) rest (dig, all) stop h =
    let (lo, hi, v) = decimal_digit c dig in
    let grows = value_from-ge (t * 10 + digit_value c) ds in
    let next : t * 10 + c - b'0' ≡ t * 10 + digit_value c = omega arith in
    let is : is_digit c ≡ true = ground arith in
    let small : ltb (t * 10 + c) (2 ^ 31) ≡ true = ground arith in
    rw (is, small, next) (number_fits_digits (t * 10 + digit_value c) ds rest all stop h)

-- getPeriodUs() on digits, blanks and a unit of frequency, which the end of the line or a space
-- follows, where 48 more than the number and the product are below 2 ^ 31, is defined, and
-- multiplies the number by the period of one such unit; it eats this much and the blanks behind it,
-- and reports no error.
pub get_period_us_lem :
    (ds gap : Bytes) (u : FrequencyUnit) (tail : Option Bytes) (errors : ℕ)
    → All (IsDigit 10) ds
    → 1 ≤ length ds
    → value 10 ds + 48 < 2 ^ 31
    → value 10 ds * period u < 2 ^ 31
    → All IsBlank gap
    → get_period_us
        (record { line = ds ++ gap ++ (frequency_name u ++ after_word tail); errors = errors })
      ≡ some (value 10 ds * period u, record { line = trim (after_word tail); errors = errors })
unfolding get_period_us
get_period_us_lem ds gap u tail errors all h fits product blanks =
    let rest = frequency_name u ++ after_word tail in
    let (solid, stop) = frequency_starts u tail in
    let number = number_before 32 ds gap rest errors all h (omega arith) blanks solid stop in
    let defined : number_fits 0 (ds ++ gap ++ rest) ≡ true =
      rw append_assoc
        (number_fits_digits 0 ds (gap ++ rest) all (gap_stops gap rest blanks stop) fits) in
    let small : ltb (value 10 ds * period u) (2 ^ 31) ≡ true = ground arith in
    rw
      (
        number,
        get_period_us,
        number,
        period_us_lem u tail errors,
        period_nonzero u,
        period_nonzero u,
        defined,
        small,
      )
      refl
