-- ===== src/Script/Parser/Tests.antt =====
-- Lines given to ScriptParser (cores/epoxy/epoxy_test/Script/ScriptParser.cpp).
use epoxy_duino.Base.{◌*◌, ◌≡◌, refl, true, false, [], ◌∷◌, ◌++◌, some, none, arith}
use epoxy_duino.Base.Text.{Bytes, codes, same_text, All}
use epoxy_duino.Number.{digit}
use epoxy_duino.Number.RoundTrip.{value, IsDigit}
use epoxy_duino.Script.Parser.{
  Parser, trim, split_word, get_word, error, eat_word, number_loop, get_number, first_unit,
  period_us, ratio_us, number_fits, get_period_us, get_duration, get_pin_number,
}
use epoxy_duino.Script.Parser.Units.{hertz, frequency_name, period, after_word, get_period_us_lem}

abbrev parser : Bytes → Parser
parser line = record { line = line; errors = 0 }

duration : get_duration (parser (codes "15ms 4 5s")) ≡ (true, 15000, parser (codes "4 5s"))
unfolding get_duration get_number number_loop trim ratio_us first_unit eat_word same_text
duration = refl

duration_without_unit :
    get_duration (parser (codes "15 xs")) ≡ (false, 15, record { line = codes "xs"; errors = 1 })
unfolding get_duration get_number number_loop trim ratio_us first_unit eat_word same_text error
duration_without_unit = refl

-- 100Hz gives 100000000, where the documentation promises 10000.
hundred_hertz : get_period_us (parser (codes "100Hz")) ≡ some (100000000, parser [])
unfolding get_period_us get_number number_loop number_fits trim period_us ratio_us first_unit
    eat_word same_text
hundred_hertz = refl

-- The product of 3000Hz overflows an int.
three_kilohertz : get_period_us (parser (codes "3000Hz")) ≡ none
unfolding get_period_us get_number number_loop number_fits trim period_us ratio_us first_unit
    eat_word same_text
three_kilohertz = refl

-- A tab does not end a word.
tab_in_word : (get_word (b'a' ∷ 9 ∷ b'b' ∷ [])).0 ≡ b'a' ∷ 9 ∷ b'b' ∷ []
unfolding get_word split_word trim
tab_in_word = refl

bad_pin_name :
    (get_pin_number (λ (name : Bytes). none) (parser (codes "X9 1"))).1
    ≡ record { line = codes "1"; errors = 1 }
unfolding get_pin_number get_word split_word trim error get_number number_loop
bad_pin_name = refl

abbrev command : Bytes
command = codes "pin  7"

fifteen : All (IsDigit 10) (codes "15")
unfolding digit
fifteen = ((1, omega arith, refl), ((5, omega arith, refl), tt))

get_period_us_lem_example :
    get_period_us (parser (codes "15" ++ [] ++ (frequency_name hertz ++ after_word none)))
    ≡ some
        (value 10 (codes "15") * period hertz, record { line = trim (after_word none); errors = 0 })
get_period_us_lem_example =
    get_period_us_lem (codes "15") [] hertz none 0 fifteen (omega arith) (omega arith) (omega arith)
      tt
