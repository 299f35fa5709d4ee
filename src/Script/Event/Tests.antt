-- ===== src/Script/Event/Tests.antt =====
-- Events of scripts on concrete lines (cores/epoxy/epoxy_test/Script).
use epoxy_duino.Base.{ℕ, ◌≡◌, refl, true, false, [], ◌∷◌, Option, none, some}
use native.Mathlib.Omega.{arith}
use epoxy_duino.Base.Text.{Bytes, codes, same_text, All}
use epoxy_duino.Board.{Board, power_on}
use epoxy_duino.Number.{digit}
use epoxy_duino.Number.RoundTrip.{IsDigit}
use epoxy_duino.Script.Parser.{trim, get_word, split_word, eat_word}
use epoxy_duino.Script.Parser.Units.{milli}
use epoxy_duino.Script.Event.{
  raise_command, raise_general, finish_raise, build, end_line, Script, get_line, raise_script,
}
use epoxy_duino.Script.Event.Streams.{bit_event, play, play-plan}
use epoxy_duino.Script.Event.Plans.{Planned, raise_script-Planned, general_event}

abbrev script : Bytes → Script
script text = record { input = text; line_nr = 0; out_of_sync = 0 }

abbrev no_pins : Bytes → Option ℕ
no_pins name = none

abbrev no_clock : Board Script → ℕ
no_clock b = 0

abbrev bench : Board Script
bench = record (power_on (script (codes "wait 10ms"))) {
  epoxy_real_time = false;
  epoxy_micros = 500;
}

lines : get_line (b'a' ∷ 10 ∷ b'b' ∷ []) ≡ some (b'a' ∷ [], b'b' ∷ [])
unfolding get_line
lines = refl

play-plan_example :
    play no_clock no_pins 0 5
      (1000 ∷ 11003 ∷ 21000 ∷ [])
      (bit_event 1000 5 10000 1000 0 ((false, true) ∷ (false, false) ∷ (true, true) ∷ []))
      bench
    ≡ (11000, 1) ∷ (21000, 0) ∷ (31000, 1) ∷ []
play-plan_example =
    play-plan no_clock no_pins 0 5 (1000 ∷ 11003 ∷ 21000 ∷ []) 1000 10000 1000 0
      ((false, true) ∷ (false, false) ∷ (true, true) ∷ []) bench (omega arith) refl
      (omega arith, (omega arith, (omega arith, tt))) (omega arith)

ten : All (IsDigit 10) (codes "10")
unfolding digit
ten = ((1, omega arith, refl), ((0, omega arith, refl), tt))

raise_script-Planned_example :
    Planned no_clock no_pins 0 500 500 0
      (codes "wait 10 ms # settle")
      0
      (codes "# settle")
      10500
      bench
    × Planned no_clock no_pins 0 500 500 0
        (codes "sync 10 ms # settle")
        0
        (codes "# settle")
        10000
        bench
    × Planned no_clock no_pins 0 500 500 0
        (codes "at 10 ms # settle")
        10000
        (codes "# settle")
        500
        bench
unfolding trim
raise_script-Planned_example =
    raise_script-Planned no_clock no_pins 0 500 500 0 (codes "10") (codes " ") milli
      (some (codes "# settle")) bench ten (omega arith) (omega arith) (refl, tt) (refl, refl)
      (omega arith)

-- An unknown command is dropped, and no error is reported.
unknown_command :
    (raise_script no_clock no_pins 0 (general_event 500 (codes "pni 5 1") 0) bench).event.parser
    ≡ record { line = []; errors = 0 }
unfolding raise_script raise_command raise_general finish_raise get_word split_word trim same_text
    build end_line eat_word
unknown_command = refl
