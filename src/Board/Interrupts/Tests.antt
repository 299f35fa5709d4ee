-- ===== src/Board/Interrupts/Tests.antt =====
-- Runs of cores/epoxy/Arduino.cpp's interrupt functions on a board with three handlers.
use epoxy_duino.Base.{◌≡◌, refl, List, [], ◌∷◌, ◌++◌, some, none}
use mathlib.Core.List.{map}
use epoxy_duino.Board.{Board, InterruptHandler, power_on}
use epoxy_duino.Board.Pins.{digital_read, digital_read_value, set_pin, get_pin}
use epoxy_duino.Board.Interrupts.{
  Core, attached, invocation, Invocation, plain, attach_interrupt, check_interrupts, check_slots,
  check_slot, init_interrupts, invoke, should_trigger,
}
use epoxy_duino.Board.Interrupts.Scan.{on_user, perform, fired, refreshed, check_interrupts-served}

-- the sketch's state is the list of the calls made
abbrev log : Invocation → List Invocation → List Invocation
log k calls = calls ++ k ∷ []

-- RISING on 2, FALLING on 3 and CHANGE on 4 of an AVR board
abbrev attached_board : Board (List Invocation)
attached_board =
    attach_interrupt (attach_interrupt (attach_interrupt (power_on []) 2 (some 20) 3) 3 (some 30) 2)
      4 (some 40) 1

abbrev raised : Board (List Invocation)
raised = digital_read_value (digital_read_value attached_board 4 1) 2 1

calls_in_order : (check_interrupts (on_user log) Core.avr raised).user ≡ plain 20 ∷ plain 40 ∷ []
unfolding check_interrupts check_slots check_slot attach_interrupt init_interrupts digital_read
    digital_read_value set_pin get_pin invoke should_trigger
calls_in_order = refl

-- ONLOW on pin 6
abbrev attached_low : InterruptHandler
attached_low = attached (some 9) none none 6 4 1

-- ESP32 gives ONLOW and ONHIGH numbers, and checkInterrupts() has no case for them there.
level_modes_ignored :
    (fired Core.other (λ pin. 0) (attached_low ∷ []) ≡ [])
    × (fired Core.esp8266 (λ pin. 0) (attached_low ∷ []) ≡ plain 9 ∷ [])
unfolding should_trigger invocation
level_modes_ignored = (refl, refl)

check_interrupts-served_example :
    check_interrupts (on_user log) Core.avr raised ≡ record (init_interrupts raised) {
      interrupt_handlers =
          map
            (refreshed (digital_read (init_interrupts raised)))
            (init_interrupts raised).interrupt_handlers;
      user =
          perform log
            (fired Core.avr
              (digital_read (init_interrupts raised))
              (init_interrupts raised).interrupt_handlers)
            (init_interrupts raised).user;
    }
unfolding init_interrupts attach_interrupt digital_read_value
check_interrupts-served_example = check_interrupts-served log Core.avr raised refl
