-- ===== src/Board/Interrupts.antt =====
-- attachInterrupt(), detachInterrupt(), checkInterrupts() and triggerInterrupt()
-- (cores/epoxy/Arduino.cpp). The handlers are the sketch's code: `call` runs one of them on the
-- whole board.
pub mod Scan
pub mod Laws
mod Tests
use epoxy_duino.Base.{
  ℕ, suc, zero, ◌+◌, Bool, true, false, not, ◌&&◌, ◌||◌, if◌then◌else◌, leb, ◌==◌, Option, none,
  some, get_or, set, replicate,
}
use epoxy_duino.Board.{Board, InterruptHandler, zero_handler}
use epoxy_duino.Board.Pins.{digital_read}

abbrev pub max_interrupts : ℕ
max_interrupts = 32

-- The macro of the build: EPOXY_CORE_AVR, EPOXY_CORE_ESP8266, or neither.
pub data Core : Type 0 where
  avr esp8266 other : Core

-- `switch (mode)` of checkInterrupts(), with the numbers that Arduino.h gives the modes on each
-- core. LOW is 0 and HIGH is 1.
change : ℕ → ℕ → Bool
change last current = not (current == last)

falling : ℕ → ℕ → Bool
falling last current = last == 1 && current == 0

rising : ℕ → ℕ → Bool
rising last current = last == 0 && current == 1

unfoldable pub should_trigger : Core → ℕ → ℕ → ℕ → Bool
unfolding change falling rising
should_trigger Core.avr mode last current =
    if mode == 1
    then change last current
    else if mode == 2
    then falling last current
    else if mode == 3
    then rising last current
    else false
should_trigger Core.esp8266 mode last current =
    if mode == 1
    then rising last current
    else if mode == 2
    then falling last current
    else if mode == 3
    then change last current
    else if mode == 4 || mode == 12
    then current == 0
    else if mode == 5 || mode == 13
    then current == 1
    else false
should_trigger Core.other mode last current =
    if mode == 3
    then change last current
    else if mode == 2
    then falling last current
    else if mode == 1
    then rising last current
    else false

-- A call of `userFunc()`, or of `userFuncArg(arg)`.
pub data Invocation : Type 0 where
  plain : ℕ → Invocation
  with_arg : ℕ → Option ℕ → Invocation

-- What the branches on `userFunc` and `userFuncArg` call.
unfoldable pub invocation : InterruptHandler → Option Invocation
invocation h = elim h.user_func [
  | some f ↦ some (plain f)
  | none ↦ elim h.user_func_arg [ some f ↦ some (with_arg f h.arg) | none ↦ none ]
]

abbrev pub idle_handler : InterruptHandler
idle_handler = record zero_handler { pin = 255 }

-- what attaching and detaching write into a slot
abbrev pub attached : Option ℕ → Option ℕ → Option ℕ → ℕ → ℕ → ℕ → InterruptHandler
attached func func_arg arg pin mode level = record {
  user_func = func;
  user_func_arg = func_arg;
  arg = arg;
  pin = pin;
  mode = mode;
  enabled = true;
  last_pin_state = level;
}

abbrev pub detached : InterruptHandler → InterruptHandler
detached h = record h { user_func = none; user_func_arg = none; arg = none; enabled = false }

module _ {U : Type 0} where
  unfoldable pub init_interrupts : Board U → Board U
  init_interrupts b = if b.interrupts_initialized then b else record b {
    interrupt_handlers = replicate max_interrupts idle_handler;
    interrupts_initialized = true;
  }

  abbrev pub handler : Board U → ℕ → InterruptHandler
  handler b i = get_or b.interrupt_handlers i zero_handler

  abbrev pub set_handler : Board U → ℕ → InterruptHandler → Board U
  set_handler b i h = record b { interrupt_handlers = set b.interrupt_handlers i h }

  unfoldable pub attach_interrupt : Board U → ℕ → Option ℕ → ℕ → Board U
  attach_interrupt b num none mode = init_interrupts b
  attach_interrupt b num (some f) mode =
      let b' = init_interrupts b in
      if leb max_interrupts num
      then b'
      else set_handler b' num (attached (some f) none none num mode (digital_read b' num))

  -- compiled for the ESP8266 core only
  unfoldable pub attach_interrupt_arg : Board U → ℕ → Option ℕ → Option ℕ → ℕ → Board U
  attach_interrupt_arg b pin none arg mode = init_interrupts b
  attach_interrupt_arg b pin (some f) arg mode =
      let b' = init_interrupts b in
      if leb max_interrupts pin
      then b'
      else set_handler b' pin (attached none (some f) arg pin mode (digital_read b' pin))

  unfoldable pub detach_interrupt : Board U → ℕ → Board U
  detach_interrupt b num =
      let b' = init_interrupts b in
      if leb max_interrupts num then b' else set_handler b' num (detached (handler b' num))

  module _ (call : Invocation → Board U → Board U) where
    unfoldable pub invoke : InterruptHandler → Board U → Board U
    unfolding invocation
    invoke h b = elim (invocation h) [ some k ↦ call k b | none ↦ b ]

    module _ (core : Core) where
      -- one round of the loop, at slot `i`
      unfoldable pub check_slot : ℕ → Board U → Board U
      check_slot i b =
          let h = handler b i in
          let current = digital_read b h.pin in
          let b' = if should_trigger core h.mode h.last_pin_state current then invoke h b else b in
          if h.enabled
          then set_handler b' i (record (handler b' i) { last_pin_state = current })
          else b

      -- `n` rounds left, at slot `i`
      unfoldable pub check_slots : ℕ → ℕ → Board U → Board U
      check_slots zero i b = b
      check_slots (suc n) i b = check_slots n (suc i) (check_slot i b)

      unfoldable pub check_interrupts : Board U → Board U
      check_interrupts b = check_slots max_interrupts 0 (init_interrupts b)

    unfoldable pub trigger_interrupt : Board U → ℕ → Board U
    trigger_interrupt b num =
        let b' = init_interrupts b in
        if leb max_interrupts num || not (handler b' num).enabled
        then b'
        else invoke (handler b' num) b'
