-- ===== src/Script/Event.antt =====
-- The events of a script: cores/epoxy/epoxy_test/Script/ScriptEvent.cpp, Script.cpp,
-- ScriptRegistry.cpp and Commands/BitStream.cpp. A script is the text that is left of its input;
-- its events run on a board whose user state it is. `reading` is what CLOCK_MONOTONIC reads, `pins`
-- the table pins_arduino of the core, and `stale` what the period of a bit stream holds before it is
-- set.
pub mod Steps
pub mod Streams
pub mod Plans
mod Tests
use epoxy_duino.Base.{
  ℕ, ◌+◌, ◌-◌, ◌%◌, ◌^◌, Bool, true, false, not, ◌&&◌, ◌||◌, if◌then◌else◌, ltb, ◌==◌, List, [],
  ◌∷◌, ◌++◌, Option, none, some,
}
use epoxy_duino.Base.Text.{Bytes, codes, first, same_text}
use epoxy_duino.Board.{Board}
use epoxy_duino.Board.Pins.{digital_read_value}
use epoxy_duino.Board.Clock.{micros}
use epoxy_duino.Injector.{Raised}
use epoxy_duino.Script.Parser.{
  Parser, trim, get_word, is_digit, error, get_char, eat_word, bad_pin, get_pin_number,
  get_duration,
}

pub record Script : Type 0 where
  pub input : Bytes
  pub line_nr : ℕ
  pub out_of_sync : ℕ

-- What BitStream adds to an event, but for the counter that only spaces its messages.
pub record BitStream : Type 0 where
  pub pin : ℕ
  pub period : ℕ
  pub next_us : ℕ

-- The class of an event.
pub data Command : Type 0 where
  general : Command
  bit_stream : BitStream → Command

pub record ScriptEvent : Type 0 where
  pub event_us : ℕ
  pub parser : Parser
  pub command : Command

-- What raise_() answers and leaves.
pub record Outcome : Type 0 where
  pub resched : ℕ
  pub next_step : ℕ
  pub chain : Option ScriptEvent
  pub left : Parser
  pub then_command : Command
  pub after : Board Script

-- std::getline(): `none` where nothing is left.
abbrev pub prepend : ℕ → Option (Bytes × Bytes) → Option (Bytes × Bytes)
prepend c none = some (c ∷ [], [])
prepend c (some (line, rest)) = some (c ∷ line, rest)

unfoldable pub get_line : Bytes → Option (Bytes × Bytes)
get_line [] = none
get_line (c ∷ cs) =
    let later = prepend c (get_line cs) in if c == b'\n' then some ([], cs) else later

abbrev pub fresh_parser : Bytes → Parser
fresh_parser line = record { line = line; errors = 0 }

abbrev pub nothing : Parser → Board Script → Outcome
nothing p b = record {
  resched = 0;
  next_step = 0;
  chain = none;
  left = p;
  then_command = general;
  after = b;
}

-- after the level of a bit is set
unfoldable pub next_bit : ℕ → BitStream → Parser → Board Script → Outcome
next_bit now s p b =
    let o : Outcome = record (nothing p b) { then_command = bit_stream s } in
    if ltb now s.next_us then record o { resched = s.next_us } else record o {
      resched = now;
      after = record b { user = record b.user { out_of_sync = b.user.out_of_sync + 1 } };
    }

-- What may follow a command on its line: a comment, or garbage.
unfoldable pub end_line : ℕ → Parser → Parser
unfolding error
end_line resched p =
    let p₁ : Parser = record p { line = trim p.line } in
    let (slashes, p₂) = eat_word (codes "//") true p₁ in
    let p₃ : Parser = if slashes then record p₂ { line = [] } else p₂ in
    let (hash, p₄) = eat_word (codes "#") true p₃ in
    let p₅ : Parser = if hash then record p₄ { line = [] } else p₄ in
    if not (same_text p₅.line []) && resched == 0 then error p₅ else p₅

module _ (reading : Board Script → ℕ) where
  abbrev pub clock : Board Script → ℕ × Board Script
  clock b = micros (reading b) b

  -- The delay of the next line; a `next_step` in the past is none.
  unfoldable pub step_delay : ℕ → Board Script → ℕ × Board Script
  step_delay next_step b =
      let (now, b') = clock b in
      if next_step == 0
      then (0, b)
      else if ltb next_step now
      then (0, b')
      else (next_step - now, b')

module _ (reading : Board Script → ℕ) (pins : Bytes → Option ℕ) (stale : ℕ) where
  -- the constructor of BitStream
  unfoldable pub new_bit_stream : ℕ → Bytes → Board Script → ScriptEvent × Board Script
  new_bit_stream us params b =
      let (_, d, p₁) = get_duration (fresh_parser params) in
      let (pin, p₂) = get_pin_number pins p₁ in
      let (now, b') = clock reading b in
      (
        record {
          event_us = us;
          parser = p₂;
          command = bit_stream (record {
            pin = pin;
            period = if is_digit (first params) then d else stale;
            next_us = now;
          });
        },
        b',
      )

  -- ScriptRegistry::build(), where the bit stream is the one command that is registered
  unfoldable pub build : Bytes → ℕ → Board Script → Option ScriptEvent × Board Script
  unfolding new_bit_stream
  build line delay b =
      let (now, b₁) = clock reading b in
      let (action, params) = get_word line in
      let (event, b₂) = new_bit_stream ((now + delay) % 2 ^ 64) params b₁ in
      if same_text action (codes "bitstream") then (some event, b₂) else (none, b₁)

  -- The event of a line, of a registered command or of the general kind.
  unfoldable pub line_event : Bytes → ℕ → Board Script → ScriptEvent × Board Script
  unfolding build
  line_event line delay b =
      let (built, b₁) = build line delay b in
      let (now, b₂) = clock reading b₁ in
      elim built [
        | some event ↦ (event, b₁)
        | none ↦ (
          record {
            event_us = (now + delay) % 2 ^ 64;
            parser = fresh_parser line;
            command = general;
          },
          b₂,
        )
      ]

  -- Script::step()
  unfoldable pub script_step : ℕ → Board Script → Option ScriptEvent × Board Script
  unfolding get_line line_event
  script_step delay b = elim (get_line b.user.input) [
    | none ↦ (none, b)
    | some (line, rest) ↦
        let (event, b') =
          line_event line delay
            (record b { user = record b.user { input = rest; line_nr = b.user.line_nr + 1 } }) in
        (some event, b')
  ]

  -- ScriptEvent::raise_(). The pins and the levels are ints that become uint8_t.
  unfoldable pub raise_general : Parser → Board Script → Outcome
  unfolding build
  raise_general p b =
      let (action, rest) = get_word p.line in
      let p₁ : Parser = record p { line = rest } in
      let (_, d, after_duration) = get_duration p₁ in
      let (pin, p₂) = get_pin_number pins p₁ in
      let (val, p₃) = get_pin_number pins p₂ in
      let (now, b') = clock reading b in
      let (built, b'') = build (action ++ b' ' ∷ rest) 0 b in
      if same_text action []
      then nothing p₁ b
      else if same_text action (codes "#") || same_text action (codes "//")
      then nothing (record p₁ { line = [] }) b
      else if same_text action (codes "at")
      then record (nothing after_duration b) { resched = d }
      else if same_text action (codes "pin")
      then nothing p₃ (digital_read_value b (pin % 2 ^ 8) (val % 2 ^ 8))
      else if same_text action (codes "wait")
      then record (nothing after_duration b') { next_step = (d + now) % 2 ^ 64 }
      else if same_text action (codes "sync")
      then record (nothing after_duration b) { next_step = d }
      else record (nothing (record p₁ { line = [] }) b'') { chain = built }

  -- BitStream::raise_()
  unfoldable pub raise_bit_stream : BitStream → Parser → Board Script → Outcome
  unfolding error next_bit
  raise_bit_stream s p b =
      let (now, b₁) = clock reading b in
      let s' : BitStream = record s { next_us = (s.next_us + s.period) % 2 ^ 64 } in
      let (char, p₁) = get_char p in
      let (second, p₂) = get_char p₁ in
      let separator = char == b'-' || char == b' ' in
      let bit = if separator then second else char in
      let p' = if separator then p₂ else p₁ in
      let idle : Outcome = record (nothing p' b₁) { then_command = bit_stream s' } in
      if s.pin == bad_pin
      then record (nothing p b) { then_command = bit_stream s }
      else if bit == 0
      then idle
      else if bit == b'0'
      then next_bit now s' p' (digital_read_value b₁ (s.pin % 2 ^ 8) 0)
      else if bit == b'1'
      then next_bit now s' p' (digital_read_value b₁ (s.pin % 2 ^ 8) 1)
      else record idle { left = error p' }

  unfoldable pub raise_command : ScriptEvent → Board Script → Outcome
  unfolding raise_general raise_bit_stream
  raise_command e b = elim e.command [
    | general ↦ raise_general e.parser b
    | bit_stream s ↦ raise_bit_stream s e.parser b
  ]

  -- ScriptEvent::raise(), from the return of raise_() on
  unfoldable pub finish_raise : ScriptEvent → Outcome → Raised ScriptEvent (Board Script)
  unfolding end_line step_delay script_step
  finish_raise e o =
      let e' : ScriptEvent = record e {
        parser = end_line o.resched o.left;
        command = o.then_command;
      } in
      let (delay, b₁) = step_delay reading o.next_step o.after in
      let (next, b₂) = script_step delay b₁ in
      elim o.chain [
        | some c ↦ record { sched = o.resched; chain = some c; event = e'; board = o.after }
        | none ↦ record { sched = o.resched; chain = next; event = e'; board = b₂ }
      ]

  unfoldable pub raise_script : ScriptEvent → Board Script → Raised ScriptEvent (Board Script)
  unfolding raise_command finish_raise
  raise_script e b = finish_raise e (raise_command e b)
