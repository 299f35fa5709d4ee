-- ===== src/Script/Event/Streams.antt =====
-- What a bit stream does to its pin (cores/epoxy/epoxy_test/Script/Commands/BitStream.cpp), in
-- simulated time.
use epoxy_duino.Base.{
  ℕ, ◌+◌, ◌*◌, ◌%◌, ◌^◌, ◌<◌, ◌≡◌, refl, ap, ◌∙◌, Bool, true, false, if◌then◌else◌, ltb, ◌==◌, List,
  [], ◌∷◌, Option, none, length,
}
use native.Mathlib.Omega.{arith}
use native.Mathlib.Nat.{mod-eq_of_lt}
use epoxy_duino.Base.Text.{Bytes, same_text}
use epoxy_duino.Board.{Board}
use epoxy_duino.Board.Pins.{digital_read, digital_read_value}
use epoxy_duino.Board.Pins.Laws.{digital_read-digital_read_value}
use epoxy_duino.Board.Clock.{set_micros}
use epoxy_duino.Injector.Time.{Stands}
use epoxy_duino.Script.Parser.{trim, get_char, eat_word, bad_pin}
use epoxy_duino.Script.Event.{
  Script, bit_stream, ScriptEvent, Outcome, get_line, next_bit, raise_bit_stream, raise_command,
  end_line, raise_script, finish_raise,
}
use epoxy_duino.Script.Event.Steps.{clock-Stands, Follows-user, finish_raise-Stands}

-- A bit, with or without a dash before it.
abbrev pub text_of : List (Bool × Bool) → Bytes
text_of [] = []
text_of ((dash, bit) ∷ bits) =
    let rest = (if bit then b'1' else b'0') ∷ text_of bits in if dash then b'-' ∷ rest else rest

abbrev pub level_of : Bool → ℕ
level_of bit = if bit then 1 else 0

end_line-text_of :
    (resched errors : ℕ) (bits : List (Bool × Bool))
    → (resched == 0) ≡ false
    → end_line resched (record { line = text_of bits; errors = errors })
      ≡ record { line = text_of bits; errors = errors }
unfolding end_line eat_word trim same_text
end_line-text_of resched errors [] h = refl
end_line-text_of resched errors ((false, false) ∷ bits) h = rw h refl
end_line-text_of resched errors ((false, true) ∷ bits) h = rw h refl
end_line-text_of resched errors ((true, bit) ∷ bits) h = rw h refl

-- An event of a bit stream with the bits that are left.
abbrev pub bit_event : ℕ → ℕ → ℕ → ℕ → ℕ → List (Bool × Bool) → ScriptEvent
bit_event us pin period next errors bits = record {
  event_us = us;
  parser = record { line = text_of bits; errors = errors };
  command = bit_stream (record { pin = pin; period = period; next_us = next });
}

abbrev bit_outcome : ℕ → ℕ → ℕ → ℕ → Bool → List (Bool × Bool) → Board Script → Outcome
bit_outcome pin period next errors bit bits b = record {
  resched = next + period;
  next_step = 0;
  chain = none;
  left = record { line = text_of bits; errors = errors };
  then_command = bit_stream (record { pin = pin; period = period; next_us = next + period });
  after = digital_read_value b pin (level_of bit);
}

-- In simulated time a line that is read changes only the script.
module _ (reading : Board Script → ℕ) (pins : Bytes → Option ℕ) (stale at : ℕ) where
  digital_read_value-Stands :
      (b : Board Script) (pin val : ℕ) → Stands at b → Stands at (digital_read_value b pin val)
  unfolding digital_read_value
  digital_read_value-Stands b pin val h = ground (arith, h)

  read_level :
      (b : Board Script) (pin : ℕ) (bit : Bool)
      → pin < 32
      → digital_read (digital_read_value b pin (level_of bit)) pin ≡ level_of bit
  read_level b pin false small = (digital_read-digital_read_value b pin 0 pin).0 ∙ ground arith
  read_level b pin true small = (digital_read-digital_read_value b pin 1 pin).0 ∙ ground arith

  raise_bit_stream-text_of :
      (pin period next errors : ℕ) (dash bit : Bool) (bits : List (Bool × Bool)) (b : Board Script)
      → Stands at b
      → pin < 32
      → at < next + period
      → next + period < 2 ^ 64
      → raise_bit_stream reading pins stale
          (record { pin = pin; period = period; next_us = next })
          (record { line = text_of ((dash, bit) ∷ bits); errors = errors })
          b
        ≡ bit_outcome pin period next errors bit bits b
  unfolding raise_bit_stream get_char next_bit
  raise_bit_stream-text_of pin period next errors dash bit bits b h small soon fits =
      go dash bit (ground arith) (mod-eq_of_lt fits) (omega arith) (ground arith)
    where
      go :
          (dash bit : Bool)
          → (pin == bad_pin) ≡ false
          → (next + period) % 2 ^ 64 ≡ next + period
          → pin % 2 ^ 8 ≡ pin
          → ltb at (next + period) ≡ true
          → raise_bit_stream reading pins stale
              (record { pin = pin; period = period; next_us = next })
              (record { line = text_of ((dash, bit) ∷ bits); errors = errors })
              b
            ≡ bit_outcome pin period next errors bit bits b
      go false false good wraps narrow later =
          rw (good, clock-Stands reading pins stale at b h, wraps, narrow, later) refl
      go false true good wraps narrow later =
          rw (good, clock-Stands reading pins stale at b h, wraps, narrow, later) refl
      go true false good wraps narrow later =
          rw (good, clock-Stands reading pins stale at b h, wraps, narrow, later) refl
      go true true good wraps narrow later =
          rw (good, clock-Stands reading pins stale at b h, wraps, narrow, later) refl

  -- One bit: the event comes back after the period, and the pin has the level of the bit.
  raise_script-bit_event :
      (us pin period next errors : ℕ) (dash bit : Bool) (bits : List (Bool × Bool))
      (b : Board Script)
      → Stands at b
      → pin < 32
      → at < next + period
      → next + period < 2 ^ 64
      → let r =
          raise_script reading pins stale
            (bit_event us pin period next errors ((dash, bit) ∷ bits))
            b in
        (r.sched ≡ next + period)
        × (r.event ≡ bit_event us pin period (next + period) errors bits)
        × (digital_read r.board pin ≡ level_of bit)
  unfolding raise_script raise_command digital_read
  raise_script-bit_event us pin period next errors dash bit bits b h small soon fits =
      let o = bit_outcome pin period next errors bit bits b in
      let outcome =
        raise_bit_stream-text_of pin period next errors dash bit bits b h small soon fits in
      let ended = end_line-text_of (next + period) errors bits (ground arith) in
      let after_Stands = digital_read_value-Stands b pin (level_of bit) h in
      let e = bit_event us pin period next errors ((dash, bit) ∷ bits) in
      let (sched, event, follows) =
        finish_raise-Stands reading pins stale at e o refl after_Stands in
      let r = finish_raise reading pins stale e o in
      let (u, board) =
        Follows-user reading pins stale at ((at + 0) % 2 ^ 64) (get_line o.after.user.input) o.after
          r.chain r.board follows in
      let raised = ap (finish_raise reading pins stale e) outcome in
      (
        ap (λ r. r.sched) raised ∙ sched,
        ap (λ r. r.event) raised ∙ event ∙ rw ended refl,
        ap (λ r. digital_read r.board pin) raised
            ∙ ap (λ b'. digital_read b' pin) board
            ∙ read_level b pin bit small,
      )

-- What a sequence of instants of simulated time gives: at each, the event is raised, and its next
-- instant and the level of the pin are noted.
module _ (reading : Board Script → ℕ) (pins : Bytes → Option ℕ) (stale pin : ℕ) where
  unfoldable pub play : List ℕ → ScriptEvent → Board Script → List (ℕ × ℕ)
  unfolding raise_script set_micros
  play [] e b = []
  play (t ∷ times) e b =
      let r = raise_script reading pins stale e (set_micros t b) in
      (r.sched, digital_read r.board pin) ∷ play times r.event r.board

  -- Each bit at its instant, and the next one a period later.
  abbrev pub plan : ℕ → ℕ → List (Bool × Bool) → List (ℕ × ℕ)
  plan next period [] = []
  plan next period ((dash, bit) ∷ bits) =
      (next + period, level_of bit) ∷ plan (next + period) period bits

  -- The instants are each before the one of the next bit.
  abbrev pub InTurn : ℕ → ℕ → List ℕ → Type 0
  InTurn next period [] = Unit
  InTurn next period (t ∷ times) = (t < next + period) × InTurn (next + period) period times

  -- A bit stream on a pin below 32, raised at as many instants as it has bits, each before the
  -- instant of the next bit and below 2^64, gives the pin the level of every bit in turn, whether a
  -- dash stands before it or not, and comes back a period after the instant of the bit.
  pub play-plan :
      (times : List ℕ) (us period next errors : ℕ) (bits : List (Bool × Bool)) (b : Board Script)
      → pin < 32
      → length times ≡ length bits
      → InTurn next period times
      → next + length bits * period < 2 ^ 64
      → play times (bit_event us pin period next errors bits) b ≡ plan next period bits
  unfolding play set_micros
  play-plan [] us period next errors [] b small same turn fits = refl
  play-plan [] us period next errors (x ∷ bits) b small same turn fits = absurd (omega arith)
  play-plan (t ∷ times) us period next errors [] b small same turn fits = absurd (omega arith)
  play-plan (t ∷ times) us period next errors ((dash, bit) ∷ bits) b small same (now, turn) fits =
      let b' = set_micros t b in
      let stands : Stands t b' = (refl, mod-eq_of_lt (omega (arith, now, fits))) in
      let (sched, event, bit_level) =
        raise_script-bit_event reading pins stale t us pin period next errors dash bit bits b'
          stands small now (omega (arith, fits)) in
      let later =
        play-plan times us period (next + period) errors bits
          (raise_script reading pins stale
            (bit_event us pin period next errors ((dash, bit) ∷ bits)) b').board
          small (omega arith) turn (omega (arith, fits)) in
      rw (sched, event, bit_level, later) refl
