-- ===== src/Script/Event/Plans.antt =====
-- The commands `wait`, `sync` and `at` of a script (cores/epoxy/epoxy_test/Script/ScriptEvent.cpp), in
-- simulated time.
use epoxy_duino.Base.{
  ℕ, ◌+◌, ◌*◌, ◌%◌, ◌^◌, ◌≤◌, ◌<◌, ◌≡◌, refl, ap, ◌∙◌, true, false, if◌then◌else◌, ltb, [], ◌∷◌,
  ◌++◌, append_assoc, Option, length,
}
use native.Mathlib.Omega.{arith}
use epoxy_duino.Base.Text.{Bytes, codes, first, same_text, All}
use epoxy_duino.Board.{Board}
use epoxy_duino.Injector.Time.{Stands, micros-Stands}
use epoxy_duino.Number.RoundTrip.{IsDigit, value}
use epoxy_duino.Script.Parser.{is_blank, is_digit, trim, split_word, get_word, get_duration}
use epoxy_duino.Script.Parser.Words.{IsBlank, first_digit}
use epoxy_duino.Script.Parser.Units.{
  TimeUnit, microseconds, time_name, after_word, get_duration_lem,
}
use epoxy_duino.Script.Event.{
  Script, ScriptEvent, Outcome, general, nothing, raise_general, raise_command, raise_script,
  end_line, finish_raise, get_line,
}
use epoxy_duino.Script.Event.Steps.{Follows, delay_of, finish_raise-Stands}

-- A text that begins with a duration, its microseconds, and the rest of the line.
pub record Begins (text : Bytes) (us : ℕ) (rest : Bytes) : Type 0 where
  pub trimmed : trim text ≡ text
  pub read :
      (errors : ℕ)
      → get_duration (record { line = text; errors = errors })
        ≡ (true, us, record { line = rest; errors = errors })

trim_solid : (text : Bytes) → is_blank (first text) ≡ false → trim text ≡ text
unfolding trim
trim_solid [] h = refl
trim_solid (c ∷ cs) h = rw h refl

pub get_duration-Begins :
    (ds gap : Bytes) (u : TimeUnit) (tail : Option Bytes)
    → All (IsDigit 10) ds
    → 1 ≤ length ds
    → value 10 ds < 2 ^ 64
    → All IsBlank gap
    → Begins
        (ds ++ gap ++ (time_name u ++ after_word tail))
        (value 10 ds * microseconds u % 2 ^ 64)
        (trim (after_word tail))
get_duration-Begins ds gap u tail all some_digit fits blanks = record {
  trimmed =
      trim_solid (ds ++ gap ++ (time_name u ++ after_word tail)) (ground (arith, digit_first));
  read = λ errors. get_duration_lem ds gap u tail errors all some_digit fits blanks;
}
  where
    digit_first : is_digit (first (ds ++ gap ++ (time_name u ++ after_word tail))) ≡ true
    digit_first =
        rw append_assoc (first_digit ds (gap ++ (time_name u ++ after_word tail)) all some_digit)

abbrev pub general_event : ℕ → Bytes → ℕ → ScriptEvent
general_event us line errors = record {
  event_us = us;
  parser = record { line = line; errors = errors };
  command = general;
}

module _ (reading : Board Script → ℕ) (pins : Bytes → Option ℕ) (stale at : ℕ) where
  raise_general-wait :
      (text rest : Bytes) (us errors : ℕ) (b : Board Script)
      → Stands at b
      → Begins text us rest
      → raise_general reading pins stale
          (record { line = codes "wait " ++ text; errors = errors })
          b
        ≡ record (nothing (record { line = rest; errors = errors }) b) {
          next_step = (us + at) % 2 ^ 64;
        }
  unfolding raise_general get_word split_word trim same_text
  raise_general-wait text rest us errors b h d =
      rw (d.trimmed, raise_general, d.read errors, micros-Stands (reading b) at b h) refl

  raise_general-sync :
      (text rest : Bytes) (us errors : ℕ) (b : Board Script)
      → Stands at b
      → Begins text us rest
      → raise_general reading pins stale
          (record { line = codes "sync " ++ text; errors = errors })
          b
        ≡ record (nothing (record { line = rest; errors = errors }) b) { next_step = us }
  unfolding raise_general get_word split_word trim same_text
  raise_general-sync text rest us errors b h d = rw (d.trimmed, raise_general, d.read errors) refl

  raise_general-at :
      (text rest : Bytes) (us errors : ℕ) (b : Board Script)
      → Stands at b
      → Begins text us rest
      → raise_general reading pins stale (record { line = codes "at " ++ text; errors = errors }) b
        ≡ record (nothing (record { line = rest; errors = errors }) b) { resched = us }
  unfolding raise_general get_word split_word trim same_text
  raise_general-at text rest us errors b h d = rw (d.trimmed, raise_general, d.read errors) refl

  -- What an event leaves: whether and when it comes back, the line after it, and what follows it:
  -- the next line of the script, which starts at `next`, and a board that is as before but for the
  -- script.
  abbrev pub Planned : (event_us errors : ℕ) → Bytes → ℕ → Bytes → ℕ → Board Script → Type 0
  Planned event_us errors line sched rest next b =
      let r = raise_script reading pins stale (general_event event_us line errors) b in
      (r.sched ≡ sched)
      × (r.event.parser ≡ end_line sched (record { line = rest; errors = errors }))
      × Follows reading pins stale at next (get_line b.user.input) b r.chain r.board

  planned :
      (event_us errors sched next_step next : ℕ) (line rest : Bytes) (b : Board Script)
      → Stands at b
      → raise_general reading pins stale (record { line = line; errors = errors }) b
        ≡ record (nothing (record { line = rest; errors = errors }) b) {
          resched = sched;
          next_step = next_step;
        }
      → (at + delay_of at next_step) % 2 ^ 64 ≡ next
      → Planned event_us errors line sched rest next b
  unfolding raise_script raise_command
  planned event_us errors sched next_step next line rest b h outcome next_at =
      let o : Outcome = record (nothing (record { line = rest; errors = errors }) b) {
        resched = sched;
        next_step = next_step;
      } in
      let e = general_event event_us line errors in
      let (by_sched, by_event, by_next) = finish_raise-Stands reading pins stale at e o refl h in
      let raised = ap (finish_raise reading pins stale e) outcome in
      (
        ap (λ r. r.sched) raised ∙ by_sched,
        ap (λ r. r.event.parser) raised ∙ ap (λ (e : ScriptEvent). e.parser) by_event,
        rw (raised, ← next_at) by_next,
      )

  -- In simulated time, on a line with the command and a duration in digits and a unit, which does not
  -- take the clock to 2^64, where the script has another line: `wait` starts that line the duration
  -- after now, and `sync` when the clock has reached the duration, or now if it has passed; neither
  -- event comes back. `at` asks to come back when the clock is the duration, which 0 does not, with
  -- what follows it on the line, and starts the next line now. The next line is read off the script
  -- and becomes its event; at the end of the script nothing follows. None of them changes the pins.
  pub raise_script-Planned :
      (event_us errors : ℕ) (ds gap : Bytes) (u : TimeUnit) (tail : Option Bytes) (b : Board Script)
      → All (IsDigit 10) ds
      → 1 ≤ length ds
      → value 10 ds < 2 ^ 64
      → All IsBlank gap
      → Stands at b
      → at + value 10 ds * microseconds u % 2 ^ 64 < 2 ^ 64
      → let text = ds ++ gap ++ (time_name u ++ after_word tail) in
        let us = value 10 ds * microseconds u % 2 ^ 64 in
        let rest = trim (after_word tail) in
        Planned event_us errors (codes "wait " ++ text) 0 rest (at + us) b
        × Planned event_us errors (codes "sync " ++ text) 0 rest (if ltb at us then us else at) b
        × Planned event_us errors (codes "at " ++ text) us rest at b
  raise_script-Planned event_us errors ds gap u tail b all some_digit fits blanks h room =
      let text = ds ++ gap ++ (time_name u ++ after_word tail) in
      let us = value 10 ds * microseconds u % 2 ^ 64 in
      let rest = trim (after_word tail) in
      let d = get_duration-Begins ds gap u tail all some_digit fits blanks in
      (
        planned event_us errors 0 ((us + at) % 2 ^ 64) (at + us) (codes "wait " ++ text) rest b h
            (raise_general-wait text rest us errors b h d) (waited us room),
        planned event_us errors 0 us (if ltb at us then us else at) (codes "sync " ++ text) rest b h
            (raise_general-sync text rest us errors b h d) (synced us room),
        planned event_us errors us 0 at (codes "at " ++ text) rest b h
            (raise_general-at text rest us errors b h d) (at_once us room),
      )
    where
      waited :
          (us : ℕ) → at + us < 2 ^ 64 → (at + delay_of at ((us + at) % 2 ^ 64)) % 2 ^ 64 ≡ at + us
      waited us room = ground arith

      synced :
          (us : ℕ)
          → at + us < 2 ^ 64
          → (at + delay_of at us) % 2 ^ 64 ≡ (if ltb at us then us else at)
      synced us room = ground arith

      at_once : (us : ℕ) → at + us < 2 ^ 64 → (at + delay_of at 0) % 2 ^ 64 ≡ at
      at_once us room = omega arith
