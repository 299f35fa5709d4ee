-- ===== src/Script/Event/Steps.antt =====
-- The next line of a script (cores/epoxy/epoxy_test/Script/ScriptEvent.cpp, Script.cpp), in simulated
-- time.
use epoxy_duino.Base.{
  ℕ, ◌+◌, ◌-◌, ◌%◌, ◌^◌, ◌≡◌, refl, ap, ◌∙◌, Bool, true, false, if◌then◌else◌, ltb, ◌==◌, Option,
  none, some, Bool-cases, Option-cases, inl, inr,
}
use epoxy_duino.Base.Text.{Bytes, codes, same_text}
use epoxy_duino.Board.{Board}
use epoxy_duino.Injector.Time.{Stands, micros-Stands}
use epoxy_duino.Script.Parser.{get_word}
use epoxy_duino.Script.Event.{
  Script, general, ScriptEvent, Outcome, get_line, clock, new_bit_stream, build, line_event,
  script_step, end_line, step_delay, finish_raise, fresh_parser,
}

-- The delay before the next line.
abbrev pub delay_of : ℕ → ℕ → ℕ
delay_of at next_step = if next_step == 0 then 0 else if ltb next_step at then 0 else next_step - at

-- In simulated time a line that is read changes only the script.
module _ (reading : Board Script → ℕ) (pins : Bytes → Option ℕ) (stale at : ℕ) where
  pub clock-Stands : (b : Board Script) → Stands at b → clock reading b ≡ (at, b)
  clock-Stands b h = micros-Stands (reading b) at b h

  new_bit_stream-Stands :
      (us : ℕ) (params : Bytes) (b : Board Script)
      → Stands at b
      → (new_bit_stream reading pins stale us params b).1 ≡ b
  unfolding new_bit_stream
  new_bit_stream-Stands us params b h = ap (λ r. r.1) (clock-Stands b h)

  build-Stands :
      (line : Bytes) (delay : ℕ) (b : Board Script)
      → Stands at b
      → let (action, params) = get_word line in
        build reading pins stale line delay b ≡ (
          (if same_text action (codes "bitstream")
              then some (new_bit_stream reading pins stale ((at + delay) % 2 ^ 64) params b).0
              else none),
          b,
        )
  unfolding build
  build-Stands line delay b h =
      elim (Bool-cases (same_text (get_word line).0 (codes "bitstream"))) [
        | inl e ↦ rw (e, build, clock-Stands b h, clock-Stands b h) refl
        | inr e ↦ rw (e, build, clock-Stands b h) refl
      ]

  -- The end of line_event, on what build() answers.
  abbrev end_event : Bytes → ℕ → Option ScriptEvent × Board Script → ScriptEvent × Board Script
  end_event line delay r =
      let (built, b₁) = r in
      let (now, b₂) = clock reading b₁ in
      elim built [
        | some event ↦ (event, b₁)
        | none ↦ (
          record {
            event_us = (now + delay) % 2 ^ 64;
            parser = fresh_parser line;
            command = general;
          },
          b₂,
        )
      ]

  -- The event of a line of the script that starts at a time.
  abbrev pub event_of : ℕ → Bytes → Board Script → ScriptEvent
  event_of us line b =
      let (action, params) = get_word line in
      if same_text action (codes "bitstream")
      then (new_bit_stream reading pins stale us params b).0
      else record { event_us = us; parser = fresh_parser line; command = general }

  end_event-Stands :
      (line : Bytes) (delay : ℕ) (b : Board Script) (t : Bool) (e : ScriptEvent)
      → Stands at b
      → end_event line delay ((if t then some e else none), b) ≡ (
        (if t then e else record {
          event_us = (at + delay) % 2 ^ 64;
          parser = fresh_parser line;
          command = general;
        }),
        b,
      )
  end_event-Stands line delay b true e h = refl
  end_event-Stands line delay b false e h =
      ap
        (λ (r : ℕ × Board Script). (
          record {
            event_us = (r.0 + delay) % 2 ^ 64;
            parser = fresh_parser line;
            command = general;
          },
          r.1,
        ))
        (clock-Stands b h)

  line_event-Stands :
      (line : Bytes) (delay : ℕ) (b : Board Script)
      → Stands at b
      → line_event reading pins stale line delay b ≡ (event_of ((at + delay) % 2 ^ 64) line b, b)
  unfolding line_event
  line_event-Stands line delay b h =
      let (action, params) = get_word line in
      let built = new_bit_stream reading pins stale ((at + delay) % 2 ^ 64) params b in
      ap (end_event line delay) (build-Stands line delay b h)
      ∙ end_event-Stands line delay b (same_text action (codes "bitstream")) built.0 h

  event_of-event_us :
      (us : ℕ) (line : Bytes) (b : Board Script) → (event_of us line b).event_us ≡ us
  unfolding new_bit_stream
  event_of-event_us us line b = of_both (same_text (get_word line).0 (codes "bitstream"))
    where
      of_both :
          (t : Bool)
          → (let e : ScriptEvent =
                if t
                then (new_bit_stream reading pins stale us (get_word line).1 b).0
                else record { event_us = us; parser = fresh_parser line; command = general } in
              e.event_us ≡ us)
      of_both true = refl
      of_both false = refl

  -- What follows an event, where `input` is the next line of the script and what is left behind it:
  -- nothing at the end of the script, else the event of the line, which starts at a time, and the
  -- script goes on behind the line. The rest of the board stays.
  abbrev pub Follows :
      ℕ → Option (Bytes × Bytes) → Board Script → Option ScriptEvent → Board Script → Type 0
  Follows us none b chain left = (chain ≡ none) × (left ≡ b)
  Follows us (some (line, rest)) b chain left =
      let b' : Board Script = record b {
        user = record b.user { input = rest; line_nr = b.user.line_nr + 1 };
      } in
      (chain ≡ some (event_of us line b')) × ((event_of us line b').event_us ≡ us) × (left ≡ b')

  pub Follows-user :
      (us : ℕ) (o : Option (Bytes × Bytes)) (b : Board Script) (chain : Option ScriptEvent)
      (left : Board Script)
      → Follows us o b chain left
      → (s : Script) × (left ≡ record b { user = s })
  Follows-user us none b chain left (c, same) = (b.user, same)
  Follows-user us (some (line, rest)) b chain left (c, e, same) =
      (record b.user { input = rest; line_nr = b.user.line_nr + 1 }, same)

  -- the step of a script on the line that was read
  abbrev step_on : ℕ → Board Script → Option (Bytes × Bytes) → Option ScriptEvent × Board Script
  step_on delay b none = (none, b)
  step_on delay b (some (line, rest)) =
      let (event, b') =
        line_event reading pins stale line delay
          (record b { user = record b.user { input = rest; line_nr = b.user.line_nr + 1 } }) in
      (some event, b')

  step_on-Follows :
      (delay : ℕ) (o : Option (Bytes × Bytes)) (b : Board Script)
      → Stands at b
      → Follows ((at + delay) % 2 ^ 64) o b (step_on delay b o).0 (step_on delay b o).1
  step_on-Follows delay none b h = (refl, refl)
  step_on-Follows delay (some (line, rest)) b h =
      let b' : Board Script = record b {
        user = record b.user { input = rest; line_nr = b.user.line_nr + 1 };
      } in
      let stepped = line_event-Stands line delay b' h in
      (
        ap (λ (r : ScriptEvent × Board Script). some r.0) stepped,
        event_of-event_us ((at + delay) % 2 ^ 64) line b',
        ap (λ (r : ScriptEvent × Board Script). r.1) stepped,
      )

  script_step-step_on :
      (delay : ℕ) (b : Board Script)
      → script_step reading pins stale delay b ≡ step_on delay b (get_line b.user.input)
  unfolding script_step
  script_step-step_on delay b = elim (Option-cases (get_line b.user.input)) [
    | inl e ↦ rw (script_step, e) refl
    | inr ((line, rest), e) ↦ rw (script_step, e) refl
  ]

  step_delay-Stands :
      (next_step : ℕ) (b : Board Script)
      → Stands at b
      → step_delay reading next_step b ≡ (delay_of at next_step, b)
  unfolding step_delay
  step_delay-Stands next_step b h =
      rw (clock-Stands b h) (by_tests (next_step == 0) (ltb next_step at))
    where
      by_tests :
          (none_set past : Bool)
          → ◌≡◌ {A = ℕ × Board Script}
              (if none_set then (0, b) else if past then (0, b) else (next_step - at, b))
              ((if none_set then 0 else if past then 0 else next_step - at), b)
      by_tests true past = refl
      by_tests false true = refl
      by_tests false false = refl

  -- An event after which no other is chained: the next line of the script follows.
  pub finish_raise-Stands :
      (e : ScriptEvent) (o : Outcome)
      → o.chain ≡ none
      → Stands at o.after
      → let r = finish_raise reading pins stale e o in
        (r.sched ≡ o.resched)
        × (r.event ≡ record e { parser = end_line o.resched o.left; command = o.then_command })
        × Follows
            ((at + delay_of at o.next_step) % 2 ^ 64)
            (get_line o.after.user.input)
            o.after
            r.chain
            r.board
  unfolding finish_raise
  finish_raise-Stands e o none_chained h =
      let next = script_step-step_on (delay_of at o.next_step) o.after in
      let delayed = step_delay-Stands o.next_step o.after h in
      (
        rw (finish_raise, none_chained) refl,
        rw (finish_raise, none_chained) refl,
        rw (finish_raise, none_chained, delayed, next)
            (step_on-Follows (delay_of at o.next_step) (get_line o.after.user.input) o.after h),
      )
