-- ===== src/Injector/Finish.antt =====
-- The delays of the injector end (cores/epoxy/epoxy_test/Injection/Injection.cpp).
use epoxy_duino.Base.{
  ℕ, suc, zero, ◌+◌, ◌%◌, ◌^◌, ◌<◌, ◌≤◌, ◌≡◌, ◌≢◌, ◌⊎◌, inl, inr, refl, sym, ap, ◌∙◌, Bool-cases,
  true, false, leb, ◌==◌, ==_self, [], ◌∷◌, none, some, arith,
}
use epoxy_duino.Board.{Board}
use epoxy_duino.Injector.{
  now, Raised, Run, Events, Injector, insert_all, chained, erase_null, add_us, raise_event,
  raise_due, raised, dispatch_at, dispatch, forward, clear, round, wait_forwarded,
  injected_delay_us,
}
use epoxy_duino.Injector.Time.{
  Stands, micros-Stands, dispatch-Stands, round_lem, injected_delay_us_lem,
}

-- the events that wait to be raised
abbrev pub live : {E : Type 0} → Events E → ℕ
live [] = 0
live ((k, none) ∷ es) = live es
live ((k, some e) ∷ es) = suc (live es)

-- the first of the events is not a null pointer
abbrev Headed : {E : Type 0} → Events E → Type 0
Headed [] = Unit
Headed ((k, none) ∷ es) = ⊥
Headed ((k, some e) ∷ es) = Unit

erase_null_lem :
    {E : Type 0} (es : Events E) → Headed (erase_null es) × (live (erase_null es) ≡ live es)
unfolding erase_null
erase_null_lem [] = (tt, refl)
erase_null_lem ((k, none) ∷ es) = erase_null_lem es
erase_null_lem ((k, some e) ∷ es) = (tt, refl)

module _ {E U : Type 0} (reading : Board U → ℕ) (us : E → ℕ)
    (raise : E → Board U → Raised E (Board U))
    (keeps : (e : E) (b : Board U) (at : ℕ) → Stands at b → Stands at (raise e b).board)
    (once : (e : E) (b : Board U) → ((raise e b).sched ≡ 0) × ((raise e b).chain ≡ none)) where
  raise_event-nothing :
      (next : ℕ) (e : E) (run : Run E (Board U))
      → run.to_insert ≡ []
      → (raise_event reading us raise next e run).to_insert ≡ []
  unfolding raise_event chained
  raise_event-nothing next e run h =
      let (sched, chain) = once e (now reading us raise run.run_board).1 in rw (sched, chain) h

  raise_due-live :
      (next : ℕ) (es : Events E) (run : Run E (Board U))
      → run.to_insert ≡ []
      → (live (raise_due reading us raise next es run).0 ≤ live es)
        × ((raise_due reading us raise next es run).1.to_insert ≡ [])
  unfolding raise_due
  raise_due-live next [] run h = (omega arith, h)
  raise_due-live next ((k, none) ∷ es) run h = elim (Bool-cases (k == next)) [
    | inl due ↦ rw due (raise_due-live next es run h)
    | inr later ↦ rw later (omega arith, h)
  ]
  raise_due-live next ((k, some e) ∷ es) run h = elim (Bool-cases (k == next)) [
    | inl due ↦
        let run' = raise_event reading us raise next e run in
        let none_added : run'.to_insert ≡ [] = raise_event-nothing next e run h in
        let (fewer, empty) = raise_due-live next es run' none_added in
        rw due (omega (arith, fewer), empty)
    | inr later ↦ rw later (omega arith, h)
  ]

  dispatch_at-live :
      (at : ℕ) (es : Events E) (i : Injector E U)
      → Headed es
      → i.events ≡ es
      → (live (dispatch_at reading us raise at es i).events < live es)
        ⊎ ((dispatch_at reading us raise at es i ≡ i) × (add_us at es ≡ 10))
  unfolding dispatch_at raised raise_due add_us insert_all
  dispatch_at-live at [] i front e = inr (refl, refl)
  dispatch_at-live at ((next, none) ∷ es) i front e = absurd front
  dispatch_at-live at ((next, some event) ∷ es) i front e = elim (Bool-cases (leb next at)) [
    | inr later ↦ inr (rw later refl, rw later refl)
    | inl due ↦
        let start : Run E (Board U) = record {
          run_jitter = i.max_jitter;
          to_insert = [];
          run_board = i.board;
        } in
        let run = raise_event reading us raise next event start in
        let (fewer, nothing) =
          raise_due-live next es run (raise_event-nothing next event start refl) in
        inl (rw (due, ==_self next, nothing) (omega (arith, fewer)))
  ]

  forward-left :
      (at : ℕ) (i : Injector E U)
      → Stands at i.board
      → ((forward reading us raise i).events ≡ i.events)
        × ((forward reading us raise i).time_forward_us ≤ i.time_forward_us)
        × ((add_us at i.events ≢ 10)
            ⊎ ((i.time_forward_us ≡ 0)
                ⊎ ((forward reading us raise i).time_forward_us < i.time_forward_us)))
  unfolding forward
  forward-left at i h =
      rw (micros-Stands (reading i.board) at i.board h) (ground arith, ground arith, ground arith)

  dispatch-live :
      (i : Injector E U)
      → i.board.epoxy_real_time ≡ false
      → (live (dispatch reading us raise i).events < live i.events)
        ⊎ ((live (dispatch reading us raise i).events ≤ live i.events)
            × (add_us i.board.epoxy_micros (dispatch reading us raise i).events ≡ 10))
  unfolding dispatch
  dispatch-live i sim =
      let at = i.board.epoxy_micros in
      let es = erase_null i.events in
      let (front, same) = erase_null_lem i.events in
      let i' : Injector E U = record i { events = es } in
      rw (micros-Stands (reading i.board) at i.board (sim, refl))
        (elim (dispatch_at-live at es i' front refl) [
          | inl fewer ↦ inl (omega (arith, same, fewer))
          | inr (still, ten) ↦ inr (rw still (omega (arith, same), ten))
        ])

  -- how much is left to do
  abbrev left : Injector E U → ℕ
  left i = live i.events + i.time_forward_us

  clear-left : (i : Injector E U) → left (clear reading us raise i) ≤ left i
  unfolding clear
  clear-left i = ground arith

  round-left :
      (i : Injector E U)
      → i.board.epoxy_real_time ≡ false
      → i.time_forward_us ≢ 0
      → left (round reading us raise i) < left i
  unfolding round
  round-left i sim busy =
      let d = dispatch reading us raise i in
      let f = forward reading us raise d in
      let (stands, tf) =
        dispatch-Stands reading us raise keeps i.board.epoxy_micros i (sim, refl) in
      let (events, less, moved) = forward-left i.board.epoxy_micros d stands in
      let waiting : live f.events ≡ live d.events = ap live events in
      elim (dispatch-live i sim) [
        | inl fewer ↦ omega (arith, clear-left f, waiting, less, tf, fewer)
        | inr (most, ten) ↦ elim moved [
          | inl other ↦ absurd (other ten)
          | inr (inl idle) ↦ absurd (busy (sym tf ∙ idle))
          | inr (inr less_left) ↦ omega (arith, clear-left f, waiting, tf, most, less_left)
        ]
      ]

  wait_forwarded-some :
      (fuel : ℕ) (i : Injector E U)
      → i.board.epoxy_real_time ≡ false
      → left i ≤ fuel
      → (i' : Injector E U) × (wait_forwarded reading us raise fuel i ≡ some i')
  unfolding wait_forwarded
  wait_forwarded-some zero i sim h =
      let over : (i.time_forward_us == 0) ≡ true = ground arith in (i, rw over refl)
  wait_forwarded-some (suc fuel) i sim h = elim (Bool-cases (i.time_forward_us == 0)) [
    | inl over ↦ (i, rw over refl)
    | inr busy ↦
        let (i', e) =
          wait_forwarded-some fuel (round reading us raise i)
            (round_lem reading us raise keeps i sim).0
            (omega (arith, round-left i sim (ground arith))) in
        (i', rw busy e)
  ]

  -- In simulated time delay_us() of the injector ends, if events leave the clock alone, are raised
  -- once and add none: as many rounds are enough as there are events and microseconds to forward.
  -- Nothing is then left to forward, and the clock has moved by the delay and what was left before,
  -- modulo 2 ^ 64.
  pub injected_delay_us-ends :
      (d : ℕ) (i : Injector E U)
      → i.board.epoxy_real_time ≡ false
      → (i' : Injector E U) × (injected_delay_us reading us raise
            (live i.events + (i.time_forward_us + d) % 2 ^ 64)
            d
            i
          ≡ some i')
        × (i'.time_forward_us ≡ 0)
        × (i'.board.epoxy_micros % 2 ^ 64 ≡ (i.board.epoxy_micros + i.time_forward_us + d) % 2 ^ 64)
  unfolding injected_delay_us
  injected_delay_us-ends d i sim =
      let start : Injector E U = record i { time_forward_us = (i.time_forward_us + d) % 2 ^ 64 } in
      let fuel = live i.events + start.time_forward_us in
      let (i', e) = wait_forwarded-some fuel start sim (omega arith) in
      let (over, at) = injected_delay_us_lem reading us raise keeps fuel d i i' sim e in
      (i', e, over, at)
