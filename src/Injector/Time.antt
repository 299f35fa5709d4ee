-- ===== src/Injector/Time.antt =====
-- Simulated time under the injector (cores/epoxy/epoxy_test/Injection/Injection.cpp): a delay moves
-- the clock by what it asks for.
use epoxy_duino.Base.{
  ℕ, suc, zero, ◌+◌, ◌%◌, ◌^◌, ◌≡◌, inl, inr, refl, sym, ap, ◌∙◌, Bool-cases, true, false, leb,
  ◌==◌, [], ◌∷◌, none, some, arith,
}
use mathlib.Core.Option.{some-injective}
use epoxy_duino.Board.{Board}
use epoxy_duino.Board.Clock.{micros}
use epoxy_duino.Injector.{
  Raised, Run, Events, Injector, erase_null, raise_event, raise_due, raised, dispatch_at, dispatch,
  forward, clear, round, wait_forwarded, injected_delay_us,
}

-- simulated time that stands at `at`
abbrev pub Stands : {U : Type 0} → ℕ → Board U → Type 0
Stands at b = (b.epoxy_real_time ≡ false) × (b.epoxy_micros ≡ at)

pub micros-Stands : {U : Type 0} (r at : ℕ) (b : Board U) → Stands at b → micros r b ≡ (at, b)
unfolding micros
micros-Stands r at b (sim, m) = rw (sim, m) refl

module _ {E U : Type 0} (reading : Board U → ℕ) (us : E → ℕ)
    (raise : E → Board U → Raised E (Board U))
    (keeps : (e : E) (b : Board U) (at : ℕ) → Stands at b → Stands at (raise e b).board) where
  pub raise_event-Stands :
      (next at : ℕ) (e : E) (run : Run E (Board U))
      → Stands at run.run_board
      → Stands at (raise_event reading us raise next e run).run_board
  unfolding raise_event
  raise_event-Stands next at e run h =
      let h' = keeps e run.run_board at h in
      rw (micros-Stands (reading run.run_board) at run.run_board h) (
        rw
          (micros-Stands (reading (raise e run.run_board).board) at (raise e run.run_board).board
            h')
          h')

  raise_due-Stands :
      (next at : ℕ) (es : Events E) (run : Run E (Board U))
      → Stands at run.run_board
      → Stands at (raise_due reading us raise next es run).1.run_board
  unfolding raise_due
  raise_due-Stands next at [] run h = h
  raise_due-Stands next at ((k, none) ∷ es) run h = elim (Bool-cases (k == next)) [
    | inl due ↦ rw due (raise_due-Stands next at es run h)
    | inr later ↦ rw later h
  ]
  raise_due-Stands next at ((k, some e) ∷ es) run h = elim (Bool-cases (k == next)) [
    | inl due ↦ rw due (
        raise_due-Stands next at es (raise_event reading us raise next e run)
          (raise_event-Stands next at e run h))
    | inr later ↦ rw later h
  ]

  dispatch_at-Stands :
      (t at : ℕ) (es : Events E) (i : Injector E U)
      → Stands at i.board
      → Stands at (dispatch_at reading us raise t es i).board
        × ((dispatch_at reading us raise t es i).time_forward_us ≡ i.time_forward_us)
  unfolding dispatch_at raised
  dispatch_at-Stands t at [] i h = (h, refl)
  dispatch_at-Stands t at ((next, v) ∷ es) i h = elim (Bool-cases (leb next t)) [
    | inl due ↦ rw due (
      raise_due-Stands next at ((next, v) ∷ es)
          (record { run_jitter = i.max_jitter; to_insert = []; run_board = i.board }) h,
      refl,
    )
    | inr later ↦ rw later (h, refl)
  ]

  pub dispatch-Stands :
      (at : ℕ) (i : Injector E U)
      → Stands at i.board
      → Stands at (dispatch reading us raise i).board
        × ((dispatch reading us raise i).time_forward_us ≡ i.time_forward_us)
  unfolding dispatch
  dispatch-Stands at i h =
      rw (micros-Stands (reading i.board) at i.board h) (
        dispatch_at-Stands at at (erase_null i.events) (record i { events = erase_null i.events })
          h)

  -- where the clock will stand when nothing is left to forward
  abbrev pub target : Injector E U → ℕ
  target i = (i.board.epoxy_micros + i.time_forward_us) % 2 ^ 64

  forward_lem :
      (i : Injector E U)
      → i.board.epoxy_real_time ≡ false
      → ((forward reading us raise i).board.epoxy_real_time ≡ false)
        × (target (forward reading us raise i) ≡ target i)
  unfolding forward
  forward_lem i sim = ground arith

  pub clear_lem :
      (i : Injector E U)
      → ((clear reading us raise i).board ≡ i.board)
        × ((clear reading us raise i).time_forward_us ≡ i.time_forward_us)
  unfolding clear
  clear_lem i = ground arith

  pub round_lem :
      (i : Injector E U)
      → i.board.epoxy_real_time ≡ false
      → ((round reading us raise i).board.epoxy_real_time ≡ false)
        × (target (round reading us raise i) ≡ target i)
  unfolding round
  round_lem i sim =
      let ((sim₁, at), left) = dispatch-Stands i.board.epoxy_micros i (sim, refl) in
      let d = dispatch reading us raise i in
      let (sim₂, same) = forward_lem d sim₁ in
      let (board, left') = clear_lem (forward reading us raise d) in
      let kept : target d ≡ target i = rw (at, left) refl in
      (rw board sim₂, rw (board, left') (same ∙ kept))

  stopped :
      (i i' : Injector E U)
      → (i.time_forward_us == 0) ≡ true
      → some i ≡ some i'
      → (i'.time_forward_us ≡ 0) × (i'.board.epoxy_micros % 2 ^ 64 ≡ target i)
  stopped i i' over e =
      let same : i ≡ i' = some-injective i i' e in
      let none_left : i'.time_forward_us ≡ 0 =
        ap (λ (j : Injector E U). j.time_forward_us) (sym same) ∙ ground arith in
      let at : i'.board.epoxy_micros ≡ i.board.epoxy_micros =
        ap (λ (j : Injector E U). j.board.epoxy_micros) (sym same) in
      (none_left, ground arith)

  pub wait_forwarded_lem :
      (fuel : ℕ) (i i' : Injector E U)
      → i.board.epoxy_real_time ≡ false
      → wait_forwarded reading us raise fuel i ≡ some i'
      → (i'.time_forward_us ≡ 0) × (i'.board.epoxy_micros % 2 ^ 64 ≡ target i)
  unfolding wait_forwarded
  wait_forwarded_lem zero i i' sim ok = elim (Bool-cases (i.time_forward_us == 0)) [
    | inl over ↦ stopped i i' over (rw over at ok)
    | inr busy ↦ let no = rw busy at ok in cc
  ]
  wait_forwarded_lem (suc fuel) i i' sim ok = elim (Bool-cases (i.time_forward_us == 0)) [
    | inl over ↦ stopped i i' over (rw over at ok)
    | inr busy ↦
        let (sim', same) = round_lem i sim in
        let (none_left, at) =
          wait_forwarded_lem fuel (round reading us raise i) i' sim' (rw busy at ok) in
        (none_left, at ∙ same)
  ]

  -- Where delay_us() of the injector answers, nothing is left to forward, and the simulated clock has
  -- moved by the delay and what was left before, modulo 2 ^ 64.
  pub injected_delay_us_lem :
      (fuel d : ℕ) (i i' : Injector E U)
      → i.board.epoxy_real_time ≡ false
      → injected_delay_us reading us raise fuel d i ≡ some i'
      → (i'.time_forward_us ≡ 0)
        × (i'.board.epoxy_micros % 2 ^ 64 ≡ (i.board.epoxy_micros + i.time_forward_us + d) % 2 ^ 64)
  unfolding injected_delay_us
  injected_delay_us_lem fuel d i i' sim ok =
      let start : Injector E U = record i { time_forward_us = (i.time_forward_us + d) % 2 ^ 64 } in
      let (over, at) = wait_forwarded_lem fuel start i' sim ok in (over, at ∙ omega arith)
