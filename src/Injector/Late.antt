-- ===== src/Injector/Late.antt =====
-- How late events are raised (cores/epoxy/epoxy_test/Injection/Injection.cpp).
use native.Mathlib.Nat.{mod-eq_of_lt}
use mathlib.Core.Path.{subst}
use epoxy_duino.Base.{
  ℕ, suc, zero, ◌+◌, ◌%◌, ◌^◌, ◌<◌, ◌≤◌, ◌≡◌, ◌⊎◌, inl, inr, refl, sym, Bool-cases, false,
  if◌then◌else◌, ltb, leb, ◌==◌, [], ◌∷◌, Option, none, some, arith,
}
use epoxy_duino.Board.{Board}
use epoxy_duino.Injector.{
  Raised, Run, Events, Injector, new_jitter, insert, chained, erase_null, add_us, raise_event,
  raise_due, raised, dispatch_at, dispatch, forward, clear, round, rounds,
}
use epoxy_duino.Injector.Time.{Stands, micros-Stands, raise_event-Stands, dispatch-Stands}
use epoxy_duino.Injector.Order.{
  From, Sorted, InTime, Added, insert-Added, insert_all_lem, erase_null-Sorted, add_us-InTime,
  InTime-le,
}

-- what an event asks for when it is raised at `at`: to be raised again no earlier, or not at all, and
-- an event to follow that is no earlier
abbrev pub Timely : {E U : Type 0} → (E → ℕ) → ℕ → Raised E (Board U) → Type 0
Timely us at r = ((r.sched ≡ 0) ⊎ (at ≤ r.sched)) × ((c : _) → r.chain ≡ some c → at ≤ us c)

-- The events are in order, none that waits is 10 microseconds late, and none was when it was raised.
abbrev pub OnTime : {E U : Type 0} → Injector E U → Type 0
OnTime i =
    (i.board.epoxy_real_time ≡ false)
    × (i.board.epoxy_micros + i.time_forward_us < 2 ^ 64)
    × Sorted i.events
    × InTime i.board.epoxy_micros i.events
    × (i.max_jitter < 10)

module _ {E U : Type 0} (reading : Board U → ℕ) (us : E → ℕ)
    (raise : E → Board U → Raised E (Board U))
    (keeps : (e : E) (b : Board U) (at : ℕ) → Stands at b → Stands at (raise e b).board)
    (timely : (e : E) (b : Board U) (at : ℕ) → Stands at b → Timely us at (raise e b)) where
  -- a run of the inner loop that goes well
  abbrev Going : ℕ → Run E (Board U) → Type 0
  Going at run = Stands at run.run_board × Added at run.to_insert × (run.run_jitter < 10)

  chained-Added :
      (at : ℕ) (c : Option E) (es : Events E)
      → ((e : E) → c ≡ some e → at ≤ us e)
      → Added at es
      → Added at (chained reading us raise c es)
  unfolding chained
  chained-Added at none es h added = added
  chained-Added at (some e) es h added = insert-Added at (us e) e es (omega (arith, h e refl)) added

  sched-Added :
      (at sched : ℕ) (e : E) (es : Events E)
      → (sched ≡ 0) ⊎ (at ≤ sched)
      → Added at es
      → Added at (if sched == 0 then es else insert sched (some e) es)
  sched-Added at sched e es again added = elim (Bool-cases (sched == 0)) [
    | inl never ↦ rw never added
    | inr later ↦ rw later (insert-Added at sched e es (ground arith) added)
  ]

  new_jitter_lt :
      (at next max : ℕ)
      → at < 2 ^ 64
      → next ≤ at
      → at < next + 10
      → max < 10
      → new_jitter reading us raise at next max < 10
  new_jitter_lt at next max fits due soon h = ground arith

  raise_event-Going :
      (next at : ℕ) (e : E) (run : Run E (Board U))
      → at < 2 ^ 64
      → next ≤ at
      → at < next + 10
      → Going at run
      → Going at (raise_event reading us raise next e run)
  unfolding raise_event
  raise_event-Going next at e run fits due soon (stands, added, jitter) =
      let here = micros-Stands (reading run.run_board) at run.run_board stands in
      let r = raise e run.run_board in
      let (again, follows) = timely e run.run_board at stands in
      let more = chained-Added at r.chain run.to_insert follows added in
      (
        raise_event-Stands reading us raise keeps next at e run stands,
        rw here (
            sched-Added at r.sched r.event (chained reading us raise r.chain run.to_insert) again
              more),
        rw here (new_jitter_lt at next run.run_jitter fits due soon jitter),
      )

  raise_due-Going :
      (next at : ℕ) (es : Events E) (run : Run E (Board U))
      → at < 2 ^ 64
      → next ≤ at
      → Sorted es
      → InTime at es
      → Going at run
      → Going at (raise_due reading us raise next es run).1
        × Sorted (raise_due reading us raise next es run).0
        × InTime at (raise_due reading us raise next es run).0
        × ((low : ℕ) → From low es → From low (raise_due reading us raise next es run).0)
  unfolding raise_due
  raise_due-Going next at [] run fits due sorted late going = (going, tt, tt, λ low from. tt)
  raise_due-Going next at ((k, none) ∷ es) run fits due (from, sorted) late going =
      elim (Bool-cases (k == next)) [
        | inr other ↦ rw other (going, (from, sorted), late, λ low h. h)
        | inl same ↦
            let (going', sorted', late', from') =
              raise_due-Going next at es run fits due sorted late going in
            rw same (going', (from' k from, sorted'), late', λ low h. (h.0, from' low h.1))
      ]
  raise_due-Going next at ((k, some e) ∷ es) run fits due (from, sorted) (le, late) going =
      elim (Bool-cases (k == next)) [
        | inr other ↦ rw other (going, (from, sorted), (le, late), λ low h. h)
        | inl same ↦
            let run' = raise_event reading us raise next e run in
            let now_going = raise_event-Going next at e run fits due (ground arith) going in
            let (going', sorted', late', from') =
              raise_due-Going next at es run' fits due sorted late now_going in
            rw same (going', (from' k from, sorted'), late', λ low h. (h.0, from' low h.1))
      ]

  dispatch_at-OnTime :
      (at : ℕ) (es : Events E) (i : Injector E U)
      → at < 2 ^ 64
      → Stands at i.board
      → i.events ≡ es
      → Sorted es
      → InTime at es
      → i.max_jitter < 10
      → Sorted (dispatch_at reading us raise at es i).events
        × InTime at (dispatch_at reading us raise at es i).events
        × ((dispatch_at reading us raise at es i).max_jitter < 10)
  unfolding dispatch_at raised
  dispatch_at-OnTime at [] i fits stands e sorted late jitter = rw e (tt, tt, jitter)
  dispatch_at-OnTime at ((next, v) ∷ es) i fits stands e sorted late jitter =
      elim (Bool-cases (leb next at)) [
        | inr later ↦ rw (later, e) (sorted, late, jitter)
        | inl due ↦
            let start : Run E (Board U) = record {
              run_jitter = i.max_jitter;
              to_insert = [];
              run_board = i.board;
            } in
            let all = raise_due reading us raise next ((next, v) ∷ es) start in
            let ((stands', added, jitter'), sorted', late', _) =
              raise_due-Going next at ((next, v) ∷ es) start fits (ground arith) sorted late
                (stands, tt, jitter) in
            let (sorted'', late'') = insert_all_lem at all.1.to_insert all.0 added sorted' late' in
            rw due (sorted'', late'', jitter')
      ]

  forward-OnTime : (i : Injector E U) → OnTime i → OnTime (forward reading us raise i)
  unfolding forward
  forward-OnTime i (sim, fits, sorted, late, jitter) =
      let m = i.board.epoxy_micros in
      let add = add_us m i.events in
      let here = micros-Stands (reading i.board) m i.board (sim, refl) in
      let moved = add_us-InTime m add i.events refl sorted late in
      elim (Bool-cases (i.time_forward_us == 0)) [
        | inl idle ↦ rw idle (sim, fits, sorted, late, jitter)
        | inr busy ↦ elim (Bool-cases (ltb i.time_forward_us add)) [
          | inl short ↦
              let at : (m + i.time_forward_us) % 2 ^ 64 ≡ m + i.time_forward_us =
                mod-eq_of_lt fits in
              rw (busy, here, short, at)
                (
                  sim,
                  omega arith,
                  sorted,
                  InTime-le (m + add) (m + i.time_forward_us) i.events (ground arith) moved,
                  jitter,
                )
          | inr long ↦
              let le : add ≤ i.time_forward_us = ground arith in
              let at : (m + add) % 2 ^ 64 ≡ m + add = mod-eq_of_lt (omega arith) in
              rw (busy, here, long, at) (sim, omega arith, sorted, moved, jitter)
        ]
      ]

  dispatch-OnTime : (i : Injector E U) → OnTime i → OnTime (dispatch reading us raise i)
  unfolding dispatch
  dispatch-OnTime i (sim, fits, sorted, late, jitter) =
      let m = i.board.epoxy_micros in
      let ((sim', at), left) = dispatch-Stands reading us raise keeps m i (sim, refl) in
      let (sorted', late') = erase_null-Sorted m i.events sorted late in
      let es = erase_null i.events in
      let (sorted'', late'', jitter') =
        dispatch_at-OnTime m es (record i { events = es }) (omega arith) (sim, refl) refl sorted'
          late' jitter in
      let here = micros-Stands (reading i.board) m i.board (sim, refl) in
      (
        sim',
        rw (at, left) fits,
        rw here sorted'',
        subst (λ t. InTime t (dispatch reading us raise i).events) (sym at) (rw here late''),
        rw here jitter',
      )

  clear-OnTime : (i : Injector E U) → OnTime i → OnTime (clear reading us raise i)
  unfolding clear
  clear-OnTime i (sim, fits, sorted, late, jitter) = elim (Bool-cases i.do_reset) [
    | inl reset ↦ rw reset (sim, fits, tt, tt, jitter)
    | inr go ↦ rw go (sim, fits, sorted, late, jitter)
  ]

  round-OnTime : (i : Injector E U) → OnTime i → OnTime (round reading us raise i)
  unfolding round
  round-OnTime i h =
      let d = dispatch reading us raise i in
      clear-OnTime (forward reading us raise d) (forward-OnTime d (dispatch-OnTime i h))

  -- In simulated time any number of rounds of the injector keep the events in order, let none wait 10
  -- microseconds beyond its time, and keep the greatest jitter recorded below 10, if this held at the
  -- start, the clock does not pass 2 ^ 64, and events leave the clock alone and ask for nothing earlier
  -- than the time at which they are raised.
  pub rounds-OnTime : (n : ℕ) (i : Injector E U) → OnTime i → OnTime (rounds reading us raise n i)
  unfolding rounds
  rounds-OnTime zero i h = h
  rounds-OnTime (suc n) i h = rounds-OnTime n (round reading us raise i) (round-OnTime i h)
