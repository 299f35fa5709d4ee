-- ===== src/Board/Interrupts/Scan.antt =====
-- checkInterrupts() (cores/epoxy/Arduino.cpp) against a description of the whole table at once,
-- for handlers that change only the sketch's own state.
use epoxy_duino.Base.{
  ℕ, suc, ◌≡◌, refl, sym, ◌∙◌, ap, Bool, ◌&&◌, if◌then◌else◌, List, [], ◌∷◌, ◌++◌, append_assoc,
  none, some, length, length-append, get_or-append, set-append, arith,
}
use mathlib.Core.List.{map}
use epoxy_duino.Board.{Board, InterruptHandler, zero_handler}
use epoxy_duino.Board.Pins.{digital_read}
use epoxy_duino.Board.Interrupts.{
  Core, should_trigger, Invocation, invocation, invoke, init_interrupts, check_slot, check_slots,
  check_interrupts, max_interrupts,
}

-- a handler that changes nothing but the sketch's state
abbrev pub on_user : {U : Type 0} → (Invocation → U → U) → Invocation → Board U → Board U
on_user act k b = record b { user = act k b.user }

-- the calls in order
abbrev pub perform : {U : Type 0} → (Invocation → U → U) → List Invocation → U → U
perform act [] u = u
perform act (k ∷ ks) u = perform act ks (act k u)

module _ (core : Core) (read : ℕ → ℕ) where
  abbrev pub triggered : InterruptHandler → Bool
  triggered h = h.enabled && should_trigger core h.mode h.last_pin_state (read h.pin)

  -- the calls that a table asks for, in the order of its slots
  abbrev pub fired : List InterruptHandler → List Invocation
  fired [] = []
  fired (h ∷ hs) =
      if triggered h
      then elim (invocation h) [ some k ↦ k ∷ fired hs | none ↦ fired hs ]
      else fired hs

-- the slot with the level that its pin has now
abbrev pub refreshed : (ℕ → ℕ) → InterruptHandler → InterruptHandler
refreshed read h = if h.enabled then record h { last_pin_state = read h.pin } else h

module _ {U : Type 0} (act : Invocation → U → U) (core : Core) where
  -- the board after the slots of `rest` were served, with those of `done` before them
  abbrev served : Board U → List InterruptHandler → List InterruptHandler → Board U
  served b done rest = record b {
    interrupt_handlers = done ++ map (refreshed (digital_read b)) rest;
    user = perform act (fired core (digital_read b) rest) b.user;
  }

  check_slot_lem :
      (b : Board U) (done : List InterruptHandler) (h : InterruptHandler)
      (rest : List InterruptHandler)
      → b.interrupt_handlers ≡ done ++ h ∷ rest
      → check_slot (on_user act) core (length done) b ≡ record b {
        interrupt_handlers = done ++ refreshed (digital_read b) h ∷ rest;
        user = perform act (fired core (digital_read b) (h ∷ [])) b.user;
      }
  unfolding check_slot invoke invocation
  check_slot_lem b done h rest e = ground (
    arith,
    get_or-append done h rest zero_handler,
    set-append done h rest (record h { last_pin_state = digital_read b h.pin }),
  )

  -- the board after slot `h` alone
  abbrev after_slot :
      Board U → List InterruptHandler → InterruptHandler → List InterruptHandler → Board U
  after_slot b done h rest = record b {
    interrupt_handlers = done ++ refreshed (digital_read b) h ∷ rest;
    user = perform act (fired core (digital_read b) (h ∷ [])) b.user;
  }

  served_join :
      (b : Board U) (done : List InterruptHandler) (h : InterruptHandler)
      (rest : List InterruptHandler)
      → served (after_slot b done h rest) (done ++ refreshed (digital_read b) h ∷ []) rest
        ≡ served b done (h ∷ rest)
  unfolding digital_read invocation
  served_join b done h rest = ground (
    arith,
    append_assoc done (refreshed (digital_read b) h ∷ []) (map (refreshed (digital_read b)) rest),
  )

  check_slots-served :
      (rest done : List InterruptHandler) (b : Board U) (i : ℕ)
      → b.interrupt_handlers ≡ done ++ rest
      → i ≡ length done
      → check_slots (on_user act) core (length rest) i b ≡ served b done rest
  unfolding check_slots
  check_slots-served [] done b i e k = ground arith
  check_slots-served (h ∷ rest) done b i e k =
      ap (check_slots (on_user act) core (length rest) (suc i))
        (ap (λ j. check_slot (on_user act) core j b) k ∙ check_slot_lem b done h rest e)
      ∙ check_slots-served rest (done ++ refreshed (digital_read b) h ∷ [])
          (after_slot b done h rest) (suc i)
          (sym (append_assoc done (refreshed (digital_read b) h ∷ []) rest))
          (omega (arith, length-append {0} done (refreshed (digital_read b) h ∷ [])))
      ∙ served_join b done h rest

  -- checkInterrupts() makes the calls that the table asks for, in the order of its slots, and
  -- gives every enabled slot the level that its pin has; disabled slots and all else stay.
  -- The table has its 32 slots, and the handlers change the sketch's state only.
  pub check_interrupts-served :
      (b : Board U)
      → length (init_interrupts b).interrupt_handlers ≡ max_interrupts
      → check_interrupts (on_user act) core b
        ≡ served (init_interrupts b) [] (init_interrupts b).interrupt_handlers
  unfolding check_interrupts
  check_interrupts-served b n =
      ap (λ k. check_slots (on_user act) core k 0 (init_interrupts b)) (sym n)
      ∙ check_slots-served (init_interrupts b).interrupt_handlers [] (init_interrupts b) 0 refl refl
