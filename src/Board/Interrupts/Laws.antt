-- ===== src/Board/Interrupts/Laws.antt =====
-- What attaching, detaching and checking do together (cores/epoxy/Arduino.cpp).
use mathlib.Core.List.{map}
use epoxy_duino.Base.{
  ℕ, suc, ◌<◌, ◌≤◌, ◌≡◌, ◌≢◌, refl, ◌∙◌, ap, true, false, if◌then◌else◌, ltb, List, [], ◌∷◌, none,
  some, length, length-replicate, get_or-set_self, arith,
}
use epoxy_duino.Board.{Board, InterruptHandler, zero_handler}
use epoxy_duino.Board.Pins.{digital_read}
use epoxy_duino.Board.Interrupts.{
  Core, should_trigger, Invocation, plain, invocation, invoke, init_interrupts, check_interrupts,
  max_interrupts, set_handler, handler, attached, detached, attach_interrupt, detach_interrupt,
  trigger_interrupt, idle_handler,
}
use epoxy_duino.Board.Interrupts.Scan.{on_user, perform, fired, refreshed, check_interrupts-served}

-- The table is the static array of the source.
abbrev pub HasTable : {U : Type 0} → Board U → Type 0
HasTable b = length b.interrupt_handlers ≡ max_interrupts

module _ {U : Type 0} where
  pub init_interrupts-HasTable : (b : Board U) → HasTable b → HasTable (init_interrupts b)
  unfolding init_interrupts
  init_interrupts-HasTable b h = ground (arith, length-replicate max_interrupts idle_handler)

  init_interrupts_on : (b : Board U) → (init_interrupts b).interrupts_initialized ≡ true
  unfolding init_interrupts
  init_interrupts_on b = ground arith

  init_interrupts_again : (b : Board U) → b.interrupts_initialized ≡ true → init_interrupts b ≡ b
  unfolding init_interrupts
  init_interrupts_again b h = ground arith

-- On the cores without level modes a refreshed slot asks for no call.
calm :
    (core : Core)
    → core ≢ Core.esp8266
    → (mode level : ℕ) → should_trigger core mode level level ≡ false
unfolding should_trigger
calm Core.avr n mode level = ground arith
calm Core.esp8266 n mode level = absurd (n refl)
calm Core.other n mode level = ground arith

module _ (core : Core) (edges : core ≢ Core.esp8266) (read : ℕ → ℕ) where
  fired-refreshed : (hs : List InterruptHandler) → fired core read (map (refreshed read) hs) ≡ []
  fired-refreshed [] = refl
  fired-refreshed (h ∷ hs) = ground (arith, fired-refreshed hs, calm core edges h.mode (read h.pin))

refreshed_again :
    (read : ℕ → ℕ) (hs : List InterruptHandler)
    → map (refreshed read) (map (refreshed read) hs) ≡ map (refreshed read) hs
refreshed_again read [] = refl
refreshed_again read (h ∷ hs) = ground (arith, refreshed_again read hs)

length-refreshed :
    (read : ℕ → ℕ) (hs : List InterruptHandler) → length (map (refreshed read) hs) ≡ length hs
length-refreshed read [] = refl
length-refreshed read (h ∷ hs) = ap suc (length-refreshed read hs)

module _ {U : Type 0} (act : Invocation → U → U) (core : Core) where
  settled :
      (c : Board U)
      → c.interrupts_initialized ≡ true
      → HasTable c
      → fired core (digital_read c) c.interrupt_handlers ≡ []
      → map (refreshed (digital_read c)) c.interrupt_handlers ≡ c.interrupt_handlers
      → check_interrupts (on_user act) core c ≡ c
  settled c on h quiet same =
      check_interrupts-served act core c (init_interrupts-HasTable c h)
      ∙ ground (arith, init_interrupts_again c on)

  -- On the cores that have edge modes only, a second checkInterrupts() with no change of a pin in
  -- between calls nothing and changes nothing, if the table has its 32 slots and the handlers change
  -- the sketch's state only.
  pub check_interrupts_again :
      (b : Board U)
      → core ≢ Core.esp8266
      → HasTable b
      → check_interrupts (on_user act) core (check_interrupts (on_user act) core b)
        ≡ check_interrupts (on_user act) core b
  unfolding digital_read
  check_interrupts_again b edges h =
      let c = init_interrupts b in
      let hs = c.interrupt_handlers in
      let table = init_interrupts-HasTable b h in
      rw (check_interrupts-served act core b table) (
        settled
          (record c {
            interrupt_handlers = map (refreshed (digital_read c)) hs;
            user = perform act (fired core (digital_read c) hs) c.user;
          })
          (init_interrupts_on b) (length-refreshed (digital_read c) hs ∙ table)
          (fired-refreshed core edges (digital_read c) hs) (refreshed_again (digital_read c) hs))

module _ {U : Type 0} (call : Invocation → Board U → Board U) where
  trigger-set_handler :
      (c : Board U) (num : ℕ) (h : InterruptHandler)
      → c.interrupts_initialized ≡ true
      → HasTable c
      → num < max_interrupts
      → trigger_interrupt call (set_handler c num h) num
        ≡ (if h.enabled then invoke call h (set_handler c num h) else set_handler c num h)
  unfolding trigger_interrupt
  trigger-set_handler c num h on table lt = ground (
    arith,
    init_interrupts_again (set_handler c num h) on,
    get_or-set_self c.interrupt_handlers num h zero_handler (omega (arith, table)),
  )

  trigger_out_of_range :
      (c : Board U) (num : ℕ)
      → c.interrupts_initialized ≡ true
      → max_interrupts ≤ num
      → trigger_interrupt call c num ≡ c
  unfolding trigger_interrupt
  trigger_out_of_range c num on le = ground (arith, init_interrupts_again c on)

  -- A handler attached to one of the 32 interrupts is what triggerInterrupt() calls there; after
  -- detachInterrupt() triggerInterrupt() changes nothing more. A number out of range attaches and
  -- triggers nothing. The table has its 32 slots.
  pub trigger_interrupt-attach_interrupt :
      (b : Board U) (num f mode : ℕ)
      → HasTable b
      → (trigger_interrupt call (attach_interrupt b num (some f) mode) num ≡ (
          if ltb num max_interrupts
          then call (plain f) (attach_interrupt b num (some f) mode)
          else init_interrupts b))
        × (trigger_interrupt call (detach_interrupt b num) num ≡ detach_interrupt b num)
  unfolding attach_interrupt detach_interrupt invoke invocation
  trigger_interrupt-attach_interrupt b num f mode table =
      let c = init_interrupts b in
      let on = init_interrupts_on b in
      let t = init_interrupts-HasTable b table in
      let h = attached (some f) none none num mode (digital_read c num) in
      (
        ground (arith, on, t, trigger-set_handler c num h, trigger_out_of_range c num on),
        ground (
          arith,
          on,
          t,
          trigger-set_handler c num (detached (handler c num)),
          trigger_out_of_range c num on,
        ),
      )
