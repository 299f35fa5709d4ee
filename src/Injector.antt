-- ===== src/Injector.antt =====
-- The injector of events (cores/epoxy/epoxy_test/Injection/Injection.h, Injection.cpp and Event.h):
-- one round of the loop of its thread, under the lock. An event is a value of E, which `raise` may
-- change; `reading` is what CLOCK_MONOTONIC reads. An event that is raised cannot add another by
-- addEvent(), since the loop holds the lock.
pub mod Order
pub mod Late
pub mod Digital
pub mod Time
pub mod Finish
mod Tests
use epoxy_duino.Base.{
  ℕ, suc, zero, ◌+◌, ◌-◌, ◌%◌, ◌^◌, Bool, true, false, ◌&&◌, if◌then◌else◌, ltb, leb, ◌==◌, List,
  [], ◌∷◌, Option, none, some,
}
use epoxy_duino.Board.{Board}
use epoxy_duino.Board.Clock.{micros}

-- what raise() answers and leaves
pub record Raised (E B : Type 0) : Type 0 where
  pub sched : ℕ
  pub chain : Option E
  pub event : E
  pub board : B

-- std::multimap<unsigned long, std::unique_ptr<Event>>; a null pointer is `none`
abbrev pub Events : Type 0 → Type 0
Events E = List (ℕ × Option E)

pub record Injector (E U : Type 0) : Type 0 where
  pub events : Events E
  pub do_reset : Bool
  pub max_jitter : ℕ
  pub time_forward_us : ℕ
  pub board : Board U

-- what the inner loop changes: the greatest jitter, the events to insert, and the board
pub record Run (E B : Type 0) : Type 0 where
  pub run_jitter : ℕ
  pub to_insert : Events E
  pub run_board : B

module _ {E : Type 0} where
  -- multimap::insert(): behind the entries of the same key
  unfoldable pub insert : ℕ → Option E → Events E → Events E
  insert key v [] = (key, v) ∷ []
  insert key v ((k, w) ∷ es) =
      let rest = insert key v es in if ltb key k then (key, v) ∷ (k, w) ∷ es else (k, w) ∷ rest

  unfoldable pub insert_all : Events E → Events E → Events E
  insert_all [] es = es
  insert_all ((k, v) ∷ added) es = insert_all added (insert k v es)

  unfoldable pub add_event : (E → ℕ) → E → Events E → Events E
  unfolding insert
  add_event us event es = insert (us event) (some event) es

  -- the null pointers at the front are erased
  unfoldable pub erase_null : Events E → Events E
  erase_null [] = []
  erase_null ((k, none) ∷ es) = erase_null es
  erase_null ((k, some e) ∷ es) = (k, some e) ∷ es

  -- by how much the clock moves while time is to be forwarded
  unfoldable pub add_us : ℕ → Events E → ℕ
  add_us now [] = 10
  add_us now ((k, none) ∷ es) = add_us now es
  add_us now ((k, some e) ∷ es) = if leb k now then 0 else 10

module _ {E U : Type 0} (reading : Board U → ℕ) (us : E → ℕ)
    (raise : E → Board U → Raised E (Board U)) where
  abbrev pub now : Board U → ℕ × Board U
  now b = micros (reading b) b

  -- jitter is a long: a negative one is no new maximum
  abbrev pub new_jitter : ℕ → ℕ → ℕ → ℕ
  new_jitter at next max =
      let jitter = (at + 2 ^ 64 - next) % 2 ^ 64 in
      if ltb jitter (2 ^ 63) && ltb max jitter then jitter else max

  unfoldable pub chained : Option E → Events E → Events E
  unfolding insert
  chained none es = es
  chained (some c) es = insert (us c) (some c) es

  unfoldable pub raise_event : ℕ → E → Run E (Board U) → Run E (Board U)
  unfolding insert chained
  raise_event next event run =
      let (at, b) = now run.run_board in
      let r = raise event b in
      let (_, b') = now r.board in
      let es = chained r.chain run.to_insert in
      record {
        run_jitter = new_jitter at next run.run_jitter;
        to_insert = if r.sched == 0 then es else insert r.sched (some r.event) es;
        run_board = b';
      }

  -- The inner loop: the events of key `next` at the front are raised, and null from then on.
  unfoldable pub raise_due : ℕ → Events E → Run E (Board U) → Events E × Run E (Board U)
  unfolding raise_event
  raise_due next [] run = ([], run)
  raise_due next ((k, none) ∷ es) run =
      let (es', run') = raise_due next es run in
      if k == next then ((k, none) ∷ es', run') else ((k, none) ∷ es, run)
  raise_due next ((k, some e) ∷ es) run =
      let (es', run') = raise_due next es (raise_event next e run) in
      if k == next then ((k, none) ∷ es', run') else ((k, some e) ∷ es, run)

  unfoldable pub raised : ℕ → Events E → Injector E U → Injector E U
  unfolding raise_due insert_all
  raised next es i =
      let start : Run E (Board U) = record {
        run_jitter = i.max_jitter;
        to_insert = [];
        run_board = i.board;
      } in
      let (es', run) = raise_due next es start in
      record i {
        events = insert_all run.to_insert es';
        max_jitter = run.run_jitter;
        board = run.run_board;
      }

  -- the events that are due, if there are any
  unfoldable pub dispatch_at : ℕ → Events E → Injector E U → Injector E U
  unfolding raised
  dispatch_at at [] i = i
  dispatch_at at ((next, v) ∷ es) i = if leb next at then raised next ((next, v) ∷ es) i else i

  unfoldable pub dispatch : Injector E U → Injector E U
  unfolding dispatch_at erase_null
  dispatch i =
      let (at, b) = now i.board in
      let es = erase_null i.events in dispatch_at at es (record i { events = es; board = b })

  unfoldable pub forward : Injector E U → Injector E U
  unfolding add_us
  forward i =
      let (at, b) = now i.board in
      let add = add_us at i.events in
      if i.time_forward_us == 0
      then i
      else if ltb i.time_forward_us add
      then record i {
        board = record i.board {
          epoxy_micros = (i.board.epoxy_micros + i.time_forward_us) % 2 ^ 64;
        };
        time_forward_us = 0;
      }
      else record i {
        board = record i.board { epoxy_micros = (i.board.epoxy_micros + add) % 2 ^ 64 };
        time_forward_us = i.time_forward_us - add;
      }

  unfoldable pub clear : Injector E U → Injector E U
  clear i = if i.do_reset then record i { events = []; do_reset = false } else i

  -- one round of the loop
  unfoldable pub round : Injector E U → Injector E U
  unfolding dispatch forward clear
  round i = clear (forward (dispatch i))

  unfoldable pub rounds : ℕ → Injector E U → Injector E U
  rounds zero i = i
  rounds (suc n) i = rounds n (round i)

  -- delay_us() while the thread runs: it waits until nothing is left to forward. `none` means that
  -- the rounds given were not enough.
  unfoldable pub wait_forwarded : ℕ → Injector E U → Option (Injector E U)
  unfolding round
  wait_forwarded zero i = if i.time_forward_us == 0 then some i else none
  wait_forwarded (suc n) i =
      let rest = wait_forwarded n (round i) in if i.time_forward_us == 0 then some i else rest

  unfoldable pub injected_delay_us : ℕ → ℕ → Injector E U → Option (Injector E U)
  unfolding wait_forwarded
  injected_delay_us fuel us i =
      wait_forwarded fuel (record i { time_forward_us = (i.time_forward_us + us) % 2 ^ 64 })
