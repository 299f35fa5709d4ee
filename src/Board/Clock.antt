-- ===== src/Board/Clock.antt =====
-- The clock: millis(), micros(), delay() and delayMicroseconds() of cores/epoxy/Arduino.cpp, and the
-- simulated time of cores/epoxy/epoxy_test/ArduinoTest.inc. `unsigned long` has 64 bits, as on the
-- hosts that the source names. The reading of CLOCK_MONOTONIC, in microseconds, is an argument.
pub mod Laws
pub mod RealTime
mod Tests
use epoxy_duino.Base.{
  ℕ, suc, zero, ◌+◌, ◌-◌, ◌*◌, ◌/◌, ◌%◌, ◌^◌, Bool, true, false, if◌then◌else◌, leb, ltb, ◌==◌,
  List, [], ◌∷◌, Option, none, some,
}
use epoxy_duino.Board.{Board}
use epoxy_duino.Board.Interrupts.{Core, Invocation}
use epoxy_duino.Board.Yield.{pump}

abbrev pub slice_us : ℕ
slice_us = 1000

-- The host: its clock, the pump and usleep() change its state `W`.
module _ {W : Type 0} (monotonic_micros : W → ℕ) (pump : W → W) (usleep : ℕ → W → W) where
  -- The loop of the real-time branch of waitMicros(); `none` means that the fuel ran out.
  unfoldable pub wait_until : ℕ → ℕ → W → Option W
  wait_until zero deadline w = none
  wait_until (suc fuel) deadline w =
      let w' = pump w in
      let now = monotonic_micros w' in
      let remaining = deadline - now in
      let rest =
        wait_until fuel deadline
          (usleep (if ltb remaining slice_us then remaining else slice_us) w') in
      if leb deadline now then some w' else rest

  unfoldable pub wait_real : ℕ → W → Option W
  wait_real us w = wait_until (us + 1) ((monotonic_micros w + us) % 2 ^ 64) w

module _ {U : Type 0} where
  -- epoxy_elapsed_micros(): the first reading is latched as the start.
  unfoldable pub elapsed_micros : ℕ → Board U → ℕ × Board U
  elapsed_micros us b =
      if b.epoxy_start_time == 0
      then (0, record b { epoxy_start_time = us })
      else ((us + 2 ^ 64 - b.epoxy_start_time) % 2 ^ 64, b)

  unfoldable pub millis : ℕ → Board U → ℕ × Board U
  millis us b =
      let (elapsed, b') = elapsed_micros us b in
      if b.epoxy_real_time then (elapsed / 1000 % 2 ^ 32, b') else (b.epoxy_micros / 1000, b)

  unfoldable pub micros : ℕ → Board U → ℕ × Board U
  micros us b =
      let (elapsed, b') = elapsed_micros us b in
      if b.epoxy_real_time then (elapsed % 2 ^ 32, b') else (b.epoxy_micros, b)

  -- EpoxyTest
  unfoldable pub set_real_time : Board U → Board U
  set_real_time b = record b { epoxy_real_time = true }

  unfoldable pub set_micros : ℕ → Board U → Board U
  set_micros us b = record b { epoxy_micros = us % 2 ^ 64; epoxy_real_time = false }

  unfoldable pub add_micros : ℕ → Board U → Board U
  add_micros us b = record b {
    epoxy_micros = (b.epoxy_micros + us) % 2 ^ 64;
    epoxy_real_time = false;
  }

  unfoldable pub set_millis : ℕ → Board U → Board U
  set_millis ms b = record b { epoxy_micros = 1000 * ms % 2 ^ 64; epoxy_real_time = false }

  unfoldable pub add_millis : ℕ → Board U → Board U
  add_millis ms b = record b {
    epoxy_micros = (b.epoxy_micros + 1000 * ms) % 2 ^ 64;
    epoxy_real_time = false;
  }

  unfoldable pub set_seconds : ℕ → Board U → Board U
  set_seconds s b = record b { epoxy_micros = s * 1000 * 1000 % 2 ^ 64; epoxy_real_time = false }

  unfoldable pub add_seconds : ℕ → Board U → Board U
  add_seconds s b = record b {
    epoxy_micros = (b.epoxy_micros + s * 1000 * 1000) % 2 ^ 64;
    epoxy_real_time = false;
  }

  -- initTime(), which every reset runs
  unfoldable pub init_time : Board U → Board U
  init_time b = record b { epoxy_start_time = 0 }

  -- EpoxyTest::reset() over the registered resets, in the order of their set
  unfoldable pub run_resets : List (Board U → Board U) → Board U → Board U
  run_resets [] b = b
  run_resets (r ∷ rs) b = run_resets rs (r b)

  unfoldable pub reset : List (Board U → Board U) → Board U → Board U
  reset resets b = record (run_resets resets b) { epoxy_micros = 0; epoxy_real_time = true }

  -- Injector::delay_us() with no injector thread
  unfoldable pub delay_us : ℕ → Board U → Board U
  delay_us us b = record b { epoxy_micros = (b.epoxy_micros + us) % 2 ^ 64 }

  module _ (call : Invocation → Board U → Board U) (service : ℕ → Option ℕ → Board U → Board U)
      (core : Core) where
    -- The simulated branch of waitMicros(); `none` means that the fuel ran out.
    unfoldable pub wait_simulated : ℕ → ℕ → Board U → Option (Board U)
    wait_simulated zero us b = none
    wait_simulated (suc fuel) us b =
        let b' = pump service call core b in
        let slice = if ltb us slice_us then us else slice_us in
        let rest = wait_simulated fuel (us - slice) (delay_us slice b') in
        if us == 0 then some b' else rest

    -- `monotonic_micros` and `usleep` are the host's, whose clock is part of the state.
    module _ (monotonic_micros : Board U → ℕ) (usleep : ℕ → Board U → Board U) where
      -- In simulated time one slice a round, and a last round that only pumps.
      unfoldable pub wait_micros : ℕ → Board U → Option (Board U)
      unfolding wait_real
      wait_micros us b =
          if b.epoxy_real_time
          then wait_real monotonic_micros (pump service call core) usleep us b
          else wait_simulated (us / slice_us + 2) us b

      unfoldable pub delay : ℕ → Board U → Option (Board U)
      delay ms = wait_micros (ms * 1000 % 2 ^ 64)

      unfoldable pub delay_microseconds : ℕ → Board U → Option (Board U)
      delay_microseconds us = wait_micros us
