-- ===== src/Board/Clock/RealTime.antt =====
-- Real time (cores/epoxy/Arduino.cpp): the waiting loop of waitMicros(), and what millis() and
-- micros() read in either time mode.
use epoxy_duino.Base.{
  ℕ, suc, zero, ◌+◌, ◌-◌, ◌*◌, ◌/◌, ◌%◌, ◌^◌, ◌<◌, ◌≤◌, ◌≡◌, Bool-cases, inl, inr, if◌then◌else◌,
  leb, ltb, some, true, arith,
}
use epoxy_duino.Board.{Board}
use epoxy_duino.Board.Clock.{
  slice_us, wait_until, wait_real, elapsed_micros, millis, micros, set_millis, add_millis,
}

-- The host: its clock, the pump and usleep() change its state `W`.
module _ {W : Type 0} (monotonic_micros : W → ℕ) (pump : W → W) (usleep : ℕ → W → W) where
  module _ (pump_grows : (w : W) → monotonic_micros w ≤ monotonic_micros (pump w))
      (usleep_grows : (n : ℕ) (w : W)
        → monotonic_micros w + n ≤ monotonic_micros (usleep n w)) where
    wait_until_lem :
        (fuel deadline : ℕ) (w : W)
        → deadline - monotonic_micros w < fuel
        → (w' : W) × (wait_until monotonic_micros pump usleep fuel deadline w ≡ some w')
          × (deadline ≤ monotonic_micros w')
    unfolding wait_until
    wait_until_lem zero deadline w h = absurd (omega arith)
    wait_until_lem (suc fuel) deadline w h =
        elim (Bool-cases (leb deadline (monotonic_micros (pump w)))) [
          | inl over ↦ (pump w, rw over, ground arith)
          | inr early ↦
              let remaining = deadline - monotonic_micros (pump w) in
              let slice = if ltb remaining slice_us then remaining else slice_us in
              let (r, e, t) =
                wait_until_lem fuel deadline (usleep slice (pump w))
                  (ground (arith, pump_grows w, usleep_grows slice (pump w))) in
              (r, rw early e, t)
        ]

    -- In real time a wait of `us` microseconds returns, and not before they have passed, if the
    -- clock never runs backwards in the pump and usleep() sleeps at least as long as asked, and if
    -- the clock does not wrap.
    pub wait_real_lem :
        (us : ℕ) (w : W)
        → monotonic_micros w + us < 2 ^ 64
        → (w' : W) × (wait_real monotonic_micros pump usleep us w ≡ some w')
          × (monotonic_micros w + us ≤ monotonic_micros w')
    unfolding wait_real
    wait_real_lem us w h =
        let (r, e, t) =
          wait_until_lem (us + 1) ((monotonic_micros w + us) % 2 ^ 64) w (omega arith) in
        (r, e, omega (arith, t))

module _ {U : Type 0} (b : Board U) where
  -- In real time the first reading of the clock, at `first`, gives 0; a reading at `now` after it
  -- gives the time since, as 32-bit counters of milliseconds and of microseconds.
  pub millis_since_first :
      (first now : ℕ)
      → b.epoxy_real_time ≡ true
      → b.epoxy_start_time ≡ 0
      → 0 < first
      → first ≤ now
      → now < 2 ^ 64
      → ((millis first b).0 ≡ 0)
        × ((millis now (millis first b).1).0 ≡ (now - first) / 1000 % 2 ^ 32)
        × ((micros now (millis first b).1).0 ≡ (now - first) % 2 ^ 32)
  unfolding millis micros elapsed_micros
  millis_since_first first now real fresh pos order fits = ground arith

  -- In simulated time the clock reads what the test set, plus what it added since, whatever the
  -- host's clock says.
  pub millis-add_millis :
      (ms delta now : ℕ)
      → 1000 * (ms + delta) < 2 ^ 64
      → ((millis now (add_millis delta (set_millis ms b))).0 ≡ ms + delta)
        × ((micros now (add_millis delta (set_millis ms b))).0 ≡ 1000 * (ms + delta))
  unfolding millis micros set_millis add_millis
  millis-add_millis ms delta now h = ground arith
