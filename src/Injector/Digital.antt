-- ===== src/Injector/Digital.antt =====
-- The event that sets a pin (cores/epoxy/epoxy_test/Injection/DigitalInjector.h and
-- DigitalInjector.cpp).
use epoxy_duino.Board.Pins.Laws.{digital_read-digital_read_value}
use epoxy_duino.Base.{
  ◌≤◌, ◌<◌, ◌+◌, ◌∙◌, if◌then◌else◌, ◌&&◌, ◌==◌, ltb, Bool-cases, inr, ℕ, ◌≡◌, inl, refl, arith,
  zero, suc, none,
}
use epoxy_duino.Board.{Board}
use epoxy_duino.Board.Pins.{digital_read, digital_read_value}
use epoxy_duino.Injector.{Raised}
use epoxy_duino.Injector.Time.{Stands}
use epoxy_duino.Injector.Late.{Timely}

pub record DigitalInjectorEvent : Type 0 where
  pub event_us : ℕ
  pub pin : ℕ
  pub val : ℕ

module _ {U : Type 0} where
  unfoldable pub raise_digital :
      DigitalInjectorEvent → Board U → Raised DigitalInjectorEvent (Board U)
  raise_digital e b = record {
    sched = 0;
    chain = none;
    event = e;
    board = digital_read_value b e.pin e.val;
  }

  -- resetPins(), which a reset runs
  unfoldable pub reset_pins : ℕ → ℕ → Board U → Board U
  reset_pins zero i b = b
  reset_pins (suc n) i b = reset_pins n (suc i) (digital_read_value b i 0)

  pub raise_digital-Stands :
      (e : DigitalInjectorEvent) (b : Board U) (at : ℕ)
      → Stands at b
      → Stands at (raise_digital e b).board
  unfolding raise_digital digital_read_value
  raise_digital-Stands e b at h = ground (arith, h)

  pub raise_digital-Timely :
      (e : DigitalInjectorEvent) (b : Board U) (at : ℕ)
      → Stands at b
      → Timely (λ (e : DigitalInjectorEvent). e.event_us) at (raise_digital e b)
  unfolding raise_digital
  raise_digital-Timely e b at h = (inl refl, λ c bad. cc)

  pub raise_digital_once :
      (e : DigitalInjectorEvent) (b : Board U)
      → ((raise_digital e b).sched ≡ 0) × ((raise_digital e b).chain ≡ none)
  unfolding raise_digital
  raise_digital_once e b = (refl, refl)

  cleared :
      (b : Board U) (i p : ℕ)
      → digital_read (digital_read_value b i 0) p
        ≡ (if p == i && ltb i 32 then 0 else digital_read b p)
  cleared b i p = (digital_read-digital_read_value b i 0 p).0

  stays_low :
      (n i p : ℕ) (b : Board U) → digital_read b p ≡ 0 → digital_read (reset_pins n i b) p ≡ 0
  unfolding reset_pins
  stays_low zero i p b h = h
  stays_low (suc n) i p b h =
      stays_low n (suc i) p (digital_read_value b i 0) (cleared b i p ∙ ground arith)

  -- resetPins() from a pin on makes each of the pins it counts read 0, if it is one of the 32 pins.
  pub digital_read-reset_pins :
      (n i p : ℕ) (b : Board U) → i ≤ p → p < i + n → p < 32 → digital_read (reset_pins n i b) p ≡ 0
  unfolding reset_pins
  digital_read-reset_pins zero i p b lo hi pin = absurd (omega arith)
  digital_read-reset_pins (suc n) i p b lo hi pin = elim (Bool-cases (p == i)) [
    | inl here ↦ stays_low n (suc i) p (digital_read_value b i 0) (cleared b i p ∙ ground arith)
    | inr other ↦
        digital_read-reset_pins n (suc i) p (digital_read_value b i 0) (ground arith) (omega arith)
          pin
  ]
