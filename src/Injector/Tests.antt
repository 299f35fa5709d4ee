-- ===== src/Injector/Tests.antt =====
-- The injector with two events that set a pin (cores/epoxy/epoxy_test/Injection/Injection.cpp and
-- DigitalInjector.cpp).
use epoxy_duino.Base.{ℕ, ◌+◌, ◌%◌, ◌^◌, ◌≡◌, refl, false, [], ◌∷◌, some, arith}
use epoxy_duino.Board.{Board, power_on}
use epoxy_duino.Board.Clock.{micros}
use epoxy_duino.Board.Pins.{digital_read_value, set_pin}
use epoxy_duino.Injector.{
  Injector, insert, insert_all, chained, erase_null, add_us, raise_event, raise_due, raised,
  dispatch_at, dispatch, forward, clear, round, rounds, injected_delay_us,
}
use epoxy_duino.Injector.Finish.{live, injected_delay_us-ends}
use epoxy_duino.Injector.Late.{OnTime, rounds-OnTime}
use epoxy_duino.Injector.Digital.{
  DigitalInjectorEvent, raise_digital, raise_digital-Stands, raise_digital-Timely,
  raise_digital_once,
}

abbrev board : Board ℕ
board = record (power_on 0) { epoxy_real_time = false }

abbrev reading : Board ℕ → ℕ
reading b = 0

abbrev event_time : DigitalInjectorEvent → ℕ
event_time e = e.event_us

abbrev pin_high : DigitalInjectorEvent
pin_high = record { event_us = 5; pin = 3; val = 1 }

abbrev pin_low : DigitalInjectorEvent
pin_low = record { event_us = 12; pin = 3; val = 0 }

abbrev start : Injector DigitalInjectorEvent ℕ
start = record {
  events = (5, some pin_high) ∷ (12, some pin_low) ∷ [];
  do_reset = false;
  max_jitter = 0;
  time_forward_us = 0;
  board = board;
}

-- The clock moves by 10, so that the first event is raised 5 microseconds late.
first_jitter :
    (rounds reading event_time raise_digital 2 (record start { time_forward_us = 20 })).max_jitter
    ≡ 5
unfolding rounds round dispatch dispatch_at raised raise_due raise_event chained insert insert_all
    erase_null add_us forward clear raise_digital micros digital_read_value set_pin
first_jitter = refl

injected_delay_us-ends_example :
    (i' : Injector DigitalInjectorEvent ℕ) × (injected_delay_us reading event_time raise_digital
        (live start.events + (start.time_forward_us + 20) % 2 ^ 64)
        20
        start
      ≡ some i')
    × (i'.time_forward_us ≡ 0)
    × (i'.board.epoxy_micros % 2 ^ 64
        ≡ (start.board.epoxy_micros + start.time_forward_us + 20) % 2 ^ 64)
injected_delay_us-ends_example =
    injected_delay_us-ends reading event_time raise_digital raise_digital-Stands raise_digital_once
      20 start refl

start-OnTime : OnTime start
start-OnTime = (
  refl,
  omega arith,
  ((omega arith, tt), (tt, tt)),
  (omega arith, (omega arith, tt)),
  omega arith,
)

rounds-OnTime_example : OnTime (rounds reading event_time raise_digital 4 start)
rounds-OnTime_example =
    rounds-OnTime reading event_time raise_digital raise_digital-Stands raise_digital-Timely 4 start
      start-OnTime
