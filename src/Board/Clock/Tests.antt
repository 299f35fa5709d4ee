-- ===== src/Board/Clock/Tests.antt =====
-- Runs of the clock functions of cores/epoxy/Arduino.cpp.
use epoxy_duino.Base.{ℕ, ◌+◌, ◌-◌, ◌/◌, ◌%◌, ◌^◌, ◌≤◌, ◌≡◌, refl, Option, some, false, arith}
use epoxy_duino.Board.{Board, power_on}
use epoxy_duino.Board.Interrupts.{Invocation}
use epoxy_duino.Board.Clock.{millis, micros, wait_real}
use epoxy_duino.Board.Clock.RealTime.{wait_real_lem, millis_since_first}

abbrev board : Board ℕ
board = power_on 0

-- services that count their runs
abbrev call : Invocation → Board ℕ → Board ℕ
call k b = record b { user = b.user + 1 }

abbrev service : ℕ → Option ℕ → Board ℕ → Board ℕ
service f x b = record b { user = b.user + 1 }

-- a board in simulated time, whose host counts the runs as its clock
abbrev simulated : Board ℕ
simulated = record board { epoxy_real_time = false }

abbrev runs : Board ℕ → ℕ
runs b = b.user

abbrev sleep : ℕ → Board ℕ → Board ℕ
sleep n b = record b { user = b.user + n }

-- a host whose state is its clock, whose pump takes 10 us and whose sleeps run 3 us over
abbrev clock : ℕ → ℕ
clock now = now

abbrev slow_pump : ℕ → ℕ
slow_pump now = now + 10

abbrev late_sleep : ℕ → ℕ → ℕ
late_sleep n now = now + n + 3

wait_real_lem_example :
    (w' : ℕ) × (wait_real clock slow_pump late_sleep 2500 7 ≡ some w') × (7 + 2500 ≤ w')
wait_real_lem_example =
    wait_real_lem clock slow_pump late_sleep (λ w. omega arith) (λ n w. omega arith) 2500 7
      (omega arith)

millis_since_first_example :
    ((millis 5000000 board).0 ≡ 0)
    × ((millis 7000000 (millis 5000000 board).1).0 ≡ (7000000 - 5000000) / 1000 % 2 ^ 32)
    × ((micros 7000000 (millis 5000000 board).1).0 ≡ (7000000 - 5000000) % 2 ^ 32)
millis_since_first_example =
    millis_since_first board 5000000 7000000 refl refl (omega arith) (omega arith) (omega arith)
