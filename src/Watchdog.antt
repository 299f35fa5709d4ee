-- ===== src/Watchdog.antt =====
-- The loop watchdog of the ESP32 core (cores/epoxy/esp32_wdt.cpp). `now` is what nowMs() reads; each
-- operation, and each round of the monitor's thread, is one step.
pub mod Steps
mod Tests
use epoxy_duino.Base.{
  ℕ, ◌+◌, ◌%◌, ◌^◌, Bool, true, false, not, ◌||◌, if◌then◌else◌, leb, ◌==◌, List, [], ◌∷◌, Option,
  none, some,
}

pub record Watchdog : Type 0 where
  pub armed : Bool
  pub last_feed_ms : ℕ
  pub timeout_ms : ℕ
  pub timeout_explicit : Bool
  pub expiry_handler : Option ℕ
  pub monitor_started : Bool

abbrev pub default_timeout_ms : ℕ
default_timeout_ms = 5000

abbrev pub off : Watchdog
off = record {
  armed = false;
  last_feed_ms = 0;
  timeout_ms = default_timeout_ms;
  timeout_explicit = false;
  expiry_handler = none;
  monitor_started = false;
}

-- What the monitor calls at expiry: the handler, or terminateLoopTask().
pub data Expiry : Type 0 where
  handler : ℕ → Expiry
  terminate : Expiry

abbrev pub expiry : Option ℕ → Expiry
expiry none = terminate
expiry (some h) = handler h

-- The part of enableLoopWDT() that runs once: `env` is the number that strtoul() reads in
-- EPOXY_LOOP_WDT_MS, if it is set.
unfoldable pub start_monitor : Option ℕ → Watchdog → Watchdog
start_monitor none w = record w { monitor_started = true }
start_monitor (some ms) w =
    if w.timeout_explicit
    then record w { monitor_started = true }
    else record w { monitor_started = true; timeout_ms = ms % 2 ^ 32 }

unfoldable pub enable_loop_wdt : Option ℕ → ℕ → Watchdog → Watchdog
unfolding start_monitor
enable_loop_wdt env now w =
    let w' = if w.monitor_started then w else start_monitor env w in
    record w' { last_feed_ms = now; armed = true }

unfoldable pub disable_loop_wdt : Watchdog → Watchdog
disable_loop_wdt w = record w { armed = false }

unfoldable pub feed_loop_wdt : ℕ → Watchdog → Watchdog
feed_loop_wdt now w = record w { last_feed_ms = now }

unfoldable pub loop_wdt_set_timeout : ℕ → Watchdog → Watchdog
loop_wdt_set_timeout ms w = record w { timeout_ms = ms % 2 ^ 32; timeout_explicit = true }

unfoldable pub loop_wdt_set_expiry_handler : Option ℕ → Watchdog → Watchdog
loop_wdt_set_expiry_handler h w = record w { expiry_handler = h }

-- One round of monitor(): what it calls, if anything.
unfoldable pub monitor : ℕ → Watchdog → Option Expiry × Watchdog
monitor now w =
    if not w.armed || w.timeout_ms == 0 || leb now (w.last_feed_ms + w.timeout_ms)
    then (none, w)
    else (some (expiry w.expiry_handler), record w { armed = false })

-- The rounds of monitor() at the times given: the calls, each with its time.
unfoldable pub monitor_all : List ℕ → Watchdog → List (ℕ × Expiry)
unfolding monitor
monitor_all [] w = []
monitor_all (now ∷ later) w =
    let (call, w') = monitor now w in
    let rest = monitor_all later w' in elim call [ none ↦ rest | some x ↦ (now, x) ∷ rest ]
