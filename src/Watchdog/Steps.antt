-- ===== src/Watchdog/Steps.antt =====
-- What the loop watchdog does over any sequence of steps (cores/epoxy/esp32_wdt.cpp).
use epoxy_duino.Base.{
  ℕ, ◌+◌, ◌%◌, ◌^◌, ◌≤◌, ◌≡◌, refl, ap, Bool, Bool-cases, inl, inr, true, false, not, ◌||◌,
  if◌then◌else◌, leb, ltb, ◌==◌, List, [], ◌∷◌, Option, none, some, arith,
}
use epoxy_duino.Watchdog.{
  Watchdog, Expiry, expiry, start_monitor, enable_loop_wdt, disable_loop_wdt, feed_loop_wdt,
  loop_wdt_set_timeout, loop_wdt_set_expiry_handler, monitor, monitor_all,
}

abbrev pub count : {A : Type 0} → Option A → ℕ
count none = 0
count (some a) = 1

-- A step, with how often it enables the watchdog and how often it expires.
pub data Step : Watchdog → ℕ → ℕ → Watchdog → Type 0 where
  enabled : (env : Option ℕ) (now : ℕ) (w : Watchdog) → Step w 1 0 (enable_loop_wdt env now w)
  disabled : (w : Watchdog) → Step w 0 0 (disable_loop_wdt w)
  fed : (now : ℕ) (w : Watchdog) → Step w 0 0 (feed_loop_wdt now w)
  timed : (ms : ℕ) (w : Watchdog) → Step w 0 0 (loop_wdt_set_timeout ms w)
  handled : (h : Option ℕ) (w : Watchdog) → Step w 0 0 (loop_wdt_set_expiry_handler h w)
  polled : (now : ℕ) (w : Watchdog) → Step w 0 (count (monitor now w).0) (monitor now w).1

pub data Steps : Watchdog → ℕ → ℕ → Watchdog → Type 0 where
  rest : (w : Watchdog) → Steps w 0 0 w
  next : (w v u : Watchdog) (m n a b : ℕ) → Steps w m n v → Step v a b u → Steps w (m + a) (n + b) u

-- 1 while the watchdog is armed
abbrev pub armed_count : Watchdog → ℕ
armed_count w = if w.armed then 1 else 0

count-monitor :
    (now : ℕ) (w : Watchdog)
    → count (monitor now w).0 + armed_count (monitor now w).1 ≡ armed_count w
unfolding monitor
count-monitor now w = ground arith

Step-count : {w v : Watchdog} {a b : ℕ} → Step w a b v → b + armed_count v ≤ a + armed_count w
unfolding enable_loop_wdt disable_loop_wdt feed_loop_wdt loop_wdt_set_timeout
    loop_wdt_set_expiry_handler
Step-count (enabled env now w) = ground arith
Step-count (disabled w) = ground arith
Step-count (fed now w) = ground arith
Step-count (timed ms w) = ground arith
Step-count (handled h w) = ground arith
Step-count (polled now w) = omega (arith, count-monitor now w)

-- Over any sequence of steps the watchdog expires no more often than it was enabled, and if it was
-- armed at the start, once more; and once less if it is still armed at the end.
pub expiries_le : {w v : Watchdog} {m n : ℕ} → Steps w m n v → n + armed_count v ≤ m + armed_count w
expiries_le (rest w) = omega arith
expiries_le (next w v u m' n' a b before step) = omega (arith, expiries_le before, Step-count step)

-- the first of the times that is later than a limit
abbrev pub first_after : ℕ → List ℕ → Option ℕ
first_after limit [] = none
first_after limit (now ∷ later) = if ltb limit now then some now else first_after limit later

-- the expiry at a time, if there is one
abbrev pub expiry_at : Expiry → Option ℕ → List (ℕ × Expiry)
expiry_at x none = []
expiry_at x (some now) = (now, x) ∷ []

-- nothing expires: the watchdog is not armed, or has no timeout
abbrev quiet : Watchdog → Bool
quiet w = not w.armed || w.timeout_ms == 0

monitor-quiet : (now : ℕ) (w : Watchdog) → quiet w ≡ true → monitor now w ≡ (none, w)
unfolding monitor
monitor-quiet now w h = ground arith

monitor_waiting :
    (now : ℕ) (w : Watchdog)
    → quiet w ≡ false
    → ltb (w.last_feed_ms + w.timeout_ms) now ≡ false
    → monitor now w ≡ (none, w)
unfolding monitor
monitor_waiting now w h early = ground arith

monitor_late :
    (now : ℕ) (w : Watchdog)
    → quiet w ≡ false
    → ltb (w.last_feed_ms + w.timeout_ms) now ≡ true
    → monitor now w ≡ (some (expiry w.expiry_handler), record w { armed = false })
unfolding monitor
monitor_late now w h late =
    let over : leb now (w.last_feed_ms + w.timeout_ms) ≡ false = ground arith in rw (h, over) refl

monitor_all-quiet : (times : List ℕ) (w : Watchdog) → quiet w ≡ true → monitor_all times w ≡ []
unfolding monitor_all
monitor_all-quiet [] w h = refl
monitor_all-quiet (now ∷ later) w h =
    rw (monitor_all, monitor-quiet now w h, monitor-quiet now w h) (monitor_all-quiet later w h)

monitor_all_on :
    (times : List ℕ) (w : Watchdog)
    → quiet w ≡ false
    → monitor_all times w
      ≡ expiry_at (expiry w.expiry_handler) (first_after (w.last_feed_ms + w.timeout_ms) times)
unfolding monitor_all
monitor_all_on [] w h = refl
monitor_all_on (now ∷ later) w h = elim (Bool-cases (ltb (w.last_feed_ms + w.timeout_ms) now)) [
  | inl late ↦
      rw (monitor_all, monitor_late now w h late, monitor_late now w h late, late)
        (ap (◌∷◌ (now, expiry w.expiry_handler))
          (monitor_all-quiet later (record w { armed = false }) refl))
  | inr early ↦
      rw (monitor_all, monitor_waiting now w h early, monitor_waiting now w h early, early)
        (monitor_all_on later w h)
]

-- While nothing else happens, the rounds of the monitor call what stands for the expiry once, at the
-- first of them that comes later than the timeout after the last feed. They call nothing if there
-- is no such round, if the watchdog is not armed, or if the timeout is 0.
monitor_all_lem :
    (times : List ℕ) (w : Watchdog)
    → monitor_all times w ≡ (
        if not w.armed || w.timeout_ms == 0
        then []
        else expiry_at
            (expiry w.expiry_handler)
            (first_after (w.last_feed_ms + w.timeout_ms) times))
monitor_all_lem times w = elim (Bool-cases (quiet w)) [
  | inl off ↦ rw off (monitor_all-quiet times w off)
  | inr on ↦ rw on (monitor_all_on times w on)
]

-- A timeout that was set explicitly is kept when the watchdog is enabled, and the environment counts
-- at most the first time that it is.
pub enable_loop_wdt_lem :
    (env env' : Option ℕ) (now now' ms : ℕ) (w : Watchdog)
    → ((enable_loop_wdt env now (loop_wdt_set_timeout ms w)).timeout_ms ≡ ms % 2 ^ 32)
      × ((enable_loop_wdt env' now' (enable_loop_wdt env now w)).timeout_ms
          ≡ (enable_loop_wdt env now w).timeout_ms)
unfolding enable_loop_wdt start_monitor loop_wdt_set_timeout
enable_loop_wdt_lem none env' now now' ms w = (ground arith, ground arith)
enable_loop_wdt_lem (some t) env' now now' ms w = (ground arith, ground arith)
