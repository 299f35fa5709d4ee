-- ===== src/Watchdog/Tests.antt =====
-- Runs of the loop watchdog (cores/epoxy/esp32_wdt.cpp).
use epoxy_duino.Base.{◌+◌, ◌≤◌, ◌≡◌, refl, true, [], ◌∷◌, none, some}
use epoxy_duino.Watchdog.{Watchdog, handler, off, enable_loop_wdt, monitor, monitor_all}
use epoxy_duino.Watchdog.Steps.{rest, next, enabled, polled, count, armed_count, expiries_le}

abbrev armed : Watchdog
armed = record off { armed = true; last_feed_ms = 100; expiry_handler = some 7 }

expired : monitor_all (5000 ∷ 5100 ∷ 5120 ∷ 5140 ∷ []) armed ≡ (5120, handler 7) ∷ []
unfolding monitor_all monitor
expired = refl

abbrev enabled_once : Watchdog
enabled_once = enable_loop_wdt none 10 off

expiries_le_example :
    (count (monitor 6000 enabled_once).0) + armed_count (monitor 6000 enabled_once).1
    ≤ 1 + armed_count off
unfolding monitor enable_loop_wdt
expiries_le_example = expiries_le (
    next off enabled_once (monitor 6000 enabled_once).1 1 0 0 (count (monitor 6000 enabled_once).0)
      (next off off enabled_once 0 0 1 0 (rest off) (enabled none 10 off))
      (polled 6000 enabled_once))
