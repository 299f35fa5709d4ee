-- ===== src/Wifi/Scanned.antt =====
-- A scan in the background, from its start to its result (libraries/EpoxyMockWiFi/WiFi.cpp).
use epoxy_duino.Base.{
  ℕ, ◌+◌, ◌%◌, ◌^◌, ◌≤◌, ◌<◌, ◌≡◌, refl, ap, ◌∙◌, Bool, true, false, if◌then◌else◌, not, ◌==◌, List,
  [], ◌∷◌, ◌++◌, length, Bool-cases, inl, inr,
}
use native.Mathlib.Omega.{arith}
use epoxy_duino.Wifi.State.{Wifi, MockScanEntry, scan_done, event_scan_done}
use epoxy_duino.Wifi.Events.{has_handler, queue_event, extend_int8, is_due, service_async_scan}
use epoxy_duino.Wifi.Scan.{visible, scan_networks, scan_complete, scan_running, scan_failed}
use epoxy_duino.Wifi.Queue.{is_due-later, is_due-early}

abbrev pub wait_of : ℕ → ℕ
wait_of max_ms_per_chan = if max_ms_per_chan == 0 then 1 else max_ms_per_chan

-- the object after the start of a scan in the background
abbrev pub started : ℕ → Bool → ℕ → Wifi → Wifi
started now show_hidden max w = record w {
  scan_view = visible show_hidden w.scan_results;
  scan_result_count = length (visible show_hidden w.scan_results) % 256;
  scan_in_progress = true;
  scan_has_result = false;
  scan_ready_at = (now + wait_of max) % 2 ^ 32;
}

-- the object once the scan has ended
abbrev pub ended : ℕ → Bool → Wifi → Wifi
ended t show_hidden w =
    let count = length (visible show_hidden w.scan_results) in
    record w {
      scan_view = visible show_hidden w.scan_results;
      scan_result_count = count;
      scan_in_progress = false;
      scan_has_result = true;
      pending_events =
          w.pending_events
          ++ record { event = event_scan_done; info = scan_done count; due_at = t % 2 ^ 32 } ∷ [];
    }

scan_networks-started :
    (now : ℕ) (show_hidden : Bool) (max : ℕ) (w : Wifi)
    → w.scan_in_progress ≡ false
    → scan_networks now true show_hidden max w ≡ (scan_running, started now show_hidden max w)
unfolding scan_networks
scan_networks-started now show_hidden max w idle = rw idle refl

-- The test that a poll makes.
abbrev poll : Bool → Bool → Wifi → Wifi → Wifi
poll running due w w' = if not running then w else if not due then w else w'

poll_early :
    (running due : Bool) (w w' : Wifi) → running ≡ true → due ≡ false → poll running due w w' ≡ w
poll_early true true w w' e h = ground (arith, h)
poll_early true false w w' e h = refl
poll_early false due w w' e h = refl

poll_due :
    (running due : Bool) (w w' : Wifi) → running ≡ true → due ≡ true → poll running due w w' ≡ w'
poll_due true true w w' e h = refl
poll_due true false w w' e h = ground (arith, h)
poll_due false due w w' e h = ground (arith, e)

abbrev answer : Wifi → ℕ × Wifi
answer w =
    if w.scan_in_progress
    then (scan_running, w)
    else if w.scan_has_result
    then (w.scan_result_count, w)
    else (scan_failed, w)

answer_running : (b : Bool) (r r' : ℕ × Wifi) → b ≡ true → (if b then r else r') ≡ r
answer_running true r r' e = refl
answer_running false r r' e = ground (arith, e)

scan_complete-waits :
    (t : ℕ) (w : Wifi)
    → w.scan_in_progress ≡ true
    → is_due t w.scan_ready_at ≡ false
    → scan_complete t w ≡ (scan_running, w)
unfolding scan_complete service_async_scan
scan_complete-waits t w running early =
    ap answer (poll_early w.scan_in_progress (is_due t w.scan_ready_at) w _ running early)
    ∙ answer_running w.scan_in_progress _ _ running

scan_complete-idle :
    (t : ℕ) (w : Wifi)
    → w.scan_in_progress ≡ false
    → w.scan_has_result ≡ true
    → scan_complete t w ≡ (w.scan_result_count, w)
unfolding scan_complete service_async_scan
scan_complete-idle t w idle has =
    ap answer (poll_idle w.scan_in_progress (is_due t w.scan_ready_at) w _ idle)
    ∙ answer_idle w.scan_in_progress w.scan_has_result _ _ _ idle has
  where
    poll_idle : (running due : Bool) (w w' : Wifi) → running ≡ false → poll running due w w' ≡ w
    poll_idle true due w w' e = ground (arith, e)
    poll_idle false due w w' e = refl

    answer_idle :
        (running has : Bool) (r r' r'' : ℕ × Wifi)
        → running ≡ false
        → has ≡ true
        → (if running then r else if has then r' else r'') ≡ r'
    answer_idle true has r r' r'' e h = ground (arith, e)
    answer_idle false true r r' r'' e h = refl
    answer_idle false false r r' r'' e h = ground (arith, h)

scan_complete-ended :
    (now t : ℕ) (show_hidden : Bool) (max : ℕ) (w : Wifi)
    → has_handler w ≡ true
    → length (visible show_hidden w.scan_results) < 128
    → is_due t ((now + wait_of max) % 2 ^ 32) ≡ true
    → scan_complete t (started now show_hidden max w) ≡ (
      length (visible show_hidden w.scan_results),
      record (ended t show_hidden w) { scan_ready_at = (now + wait_of max) % 2 ^ 32 },
    )
unfolding scan_complete service_async_scan queue_event
scan_complete-ended now t show_hidden max w h few due =
    let count = length (visible show_hidden w.scan_results) in
    let same : count % 256 ≡ count = omega arith in
    let extended : extend_int8 count ≡ count = ground arith in
    let at_once : t + 0 ≡ t = omega arith in rw (due, h, same, extended, at_once) refl

-- A scan in the background, when a handler is registered, no other scan runs and at most 127
-- networks are to be shown: it answers WIFI_SCAN_RUNNING; so does every poll until the delay has
-- gone (0 ms stands for 1), and leaves the object; the first poll after that answers the number of
-- networks shown and queues one SCAN_DONE with that number behind the events; every later poll
-- answers the same and leaves the object. The clock is below 2^32.
pub scan_networks-scan_complete :
    (now : ℕ) (show_hidden : Bool) (max : ℕ) (w : Wifi) (early t later : ℕ)
    → w.scan_in_progress ≡ false
    → has_handler w ≡ true
    → length (visible show_hidden w.scan_results) < 128
    → early < now + wait_of max
    → now + wait_of max ≤ t
    → t < 2 ^ 32
    → let count = length (visible show_hidden w.scan_results) in
      let running = (scan_networks now true show_hidden max w).1 in
      let done = (scan_complete t running).1 in
      ((scan_networks now true show_hidden max w).0 ≡ scan_running)
      × (scan_complete early running ≡ (scan_running, running))
      × ((scan_complete t running).0 ≡ count)
      × (done.scan_view ≡ visible show_hidden w.scan_results)
      × (done.pending_events
          ≡ w.pending_events
            ++ record { event = event_scan_done; info = scan_done count; due_at = t % 2 ^ 32 } ∷ [])
      × (scan_complete later done ≡ (count, done))
scan_networks-scan_complete now show_hidden max w early t later idle h few soon past fits =
    let start = scan_networks-started now show_hidden max w idle in
    let due = is_due-later now (wait_of max) t past fits in
    let finish = scan_complete-ended now t show_hidden max w h few due in
    rw (start, finish)
      (
        refl,
        scan_complete-waits early (started now show_hidden max w) refl
            (is_due-early now (wait_of max) early soon (omega arith)),
        refl,
        refl,
        refl,
        scan_complete-idle later _ refl refl,
      )

-- What a scan shows is every network when the hidden ones are asked for, and else those of the
-- same networks in the same order that are not hidden.
pub visible-filters :
    (es es' : List MockScanEntry)
    → (visible true es ≡ es)
      × (visible false (es ++ es') ≡ visible false es ++ visible false es')
      × (visible false (visible false es) ≡ visible false es)
unfolding visible
visible-filters [] es' = (refl, refl, refl)
visible-filters (e ∷ es) es' =
    let (every, parts, twice) = visible-filters es es' in
    elim (Bool-cases e.is_hidden) [
      | inl h ↦ rw (h, every, parts) (refl, refl, twice)
      | inr h ↦ rw (h, every, parts) (refl, refl, rw twice refl)
    ]
