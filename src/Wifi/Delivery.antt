-- ===== src/Wifi/Delivery.antt =====
-- The events of WiFiClass::begin() (libraries/EpoxyMockWiFi/WiFi.cpp), and their delivery.
use epoxy_duino.Base.{
  ℕ, ◌+◌, ◌%◌, ◌^◌, ◌≤◌, ◌<◌, ◌≡◌, refl, sym, ap, ◌∙◌, Bool, true, false, if◌then◌else◌, List, [],
  ◌∷◌, ◌++◌, append_assoc, append-nil, length, Option,
}
use native.Mathlib.Omega.{arith}
use epoxy_duino.Base.Text.{Bytes}
use epoxy_duino.Address.{IpAddress}
use epoxy_duino.Wifi.State.{
  Wifi, EventInfo, PendingWiFiEvent, no_info, event_sta_start, event_sta_connected,
  event_sta_disconnected, event_sta_got_ip, ap_sta, sta, no_ip,
}
use epoxy_duino.Wifi.Events.{has_handler, queue_event, is_due}
use epoxy_duino.Wifi.Station.{
  attempt, begin, start_sta, report_attempt, given, unless_static, is_connected, connected_info,
  disconnected_info, got_ip_info, same_ip,
}
use epoxy_duino.Wifi.Queue.{
  with_pending, services, announced, all_due, AllDue, is_due-later, services-delivers,
}

abbrev event_at : ℕ → ℕ → EventInfo → ℕ → PendingWiFiEvent
event_at now event info delay = record {
  event = event;
  info = info;
  due_at = (now + delay) % 2 ^ 32;
}

-- The events of an attempt that has ended in `w`.
abbrev pub outcome_events : ℕ → Wifi → List PendingWiFiEvent
outcome_events now w =
    if is_connected w
    then (event_at now event_sta_connected (connected_info w) 2
        ∷ (if same_ip w.local_ip no_ip
            then []
            else event_at now event_sta_got_ip (got_ip_info w) 4 ∷ []))
    else event_at now event_sta_disconnected (disconnected_info w) 2 ∷ []

abbrev pub start_events : ℕ → Wifi → List PendingWiFiEvent
start_events now w = if w.sta_started then [] else event_at now event_sta_start no_info 0 ∷ []

queue_event-handled :
    (now event : ℕ) (info : EventInfo) (delay : ℕ) (w : Wifi)
    → has_handler w ≡ true
    → queue_event now event info delay w
      ≡ with_pending (w.pending_events ++ event_at now event info delay ∷ []) w
unfolding queue_event
queue_event-handled now event info delay w h = rw h refl

with_pending_if :
    (b : Bool) (w : Wifi) (es es' : List PendingWiFiEvent) (x x' : Wifi)
    → x ≡ with_pending es w
    → x' ≡ with_pending es' w
    → (if b then x else x') ≡ with_pending (if b then es else es') w
with_pending_if true w es es' x x' first second = first
with_pending_if false w es es' x x' first second = second

append_outcome :
    (ended without : Bool) (queue : List PendingWiFiEvent) (joined address left : PendingWiFiEvent)
    → (if ended
        then if without then queue ++ joined ∷ [] else queue ++ joined ∷ [] ++ address ∷ []
        else queue ++ left ∷ [])
      ≡ queue ++ (if ended then joined ∷ (if without then [] else address ∷ []) else left ∷ [])
append_outcome true true queue joined address left = refl
append_outcome true false queue joined address left =
    append_assoc queue (joined ∷ []) (address ∷ [])
append_outcome false without queue joined address left = refl

report_attempt-handled :
    (now : ℕ) (w : Wifi)
    → has_handler w ≡ true
    → report_attempt now w ≡ with_pending (w.pending_events ++ outcome_events now w) w
unfolding report_attempt
report_attempt-handled now w h =
    let addressed : Wifi → Wifi = λ w'.
      if same_ip w'.local_ip no_ip
      then w'
      else queue_event now event_sta_got_ip (got_ip_info w') 4 w' in
    let left = queue_event now event_sta_disconnected (disconnected_info w) 2 w in
    let joined =
      with_pending (w.pending_events ++ event_at now event_sta_connected (connected_info w) 2 ∷ [])
        w in
    ap (λ w'. if is_connected w then addressed w' else left)
      (queue_event-handled now event_sta_connected (connected_info w) 2 w h)
    ∙ with_pending_if (is_connected w) w _ _ (addressed joined) left
        (with_pending_if (same_ip w.local_ip no_ip) w _ _ joined _ refl
          (queue_event-handled now event_sta_got_ip (got_ip_info joined) 4 joined h))
        (queue_event-handled now event_sta_disconnected (disconnected_info w) 2 w h)
    ∙ ap (λ es. with_pending es w)
        (append_outcome (is_connected w) (same_ip w.local_ip no_ip) w.pending_events _ _ _)

start_sta-handled :
    (now : ℕ) (w : Wifi)
    → has_handler w ≡ true
    → start_sta now w
      ≡ record w { pending_events = w.pending_events ++ start_events now w; sta_started = true }
unfolding start_sta
start_sta-handled now w h = go w.sta_started refl
  where
    go :
        (b : Bool)
        → w.sta_started ≡ b
        → (if b
            then w
            else queue_event now event_sta_start no_info 0 (record w { sta_started = true }))
          ≡ record w {
            pending_events =
                w.pending_events ++ (if b then [] else event_at now event_sta_start no_info 0 ∷ []);
            sta_started = true;
          }
    go true e =
        λ i. record w { pending_events = sym (append-nil w.pending_events) i; sta_started = e i }
    go false e =
        queue_event-handled now event_sta_start no_info 0 (record w { sta_started = true }) h

-- An attempt leaves what the delivery of the events depends on.
Undisturbed : Wifi → Wifi → Type 0
Undisturbed w w' =
    (w'.pending_events ≡ w.pending_events)
    × (has_handler w' ≡ has_handler w)
    × (w'.scan_in_progress ≡ w.scan_in_progress)

attempt-Undisturbed : (address : IpAddress) (w : Wifi) → Undisturbed w (attempt address w)
unfolding attempt Undisturbed
attempt-Undisturbed address w = (ground arith, ground arith, ground arith)

few_due :
    (t : ℕ) (started ended without : Bool) (start joined address left : PendingWiFiEvent)
    → is_due t start.due_at ≡ true
    → is_due t joined.due_at ≡ true
    → is_due t address.due_at ≡ true
    → is_due t left.due_at ≡ true
    → let es =
        (if started then [] else start ∷ [])
        ++ (if ended then joined ∷ (if without then [] else address ∷ []) else left ∷ []) in
      (all_due t es ≡ true) × (length es ≤ 3)
unfolding all_due
few_due t true true true start joined address left a b c d = (ground (arith, b), omega arith)
few_due t true true false start joined address left a b c d = (ground (arith, b, c), omega arith)
few_due t true false without start joined address left a b c d = (ground (arith, d), omega arith)
few_due t false true true start joined address left a b c d = (ground (arith, a, b), omega arith)
few_due t false true false start joined address left a b c d =
    (ground (arith, a, b, c), omega arith)
few_due t false false without start joined address left a b c d =
    (ground (arith, a, d), omega arith)

-- The object before the attempt, with the events of the start.
abbrev opened : Bytes → Option Bytes → Wifi → Wifi
opened name pass w = record w {
  ssid = name;
  psk = given pass w.psk;
  mode = if w.ap_enabled then ap_sta else sta;
}

begin-Undisturbed :
    (now : ℕ) (host : IpAddress) (name : Bytes) (pass : Option Bytes) (w : Wifi)
    → has_handler w ≡ true
    → let w' = begin now host name pass w in
      (w'.pending_events ≡ w.pending_events ++ (start_events now w ++ outcome_events now w'))
      × (w'.scan_in_progress ≡ w.scan_in_progress)
unfolding begin Undisturbed
begin-Undisturbed now host name pass w h =
    let w₁ = opened name pass w in
    let w₂ = start_sta now w₁ in
    let started = start_sta-handled now w₁ h in
    let w₃ = attempt (unless_static w₂ w₂.local_ip host) w₂ in
    let (same_queue, same_handlers, same_scan) =
      attempt-Undisturbed (unless_static w₂ w₂.local_ip host) w₂ in
    let reported = report_attempt-handled now w₃ (same_handlers ∙ ap has_handler started ∙ h) in
    (
      ap (λ (w' : Wifi). w'.pending_events) reported
          ∙ rw
              (
                ap (outcome_events now) reported,
                same_queue ∙ ap (λ (w' : Wifi). w'.pending_events) started,
              )
              (append_assoc w.pending_events (start_events now w) (outcome_events now w₃)),
      ap (λ (w' : Wifi). w'.scan_in_progress) reported
          ∙ same_scan
          ∙ ap (λ (w' : Wifi). w'.scan_in_progress) started,
    )

-- When a handler is registered, no event is pending and no scan runs: after begin() the service,
-- three times once 4 ms have gone, calls the handlers for STA_START, if the station was stopped,
-- then for STA_CONNECTED and, with an address, GOT_IP, or else for STA_DISCONNECTED, and leaves no
-- event. The clock is below 2^32.
pub begin-delivers :
    (now : ℕ) (host : IpAddress) (name : Bytes) (pass : Option Bytes) (w : Wifi) (t : ℕ)
    → has_handler w ≡ true
    → w.pending_events ≡ []
    → w.scan_in_progress ≡ false
    → now + 4 ≤ t
    → t < 2 ^ 32
    → let w' = begin now host name pass w in
      services (t ∷ t ∷ t ∷ []) w' ≡ (
        announced w' (start_events now w ++ outcome_events now w'),
        record w' { pending_events = [] },
      )
unfolding AllDue
begin-delivers now host name pass w t h empty idle later fits =
    let w' = begin now host name pass w in
    let (queue, same_scan) = begin-Undisturbed now host name pass w h in
    let queued : w'.pending_events ≡ start_events now w ++ outcome_events now w' =
      queue ∙ ap (λ es. es ++ (start_events now w ++ outcome_events now w')) empty in
    let (due, few) =
      few_due t w.sta_started (is_connected w') (same_ip w'.local_ip no_ip)
        (event_at now event_sta_start no_info 0)
        (event_at now event_sta_connected (connected_info w') 2)
        (event_at now event_sta_got_ip (got_ip_info w') 4)
        (event_at now event_sta_disconnected (disconnected_info w') 2)
        (is_due-later now 0 t (omega arith) fits) (is_due-later now 2 t (omega arith) fits)
        (is_due-later now 4 t (omega arith) fits) (is_due-later now 2 t (omega arith) fits) in
    let all : all_due t w'.pending_events ≡ true = ap (all_due t) queued ∙ due in
    services-delivers (t ∷ t ∷ t ∷ []) w' (same_scan ∙ idle) (all, (all, (all, tt))) (rw queued few)
    ∙ ap (λ es. (announced w' es, with_pending [] w')) queued
