-- ===== src/Wifi/Tests.antt =====
-- The mock of WiFi on concrete inputs (libraries/EpoxyMockWiFi/WiFi.h and WiFi.cpp).
use epoxy_duino.Base.{
  ℕ, ◌+◌, ◌%◌, ◌^◌, ◌≡◌, refl, true, false, List, [], ◌∷◌, ◌++◌, none, some, length,
}
use native.Mathlib.Omega.{arith}
use epoxy_duino.Base.Text.{codes, same_text}
use epoxy_duino.Address.{IpAddress}
use epoxy_duino.Wifi.State.{
  off, Wifi, ap_sta, ap, sta, connected, ip, new_wifi, mock_reset, init_default_scan_results,
  scan_done, event_sta_start, event_sta_connected, event_sta_got_ip, event_scan_done,
  event_sta_stop, event_ap_start, event_ap_stop,
}
use epoxy_duino.Wifi.Events.{
  plain, emit_event, callback_calls, queue_event, is_due, service_pending_events,
  service_async_scan, yield_service,
}
use epoxy_duino.Wifi.Station.{
  begin, attempt, start_sta, report_attempt, get_host_ipv4, first_ipv4, mac_text, mac_address,
}
use epoxy_duino.Wifi.Access.{soft_ap_disconnect, stop_ap, enable_sta, enable_ap}
use epoxy_duino.Wifi.Scan.{scan_networks, scan_complete, scan_running, visible}
use epoxy_duino.Wifi.Calls.{
  Step, calls, serves, begins, disconnects, starts_ap, disconnects_ap, steps,
}
use epoxy_duino.Wifi.Queue.{services, announced}
use epoxy_duino.Wifi.Replay.{seen, events_of}
use epoxy_duino.Wifi.Runs.{Announced, steps-Announced}
use epoxy_duino.Wifi.Outcome.{begin-Ends, verdict_of}
use epoxy_duino.Wifi.Delivery.{start_events, outcome_events, begin-delivers}
use epoxy_duino.Wifi.Scanned.{scan_networks-scan_complete}

-- a sketch's object with one plain handler
abbrev phone : Wifi
phone = record (new_wifi true) { event_handler = some 1 }

abbrev host : IpAddress
host = ip 192 168 1 20

abbrev begun : Wifi
unfolding begin start_sta attempt report_attempt queue_event same_text
begun = begin 100 host (codes "EPX_OK") none phone

-- The handler hears of the start, then of the connection, then of the address.
heard :
    (services (104 ∷ 104 ∷ 104 ∷ []) begun).0
    ≡ plain 1 event_sta_start ∷ plain 1 event_sta_connected ∷ plain 1 event_sta_got_ip ∷ []
unfolding begun services yield_service service_async_scan service_pending_events emit_event
    callback_calls begin start_sta attempt report_attempt queue_event same_text
heard = refl

begin-Ends_example :
    ((begin 100 host (codes "EPX_FLAPPY") none phone).status ≡ connected)
    × ((begin 100 host (codes "EPX_FLAPPY") none phone).local_ip ≡ host)
unfolding verdict_of same_text
begin-Ends_example = begin-Ends 100 host (codes "EPX_FLAPPY") none phone

begin-delivers_example :
    let w' = begin 100 host (codes "EPX_OK") none phone in
    services (104 ∷ 104 ∷ 104 ∷ []) w' ≡ (
      announced w' (start_events 100 phone ++ outcome_events 100 w'),
      record w' { pending_events = [] },
    )
begin-delivers_example =
    begin-delivers 100 host (codes "EPX_OK") none phone 104 refl refl refl (omega arith)
      (omega arith)

abbrev session : List (ℕ × Step)
session =
    (100, calls (begins host (codes "EPX_OK") none))
    ∷ (103, serves)
    ∷ (104, calls (starts_ap (codes "mine") none 1 0 4))
    ∷ (105, serves)
    ∷ (106, calls (disconnects true))
    ∷ (107, calls (begins host (codes "EPX_BADPASS") none))
    ∷ (108, calls (disconnects_ap true))
    ∷ []

steps-Announced_example :
    let events = seen (steps session phone).0 ++ events_of (steps session phone).1.pending_events in
    Announced event_sta_start event_sta_stop events (steps session phone).1.sta_started
    × Announced event_ap_start event_ap_stop events (steps session phone).1.ap_started
steps-Announced_example = steps-Announced 1 session phone refl refl refl refl

scan_networks-scan_complete_example :
    let running = (scan_networks 50 true false 0 phone).1 in
    let done = (scan_complete 60 running).1 in
    ((scan_networks 50 true false 0 phone).0 ≡ scan_running)
    × (scan_complete 50 running ≡ (scan_running, running))
    × ((scan_complete 60 running).0 ≡ 10)
    × (done.scan_view ≡ visible false phone.scan_results)
    × (done.pending_events
        ≡ record { event = event_scan_done; info = scan_done 10; due_at = 60 } ∷ [])
    × (scan_complete 70 done ≡ (10, done))
unfolding visible
scan_networks-scan_complete_example =
    scan_networks-scan_complete 50 false 0 phone 50 60 70 refl refl (omega arith) (omega arith)
      (omega arith) (omega arith)

-- enableSTA(true) and enableAP(true) in WIFI_AP_STA turn the other side off.
enable_sta_drops_ap : (enable_sta true (record phone { mode = ap_sta })).mode ≡ sta
unfolding enable_sta
enable_sta_drops_ap = refl

enable_ap_drops_sta : (enable_ap true (record phone { mode = ap_sta })).mode ≡ ap
unfolding enable_ap
enable_ap_drops_sta = refl

-- softAPdisconnect(false) turns a station off that runs without an access point.
soft_ap_disconnect_drops_sta : (soft_ap_disconnect 0 false (record phone { mode = sta })).mode ≡ off
unfolding soft_ap_disconnect stop_ap
soft_ap_disconnect_drops_sta = refl

-- mockReset() leaves the station started and its events pending.
mock_reset_keeps_sta : (mock_reset begun).sta_started ≡ true
unfolding begun mock_reset begin start_sta attempt report_attempt queue_event
    init_default_scan_results same_text
mock_reset_keeps_sta = refl

mock_reset_keeps_events : length (mock_reset begun).pending_events ≡ 3
unfolding begun mock_reset begin start_sta attempt report_attempt queue_event
    init_default_scan_results same_text
mock_reset_keeps_events = refl

-- Once the 64-bit clock has reached 2^32 ms, an event with a delay is due at once.
due_beyond_32_bits : is_due (2 ^ 32 + 5) ((2 ^ 32 + 5 + 4) % 2 ^ 32) ≡ true
due_beyond_32_bits = refl

mac_of_the_mock : mac_text mac_address ≡ codes "DE:AD:BE:EF:FE:ED"
unfolding mac_text
mac_of_the_mock = refl

skips_the_loopback : get_host_ipv4 (some (some 2130706433 ∷ none ∷ some 3232235796 ∷ [])) ≡ host
unfolding get_host_ipv4 first_ipv4
skips_the_loopback = refl
