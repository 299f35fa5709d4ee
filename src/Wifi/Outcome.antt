-- ===== src/Wifi/Outcome.antt =====
-- How the attempts of WiFiClass::begin() end (libraries/EpoxyMockWiFi/WiFi.cpp), against a table of
-- the networks.
use epoxy_duino.Base.{
  ℕ, ◌%◌, ◌≡◌, refl, ◌∙◌, Bool, true, false, if◌then◌else◌, ◌==◌, List, [], ◌∷◌, Option, none, some,
}
use native.Mathlib.Omega.{arith}
use epoxy_duino.Base.Text.{Bytes, codes, same_text}
use epoxy_duino.Address.{IpAddress}
use epoxy_duino.Wifi.State.{
  Wifi, Status, connected, connect_failed, connection_lost, no_ssid_avail, ap_sta, sta, no_ip,
}
use epoxy_duino.Wifi.Events.{queue_event}
use epoxy_duino.Wifi.Station.{attempt, begin, start_sta, report_attempt, given, unless_static}

-- How a network answers.
pub data Verdict : Type 0 where
  accepts refuses loses no_address alternates : Verdict

abbrev pub verdicts : List (Bytes × Verdict)
verdicts =
    (codes "EPX_OK", accepts)
    ∷ (codes "EPX_BADPASS", refuses)
    ∷ (codes "EPX_TIMEOUT", loses)
    ∷ (codes "EPX_NOIP", no_address)
    ∷ (codes "EPX_FLAPPY", alternates)
    ∷ (codes "EPX_HIDDEN", accepts)
    ∷ (codes "EPX_OPEN", accepts)
    ∷ (codes "EPX_WEP", accepts)
    ∷ (codes "EPX_WPA", accepts)
    ∷ (codes "EPX_WPA2", accepts)
    ∷ (codes "EPX_WPA3", accepts)
    ∷ []

unfoldable pub verdict_of : Bytes → List (Bytes × Verdict) → Option Verdict
verdict_of name [] = none
verdict_of name ((known, v) ∷ rest) =
    let other = verdict_of name rest in if same_text name known then some v else other

-- The status after the attempt that follows `count` earlier ones of an alternating network.
abbrev pub status_of : Option Verdict → ℕ → Status
status_of none count = no_ssid_avail
status_of (some accepts) count = connected
status_of (some refuses) count = connect_failed
status_of (some loses) count = connection_lost
status_of (some no_address) count = connected
status_of (some alternates) count = if count % 2 == 0 then connected else connect_failed

-- Whether the attempt gives the station an address.
abbrev pub gives_address : Option Verdict → ℕ → Bool
gives_address none count = false
gives_address (some accepts) count = true
gives_address (some refuses) count = false
gives_address (some loses) count = false
gives_address (some no_address) count = false
gives_address (some alternates) count = count % 2 == 0

attempt-status :
    (address : IpAddress) (w : Wifi)
    → (attempt address w).status ≡ status_of (verdict_of w.ssid verdicts) w.flappy_counter
unfolding attempt verdict_of
attempt-status address w = ground arith

attempt-address :
    (address : IpAddress) (w : Wifi)
    → (attempt address w).local_ip ≡ (
        if gives_address (verdict_of w.ssid verdicts) w.flappy_counter
        then address
        else unless_static w w.local_ip no_ip)
unfolding attempt verdict_of
attempt-address address w = ground arith

-- What queues an event leaves the status and the address.
report_attempt-status : (now : ℕ) (w : Wifi) → (report_attempt now w).status ≡ w.status
unfolding report_attempt queue_event
report_attempt-status now w = ground arith

report_attempt-local_ip : (now : ℕ) (w : Wifi) → (report_attempt now w).local_ip ≡ w.local_ip
unfolding report_attempt queue_event
report_attempt-local_ip now w = ground arith

-- What an attempt reads is not changed by the start of the station.
record_start :
    (now : ℕ) (w : Wifi)
    → ((start_sta now w).ssid ≡ w.ssid)
      × ((start_sta now w).flappy_counter ≡ w.flappy_counter)
      × ((start_sta now w).static_ip_configured ≡ w.static_ip_configured)
      × ((start_sta now w).local_ip ≡ w.local_ip)
unfolding start_sta queue_event
record_start now w = (ground arith, ground arith, ground arith, ground arith)

swap_tests :
    (fixed gives : Bool) (own host neither : IpAddress)
    → (if gives then if fixed then own else host else if fixed then own else neither)
      ≡ (if fixed then own else if gives then host else neither)
swap_tests true true own host neither = refl
swap_tests true false own host neither = refl
swap_tests false true own host neither = refl
swap_tests false false own host neither = refl

-- Whatever the state of the object, an attempt at a network ends with the status that the table has
-- for it, an unknown name with WL_NO_SSID_AVAIL; the address is the configured one if there is one,
-- else the host's where the network gives an address, else 0.0.0.0.
pub begin-Ends :
    (now : ℕ) (host : IpAddress) (name : Bytes) (pass : Option Bytes) (w : Wifi)
    → let w' = begin now host name pass w in
      let verdict = verdict_of name verdicts in
      (w'.status ≡ status_of verdict w.flappy_counter)
      × (w'.local_ip ≡ (
          if w.static_ip_configured
          then w.local_ip
          else if gives_address verdict w.flappy_counter
          then host
          else no_ip))
unfolding begin
begin-Ends now host name pass w =
    let opened : Wifi = record w {
      ssid = name;
      psk = given pass w.psk;
      mode = if w.ap_enabled then ap_sta else sta;
    } in
    let w₂ = start_sta now opened in
    let address = unless_static w₂ w₂.local_ip host in
    let (same_name, same_count, same_static, same_address) = record_start now opened in
    (
      report_attempt-status now (attempt address w₂)
          ∙ attempt-status address w₂
          ∙ rw (same_name, same_count) refl,
      report_attempt-local_ip now (attempt address w₂)
          ∙ attempt-address address w₂
          ∙ rw (same_name, same_count, same_static, same_address)
              (swap_tests w.static_ip_configured
                (gives_address (verdict_of name verdicts) w.flappy_counter) w.local_ip host no_ip),
    )
