-- ===== src/Wifi/Calls.antt =====
-- The calls that a program makes of the WiFi object (libraries/EpoxyMockWiFi/WiFi.cpp), and their
-- runs together with the service of pump().
use epoxy_duino.Base.{ℕ, Bool, List, [], ◌∷◌, ◌++◌, Option}
use epoxy_duino.Base.Text.{Bytes}
use epoxy_duino.Address.{IpAddress}
use epoxy_duino.Wifi.State.{Wifi, Mode, MockScanEntry, mock_reset}
use epoxy_duino.Wifi.Events.{HandlerCall, yield_service}
use epoxy_duino.Wifi.Station.{
  begin, begin_channel, config, config_dns, disconnect, set_auto_reconnect, set_persistent,
  set_hostname,
}
use epoxy_duino.Wifi.Access.{
  soft_ap, soft_ap_config, soft_ap_disconnect, set_mode, set_mode_persistent, enable_sta, enable_ap,
}
use epoxy_duino.Wifi.Scan.{
  scan_networks, scan_complete, scan_delete, scanned_bssid, get_network_info, mock_set_scan_results,
  mock_add_scan_result,
}

-- One constructor for each operation that changes the state, but for the registering of handlers,
-- and one for a pass of the service.
pub data Call : Type 0 where
  begins : IpAddress → Bytes → Option Bytes → Call
  begins_on : IpAddress → Bytes → Option Bytes → ℕ → Call
  configures : IpAddress → IpAddress → IpAddress → Call
  configures_dns : IpAddress → IpAddress → IpAddress → IpAddress → Call
  disconnects : Bool → Call
  sets_auto_reconnect : Bool → Call
  sets_persistent : Bool → Call
  sets_hostname : Bytes → Call
  starts_ap : Bytes → Option Bytes → ℕ → ℕ → ℕ → Call
  configures_ap : IpAddress → IpAddress → IpAddress → Call
  disconnects_ap : Bool → Call
  sets_mode : Mode → Call
  sets_mode_persistent : Mode → Bool → Call
  enables_sta : Bool → Call
  enables_ap : Bool → Call
  scans : Bool → Bool → ℕ → Call
  completes_scan : Call
  deletes_scan : Call
  reads_bssid : ℕ → Call
  reads_network : ℕ → Call
  resets : Call
  sets_results : List MockScanEntry → Call
  adds_result : MockScanEntry → Call

-- The object after a call at `now`.
unfoldable pub call : ℕ → Call → Wifi → Wifi
unfolding begin begin_channel config config_dns disconnect set_auto_reconnect set_persistent
    set_hostname soft_ap soft_ap_config soft_ap_disconnect set_mode set_mode_persistent enable_sta
    enable_ap scan_networks scan_complete scan_delete scanned_bssid get_network_info mock_reset
    mock_set_scan_results mock_add_scan_result
call now (begins host name pass) w = begin now host name pass w
call now (begins_on host name pass chan) w = begin_channel now host name pass chan w
call now (configures local gateway subnet) w = config local gateway subnet w
call now (configures_dns local gateway subnet dns) w = config_dns local gateway subnet dns w
call now (disconnects wifi_off) w = disconnect now wifi_off w
call now (sets_auto_reconnect on) w = set_auto_reconnect on w
call now (sets_persistent on) w = set_persistent on w
call now (sets_hostname name) w = set_hostname name w
call now (starts_ap name pass chan hidden max) w = soft_ap now name pass chan hidden max w
call now (configures_ap local gateway subnet) w = soft_ap_config local gateway subnet w
call now (disconnects_ap wifi_off) w = soft_ap_disconnect now wifi_off w
call now (sets_mode m) w = set_mode now m w
call now (sets_mode_persistent m on) w = set_mode_persistent now m on w
call now (enables_sta on) w = enable_sta on w
call now (enables_ap on) w = enable_ap on w
call now (scans async hidden max) w = (scan_networks now async hidden max w).1
call now completes_scan w = (scan_complete now w).1
call now deletes_scan w = scan_delete w
call now (reads_bssid i) w = (scanned_bssid i w).1
call now (reads_network i) w = (get_network_info i w).1
call now resets w = mock_reset w
call now (sets_results results) w = mock_set_scan_results results w
call now (adds_result entry) w = mock_add_scan_result entry w

-- What happens at an instant: a call, or a pass of the service.
pub data Step : Type 0 where
  calls : Call → Step
  serves : Step

unfoldable pub step : ℕ → Step → Wifi → List HandlerCall × Wifi
unfolding call yield_service
step now (calls c) w = ([], call now c w)
step now serves w = yield_service now w

unfoldable pub steps : List (ℕ × Step) → Wifi → List HandlerCall × Wifi
unfolding step
steps [] w = ([], w)
steps ((now, s) ∷ rest) w =
    let (made, w') = step now s w in let (later, w'') = steps rest w' in (made ++ later, w'')
