-- ===== src/Wifi/State.antt =====
-- The state of WiFiClass (libraries/EpoxyMockWiFi/WiFi.h), its construction and mockReset(), and the
-- networks that the mock knows (_initDefaultScanResults() of WiFi.cpp).
use epoxy_duino.Base.{ℕ, ◌-◌, ◌^◌, Bool, true, false, List, [], ◌∷◌, Option, none, replicate}
use epoxy_duino.Base.Text.{Bytes, codes}
use epoxy_duino.Address.{IpAddress}

pub data Status : Type 0 where
  no_ssid_avail connected connect_failed connection_lost disconnected : Status

pub data Mode : Type 0 where
  off sta ap ap_sta : Mode

-- wifi_auth_mode_t, as far as the mock uses it, and ENC_TYPE_NONE
abbrev pub auth_open : ℕ
auth_open = 0

abbrev pub auth_wep : ℕ
auth_wep = 1

abbrev pub auth_wpa_psk : ℕ
auth_wpa_psk = 2

abbrev pub auth_wpa2_psk : ℕ
auth_wpa2_psk = 3

abbrev pub auth_wpa3_psk : ℕ
auth_wpa3_psk = 6

abbrev pub enc_type_none : ℕ
enc_type_none = 7

-- WiFiEvent_t as numbers, with the values of the ESP32
abbrev pub event_scan_done : ℕ
event_scan_done = 1

abbrev pub event_sta_start : ℕ
event_sta_start = 2

abbrev pub event_sta_stop : ℕ
event_sta_stop = 3

abbrev pub event_sta_connected : ℕ
event_sta_connected = 4

abbrev pub event_sta_disconnected : ℕ
event_sta_disconnected = 5

abbrev pub event_sta_got_ip : ℕ
event_sta_got_ip = 7

abbrev pub event_ap_start : ℕ
event_ap_start = 10

abbrev pub event_ap_stop : ℕ
event_ap_stop = 11

abbrev pub event_max : ℕ
event_max = 40

-- What arduino_event_info_t holds for the events that are queued.
pub data EventInfo : Type 0 where
  no_info : EventInfo
  scan_done : ℕ → EventInfo
  sta_connected : Bytes → Bytes → ℕ → EventInfo
  sta_disconnected : Bytes → Bytes → ℕ → EventInfo
  got_ip : IpAddress → IpAddress → IpAddress → EventInfo

pub record PendingWiFiEvent : Type 0 where
  pub event : ℕ
  pub info : EventInfo
  pub due_at : ℕ

-- An int32_t is its bit pattern.
pub record MockScanEntry : Type 0 where
  pub entry_ssid : Bytes
  pub rssi : ℕ
  pub encryption_type : ℕ
  pub entry_channel : ℕ
  pub bssid : Bytes
  pub is_hidden : Bool

-- int8_t fields are bit patterns. A handler is the number of the function it names; a callback
-- without a function is `none`.
pub record Wifi : Type 0 where
  pub status : Status
  pub mode : Mode
  pub local_ip : IpAddress
  pub subnet_mask : IpAddress
  pub gateway_ip : IpAddress
  pub dns_ip : IpAddress
  pub static_ip_configured : Bool
  pub ssid : Bytes
  pub psk : Bytes
  pub hostname : Bytes
  pub channel : ℕ
  pub auto_connect : Bool
  pub persistent : Bool
  pub ap_enabled : Bool
  pub ap_ssid : Bytes
  pub ap_psk : Bytes
  pub ap_channel : ℕ
  pub ap_hidden : Bool
  pub ap_max_conn : ℕ
  pub ap_local_ip : IpAddress
  pub ap_gateway_ip : IpAddress
  pub ap_subnet_mask : IpAddress
  pub scan_results : List MockScanEntry
  pub scan_view : List MockScanEntry
  pub bssid_scratch : Bytes
  pub scan_in_progress : Bool
  pub scan_has_result : Bool
  pub scan_ready_at : ℕ
  pub scan_result_count : ℕ
  pub flappy_counter : ℕ
  pub event_handler : Option ℕ
  pub event_handler_info : Option ℕ
  pub event_callbacks : List (ℕ × Option ℕ)
  pub pending_events : List PendingWiFiEvent
  pub yield_service_registered : Bool
  pub sta_started : Bool
  pub ap_started : Bool

abbrev pub ip : ℕ → ℕ → ℕ → ℕ → IpAddress
ip a b c d = record { b0 = a; b1 = b; b2 = c; b3 = d }

abbrev pub no_ip : IpAddress
no_ip = ip 0 0 0 0

-- an entry with a signal of -`signal` dBm and the BSSID AA:BB:CC:00:00:`last`
abbrev pub network : Bytes → ℕ → ℕ → ℕ → ℕ → Bool → MockScanEntry
network name signal encryption chan last hidden = record {
  entry_ssid = name;
  rssi = 2 ^ 32 - signal;
  encryption_type = encryption;
  entry_channel = chan;
  bssid = 0xaa ∷ 0xbb ∷ 0xcc ∷ 0 ∷ 0 ∷ last ∷ [];
  is_hidden = hidden;
}

abbrev pub default_scan_results : List MockScanEntry
default_scan_results =
    network (codes "EPX_OK") 45 auth_wpa2_psk 6 1 false
    ∷ network (codes "EPX_BADPASS") 62 auth_wpa2_psk 11 2 false
    ∷ network (codes "EPX_TIMEOUT") 78 auth_wpa2_psk 1 3 false
    ∷ network (codes "EPX_NOIP") 55 auth_open 3 4 false
    ∷ network (codes "EPX_FLAPPY") 70 auth_wpa2_psk 9 5 false
    ∷ network (codes "EPX_HIDDEN") 60 auth_wpa2_psk 6 6 true
    ∷ network (codes "EPX_OPEN") 52 auth_open 4 7 false
    ∷ network (codes "EPX_WEP") 67 auth_wep 2 8 false
    ∷ network (codes "EPX_WPA") 59 auth_wpa_psk 8 9 false
    ∷ network (codes "EPX_WPA2") 50 auth_wpa2_psk 6 10 false
    ∷ network (codes "EPX_WPA3") 61 auth_wpa3_psk 10 11 false
    ∷ []

unfoldable pub init_default_scan_results : Wifi → Wifi
init_default_scan_results w = record w {
  scan_results = default_scan_results;
  scan_view = default_scan_results;
}

-- The constructor; `registered` is what epoxyRegisterYieldServiceCallback() answers.
abbrev pub new_wifi : Bool → Wifi
new_wifi registered = record {
  status = disconnected;
  mode = off;
  local_ip = no_ip;
  subnet_mask = ip 255 255 255 0;
  gateway_ip = no_ip;
  dns_ip = no_ip;
  static_ip_configured = false;
  ssid = [];
  psk = [];
  hostname = codes "epoxy-duino";
  channel = 1;
  auto_connect = true;
  persistent = true;
  ap_enabled = false;
  ap_ssid = [];
  ap_psk = [];
  ap_channel = 1;
  ap_hidden = false;
  ap_max_conn = 4;
  ap_local_ip = ip 192 168 4 1;
  ap_gateway_ip = ip 192 168 4 1;
  ap_subnet_mask = ip 255 255 255 0;
  scan_results = default_scan_results;
  scan_view = default_scan_results;
  bssid_scratch = replicate 6 0;
  scan_in_progress = false;
  scan_has_result = false;
  scan_ready_at = 0;
  scan_result_count = 0;
  flappy_counter = 0;
  event_handler = none;
  event_handler_info = none;
  event_callbacks = [];
  pending_events = [];
  yield_service_registered = registered;
  sta_started = false;
  ap_started = false;
}

unfoldable pub mock_reset : Wifi → Wifi
unfolding init_default_scan_results
mock_reset w = init_default_scan_results (record w {
  status = disconnected;
  mode = off;
  local_ip = no_ip;
  subnet_mask = ip 255 255 255 0;
  gateway_ip = no_ip;
  dns_ip = no_ip;
  static_ip_configured = false;
  ssid = [];
  psk = [];
  hostname = codes "epoxy-duino";
  channel = 1;
  auto_connect = true;
  persistent = true;
  ap_enabled = false;
  ap_ssid = [];
  ap_psk = [];
  ap_channel = 1;
  ap_hidden = false;
  ap_max_conn = 4;
  ap_local_ip = ip 192 168 4 1;
  ap_gateway_ip = ip 192 168 4 1;
  ap_subnet_mask = ip 255 255 255 0;
  flappy_counter = 0;
  scan_in_progress = false;
  scan_has_result = false;
  scan_ready_at = 0;
  scan_result_count = 0;
})
