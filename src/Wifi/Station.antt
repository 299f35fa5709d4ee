-- ===== src/Wifi/Station.antt =====
-- Station mode of WiFiClass (libraries/EpoxyMockWiFi/WiFi.cpp).
use epoxy_duino.Base.{
  ℕ, ◌+◌, ◌-◌, ◌/◌, ◌%◌, ◌^◌, Bool, true, false, ◌&&◌, ◌||◌, if◌then◌else◌, ltb, ◌==◌, List, [],
  ◌∷◌, Option, none, some, take,
}
use epoxy_duino.Base.Text.{Bytes, codes, same_text}
use epoxy_duino.Address.{IpAddress}
use epoxy_duino.Wifi.State.{
  Wifi, Status, connected, connect_failed, connection_lost, disconnected, no_ssid_avail, off, sta,
  ap_sta, EventInfo, no_info, sta_connected, sta_disconnected, got_ip, event_sta_start,
  event_sta_stop, event_sta_connected, event_sta_disconnected, event_sta_got_ip, ip, no_ip,
}
use epoxy_duino.Wifi.Events.{queue_event}

abbrev pub loopback : IpAddress
loopback = ip 127 0 0 1

abbrev pub address_of : ℕ → IpAddress
address_of a = ip (a / 2 ^ 24 % 256) (a / 2 ^ 16 % 256) (a / 2 ^ 8 % 256) (a % 256)

-- The loop of _getHostIPv4(): an interface has an IPv4 address, in host order, or none.
unfoldable pub first_ipv4 : List (Option ℕ) → IpAddress
first_ipv4 [] = loopback
first_ipv4 (none ∷ rest) = first_ipv4 rest
first_ipv4 (some a ∷ rest) =
    let later = first_ipv4 rest in if a / 2 ^ 24 == 127 then later else address_of a

-- `none` where getifaddrs() fails
unfoldable pub get_host_ipv4 : Option (List (Option ℕ)) → IpAddress
unfolding first_ipv4
get_host_ipv4 none = loopback
get_host_ipv4 (some interfaces) = first_ipv4 interfaces

abbrev pub bssid_of_station : Bytes
bssid_of_station = 0 ∷ 0x11 ∷ 0x22 ∷ 0x33 ∷ 0x44 ∷ 0x55 ∷ []

abbrev pub unless_static : Wifi → IpAddress → IpAddress → IpAddress
unless_static w configured other = if w.static_ip_configured then configured else other

-- a connection that succeeds
abbrev pub succeed : IpAddress → Wifi → Wifi
succeed success w = record w {
  status = connected;
  local_ip = success;
  gateway_ip = unless_static w w.gateway_ip no_ip;
  dns_ip = unless_static w w.dns_ip no_ip;
}

-- a connection that fails
abbrev pub fail : Status → Wifi → Wifi
fail result w = record w { status = result; local_ip = unless_static w w.local_ip no_ip }

abbrev pub is_auth_ssid : Bytes → Bool
is_auth_ssid name =
    same_text name (codes "EPX_OPEN")
    || same_text name (codes "EPX_WEP")
    || same_text name (codes "EPX_WPA")
    || same_text name (codes "EPX_WPA2")
    || same_text name (codes "EPX_WPA3")

abbrev pub flappy : IpAddress → Wifi → Wifi
flappy success w =
    let count = w.flappy_counter + 1 in
    if count % 2 == 1
    then record w { flappy_counter = count; status = connected; local_ip = success }
    else fail connect_failed (record w { flappy_counter = count })

-- The outcome of begin() by the name of the network.
unfoldable pub attempt : IpAddress → Wifi → Wifi
attempt success w =
    if same_text w.ssid (codes "EPX_OK")
    then succeed success w
    else if same_text w.ssid (codes "EPX_BADPASS")
    then fail connect_failed w
    else if same_text w.ssid (codes "EPX_TIMEOUT")
    then fail connection_lost w
    else if same_text w.ssid (codes "EPX_NOIP")
    then record w {
      status = connected;
      local_ip = unless_static w w.local_ip no_ip;
      gateway_ip = unless_static w w.gateway_ip no_ip;
      dns_ip = unless_static w w.dns_ip no_ip;
    }
    else if same_text w.ssid (codes "EPX_FLAPPY")
    then flappy success w
    else if same_text w.ssid (codes "EPX_HIDDEN")
    then succeed success w
    else if is_auth_ssid w.ssid
    then succeed success w
    else fail no_ssid_avail w

abbrev pub is_connected : Wifi → Bool
is_connected w = elim w.status [ connected ↦ true | _ ↦ false ]

abbrev pub same_ip : IpAddress → IpAddress → Bool
same_ip a b = a.b0 == b.b0 && a.b1 == b.b1 && a.b2 == b.b2 && a.b3 == b.b3

abbrev pub connected_info : Wifi → EventInfo
connected_info w = sta_connected (take 32 w.ssid) bssid_of_station w.channel

abbrev pub disconnected_info : Wifi → EventInfo
disconnected_info w = sta_disconnected (take 32 w.ssid) bssid_of_station 0

abbrev pub got_ip_info : Wifi → EventInfo
got_ip_info w = got_ip w.local_ip w.subnet_mask w.gateway_ip

-- the events of an attempt
unfoldable pub report_attempt : ℕ → Wifi → Wifi
unfolding queue_event
report_attempt now w =
    if is_connected w
    then (let w' = queue_event now event_sta_connected (connected_info w) 2 w in
        if same_ip w'.local_ip no_ip
        then w'
        else queue_event now event_sta_got_ip (got_ip_info w') 4 w')
    else queue_event now event_sta_disconnected (disconnected_info w) 2 w

-- the flag and the event of a start of the station
unfoldable pub start_sta : ℕ → Wifi → Wifi
unfolding queue_event
start_sta now w =
    if w.sta_started
    then w
    else queue_event now event_sta_start no_info 0 (record w { sta_started = true })

unfoldable pub stop_sta : ℕ → Wifi → Wifi
unfolding queue_event
stop_sta now w =
    if w.sta_started
    then queue_event now event_sta_stop no_info 0 (record w { sta_started = false })
    else w

abbrev pub given : Option Bytes → Bytes → Bytes
given none old = old
given (some text) old = text

-- begin(ssid, passphrase); `host` is what _getHostIPv4() answers.
unfoldable pub begin : ℕ → IpAddress → Bytes → Option Bytes → Wifi → Wifi
unfolding start_sta attempt report_attempt
begin now host name passphrase w =
    let w₁ : Wifi = record w {
      ssid = name;
      psk = given passphrase w.psk;
      mode = if w.ap_enabled then ap_sta else sta;
    } in
    let w₂ = start_sta now w₁ in report_attempt now (attempt (unless_static w₂ w₂.local_ip host) w₂)

-- begin() with a channel, which is an int8_t
unfoldable pub begin_channel : ℕ → IpAddress → Bytes → Option Bytes → ℕ → Wifi → Wifi
unfolding begin
begin_channel now host name passphrase chan w =
    begin now host name passphrase (record w { channel = chan % 256 })

unfoldable pub config : IpAddress → IpAddress → IpAddress → Wifi → Wifi
config local gateway subnet w = record w {
  local_ip = local;
  gateway_ip = gateway;
  subnet_mask = subnet;
  static_ip_configured = true;
}

-- config() with one name server; a second one is dropped
unfoldable pub config_dns : IpAddress → IpAddress → IpAddress → IpAddress → Wifi → Wifi
unfolding config
config_dns local gateway subnet dns w = record (config local gateway subnet w) { dns_ip = dns }

unfoldable pub disconnect : ℕ → Bool → Wifi → Wifi
unfolding queue_event stop_sta
disconnect now wifi_off w =
    let w₁ =
      if w.sta_started
      then queue_event now event_sta_disconnected (disconnected_info w) 0 w
      else w in
    let w₂ : Wifi = record w₁ { status = disconnected } in
    if wifi_off then stop_sta now (record w₂ { mode = off }) else w₂

unfoldable pub set_auto_reconnect : Bool → Wifi → Wifi
set_auto_reconnect on w = record w { auto_connect = on }

unfoldable pub set_persistent : Bool → Wifi → Wifi
set_persistent on w = record w { persistent = on }

unfoldable pub set_hostname : Bytes → Wifi → Wifi
set_hostname name w = record w { hostname = name }

-- sprintf() with %02X: for six bytes
abbrev pub upper_digit : ℕ → ℕ
upper_digit n = n + (if ltb n 10 then b'0' else b'A' - 10)

unfoldable pub mac_text : Bytes → Bytes
mac_text [] = []
mac_text (b ∷ []) = upper_digit (b / 16) ∷ upper_digit (b % 16) ∷ []
mac_text (b ∷ c ∷ bytes) = upper_digit (b / 16) ∷ upper_digit (b % 16) ∷ b':' ∷ mac_text (c ∷ bytes)

abbrev pub mac_address : Bytes
mac_address = 0xde ∷ 0xad ∷ 0xbe ∷ 0xef ∷ 0xfe ∷ 0xed ∷ []
