-- ===== src/Wifi/Access.antt =====
-- The access point and the mode of WiFiClass (libraries/EpoxyMockWiFi/WiFi.cpp).
use epoxy_duino.Base.{ℕ, Bool, true, false, not, if◌then◌else◌, ◌==◌, [], Option}
use epoxy_duino.Base.Text.{Bytes}
use epoxy_duino.Address.{IpAddress}
use epoxy_duino.Wifi.State.{
  Wifi, disconnected, Mode, off, sta, ap, ap_sta, no_info, event_ap_start, event_ap_stop, ip,
}
use epoxy_duino.Wifi.Events.{queue_event}
use epoxy_duino.Wifi.Station.{given, start_sta, stop_sta}

unfoldable pub start_ap : ℕ → Wifi → Wifi
unfolding queue_event
start_ap now w =
    if w.ap_started
    then w
    else queue_event now event_ap_start no_info 0 (record w { ap_started = true })

unfoldable pub stop_ap : ℕ → Wifi → Wifi
unfolding queue_event
stop_ap now w =
    if w.ap_started
    then queue_event now event_ap_stop no_info 0 (record w { ap_started = false })
    else w

abbrev pub with_ap : Mode → Mode
with_ap m = elim m [ sta ↦ ap_sta | ap_sta ↦ ap_sta | _ ↦ ap ]

-- Without the access point: the mode goes back to the station, or off.
abbrev pub without_ap : Mode → Mode
without_ap m = elim m [ ap_sta ↦ sta | _ ↦ off ]

unfoldable pub soft_ap : ℕ → Bytes → Option Bytes → ℕ → ℕ → ℕ → Wifi → Wifi
unfolding start_ap
soft_ap now name passphrase chan hidden max_connection w = start_ap now (record w {
  ap_ssid = name;
  ap_psk = given passphrase [];
  ap_channel = chan;
  ap_hidden = not (hidden == 0);
  ap_max_conn = max_connection;
  ap_enabled = true;
  mode = with_ap w.mode;
})

unfoldable pub soft_ap_config : IpAddress → IpAddress → IpAddress → Wifi → Wifi
soft_ap_config local gateway subnet w = record w {
  ap_local_ip = local;
  ap_gateway_ip = gateway;
  ap_subnet_mask = subnet;
}

unfoldable pub soft_ap_disconnect : ℕ → Bool → Wifi → Wifi
unfolding stop_ap stop_sta
soft_ap_disconnect now wifi_off w =
    let w' = stop_ap now (record w {
      ap_enabled = false;
      ap_ssid = [];
      ap_psk = [];
      ap_channel = 1;
      ap_hidden = false;
      ap_max_conn = 4;
      ap_local_ip = ip 192 168 4 1;
      ap_gateway_ip = ip 192 168 4 1;
      ap_subnet_mask = ip 255 255 255 0;
    }) in
    if wifi_off
    then stop_sta now (record w' { mode = off; status = disconnected })
    else record w' { mode = without_ap w'.mode }

abbrev pub is_off : Mode → Bool
is_off m = elim m [ off ↦ true | _ ↦ false ]

abbrev pub has_sta : Mode → Bool
has_sta m = elim m [ sta ↦ true | ap_sta ↦ true | _ ↦ false ]

abbrev pub has_ap : Mode → Bool
has_ap m = elim m [ ap ↦ true | ap_sta ↦ true | _ ↦ false ]

-- mode(m)
unfoldable pub set_mode : ℕ → Mode → Wifi → Wifi
unfolding start_sta stop_sta start_ap stop_ap
set_mode now m w =
    let w₁ : Wifi = record w { mode = m; status = if is_off m then disconnected else w.status } in
    let w₂ = if is_off m then stop_sta now w₁ else w₁ in
    let w₃ = if is_off m then stop_ap now w₂ else w₂ in
    let w₄ = if has_sta m then start_sta now w₃ else w₃ in if has_ap m then start_ap now w₄ else w₄

unfoldable pub set_mode_persistent : ℕ → Mode → Bool → Wifi → Wifi
unfolding set_mode
set_mode_persistent now m on w = set_mode now m (record w { persistent = on })

unfoldable pub enable_sta : Bool → Wifi → Wifi
enable_sta enable w = record w {
  mode =
      if enable
      then elim w.mode [ ap ↦ ap_sta | _ ↦ sta ]
      else elim w.mode [ ap_sta ↦ ap | _ ↦ off ];
}

unfoldable pub enable_ap : Bool → Wifi → Wifi
enable_ap enable w = record w {
  mode =
      if enable
      then elim w.mode [ sta ↦ ap_sta | _ ↦ ap ]
      else elim w.mode [ ap_sta ↦ sta | _ ↦ off ];
}
