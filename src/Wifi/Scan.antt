-- ===== src/Wifi/Scan.antt =====
-- The scan of WiFiClass (libraries/EpoxyMockWiFi/WiFi.cpp and WiFi.h).
use epoxy_duino.Base.{
  ℕ, zero, suc, ◌+◌, ◌%◌, ◌^◌, Bool, true, false, ◌||◌, not, if◌then◌else◌, ◌==◌, List, [], ◌∷◌,
  ◌++◌, Option, none, some, length, replicate,
}
use epoxy_duino.Base.Text.{Bytes}
use epoxy_duino.Wifi.State.{Wifi, MockScanEntry, enc_type_none, init_default_scan_results}
use epoxy_duino.Wifi.Events.{service_async_scan}

-- WIFI_SCAN_RUNNING and WIFI_SCAN_FAILED are -1 and -2 as an int8_t.
abbrev pub scan_running : ℕ
scan_running = 255

abbrev pub scan_failed : ℕ
scan_failed = 254

unfoldable pub visible : Bool → List MockScanEntry → List MockScanEntry
visible show_hidden [] = []
visible show_hidden (e ∷ es) =
    let rest = visible show_hidden es in if not e.is_hidden || show_hidden then e ∷ rest else rest

unfoldable pub scan_networks : ℕ → Bool → Bool → ℕ → Wifi → ℕ × Wifi
unfolding visible
scan_networks now async show_hidden max_ms_per_chan w =
    let delay = if max_ms_per_chan == 0 then 1 else max_ms_per_chan in
    let view = visible show_hidden w.scan_results in
    let count = length view % 256 in
    if w.scan_in_progress
    then (scan_running, w)
    else if async
    then (
      scan_running,
      record w {
        scan_view = view;
        scan_result_count = count;
        scan_in_progress = true;
        scan_has_result = false;
        scan_ready_at = (now + delay) % 2 ^ 32;
      },
    )
    else (
      count,
      record w {
        scan_view = view;
        scan_result_count = count;
        scan_in_progress = false;
        scan_has_result = true;
        scan_ready_at = 0;
      },
    )

unfoldable pub scan_complete : ℕ → Wifi → ℕ × Wifi
unfolding service_async_scan
scan_complete now w =
    let w' = service_async_scan now w in
    if w'.scan_in_progress
    then (scan_running, w')
    else if w'.scan_has_result
    then (w'.scan_result_count, w')
    else (scan_failed, w')

unfoldable pub scan_delete : Wifi → Wifi
unfolding init_default_scan_results
scan_delete w = init_default_scan_results (record w {
  scan_in_progress = false;
  scan_has_result = false;
  scan_ready_at = 0;
  scan_result_count = 0;
})

abbrev pub entry_at {ℓ} : {A : Type ℓ} → List A → ℕ → Option A
entry_at [] i = none
entry_at (e ∷ es) zero = some e
entry_at (e ∷ es) (suc i) = entry_at es i

-- SSID(i), encryptionType(i), RSSI(i), channel(i) and isHidden(i)
unfoldable pub scanned_ssid : ℕ → Wifi → Bytes
scanned_ssid i w = elim (entry_at w.scan_view i) [ none ↦ [] | some e ↦ e.entry_ssid ]

unfoldable pub scanned_encryption : ℕ → Wifi → ℕ
scanned_encryption i w = elim (entry_at w.scan_view i) [
  | none ↦ enc_type_none
  | some e ↦ e.encryption_type
]

unfoldable pub scanned_rssi : ℕ → Wifi → ℕ
scanned_rssi i w = elim (entry_at w.scan_view i) [ none ↦ 0 | some e ↦ e.rssi ]

unfoldable pub scanned_channel : ℕ → Wifi → ℕ
scanned_channel i w = elim (entry_at w.scan_view i) [ none ↦ 0 | some e ↦ e.entry_channel ]

unfoldable pub scanned_hidden : ℕ → Wifi → Bool
scanned_hidden i w = elim (entry_at w.scan_view i) [ none ↦ false | some e ↦ e.is_hidden ]

-- BSSID(i), which points to the scratch buffer
unfoldable pub scanned_bssid : ℕ → Wifi → Bytes × Wifi
scanned_bssid i w = elim (entry_at w.scan_view i) [
  | none ↦ (replicate 6 0, record w { bssid_scratch = replicate 6 0 })
  | some e ↦ (e.bssid, record w { bssid_scratch = e.bssid })
]

-- getNetworkInfo(): `none` where it answers false.
unfoldable pub get_network_info : ℕ → Wifi → Option MockScanEntry × Wifi
get_network_info i w = elim (entry_at w.scan_view i) [
  | none ↦ (none, w)
  | some e ↦ (some e, record w { bssid_scratch = e.bssid })
]

unfoldable pub mock_set_scan_results : List MockScanEntry → Wifi → Wifi
mock_set_scan_results results w = record w { scan_results = results; scan_view = results }

unfoldable pub mock_add_scan_result : MockScanEntry → Wifi → Wifi
mock_add_scan_result entry w = record w {
  scan_results = w.scan_results ++ entry ∷ [];
  scan_view = w.scan_results ++ entry ∷ [];
}
