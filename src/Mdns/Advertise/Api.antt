-- ===== src/Mdns/Advertise/Api.antt =====
-- The C interface of the services that are announced (ESPmDNS.cpp: mdns_service_add() and the functions
-- beside it).
use epoxy_duino.Base.{ℕ, not, ◌&&◌, ◌||◌, if◌then◌else◌, List, [], ◌∷◌, Option}
use epoxy_duino.Base.Text.{Bytes}
use epoxy_duino.Mdns.Search.{text_of}
use epoxy_duino.Mdns.Responder.{Avahi, Mdns, begin_responder}
use epoxy_duino.Mdns.Advertise.{is_given, remove_service, add_service, add_service_txt}

-- esp_err_t, as far as the code uses it
pub data EspErr : Type 0 where
  esp_ok esp_err_invalid_arg esp_err_invalid_state : EspErr

unfoldable pub mdns_service_remove : Option Bytes → Option Bytes → Mdns → EspErr × Mdns
unfolding remove_service
mdns_service_remove service proto m =
    let (ok, m') = remove_service service proto 0 m in
    if not (is_given service) || not (is_given proto)
    then (esp_err_invalid_arg, m)
    else if ok
    then (esp_ok, m')
    else (esp_err_invalid_state, m')

module _ {S : Type 0} (avahi : Avahi S) where
  unfoldable mdns_hostname_set : Option Bytes → Mdns × S → EspErr × (Mdns × S)
  unfolding begin_responder
  mdns_hostname_set host w =
      let (ok, w') = begin_responder avahi (text_of host) w in
      if is_given host
      then ((if ok then esp_ok else esp_err_invalid_arg), w')
      else (esp_err_invalid_arg, w)

  -- the loop over the TXT items
  unfoldable pub add_items :
      Option Bytes → Option Bytes → List (Option Bytes × Option Bytes) → Mdns × S → Mdns × S
  unfolding add_service_txt
  add_items service proto [] w = w
  add_items service proto (i ∷ is) w = add_items service proto is (
      if is_given i.0 && is_given i.1 then (add_service_txt avahi service proto i.0 i.1 w).1 else w)

  unfoldable pub mdns_service_add :
      Option Bytes
      → Option Bytes
      → ℕ
      → List (Option Bytes × Option Bytes)
      → Mdns × S
      → EspErr × (Mdns × S)
  unfolding add_service add_items
  mdns_service_add service proto port items w =
      let (ok, w') = add_service avahi service proto port w in
      if not (is_given service) || not (is_given proto)
      then (esp_err_invalid_arg, w)
      else if ok
      then (esp_ok, add_items service proto items w')
      else (esp_err_invalid_state, w')

  unfoldable pub mdns_service_txt_set :
      Option Bytes → Option Bytes → Option Bytes → Option Bytes → Mdns × S → EspErr × (Mdns × S)
  unfolding add_service_txt
  mdns_service_txt_set service proto k v w =
      if is_given service && is_given proto && is_given k && is_given v
      then (esp_ok, (add_service_txt avahi service proto k v w).1)
      else (esp_err_invalid_arg, w)
