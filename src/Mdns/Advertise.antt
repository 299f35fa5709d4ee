-- ===== src/Mdns/Advertise.antt =====
-- The services that the responder announces (ESPmDNS.cpp: addService(),
-- addServiceTxt(), removeService(), publishService(), unpublishService(), enableArduino(),
-- disableArduino()). A pointer to a text may be null.
pub mod Api
pub mod Kept
pub mod Ports
pub mod Calls
pub mod Published
use epoxy_duino.Base.{
  ℕ, Bool, true, false, not, ◌&&◌, ◌||◌, if◌then◌else◌, ◌==◌, List, [], ◌∷◌, ◌++◌, Option, none,
  some,
}
use epoxy_duino.Base.Text.{Bytes, codes, same_text}
use epoxy_duino.Mdns.Maps.{TextMap, put_key}
use epoxy_duino.Mdns.Search.{text_of}
use epoxy_duino.Mdns.Responder.{
  Avahi, AdvertisedService, Mdns, touch_client, wait_running, init_avahi, begin_responder,
}

abbrev pub is_given : Option Bytes → Bool
is_given none = false
is_given (some t) = true

abbrev pub same_type : Bytes → Bytes → AdvertisedService → Bool
same_type service proto a = same_text a.type service && same_text a.proto proto

abbrev pub is_advertised : Bytes → Bytes → ℕ → AdvertisedService → Bool
is_advertised service proto port a = same_type service proto a && a.port == port

-- avahi_string_list_add() puts an entry in front of the list
unfoldable pub txt_list : TextMap → List Bytes → List Bytes
txt_list [] acc = acc
txt_list (e ∷ es) acc = txt_list es ((e.0 ++ b'=' ∷ e.1) ∷ acc)

-- the TXT list of the first service that matches
unfoldable pub txt_of : Bytes → Bytes → ℕ → List AdvertisedService → List Bytes
unfolding txt_list
txt_of service proto port [] = []
txt_of service proto port (a ∷ as') =
    let rest = txt_of service proto port as' in
    if is_advertised service proto port a then txt_list a.txt_records [] else rest

abbrev pub dns_type : Bytes → Bytes → Bytes
dns_type service proto = b'_' ∷ (service ++ codes "._" ++ proto)

-- The loop of addServiceTxt(): the first service of the type with its new record, and all of them.
unfoldable pub set_txt :
    Bytes
    → Bytes
    → Bytes
    → Bytes
    → List AdvertisedService
    → Option (AdvertisedService × List AdvertisedService)
set_txt service proto k v [] = none
set_txt service proto k v (a ∷ as') =
    let rest = set_txt service proto k v as' in
    let a' = record a { txt_records = put_key k v a.txt_records } in
    if same_type service proto a
    then some (a', a' ∷ as')
    else elim rest [ some r ↦ some (r.0, a ∷ r.1) | none ↦ none ]

-- the loop of removeService()
unfoldable pub erase_service :
    Bytes → Bytes → ℕ → List AdvertisedService → Option (List AdvertisedService)
erase_service service proto port [] = none
erase_service service proto port (a ∷ as') =
    let rest = erase_service service proto port as' in
    if is_advertised service proto port a
    then some as'
    else elim rest [ some r ↦ some (a ∷ r) | none ↦ none ]

unfoldable pub remove_service : Option Bytes → Option Bytes → ℕ → Mdns → Bool × Mdns
unfolding erase_service
remove_service none proto port m = (false, m)
remove_service (some service) none port m = (false, m)
remove_service (some service) (some proto) port m =
    elim (erase_service service proto port m.advertised_services) [
      | some r ↦ (true, record m { advertised_services = r })
      | none ↦ (false, m)
    ]

unfoldable pub disable_arduino : Mdns → Mdns
unfolding remove_service
disable_arduino m = (remove_service (some (codes "http")) (some (codes "tcp")) 3232 m).1

-- A service that is announced from now on.
abbrev pub advertise : Bytes → Bytes → ℕ → Mdns → Mdns
advertise service proto port m = record m {
  advertised_services =
      m.advertised_services
      ++ record {
        name = m.instance_name;
        type = service;
        proto = proto;
        port = port;
        txt_records = [];
      }
        ∷ [];
}

module _ {S : Type 0} (avahi : Avahi S) where
  -- an entry group that is empty
  abbrev pub fresh_group : Mdns × S → Bool × (Mdns × S)
  fresh_group (m, s) =
      let (ok, s') = avahi.entry_group_new s in
      if m.has_group
      then (true, (m, avahi.entry_group_reset s))
      else (ok, (record m { has_group = ok }, s'))

  -- the entry and its commit
  abbrev pub add_entry : Bytes → Bytes → Bytes → ℕ → Mdns × S → Bool × (Mdns × S)
  add_entry name service proto port (m, s) =
      let (ok, s') =
        avahi.entry_group_add_service name (dns_type service proto) port
          (txt_of service proto port m.advertised_services) s in
      let (done, s'') = avahi.entry_group_commit s' in
      if ok
      then (done, (m, s''))
      else (false, (record m { has_group = false }, avahi.entry_group_free s'))

  abbrev pub publish_running : Bytes → Bytes → Bytes → ℕ → Mdns × S → Bool × (Mdns × S)
  publish_running name service proto port w =
      let (ok, w') = fresh_group w in
      let result = add_entry name service proto port w' in if ok then result else (false, w')

  -- _publishService()
  unfoldable pub publish : Bytes → Bytes → Bytes → ℕ → Mdns × S → Bool × (Mdns × S)
  unfolding init_avahi txt_of
  publish name service proto port w =
      let (ok, w₁) = init_avahi avahi w in
      let (m, s) = wait_running avahi 20 w₁ in
      let w₂ : Mdns × S = (touch_client m, s) in
      let result = publish_running name service proto port w₂ in
      if not ok then (false, w₁) else if avahi.client_running s then result else (false, w₂)

  -- _unpublishService()
  unfoldable pub unpublish : Mdns × S → Mdns × S
  unpublish (m, s) = if m.has_group then (touch_client m, avahi.entry_group_reset s) else (m, s)

  unfoldable publish_service :
      Option Bytes → Option Bytes → Option Bytes → ℕ → Mdns × S → Bool × (Mdns × S)
  unfolding publish
  publish_service name service proto port w =
      let result = publish (text_of name) (text_of service) (text_of proto) port w in
      if is_given name && is_given service && is_given proto && not (port == 0)
      then result
      else (false, w)

  unfoldable unpublish_service : Option Bytes → Option Bytes → Mdns × S → Bool × (Mdns × S)
  unfolding unpublish
  unpublish_service service proto w =
      if is_given service && is_given proto then (true, unpublish w) else (false, w)

  unfoldable pub add_service : Option Bytes → Option Bytes → ℕ → Mdns × S → Bool × (Mdns × S)
  unfolding publish
  add_service service proto port (m, s) =
      let m' = advertise (text_of service) (text_of proto) port m in
      let result = publish m.instance_name (text_of service) (text_of proto) port (m', s) in
      if is_given service && is_given proto && not (port == 0) then result else (false, (m, s))

  abbrev pub republish : AdvertisedService → Mdns × S → Mdns × S
  republish a w = let (ok, w') = publish a.name a.type a.proto a.port w in w'

  unfoldable pub add_service_txt :
      Option Bytes → Option Bytes → Option Bytes → Option Bytes → Mdns × S → Bool × (Mdns × S)
  unfolding publish set_txt
  add_service_txt service proto k v (m, s) =
      if is_given service && is_given proto && is_given k && is_given v
      then elim (set_txt (text_of service) (text_of proto) (text_of k) (text_of v)
          m.advertised_services) [
            | some r ↦ (true, republish r.0 (record m { advertised_services = r.1 }, s))
            | none ↦ (false, (m, s))
          ]
      else (false, (m, s))

  unfoldable pub enable_arduino : ℕ → Mdns × S → Mdns × S
  unfolding add_service add_service_txt
  enable_arduino port w =
      let w' = (add_service (some (codes "http")) (some (codes "tcp")) port w).1 in
      let (ok, w'') =
        add_service_txt (some (codes "http")) (some (codes "tcp")) (some (codes "service"))
          (some (codes "arduino")) w' in
      w''
