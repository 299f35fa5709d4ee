-- ===== src/Mdns/Advertise/Calls.antt =====
-- Any calls that announce and withdraw services (ESPmDNS.cpp).
use epoxy_duino.Base.{
  ℕ, ◌≡◌, refl, ap, ◌∙◌, Bool, true, false, not, ◌&&◌, ◌||◌, if◌then◌else◌, ◌==◌, List, [], ◌∷◌,
  Option, none, some,
}
use epoxy_duino.Base.Text.{Bytes, codes}
use epoxy_duino.Mdns.Search.{text_of}
use epoxy_duino.Mdns.Responder.{Avahi, AdvertisedService, Mdns, new_mdns}
use epoxy_duino.Mdns.Advertise.{
  is_given, set_txt, remove_service, disable_arduino, advertise, add_service, add_service_txt,
  republish, enable_arduino, publish,
}
use epoxy_duino.Mdns.Advertise.Api.{
  esp_ok, esp_err_invalid_arg, esp_err_invalid_state, mdns_service_remove, add_items,
  mdns_service_add, mdns_service_txt_set,
}
use epoxy_duino.Mdns.Advertise.Kept.{advertised-publish}
use epoxy_duino.Mdns.Advertise.Ports.{
  no_zero, no_zero_found, IsPorted, no_zero-append, no_zero-set_txt, IsPorted-remove_service,
  mdns_service_remove-fails, given_port, refusal,
}

-- A call of the C interface, or of MDNSResponder.
pub data Call : Type 0 where
  add : Option Bytes → Option Bytes → ℕ → List (Option Bytes × Option Bytes) → Call
  set_record : Option Bytes → Option Bytes → Option Bytes → Option Bytes → Call
  remove : Option Bytes → Option Bytes → Call
  remove_at : Option Bytes → Option Bytes → ℕ → Call
  enable : ℕ → Call
  disable : Call

module _ {S : Type 0} (avahi : Avahi S) where
  abbrev pub run_call : Call → Mdns × S → Mdns × S
  run_call (add service proto port items) w = (mdns_service_add avahi service proto port items w).1
  run_call (set_record service proto k v) w = (mdns_service_txt_set avahi service proto k v w).1
  run_call (remove service proto) (m, s) = ((mdns_service_remove service proto m).1, s)
  run_call (remove_at service proto port) (m, s) = ((remove_service service proto port m).1, s)
  run_call (enable port) w = enable_arduino avahi port w
  run_call disable (m, s) = (disable_arduino m, s)

  abbrev pub run_calls : List Call → Mdns × S → Mdns × S
  run_calls [] w = w
  run_calls (c ∷ cs) w = run_calls cs (run_call c w)

module _ {S : Type 0} (avahi : Avahi S) where
  IsPorted-publish :
      (name service proto : Bytes) (port : ℕ) (m : Mdns) (s : S)
      → IsPorted m
      → IsPorted (publish avahi name service proto port (m, s)).1.0
  IsPorted-publish name service proto port m s e =
      ap no_zero (advertised-publish avahi name service proto port m s) ∙ e

  IsPorted-if :
      {R : Type 0} (b : Bool) (w v : R × (Mdns × S))
      → (b ≡ true → IsPorted w.1.0)
      → IsPorted v.1.0
      → (let u : R × (Mdns × S) = if b then w else v in IsPorted u.1.0)
  IsPorted-if true w v e f = e refl
  IsPorted-if false w v e f = f

  IsPorted-add_service :
      (service proto : Option Bytes) (port : ℕ) (m : Mdns) (s : S)
      → IsPorted m
      → IsPorted (add_service avahi service proto port (m, s)).1.0
  unfolding add_service
  IsPorted-add_service service proto port m s e =
      let m' = advertise (text_of service) (text_of proto) port m in
      IsPorted-if (is_given service && is_given proto && not (port == 0))
        (publish avahi m.instance_name (text_of service) (text_of proto) port (m', s))
        (false, (m, s))
        (λ g. IsPorted-publish m.instance_name (text_of service) (text_of proto) port m' s (
          no_zero-append m.advertised_services _ e
            (given_port (is_given service) (is_given proto) port g)))
        e

  republished :
      (o : Option (AdvertisedService × List AdvertisedService)) (m : Mdns) (s : S)
      → no_zero_found o ≡ true
      → IsPorted m
      → (let u : Bool × (Mdns × S) = elim o [
        | some r ↦ (true, republish avahi r.0 (record m { advertised_services = r.1 }, s))
        | none ↦ (false, (m, s))
      ] in
          IsPorted u.1.0)
  republished none m s e f = f
  republished (some r) m s e f =
      IsPorted-publish r.0.name r.0.type r.0.proto r.0.port (record m { advertised_services = r.1 })
        s e

  IsPorted-add_service_txt :
      (service proto k v : Option Bytes) (m : Mdns) (s : S)
      → IsPorted m
      → IsPorted (add_service_txt avahi service proto k v (m, s)).1.0
  unfolding add_service_txt
  IsPorted-add_service_txt service proto k v m s e =
      let o =
        set_txt (text_of service) (text_of proto) (text_of k) (text_of v) m.advertised_services in
      IsPorted-if (is_given service && is_given proto && is_given k && is_given v) _ (false, (m, s))
        (λ g.
          republished o m s
            (no_zero-set_txt (text_of service) (text_of proto) (text_of k) (text_of v)
              m.advertised_services e)
            e)
        e

  IsPorted-pair :
      (b : Bool) (w v : Mdns × S)
      → IsPorted w.0
      → IsPorted v.0
      → (let u : Mdns × S = if b then w else v in IsPorted u.0)
  IsPorted-pair true w v e f = e
  IsPorted-pair false w v e f = f

  IsPorted-add_items :
      (service proto : Option Bytes) (items : List (Option Bytes × Option Bytes)) (w : Mdns × S)
      → IsPorted w.0
      → IsPorted (add_items avahi service proto items w).0
  unfolding add_items
  IsPorted-add_items service proto [] w e = e
  IsPorted-add_items service proto (i ∷ is) (m, s) e =
      let added = (add_service_txt avahi service proto i.0 i.1 (m, s)).1 in
      IsPorted-add_items service proto is (if is_given i.0 && is_given i.1 then added else (m, s)) (
        IsPorted-pair (is_given i.0 && is_given i.1) added (m, s)
          (IsPorted-add_service_txt service proto i.0 i.1 m s e) e)

  IsPorted-run_call :
      (c : Call) (m : Mdns) (s : S) → IsPorted m → IsPorted (run_call avahi c (m, s)).0
  unfolding mdns_service_add mdns_service_txt_set mdns_service_remove disable_arduino enable_arduino
  IsPorted-run_call (add service proto port items) m s e =
      let (ok, w) = add_service avahi service proto port (m, s) in
      let kept = IsPorted-add_service service proto port m s e in
      IsPorted-if (not (is_given service) || not (is_given proto)) (esp_err_invalid_arg, (m, s)) _
        (λ g. e)
        (IsPorted-if ok (esp_ok, add_items avahi service proto items w) (esp_err_invalid_state, w)
          (λ g. IsPorted-add_items service proto items w kept) kept)
  IsPorted-run_call (set_record service proto k v) m s e =
      IsPorted-if (is_given service && is_given proto && is_given k && is_given v)
        (esp_ok, (add_service_txt avahi service proto k v (m, s)).1) (esp_err_invalid_arg, (m, s))
        (λ g. IsPorted-add_service_txt service proto k v m s e) e
  IsPorted-run_call (remove service proto) m s e =
      ap (λ r. no_zero r.1.advertised_services) (mdns_service_remove-fails service proto m e) ∙ e
  IsPorted-run_call (remove_at service proto port) m s e =
      IsPorted-remove_service service proto port m e
  IsPorted-run_call (enable port) m s e =
      let (m', s') = (add_service avahi (some (codes "http")) (some (codes "tcp")) port (m, s)).1 in
      IsPorted-add_service_txt (some (codes "http")) (some (codes "tcp")) (some (codes "service"))
        (some (codes "arduino")) m' s'
        (IsPorted-add_service (some (codes "http")) (some (codes "tcp")) port m s e)
  IsPorted-run_call disable m s e =
      IsPorted-remove_service (some (codes "http")) (some (codes "tcp")) 3232 m e

  IsPorted-run_calls :
      (cs : List Call) (w : Mdns × S) → IsPorted w.0 → IsPorted (run_calls avahi cs w).0
  IsPorted-run_calls [] w e = e
  IsPorted-run_calls (c ∷ cs) (m, s) e =
      IsPorted-run_calls cs (run_call avahi c (m, s)) (IsPorted-run_call c m s e)

  -- After any calls of the C interface and of MDNSResponder that announce services, set their TXT
  -- records and withdraw them, mdns_service_remove() reports an error and changes nothing.
  pub mdns_service_remove-run_calls :
      (cs : List Call) (s : S) (service proto : Option Bytes)
      → mdns_service_remove service proto (run_calls avahi cs (new_mdns, s)).0
        ≡ (refusal service proto, (run_calls avahi cs (new_mdns, s)).0)
  unfolding new_mdns
  mdns_service_remove-run_calls cs s service proto =
      mdns_service_remove-fails service proto (run_calls avahi cs (new_mdns, s)).0
        (IsPorted-run_calls cs (new_mdns, s) refl)
