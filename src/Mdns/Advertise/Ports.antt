-- ===== src/Mdns/Advertise/Ports.antt =====
-- The ports of the services that the responder of ESPmDNS.cpp announces, over any calls.
use epoxy_duino.Base.{
  ℕ, ◌≡◌, refl, Bool, true, false, not, ◌&&◌, ◌||◌, if◌then◌else◌, ◌==◌, List, [], ◌∷◌, ◌++◌,
  Option, none, some, arith,
}
use epoxy_duino.Base.Text.{Bytes}
use epoxy_duino.Mdns.Responder.{AdvertisedService, Mdns}
use epoxy_duino.Mdns.Advertise.{
  is_given, is_advertised, same_type, set_txt, erase_service, remove_service,
}
use epoxy_duino.Mdns.Advertise.Api.{
  EspErr, esp_ok, esp_err_invalid_arg, esp_err_invalid_state, mdns_service_remove,
}

-- No service has the port 0.
abbrev pub no_zero : List AdvertisedService → Bool
no_zero [] = true
no_zero (a ∷ as') = not (a.port == 0) && no_zero as'

abbrev pub IsPorted : Mdns → Type 0
IsPorted m = no_zero m.advertised_services ≡ true

pub no_zero-append :
    (as' : List AdvertisedService) (a : AdvertisedService)
    → no_zero as' ≡ true
    → (a.port == 0) ≡ false
    → no_zero (as' ++ a ∷ []) ≡ true
no_zero-append [] a e f = ground arith
no_zero-append (b ∷ as') a e f = ground (arith, no_zero-append as' a)

erase-zero :
    (service proto : Bytes) (as' : List AdvertisedService)
    → no_zero as' ≡ true
    → erase_service service proto 0 as' ≡ none
unfolding erase_service
erase-zero service proto [] e = refl
erase-zero service proto (a ∷ as') e = ground (arith, erase-zero service proto as')

-- what a loop over the services leaves, where it finds one
abbrev no_zero_rest : Option (List AdvertisedService) → Bool
no_zero_rest none = true
no_zero_rest (some as') = no_zero as'

abbrev pub no_zero_found : Option (AdvertisedService × List AdvertisedService) → Bool
no_zero_found none = true
no_zero_found (some r) = no_zero r.1

-- Both loops: the test, the service in front, and the rest.
kept_rest :
    (b : Bool) (a : AdvertisedService) (as' : List AdvertisedService)
    (o : Option (List AdvertisedService))
    → no_zero (a ∷ as') ≡ true
    → no_zero_rest o ≡ true
    → no_zero_rest (if b then some as' else elim o [ some r ↦ some (a ∷ r) | none ↦ none ]) ≡ true
kept_rest true a as' o e f = ground arith
kept_rest false a as' none e f = refl
kept_rest false a as' (some r) e f = ground arith

kept_found :
    (b : Bool) (a a' : AdvertisedService) (as' : List AdvertisedService)
    (o : Option (AdvertisedService × List AdvertisedService))
    → a'.port ≡ a.port
    → no_zero (a ∷ as') ≡ true
    → no_zero_found o ≡ true
    → no_zero_found
        (if b then some (a', a' ∷ as') else elim o [ some r ↦ some (r.0, a ∷ r.1) | none ↦ none ])
      ≡ true
kept_found true a a' as' o p e f = ground arith
kept_found false a a' as' none p e f = refl
kept_found false a a' as' (some r) p e f = ground arith

no_zero-tail :
    (a : AdvertisedService) (as' : List AdvertisedService)
    → no_zero (a ∷ as') ≡ true
    → no_zero as' ≡ true
no_zero-tail a as' e = ground arith

no_zero-erase :
    (service proto : Bytes) (port : ℕ) (as' : List AdvertisedService)
    → no_zero as' ≡ true
    → no_zero_rest (erase_service service proto port as') ≡ true
unfolding erase_service
no_zero-erase service proto port [] e = refl
no_zero-erase service proto port (a ∷ as') e =
    kept_rest (is_advertised service proto port a) a as' (erase_service service proto port as') e
      (no_zero-erase service proto port as' (no_zero-tail a as' e))

pub no_zero-set_txt :
    (service proto k v : Bytes) (as' : List AdvertisedService)
    → no_zero as' ≡ true
    → no_zero_found (set_txt service proto k v as') ≡ true
unfolding set_txt
no_zero-set_txt service proto k v [] e = refl
no_zero-set_txt service proto k v (a ∷ as') e =
    kept_found (same_type service proto a) a _ as' (set_txt service proto k v as') refl e
      (no_zero-set_txt service proto k v as' (no_zero-tail a as' e))

pub IsPorted-remove_service :
    (service proto : Option Bytes) (port : ℕ) (m : Mdns)
    → IsPorted m
    → IsPorted (remove_service service proto port m).1
unfolding remove_service
IsPorted-remove_service none proto port m e = e
IsPorted-remove_service (some service) none port m e = e
IsPorted-remove_service (some service) (some proto) port m e =
    removed (erase_service service proto port m.advertised_services)
      (no_zero-erase service proto port m.advertised_services e)
  where
    removed :
        (o : Option (List AdvertisedService))
        → no_zero_rest o ≡ true
        → (let u : Bool × Mdns = elim o [
          | some r ↦ (true, record m { advertised_services = r })
          | none ↦ (false, m)
        ] in
            no_zero u.1.advertised_services ≡ true)
    removed none f = e
    removed (some r) f = f

-- mdns_service_remove() passes the port 0, which no service has.
remove-fails :
    (service proto : Option Bytes) (m : Mdns)
    → IsPorted m
    → remove_service service proto 0 m ≡ (false, m)
unfolding remove_service
remove-fails none proto m e = refl
remove-fails (some service) none m e = refl
remove-fails (some service) (some proto) m e =
    rw (remove_service, erase-zero service proto m.advertised_services e) refl

pub given_port : (a b : Bool) (port : ℕ) → (a && b && not (port == 0)) ≡ true → (port == 0) ≡ false
given_port a b port e = ground arith

-- what mdns_service_remove() answers
abbrev pub refusal : Option Bytes → Option Bytes → EspErr
refusal service proto =
    if not (is_given service) || not (is_given proto)
    then esp_err_invalid_arg
    else esp_err_invalid_state

pub mdns_service_remove-fails :
    (service proto : Option Bytes) (m : Mdns)
    → IsPorted m
    → mdns_service_remove service proto m ≡ (refusal service proto, m)
unfolding mdns_service_remove
mdns_service_remove-fails service proto m e =
    rw (mdns_service_remove, remove-fails service proto m e)
      (either_way (not (is_given service) || not (is_given proto)))
  where
    either_way :
        (b : Bool)
        → ◌≡◌ {A = EspErr × Mdns}
            (if b
              then (esp_err_invalid_arg, m)
              else if false
              then (esp_ok, m)
              else (esp_err_invalid_state, m))
            ((if b then esp_err_invalid_arg else esp_err_invalid_state), m)
    either_way true = refl
    either_way false = refl
