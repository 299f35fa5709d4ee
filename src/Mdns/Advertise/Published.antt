-- ===== src/Mdns/Advertise/Published.antt =====
-- What the network sees of the services that are added to the responder of ESPmDNS.cpp.
use epoxy_duino.Base.{
  ℕ, ◌≡◌, refl, ap, ◌∙◌, Bool, true, false, not, if◌then◌else◌, ◌==◌, List, [], ◌∷◌, ◌++◌, some,
}
use epoxy_duino.Base.Text.{Bytes}
use epoxy_duino.Mdns.Responder.{
  touch_client, Avahi, AdvertisedService, Mdns, has_client, wait_running, init_avahi, init_client,
}
use epoxy_duino.Mdns.Advertise.{
  dns_type, txt_of, fresh_group, add_entry, publish, advertise, add_service,
}
use epoxy_duino.Mdns.Advertise.Kept.{advertised-init_avahi, advertised-wait_running}

-- name, type, port and TXT list
abbrev pub Entry : Type 0
Entry = Bytes × Bytes × ℕ × List Bytes

-- A daemon that runs, and calls that succeed: a group that is new or reset is empty, an entry that is
-- added stands behind the others, and a commit publishes the group.
pub record Works {S : Type 0} (avahi : Avahi S) : Type 0 where
  pub group : S → List Entry
  pub published : S → List Entry
  pub makes_poll : (s : S) → (avahi.simple_poll_new s).0 ≡ true
  pub makes_client : (s : S) → (avahi.client_new s).0 ≡ true
  pub runs : (s : S) → avahi.client_running s ≡ true
  pub makes_group : (s : S) → (avahi.entry_group_new s).0 ≡ true
  pub new_group : (s : S) → group (avahi.entry_group_new s).1 ≡ []
  pub reset_group : (s : S) → group (avahi.entry_group_reset s) ≡ []
  pub adds :
      (name type : Bytes) (port : ℕ) (txt : List Bytes) (s : S)
      → (avahi.entry_group_add_service name type port txt s).0 ≡ true
  pub added :
      (name type : Bytes) (port : ℕ) (txt : List Bytes) (s : S)
      → group (avahi.entry_group_add_service name type port txt s).1
        ≡ group s ++ (name, type, port, txt) ∷ []
  pub commits : (s : S) → (avahi.entry_group_commit s).0 ≡ true
  pub committed : (s : S) → published (avahi.entry_group_commit s).1 ≡ group s

-- A predicate of the result of a test: of both, of the first, of the second.
module _ {A : Type 0} (P : A → Type 0) where
  of_both : (b : Bool) (x y : A) → P x → P y → P (if b then x else y)
  of_both true x y p q = p
  of_both false x y p q = q

  of_first : (b : Bool) (x y : A) → b ≡ true → P x → P (if b then x else y)
  of_first b x y e p = rw e p

  of_second : (b : Bool) (x y : A) → b ≡ true → P y → P (if not b then x else y)
  of_second b x y e p = rw e p

module _ {S : Type 0} (avahi : Avahi S) (works : Works avahi) where
  abbrev IsDone : Bool × (Mdns × S) → Type 0
  IsDone r = r.0 ≡ true

  init_avahi-true : (m : Mdns) (s : S) → IsDone (init_avahi avahi (m, s))
  unfolding init_avahi
  init_avahi-true m s =
      let (ok, s') = avahi.simple_poll_new s in
      let m' : Mdns = record m { has_poll = true } in
      let failed : Bool × (Mdns × S) = (false, (record m { has_poll = false }, s')) in
      of_both IsDone (has_client m) (true, (m, s)) _ refl
        (of_first IsDone ok (init_client avahi (m', s')) failed (works.makes_poll s)
          (of_first IsDone (avahi.client_new s').0 _ _ (works.makes_client s') refl))

  -- A group that is empty, and the services as before.
  abbrev IsFresh : List AdvertisedService → Bool × (Mdns × S) → Type 0
  IsFresh l r = IsDone r × (works.group r.1.1 ≡ []) × (r.1.0.advertised_services ≡ l)

  fresh_group-IsFresh :
      (m : Mdns) (s : S) → IsFresh m.advertised_services (fresh_group avahi (m, s))
  fresh_group-IsFresh m s =
      of_both (IsFresh m.advertised_services) m.has_group _ _ (refl, works.reset_group s, refl)
        (works.makes_group s, works.new_group s, refl)

  -- It succeeds, and the network sees these entries.
  abbrev pub Shows : List Entry → Bool × (Mdns × S) → Type 0
  Shows es r = IsDone r × (works.published r.1.1 ≡ es)

  add_entry-Shows :
      (name service proto : Bytes) (port : ℕ) (m : Mdns) (s : S) (l : List AdvertisedService)
      → works.group s ≡ []
      → m.advertised_services ≡ l
      → Shows
          ((name, dns_type service proto, port, txt_of service proto port l) ∷ [])
          (add_entry avahi name service proto port (m, s))
  add_entry-Shows name service proto port m s l e f =
      let txt = txt_of service proto port m.advertised_services in
      let (ok, s') = avahi.entry_group_add_service name (dns_type service proto) port txt s in
      of_first (Shows ((name, dns_type service proto, port, txt_of service proto port l) ∷ [])) ok _
        _ (works.adds name (dns_type service proto) port txt s)
        (
          works.commits s',
          works.committed s'
              ∙ works.added name (dns_type service proto) port txt s
              ∙ ap (λ g. g ++ (name, dns_type service proto, port, txt) ∷ []) e
              ∙ ap (λ l. (name, dns_type service proto, port, txt_of service proto port l) ∷ []) f,
        )

  publish-Shows :
      (name service proto : Bytes) (port : ℕ) (m : Mdns) (s : S)
      → Shows
          ((name, dns_type service proto, port, txt_of service proto port m.advertised_services)
            ∷ [])
          (publish avahi name service proto port (m, s))
  unfolding publish
  publish-Shows name service proto port m s =
      let (m₁, s₁) = (init_avahi avahi (m, s)).1 in
      let (m', s₂) = wait_running avahi 20 (m₁, s₁) in
      let m₂ = touch_client m' in
      let (m₃, s₃) = (fresh_group avahi (m₂, s₂)).1 in
      let kept = advertised-wait_running avahi 20 m₁ s₁ ∙ advertised-init_avahi avahi m s in
      let (made, empty, kept') = fresh_group-IsFresh m₂ s₂ in
      let P = Shows (
        (name, dns_type service proto, port, txt_of service proto port m.advertised_services)
        ∷ []) in
      of_second P (init_avahi avahi (m, s)).0 _ _ (init_avahi-true m s) (
        of_first P (avahi.client_running s₂) _ _ (works.runs s₂) (
          of_first P (fresh_group avahi (m₂, s₂)).0 _ _ made (
            add_entry-Shows name service proto port m₃ s₃ m.advertised_services empty
              (kept' ∙ kept))))

  -- Where Avahi works, addService() of a service with a port other than 0 succeeds, and what the
  -- network then sees is this service alone, whatever was announced before: with the instance name,
  -- the type, the port, and the TXT records of the first service announced with this type and port.
  pub add_service-Shows :
      (service proto : Bytes) (port : ℕ) (m : Mdns) (s : S)
      → (port == 0) ≡ false
      → Shows
          ((
            m.instance_name,
            dns_type service proto,
            port,
            txt_of service proto port (advertise service proto port m).advertised_services,
          )
            ∷ [])
          (add_service avahi (some service) (some proto) port (m, s))
  unfolding add_service
  add_service-Shows service proto port m s e =
      rw e (publish-Shows m.instance_name service proto port (advertise service proto port m) s)
