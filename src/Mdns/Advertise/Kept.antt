-- ===== src/Mdns/Advertise/Kept.antt =====
-- What the calls of Avahi leave alone: the services that the responder of ESPmDNS.cpp has to announce.
use epoxy_duino.Base.{
  ℕ, zero, suc, ◌≡◌, refl, ◌∙◌, Bool, true, false, not, if◌then◌else◌, List, [], ◌∷◌, Option-cases,
  inl, inr,
}
use epoxy_duino.Base.Text.{Bytes}
use epoxy_duino.Mdns.Search.{Search}
use epoxy_duino.Mdns.Responder.{
  Avahi, AdvertisedService, AvahiEvent, browser_event, resolver_event, client_failed, Mdns,
  run_callback, run_callbacks, on_search, touch_client, has_client, pump_avahi, wait_running,
  init_avahi, init_client, find_search, present,
}
use epoxy_duino.Mdns.Advertise.{dns_type, txt_of, fresh_group, add_entry, publish_running, publish}

-- the services of the first, or of the second
advertised-if :
    {S : Type 0} (b : Bool) (w v : Mdns × S) (l : List AdvertisedService)
    → w.0.advertised_services ≡ l
    → v.0.advertised_services ≡ l
    → (let u : Mdns × S = if b then w else v in u.0.advertised_services ≡ l)
advertised-if true w v l e f = e
advertised-if false w v l e f = f

advertised-if_result :
    {S : Type 0} (b : Bool) (w v : Bool × (Mdns × S)) (l : List AdvertisedService)
    → w.1.0.advertised_services ≡ l
    → v.1.0.advertised_services ≡ l
    → (let u : Bool × (Mdns × S) = if b then w else v in u.1.0.advertised_services ≡ l)
advertised-if_result true w v l e f = e
advertised-if_result false w v l e f = f

advertised-on_search :
    (h : ℕ) (f : Search → Search) (m : Mdns)
    → (on_search h f m).advertised_services ≡ m.advertised_services
advertised-on_search h f m = elim (Option-cases (find_search h m.active_queries)) [
  | inl e ↦ rw (on_search, e) refl
  | inr (q, e) ↦ rw (on_search, e) refl
]

advertised-run_callback :
    (e : AvahiEvent) (m : Mdns) → (run_callback e m).advertised_services ≡ m.advertised_services
unfolding run_callback
advertised-run_callback (browser_event h event created) m = advertised-on_search h _ m
advertised-run_callback (resolver_event h found) m = advertised-on_search h _ m
advertised-run_callback client_failed m = refl

advertised-run_callbacks :
    (es : List AvahiEvent) (m : Mdns)
    → (run_callbacks es m).advertised_services ≡ m.advertised_services
unfolding run_callbacks
advertised-run_callbacks [] m = refl
advertised-run_callbacks (e ∷ es) m =
    advertised-run_callbacks es (run_callback e m) ∙ advertised-run_callback e m

module _ {S : Type 0} (avahi : Avahi S) where
  advertised-pump_avahi :
      (n : ℕ) (m : Mdns) (s : S)
      → (pump_avahi avahi n (m, s)).0.advertised_services ≡ m.advertised_services
  unfolding pump_avahi
  advertised-pump_avahi n m s =
      advertised-if m.has_poll
        (run_callbacks (avahi.simple_poll_iterate n s).0 m, (avahi.simple_poll_iterate n s).1)
        (m, s) m.advertised_services (advertised-run_callbacks (avahi.simple_poll_iterate n s).0 m)
        refl

  pub advertised-wait_running :
      (n : ℕ) (m : Mdns) (s : S)
      → (wait_running avahi n (m, s)).0.advertised_services ≡ m.advertised_services
  unfolding wait_running
  advertised-wait_running zero m s = refl
  advertised-wait_running (suc n) m s =
      let (m', s') = pump_avahi avahi 10 (touch_client m, s) in
      advertised-if (avahi.client_running s) (touch_client m, s) (wait_running avahi n (m', s'))
        m.advertised_services refl
        (advertised-wait_running n m' s' ∙ advertised-pump_avahi 10 (touch_client m) s)

  advertised-init_client :
      (m : Mdns) (s : S)
      → (init_client avahi (m, s)).1.0.advertised_services ≡ m.advertised_services
  advertised-init_client m s =
      let (ok, s') = avahi.client_new s in
      let m' : Mdns = record m { avahi_client = present } in
      advertised-if_result ok (true, wait_running avahi 50 (m', s'))
        (false, (record m { has_poll = false }, avahi.simple_poll_free s')) m.advertised_services
        (advertised-wait_running 50 m' s') refl

  pub advertised-init_avahi :
      (m : Mdns) (s : S) → (init_avahi avahi (m, s)).1.0.advertised_services ≡ m.advertised_services
  unfolding init_avahi
  advertised-init_avahi m s =
      let (ok, s') = avahi.simple_poll_new s in
      let m' : Mdns = record m { has_poll = true } in
      let made : Bool × (Mdns × S) =
        if ok then init_client avahi (m', s') else (false, (record m { has_poll = false }, s')) in
      advertised-if_result (has_client m) (true, (m, s)) made m.advertised_services refl
        (advertised-if_result ok (init_client avahi (m', s'))
          (false, (record m { has_poll = false }, s')) m.advertised_services
          (advertised-init_client m' s') refl)

  advertised-fresh_group :
      (m : Mdns) (s : S)
      → (fresh_group avahi (m, s)).1.0.advertised_services ≡ m.advertised_services
  advertised-fresh_group m s =
      let (ok, s') = avahi.entry_group_new s in
      advertised-if_result m.has_group (true, (m, avahi.entry_group_reset s))
        (ok, (record m { has_group = ok }, s')) m.advertised_services refl refl

  advertised-add_entry :
      (name service proto : Bytes) (port : ℕ) (m : Mdns) (s : S)
      → (add_entry avahi name service proto port (m, s)).1.0.advertised_services
        ≡ m.advertised_services
  advertised-add_entry name service proto port m s =
      let (ok, s') =
        avahi.entry_group_add_service name (dns_type service proto) port
          (txt_of service proto port m.advertised_services) s in
      let (done, s'') = avahi.entry_group_commit s' in
      advertised-if_result ok (done, (m, s''))
        (false, (record m { has_group = false }, avahi.entry_group_free s')) m.advertised_services
        refl refl

  advertised-publish_running :
      (name service proto : Bytes) (port : ℕ) (m : Mdns) (s : S)
      → (publish_running avahi name service proto port (m, s)).1.0.advertised_services
        ≡ m.advertised_services
  advertised-publish_running name service proto port m s =
      let (ok, (m', s')) = fresh_group avahi (m, s) in
      advertised-if_result ok (add_entry avahi name service proto port (m', s')) (false, (m', s'))
        m.advertised_services
        (advertised-add_entry name service proto port m' s' ∙ advertised-fresh_group m s)
        (advertised-fresh_group m s)

  pub advertised-publish :
      (name service proto : Bytes) (port : ℕ) (m : Mdns) (s : S)
      → (publish avahi name service proto port (m, s)).1.0.advertised_services
        ≡ m.advertised_services
  unfolding publish
  advertised-publish name service proto port m s =
      let (ok, (m₁, s₁)) = init_avahi avahi (m, s) in
      let (m', s₂) = wait_running avahi 20 (m₁, s₁) in
      let m₂ = touch_client m' in
      let result = publish_running avahi name service proto port (m₂, s₂) in
      let kept = advertised-init_avahi m s in
      let kept' = advertised-wait_running 20 m₁ s₁ ∙ kept in
      let chosen : Bool × (Mdns × S) =
        if avahi.client_running s₂ then result else (false, (m₂, s₂)) in
      advertised-if_result (not ok) (false, (m₁, s₁)) chosen m.advertised_services kept
        (advertised-if_result (avahi.client_running s₂) result (false, (m₂, s₂))
          m.advertised_services (advertised-publish_running name service proto port m₂ s₂ ∙ kept')
          kept')
