-- ===== src/Mdns/Responder.antt =====
-- The state of MDNSResponder, and its use of the Avahi client (ESPmDNS.cpp: _initAvahi(),
-- _cleanupAvahi(), _pumpAvahi(), client_callback()). The functions of Avahi are the parameter Avahi;
-- S is their state.
use epoxy_duino.Base.{
  ℕ, zero, suc, Bool, true, false, ◌||◌, if◌then◌else◌, ◌==◌, List, [], ◌∷◌, Option, none, some,
}
use epoxy_duino.Base.Text.{Bytes}
use epoxy_duino.Mdns.Maps.{TextMap}
use epoxy_duino.Mdns.Search.{
  MdnsService, Found, Search, BrowserEvent, async_browse_callback, async_resolve_callback,
}

-- A callback that Avahi runs. A browser and a resolver carry the handle of their search; the answer
-- of avahi_service_resolver_new() to a new service comes with it.
pub data AvahiEvent : Type 0 where
  browser_event : ℕ → BrowserEvent → Bool → AvahiEvent
  resolver_event : ℕ → Option Found → AvahiEvent
  client_failed : AvahiEvent

pub record Avahi (S : Type 0) : Type 0 where
  pub simple_poll_new : S → Bool × S
  pub simple_poll_free : S → S
  -- runs for at most so many milliseconds
  pub simple_poll_iterate : ℕ → S → List AvahiEvent × S
  pub client_new : S → Bool × S
  pub client_free : S → S
  pub client_running : S → Bool
  pub entry_group_new : S → Bool × S
  pub entry_group_reset : S → S
  pub entry_group_free : S → S
  -- name, type, port and TXT list; whether the result is not negative
  pub entry_group_add_service : Bytes → Bytes → ℕ → List Bytes → S → Bool × S
  pub entry_group_commit : S → Bool × S
  -- type, and the handle of the search
  pub service_browser_new : Bytes → ℕ → S → Bool × S
  pub service_browser_free : ℕ → S → S

-- _avahi_client: null, a client, or a client that its callback has freed
pub data Client : Type 0 where
  absent present freed : Client

pub record AdvertisedService : Type 0 where
  pub name : Bytes
  pub type : Bytes
  pub proto : Bytes
  pub port : ℕ
  pub txt_records : TextMap

-- `wild` stands for undefined behaviour: memory was used after it was freed. The other pointers to
-- Avahi's objects are there or not; _avahi_browser is always null.
pub record Mdns : Type 0 where
  pub hostname : Bytes
  pub instance_name : Bytes
  pub mock_services : List (Bytes × List MdnsService)
  pub advertised_services : List AdvertisedService
  pub query_results : List MdnsService
  pub avahi_client : Client
  pub has_group : Bool
  pub has_poll : Bool
  pub active_queries : List (ℕ × Search)
  pub yield_registered : Bool
  pub wild : Bool

unfoldable pub new_mdns : Mdns
new_mdns = record {
  hostname = [];
  instance_name = [];
  mock_services = [];
  advertised_services = [];
  query_results = [];
  avahi_client = absent;
  has_group = false;
  has_poll = false;
  active_queries = [];
  yield_registered = false;
  wild = false;
}

unfoldable set_instance_name : Bytes → Mdns → Mdns
set_instance_name name m = record m { instance_name = name }

abbrev pub has_client : Mdns → Bool
has_client m = elim m.avahi_client [ absent ↦ false | _ ↦ true ]

abbrev pub is_freed : Mdns → Bool
is_freed m = elim m.avahi_client [ freed ↦ true | _ ↦ false ]

-- a use of the client, or of an object that is freed with it
abbrev pub touch_client : Mdns → Mdns
touch_client m = record m { wild = m.wild || is_freed m }

unfoldable pub find_search : ℕ → List (ℕ × Search) → Option Search
find_search h [] = none
find_search h (e ∷ es) = let rest = find_search h es in if e.0 == h then some e.1 else rest

-- the search behind a handle changes
unfoldable pub set_search : ℕ → Search → List (ℕ × Search) → List (ℕ × Search)
set_search h s [] = []
set_search h s (e ∷ es) =
    let rest = set_search h s es in if e.0 == h then (e.0, s) ∷ es else e ∷ rest

-- a callback on the search that it carries, which may have been deleted
abbrev pub on_search : ℕ → (Search → Search) → Mdns → Mdns
on_search h f m = elim (find_search h m.active_queries) [
  | some s ↦ record m { active_queries = set_search h (f s) m.active_queries }
  | none ↦ record m { wild = true }
]

unfoldable pub run_callback : AvahiEvent → Mdns → Mdns
run_callback (browser_event h event created) m = on_search h (async_browse_callback event created) m
run_callback (resolver_event h found) m = on_search h (async_resolve_callback found) m
run_callback client_failed m = record m { avahi_client = freed }

unfoldable pub run_callbacks : List AvahiEvent → Mdns → Mdns
run_callbacks [] m = m
run_callbacks (e ∷ es) m = run_callbacks es (run_callback e m)

module _ {S : Type 0} (avahi : Avahi S) where
  unfoldable pub pump_avahi : ℕ → Mdns × S → Mdns × S
  pump_avahi timeout (m, s) =
      let (events, s') = avahi.simple_poll_iterate timeout s in
      if m.has_poll then (run_callbacks events m, s') else (m, s)

  -- The loops that wait for the client, with the rounds that are left.
  unfoldable pub wait_running : ℕ → Mdns × S → Mdns × S
  unfolding pump_avahi
  wait_running zero w = w
  wait_running (suc n) (m, s) =
      let later = wait_running n (pump_avahi 10 (touch_client m, s)) in
      if avahi.client_running s then (touch_client m, s) else later

  abbrev pub init_client : Mdns × S → Bool × (Mdns × S)
  init_client (m, s) =
      let (ok, s') = avahi.client_new s in
      let ready = wait_running 50 (record m { avahi_client = present }, s') in
      if ok
      then (true, ready)
      else (false, (record m { has_poll = false }, avahi.simple_poll_free s'))

  unfoldable pub init_avahi : Mdns × S → Bool × (Mdns × S)
  unfolding wait_running
  init_avahi (m, s) =
      let (ok, s') = avahi.simple_poll_new s in
      let result = init_client (record m { has_poll = true }, s') in
      if has_client m
      then (true, (m, s))
      else if ok
      then result
      else (false, (record m { has_poll = false }, s'))

  abbrev free_group : Mdns × S → Mdns × S
  free_group (m, s) =
      if m.has_group
      then (record (touch_client m) { has_group = false }, avahi.entry_group_free s)
      else (m, s)

  abbrev free_client : Mdns × S → Mdns × S
  free_client (m, s) =
      if has_client m
      then (record (touch_client m) { avahi_client = absent }, avahi.client_free s)
      else (m, s)

  abbrev free_poll : Mdns × S → Mdns × S
  free_poll (m, s) =
      if m.has_poll then (record m { has_poll = false }, avahi.simple_poll_free s) else (m, s)

  unfoldable pub cleanup_avahi : Mdns × S → Mdns × S
  cleanup_avahi w = free_poll (free_client (free_group w))

  unfoldable pub begin_responder : Bytes → Mdns × S → Bool × (Mdns × S)
  unfolding init_avahi
  begin_responder host (m, s) =
      let named : Bytes = elim m.instance_name [ [] ↦ host | _ ∷ _ ↦ m.instance_name ] in
      init_avahi (record m { hostname = host; instance_name = named }, s)
