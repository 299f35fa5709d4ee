-- ===== src/Mdns/Async.antt =====
-- Queries that do not wait (ESPmDNS.cpp: beginAsyncQuery(), deleteAsyncQuery(), serviceAsyncQueries(),
-- end(), the destructor and the C interface). A handle is an address; the
-- map is in their order. A notifier that is called is its number and the handle: what it does comes
-- after the function that calls it.
pub mod Poll
pub mod Handles
pub mod Runs
pub mod Counts
pub mod Sound
pub mod Notices
pub mod Tracked
pub mod Delivered
pub mod Rounds
pub mod Answers
mod Tests
use epoxy_duino.Base.{
  ℕ, ◌+◌, ◌-◌, ◌%◌, ◌^◌, Bool, true, false, not, ◌&&◌, ◌||◌, if◌then◌else◌, ltb, leb, ◌==◌, List,
  [], ◌∷◌, ◌++◌, Option, none, some,
}
use epoxy_duino.Base.Text.{Bytes}
use epoxy_duino.Mdns.Search.{Search, is_full, text_of}
use epoxy_duino.Mdns.Responder.{
  Avahi, Mdns, touch_client, find_search, set_search, pump_avahi, init_avahi, cleanup_avahi,
}
use epoxy_duino.Mdns.Advertise.{is_given, unpublish}
use epoxy_duino.Mdns.Advertise.Api.{EspErr, esp_ok, esp_err_invalid_arg}

-- `now` is what millis() reads.
unfoldable pub is_search_complete : ℕ → Search → Bool
is_search_complete now s =
    s.all_for_now && s.outstanding_resolvers == 0
    || is_full s && s.outstanding_resolvers == 0
    || ltb 0 s.timeout_ms && leb s.timeout_ms ((now + 2 ^ 32 - s.start_ms) % 2 ^ 32)

-- a notifier and the handle it is called with
abbrev pub Notice : Type 0
Notice = ℕ × ℕ

abbrev pub notices_of : ℕ → Option ℕ → List Notice
notices_of h none = []
notices_of h (some f) = (f, h) ∷ []

-- A search that is complete is marked, and its notifier called.
abbrev pub notify : ℕ → Search → List Notice × Search
notify h s = if s.notified then ([], s) else (notices_of h s.notifier, record s { notified = true })

unfoldable pub service_search : ℕ → ℕ → Search → List Notice × Search
unfolding is_search_complete
service_search now h s = if is_search_complete now s then notify h s else ([], s)

-- The loop of serviceAsyncQueries(); `clock` is what millis() reads at the search of a handle.
unfoldable pub service_searches : (ℕ → ℕ) → List (ℕ × Search) → List Notice × List (ℕ × Search)
unfolding service_search
service_searches clock [] = ([], [])
service_searches clock ((h, s) ∷ es) =
    let (calls, s') = service_search (clock h) h s in
    let (more, es') = service_searches clock es in (calls ++ more, (h, s') ∷ es')

-- std::map: a new entry takes its place by its address
unfoldable pub insert_search : ℕ → Search → List (ℕ × Search) → List (ℕ × Search)
insert_search h s [] = (h, s) ∷ []
insert_search h s (e ∷ es) =
    let rest = insert_search h s es in
    if e.0 == h then (h, s) ∷ es else if ltb h e.0 then (h, s) ∷ e ∷ es else e ∷ rest

-- the entry of a handle goes; a map has one at most
unfoldable pub erase_search : ℕ → List (ℕ × Search) → List (ℕ × Search)
erase_search h [] = []
erase_search h (e ∷ es) = let rest = erase_search h es in if e.0 == h then rest else e ∷ rest

-- the search of beginAsyncQuery(); a browser that is not created ends it
abbrev pub new_search : ℕ → ℕ → ℕ → Option ℕ → Bool → Search
new_search now timeout limit f created = record {
  browsing = created;
  results = [];
  all_for_now = not created;
  outstanding_resolvers = 0;
  failed = not created;
  notified = false;
  start_ms = now % 2 ^ 32;
  timeout_ms = timeout;
  max_results = limit;
  notifier = f;
}

abbrev pub add_query : ℕ → Search → Mdns → Mdns
add_query h s m = record m { active_queries = insert_search h s m.active_queries }

-- _registerYieldService(); `answer` is what epoxyRegisterYieldServiceCallback() answers.
abbrev pub register_service : Bool → Mdns → Mdns
register_service answer m = if m.yield_registered then m else record m { yield_registered = answer }

-- _unregisterYieldService(), with whether it calls epoxyUnregisterYieldServiceCallback()
abbrev unregister_service : Mdns → Bool × Mdns
unregister_service m = (m.yield_registered, record m { yield_registered = false })

module _ {S : Type 0} (avahi : Avahi S) where
  unfoldable pub service_async_queries : (ℕ → ℕ) → Mdns × S → List Notice × (Mdns × S)
  unfolding service_searches pump_avahi
  service_async_queries clock (m, s) =
      let (m', s') = pump_avahi avahi 0 (m, s) in
      let (calls, es) = service_searches clock m'.active_queries in
      elim m.active_queries [
        | [] ↦ ([], (m, s))
        | _ ∷ _ ↦ (calls, (record m' { active_queries = es }, s'))
      ]

  abbrev destroy_search : Search → Mdns × S → (ℕ → S → S) → ℕ → Mdns × S
  destroy_search search (m, s) free h =
      if search.browsing then (touch_client m, free h s) else (m, s)

  abbrev pub query_on : ℕ → Bool → ℕ → Bytes → ℕ → ℕ → Option ℕ → Mdns × S → Mdns × S
  query_on now answer h type timeout limit f (m, s) =
      let (created, s') = avahi.service_browser_new type h s in
      (
        register_service answer
            (add_query h (new_search now timeout limit f created) (touch_client m)),
        s',
      )

  -- `handle` is the address that new answers.
  unfoldable pub begin_async_query :
      ℕ
      → Bool
      → ℕ
      → Option Bytes
      → Option Bytes
      → ℕ
      → ℕ
      → Option ℕ
      → Mdns × S
      → Option ℕ × (Mdns × S)
  unfolding init_avahi insert_search
  begin_async_query now answer handle service proto timeout limit f w =
      let (ok, w') = init_avahi avahi w in
      let type = text_of service ++ b'.' ∷ text_of proto in
      let started = query_on now answer handle type timeout limit f w' in
      if not (is_given service) || not (is_given proto)
      then (none, w)
      else if ok
      then (some handle, started)
      else (none, w')

  -- A handle is freed: twice, where it has no search any more.
  unfoldable pub delete_async_query : ℕ → Mdns × S → Mdns × S
  unfolding find_search erase_search
  delete_async_query h (m, s) = elim (find_search h m.active_queries) [
    | some search ↦
        destroy_search search (record m { active_queries = erase_search h m.active_queries }, s)
          avahi.service_browser_free h
    | none ↦ (record m { wild = true }, s)
  ]

  -- the loop of end() over the searches
  unfoldable destroy_all : List (ℕ × Search) → Mdns × S → Mdns × S
  destroy_all [] w = w
  destroy_all ((h, search) ∷ es) w =
      destroy_all es (destroy_search search w avahi.service_browser_free h)

  unfoldable end_responder : Mdns × S → Mdns × S
  unfolding destroy_all unpublish cleanup_avahi
  end_responder (m, s) =
      let (m₁, s₁) = destroy_all m.active_queries (m, s) in
      let (m₂, s₂) =
        cleanup_avahi avahi (unpublish avahi (record m₁ { active_queries = [] }, s₁)) in
      (record m₂ { hostname = []; advertised_services = []; query_results = [] }, s₂)

  -- the destructor, with whether it unregisters the service
  unfoldable destroy_responder : Mdns × S → Bool × (Mdns × S)
  unfolding end_responder
  destroy_responder w =
      let (m, s) = end_responder w in let (called, m') = unregister_service m in (called, (m', s))

  unfoldable mdns_query_async_new :
      ℕ
      → Bool
      → ℕ
      → Option Bytes
      → Option Bytes
      → ℕ
      → ℕ
      → Option ℕ
      → Mdns × S
      → Option ℕ × (Mdns × S)
  unfolding begin_async_query
  mdns_query_async_new now answer handle service proto timeout limit f w =
      let result = begin_async_query now answer handle service proto timeout limit f w in
      if not (is_given service) || not (is_given proto) then (none, w) else result

  -- mdns_query_async_delete(); a null handle is `none`
  unfoldable mdns_query_async_delete : Option ℕ → Mdns × S → EspErr × (Mdns × S)
  unfolding delete_async_query
  mdns_query_async_delete none w = (esp_err_invalid_arg, w)
  mdns_query_async_delete (some h) w = (esp_ok, delete_async_query h w)
