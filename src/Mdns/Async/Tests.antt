-- ===== src/Mdns/Async/Tests.antt =====
-- Runs of queries that do not wait (ESPmDNS.cpp).
use epoxy_duino.Base.{
  ℕ, ◌+◌, ◌≤◌, ◌≡◌, refl, if◌then◌else◌, arith, true, false, List, [], ◌∷◌, none, some,
}
use epoxy_duino.Base.Text.{Bytes, codes}
use epoxy_duino.Mdns.Search.{Search, Found, appeared, flushed, async_browse_callback}
use epoxy_duino.Mdns.Responder.{
  Avahi, AvahiEvent, browser_event, resolver_event, Mdns, new_mdns, find_search, set_search,
  run_callback, init_avahi, wait_running,
}
use epoxy_duino.Mdns.Results.{Allocation, to_results}
use epoxy_duino.Mdns.Async.{
  notices_of, Notice, new_search, add_query, insert_search, erase_search, query_on,
  delete_async_query, service_searches,
}
use epoxy_duino.Board.{Board, power_on}
use epoxy_duino.Board.Yield.{same_pointer, service_yield_callbacks}
use epoxy_duino.Board.Yield.Service.{on_service}
use epoxy_duino.Mdns.Served.{only, serve_queries, ask, Noticed, service_yield_callbacks-ask}
use epoxy_duino.Mdns.Async.Poll.{Answer, get_async_query_results}
use epoxy_duino.Mdns.Async.Runs.{browsed, served, begun, Steps, rest, next, IsSound}
use epoxy_duino.Mdns.Async.Sound.{Steps-IsSound}
use epoxy_duino.Mdns.Async.Notices.{Steps-calls, all_calls, all_begins, waiting}
use epoxy_duino.Mdns.Async.Answers.{get_async_query_results-add_all}
use epoxy_duino.Mdns.Async.Delivered.{founds}
use epoxy_duino.Mdns.Collected.{add_all}

-- A daemon that only has events to deliver.
abbrev daemon : Avahi (List AvahiEvent)
daemon = record {
  simple_poll_new = λ d. (true, d);
  simple_poll_free = λ d. d;
  simple_poll_iterate = λ n d. (d, []);
  client_new = λ d. (true, d);
  client_free = λ d. d;
  client_running = λ d. true;
  entry_group_new = λ d. (true, d);
  entry_group_reset = λ d. d;
  entry_group_free = λ d. d;
  entry_group_add_service = λ name type port txt d. (true, d);
  entry_group_commit = λ d. (true, d);
  service_browser_new = λ type h d. (true, d);
  service_browser_free = λ h d. d;
}

abbrev fresh : Search
fresh = new_search 100 1000 0 (some 3) true

abbrev type_7 : Bytes
type_7 = codes "_http._tcp"

-- A query with the handle 7, a service that it finds, and a round of the service after its timeout.
abbrev begun_7 : Mdns × List AvahiEvent
begun_7 = query_on daemon 100 true 7 type_7 1000 0 (some 3) (new_mdns, [])

abbrev found_7 : Mdns × List AvahiEvent
found_7 = (run_callback (browser_event 7 appeared true) begun_7.0, [])

abbrev late : ℕ → ℕ
late h = 2000

abbrev served_7 : Mdns × List AvahiEvent
served_7 =
    (record found_7.0 { active_queries = (service_searches late found_7.0.active_queries).1 }, [])

abbrev steps_7 : Steps daemon (new_mdns, []) [] served_7 (7 ∷ [])
unfolding find_search new_mdns insert_search
steps_7 =
    next (new_mdns, []) found_7 served_7 [] (7 ∷ []) (7 ∷ [])
      (next (new_mdns, []) begun_7 found_7 [] [] (7 ∷ [])
        (next (new_mdns, []) (new_mdns, []) begun_7 [] [] [] (rest (new_mdns, []) [])
          (begun 100 7 true type_7 1000 0 (some 3) new_mdns [] [] refl))
        (browsed 7 fresh appeared true begun_7.0 [] [] [] refl))
      (served late found_7.0 [] (7 ∷ []))

Steps-IsSound_example : IsSound served_7 (7 ∷ [])
unfolding find_search new_mdns
Steps-IsSound_example = Steps-IsSound daemon steps_7 ((λ h. refl), refl, refl)

Steps-calls_example :
    all_calls 7 steps_7 + waiting 7 served_7.0.active_queries
    ≤ all_begins 7 steps_7 + waiting 7 new_mdns.active_queries
Steps-calls_example = Steps-calls 7 steps_7

abbrev asked : Mdns
asked = add_query 7 fresh (record new_mdns { has_poll = true })

-- A service is resolved, and all is reported.
abbrev found_service : Found
found_service = record {
  found_name = some (codes "epoxy");
  found_host = some (codes "epoxy.local");
  found_address = none;
  found_port = 80;
  found_txt = [];
}

abbrev reports : List AvahiEvent
reports =
    browser_event 7 appeared true
    ∷ browser_event 7 flushed false
    ∷ resolver_event 7 (some found_service)
    ∷ []

abbrev all_granted : ℕ → Allocation
all_granted i = record {
  node = true;
  host = true;
  instance_text = true;
  addr = true;
  txt = true;
  key_buf = λ j. true;
  val_buf = λ j. true;
}

get_async_query_results-add_all_example :
    (a : Answer (List AvahiEvent)) × (get_async_query_results daemon all_granted 200 200 [] 200 7 0
        (asked, reports)
      ≡ some a)
    × (a.1.0 ≡ some (to_results all_granted 0 (add_all (founds 7 reports) fresh).results))
    × (a.0 ≡ (if fresh.notified then [] else notices_of 7 fresh.notifier))
    × ((r : Search) × (find_search 7 a.1.1.0.active_queries ≡ some r) × (r.notified ≡ true))
unfolding find_search insert_search new_mdns
get_async_query_results-add_all_example =
    get_async_query_results-add_all daemon all_granted 200 200 [] 200 7 0 asked reports fresh refl
      refl refl refl

-- A query is ended while a resolver is open, and the resolver answers.
freed_search :
    (run_callback (resolver_event 7 none) (delete_async_query daemon 7 found_7).0).wild ≡ true
unfolding run_callback delete_async_query find_search erase_search insert_search new_mdns set_search
    async_browse_callback
freed_search = refl

abbrev board : Board (List Notice × (Mdns × List AvahiEvent))
board = power_on ([], (new_mdns, []))

service_yield_callbacks-ask_example :
    (let (result, asked) =
        ask daemon 9
          (some 1)
          100
          7
          (some (codes "_http"))
          (some (codes "_tcp"))
          1000
          0
          (some 3)
          board in
      let served =
        service_yield_callbacks (on_service (only 9 (some 1) (serve_queries daemon late))) asked in
      (result ≡ some 7)
      × (asked.user.1.0.yield_registered ≡ true)
      × (served ≡ record asked { user = serve_queries daemon late asked.user })
      × Noticed daemon 3 7 board served.user)
unfolding same_pointer init_avahi wait_running new_mdns
service_yield_callbacks-ask_example =
    service_yield_callbacks-ask daemon 9 (some 1) board 100 7 (codes "_http") (codes "_tcp") 1000 0
      3 late refl refl refl refl refl (omega arith) (omega arith)
