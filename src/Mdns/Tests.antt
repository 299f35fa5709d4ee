-- ===== src/Mdns/Tests.antt =====
-- Runs of the mDNS responder (ESPmDNS.cpp) on a small daemon.
use epoxy_duino.Base.{ℕ, ◌≡◌, refl, true, false, List, [], ◌∷◌, ◌++◌, none, some, length}
use epoxy_duino.Base.Int.{pos, negsuc}
use epoxy_duino.Base.Text.{codes, same_text}
use epoxy_duino.Address.{IpAddress}
use epoxy_duino.Address.Words.{unset_address, same_address, to_word}
use epoxy_duino.Mdns.Search.{
  MdnsService, Search, collect, same_service, merge_service, add_missing, add_result,
}
use epoxy_duino.Mdns.Collected.{keys, with_new, up_to, add_all, keys-add_all}
use epoxy_duino.Mdns.Collected.Addresses.{address_over, IsAddressed, IsAddressed-add_all}
use epoxy_duino.Mdns.Responder.{Avahi, AvahiEvent, Mdns, new_mdns}
use epoxy_duino.Mdns.Advertise.{dns_type, txt_of, advertise, add_service}
use epoxy_duino.Mdns.Advertise.Api.{mdns_service_remove}
use epoxy_duino.Mdns.Advertise.Calls.{Call, add, disable, run_calls, mdns_service_remove-run_calls}
use epoxy_duino.Mdns.Advertise.Ports.{refusal}
use epoxy_duino.Mdns.Advertise.Published.{Entry, Works, Shows, add_service-Shows}
use epoxy_duino.Mdns.Query.{
  Browser, make_service_key, query_service, result_hostname, result_port, get_result, entry_of,
  num_txt, txt_at, txt_entry,
}
use epoxy_duino.Mdns.Query.Mocks.{Mock, add_mocks, matching, query_service-add_mocks}

-- A daemon that runs: the entries of the group, what it has published, and the events to come.
record Daemon : Type 0 where
  entries : List Entry
  seen : List Entry
  queue : List AvahiEvent

abbrev daemon : Avahi Daemon
daemon = record {
  simple_poll_new = λ d. (true, d);
  simple_poll_free = λ d. d;
  simple_poll_iterate = λ n d. (d.queue, record d { queue = [] });
  client_new = λ d. (true, d);
  client_free = λ d. d;
  client_running = λ d. true;
  entry_group_new = λ d. (true, record d { entries = [] });
  entry_group_reset = λ d. record d { entries = [] };
  entry_group_free = λ d. d;
  entry_group_add_service = λ name type port txt d.
      (true, record d { entries = d.entries ++ (name, type, port, txt) ∷ [] });
  entry_group_commit = λ d. (true, record d { seen = d.entries });
  service_browser_new = λ type h d. (true, d);
  service_browser_free = λ h d. d;
}

daemon-works : Works daemon
daemon-works = record {
  group = λ d. d.entries;
  published = λ d. d.seen;
  makes_poll = λ d. refl;
  makes_client = λ d. refl;
  runs = λ d. refl;
  makes_group = λ d. refl;
  new_group = λ d. refl;
  reset_group = λ d. refl;
  adds = λ name type port txt d. refl;
  added = λ name type port txt d. refl;
  commits = λ d. refl;
  committed = λ d. refl;
}

abbrev quiet : Daemon
quiet = record { entries = []; seen = []; queue = [] }

abbrev named : Mdns
named = record new_mdns { instance_name = codes "box" }

add_service-Shows_example :
    Shows daemon daemon-works
      ((
        named.instance_name,
        dns_type (codes "http") (codes "tcp"),
        80,
        txt_of
            (codes "http")
            (codes "tcp")
            80
            (advertise (codes "http") (codes "tcp") 80 named).advertised_services,
      )
        ∷ [])
      (add_service daemon (some (codes "http")) (some (codes "tcp")) 80 (named, quiet))
add_service-Shows_example =
    add_service-Shows daemon daemon-works (codes "http") (codes "tcp") 80 named quiet refl

abbrev two_calls : List Call
two_calls = add (some (codes "http")) (some (codes "tcp")) 80 [] ∷ disable ∷ []

mdns_service_remove-run_calls_example :
    mdns_service_remove
      (some (codes "http"))
      (some (codes "tcp"))
      (run_calls daemon two_calls (new_mdns, quiet)).0
    ≡ (
      refusal (some (codes "http")) (some (codes "tcp")),
      (run_calls daemon two_calls (new_mdns, quiet)).0,
    )
mdns_service_remove-run_calls_example =
    mdns_service_remove-run_calls daemon two_calls quiet (some (codes "http")) (some (codes "tcp"))

abbrev peer : IpAddress → ℕ → MdnsService
peer a n = record {
  instance_name = codes "peer";
  hostname = codes "p.local";
  ip = a;
  port = n;
  txt_records = [];
}

abbrev reports : List MdnsService
reports =
    peer unset_address 80
    ∷ peer unset_address 81
    ∷ peer (record { b0 = 10; b1 = 0; b2 = 0; b3 = 1 }) 80
    ∷ peer unset_address 82
    ∷ []

abbrev search_of_two : Search
search_of_two = record {
  browsing = true;
  results = [];
  all_for_now = false;
  outstanding_resolvers = 0;
  failed = false;
  notified = false;
  start_ms = 0;
  timeout_ms = 0;
  max_results = 2;
  notifier = none;
}

keys-add_all_example :
    keys (add_all reports search_of_two).results ≡ up_to 2 (with_new [] (keys reports))
keys-add_all_example = keys-add_all reports search_of_two refl

IsAddressed-add_all_example :
    IsAddressed
      (codes "peer", codes "p.local", 80)
      (address_over (codes "peer", codes "p.local", 80) reports none)
      (add_all reports search_of_two)
IsAddressed-add_all_example =
    IsAddressed-add_all (codes "peer", codes "p.local", 80) reports search_of_two refl

collected :
    (add_all reports search_of_two).results
    ≡ peer (record { b0 = 10; b1 = 0; b2 = 0; b3 = 1 }) 80 ∷ peer unset_address 81 ∷ []
unfolding add_result collect same_service merge_service add_missing same_address to_word same_text
collected = refl

abbrev no_browser : Browser Daemon
no_browser = record {
  open_browser = λ t d. (false, d);
  monotonic = λ d. (record { tv_sec = 0; tv_nsec = 0 }, d);
  browse_iterate = λ n d. ([], d);
  close_browser = λ d. d;
}

abbrev mocks : List Mock
mocks =
    (codes "_http", codes "_tcp", codes "a", unset_address, 80)
    ∷ (codes "ftp", codes "tcp", codes "b", unset_address, 21)
    ∷ (codes "http", codes "tcp", codes "c", unset_address, 81)
    ∷ []

query_service-add_mocks_example :
    query_service no_browser 3 (codes "http") (codes "_tcp") (add_mocks mocks new_mdns, quiet)
    ≡ some (
      length (matching (make_service_key (codes "http") (codes "_tcp")) mocks),
      (
        record (add_mocks mocks new_mdns) {
          query_results = matching (make_service_key (codes "http") (codes "_tcp")) mocks;
        },
        quiet,
      ),
    )
query_service-add_mocks_example =
    query_service-add_mocks no_browser mocks 3 (codes "http") (codes "_tcp") quiet

two_of_three : length (matching (make_service_key (codes "http") (codes "_tcp")) mocks) ≡ 2
unfolding make_service_key same_text
two_of_three = refl

-- the accessors of the second result, and of one that is not there
abbrev asked : Mdns
asked = record new_mdns { query_results = peer unset_address 80 ∷ peer unset_address 81 ∷ [] }

accessors :
    (result_hostname (pos 1) asked ≡ codes "p.local")
    × (result_port (pos 1) asked ≡ 81)
    × (result_port (pos 2) asked ≡ 0)
    × (result_hostname (negsuc 0) asked ≡ [])
    × (num_txt (pos 0) asked ≡ 0)
    × (txt_at (pos 0) (pos 0) asked ≡ [])
unfolding result_hostname result_port get_result entry_of num_txt txt_at txt_entry
accessors = (refl, refl, refl, refl, refl, refl)
