-- ===== src/Mdns/Query.antt =====
-- Queries that wait (ESPmDNS.cpp: queryHost(), queryService(), _browseService(), resolve_callback(),
-- browse_callback()), the accessors of their results, and the registry of mock services. An index is
-- an int: ℤ.
pub mod Mocks
use epoxy_duino.Base.{
  ℕ, zero, suc, ◌+◌, ◌-◌, ◌*◌, ◌/◌, Bool, true, false, not, if◌then◌else◌, ltb, leb, ◌==◌, List, [],
  ◌∷◌, ◌++◌, Option, none, some, length,
}
use epoxy_duino.Base.Int.{ℤ, pos, negsuc}
use epoxy_duino.Base.Text.{Bytes, first, same_text}
use epoxy_duino.Address.{IpAddress}
use epoxy_duino.Address.Words.{unset_address}
use epoxy_duino.Mdns.Maps.{put_key, find_key, has_key}
use epoxy_duino.Mdns.Search.{MdnsService, Found, BrowserEvent, service_from_resolve, text_of}
use epoxy_duino.Mdns.Responder.{Mdns, has_client}

-- _makeServiceKey()
abbrev pub with_underscore : Bytes → Bytes
with_underscore t = if first t == b'_' then t else b'_' ∷ t

unfoldable pub make_service_key : Bytes → Bytes → Bytes
make_service_key service proto = with_underscore service ++ b'.' ∷ with_underscore proto

-- the constructor of MDNSService with three arguments
abbrev pub new_service : Bytes → IpAddress → ℕ → MdnsService
new_service host address number = record {
  instance_name = [];
  hostname = host;
  ip = address;
  port = number;
  txt_records = [];
}

abbrev pub services_at : Bytes → Mdns → List MdnsService
services_at k m = elim (find_key k m.mock_services) [ some l ↦ l | none ↦ [] ]

unfoldable pub add_mock_service : Bytes → Bytes → Bytes → IpAddress → ℕ → Mdns → Mdns
unfolding make_service_key put_key find_key
add_mock_service service proto host address number m =
    let k = make_service_key service proto in
    record m {
      mock_services =
          put_key k (services_at k m ++ new_service host address number ∷ []) m.mock_services;
    }

-- the loop over the services of a key: the first of the host has the record set
unfoldable set_mock_txt : Bytes → Bytes → Bytes → List MdnsService → List MdnsService
unfolding put_key
set_mock_txt host k v [] = []
set_mock_txt host k v (s ∷ ss) =
    let rest = set_mock_txt host k v ss in
    if same_text s.hostname host
    then record s { txt_records = put_key k v s.txt_records } ∷ ss
    else s ∷ rest

unfoldable add_mock_service_txt : Bytes → Bytes → Bytes → Bytes → Bytes → Mdns → Mdns
unfolding make_service_key put_key find_key set_mock_txt
add_mock_service_txt service proto host k v m =
    let at = make_service_key service proto in
    elim (find_key at m.mock_services) [
      | some l ↦ record m { mock_services = put_key at (set_mock_txt host k v l) m.mock_services }
      | none ↦ m
    ]

unfoldable clear_mock_services : Mdns → Mdns
clear_mock_services m = record m { mock_services = []; query_results = [] }

-- the loops of queryHost()
unfoldable find_host : Bytes → List MdnsService → Option IpAddress
find_host host [] = none
find_host host (s ∷ ss) =
    let rest = find_host host ss in if same_text s.hostname host then some s.ip else rest

unfoldable find_mock_host : Bytes → List (Bytes × List MdnsService) → Option IpAddress
unfolding find_host
find_mock_host host [] = none
find_mock_host host (e ∷ es) =
    let rest = find_mock_host host es in elim (find_host host e.1) [ some a ↦ some a | none ↦ rest ]

unfoldable query_host : Bytes → Mdns → IpAddress
unfolding find_host find_mock_host
query_host host m = elim (find_mock_host host m.mock_services) [
  | some a ↦ a
  | none ↦ elim (find_host host m.query_results) [ some a ↦ a | none ↦ unset_address ]
]

-- struct timespec
pub record Timespec : Type 0 where
  pub tv_sec : ℕ
  pub tv_nsec : ℕ

-- A quotient is cut towards 0.
unfoldable pub elapsed_ms : Timespec → Timespec → ℕ
elapsed_ms start now =
    let seconds = (now.tv_sec - start.tv_sec) * 1000 in
    if leb start.tv_nsec now.tv_nsec
    then seconds + (now.tv_nsec - start.tv_nsec) / 1000000
    else seconds - (start.tv_nsec - now.tv_nsec) / 1000000

-- A callback of the browse, whose client and poll are its own.
pub data BrowseEvent : Type 0 where
  browse_event : BrowserEvent → BrowseEvent
  resolve_event : Option Found → BrowseEvent
  browse_client_failed : BrowseEvent

-- The callbacks: a browser asks for a resolver at most, and a resolver adds what it found. The
-- client that fails is freed, and freed again at the end of the browse.
unfoldable pub browse_callback : BrowseEvent → Mdns → Mdns
unfolding service_from_resolve
browse_callback (browse_event e) m = m
browse_callback (resolve_event none) m = m
browse_callback (resolve_event (some f)) m = record m {
  query_results = m.query_results ++ service_from_resolve f ∷ [];
}
browse_callback browse_client_failed m = record m { wild = true }

unfoldable pub browse_callbacks : List BrowseEvent → Mdns → Mdns
browse_callbacks [] m = m
browse_callbacks (e ∷ es) m = browse_callbacks es (browse_callback e m)

-- What the browse asks of Avahi and of the clock: a browser for a type, on a client and a poll of
-- its own; the poll; and the end of the three.
pub record Browser (S : Type 0) : Type 0 where
  pub open_browser : Bytes → S → Bool × S
  pub monotonic : S → Timespec × S
  pub browse_iterate : ℕ → S → List BrowseEvent × S
  pub close_browser : S → S

module _ {S : Type 0} (browser : Browser S) where
  -- The loop, with the rounds that are left; `none` where they do not suffice.
  unfoldable pub browse_loop : ℕ → Timespec → ℕ → Mdns × S → Option (Mdns × S)
  unfolding elapsed_ms
  browse_loop zero start timeout w = none
  browse_loop (suc n) start timeout (m, s) =
      let (now, s₁) = browser.monotonic s in
      let elapsed = elapsed_ms start now in
      let (events, s₂) = browser.browse_iterate (timeout - elapsed) s₁ in
      let later = browse_loop n start timeout (browse_callbacks events m, s₂) in
      if ltb timeout elapsed then some (m, s₁) else later

  abbrev close_all : Option (Mdns × S) → Option (Mdns × S)
  close_all none = none
  close_all (some (m, s)) = some (m, browser.close_browser s)

  unfoldable pub browse_service : ℕ → Bytes → Bytes → ℕ → Mdns × S → Option (Mdns × S)
  unfolding browse_loop
  browse_service fuel service proto timeout (m, s) =
      let (ok, s₁) = browser.open_browser (service ++ b'.' ∷ proto) s in
      let (start, s₂) = browser.monotonic s₁ in
      let result = close_all (browse_loop fuel start timeout (m, s₂)) in
      if not (has_client m) then some (m, s) else if ok then result else some (m, s₁)

  unfoldable pub query_service : ℕ → Bytes → Bytes → Mdns × S → Option (ℕ × (Mdns × S))
  unfolding make_service_key find_key browse_service
  query_service fuel service proto (m, s) =
      let m' : Mdns = record m { query_results = services_at (make_service_key service proto) m } in
      elim (browse_service fuel service proto 2000 (m', s)) [
        | some w ↦ some (length w.0.query_results, w)
        | none ↦ none
      ]

-- _getResult(), and the entry of a map at an index
unfoldable pub entry_of {ℓ} : {A : Type ℓ} → ℕ → List A → Option A
entry_of i [] = none
entry_of zero (x ∷ xs) = some x
entry_of (suc i) (x ∷ xs) = entry_of i xs

unfoldable pub get_result : ℤ → Mdns → Option MdnsService
unfolding entry_of
get_result (pos i) m = if leb (length m.query_results) i then none else entry_of i m.query_results
get_result (negsuc n) m = none

unfoldable pub result_hostname : ℤ → Mdns → Bytes
unfolding get_result
result_hostname i m = elim (get_result i m) [ some s ↦ s.hostname | none ↦ [] ]

unfoldable result_ip : ℤ → Mdns → IpAddress
unfolding get_result
result_ip i m = elim (get_result i m) [ some s ↦ s.ip | none ↦ unset_address ]

unfoldable pub result_port : ℤ → Mdns → ℕ
unfolding get_result
result_port i m = elim (get_result i m) [ some s ↦ s.port | none ↦ 0 ]

unfoldable pub num_txt : ℤ → Mdns → ℕ
unfolding get_result
num_txt i m = elim (get_result i m) [ some s ↦ length s.txt_records | none ↦ 0 ]

unfoldable has_txt : ℤ → Bytes → Mdns → Bool
unfolding get_result find_key
has_txt i k m = elim (get_result i m) [ some s ↦ has_key k s.txt_records | none ↦ false ]

unfoldable txt_at_key : ℤ → Bytes → Mdns → Bytes
unfolding get_result find_key
txt_at_key i k m = elim (get_result i m) [ some s ↦ text_of (find_key k s.txt_records) | none ↦ [] ]

-- the record at an index, where there is one
unfoldable pub txt_entry : ℤ → ℤ → Mdns → Option (Bytes × Bytes)
unfolding get_result entry_of
txt_entry i (negsuc n) m = none
txt_entry i (pos j) m = elim (get_result i m) [
  | some s ↦ (if leb (length s.txt_records) j then none else entry_of j s.txt_records)
  | none ↦ none
]

unfoldable pub txt_at : ℤ → ℤ → Mdns → Bytes
unfolding txt_entry
txt_at i j m = elim (txt_entry i j m) [ some e ↦ e.1 | none ↦ [] ]

unfoldable txt_key : ℤ → ℤ → Mdns → Bytes
unfolding txt_entry
txt_key i j m = elim (txt_entry i j m) [ some e ↦ e.0 | none ↦ [] ]
