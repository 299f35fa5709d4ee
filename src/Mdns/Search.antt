-- ===== src/Mdns/Search.antt =====
-- A service that was found, and a search with the callbacks that Avahi runs for it
-- (EpoxyMdnsAsyncSearch, serviceFromResolve(), async_browse_callback(), async_resolve_callback()).
use epoxy_duino.Base.{
  ℕ, ◌+◌, ◌-◌, Bool, true, ◌&&◌, if◌then◌else◌, ltb, leb, ◌==◌, List, [], ◌∷◌, Option, none, some,
  length,
}
use epoxy_duino.Base.Text.{Bytes, same_text}
use epoxy_duino.Address.{IpAddress}
use epoxy_duino.Address.Words.{unset_address, same_address}
use epoxy_duino.Mdns.Maps.{TextMap, put_key, has_key}

pub record MdnsService : Type 0 where
  pub instance_name : Bytes
  pub hostname : Bytes
  pub ip : IpAddress
  pub port : ℕ
  pub txt_records : TextMap

-- What a resolver found. The address is what sscanf() reads of its text, where it reads four
-- numbers; an entry of the TXT list is the pair that Avahi splits it into, where it has a key.
pub record Found : Type 0 where
  pub found_name : Option Bytes
  pub found_host : Option Bytes
  pub found_address : Option IpAddress
  pub found_port : ℕ
  pub found_txt : List (Option (Bytes × Option Bytes))

abbrev pub text_of : Option Bytes → Bytes
text_of none = []
text_of (some t) = t

-- the loop over the TXT list
unfoldable pub txt_map : List (Option (Bytes × Option Bytes)) → TextMap → TextMap
unfolding put_key
txt_map [] m = m
txt_map (none ∷ rest) m = txt_map rest m
txt_map (some e ∷ rest) m = txt_map rest (put_key e.0 (text_of e.1) m)

abbrev pub address_found : Option IpAddress → IpAddress
address_found none = unset_address
address_found (some a) = a

unfoldable pub service_from_resolve : Found → MdnsService
service_from_resolve f = record {
  instance_name = text_of f.found_name;
  hostname = text_of f.found_host;
  ip = address_found f.found_address;
  port = f.found_port;
  txt_records = txt_map f.found_txt [];
}

-- The browser of a search is there or not; a notifier is the number of the function it names.
pub record Search : Type 0 where
  pub browsing : Bool
  pub results : List MdnsService
  pub all_for_now : Bool
  pub outstanding_resolvers : ℕ
  pub failed : Bool
  pub notified : Bool
  pub start_ms : ℕ
  pub timeout_ms : ℕ
  pub max_results : ℕ
  pub notifier : Option ℕ

-- the loop over the TXT records of a duplicate
unfoldable pub add_missing : TextMap → TextMap → TextMap
add_missing [] m = m
add_missing (e ∷ es) m = add_missing es (if has_key e.0 m then m else put_key e.0 e.1 m)

unfoldable pub merge_service : MdnsService → MdnsService → MdnsService
merge_service service existing = record existing {
  ip = if same_address existing.ip unset_address then service.ip else existing.ip;
  txt_records = add_missing service.txt_records existing.txt_records;
}

unfoldable pub same_service : MdnsService → MdnsService → Bool
same_service a b =
    same_text a.instance_name b.instance_name && same_text a.hostname b.hostname && a.port == b.port

-- The loop over the results, and what stands behind it. `full` is the test of the limit.
unfoldable pub collect : Bool → MdnsService → List MdnsService → List MdnsService
collect full service [] = if full then [] else service ∷ []
collect full service (existing ∷ es) =
    let rest = collect full service es in
    if same_service existing service then merge_service service existing ∷ es else existing ∷ rest

abbrev pub is_full : Search → Bool
is_full s = ltb 0 s.max_results && leb s.max_results (length s.results)

unfoldable pub add_result : MdnsService → Search → Search
add_result service s = record s { results = collect (is_full s) service s.results }

pub data BrowserEvent : Type 0 where
  appeared removed cache_exhausted flushed failure : BrowserEvent

-- `created` is whether avahi_service_resolver_new() answers a resolver.
unfoldable pub async_browse_callback : BrowserEvent → Bool → Search → Search
async_browse_callback appeared created s =
    if created then record s { outstanding_resolvers = s.outstanding_resolvers + 1 } else s
async_browse_callback flushed created s = record s { all_for_now = true }
async_browse_callback failure created s = record s { failed = true; all_for_now = true }
async_browse_callback removed created s = s
async_browse_callback cache_exhausted created s = s

abbrev pub resolver_done : Search → Search
resolver_done s =
    if ltb 0 s.outstanding_resolvers
    then record s { outstanding_resolvers = s.outstanding_resolvers - 1 }
    else s

-- AVAHI_RESOLVER_FOUND with what was found, or AVAHI_RESOLVER_FAILURE
unfoldable pub async_resolve_callback : Option Found → Search → Search
async_resolve_callback none s = resolver_done s
async_resolve_callback (some f) s = resolver_done (add_result (service_from_resolve f) s)
