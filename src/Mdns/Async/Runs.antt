-- ===== src/Mdns/Async/Runs.antt =====
-- The resolvers of mDNS queries that are open: every callback of Avahi, every round of the service,
-- every start and end of a query is a step. A step has the handles that the open resolvers carry.
use epoxy_duino.Base.{
  ℕ, ◌+◌, ◌<◌, ◌≡◌, Bool, false, if◌then◌else◌, ◌==◌, List, [], ◌∷◌, Option, none, some,
}
use epoxy_duino.Base.Text.{Bytes}
use epoxy_duino.Mdns.Search.{
  Search, Found, BrowserEvent, appeared, removed, cache_exhausted, flushed, failure,
}
use epoxy_duino.Mdns.Responder.{
  Avahi, Mdns, browser_event, resolver_event, run_callback, find_search, set_search, is_freed,
}
use epoxy_duino.Mdns.Async.{notify, query_on, delete_async_query, service_searches}

abbrev pub count : ℕ → List ℕ → ℕ
count h [] = 0
count h (k ∷ ks) = (if k == h then 1 else 0) + count h ks

abbrev pub drop_one : ℕ → List ℕ → List ℕ
drop_one h [] = []
drop_one h (k ∷ ks) = if k == h then ks else k ∷ drop_one h ks

-- the resolver that a callback of the browser opens
abbrev pub opened : BrowserEvent → Bool → ℕ → List ℕ → List ℕ
opened appeared created h ks = if created then h ∷ ks else ks
opened removed created h ks = ks
opened cache_exhausted created h ks = ks
opened flushed created h ks = ks
opened failure created h ks = ks

pub data Step {S : Type 0} (avahi : Avahi S) : Mdns × S → List ℕ → Mdns × S → List ℕ → Type 0 where
  browsed :
      (h : ℕ) (q : Search) (event : BrowserEvent) (created : Bool) (m : Mdns) (s s' : S)
      (ks : List ℕ)
      → find_search h m.active_queries ≡ some q
      → Step avahi
          (m, s)
          ks
          (run_callback (browser_event h event created) m, s')
          (opened event created h ks)
  resolved :
      (h : ℕ) (found : Option Found) (m : Mdns) (s s' : S) (ks : List ℕ)
      → 0 < count h ks
      → Step avahi (m, s) ks (run_callback (resolver_event h found) m, s') (drop_one h ks)
  served :
      (clock : ℕ → ℕ) (m : Mdns) (s : S) (ks : List ℕ)
      → Step avahi
          (m, s)
          ks
          (record m { active_queries = (service_searches clock m.active_queries).1 }, s)
          ks
  answered :
      (h : ℕ) (q : Search) (m : Mdns) (s : S) (ks : List ℕ)
      → find_search h m.active_queries ≡ some q
      → Step avahi
          (m, s)
          ks
          (record m { active_queries = set_search h (notify h q).1 m.active_queries }, s)
          ks
  begun :
      (now h : ℕ) (answer : Bool) (type : Bytes) (timeout limit : ℕ) (f : Option ℕ) (m : Mdns)
      (s : S) (ks : List ℕ)
      → find_search h m.active_queries ≡ none
      → Step avahi (m, s) ks (query_on avahi now answer h type timeout limit f (m, s)) ks
  deleted :
      (h : ℕ) (q : Search) (m : Mdns) (s : S) (ks : List ℕ)
      → find_search h m.active_queries ≡ some q
      → q.outstanding_resolvers ≡ 0
      → Step avahi (m, s) ks (delete_async_query avahi h (m, s)) ks

pub data Steps {S : Type 0} (avahi : Avahi S) : Mdns × S → List ℕ → Mdns × S → List ℕ → Type 0 where
  rest : (w : Mdns × S) (ks : List ℕ) → Steps avahi w ks w ks
  next :
      (w v u : Mdns × S) (ks ls ns : List ℕ)
      → Steps avahi w ks v ls
      → Step avahi v ls u ns
      → Steps avahi w ks u ns

-- The open resolvers of a search are those that it counts; a handle without a search has none.
abbrev pub Fits : Option Search → ℕ → Type 0
Fits none n = n ≡ 0
Fits (some q) n = q.outstanding_resolvers ≡ n

abbrev pub IsCounted : List (ℕ × Search) → List ℕ → Type 0
IsCounted es ks = (h : ℕ) → Fits (find_search h es) (count h ks)

-- Every search counts its open resolvers, and no memory is used that was freed.
abbrev pub IsSound : {S : Type 0} → Mdns × S → List ℕ → Type 0
IsSound w ks = IsCounted w.0.active_queries ks × (w.0.wild ≡ false) × (is_freed w.0 ≡ false)
