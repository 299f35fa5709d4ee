-- ===== src/Mdns/Async/Notices.antt =====
-- The notifiers of mDNS queries over any sequence of steps (ESPmDNS.cpp: serviceAsyncQueries() and
-- getAsyncQueryResults()).
use epoxy_duino.Base.{
  ℕ, ◌+◌, ◌≤◌, ◌≡◌, refl, ap, Bool, inl, inr, true, false, if◌then◌else◌, ◌==◌, List, [], ◌∷◌, ◌++◌,
  Option, Option-cases, none, some, arith,
}
use epoxy_duino.Mdns.Search.{
  Search, Found, BrowserEvent, appeared, removed, cache_exhausted, flushed, failure,
  async_browse_callback, async_resolve_callback, add_result,
}
use epoxy_duino.Mdns.Responder.{
  Avahi, Mdns, touch_client, run_callback, find_search, set_search, on_search,
}
use epoxy_duino.Mdns.Async.{
  add_query, Notice, notices_of, notify, insert_search, erase_search, service_search,
  service_searches, new_search,
}
use epoxy_duino.Mdns.Async.Handles.{on_search-found, delete-found}
use epoxy_duino.Mdns.Async.Runs.{
  Step, browsed, resolved, served, answered, begun, deleted, Steps, rest, next,
}

-- how often the notices name a handle
abbrev pub calls : ℕ → List Notice → ℕ
calls h [] = 0
calls h (c ∷ cs) = (if c.1 == h then 1 else 0) + calls h cs

abbrev pub is_waiting : ℕ → ℕ → Search → ℕ
is_waiting h k q = if k == h then (if q.notified then 0 else 1) else 0

-- the searches of a handle that have not called their notifier
abbrev pub waiting : ℕ → List (ℕ × Search) → ℕ
waiting h [] = 0
waiting h (e ∷ es) = is_waiting h e.0 e.1 + waiting h es

calls-append : (h : ℕ) (cs ds : List Notice) → calls h (cs ++ ds) ≡ calls h cs + calls h ds
calls-append h [] ds = omega arith
calls-append h (c ∷ cs) ds = omega (arith, calls-append h cs ds)

calls-notices_of : (h k : ℕ) (f : Option ℕ) → calls h (notices_of k f) ≤ (if k == h then 1 else 0)
calls-notices_of h k none = ground arith
calls-notices_of h k (some f) = omega arith

calls-notify :
    (h k : ℕ) (q : Search)
    → calls h (notify k q).0 + is_waiting h k (notify k q).1 ≤ is_waiting h k q
calls-notify h k q = ground (arith, calls-notices_of h k q.notifier)

calls-service_search :
    (now h k : ℕ) (q : Search)
    → calls h (service_search now k q).0 + is_waiting h k (service_search now k q).1
      ≤ is_waiting h k q
unfolding service_search
calls-service_search now h k q = ground (arith, calls-notify h k q)

calls-service_searches :
    (clock : ℕ → ℕ) (h : ℕ) (es : List (ℕ × Search))
    → calls h (service_searches clock es).0 + waiting h (service_searches clock es).1 ≤ waiting h es
unfolding service_searches
calls-service_searches clock h [] = omega arith
calls-service_searches clock h ((k, q) ∷ es) = omega (
  arith,
  calls-append h (service_search (clock k) k q).0 (service_searches clock es).0,
  calls-service_search (clock k) h k q,
  calls-service_searches clock h es,
)

waiting-insert :
    (h k : ℕ) (q : Search) (es : List (ℕ × Search))
    → waiting h (insert_search k q es) ≤ is_waiting h k q + waiting h es
unfolding insert_search
waiting-insert h k q [] = omega arith
waiting-insert h k q ((l, r) ∷ es) = ground (arith, waiting-insert h k q es)

waiting-erase : (h k : ℕ) (es : List (ℕ × Search)) → waiting h (erase_search k es) ≤ waiting h es
unfolding erase_search
waiting-erase h k [] = omega arith
waiting-erase h k ((l, r) ∷ es) = ground (arith, waiting-erase h k es)

-- the search that is found gives way to another
waiting-set :
    (h k : ℕ) (q s : Search) (es : List (ℕ × Search))
    → find_search k es ≡ some q
    → waiting h (set_search k s es) + is_waiting h k q ≡ waiting h es + is_waiting h k s
unfolding find_search set_search
waiting-set h k q s [] e = cc
waiting-set h k q s ((l, r) ∷ es) e = ground (arith, waiting-set h k q s es)

notified-browse :
    (event : BrowserEvent) (created : Bool) (q : Search)
    → (async_browse_callback event created q).notified ≡ q.notified
unfolding async_browse_callback
notified-browse appeared true q = refl
notified-browse appeared false q = refl
notified-browse removed created q = refl
notified-browse cache_exhausted created q = refl
notified-browse flushed created q = refl
notified-browse failure created q = refl

notified-resolve :
    (found : Option Found) (q : Search) → (async_resolve_callback found q).notified ≡ q.notified
unfolding async_resolve_callback add_result
notified-resolve none q = ground arith
notified-resolve (some f) q = ground arith

abbrev waits : ℕ → ℕ → Bool → ℕ
waits h k b = if k == h then (if b then 0 else 1) else 0

kept_waiting : {a b c d : ℕ} → a + c ≡ b + d → d ≡ c → a ≤ b
kept_waiting e f = omega arith

-- a callback that does not touch `notified`
waiting-on_search :
    (h k : ℕ) (f : Search → Search) (m : Mdns)
    → ((q : Search) → (f q).notified ≡ q.notified)
    → waiting h (on_search k f m).active_queries ≤ waiting h m.active_queries
waiting-on_search h k f m same = elim (Option-cases (find_search k m.active_queries)) [
  | inl e ↦ rw (on_search, e) (omega arith)
  | inr (q, e) ↦
      rw (on_search-found k q f m e)
        (kept_waiting (waiting-set h k q (f q) m.active_queries e) (ap (waits h k) (same q)))
]

waiting-touch :
    (h : ℕ) (b answer : Bool) (m : Mdns)
    → waiting h (if b then m else record m { yield_registered = answer }).active_queries
      ≡ waiting h m.active_queries
waiting-touch h true answer m = refl
waiting-touch h false answer m = refl

waiting-destroyed :
    {S : Type 0} (h : ℕ) (b : Bool) (m : Mdns) (x y : S)
    → (let w : Mdns × S = if b then (touch_client m, x) else (m, y) in
        waiting h w.0.active_queries ≡ waiting h m.active_queries)
waiting-destroyed h true m x y = refl
waiting-destroyed h false m x y = refl

module _ {S : Type 0} {avahi : Avahi S} where
  -- the notices of a step, and whether it begins a query with a handle
  abbrev pub step_calls : ℕ → {w v : Mdns × S} {ks ls : List ℕ} → Step avahi w ks v ls → ℕ
  step_calls i (browsed h q event created m s s' ks found) = 0
  step_calls i (resolved h found m s s' ks open') = 0
  step_calls i (served clock m s ks) = calls i (service_searches clock m.active_queries).0
  step_calls i (answered h q m s ks found) = calls i (notify h q).0
  step_calls i (begun now h answer type timeout limit f m s ks missing) = 0
  step_calls i (deleted h q m s ks found none_left) = 0

  abbrev pub step_begins : ℕ → {w v : Mdns × S} {ks ls : List ℕ} → Step avahi w ks v ls → ℕ
  step_begins i (browsed h q event created m s s' ks found) = 0
  step_begins i (resolved h found m s s' ks open') = 0
  step_begins i (served clock m s ks) = 0
  step_begins i (answered h q m s ks found) = 0
  step_begins i (begun now h answer type timeout limit f m s ks missing) = if h == i then 1 else 0
  step_begins i (deleted h q m s ks found none_left) = 0

  abbrev pub all_calls : ℕ → {w v : Mdns × S} {ks ls : List ℕ} → Steps avahi w ks v ls → ℕ
  all_calls i (rest w ks) = 0
  all_calls i (next w v u ks ls ns before step) = all_calls i before + step_calls i step

  abbrev pub all_begins : ℕ → {w v : Mdns × S} {ks ls : List ℕ} → Steps avahi w ks v ls → ℕ
  all_begins i (rest w ks) = 0
  all_begins i (next w v u ks ls ns before step) = all_begins i before + step_begins i step

  Step-calls :
      (i : ℕ) {w v : Mdns × S} {ks ls : List ℕ} (step : Step avahi w ks v ls)
      → step_calls i step + waiting i v.0.active_queries
        ≤ step_begins i step + waiting i w.0.active_queries
  unfolding run_callback
  Step-calls i (browsed h q event created m s s' ks found) = omega (
    arith,
    waiting-on_search i h (async_browse_callback event created) m (notified-browse event created),
  )
  Step-calls i (resolved h found m s s' ks open') =
      omega (arith, waiting-on_search i h (async_resolve_callback found) m (notified-resolve found))
  Step-calls i (served clock m s ks) =
      omega (arith, calls-service_searches clock i m.active_queries)
  Step-calls i (answered h q m s ks found) =
      omega (arith, waiting-set i h q (notify h q).1 m.active_queries found, calls-notify i h q)
  Step-calls i (begun now h answer type timeout limit f m s ks missing) =
      let created = (avahi.service_browser_new type h s).0 in
      let q = new_search now timeout limit f created in
      omega (
        arith,
        waiting-touch i m.yield_registered answer (add_query h q (touch_client m)),
        waiting-insert i h q m.active_queries,
      )
  Step-calls i (deleted h q m s ks found none_left) = rw (delete-found avahi h q m s found) (
      omega (
        arith,
        waiting-destroyed i q.browsing
            (record m { active_queries = erase_search h m.active_queries })
            (avahi.service_browser_free h s) s,
        waiting-erase i h m.active_queries,
      ))

  -- Over any sequence of steps, a handle is named by no more calls of notifiers than queries with
  -- this handle are begun, and its searches at the start had not called theirs; and by one less for
  -- each search of it that has not called its notifier at the end.
  pub Steps-calls :
      (i : ℕ) {w v : Mdns × S} {ks ls : List ℕ} (steps : Steps avahi w ks v ls)
      → all_calls i steps + waiting i v.0.active_queries
        ≤ all_begins i steps + waiting i w.0.active_queries
  Steps-calls i (rest w ks) = omega arith
  Steps-calls i (next w v u ks ls ns before step) =
      omega (arith, Steps-calls i before, Step-calls i step)
