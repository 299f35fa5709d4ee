-- ===== src/Mdns/Async/Tracked.antt =====
-- One search under the callbacks that Avahi runs in a pump (ESPmDNS.cpp: _pumpAvahi(),
-- async_browse_callback(), async_resolve_callback()).
use epoxy_duino.Base.{
  ℕ, ◌-◌, ◌≡◌, ◌≢◌, refl, sym, ◌∙◌, Bool, Bool-cases, inl, inr, true, false, if◌then◌else◌, ltb,
  ◌==◌, ==_iff, List, [], ◌∷◌, Option, Option-cases, none, some, arith,
}
use mathlib.Core.Path.{subst}
use epoxy_duino.Mdns.Search.{
  Search, Found, BrowserEvent, appeared, removed, cache_exhausted, flushed, failure,
  async_browse_callback, async_resolve_callback, add_result, service_from_resolve,
}
use epoxy_duino.Mdns.Responder.{
  AvahiEvent, browser_event, resolver_event, client_failed, Mdns, find_search, set_search,
  on_search, run_callback, run_callbacks,
}
use epoxy_duino.Mdns.Async.Handles.{on_search-found, find-set_self, find-set_ne}

-- a callback on the search of a handle
abbrev pub step_search : ℕ → AvahiEvent → Search → Search
step_search h (browser_event k event created) q =
    if k == h then async_browse_callback event created q else q
step_search h (resolver_event k found) q = if k == h then async_resolve_callback found q else q
step_search h client_failed q = q

abbrev pub track : ℕ → List AvahiEvent → Search → Search
track h [] q = q
track h (e ∷ es) q = track h es (step_search h e q)

find-on_search :
    (h k : ℕ) (f : Search → Search) (q : Search) (m : Mdns)
    → find_search h m.active_queries ≡ some q
    → find_search h (on_search k f m).active_queries ≡ some (if k == h then f q else q)
find-on_search h k f q m e = elim (Bool-cases (k == h)) [
  | inl same ↦
      let k_h : k ≡ h = (==_iff k h).0 same in
      let found : find_search k m.active_queries ≡ some q =
        subst (λ i. find_search i m.active_queries ≡ some q) (sym k_h) e in
      rw (on_search-found k q f m found, same)
        (subst (λ i. find_search i (set_search k (f q) m.active_queries) ≡ some (f q)) k_h
          (find-set_self k (f q) q m.active_queries found))
  | inr other ↦ elim (Option-cases (find_search k m.active_queries)) [
    | inl missing ↦ rw (on_search, missing, other) e
    | inr (p, found) ↦
        rw (on_search-found k p f m found, other)
          (find-set_ne k h (f p) m.active_queries (apart k h other) ∙ e)
  ]
]
  where
    apart : (k h : ℕ) → (k == h) ≡ false → k ≢ h
    apart k h e = ground arith

find-run_callback :
    (h : ℕ) (e : AvahiEvent) (q : Search) (m : Mdns)
    → find_search h m.active_queries ≡ some q
    → find_search h (run_callback e m).active_queries ≡ some (step_search h e q)
unfolding run_callback
find-run_callback h (browser_event k event created) q m found =
    find-on_search h k (async_browse_callback event created) q m found
find-run_callback h (resolver_event k f) q m found =
    find-on_search h k (async_resolve_callback f) q m found
find-run_callback h client_failed q m found = found

pub find-run_callbacks :
    (h : ℕ) (es : List AvahiEvent) (q : Search) (m : Mdns)
    → find_search h m.active_queries ≡ some q
    → find_search h (run_callbacks es m).active_queries ≡ some (track h es q)
unfolding run_callbacks
find-run_callbacks h [] q m found = found
find-run_callbacks h (e ∷ es) q m found =
    find-run_callbacks h es (step_search h e q) (run_callback e m) (find-run_callback h e q m found)

-- what no callback changes
abbrev pub fixed : Search → ℕ × ℕ × Bool × Option ℕ × ℕ
fixed q = (q.start_ms, q.timeout_ms, q.notified, q.notifier, q.max_results)

fixed-if : (t : Bool) (p q : Search) → fixed p ≡ fixed q → fixed (if t then p else q) ≡ fixed q
fixed-if true p q e = e
fixed-if false p q e = refl

fixed-browse :
    (event : BrowserEvent) (created : Bool) (q : Search)
    → fixed (async_browse_callback event created q) ≡ fixed q
unfolding async_browse_callback
fixed-browse appeared true q = refl
fixed-browse appeared false q = refl
fixed-browse removed created q = refl
fixed-browse cache_exhausted created q = refl
fixed-browse flushed created q = refl
fixed-browse failure created q = refl

fixed-resolve :
    (found : Option Found) (q : Search) → fixed (async_resolve_callback found q) ≡ fixed q
unfolding async_resolve_callback add_result
fixed-resolve none q =
    fixed-if (ltb 0 q.outstanding_resolvers)
      (record q { outstanding_resolvers = q.outstanding_resolvers - 1 }) q refl
fixed-resolve (some f) q =
    let p = add_result (service_from_resolve f) q in
    fixed-if (ltb 0 q.outstanding_resolvers)
      (record p { outstanding_resolvers = q.outstanding_resolvers - 1 }) p refl

fixed-step_search : (h : ℕ) (e : AvahiEvent) (q : Search) → fixed (step_search h e q) ≡ fixed q
fixed-step_search h (browser_event k event created) q =
    fixed-if (k == h) (async_browse_callback event created q) q (fixed-browse event created q)
fixed-step_search h (resolver_event k found) q =
    fixed-if (k == h) (async_resolve_callback found q) q (fixed-resolve found q)
fixed-step_search h client_failed q = refl

pub fixed-track : (h : ℕ) (es : List AvahiEvent) (q : Search) → fixed (track h es q) ≡ fixed q
fixed-track h [] q = refl
fixed-track h (e ∷ es) q = fixed-track h es (step_search h e q) ∙ fixed-step_search h e q
