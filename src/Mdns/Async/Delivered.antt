-- ===== src/Mdns/Async/Delivered.antt =====
-- What a search holds after the callbacks of a pump (ESPmDNS.cpp: async_browse_callback(),
-- async_resolve_callback()).
use epoxy_duino.Base.{
  ℕ, ◌+◌, ◌-◌, ◌≡◌, refl, sym, ap, ◌∙◌, Bool, true, false, not, ◌&&◌, ◌||◌, if◌then◌else◌, ltb, leb,
  ◌==◌, List, [], ◌∷◌, ◌++◌, none, some, arith, length,
}
use mathlib.Core.Path.{subst}
use epoxy_duino.Mdns.Search.{
  MdnsService, Search, appeared, removed, cache_exhausted, flushed, failure, async_browse_callback,
  async_resolve_callback, add_result, service_from_resolve, resolver_done, collect,
}
use epoxy_duino.Mdns.Responder.{AvahiEvent, browser_event, resolver_event, client_failed}
use epoxy_duino.Mdns.Collected.{add_all}
use epoxy_duino.Mdns.Async.Tracked.{step_search, track}

-- The services that Avahi resolves for a handle, in order.
abbrev pub founds_of : ℕ → AvahiEvent → List MdnsService
founds_of h (browser_event k event created) = []
founds_of h (resolver_event k none) = []
founds_of h (resolver_event k (some f)) = if k == h then service_from_resolve f ∷ [] else []
founds_of h client_failed = []

abbrev pub founds : ℕ → List AvahiEvent → List MdnsService
founds h [] = []
founds h (e ∷ es) = founds_of h e ++ founds h es

-- Avahi says that all is reported for now, or that it failed.
abbrev pub says_all : ℕ → AvahiEvent → Bool
says_all h (browser_event k flushed created) = k == h
says_all h (browser_event k failure created) = k == h
says_all h (browser_event k appeared created) = false
says_all h (browser_event k removed created) = false
says_all h (browser_event k cache_exhausted created) = false
says_all h (resolver_event k found) = false
says_all h client_failed = false

abbrev pub reports_all : ℕ → List AvahiEvent → Bool
reports_all h [] = false
reports_all h (e ∷ es) = says_all h e || reports_all h es

-- Of `n` open resolvers, and those that open, each answers once, and none is open at the end.
abbrev pub all_answered : ℕ → ℕ → List AvahiEvent → Bool
all_answered h n [] = n == 0
all_answered h n (browser_event k appeared created ∷ es) =
    all_answered h (if (k == h) && created then n + 1 else n) es
all_answered h n (browser_event k removed created ∷ es) = all_answered h n es
all_answered h n (browser_event k cache_exhausted created ∷ es) = all_answered h n es
all_answered h n (browser_event k flushed created ∷ es) = all_answered h n es
all_answered h n (browser_event k failure created ∷ es) = all_answered h n es
all_answered h n (resolver_event k found ∷ es) =
    (not (k == h) || ltb 0 n) && all_answered h (if k == h then n - 1 else n) es
all_answered h n (client_failed ∷ es) = all_answered h n es

all_for_now-step_search :
    (h : ℕ) (e : AvahiEvent) (q : Search)
    → (step_search h e q).all_for_now ≡ (says_all h e || q.all_for_now)
unfolding async_browse_callback async_resolve_callback add_result
all_for_now-step_search h (browser_event k appeared created) q = ground arith
all_for_now-step_search h (browser_event k removed created) q = ground arith
all_for_now-step_search h (browser_event k cache_exhausted created) q = ground arith
all_for_now-step_search h (browser_event k flushed created) q = ground arith
all_for_now-step_search h (browser_event k failure created) q = ground arith
all_for_now-step_search h (resolver_event k none) q = ground arith
all_for_now-step_search h (resolver_event k (some f)) q = ground arith
all_for_now-step_search h client_failed q = refl

or_assoc : (a b c : Bool) → (b || (a || c)) ≡ ((a || b) || c)
or_assoc a b c = ground arith

pub all_for_now-track :
    (h : ℕ) (es : List AvahiEvent) (q : Search)
    → (track h es q).all_for_now ≡ (reports_all h es || q.all_for_now)
all_for_now-track h [] q = refl
all_for_now-track h (e ∷ es) q =
    all_for_now-track h es (step_search h e q)
    ∙ ap (λ b. reports_all h es || b) (all_for_now-step_search h e q)
    ∙ or_assoc (says_all h e) (reports_all h es) q.all_for_now

and_right : (a b : Bool) → (a && b) ≡ true → b ≡ true
and_right a b e = ground arith

outstanding-step_search :
    (h : ℕ) (e : AvahiEvent) (es : List AvahiEvent) (q : Search)
    → all_answered h q.outstanding_resolvers (e ∷ es) ≡ true
    → all_answered h (step_search h e q).outstanding_resolvers es ≡ true
unfolding async_browse_callback async_resolve_callback add_result
outstanding-step_search h (browser_event k appeared created) es q a =
    subst (λ n. all_answered h n es ≡ true) (ground arith) a
outstanding-step_search h (browser_event k removed created) es q a =
    subst (λ n. all_answered h n es ≡ true) (ground arith) a
outstanding-step_search h (browser_event k cache_exhausted created) es q a =
    subst (λ n. all_answered h n es ≡ true) (ground arith) a
outstanding-step_search h (browser_event k flushed created) es q a =
    subst (λ n. all_answered h n es ≡ true) (ground arith) a
outstanding-step_search h (browser_event k failure created) es q a =
    subst (λ n. all_answered h n es ≡ true) (ground arith) a
outstanding-step_search h (resolver_event k none) es q a =
    let n = q.outstanding_resolvers in
    let after = all_answered h (if k == h then n - 1 else n) es in
    let rest : after ≡ true = and_right (not (k == h) || ltb 0 n) after a in
    subst (λ n. all_answered h n es ≡ true) (ground arith) rest
outstanding-step_search h (resolver_event k (some f)) es q a =
    let n = q.outstanding_resolvers in
    let after = all_answered h (if k == h then n - 1 else n) es in
    let rest : after ≡ true = and_right (not (k == h) || ltb 0 n) after a in
    subst (λ n. all_answered h n es ≡ true) (ground arith) rest
outstanding-step_search h client_failed es q a = a

pub outstanding-track :
    (h : ℕ) (es : List AvahiEvent) (q : Search)
    → all_answered h q.outstanding_resolvers es ≡ true
    → (track h es q).outstanding_resolvers ≡ 0
outstanding-track h [] q a = ground arith
outstanding-track h (e ∷ es) q a =
    outstanding-track h es (step_search h e q) (outstanding-step_search h e es q a)

add_all-append :
    (xs ys : List MdnsService) (s : Search) → add_all (xs ++ ys) s ≡ add_all ys (add_all xs s)
add_all-append [] ys s = refl
add_all-append (x ∷ xs) ys s = add_all-append xs ys (add_result x s)

-- what addResult() reads of a search
abbrev kept : Search → List MdnsService × ℕ
kept q = (q.results, q.max_results)

abbrev kept_with : MdnsService → List MdnsService × ℕ → List MdnsService × ℕ
kept_with x r = (collect (ltb 0 r.1 && leb r.1 (length r.0)) x r.0, r.1)

kept-add_all :
    (xs : List MdnsService) (s t : Search)
    → kept s ≡ kept t
    → kept (add_all xs s) ≡ kept (add_all xs t)
unfolding add_result
kept-add_all [] s t e = e
kept-add_all (x ∷ xs) s t e = kept-add_all xs (add_result x s) (add_result x t) (ap (kept_with x) e)

kept-if : (t : Bool) (p q : Search) → kept p ≡ kept q → kept (if t then p else q) ≡ kept q
kept-if true p q e = e
kept-if false p q e = refl

kept-done : (q : Search) → kept (resolver_done q) ≡ kept q
kept-done q =
    kept-if (ltb 0 q.outstanding_resolvers)
      (record q { outstanding_resolvers = q.outstanding_resolvers - 1 }) q refl

kept-step_search :
    (h : ℕ) (e : AvahiEvent) (q : Search)
    → kept (step_search h e q) ≡ kept (add_all (founds_of h e) q)
unfolding async_browse_callback async_resolve_callback add_result
kept-step_search h (browser_event k appeared true) q =
    kept-if (k == h) (async_browse_callback appeared true q) q refl
kept-step_search h (browser_event k appeared false) q =
    kept-if (k == h) (async_browse_callback appeared false q) q refl
kept-step_search h (browser_event k removed created) q =
    kept-if (k == h) (async_browse_callback removed created q) q refl
kept-step_search h (browser_event k cache_exhausted created) q =
    kept-if (k == h) (async_browse_callback cache_exhausted created q) q refl
kept-step_search h (browser_event k flushed created) q =
    kept-if (k == h) (async_browse_callback flushed created q) q refl
kept-step_search h (browser_event k failure created) q =
    kept-if (k == h) (async_browse_callback failure created q) q refl
kept-step_search h (resolver_event k none) q =
    kept-if (k == h) (async_resolve_callback none q) q (kept-done q)
kept-step_search h (resolver_event k (some f)) q = by_handle (k == h)
  where
    by_handle :
        (t : Bool)
        → kept (if t then async_resolve_callback (some f) q else q)
          ≡ kept (add_all (if t then service_from_resolve f ∷ [] else []) q)
    by_handle true = kept-done (add_result (service_from_resolve f) q)
    by_handle false = refl
kept-step_search h client_failed q = refl

kept-track :
    (h : ℕ) (es : List AvahiEvent) (q : Search)
    → kept (track h es q) ≡ kept (add_all (founds h es) q)
kept-track h [] q = refl
kept-track h (e ∷ es) q =
    kept-track h es (step_search h e q)
    ∙ kept-add_all (founds h es) (step_search h e q) (add_all (founds_of h e) q)
        (kept-step_search h e q)
    ∙ ap kept (sym (add_all-append (founds_of h e) (founds h es) q))

pub results-track :
    (h : ℕ) (es : List AvahiEvent) (q : Search)
    → (track h es q).results ≡ (add_all (founds h es) q).results
results-track h es q = ap (λ r. r.0) (kept-track h es q)
