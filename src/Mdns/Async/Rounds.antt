-- ===== src/Mdns/Async/Rounds.antt =====
-- A query that begins, and the round of its service (ESPmDNS.cpp: beginAsyncQuery(),
-- serviceAsyncQueries()).
use epoxy_duino.Base.{
  ℕ, ◌+◌, ◌-◌, ◌%◌, ◌^◌, ◌<◌, ◌≤◌, ◌≡◌, Bool-cases, inl, inr, append_assoc, ==_iff, refl, sym, ap,
  ◌∙◌, Bool, true, false, if◌then◌else◌, ◌==◌, List, [], ◌∷◌, ◌++◌, Option, some, arith,
}
use epoxy_duino.Base.Text.{Bytes}
use mathlib.Core.Option.{some-injective}
use epoxy_duino.Mdns.Search.{Search}
use epoxy_duino.Mdns.Responder.{Avahi, Mdns, touch_client, find_search, pump_avahi, init_avahi}
use epoxy_duino.Mdns.Async.{
  Notice, is_search_complete, service_search, service_searches, new_search, insert_search,
  add_query, query_on, begin_async_query, service_async_queries,
}
use epoxy_duino.Mdns.Async.Handles.{find-insert_self}
use epoxy_duino.Mdns.Async.Tracked.{fixed, track, find-run_callbacks, fixed-track}

if_true : {A : Type 0} {t : Bool} (a c : A) → t ≡ true → (if t then a else c) ≡ a
if_true a c h = rw h refl

if_false : {A : Type 0} {t : Bool} (a c : A) → t ≡ false → (if t then a else c) ≡ c
if_false a c h = rw h refl

-- a map with a search is not empty
some_queries :
    {A : Type 0} (h : ℕ) (q : Search) (es : List (ℕ × Search)) (a c : A)
    → find_search h es ≡ some q
    → (elim es [ [] ↦ a | _ ∷ _ ↦ c ]) ≡ c
unfolding find_search
some_queries h q [] a c found = absurd cc
some_queries h q (e ∷ es) a c found = refl

-- A query whose time is over is complete.
pub complete_late :
    (late : ℕ) (p : Search)
    → 0 < p.timeout_ms
    → p.timeout_ms ≤ (late + 2 ^ 32 - p.start_ms) % 2 ^ 32
    → is_search_complete late p ≡ true
unfolding is_search_complete
complete_late late p timed over = ground arith

calls-service_search :
    (now h n : ℕ) (p : Search)
    → is_search_complete now p ≡ true
    → p.notified ≡ false
    → p.notifier ≡ some n
    → (service_search now h p).0 ≡ (n, h) ∷ []
unfolding service_search
calls-service_search now h n p done fresh named = rw (done, fresh, named) refl

-- The notice of a search that is complete is among those of a round.
pub notice_of :
    (clock : ℕ → ℕ) (h n : ℕ) (p : Search) (es : List (ℕ × Search))
    → find_search h es ≡ some p
    → is_search_complete (clock h) p ≡ true
    → p.notified ≡ false
    → p.notifier ≡ some n
    → (front back : List Notice) × ((service_searches clock es).0 ≡ front ++ (n, h) ∷ back)
unfolding find_search service_searches service_search
notice_of clock h n p [] found done fresh named = absurd cc
notice_of clock h n p ((k, s) ∷ es) found done fresh named = elim (Bool-cases (k == h)) [
  | inl same ↦
      let k_h : k ≡ h = (==_iff k h).0 same in
      let s_p : s ≡ p = some-injective s p (sym (if_true _ _ same) ∙ found) in
      (
        [],
        (service_searches clock es).0,
        ap (λ cs. cs ++ (service_searches clock es).0)
            (ap (λ k. (service_search (clock k) k s).0) k_h
              ∙ ap (λ s. (service_search (clock h) h s).0) s_p
              ∙ calls-service_search (clock h) h n p done fresh named),
      )
  | inr other ↦
      let (front, back, e) =
        notice_of clock h n p es (sym (if_false _ _ other) ∙ found) done fresh named in
      let now = (service_search (clock k) k s).0 in
      (now ++ front, back, ap (λ cs. now ++ cs) e ∙ sym (append_assoc now front ((n, h) ∷ back)))
]

pub notified-service_search :
    (now h : ℕ) (p : Search)
    → is_search_complete now p ≡ true
    → (service_search now h p).1.notified ≡ true
unfolding service_search
notified-service_search now h p done = ground arith

module _ {S : Type 0} (avahi : Avahi S) where
  pub begin_async_query-query_on :
      (now handle timeout limit : ℕ) (answer : Bool) (service proto : Bytes) (notifier : Option ℕ)
      (w : Mdns × S)
      → (init_avahi avahi w).0 ≡ true
      → begin_async_query avahi now answer handle
          (some service)
          (some proto)
          timeout
          limit
          notifier
          w
        ≡ (
          some handle,
          query_on avahi now answer handle
              (service ++ b'.' ∷ proto)
              timeout
              limit
              notifier
              (init_avahi avahi w).1,
        )
  unfolding begin_async_query
  begin_async_query-query_on now handle timeout limit answer service proto notifier w ok =
      rw (begin_async_query, ok) refl

  pub find-query_on :
      (now handle timeout limit : ℕ) (answer : Bool) (type : Bytes) (notifier : Option ℕ) (m : Mdns)
      (s : S)
      → find_search handle
          (query_on avahi now answer handle type timeout limit notifier (m, s)).0.active_queries
        ≡ some (new_search now timeout limit notifier (avahi.service_browser_new type handle s).0)
  find-query_on now handle timeout limit answer type notifier m s =
      ap (find_search handle) (same_queries m.yield_registered)
      ∙ find-insert_self handle q m.active_queries
    where
      q : Search
      q = new_search now timeout limit notifier (avahi.service_browser_new type handle s).0

      same_queries :
          (t : Bool)
          → (let m' = add_query handle q (touch_client m) in
              let r : Mdns = if t then m' else record m' { yield_registered = answer } in
              r.active_queries ≡ insert_search handle q m.active_queries)
      same_queries true = refl
      same_queries false = refl

  pub registered-query_on :
      (now handle timeout limit : ℕ) (type : Bytes) (notifier : Option ℕ) (w : Mdns × S)
      → (query_on avahi now true handle type timeout limit notifier w).0.yield_registered ≡ true
  registered-query_on now handle timeout limit type notifier (m, s) = ground arith

  -- the pump moves a search by its callbacks only
  pub find-pump_avahi :
      (h : ℕ) (q : Search) (m : Mdns) (s : S)
      → find_search h m.active_queries ≡ some q
      → (p : Search) × (find_search h (pump_avahi avahi 0 (m, s)).0.active_queries ≡ some p)
        × (fixed p ≡ fixed q)
  unfolding pump_avahi
  find-pump_avahi h q m s found = elim (Bool-cases m.has_poll) [
    | inl polls ↦
        let events = (avahi.simple_poll_iterate 0 s).0 in
        (
          track h events q,
          ap (λ (v : Mdns × S). find_search h v.0.active_queries) (if_true _ _ polls)
              ∙ find-run_callbacks h events q m found,
          fixed-track h events q,
        )
    | inr idle ↦ (
      q,
      ap (λ (v : Mdns × S). find_search h v.0.active_queries) (if_false _ _ idle) ∙ found,
      refl,
    )
  ]

  pub service_async_queries-found :
      (clock : ℕ → ℕ) (h : ℕ) (q : Search) (m : Mdns) (s : S)
      → find_search h m.active_queries ≡ some q
      → service_async_queries avahi clock (m, s) ≡ (
          let (m', s') = pump_avahi avahi 0 (m, s) in
          let (calls, es) = service_searches clock m'.active_queries in
          (calls, (record m' { active_queries = es }, s')))
  unfolding service_async_queries
  service_async_queries-found clock h q m s found =
      let (m', s') = pump_avahi avahi 0 (m, s) in
      let (calls, es) = service_searches clock m'.active_queries in
      some_queries h q m.active_queries ([], (m, s))
        (calls, (record m' { active_queries = es }, s')) found
