-- ===== src/Mdns/Served.antt =====
-- A query of mDNS on a board: beginAsyncQuery() of ESPmDNS.cpp registers the responder as a service of
-- yield() (cores/epoxy/Arduino.cpp), and the pump advances its queries. The board's user state is
-- that of the responder, with the notices that its notifiers were called with.
use epoxy_duino.Base.{
  ℕ, zero, suc, ◌+◌, ◌-◌, ◌%◌, ◌^◌, ◌<◌, ◌≤◌, ◌≡◌, not, append_assoc, refl, sym, ap, ◌∙◌, Bool,
  true, false, ◌&&◌, if◌then◌else◌, ◌==◌, ==_self, List, [], ◌∷◌, ◌++◌, Option, none, some, length,
  arith,
}
use epoxy_duino.Base.Text.{Bytes}
use epoxy_duino.Board.{Board, YieldServiceEntry}
use epoxy_duino.Board.Yield.{
  same_pointer, matches, has_entry, fill_entry, update_table, max_yield_service_callbacks,
  register_yield_service_callback, service_yield_callbacks,
}
use epoxy_duino.Board.Yield.Slots.{entry_count, free_count, same_pointer_self}
use epoxy_duino.Board.Yield.Table.{register_yield_service_callback_counts}
use epoxy_duino.Board.Yield.Service.{on_service, run_services, service_yield_callbacks_lem}
use mathlib.Core.Path.{subst}
use epoxy_duino.Mdns.Search.{Search}
use epoxy_duino.Mdns.Responder.{Avahi, Mdns, find_search, pump_avahi, init_avahi}
use epoxy_duino.Mdns.Async.{
  Notice, is_search_complete, service_search, new_search, query_on, begin_async_query,
  service_async_queries,
}
use epoxy_duino.Mdns.Async.Handles.{find-service_searches, serviced}
use epoxy_duino.Mdns.Async.Rounds.{
  complete_late, notice_of, notified-service_search, begin_async_query-query_on, find-query_on,
  registered-query_on, find-pump_avahi, service_async_queries-found,
}

one_more : (n : ℕ) → 1 + n ≡ suc n
one_more n = omega arith

none_more : (n : ℕ) → 0 + n ≡ n
none_more n = omega arith

abbrev HasLength : ℕ → Option (List YieldServiceEntry) → Type 0
HasLength n none = Unit
HasLength n (some r) = length r ≡ n

fill_entry-HasLength :
    (f x : Option ℕ) (es : List YieldServiceEntry) → HasLength (length es) (fill_entry f x es)
unfolding fill_entry
fill_entry-HasLength f x [] = tt
fill_entry-HasLength f x (e ∷ es) =
    filled (same_pointer e.callback none) (fill_entry f x es) (fill_entry-HasLength f x es)
  where
    filled :
        (t : Bool) (o : Option (List YieldServiceEntry))
        → HasLength (length es) o
        → HasLength (suc (length es)) (
            if t
            then some (record { callback = f; context = x } ∷ es)
            else elim o [ some r ↦ some (e ∷ r) | none ↦ none ])
    filled true o h = refl
    filled false none h = tt
    filled false (some r) h = ap suc h

length-choose :
    {V : Type 0} (b : Board V) (t : Bool) (o : Option (List YieldServiceEntry))
    → HasLength (length b.yield_service_entries) o
    → (let u : Board V × Bool = if t then (b, true) else update_table b o in
        length u.0.yield_service_entries ≡ length b.yield_service_entries)
length-choose b true o h = refl
length-choose b false none h = refl
length-choose b false (some r) h = h

module _ {U : Type 0} (f : ℕ) (x : Option ℕ) (serve : U → U) where
  -- the service that the pair of a function and its context stands for; others leave U alone
  abbrev pub only : ℕ → Option ℕ → U → U
  only g y u = if (g == f) && same_pointer y x then serve u else u

  abbrev times : ℕ → U → U
  times zero u = u
  times (suc n) u = times n (serve u)

  times-count :
      (b : Bool) (n : ℕ) (u : U)
      → times ((if b then 1 else 0) + n) u ≡ times n (if b then serve u else u)
  times-count true n u = ap (λ k. times k u) (one_more n)
  times-count false n u = ap (λ k. times k u) (none_more n)

  one_entry :
      (c y : Option ℕ) (u : U)
      → (elim c [ some g ↦ only g y u | none ↦ u ])
        ≡ (if same_pointer c (some f) && same_pointer y x then serve u else u)
  unfolding same_pointer
  one_entry none y u = refl
  one_entry (some g) y u = refl

  run_services-only :
      (es : List YieldServiceEntry) (u : U)
      → run_services only es u ≡ times (entry_count (some f) x es) u
  run_services-only [] u = refl
  run_services-only (e ∷ es) u =
      ap (run_services only es) (one_entry e.callback e.context u)
      ∙ run_services-only es (if matches (some f) x e then serve u else u)
      ∙ sym (times-count (matches (some f) x e) (entry_count (some f) x es) u)

  run_services-once :
      (es : List YieldServiceEntry) (u : U)
      → entry_count (some f) x es ≡ 1
      → run_services only es u ≡ serve u
  run_services-once es u e = run_services-only es u ∙ ap (λ n. times n u) e

  -- the table after the registration
  length-register :
      {V : Type 0} (b : Board V)
      → length (register_yield_service_callback b (some f) x).0.yield_service_entries
        ≡ length b.yield_service_entries
  unfolding register_yield_service_callback
  length-register b =
      length-choose b (has_entry (some f) x b.yield_service_entries)
        (fill_entry (some f) x b.yield_service_entries)
        (fill_entry-HasLength (some f) x b.yield_service_entries)

module _ {S : Type 0} (avahi : Avahi S) where
  -- the service of the responder, which keeps the notices
  abbrev pub serve_queries : (ℕ → ℕ) → List Notice × (Mdns × S) → List Notice × (Mdns × S)
  serve_queries clock (log, w) =
      let (calls, w') = service_async_queries avahi clock w in (log ++ calls, w')

  -- beginAsyncQuery() on a board, with the registration that it makes there where it gets so far and
  -- the responder is not registered yet; `f` and `x` are serviceAsyncQueries() and the responder.
  abbrev pub ask :
      ℕ
      → Option ℕ
      → ℕ
      → ℕ
      → Option Bytes
      → Option Bytes
      → ℕ
      → ℕ
      → Option ℕ
      → Board (List Notice × (Mdns × S))
      → Option ℕ × Board (List Notice × (Mdns × S))
  ask f x now handle service proto timeout limit notifier b =
      let (b', answer) = register_yield_service_callback b (some f) x in
      let (result, w) =
        begin_async_query avahi now answer handle service proto timeout limit notifier b.user.1 in
      let ready : Bool × (Mdns × S) = init_avahi avahi b.user.1 in
      let registers : Bool = elim result [
        | some h ↦ not ready.1.0.yield_registered
        | none ↦ false
      ] in
      let left : Board (List Notice × (Mdns × S)) = if registers then b' else b in
      (result, record left { user = (b.user.0, w) })

  -- What the pump after a query leaves: the service of the responder ran once; the notice of the
  -- query is among the new ones, and the query is marked as notified.
  abbrev pub Noticed :
      (n handle : ℕ) → Board (List Notice × (Mdns × S)) → List Notice × (Mdns × S) → Type 0
  Noticed n handle b u =
      ((front back : List Notice) × (u.0 ≡ b.user.0 ++ front ++ (n, handle) ∷ back))
      × ((r : Search) × (find_search handle u.1.0.active_queries ≡ some r) × (r.notified ≡ true))

  serve_queries-Noticed :
      (clock : ℕ → ℕ) (n handle now timeout limit : ℕ) (created : Bool)
      (b : Board (List Notice × (Mdns × S))) (m : Mdns) (s : S)
      → find_search handle m.active_queries ≡ some (new_search now timeout limit (some n) created)
      → 0 < timeout
      → timeout ≤ (clock handle + 2 ^ 32 - now % 2 ^ 32) % 2 ^ 32
      → Noticed n handle b (serve_queries clock (b.user.0, (m, s)))
  serve_queries-Noticed clock n handle now timeout limit created b m s found timed over =
      let q = new_search now timeout limit (some n) created in
      let (p, pumped, same) = find-pump_avahi avahi handle q m s found in
      let es = (pump_avahi avahi 0 (m, s)).0.active_queries in
      let start_ms : p.start_ms ≡ now % 2 ^ 32 = ap (λ r. r.0) same in
      let timeout_ms : p.timeout_ms ≡ timeout = ap (λ r. r.1) same in
      let done : is_search_complete (clock handle) p ≡ true =
        complete_late (clock handle) p (rw timeout_ms timed) (rw (timeout_ms, start_ms) over) in
      let (front, back, calls) =
        notice_of clock handle n p es pumped done (ap (λ r. r.2) same) (ap (λ r. r.3) same) in
      let serviced_now = service_async_queries-found avahi clock handle q m s found in
      (
        (
          front,
          back,
          ap (λ (r : List Notice × (Mdns × S)). b.user.0 ++ r.0) serviced_now
              ∙ ap (λ cs. b.user.0 ++ cs) calls
              ∙ sym (append_assoc b.user.0 front ((n, handle) ∷ back)),
        ),
        (
          (service_search (clock handle) handle p).1,
          ap (λ (r : List Notice × (Mdns × S)). find_search handle r.1.0.active_queries)
                serviced_now
              ∙ find-service_searches clock handle es
              ∙ ap (serviced clock handle) pumped,
          notified-service_search (clock handle) handle p done,
        ),
      )

  -- what ask leaves, from the answer of beginAsyncQuery() on
  abbrev asked_with :
      (b b' : Board (List Notice × (Mdns × S)))
      → Bool
      → Option ℕ × (Mdns × S)
      → Option ℕ × Board (List Notice × (Mdns × S))
  asked_with b b' registered r =
      let registers : Bool = elim r.0 [ some h ↦ not registered | none ↦ false ] in
      let left : Board (List Notice × (Mdns × S)) = if registers then b' else b in
      (r.0, record left { user = (b.user.0, r.1) })

  ask-registers :
      (f : ℕ) (x : Option ℕ) (b : Board (List Notice × (Mdns × S))) (now handle : ℕ)
      (service proto : Bytes) (timeout limit : ℕ) (notifier : Option ℕ)
      → (register_yield_service_callback b (some f) x).1 ≡ true
      → (init_avahi avahi b.user.1).0 ≡ true
      → (init_avahi avahi b.user.1).1.0.yield_registered ≡ false
      → ask f x now handle (some service) (some proto) timeout limit notifier b ≡ (
        some handle,
        record (register_yield_service_callback b (some f) x).0 {
          user = (
            b.user.0,
            query_on avahi now true handle
                (service ++ b'.' ∷ proto)
                timeout
                limit
                notifier
                (init_avahi avahi b.user.1).1,
          );
        },
      )
  ask-registers f x b now handle service proto timeout limit notifier answered ready fresh =
      let (b', answer) = register_yield_service_callback b (some f) x in
      let w : Mdns × S = (init_avahi avahi b.user.1).1 in
      let type = service ++ b'.' ∷ proto in
      ap (asked_with b b' w.0.yield_registered) (
        begin_async_query-query_on avahi now handle timeout limit answer service proto notifier
          b.user.1 ready)
      ∙ ap
          (λ (g : Bool).
            asked_with b b' g
              (some handle, query_on avahi now answer handle type timeout limit notifier w))
          fresh
      ∙ ap
          (λ (a : Bool).
            asked_with b b' false
              (some handle, query_on avahi now a handle type timeout limit notifier w))
          answered

  -- On a board with its 16 slots, one of them free, where the responder is not registered and has or
  -- gets its client, beginAsyncQuery() with a notifier and a timeout answers the handle and
  -- registers the responder. The services of the next pump, if they run when the timeout is over, then
  -- call serviceAsyncQueries() once: whatever Avahi reports in it, it calls the notifier with the
  -- handle, and marks the query. No other service has to do with the responder.
  pub service_yield_callbacks-ask :
      (f : ℕ) (x : Option ℕ) (b : Board (List Notice × (Mdns × S))) (now handle : ℕ)
      (service proto : Bytes) (timeout limit n : ℕ) (clock : ℕ → ℕ)
      → length b.yield_service_entries ≡ max_yield_service_callbacks
      → entry_count (some f) x b.yield_service_entries ≡ 0
      → (free_count b.yield_service_entries == 0) ≡ false
      → (init_avahi avahi b.user.1).0 ≡ true
      → (init_avahi avahi b.user.1).1.0.yield_registered ≡ false
      → 0 < timeout
      → timeout ≤ (clock handle + 2 ^ 32 - now % 2 ^ 32) % 2 ^ 32
      → (let (result, asked) =
            ask f x now handle (some service) (some proto) timeout limit (some n) b in
          let served =
            service_yield_callbacks (on_service (only f x (serve_queries clock))) asked in
          (result ≡ some handle)
          × (asked.user.1.0.yield_registered ≡ true)
          × (served ≡ record asked { user = serve_queries clock asked.user })
          × Noticed n handle b served.user)
  service_yield_callbacks-ask f x b now handle service proto timeout limit n clock full absent' free
        ready fresh timed over =
      let (b', answer) = register_yield_service_callback b (some f) x in
      let w : Mdns × S = (init_avahi avahi b.user.1).1 in
      let type = service ++ b'.' ∷ proto in
      let v : Mdns × S = query_on avahi now true handle type timeout limit (some n) w in
      let u : List Notice × (Mdns × S) = (b.user.0, v) in
      let registered = register_yield_service_callback_counts b f x f x in
      let answered : answer ≡ true = ground (arith, registered.0, absent', free) in
      let served : service_yield_callbacks (on_service (only f x (serve_queries clock)))
            (record b' { user = u })
          ≡ record b' { user = serve_queries clock u } =
        service_yield_callbacks_lem (only f x (serve_queries clock)) (record b' { user = u })
          (length-register f x (serve_queries clock) b ∙ full)
        ∙ ap (λ v. record b' { user = v })
            (run_services-once f x (serve_queries clock) b'.yield_service_entries u
              (ground (arith, registered.1, absent', free, ==_self f, same_pointer_self x))) in
      let found = find-query_on avahi now handle timeout limit true type (some n) w.0 w.1 in
      let noticed =
        serve_queries-Noticed clock n handle now timeout limit
          (avahi.service_browser_new type handle w.1).0 b v.0 v.1 found timed over in
      subst
        (λ (r : Option ℕ × Board (List Notice × (Mdns × S))).
          (r.0 ≡ some handle)
          × (r.1.user.1.0.yield_registered ≡ true)
          × (service_yield_callbacks (on_service (only f x (serve_queries clock))) r.1
              ≡ record r.1 { user = serve_queries clock r.1.user })
          × Noticed n handle b
              (service_yield_callbacks (on_service (only f x (serve_queries clock))) r.1).user)
        (sym (
          ask-registers f x b now handle service proto timeout limit (some n) answered ready fresh))
        (
          refl,
          registered-query_on avahi now handle timeout limit type (some n) w,
          served,
          subst (λ (t : Board (List Notice × (Mdns × S))). Noticed n handle b t.user) (sym served)
              noticed,
        )
