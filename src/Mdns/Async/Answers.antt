-- ===== src/Mdns/Async/Answers.antt =====
-- What getAsyncQueryResults() of ESPmDNS.cpp answers for a query that Avahi is done with.
use epoxy_duino.Base.{
  ℕ, ◌≡◌, refl, ap, ◌∙◌, Bool, true, false, ◌||◌, if◌then◌else◌, ltb, List, [], Option, none, some,
  arith,
}
use epoxy_duino.Mdns.Search.{Search}
use epoxy_duino.Mdns.Responder.{Avahi, Mdns, find_search, set_search, run_callbacks, pump_avahi}
use epoxy_duino.Mdns.Results.{Allocation, to_results}
use epoxy_duino.Mdns.Collected.{add_all}
use epoxy_duino.Mdns.Async.{Notice, notices_of, notify, is_search_complete}
use epoxy_duino.Mdns.Async.Handles.{find-set_self}
use epoxy_duino.Mdns.Async.Tracked.{track, find-run_callbacks, fixed-track}
use epoxy_duino.Mdns.Async.Delivered.{
  founds, reports_all, all_answered, all_for_now-track, outstanding-track, results-track,
}
use epoxy_duino.Mdns.Async.Poll.{
  Answer, is_complete_at, wait_complete, answer_query, answer_waited, get_async_query_results,
}

-- The choice that getAsyncQueryResults() makes.
abbrev branch : {A : Type 0} → Option Search → Bool → Bool → A → A → A → Option A → Option A
branch o c t a b d waited =
    let answered = if c then some a else if t then waited else some b in
    elim o [ some q ↦ answered | none ↦ some d ]

branch_first :
    {A : Type 0} (o : Option Search) (p : Search) (c t : Bool) (a b d : A) (waited : Option A)
    → o ≡ some p
    → c ≡ true
    → branch o c t a b d waited ≡ some a
branch_first o p c t a b d waited e f = rw (e, f) refl

complete-flushed :
    (now : ℕ) (q : Search)
    → q.all_for_now ≡ true
    → q.outstanding_resolvers ≡ 0
    → is_search_complete now q ≡ true
unfolding is_search_complete
complete-flushed now q e f = ground arith

complete_at :
    (h now : ℕ) (q : Search) (m : Mdns)
    → find_search h m.active_queries ≡ some q
    → is_search_complete now q ≡ true
    → is_complete_at h now m ≡ true
complete_at h now q m e f = rw (is_complete_at, e) f

pub notify-notices :
    (h : ℕ) (q : Search) → (notify h q).0 ≡ (if q.notified then [] else notices_of h q.notifier)
notify-notices h q = by_notified q.notified
  where
    by_notified :
        (t : Bool)
        → (let r : List Notice × Search =
              if t then ([], q) else (notices_of h q.notifier, record q { notified = true }) in
            r.0 ≡ (if t then [] else notices_of h q.notifier))
    by_notified true = refl
    by_notified false = refl

pub notify-notified : (h : ℕ) (q : Search) → (notify h q).1.notified ≡ true
notify-notified h q = ground arith

module _ {S : Type 0} (avahi : Avahi S) where
  answer_complete :
      (grants : ℕ → Allocation) (h now : ℕ) (q : Search) (m : Mdns) (s : S)
      → find_search h m.active_queries ≡ some q
      → is_search_complete now q ≡ true
      → answer_query avahi grants h now (m, s) ≡ (
        (notify h q).0,
        (
          some (to_results grants 0 q.results),
          (record m { active_queries = set_search h (notify h q).1 m.active_queries }, s),
        ),
      )
  unfolding answer_query
  answer_complete grants h now q m s e f = rw (answer_query, e, f) refl

  pump_avahi-run_callbacks :
      (m : Mdns) (s : S)
      → m.has_poll ≡ true
      → pump_avahi avahi 0 (m, s)
        ≡ (run_callbacks (avahi.simple_poll_iterate 0 s).0 m, (avahi.simple_poll_iterate 0 s).1)
  unfolding pump_avahi
  pump_avahi-run_callbacks m s polls = rw (pump_avahi, polls) refl

  -- If the events of the first pump report all of a query for now, or the failure of its browser,
  -- and each resolver of it that is open or opens answers once, then getAsyncQueryResults() answers
  -- at once, at any time and whatever the time to wait. The results are those that the query had
  -- and the services that were resolved for it, in their order, each added as by addResult(), as far
  -- as memory is granted for them; the notifier is called if it was not before, and the
  -- query is then marked as notified.
  pub get_async_query_results-add_all :
      (grants : ℕ → Allocation) (first_test start : ℕ) (rounds : List (ℕ × ℕ))
      (last_test h timeout : ℕ) (m : Mdns) (s : S) (q : Search)
      → m.has_poll ≡ true
      → find_search h m.active_queries ≡ some q
      → reports_all h (avahi.simple_poll_iterate 0 s).0 ≡ true
      → all_answered h q.outstanding_resolvers (avahi.simple_poll_iterate 0 s).0 ≡ true
      → (a : Answer S) × (get_async_query_results avahi grants first_test start rounds last_test h
            timeout
            (m, s)
          ≡ some a)
        × (a.1.0
            ≡ some (
                to_results grants 0
                  (add_all (founds h (avahi.simple_poll_iterate 0 s).0) q).results))
        × (a.0 ≡ (if q.notified then [] else notices_of h q.notifier))
        × ((r : Search) × (find_search h a.1.1.0.active_queries ≡ some r) × (r.notified ≡ true))
  unfolding get_async_query_results
  get_async_query_results-add_all grants first_test start rounds last_test h timeout m s q polls
        found reported answered =
      let events = (avahi.simple_poll_iterate 0 s).0 in
      let w = pump_avahi avahi 0 (m, s) in
      let p = track h events q in
      let pumped : find_search h w.0.active_queries ≡ some p =
        ap (λ (v : Mdns × S). find_search h v.0.active_queries) (pump_avahi-run_callbacks m s polls)
        ∙ find-run_callbacks h events q m found in
      let done =
        complete-flushed first_test p
          (all_for_now-track h events q ∙ ap (λ b. b || q.all_for_now) reported)
          (outstanding-track h events q answered) in
      (
        answer_query avahi grants h first_test w,
        branch_first (find_search h m.active_queries) q (is_complete_at h first_test w.0)
            (ltb 0 timeout) (answer_query avahi grants h first_test w) ([], (none, w))
            ([], (none, (m, s)))
            (answer_waited avahi grants h last_test (wait_complete avahi h rounds start timeout w))
            found (complete_at h first_test p w.0 pumped done),
        ap (λ (a : Answer S). a.1.0) (answer_complete grants h first_test p w.0 w.1 pumped done)
            ∙ ap (λ rs. some (to_results grants 0 rs)) (results-track h events q),
        ap (λ (a : Answer S). a.0) (answer_complete grants h first_test p w.0 w.1 pumped done)
            ∙ notify-notices h p
            ∙ ap (λ (r : ℕ × ℕ × Bool × Option ℕ × ℕ). if r.2 then [] else notices_of h r.3)
                (fixed-track h events q),
        (
          (notify h p).1,
          ap (λ (a : Answer S). find_search h a.1.1.0.active_queries)
                (answer_complete grants h first_test p w.0 w.1 pumped done)
              ∙ find-set_self h (notify h p).1 p w.0.active_queries pumped,
          notify-notified h p,
        ),
      )
