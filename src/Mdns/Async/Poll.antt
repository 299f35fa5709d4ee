-- ===== src/Mdns/Async/Poll.antt =====
-- The results of a query that does not wait (ESPmDNS.cpp: getAsyncQueryResults() and its C interface).
use epoxy_duino.Base.{
  ℕ, ◌+◌, ◌-◌, ◌%◌, ◌^◌, Bool, false, if◌then◌else◌, ltb, List, [], ◌∷◌, Option, none, some,
}
use epoxy_duino.Mdns.Results.{Allocation, MdnsResult, to_result, to_results}
use epoxy_duino.Mdns.Responder.{Avahi, Mdns, find_search, set_search, pump_avahi}
use epoxy_duino.Mdns.Async.{Notice, notify, is_search_complete}

-- the test of the search behind a handle
abbrev pub is_complete_at : ℕ → ℕ → Mdns → Bool
is_complete_at h now m = elim (find_search h m.active_queries) [
  | some q ↦ is_search_complete now q
  | none ↦ false
]

-- The notifiers that are called, and the results where the query is complete.
abbrev pub Answer : Type 0 → Type 0
Answer S = List Notice × (Option (List MdnsResult) × (Mdns × S))

module _ {S : Type 0} (avahi : Avahi S) where
  -- The loop of getAsyncQueryResults() that waits. A round has what millis() reads in the test of the
  -- loop and in the test of the search; `none` where the rounds end before the loop does.
  unfoldable pub wait_complete : ℕ → List (ℕ × ℕ) → ℕ → ℕ → Mdns × S → Option (Mdns × S)
  unfolding pump_avahi find_search is_search_complete
  wait_complete h [] start timeout w = none
  wait_complete h ((tested, now) ∷ rounds) start timeout w =
      let w' = pump_avahi avahi 0 w in
      let later = wait_complete h rounds start timeout w' in
      if ltb ((tested + 2 ^ 32 - start % 2 ^ 32) % 2 ^ 32) timeout
      then if is_complete_at h now w'.0 then some w' else later
      else some w

  -- What getAsyncQueryResults() does with a search: it answers its results, where it is complete.
  unfoldable pub answer_query : (ℕ → Allocation) → ℕ → ℕ → Mdns × S → Answer S
  unfolding find_search set_search is_search_complete to_result
  answer_query grants h now (m, s) = elim (find_search h m.active_queries) [
    | some q ↦
        (if is_search_complete now q
          then (
            (notify h q).0,
            (
              some (to_results grants 0 q.results),
              (record m { active_queries = set_search h (notify h q).1 m.active_queries }, s),
            ),
          )
          else ([], (none, (m, s))))
    | none ↦ ([], (none, (m, s)))
  ]

  abbrev pub answer_waited : (ℕ → Allocation) → ℕ → ℕ → Option (Mdns × S) → Option (Answer S)
  answer_waited grants h now none = none
  answer_waited grants h now (some w) = some (answer_query grants h now w)

  -- `first_test` and `last_test` are what millis() reads at the tests before and behind the loop,
  -- `start` at its start.
  unfoldable pub get_async_query_results :
      (ℕ → Allocation) → ℕ → ℕ → List (ℕ × ℕ) → ℕ → ℕ → ℕ → Mdns × S → Option (Answer S)
  unfolding pump_avahi find_search is_search_complete wait_complete answer_query
  get_async_query_results grants first_test start rounds last_test h timeout (m, s) =
      let w = pump_avahi avahi 0 (m, s) in
      let waited = answer_waited grants h last_test (wait_complete h rounds start timeout w) in
      let answered : Option (Answer S) =
        if is_complete_at h first_test w.0
        then some (answer_query grants h first_test w)
        else if ltb 0 timeout
        then waited
        else some ([], (none, w)) in
      elim (find_search h m.active_queries) [ some q ↦ answered | none ↦ some ([], (none, (m, s))) ]

  -- A null handle is `none`; `wanted` is whether there is a place for the results.
  unfoldable mdns_query_async_get_results :
      (ℕ → Allocation)
      → ℕ
      → ℕ
      → List (ℕ × ℕ)
      → ℕ
      → Option ℕ
      → Bool
      → ℕ
      → Mdns × S
      → Option (Answer S)
  unfolding get_async_query_results
  mdns_query_async_get_results grants first_test start rounds last_test none wanted timeout w =
      some ([], (none, w))
  mdns_query_async_get_results grants first_test start rounds last_test (some h) wanted timeout w =
      let result = get_async_query_results grants first_test start rounds last_test h timeout w in
      if wanted then result else some ([], (none, w))
