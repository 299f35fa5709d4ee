-- ===== src/Mdns/Async/Sound.antt =====
-- The count of open resolvers is true after every step (ESPmDNS.cpp: outstanding_resolvers).
use epoxy_duino.Base.{
  ℕ, ◌-◌, ◌≡◌, refl, sym, ap, ◌∙◌, Bool, true, false, ◌||◌, if◌then◌else◌, List, none, some, arith,
}
use mathlib.Core.Path.{subst}
use epoxy_duino.Mdns.Search.{Search, async_browse_callback, async_resolve_callback}
use epoxy_duino.Mdns.Responder.{Avahi, Mdns, run_callback, find_search, is_freed}
use epoxy_duino.Mdns.Async.{
  add_query, new_search, notify, delete_async_query, insert_search, erase_search,
}
use epoxy_duino.Mdns.Async.Handles.{
  find-insert_self, find-insert_ne, find-erase_self, find-erase_ne, find-service_searches,
  on_search-found, delete-found,
}
use epoxy_duino.Mdns.Responder.{touch_client}
use epoxy_duino.Mdns.Async.Runs.{
  count, drop_one, opened, Step, browsed, resolved, served, answered, begun, deleted, Steps, rest,
  next, Fits, IsCounted, IsSound,
}
use epoxy_duino.Mdns.Async.Counts.{
  count-drop_self, count-drop_ne, IsCounted-change, counted_at, IsCounted-set, outstanding-browse,
  count-opened, outstanding-resolve, outstanding-notify, Fits-serviced, found_open,
}

-- a new map of searches
IsSound-queries :
    {S : Type 0} (m : Mdns) (s s' : S) (es : List (ℕ × Search)) (ks ls : List ℕ)
    → IsSound (m, s) ks
    → IsCounted es ls
    → IsSound (record m { active_queries = es }, s') ls
IsSound-queries m s s' es ks ls (counted, tame, kept) counted' = (counted', tame, kept)

IsSound-if :
    {S : Type 0} (b : Bool) (w v : Mdns × S) (ks : List ℕ)
    → IsSound w ks
    → IsSound v ks
    → IsSound (if b then w else v) ks
IsSound-if true w v ks left right = left
IsSound-if false w v ks left right = right

both_false : (a b : Bool) → a ≡ false → b ≡ false → (a || b) ≡ false
both_false a b e f = ground arith

-- the same searches, and another field that IsSound does not read
IsSound-either :
    {S : Type 0} (b answer : Bool) (m : Mdns) (s : S) (ks : List ℕ)
    → IsSound (m, s) ks
    → IsSound (if b then m else record m { yield_registered = answer }, s) ks
IsSound-either true answer m s ks sound = sound
IsSound-either false answer m s ks sound = sound

IsSound-touch :
    {S : Type 0} (m : Mdns) (s : S) (ks : List ℕ)
    → IsSound (m, s) ks
    → IsSound (touch_client m, s) ks
IsSound-touch m s ks (counted, tame, kept) =
    (counted, both_false m.wild (is_freed m) tame kept, kept)

IsCounted-insert :
    (h : ℕ) (q : Search) (es : List (ℕ × Search)) (ks : List ℕ)
    → IsCounted es ks
    → find_search h es ≡ none
    → q.outstanding_resolvers ≡ 0
    → IsCounted (insert_search h q es) ks
IsCounted-insert h q es ks counted missing fresh =
    IsCounted-change h (some q) es (insert_search h q es) ks ks counted (find-insert_self h q es)
      (λ k n. find-insert_ne h k q es n)
      (fresh ∙ sym (subst (λ o. Fits o (count h ks)) missing (counted h))) (λ k n. refl)

IsCounted-erase :
    (h : ℕ) (q : Search) (es : List (ℕ × Search)) (ks : List ℕ)
    → IsCounted es ks
    → find_search h es ≡ some q
    → q.outstanding_resolvers ≡ 0
    → IsCounted (erase_search h es) ks
IsCounted-erase h q es ks counted found none_left =
    IsCounted-change h none es (erase_search h es) ks ks counted (find-erase_self h es)
      (λ k n. find-erase_ne h k es n) (sym (counted_at h q es ks counted found) ∙ none_left)
      (λ k n. refl)

module _ {S : Type 0} (avahi : Avahi S) where
  Step-IsSound :
      {w v : Mdns × S} {ks ls : List ℕ} → Step avahi w ks v ls → IsSound w ks → IsSound v ls
  unfolding run_callback delete_async_query
  Step-IsSound (browsed h q event created m s s' ks found) sound =
      subst (λ n. IsSound (n, s') (opened event created h ks))
        (sym (on_search-found h q (async_browse_callback event created) m found))
        (IsSound-queries m s s' _ ks (opened event created h ks) sound (
          IsCounted-set h q (async_browse_callback event created q) m.active_queries ks
            (opened event created h ks) sound.0 found
            (outstanding-browse event created q h ks
              (counted_at h q m.active_queries ks sound.0 found))
            (λ k n. count-opened event created h k ks n)))
  Step-IsSound (resolved h found m s s' ks open') sound =
      let (q, e) = found_open h m.active_queries ks sound.0 open' in
      subst (λ n. IsSound (n, s') (drop_one h ks))
        (sym (on_search-found h q (async_resolve_callback found) m e))
        (IsSound-queries m s s' _ ks (drop_one h ks) sound (
          IsCounted-set h q (async_resolve_callback found q) m.active_queries ks (drop_one h ks)
            sound.0 e
            (outstanding-resolve found q
              ∙ ap (λ n. n - 1) (counted_at h q m.active_queries ks sound.0 e)
              ∙ sym (count-drop_self h ks))
            (λ k n. count-drop_ne h k ks n)))
  Step-IsSound (served clock m s ks) sound = IsSound-queries m s s _ ks ks sound (λ h.
      subst (λ o. Fits o (count h ks)) (sym (find-service_searches clock h m.active_queries))
        (Fits-serviced clock h (count h ks) (find_search h m.active_queries) (sound.0 h)))
  Step-IsSound (answered h q m s ks found) sound = IsSound-queries m s s _ ks ks sound (
      IsCounted-set h q (notify h q).1 m.active_queries ks ks sound.0 found
        (outstanding-notify h q ∙ counted_at h q m.active_queries ks sound.0 found) (λ k n. refl))
  Step-IsSound (begun now h answer type timeout limit f m s ks missing) sound =
      let (created, s') = avahi.service_browser_new type h s in
      let q = new_search now timeout limit f created in
      let m' : Mdns = touch_client m in
      IsSound-either m.yield_registered answer (add_query h q m') s' ks (
        IsSound-queries m' s s' (insert_search h q m.active_queries) ks ks
          (IsSound-touch m s ks sound)
          (IsCounted-insert h q m.active_queries ks sound.0 missing refl))
  Step-IsSound (deleted h q m s ks found none_left) sound =
      let m' : Mdns = record m { active_queries = erase_search h m.active_queries } in
      let erased =
        IsSound-queries m s s _ ks ks sound
          (IsCounted-erase h q m.active_queries ks sound.0 found none_left) in
      subst (λ w. IsSound w ks) (sym (delete-found avahi h q m s found))
        (IsSound-if q.browsing _ _ ks (IsSound-touch m' s ks erased) erased)

  -- Over any sequence of callbacks, rounds of the service, and starts and ends of queries, in which
  -- Avahi calls only the browsers of searches and resolvers that are open, a new query takes a
  -- handle that is free, a query is ended only when none of its resolvers is open, and the client
  -- does not fail: every search counts its open resolvers, and no memory is used after it was freed,
  -- if this held at the start and the client was not freed.
  pub Steps-IsSound :
      {w v : Mdns × S} {ks ls : List ℕ} → Steps avahi w ks v ls → IsSound w ks → IsSound v ls
  Steps-IsSound (rest w ks) sound = sound
  Steps-IsSound (next w v u ks ls ns before step) sound =
      Step-IsSound step (Steps-IsSound before sound)
