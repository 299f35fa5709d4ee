-- ===== src/Mdns/Async/Handles.antt =====
-- The searches behind the handles of mDNS queries: what a lookup finds after each change of the map.
use epoxy_duino.Base.{if◌then◌else◌, ℕ, ◌≡◌, ◌≢◌, refl, List, [], ◌∷◌, Option, none, some, arith}
use epoxy_duino.Mdns.Search.{Search}
use epoxy_duino.Mdns.Responder.{Avahi, Mdns, touch_client, on_search, find_search, set_search}
use epoxy_duino.Mdns.Async.{
  delete_async_query, insert_search, erase_search, service_search, service_searches,
}

pub find-set_self :
    (h : ℕ) (s q : Search) (es : List (ℕ × Search))
    → find_search h es ≡ some q
    → find_search h (set_search h s es) ≡ some s
unfolding find_search set_search
find-set_self h s q [] e = cc
find-set_self h s q ((k, r) ∷ es) e = ground (arith, find-set_self h s q es)

pub find-set_ne :
    (h k : ℕ) (s : Search) (es : List (ℕ × Search))
    → h ≢ k
    → find_search k (set_search h s es) ≡ find_search k es
unfolding find_search set_search
find-set_ne h k s [] n = refl
find-set_ne h k s ((l, r) ∷ es) n = ground (arith, find-set_ne h k s es n)

pub find-insert_self :
    (h : ℕ) (s : Search) (es : List (ℕ × Search)) → find_search h (insert_search h s es) ≡ some s
unfolding find_search insert_search
find-insert_self h s [] = ground arith
find-insert_self h s ((l, r) ∷ es) = ground (arith, find-insert_self h s es)

pub find-insert_ne :
    (h k : ℕ) (s : Search) (es : List (ℕ × Search))
    → h ≢ k
    → find_search k (insert_search h s es) ≡ find_search k es
unfolding find_search insert_search
find-insert_ne h k s [] n = ground arith
find-insert_ne h k s ((l, r) ∷ es) n = ground (arith, find-insert_ne h k s es n)

pub find-erase_self : (h : ℕ) (es : List (ℕ × Search)) → find_search h (erase_search h es) ≡ none
unfolding find_search erase_search
find-erase_self h [] = refl
find-erase_self h ((l, r) ∷ es) = ground (arith, find-erase_self h es)

pub find-erase_ne :
    (h k : ℕ) (es : List (ℕ × Search))
    → h ≢ k
    → find_search k (erase_search h es) ≡ find_search k es
unfolding find_search erase_search
find-erase_ne h k [] n = refl
find-erase_ne h k ((l, r) ∷ es) n = ground (arith, find-erase_ne h k es n)

abbrev pub serviced : (ℕ → ℕ) → ℕ → Option Search → Option Search
serviced clock h none = none
serviced clock h (some s) = some (service_search (clock h) h s).1

pub find-service_searches :
    (clock : ℕ → ℕ) (h : ℕ) (es : List (ℕ × Search))
    → find_search h (service_searches clock es).1 ≡ serviced clock h (find_search h es)
unfolding find_search service_searches
find-service_searches clock h [] = refl
find-service_searches clock h ((k, s) ∷ es) = ground (arith, find-service_searches clock h es)

pub on_search-found :
    (h : ℕ) (q : Search) (f : Search → Search) (m : Mdns)
    → find_search h m.active_queries ≡ some q
    → on_search h f m ≡ record m { active_queries = set_search h (f q) m.active_queries }
on_search-found h q f m e = rw (on_search, e) refl

module _ {S : Type 0} (avahi : Avahi S) where
  pub delete-found :
      (h : ℕ) (q : Search) (m : Mdns) (s : S)
      → find_search h m.active_queries ≡ some q
      → delete_async_query avahi h (m, s) ≡ (
          let m' : Mdns = record m { active_queries = erase_search h m.active_queries } in
          if q.browsing then (touch_client m', avahi.service_browser_free h s) else (m', s))
  unfolding delete_async_query
  delete-found h q m s e = rw (delete_async_query, e) refl
