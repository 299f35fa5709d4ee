-- ===== src/Mdns/Async/Counts.antt =====
-- The open resolvers that a search counts, under each change of it (ESPmDNS.cpp: outstanding_resolvers).
use epoxy_duino.Base.{
  ℕ, ◌-◌, ◌<◌, ◌≡◌, ◌≢◌, refl, sym, ◌∙◌, Bool, Bool-cases, inl, inr, true, false, ◌==◌, ==_iff,
  List, [], ◌∷◌, Option, Option-cases, none, some, arith,
}
use mathlib.Core.Path.{subst}
use epoxy_duino.Mdns.Search.{
  Search, Found, BrowserEvent, appeared, removed, cache_exhausted, flushed, failure,
  async_browse_callback, async_resolve_callback, add_result,
}
use epoxy_duino.Mdns.Responder.{find_search, set_search}
use epoxy_duino.Mdns.Async.{notify, service_search}
use epoxy_duino.Mdns.Async.Handles.{find-set_self, find-set_ne, serviced}
use epoxy_duino.Mdns.Async.Runs.{count, drop_one, opened, Fits, IsCounted}

pub count-drop_self : (h : ℕ) (ks : List ℕ) → count h (drop_one h ks) ≡ count h ks - 1
count-drop_self h [] = refl
count-drop_self h (k ∷ ks) = ground (arith, count-drop_self h ks)

pub count-drop_ne : (h l : ℕ) (ks : List ℕ) → h ≢ l → count l (drop_one h ks) ≡ count l ks
count-drop_ne h l [] n = refl
count-drop_ne h l (k ∷ ks) n = ground (arith, count-drop_ne h l ks n)

apart : (h k : ℕ) → (h == k) ≡ false → h ≢ k
apart h k e = ground arith

-- A map that changes at one handle, and the resolvers with it.
pub IsCounted-change :
    (h : ℕ) (o : Option Search) (es fs : List (ℕ × Search)) (ks ls : List ℕ)
    → IsCounted es ks
    → find_search h fs ≡ o
    → ((k : ℕ) → h ≢ k → find_search k fs ≡ find_search k es)
    → Fits o (count h ls)
    → ((k : ℕ) → h ≢ k → count k ls ≡ count k ks)
    → IsCounted fs ls
IsCounted-change h o es fs ks ls counted here there fits others k = elim (Bool-cases (h == k)) [
  | inl e ↦
      subst (λ l. Fits (find_search l fs) (count l ls)) ((==_iff h k).0 e)
        (subst (λ p. Fits p (count h ls)) (sym here) fits)
  | inr e ↦ rw (there k (apart h k e), others k (apart h k e)) (counted k)
]

-- The search that is found counts its resolvers.
pub counted_at :
    (h : ℕ) (q : Search) (es : List (ℕ × Search)) (ks : List ℕ)
    → IsCounted es ks
    → find_search h es ≡ some q
    → q.outstanding_resolvers ≡ count h ks
counted_at h q es ks counted e = subst (λ o. Fits o (count h ks)) e (counted h)

-- A change of the search of a handle.
pub IsCounted-set :
    (h : ℕ) (q s : Search) (es : List (ℕ × Search)) (ks ls : List ℕ)
    → IsCounted es ks
    → find_search h es ≡ some q
    → s.outstanding_resolvers ≡ count h ls
    → ((k : ℕ) → h ≢ k → count k ls ≡ count k ks)
    → IsCounted (set_search h s es) ls
IsCounted-set h q s es ks ls counted found fits others =
    IsCounted-change h (some s) es (set_search h s es) ks ls counted (find-set_self h s q es found)
      (λ k n. find-set_ne h k s es n) fits others

pub outstanding-browse :
    (event : BrowserEvent) (created : Bool) (q : Search) (h : ℕ) (ks : List ℕ)
    → q.outstanding_resolvers ≡ count h ks
    → (async_browse_callback event created q).outstanding_resolvers
      ≡ count h (opened event created h ks)
unfolding async_browse_callback
outstanding-browse appeared true q h ks e = ground arith
outstanding-browse appeared false q h ks e = e
outstanding-browse removed created q h ks e = e
outstanding-browse cache_exhausted created q h ks e = e
outstanding-browse flushed created q h ks e = e
outstanding-browse failure created q h ks e = e

pub count-opened :
    (event : BrowserEvent) (created : Bool) (h k : ℕ) (ks : List ℕ)
    → h ≢ k
    → count k (opened event created h ks) ≡ count k ks
count-opened appeared true h k ks n = ground arith
count-opened appeared false h k ks n = refl
count-opened removed created h k ks n = refl
count-opened cache_exhausted created h k ks n = refl
count-opened flushed created h k ks n = refl
count-opened failure created h k ks n = refl

pub outstanding-resolve :
    (found : Option Found) (q : Search)
    → (async_resolve_callback found q).outstanding_resolvers ≡ q.outstanding_resolvers - 1
unfolding async_resolve_callback add_result
outstanding-resolve none q = ground arith
outstanding-resolve (some f) q = ground arith

pub outstanding-notify :
    (h : ℕ) (q : Search) → (notify h q).1.outstanding_resolvers ≡ q.outstanding_resolvers
outstanding-notify h q = ground arith

outstanding-service :
    (now h : ℕ) (q : Search)
    → (service_search now h q).1.outstanding_resolvers ≡ q.outstanding_resolvers
unfolding service_search
outstanding-service now h q = ground arith

pub Fits-serviced :
    (clock : ℕ → ℕ) (h n : ℕ) (o : Option Search) → Fits o n → Fits (serviced clock h o) n
Fits-serviced clock h n none e = e
Fits-serviced clock h n (some q) e = outstanding-service (clock h) h q ∙ e

none_open : {n : ℕ} → n ≡ 0 → ¬ (0 < n)
none_open e l = omega arith

-- a handle with an open resolver has a search
pub found_open :
    (h : ℕ) (es : List (ℕ × Search)) (ks : List ℕ)
    → IsCounted es ks
    → 0 < count h ks
    → (q : Search) × (find_search h es ≡ some q)
found_open h es ks counted pos' = elim (Option-cases (find_search h es)) [
  | inl e ↦ absurd (none_open (subst (λ o. Fits o (count h ks)) e (counted h)) pos')
  | inr r ↦ r
]
