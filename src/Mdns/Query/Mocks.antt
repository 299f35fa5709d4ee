-- ===== src/Mdns/Query/Mocks.antt =====
-- The mock services of the responder of ESPmDNS.cpp, and the queries that find them.
use epoxy_duino.Base.{
  ℕ, ◌≡◌, refl, sym, ap, ◌∙◌, Bool, true, false, if◌then◌else◌, List, [], ◌∷◌, ◌++◌, append_assoc,
  append-nil, Option, none, some, length, not,
}
use epoxy_duino.Base.Text.{Bytes, same_text, same_text_eq}
use epoxy_duino.Address.{IpAddress}
use epoxy_duino.Mdns.Maps.{find_key, find_key-put_key}
use epoxy_duino.Mdns.Search.{MdnsService}
use epoxy_duino.Mdns.Responder.{Mdns, new_mdns, absent, has_client}
use epoxy_duino.Mdns.Query.{
  Browser, make_service_key, new_service, services_at, add_mock_service, browse_service,
  query_service,
}

-- the arguments of a call of addMockService(): service, protocol, host, address and port
abbrev pub Mock : Type 0
Mock = Bytes × Bytes × Bytes × IpAddress × ℕ

abbrev pub add_mocks : List Mock → Mdns → Mdns
add_mocks [] m = m
add_mocks (c ∷ cs) m = add_mocks cs (add_mock_service c.0 c.1 c.2 c.3 c.4 m)

-- the services of the calls with a key, in their order
abbrev pub matching : Bytes → List Mock → List MdnsService
matching k [] = []
matching k (c ∷ cs) =
    if same_text k (make_service_key c.0 c.1)
    then new_service c.2 c.3 c.4 ∷ matching k cs
    else matching k cs

abbrev found : Option (List MdnsService) → List MdnsService
found o = elim o [ some l ↦ l | none ↦ [] ]

split :
    (b : Bool) (xs ys : List MdnsService) (x : MdnsService) (o : Option (List MdnsService))
    → (b ≡ true → xs ≡ ys)
    → found o ≡ ys
    → found (if b then some (xs ++ x ∷ []) else o) ≡ ys ++ (if b then x ∷ [] else [])
split true xs ys x o e f = ap (λ l. l ++ x ∷ []) (e refl)
split false xs ys x o e f = f ∙ sym (append-nil ys)

services_at-add :
    (k : Bytes) (c : Mock) (m : Mdns)
    → services_at k (add_mock_service c.0 c.1 c.2 c.3 c.4 m)
      ≡ services_at k m
        ++ (if same_text k (make_service_key c.0 c.1) then new_service c.2 c.3 c.4 ∷ [] else [])
unfolding add_mock_service
services_at-add k c m =
    let l = make_service_key c.0 c.1 in
    let x = new_service c.2 c.3 c.4 in
    ap found (find_key-put_key k l (services_at l m ++ x ∷ []) m.mock_services)
    ∙ split (same_text k l) (services_at l m) (services_at k m) x (find_key k m.mock_services)
        (λ e. ap (λ t. services_at t m) (sym (same_text_eq k l e))) refl

services_at-add_mocks :
    (k : Bytes) (cs : List Mock) (m : Mdns)
    → services_at k (add_mocks cs m) ≡ services_at k m ++ matching k cs
services_at-add_mocks k [] m = sym (append-nil (services_at k m))
services_at-add_mocks k (c ∷ cs) m =
    services_at-add_mocks k cs (add_mock_service c.0 c.1 c.2 c.3 c.4 m)
    ∙ ap (λ l. l ++ matching k cs) (services_at-add k c m)
    ∙ append_assoc (services_at k m) _ (matching k cs)
    ∙ ap (λ l. services_at k m ++ l)
        (joined (same_text k (make_service_key c.0 c.1)) (new_service c.2 c.3 c.4) (matching k cs))
  where
    joined :
        (b : Bool) (x : MdnsService) (xs : List MdnsService)
        → (if b then x ∷ [] else []) ++ xs ≡ (if b then x ∷ xs else xs)
    joined true x xs = refl
    joined false x xs = refl

client-add_mocks : (cs : List Mock) (m : Mdns) → (add_mocks cs m).avahi_client ≡ m.avahi_client
unfolding add_mock_service
client-add_mocks [] m = refl
client-add_mocks (c ∷ cs) m = client-add_mocks cs (add_mock_service c.0 c.1 c.2 c.3 c.4 m)

if_not : {A : Type 0} (b : Bool) (x y : A) → b ≡ false → (if not b then x else y) ≡ x
if_not b x y e = rw e refl

client_absent : (m : Mdns) → m.avahi_client ≡ absent → has_client m ≡ false
client_absent m e = ap (λ c. elim c [ absent ↦ false | _ ↦ true ]) e

-- the answer of queryService() after a browse that changes nothing
answered :
    {S : Type 0} (browse : Mdns × S → Option (Mdns × S)) (m : Mdns) (s : S) (k l : List MdnsService)
    → k ≡ l
    → browse (record m { query_results = k }, s) ≡ some (record m { query_results = k }, s)
    → (let r : Option (ℕ × (Mdns × S)) = elim (browse (record m { query_results = k }, s)) [
      | some w ↦ some (length w.0.query_results, w)
      | none ↦ none
    ] in
        r ≡ some (length l, (record m { query_results = l }, s)))
answered browse m s k l e f = rw (f, e) refl

module _ {S : Type 0} (browser : Browser S) where
  browse-absent :
      (fuel : ℕ) (service proto : Bytes) (timeout : ℕ) (m : Mdns) (s : S)
      → m.avahi_client ≡ absent
      → browse_service browser fuel service proto timeout (m, s) ≡ some (m, s)
  unfolding browse_service
  browse-absent fuel service proto timeout m s e = if_not (has_client m) _ _ (client_absent m e)

  -- After any calls of addMockService() on a new responder, which has no client, queryService()
  -- answers how many of them had the key of this service and protocol, and its results are the
  -- services of these calls in their order.
  pub query_service-add_mocks :
      (cs : List Mock) (fuel : ℕ) (service proto : Bytes) (s : S)
      → (let l = matching (make_service_key service proto) cs in
          query_service browser fuel service proto (add_mocks cs new_mdns, s)
          ≡ some (length l, (record (add_mocks cs new_mdns) { query_results = l }, s)))
  unfolding query_service new_mdns
  query_service-add_mocks cs fuel service proto s =
      let m = add_mocks cs new_mdns in
      let k = make_service_key service proto in
      answered (browse_service browser fuel service proto 2000) m s (services_at k m)
        (matching k cs) (services_at-add_mocks k cs new_mdns)
        (browse-absent fuel service proto 2000 (record m { query_results = services_at k m }) s
          (client-add_mocks cs new_mdns))
