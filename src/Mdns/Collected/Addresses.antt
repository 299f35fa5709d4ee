-- ===== src/Mdns/Collected/Addresses.antt =====
-- The addresses of the services that a search of mDNS collects (addResult() of ESPmDNS.cpp).
use epoxy_duino.Base.{
  ℕ, ◌≤◌, ◌≡◌, refl, sym, ap, ◌∙◌, ◌⊎◌, Bool, Bool-cases, inl, inr, true, false, ◌&&◌,
  if◌then◌else◌, ◌==◌, ==_iff, List, [], ◌∷◌, Option, none, some, length, leb, ltb, arith,
}
use mathlib.Core.Path.{subst}
use epoxy_duino.Base.Text.{same_text, same_text_eq}
use epoxy_duino.Address.{IpAddress}
use epoxy_duino.Address.Words.{same_address, unset_address}
use epoxy_duino.Mdns.Search.{
  MdnsService, Search, same_service, merge_service, collect, is_full, add_result,
}
use epoxy_duino.Mdns.Collected.{Key, key, same_key, add_all}

-- the address of the first result with a key
abbrev pub address_at : Key → List MdnsService → Option IpAddress
address_at k [] = none
address_at k (e ∷ es) = if same_key (key e) k then some e.ip else address_at k es

abbrev pub usable_or : IpAddress → IpAddress → IpAddress
usable_or a b = if same_address a unset_address then b else a

-- the first address reported for a key that is not 0.0.0.0, or the last one
abbrev pub address_over : Key → List MdnsService → Option IpAddress → Option IpAddress
address_over k [] o = o
address_over k (x ∷ xs) o =
    address_over k xs
      (if same_key (key x) k then some (elim o [ some a ↦ usable_or a x.ip | none ↦ x.ip ]) else o)

and_left : (a b : Bool) → (a && b) ≡ true → a ≡ true
and_left a b e = ground arith

and_right : (a b : Bool) → (a && b) ≡ true → b ≡ true
and_right a b e = ground arith

triple : (a b : Key) → a.0 ≡ b.0 → a.1 ≡ b.1 → a.2 ≡ b.2 → a ≡ b
triple (i, h, p) (j, g, q) e f k = cc

key_eq : (a b : Key) → same_key a b ≡ true → a ≡ b
key_eq a b e =
    let names = and_left (same_text a.0 b.0 && same_text a.1 b.1) (a.2 == b.2) e in
    triple a b (same_text_eq a.0 b.0 (and_left (same_text a.0 b.0) (same_text a.1 b.1) names))
      (same_text_eq a.1 b.1 (and_right (same_text a.0 b.0) (same_text a.1 b.1) names))
      ((==_iff a.2 b.2).0 (and_right (same_text a.0 b.0 && same_text a.1 b.1) (a.2 == b.2) e))

-- What the results have for a key: before a report, and after it.
abbrev after : Bool → Bool → IpAddress → Option IpAddress → Option IpAddress
after full mine a o =
    if mine
    then elim o [ some b ↦ some (usable_or b a) | none ↦ (if full then none else some a) ]
    else o

after_none : (mine : Bool) (a : IpAddress) → none ≡ after true mine a none
after_none true a = refl
after_none false a = refl

after_merge :
    (full mine : Bool) (a b : IpAddress) (o : Option IpAddress)
    → (if mine then some (usable_or b a) else o) ≡ after full mine a (if mine then some b else o)
after_merge full true a b o = refl
after_merge full false a b o = refl

-- A result in front that is not the one reported.
after_other :
    (full mine its : Bool) (a b : IpAddress) (o : Option IpAddress)
    → (mine ≡ true → its ≡ true → ⊥)
    → (if its then some b else after full mine a o) ≡ after full mine a (if its then some b else o)
after_other full true true a b o h = absurd (h refl refl)
after_other full false true a b o h = refl
after_other full mine false a b o h = refl

if_true : {A : Type 0} (b : Bool) (x y : A) → b ≡ true → (if b then x else y) ≡ x
if_true b x y e = rw e refl

if_false : {A : Type 0} (b : Bool) (x y : A) → b ≡ false → (if b then x else y) ≡ y
if_false b x y e = rw e refl

true_not_false : {b : Bool} → b ≡ true → b ≡ false → ⊥
true_not_false e f = cc

address_at-collect :
    (full : Bool) (k : Key) (x : MdnsService) (es : List MdnsService)
    → address_at k (collect full x es) ≡ after full (same_key (key x) k) x.ip (address_at k es)
unfolding collect same_service merge_service
address_at-collect true k x [] = after_none (same_key (key x) k) x.ip
address_at-collect false k x [] = refl
address_at-collect full k x (e ∷ es) =
    let its = same_key (key e) k in
    let mine = same_key (key x) k in
    elim (Bool-cases (same_key (key e) (key x))) [
      | inl h ↦
          ap (address_at k) (if_true (same_service e x) _ _ h)
          ∙ after_merge full its x.ip e.ip (address_at k es)
          ∙ ap (λ l. after full (same_key l k) x.ip (address_at k (e ∷ es)))
              (key_eq (key e) (key x) h)
      | inr h ↦
          ap (address_at k) (if_false (same_service e x) _ _ h)
          ∙ ap (λ o. if its then some e.ip else o) (address_at-collect full k x es)
          ∙ after_other full mine its x.ip e.ip (address_at k es) (λ m n.
            true_not_false (subst (λ l. same_key (key e) l ≡ true) (sym (key_eq (key x) k m)) n) h)
    ]

length-collect :
    (full : Bool) (x : MdnsService) (es : List MdnsService) → length es ≤ length (collect full x es)
unfolding collect
length-collect full x [] = ground arith
length-collect full x (e ∷ es) = ground (arith, length-collect full x es)

-- A search that is full stays so.
is_full-add_result :
    (x : MdnsService) (s : Search) → is_full s ≡ true → is_full (add_result x s) ≡ true
unfolding add_result
is_full-add_result x s e =
    still s.max_results (length s.results) _ (length-collect (is_full s) x s.results) e
  where
    still : (n a b : ℕ) → a ≤ b → (ltb 0 n && leb n a) ≡ true → (ltb 0 n && leb n b) ≡ true
    still n a b h e = ground arith

-- The results of a key, or none, where the search was full when it was first reported.
abbrev pub IsAddressed : Key → Option IpAddress → Search → Type 0
IsAddressed k o s =
    (address_at k s.results ≡ o) ⊎ ((address_at k s.results ≡ none) × (is_full s ≡ true))

abbrev report : Bool → IpAddress → Option IpAddress → Option IpAddress
report mine a o = if mine then some (elim o [ some b ↦ usable_or b a | none ↦ a ]) else o

after_report :
    (full mine : Bool) (a : IpAddress) (o : Option IpAddress)
    → (after full mine a o ≡ report mine a o) ⊎ ((after full mine a o ≡ none) × (full ≡ true))
after_report full false a o = inl refl
after_report full true a (some b) = inl refl
after_report false true a none = inl refl
after_report true true a none = inr (refl, refl)

IsAddressed-add_result :
    (k : Key) (x : MdnsService) (s : Search) (o : Option IpAddress)
    → IsAddressed k o s
    → IsAddressed k (report (same_key (key x) k) x.ip o) (add_result x s)
unfolding add_result
IsAddressed-add_result k x s o (inl e) =
    let mine = same_key (key x) k in
    let got = address_at-collect (is_full s) k x s.results ∙ ap (after (is_full s) mine x.ip) e in
    elim (after_report (is_full s) mine x.ip o) [
      | inl f ↦ inl (got ∙ f)
      | inr (f, g) ↦ inr (got ∙ f, is_full-add_result x s g)
    ]
IsAddressed-add_result k x s o (inr (e, g)) =
    let mine = same_key (key x) k in
    inr (
      address_at-collect (is_full s) k x s.results
          ∙ ap (after (is_full s) mine x.ip) e
          ∙ ap (λ b. after b mine x.ip none) g
          ∙ sym (after_none mine x.ip),
      is_full-add_result x s g,
    )

IsAddressed-add_all_onto :
    (k : Key) (xs : List MdnsService) (s : Search) (o : Option IpAddress)
    → IsAddressed k o s
    → IsAddressed k (address_over k xs o) (add_all xs s)
IsAddressed-add_all_onto k [] s o h = h
IsAddressed-add_all_onto k (x ∷ xs) s o h =
    IsAddressed-add_all_onto k xs (add_result x s) (report (same_key (key x) k) x.ip o)
      (IsAddressed-add_result k x s o h)

-- After any reports to a search without results, the result of an instance, host and port carries
-- the first address reported for it that is not 0.0.0.0, or the last one if there is none; there is
-- no result if it was never reported, or if the search is full and has none of this key.
pub IsAddressed-add_all :
    (k : Key) (xs : List MdnsService) (s : Search)
    → s.results ≡ []
    → IsAddressed k (address_over k xs none) (add_all xs s)
IsAddressed-add_all k xs s e = IsAddressed-add_all_onto k xs s none (inl (ap (address_at k) e))
