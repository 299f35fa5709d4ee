-- ===== src/Mdns/Collected.antt =====
-- What a search of mDNS collects from the services reported to it (addResult() of ESPmDNS.cpp).
pub mod Addresses
use epoxy_duino.Base.{
  ℕ, zero, suc, ◌≡◌, refl, sym, ap, ◌∙◌, Bool, Bool-cases, inl, inr, true, false, ◌&&◌,
  if◌then◌else◌, ltb, leb, ◌==◌, List, [], ◌∷◌, ◌++◌, length, take, arith,
}
use epoxy_duino.Base.Text.{Bytes, same_text}
use epoxy_duino.Mdns.Search.{
  MdnsService, Search, same_service, merge_service, collect, is_full, add_result,
}

-- what tells two services apart: the instance, the host and the port
abbrev pub Key : Type 0
Key = Bytes × Bytes × ℕ

abbrev pub key : MdnsService → Key
key s = (s.instance_name, s.hostname, s.port)

abbrev pub keys : List MdnsService → List Key
keys [] = []
keys (s ∷ ss) = key s ∷ keys ss

abbrev pub same_key : Key → Key → Bool
same_key a b = same_text a.0 b.0 && same_text a.1 b.1 && a.2 == b.2

abbrev pub has : Key → List Key → Bool
has k [] = false
has k (l ∷ ls) = if same_key l k then true else has k ls

-- A list with the keys that are new to it appended, each once, in their order.
abbrev pub with_new : List Key → List Key → List Key
with_new ls [] = ls
with_new ls (k ∷ ks) = with_new (if has k ls then ls else ls ++ k ∷ []) ks

-- the first `n`, or all where `n` is 0
abbrev pub up_to {ℓ} : {A : Type ℓ} → ℕ → List A → List A
up_to zero xs = xs
up_to (suc n) xs = take (suc n) xs

abbrev pub add_all : List MdnsService → Search → Search
add_all [] s = s
add_all (x ∷ xs) s = add_all xs (add_result x s)

-- A key in front of a list that may grow.
grown :
    (seen full : Bool) (k : Key) (ks ls : List Key)
    → k ∷ (if seen then ks else if full then ks else ls)
      ≡ (if seen then k ∷ ks else if full then k ∷ ks else k ∷ ls)
grown true full k ks ls = refl
grown false true k ks ls = refl
grown false false k ks ls = refl

keys-collect :
    (full : Bool) (x : MdnsService) (es : List MdnsService)
    → keys (collect full x es)
      ≡ (if has (key x) (keys es) then keys es else if full then keys es else keys es ++ key x ∷ [])
unfolding collect same_service merge_service
keys-collect true x [] = refl
keys-collect false x [] = refl
keys-collect full x (e ∷ es) = elim (Bool-cases (same_key (key e) (key x))) [
  | inl h ↦ rw h refl
  | inr h ↦
      rw (h, keys-collect full x es)
        (grown (has (key x) (keys es)) full (key e) (keys es) (keys es ++ key x ∷ []))
]

length-keys : (es : List MdnsService) → length (keys es) ≡ length es
length-keys [] = refl
length-keys (e ∷ es) = ap suc (length-keys es)

leb-past : (n : ℕ) → leb (suc n) 0 ≡ false
leb-past n = ground arith

ltb-first : (n : ℕ) → ltb 0 (suc n) ≡ true
ltb-first n = ground arith

leb-suc : (m n : ℕ) → leb (suc m) (suc n) ≡ leb m n
leb-suc m n = ground arith

take-nil : {A : Type 0} (n : ℕ) → take {A = A} n [] ≡ []
take-nil zero = refl
take-nil (suc n) = refl

take-apart :
    (n : ℕ) (l k : Key) (ls : List Key) (seen : Bool)
    → l ∷ take n (if seen then ls else ls ++ k ∷ [])
      ≡ take (suc n) (if seen then l ∷ ls else l ∷ ls ++ k ∷ [])
take-apart n l k ls true = refl
take-apart n l k ls false = refl

take-new :
    (n : ℕ) (k : Key) (ls : List Key)
    → (if has k (take n ls)
        then take n ls
        else if leb n (length (take n ls))
        then take n ls
        else take n ls ++ k ∷ [])
      ≡ take n (if has k ls then ls else ls ++ k ∷ [])
take-new zero k ls = refl
take-new (suc n) k [] = rw (leb-past n) (ap (◌∷◌ k) (sym (take-nil n)))
take-new (suc n) k (l ∷ ls) = elim (Bool-cases (same_key l k)) [
  | inl h ↦ rw h refl
  | inr h ↦
      rw (h, leb-suc n (length (take n ls)))
        (sym (
            grown (has k (take n ls)) (leb n (length (take n ls))) l (take n ls)
              (take n ls ++ k ∷ []))
          ∙ ap (◌∷◌ l) (take-new n k ls)
          ∙ take-apart n l k ls (has k ls))
]

-- The keys after one more service, and the same without a limit.
step :
    (n : ℕ) (k : Key) (ls : List Key)
    → (if has k (up_to n ls)
        then up_to n ls
        else if ltb 0 n && leb n (length (up_to n ls))
        then up_to n ls
        else up_to n ls ++ k ∷ [])
      ≡ up_to n (if has k ls then ls else ls ++ k ∷ [])
step zero k ls = refl
step (suc n) k ls = rw (ltb-first n) (take-new (suc n) k ls)

keys-add_result :
    (x : MdnsService) (s : Search) (ls : List Key)
    → keys s.results ≡ up_to s.max_results ls
    → keys (add_result x s).results
      ≡ up_to s.max_results (if has (key x) ls then ls else ls ++ key x ∷ [])
unfolding add_result
keys-add_result x s ls h =
    keys-collect (is_full s) x s.results
    ∙ rw (sym (length-keys s.results), h) (step s.max_results (key x) ls)

keys-add_all_onto :
    (xs : List MdnsService) (s : Search) (ls : List Key)
    → keys s.results ≡ up_to s.max_results ls
    → keys (add_all xs s).results ≡ up_to s.max_results (with_new ls (keys xs))
unfolding add_result
keys-add_all_onto [] s ls h = h
keys-add_all_onto (x ∷ xs) s ls h =
    keys-add_all_onto xs (add_result x s) (if has (key x) ls then ls else ls ++ key x ∷ [])
      (keys-add_result x s ls h)

up_to-nil : (n : ℕ) → up_to {A = Key} n [] ≡ []
up_to-nil zero = refl
up_to-nil (suc n) = refl

-- A search without results that services are reported to has one result for each instance, host and
-- port, in the order in which they were first reported: all of them, or, where max_results is not
-- 0, the first max_results.
pub keys-add_all :
    (xs : List MdnsService) (s : Search)
    → s.results ≡ []
    → keys (add_all xs s).results ≡ up_to s.max_results (with_new [] (keys xs))
keys-add_all xs s h = keys-add_all_onto xs s [] (ap keys h ∙ sym (up_to-nil s.max_results))
