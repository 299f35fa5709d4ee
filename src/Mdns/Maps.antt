-- ===== src/Mdns/Maps.antt =====
-- std::map<String, A>: the entries in the order of String::operator<(), each key once.
use mathlib.Core.Path.{subst}
use epoxy_duino.Base.{
  sym, ◌∙◌, ◌≡◌, refl, Bool-cases, inl, inr, Bool, true, false, ◌&&◌, ◌||◌, if◌then◌else◌, ltb,
  ◌==◌, List, [], ◌∷◌, Option, none, some,
}
use epoxy_duino.Base.Text.{Bytes, same_text, same_text_eq}

unfoldable pub less_text : Bytes → Bytes → Bool
less_text a [] = false
less_text [] (b ∷ bs) = true
less_text (a ∷ as') (b ∷ bs) = ltb a b || a == b && less_text as' bs

module _ {A : Type 0} where
  -- m[key] = value
  unfoldable pub put_key : Bytes → A → List (Bytes × A) → List (Bytes × A)
  put_key k v [] = (k, v) ∷ []
  put_key k v (e ∷ m) =
      let rest = put_key k v m in
      if same_text k e.0 then (k, v) ∷ m else if less_text k e.0 then (k, v) ∷ e ∷ m else e ∷ rest

  unfoldable pub find_key : Bytes → List (Bytes × A) → Option A
  find_key k [] = none
  find_key k (e ∷ m) = let rest = find_key k m in if same_text k e.0 then some e.1 else rest

abbrev pub TextMap : Type 0
TextMap = List (Bytes × Bytes)

abbrev pub has_key : Bytes → TextMap → Bool
has_key k m = elim (find_key k m) [ some v ↦ true | none ↦ false ]

true_ne_false : true ≡ false → ⊥
true_ne_false e = cc

two_keys : (k l e : Bytes) → same_text k e ≡ true → same_text k l ≡ true → same_text l e ≡ false → ⊥
two_keys k l e a b q =
    true_ne_false (sym (subst (λ t. same_text t e ≡ true) (same_text_eq k l b) a) ∙ q)

module _ {A : Type 0} where
  again :
      (b : Bool) (x y z : Option A) → (if b then x else z) ≡ (if b then x else if b then y else z)
  again true x y z = refl
  again false x y z = refl

  swap :
      (a b : Bool) (x y z : Option A)
      → (a ≡ true → b ≡ true → ⊥)
      → (if a then y else if b then x else z) ≡ (if b then x else if a then y else z)
  swap true true x y z h = absurd (h refl refl)
  swap true false x y z h = refl
  swap false b x y z h = refl

  -- what a lookup finds after a write
  pub find_key-put_key :
      (k l : Bytes) (v : A) (m : List (Bytes × A))
      → find_key k (put_key l v m) ≡ (if same_text k l then some v else find_key k m)
  unfolding put_key find_key
  find_key-put_key k l v [] = refl
  find_key-put_key k l v (e ∷ m) = elim (Bool-cases (same_text l e.0)) [
    | inl q ↦
        rw (q, same_text_eq l e.0 q) (again (same_text k e.0) (some v) (some e.1) (find_key k m))
    | inr q ↦ elim (Bool-cases (less_text l e.0)) [
      | inl r ↦ rw (q, r) refl
      | inr r ↦
          rw (q, r, find_key-put_key k l v m)
            (swap (same_text k e.0) (same_text k l) (some v) (some e.1) (find_key k m)
              (λ a b. two_keys k l e.0 a b q))
    ]
  ]
