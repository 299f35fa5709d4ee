-- ===== src/Injector/Order.antt =====
-- The order of the injector's events, and how late they are raised
-- (cores/epoxy/epoxy_test/Injection/Injection.cpp).
use epoxy_duino.Base.{
  ℕ, ◌+◌, ◌<◌, ◌≤◌, ◌≡◌, inl, inr, Bool-cases, ltb, leb, [], ◌∷◌, Option, none, some, arith,
}
use epoxy_duino.Injector.{Events, insert, insert_all, erase_null, add_us}

module _ {E : Type 0} where
  abbrev pub From : ℕ → Events E → Type 0
  From low [] = Unit
  From low ((k, v) ∷ es) = (low ≤ k) × From low es

  abbrev pub Sorted : Events E → Type 0
  Sorted [] = Unit
  Sorted ((k, v) ∷ es) = From k es × Sorted es

  -- no event that waits is 10 microseconds late
  abbrev pub InTime : ℕ → Events E → Type 0
  InTime at [] = Unit
  InTime at ((k, none) ∷ es) = InTime at es
  InTime at ((k, some e) ∷ es) = (at < k + 10) × InTime at es

  From-le : (low low' : ℕ) (es : Events E) → low' ≤ low → From low es → From low' es
  From-le low low' [] h from = tt
  From-le low low' ((k, v) ∷ es) h (le, from) = (omega arith, From-le low low' es h from)

  insert-From :
      (low key : ℕ) (v : Option E) (es : Events E)
      → low ≤ key
      → From low es
      → From low (insert key v es)
  unfolding insert
  insert-From low key v [] h from = (h, tt)
  insert-From low key v ((k, w) ∷ es) h (le, from) = elim (Bool-cases (ltb key k)) [
    | inl before ↦ rw before (h, (le, from))
    | inr behind ↦ rw behind (le, insert-From low key v es h from)
  ]

  insert-Sorted : (key : ℕ) (v : Option E) (es : Events E) → Sorted es → Sorted (insert key v es)
  unfolding insert
  insert-Sorted key v [] sorted = (tt, tt)
  insert-Sorted key v ((k, w) ∷ es) (from, sorted) = elim (Bool-cases (ltb key k)) [
    | inl before ↦ rw before ((ground arith, From-le k key es (ground arith) from), (from, sorted))
    | inr behind ↦
        rw behind (insert-From k key v es (ground arith) from, insert-Sorted key v es sorted)
  ]

  insert-InTime :
      (at key : ℕ) (e : E) (es : Events E)
      → at < key + 10
      → InTime at es
      → InTime at (insert key (some e) es)
  unfolding insert
  insert-InTime at key e [] h late = (h, tt)
  insert-InTime at key e ((k, none) ∷ es) h late = elim (Bool-cases (ltb key k)) [
    | inl before ↦ rw before (h, late)
    | inr behind ↦ rw behind (insert-InTime at key e es h late)
  ]
  insert-InTime at key e ((k, some w) ∷ es) h (le, late) = elim (Bool-cases (ltb key k)) [
    | inl before ↦ rw before (h, (le, late))
    | inr behind ↦ rw behind (le, insert-InTime at key e es h late)
  ]

  -- what is to be inserted is in time, and is no null pointer
  abbrev pub Added : ℕ → Events E → Type 0
  Added at [] = Unit
  Added at ((k, none) ∷ es) = ⊥
  Added at ((k, some e) ∷ es) = (at < k + 10) × Added at es

  pub insert-Added :
      (at key : ℕ) (e : E) (es : Events E)
      → at < key + 10
      → Added at es
      → Added at (insert key (some e) es)
  unfolding insert
  insert-Added at key e [] h added = (h, tt)
  insert-Added at key e ((k, none) ∷ es) h added = absurd added
  insert-Added at key e ((k, some w) ∷ es) h (le, added) = elim (Bool-cases (ltb key k)) [
    | inl before ↦ rw before (h, (le, added))
    | inr behind ↦ rw behind (le, insert-Added at key e es h added)
  ]

  pub insert_all_lem :
      (at : ℕ) (added es : Events E)
      → Added at added
      → Sorted es
      → InTime at es
      → Sorted (insert_all added es) × InTime at (insert_all added es)
  unfolding insert_all
  insert_all_lem at [] es tidy sorted late = (sorted, late)
  insert_all_lem at ((k, none) ∷ added) es tidy sorted late = absurd tidy
  insert_all_lem at ((k, some e) ∷ added) es (h, tidy) sorted late =
      insert_all_lem at added (insert k (some e) es) tidy (insert-Sorted k (some e) es sorted)
        (insert-InTime at k e es h late)

  pub erase_null-Sorted :
      (at : ℕ) (es : Events E)
      → Sorted es
      → InTime at es
      → Sorted (erase_null es) × InTime at (erase_null es)
  unfolding erase_null
  erase_null-Sorted at [] sorted late = (sorted, late)
  erase_null-Sorted at ((k, none) ∷ es) (from, sorted) late = erase_null-Sorted at es sorted late
  erase_null-Sorted at ((k, some e) ∷ es) sorted late = (sorted, late)

  pub InTime-le : (at at' : ℕ) (es : Events E) → at' ≤ at → InTime at es → InTime at' es
  InTime-le at at' [] h late = tt
  InTime-le at at' ((k, none) ∷ es) h late = InTime-le at at' es h late
  InTime-le at at' ((k, some e) ∷ es) h (lt, late) = (omega arith, InTime-le at at' es h late)

  -- time may pass by 10 microseconds when the first event that waits is not due
  later_InTime : (at low : ℕ) (es : Events E) → at < low → From low es → InTime (at + 10) es
  later_InTime at low [] h from = tt
  later_InTime at low ((k, none) ∷ es) h (le, from) = later_InTime at low es h from
  later_InTime at low ((k, some e) ∷ es) h (le, from) = (omega arith, later_InTime at low es h from)

  pub add_us-InTime :
      (at a : ℕ) (es : Events E) → add_us at es ≡ a → Sorted es → InTime at es → InTime (at + a) es
  unfolding add_us
  add_us-InTime at a [] h sorted late = tt
  add_us-InTime at a ((k, none) ∷ es) h (from, sorted) late = add_us-InTime at a es h sorted late
  add_us-InTime at a ((k, some e) ∷ es) h (from, sorted) (le, late) = elim (Bool-cases (leb k at)) [
    | inl due ↦
        let none_added = rw due at h in
        InTime-le at (at + a) ((k, some e) ∷ es) (omega (arith, none_added)) (le, late)
    | inr wait ↦
        let ten = rw wait at h in
        InTime-le (at + 10) (at + a) ((k, some e) ∷ es) (omega (arith, ten))
          (ground arith, later_InTime at k es (ground arith) from)
  ]
