-- ===== src/Board/Yield/Table.antt =====
-- The table of background services as a set of (callback, context) pairs
-- (cores/epoxy/Arduino.cpp).
use mathlib.Core.Path.{ap₂}
use epoxy_duino.Base.{
  not, Bool-cases, inl, inr, sym, ℕ, ◌+◌, ◌-◌, ◌≤◌, ◌≡◌, ◌⊎◌, ap, refl, Bool, true, false, ◌&&◌,
  ◌||◌, if◌then◌else◌, ◌==◌, ==_self, List, ◌∷◌, ◌++◌, Option, none, some, arith,
}
use epoxy_duino.Board.{Board, YieldServiceEntry}
use epoxy_duino.Board.Yield.{
  has_entry, fill_entry, clear_entry, register_yield_service_callback,
  unregister_yield_service_callback, update_table,
}
use epoxy_duino.Board.Yield.Slots.{
  has_entry-entry_count, same_pair, Filled, fill_entry-Filled, FilledFirst, fill_entry-FilledFirst,
  Cleared, clear_entry-Cleared, same_pointer_eq, entry_count, free_count, same_pointer_self,
}

-- What registering a pair answers and leaves: the pair was there; or no slot was free; or it is now
-- in the first free slot.
abbrev pub Registered : {U : Type 0} → Board U → ℕ → Option ℕ → Board U × Bool → Type 0
Registered {U} b f x r =
    ((1 ≤ entry_count (some f) x b.yield_service_entries) × (r ≡ (b, true)))
    ⊎ (((entry_count (some f) x b.yield_service_entries ≡ 0)
          × (free_count b.yield_service_entries ≡ 0)
          × (r ≡ (b, false)))
        ⊎ ((entry_count (some f) x b.yield_service_entries ≡ 0)
            × (front : List YieldServiceEntry) × (e : YieldServiceEntry) × (back : List
                YieldServiceEntry)
            × (b.yield_service_entries ≡ front ++ e ∷ back)
            × (e.callback ≡ none)
            × (free_count front ≡ 0)
            × (r ≡ (
              record b {
                yield_service_entries = front ++ record { callback = some f; context = x } ∷ back;
              },
              true,
            ))))

-- No pair stands in the table twice.
abbrev pub NoRepeats : List YieldServiceEntry → Type 0
NoRepeats es = (g : ℕ) (y : Option ℕ) → entry_count (some g) y es ≤ 1

module _ {U : Type 0} (b : Board U) (f : ℕ) (x : Option ℕ) where
  abbrev entries : List YieldServiceEntry
  entries = b.yield_service_entries

  update-Filled :
      (g : ℕ) (y : Option ℕ) (o : Option (List YieldServiceEntry))
      → Filled f x g y entries o
      → ((update_table b o).1 ≡ not (free_count entries == 0))
        × (entry_count (some g) y (update_table b o).0.yield_service_entries
            ≡ entry_count (some g) y entries
              + (if free_count entries == 0 then 0 else same_pair f x g y))
  update-Filled g y none h = ground arith
  update-Filled g y (some r) h = ground arith

  update-Cleared :
      (g : ℕ) (y : Option ℕ) (o : Option (List YieldServiceEntry))
      → Cleared f x g y entries o
      → Cleared f x f x entries o
      → ((update_table b o).1 ≡ not (entry_count (some f) x entries == 0))
        × (entry_count (some g) y (update_table b o).0.yield_service_entries
            ≡ entry_count (some g) y entries
              - (if entry_count (some f) x entries == 0 then 0 else same_pair f x g y))
  update-Cleared g y none h k = ground arith
  update-Cleared g y (some r) h k = ground (arith, ==_self f, same_pointer_self x)

  -- one pair is counted alike under its two names
  pair_count :
      (g : ℕ) (y : Option ℕ)
      → same_pair f x g y ≡ 1
      → entry_count (some g) y entries ≡ entry_count (some f) x entries
  pair_count g y h =
      ap₂ (λ (n : ℕ) (z : Option ℕ). entry_count (some n) z entries) (ground arith)
        (sym (same_pointer_eq x y (ground arith)))

  -- what registering answers, and how often every pair then stands in the table
  pub register_yield_service_callback_counts :
      (g : ℕ) (y : Option ℕ)
      → ((register_yield_service_callback b (some f) x).1
          ≡ (not (entry_count (some f) x entries == 0) || not (free_count entries == 0)))
        × (entry_count
              (some g)
              y
              (register_yield_service_callback b (some f) x).0.yield_service_entries
            ≡ entry_count (some g) y entries
              + (if entry_count (some f) x entries == 0 && not (free_count entries == 0)
                  then same_pair f x g y
                  else 0))
  unfolding register_yield_service_callback
  register_yield_service_callback_counts g y =
      let o = fill_entry (some f) x entries in
      let (done, counts) = update-Filled g y o (fill_entry-Filled f x g y entries) in
      elim (Bool-cases (has_entry (some f) x entries)) [
        | inl old ↦ rw old (ground (arith, has_entry-entry_count (some f) x entries))
        | inr new ↦ rw new (ground (arith, has_entry-entry_count (some f) x entries, done, counts))
      ]

  filled_first :
      (o : Option (List YieldServiceEntry))
      → Filled f x f x entries o
      → FilledFirst f x entries o
      → entry_count (some f) x entries ≡ 0
      → Registered b f x (update_table b o)
  filled_first none full first fresh = inr (inl (fresh, full, refl))
  filled_first (some r) counts (front, e, back, es, free, none_free, rs) fresh = inr (
      inr (
        fresh,
        front,
        e,
        back,
        es,
        free,
        none_free,
        ap (λ (t : List YieldServiceEntry). (record b { yield_service_entries = t }, true)) rs,
      ))

  -- epoxyRegisterYieldServiceCallback() on a pair that stands in the table answers true and changes
  -- nothing; on another pair, with no slot free, it answers false and changes nothing; and with a
  -- slot free it answers true and puts the pair into the first free slot, where every other slot, and
  -- the rest of the board, is as before. So the pair then stands in the table, and each other pair
  -- stands there as often as before.
  pub register_yield_service_callback_lem :
      (g : ℕ) (y : Option ℕ)
      → Registered b f x (register_yield_service_callback b (some f) x)
        × (entry_count
              (some g)
              y
              (register_yield_service_callback b (some f) x).0.yield_service_entries
            ≡ entry_count (some g) y entries
              + (if entry_count (some f) x entries == 0 && not (free_count entries == 0)
                  then same_pair f x g y
                  else 0))
  unfolding register_yield_service_callback
  register_yield_service_callback_lem g y = (
    elim (Bool-cases (has_entry (some f) x entries)) [
      | inl old ↦ rw old (inl (ground (arith, has_entry-entry_count (some f) x entries), refl))
      | inr new ↦ rw new (
          filled_first (fill_entry (some f) x entries) (fill_entry-Filled f x f x entries)
            (fill_entry-FilledFirst f x entries)
            (ground (arith, has_entry-entry_count (some f) x entries)))
    ],
    (register_yield_service_callback_counts g y).1,
  )

  -- epoxyUnregisterYieldServiceCallback() answers true exactly if the pair stands in the table; it
  -- then stands there once less, and every other pair as often as before.
  unregister_yield_service_callback_lem :
      (g : ℕ) (y : Option ℕ)
      → ((unregister_yield_service_callback b (some f) x).1
          ≡ not (entry_count (some f) x entries == 0))
        × (entry_count
              (some g)
              y
              (unregister_yield_service_callback b (some f) x).0.yield_service_entries
            ≡ entry_count (some g) y entries
              - (if entry_count (some f) x entries == 0 then 0 else same_pair f x g y))
  unfolding unregister_yield_service_callback
  unregister_yield_service_callback_lem g y =
      update-Cleared g y (clear_entry (some f) x entries) (clear_entry-Cleared f x g y entries)
        (clear_entry-Cleared f x f x entries)

  -- Registering keeps every pair at most once in the table, and so does unregistering, after which
  -- the pair is gone.
  pub yield_service_callback-NoRepeats :
      NoRepeats entries
      → NoRepeats (register_yield_service_callback b (some f) x).0.yield_service_entries
        × NoRepeats (unregister_yield_service_callback b (some f) x).0.yield_service_entries
        × (entry_count
              (some f)
              x
              (unregister_yield_service_callback b (some f) x).0.yield_service_entries
            ≡ 0)
  yield_service_callback-NoRepeats h = (
    λ g y. ground (arith, register_yield_service_callback_counts g y, h g y, h f x, pair_count g y),
    λ g y. ground (arith, unregister_yield_service_callback_lem g y, h g y),
    ground
        (arith, unregister_yield_service_callback_lem f x, h f x, ==_self f, same_pointer_self x),
  )
