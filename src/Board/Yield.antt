-- ===== src/Board/Yield.antt =====
-- The background services of yield() (cores/epoxy/Arduino.cpp): a table of 16 callbacks, and the
-- pump that runs the interrupt check and every callback, guarded against re-entry.
pub mod Slots
pub mod Table
pub mod Service
mod Tests
use epoxy_duino.Base.{
  ℕ, suc, zero, Bool, true, false, ◌&&◌, if◌then◌else◌, ◌==◌, List, [], ◌∷◌, Option, none, some,
  get_or,
}
use epoxy_duino.Board.{Board, YieldServiceEntry, empty_entry}
use epoxy_duino.Board.Interrupts.{Core, Invocation, check_interrupts}

abbrev pub max_yield_service_callbacks : ℕ
max_yield_service_callbacks = 16

-- equality of two pointers
unfoldable pub same_pointer : Option ℕ → Option ℕ → Bool
same_pointer none none = true
same_pointer none (some _) = false
same_pointer (some _) none = false
same_pointer (some a) (some b) = a == b

abbrev pub matches : Option ℕ → Option ℕ → YieldServiceEntry → Bool
matches callback context e = same_pointer e.callback callback && same_pointer e.context context

-- The loops of the two functions below: is there such an entry, write the first free one, clear
-- the first such one.
unfoldable pub has_entry : Option ℕ → Option ℕ → List YieldServiceEntry → Bool
has_entry callback context [] = false
has_entry callback context (e ∷ es) =
    if matches callback context e then true else has_entry callback context es

unfoldable pub fill_entry :
    Option ℕ → Option ℕ → List YieldServiceEntry → Option (List YieldServiceEntry)
fill_entry callback context [] = none
fill_entry callback context (e ∷ es) =
    if same_pointer e.callback none
    then some (record { callback = callback; context = context } ∷ es)
    else elim (fill_entry callback context es) [ some r ↦ some (e ∷ r) | none ↦ none ]

unfoldable pub clear_entry :
    Option ℕ → Option ℕ → List YieldServiceEntry → Option (List YieldServiceEntry)
clear_entry callback context [] = none
clear_entry callback context (e ∷ es) =
    if matches callback context e
    then some (empty_entry ∷ es)
    else elim (clear_entry callback context es) [ some r ↦ some (e ∷ r) | none ↦ none ]

module _ {U : Type 0} where
  -- the table that a loop wrote, and the result that it returned
  abbrev pub update_table : Board U → Option (List YieldServiceEntry) → Board U × Bool
  update_table b none = (b, false)
  update_table b (some es) = (record b { yield_service_entries = es }, true)

  unfoldable pub register_yield_service_callback : Board U → Option ℕ → Option ℕ → Board U × Bool
  register_yield_service_callback b none context = (b, false)
  register_yield_service_callback b (some f) context =
      if has_entry (some f) context b.yield_service_entries
      then (b, true)
      else update_table b (fill_entry (some f) context b.yield_service_entries)

  unfoldable pub unregister_yield_service_callback : Board U → Option ℕ → Option ℕ → Board U × Bool
  unregister_yield_service_callback b callback context =
      update_table b (clear_entry callback context b.yield_service_entries)

  -- `service` is the sketch's code behind the callbacks.
  module _ (service : ℕ → Option ℕ → Board U → Board U) where
    unfoldable pub service_entry : YieldServiceEntry → Board U → Board U
    service_entry e b = elim e.callback [ some f ↦ service f e.context b | none ↦ b ]

    -- `n` rounds left, at slot `i`
    unfoldable pub service_entries : ℕ → ℕ → Board U → Board U
    service_entries zero i b = b
    service_entries (suc n) i b =
        service_entries n (suc i) (service_entry (get_or b.yield_service_entries i empty_entry) b)

    unfoldable pub service_yield_callbacks : Board U → Board U
    service_yield_callbacks = service_entries max_yield_service_callbacks 0

    unfoldable pub pump : (Invocation → Board U → Board U) → Core → Board U → Board U
    pump call core b =
        let b' =
          service_yield_callbacks (check_interrupts call core (record b { in_pump = true })) in
        if b.in_pump then b else record b' { in_pump = false }
