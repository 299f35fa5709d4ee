-- ===== src/Board/Yield/Service.antt =====
-- Which background services a pump runs (cores/epoxy/Arduino.cpp).
use epoxy_duino.Base.{
  ℕ, suc, ◌≡◌, ◌∙◌, refl, sym, ap, List, [], ◌∷◌, ◌++◌, append_assoc, Option, none, some, length,
  length-append, get_or-append, arith,
}
use epoxy_duino.Board.{Board, YieldServiceEntry, empty_entry}
use epoxy_duino.Board.Yield.{
  service_entry, service_entries, service_yield_callbacks, max_yield_service_callbacks,
}

-- a service that changes nothing but the sketch's state
abbrev pub on_service : {U : Type 0} → (ℕ → Option ℕ → U → U) → ℕ → Option ℕ → Board U → Board U
on_service act f x b = record b { user = act f x b.user }

-- the services that stand in a table, run in the order of its slots
abbrev pub run_services : {U : Type 0} → (ℕ → Option ℕ → U → U) → List YieldServiceEntry → U → U
run_services act [] u = u
run_services act (e ∷ es) u =
    run_services act es (elim e.callback [ some f ↦ act f e.context u | none ↦ u ])

module _ {U : Type 0} (act : ℕ → Option ℕ → U → U) where
  service_entry_lem :
      (e : YieldServiceEntry) (b : Board U)
      → service_entry (on_service act) e b ≡ record b { user = run_services act (e ∷ []) b.user }
  unfolding service_entry
  service_entry_lem e b = ground arith

  service_entries_lem :
      (rest done : List YieldServiceEntry) (b : Board U) (i : ℕ)
      → b.yield_service_entries ≡ done ++ rest
      → i ≡ length done
      → service_entries (on_service act) (length rest) i b
        ≡ record b { user = run_services act rest b.user }
  unfolding service_entries
  service_entries_lem [] done b i e k = refl
  service_entries_lem (h ∷ rest) done b i e k =
      ap (service_entries (on_service act) (length rest) (suc i))
        (ground (arith, get_or-append done h rest empty_entry, service_entry_lem h b))
      ∙ service_entries_lem rest (done ++ h ∷ [])
          (record b { user = run_services act (h ∷ []) b.user }) (suc i)
          (e ∙ sym (append_assoc done (h ∷ []) rest))
          (omega (arith, length-append {0} done (h ∷ [])))

  -- The pump runs every registered service once, in the order of the slots, and leaves all but the
  -- sketch's state alone.
  pub service_yield_callbacks_lem :
      (b : Board U)
      → length b.yield_service_entries ≡ max_yield_service_callbacks
      → service_yield_callbacks (on_service act) b
        ≡ record b { user = run_services act b.yield_service_entries b.user }
  unfolding service_yield_callbacks
  service_yield_callbacks_lem b n =
      ap (λ k. service_entries (on_service act) k 0 b) (sym n)
      ∙ service_entries_lem b.yield_service_entries [] b 0 refl refl
