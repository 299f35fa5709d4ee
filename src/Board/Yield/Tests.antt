-- ===== src/Board/Yield/Tests.antt =====
-- Runs of the service table of cores/epoxy/Arduino.cpp.
use epoxy_duino.Base.{
  ℕ, ◌+◌, ◌≡◌, refl, true, not, ◌&&◌, if◌then◌else◌, ◌==◌, List, [], ◌∷◌, ◌++◌, Option, some, none,
  arith,
}
use epoxy_duino.Board.{Board, power_on}
use epoxy_duino.Board.Yield.{
  register_yield_service_callback, unregister_yield_service_callback, clear_entry, same_pointer,
}
use epoxy_duino.Board.Yield.Slots.{entry_count, free_count, same_pair}
use epoxy_duino.Board.Yield.Table.{
  NoRepeats, Registered, register_yield_service_callback_lem, yield_service_callback-NoRepeats,
}

abbrev log : ℕ → Option ℕ → List ℕ → List ℕ
log f x calls = calls ++ f ∷ []

abbrev board : Board (List ℕ)
board = power_on []

abbrev one_service : Board (List ℕ)
one_service = (register_yield_service_callback board (some 4) (some 1)).0

-- Clearing a null pair answers true: it is the first free slot that is found.
null_pair : (unregister_yield_service_callback board none none).1 ≡ true
unfolding unregister_yield_service_callback clear_entry same_pointer
null_pair = refl

register_yield_service_callback_lem_example :
    Registered board 4 (some 1) (register_yield_service_callback board (some 4) (some 1))
    × (entry_count
          (some 5)
          none
          (register_yield_service_callback board (some 4) (some 1)).0.yield_service_entries
        ≡ entry_count (some 5) none board.yield_service_entries
          + (if entry_count (some 4) (some 1) board.yield_service_entries == 0
                && not (free_count board.yield_service_entries == 0)
              then same_pair 4 (some 1) 5 none
              else 0))
register_yield_service_callback_lem_example =
    register_yield_service_callback_lem board 4 (some 1) 5 none

board-NoRepeats : NoRepeats board.yield_service_entries
unfolding same_pointer
board-NoRepeats g y = omega arith

yield_service_callback-NoRepeats_example :
    NoRepeats one_service.yield_service_entries
    × NoRepeats (unregister_yield_service_callback board (some 4) (some 1)).0.yield_service_entries
    × (entry_count
          (some 4)
          (some 1)
          (unregister_yield_service_callback board (some 4) (some 1)).0.yield_service_entries
        ≡ 0)
yield_service_callback-NoRepeats_example =
    yield_service_callback-NoRepeats board 4 (some 1) board-NoRepeats
