-- ===== src/Board/Clock/Laws.antt =====
-- Simulated time passes by exactly what a delay asked for (cores/epoxy/Arduino.cpp).
use epoxy_duino.Base.{◌≡◌}
use epoxy_duino.Board.{Board}

-- Code that leaves the simulated clock alone.
abbrev pub KeepsTime : {U : Type 0} → (Board U → Board U) → Type 0
KeepsTime {U} f = (b : Board U) → (f b).epoxy_micros ≡ b.epoxy_micros
