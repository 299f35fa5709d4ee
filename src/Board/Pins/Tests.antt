-- ===== src/Board/Pins/Tests.antt =====
-- Runs of cores/epoxy/Arduino.cpp's pin functions on small inputs.
use epoxy_duino.Base.{ℕ, ◌≡◌, refl}
use epoxy_duino.Board.{Board, power_on}
use epoxy_duino.Board.Pins.{digital_read, digital_read_value, set_pin, get_pin}

abbrev board : Board ℕ
board = power_on 0

pin_31 : digital_read (digital_read_value board 31 255) 31 ≡ 1
unfolding digital_read digital_read_value set_pin get_pin
pin_31 = refl

pin_32 : digital_read_value board 32 1 ≡ board
unfolding digital_read_value
pin_32 = refl
