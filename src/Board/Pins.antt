-- ===== src/Board/Pins.antt =====
-- digitalWrite(), digitalRead() and the two functions by which tests see and set the pins
-- (cores/epoxy/Arduino.cpp). Each direction keeps its 32 pins in one uint32_t.
pub mod Laws
mod Tests
use Prim.Native.Nat.{bit_and, bit_or}
use epoxy_duino.Base.{ℕ, ◌-◌, ◌^◌, ◌≡◌, Bool, true, false, not, if◌then◌else◌, leb, ◌==◌}
use epoxy_duino.Board.{Board}

-- `((uint32_t)0x1) << pin`, for `pin` below 32
abbrev pub pin_mask : ℕ → ℕ
pin_mask pin = 2 ^ pin

-- `~mask`
abbrev pub complement : ℕ → ℕ
complement mask = 2 ^ 32 - 1 - mask

-- The bit operations that the two setters share, and those of the two getters.
unfoldable pub set_pin : ℕ → ℕ → ℕ → ℕ
set_pin values pin val =
    if val == 0 then bit_and values (complement (pin_mask pin)) else bit_or values (pin_mask pin)

unfoldable pub get_pin : ℕ → ℕ → ℕ
get_pin values pin = if not (bit_and values (pin_mask pin) == 0) then 1 else 0

module _ {U : Type 0} where
  unfoldable pub digital_write : Board U → ℕ → ℕ → Board U
  digital_write b pin val =
      if leb 32 pin
      then b
      else record b { digital_write_pin_values = set_pin b.digital_write_pin_values pin val }

  unfoldable pub digital_write_value : Board U → ℕ → ℕ
  digital_write_value b pin = if leb 32 pin then 0 else get_pin b.digital_write_pin_values pin

  unfoldable pub digital_read : Board U → ℕ → ℕ
  digital_read b pin = if leb 32 pin then 0 else get_pin b.digital_read_pin_values pin

  unfoldable pub digital_read_value : Board U → ℕ → ℕ → Board U
  digital_read_value b pin val =
      if leb 32 pin
      then b
      else record b { digital_read_pin_values = set_pin b.digital_read_pin_values pin val }
