-- ===== src/Board/Pins/Laws.antt =====
-- What a pin reads after any pin was set (cores/epoxy/Arduino.cpp).
use native.Mathlib.Nat.{one-le-pow, pow-le-pow_right, pow-suc}
use native.Mathlib.Decide.{ℕ_discrete}
use epoxy_duino.Base.{ℕ, ◌^◌, ◌<◌, ◌≡◌, if◌then◌else◌, ltb, ◌==◌, ◌&&◌, arith}
use epoxy_duino.Base.Bits.{
  bit, bit-lt, bit-bit_and, bit-bit_or, bit-pow_self, bit-pow_ne, bit-complement, mask_test,
}
use epoxy_duino.Board.{Board}
use epoxy_duino.Board.Pins.{
  pin_mask, complement, set_pin, get_pin, digital_write, digital_write_value, digital_read,
  digital_read_value,
}

get_pin-bit : (values pin : ℕ) → get_pin values pin ≡ bit values pin
unfolding get_pin
get_pin-bit values pin = ground (arith, mask_test values pin, bit-lt pin values)

pow-lt : (p : ℕ) → p < 32 → 2 ^ p < 2 ^ 32
pow-lt p h = omega (arith, pow-suc 2 p, one-le-pow p 2, pow-le-pow_right {n = 2} (omega arith) h)

bit-set_pin :
    (values pin val q : ℕ)
    → pin < 32
    → q < 32
    → bit (set_pin values pin val) q
      ≡ (if q == pin then (if val == 0 then 0 else 1) else bit values q)
unfolding set_pin
bit-set_pin values pin val q hp hq = elim (ℕ_discrete pin q) [
  | yes same ↦ rw (← same) (
      ground (
        arith,
        bit-bit_and values (complement (pin_mask pin)) pin,
        bit-bit_or values (pin_mask pin) pin,
        bit-complement 32 pin (pin_mask pin),
        bit-pow_self pin,
        bit-lt pin values,
        pow-lt pin,
      ))
  | no other ↦ ground (
    arith,
    bit-bit_and values (complement (pin_mask pin)) q,
    bit-bit_or values (pin_mask pin) q,
    bit-complement 32 q (pin_mask pin),
    bit-pow_ne pin q other,
    bit-lt q values,
    pow-lt pin,
  )
]

get_pin-set_pin :
    (values pin val q : ℕ)
    → pin < 32
    → q < 32
    → get_pin (set_pin values pin val) q
      ≡ (if q == pin then (if val == 0 then 0 else 1) else get_pin values q)
get_pin-set_pin values pin val q hp hq =
    rw (get_pin-bit, get_pin-bit) (bit-set_pin values pin val q hp hq)

-- the level that a pin shows after `val` was put on it
abbrev pub level : ℕ → ℕ
level val = if val == 0 then 0 else 1

module _ {U : Type 0} (b : Board U) (pin val q : ℕ) where
  -- After `digitalReadValue(pin, val)` digitalRead() gives that level on `pin`, if it is one of the
  -- 32 pins, and what it gave before on every other pin. No pin of the output side changes.
  pub digital_read-digital_read_value :
      (digital_read (digital_read_value b pin val) q
        ≡ (if q == pin && ltb pin 32 then level val else digital_read b q))
      × (digital_write_value (digital_read_value b pin val) q ≡ digital_write_value b q)
  unfolding digital_read digital_read_value digital_write_value
  digital_read-digital_read_value =
      (ground (arith, get_pin-set_pin b.digital_read_pin_values pin val q), ground arith)

  -- After `digitalWrite(pin, val)` digitalWriteValue() gives that level on `pin`, if it is one of
  -- the 32 pins, and what it gave before on every other pin. No pin of the input side changes.
  pub digital_write_value-digital_write :
      (digital_write_value (digital_write b pin val) q
        ≡ (if q == pin && ltb pin 32 then level val else digital_write_value b q))
      × (digital_read (digital_write b pin val) q ≡ digital_read b q)
  unfolding digital_read digital_write digital_write_value
  digital_write_value-digital_write =
      (ground (arith, get_pin-set_pin b.digital_write_pin_values pin val q), ground arith)
