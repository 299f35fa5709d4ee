-- ===== src/Number.antt =====
-- Numbers as text: itoa(), utoa(), ltoa() and ultoa() of cores/epoxy/avr_stdlib.cpp, and
-- Print::printNumber() of cores/epoxy/Print.cpp. A text is the list of its bytes, without the NUL.
-- The widths are those of a 64-bit host: int has 32 bits, long has 64.
pub mod RoundTrip
pub mod Signed
mod Tests
use epoxy_duino.Base.{
  ℕ, suc, zero, ◌+◌, ◌-◌, ◌*◌, ◌/◌, ◌%◌, ◌^◌, ◌≡◌, Bool, true, false, ◌&&◌, ◌||◌, if◌then◌else◌,
  ltb, leb, ◌==◌, List, [], ◌∷◌, ◌++◌, Option, none, some,
}
use epoxy_duino.Base.Text.{Bytes}
use epoxy_duino.Base.Int.{ℤ, pos, negsuc, to_unsigned}

-- (char)(rem + ((9 < rem) ? ('A' - 10) : '0'))
unfoldable pub digit : ℕ → ℕ
digit rem = rem + (if ltb 9 rem then b'A' - 10 else b'0')

-- The loop of the four functions: the text grows at its front until `uarg` is 0. `none` means that
-- the fuel ran out.
unfoldable pub emit : ℕ → ℕ → ℕ → Bytes → Option Bytes
emit zero base uarg tail = if uarg == 0 then some tail else none
emit (suc fuel) base uarg tail =
    let rest = emit fuel base (uarg / base) (digit (uarg % base) ∷ tail) in
    if uarg == 0 then some tail else rest

abbrev pub valid_base : ℕ → ℕ
valid_base base = if ltb 36 base || ltb base 2 then 10 else base

-- the digits of an unsigned number, `0` for none
unfoldable pub unsigned_text : ℕ → ℕ → Option Bytes
unsigned_text uarg base = if uarg == 0 then some (b'0' ∷ []) else emit 64 base uarg []

-- ultoa() at 64 bits; utoa() is the same at 32
unfoldable pub ultoa : ℕ → ℕ → ℕ → Option Bytes
unfolding unsigned_text
ultoa w n base = unsigned_text (n % 2 ^ w) (valid_base base)

abbrev pub is_negative : ℤ → Bool
is_negative (pos n) = false
is_negative (negsuc n) = true

-- ltoa() at 64 bits; itoa() is the same at 32
unfoldable pub ltoa : ℕ → ℤ → ℕ → Option Bytes
unfolding unsigned_text
ltoa w n base =
    if valid_base base == 10 && is_negative n
    then elim (unsigned_text ((2 ^ w - to_unsigned w n) % 2 ^ w) 10) [
      | some ds ↦ some (b'-' ∷ ds)
      | none ↦ none
    ]
    else unsigned_text (to_unsigned w n) (valid_base base)

abbrev pub itoa : ℤ → ℕ → Option Bytes
itoa = ltoa 32

abbrev pub utoa : ℕ → ℕ → Option Bytes
utoa = ultoa 32

-- `char c = n % base; c < 10 ? c + '0' : c + 'A' - 10`, where char is signed
unfoldable pub print_digit : ℕ → ℕ
print_digit c = if ltb c 10 || leb 128 c then (c + b'0') % 256 else (c + b'A' - 10) % 256

-- The do-while loop of printNumber(): it makes a round also for 0.
unfoldable pub print_loop : ℕ → ℕ → ℕ → Bytes → Option Bytes
print_loop zero base n str = none
print_loop (suc fuel) base n str =
    let str' = print_digit (n % base) ∷ str in
    let rest = print_loop fuel base (n / base) str' in if n / base == 0 then some str' else rest

unfoldable pub print_number : ℕ → ℕ → Option Bytes
print_number n base = print_loop 64 (if ltb base 2 then 10 else base) n []
