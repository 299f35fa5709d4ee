-- ===== src/Number/Tests.antt =====
-- Runs of the number printers of cores/epoxy/avr_stdlib.cpp and cores/epoxy/Print.cpp.
use epoxy_duino.Base.{◌-◌, ◌%◌, ◌^◌, ◌≡◌, refl, [], ◌∷◌, some, arith}
use epoxy_duino.Base.Int.{negsuc}
use epoxy_duino.Base.Text.{Bytes}
use epoxy_duino.Number.{itoa, utoa, ltoa, ultoa, print_number, valid_base, digit, emit}
use epoxy_duino.Number.RoundTrip.{Written, ultoa-Written, print_number-ultoa}

hex : utoa 0xbeef 16 ≡ some (b'B' ∷ b'E' ∷ b'E' ∷ b'F' ∷ [])
unfolding ultoa emit digit
hex = refl

int_min :
    itoa (negsuc (2 ^ 31 - 1)) 10
    ≡ some (b'-' ∷ b'2' ∷ b'1' ∷ b'4' ∷ b'7' ∷ b'4' ∷ b'8' ∷ b'3' ∷ b'6' ∷ b'4' ∷ b'8' ∷ [])
unfolding ltoa emit digit
int_min = refl

ultoa-Written_example :
    (ds : Bytes) × (ultoa 32 1234 40 ≡ some ds) × Written (valid_base 40) (1234 % 2 ^ 32) ds
ultoa-Written_example = ultoa-Written 32 1234 40 (omega arith)

print_number-ultoa_example : print_number 255 2 ≡ ultoa 64 255 2
print_number-ultoa_example = print_number-ultoa 255 2 (omega arith) (omega arith)
