-- ===== src/Address/RoundTrip.antt =====
-- An address printed by IPAddress (cores/epoxy/IPAddress.cpp) is read back.
use native.Mathlib.Nat.{mod-eq_of_lt}
use epoxy_duino.Base.{
  ℕ, ◌+◌, ◌-◌, ◌*◌, ◌%◌, ◌^◌, ◌<◌, ◌≡◌, refl, sym, ap, ◌∙◌, true, false, ◌&&◌, leb, ltb, ◌==◌, [],
  ◌∷◌, ◌++◌, some, append-nil, arith,
}
use epoxy_duino.Base.Int.{pos}
use epoxy_duino.Base.Text.{Bytes, All}
use epoxy_duino.Number.{ltoa, ultoa, print_number}
use epoxy_duino.Number.RoundTrip.{
  Written, IsDigit, digit_value, value_from, value_from-ge, decimal_digit, print_number-ultoa,
}
use epoxy_duino.Number.Signed.{ltoa-Written}
use epoxy_duino.Address.{
  IpAddress, put_byte, from_text, from_string, byte_text, to_string, print_to,
}

-- all four bytes are bytes
abbrev pub IsAddress : IpAddress → Type 0
IsAddress a = (a.b0 < 256) × (a.b1 < 256) × (a.b2 < 256) × (a.b3 < 256)

pub from_text_digits :
    (acc dots : ℕ) (ds rest : Bytes) (a : IpAddress)
    → All (IsDigit 10) ds
    → value_from 10 acc ds < 256
    → from_text acc dots (ds ++ rest) a ≡ from_text (value_from 10 acc ds) dots rest a
unfolding from_text
from_text_digits acc dots [] rest a all h = refl
from_text_digits acc dots (c ∷ ds) rest a (dig, all) h =
    let (lo, hi, v) = decimal_digit c dig in
    let grows = value_from-ge (acc * 10 + digit_value c) ds in
    let next : (acc * 10 + (c - b'0')) % 2 ^ 16 ≡ acc * 10 + digit_value c =
      mod-eq_of_lt (omega arith) ∙ omega arith in
    let is : (leb b'0' c && leb c b'9') ≡ true = ground arith in
    let small : ltb 255 (acc * 10 + digit_value c) ≡ false = ground arith in
    rw (is, next, small) (from_text_digits (acc * 10 + digit_value c) dots ds rest a all h)

byte_text-Written : (b : ℕ) → b < 256 → (ds : Bytes) × (byte_text b ≡ some ds) × Written 10 b ds
unfolding byte_text
byte_text-Written b h = ltoa-Written 31 (pos b) (omega arith) (omega arith)

field_read :
    (dots b : ℕ) (ds rest : Bytes) (a : IpAddress)
    → Written 10 b ds
    → b < 256
    → from_text 0 dots (ds ++ rest) a ≡ from_text b dots rest a
field_read dots b ds rest a w h =
    from_text_digits 0 dots ds rest a w.digits (rw w.spelt h) ∙ rw w.spelt refl

field_and_dot :
    (dots b : ℕ) (ds rest : Bytes) (a : IpAddress)
    → Written 10 b ds
    → b < 256
    → dots < 3
    → from_text 0 dots (ds ++ b'.' ∷ rest) a ≡ from_text 0 (dots + 1) rest (put_byte dots b a)
unfolding from_text
field_and_dot dots b ds rest a w h lt =
    let room : (dots == 3) ≡ false = ground arith in
    field_read dots b ds (b'.' ∷ rest) a w h ∙ rw (room, mod-eq_of_lt h) refl

last_field :
    (b : ℕ) (ds : Bytes) (a : IpAddress)
    → Written 10 b ds
    → b < 256
    → from_text 0 3 ds a ≡ (true, put_byte 3 b a)
unfolding from_text
last_field b ds a w h =
    ap (λ (t : Bytes). from_text 0 3 t a) (sym (append-nil ds))
    ∙ field_read 3 b ds [] a w h
    ∙ rw (mod-eq_of_lt h) refl

-- toString() answers a text for every address, and fromString() reads it back into any address
-- object: it answers true and the object is the address.
pub from_string-to_string :
    (a prev : IpAddress)
    → IsAddress a
    → (text : Bytes) × (to_string a ≡ some text) × (from_string text prev ≡ (true, a))
unfolding to_string from_string
from_string-to_string a prev (h0, h1, h2, h3) =
    let (t0, e0, w0) = byte_text-Written a.b0 h0 in
    let (t1, e1, w1) = byte_text-Written a.b1 h1 in
    let (t2, e2, w2) = byte_text-Written a.b2 h2 in
    let (t3, e3, w3) = byte_text-Written a.b3 h3 in
    (
      t0 ++ b'.' ∷ (t1 ++ b'.' ∷ (t2 ++ b'.' ∷ t3)),
      rw (e0, e1, e2, e3) refl,
      field_and_dot 0 a.b0 t0 (t1 ++ b'.' ∷ (t2 ++ b'.' ∷ t3)) prev w0 h0 (omega arith)
          ∙ field_and_dot 1 a.b1 t1 (t2 ++ b'.' ∷ t3) (put_byte 0 a.b0 prev) w1 h1 (omega arith)
          ∙ field_and_dot 2 a.b2 t2 t3 (put_byte 1 a.b1 (put_byte 0 a.b0 prev)) w2 h2 (omega arith)
          ∙ last_field a.b3 t3 (put_byte 2 a.b2 (put_byte 1 a.b1 (put_byte 0 a.b0 prev))) w3 h3,
    )

print_number-byte_text : (b : ℕ) → b < 256 → print_number b 10 ≡ byte_text b
unfolding byte_text ltoa ultoa
print_number-byte_text b h =
    print_number-ultoa b 10 (omega arith) (omega arith)
    ∙ rw
        (
          mod-eq_of_lt {n = b} {m = 2 ^ 64} (omega arith),
          mod-eq_of_lt {n = b} {m = 2 ^ 32} (omega arith),
        )
        refl

-- printTo() prints what toString() answers.
pub print_to-to_string : (a : IpAddress) → IsAddress a → print_to a ≡ to_string a
unfolding print_to to_string
print_to-to_string a (h0, h1, h2, h3) =
    rw
      (
        print_number-byte_text a.b0 h0,
        print_number-byte_text a.b1 h1,
        print_number-byte_text a.b2 h2,
        print_number-byte_text a.b3 h3,
      )
      refl
