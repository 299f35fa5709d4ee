-- ===== src/Address.antt =====
-- IPAddress (cores/epoxy/IPAddress.cpp and IPAddress.h): an IPv4 address as its four bytes.
pub mod RoundTrip
pub mod Words
pub mod Accepts
mod Tests
use epoxy_duino.Base.{
  ℕ, suc, ◌+◌, ◌-◌, ◌*◌, ◌%◌, ◌^◌, Bool, true, false, ◌&&◌, if◌then◌else◌, leb, ltb, ◌==◌, List, [],
  ◌∷◌, ◌++◌, Option, none, some, set,
}
use epoxy_duino.Base.Int.{pos}
use epoxy_duino.Base.Text.{Bytes}
use epoxy_duino.Number.{itoa, print_number}

pub record IpAddress : Type 0 where
  pub b0 : ℕ
  pub b1 : ℕ
  pub b2 : ℕ
  pub b3 : ℕ

-- bytes[i] = v
abbrev pub put_byte : ℕ → ℕ → IpAddress → IpAddress
put_byte i v a =
    if i == 0
    then record a { b0 = v }
    else if i == 1
    then record a { b1 = v }
    else if i == 2
    then record a { b2 = v }
    else record a { b3 = v }

-- The loop of fromString(), and what stands behind it. The accumulator is a uint16_t, and is cut to
-- a uint8_t when it is stored.
unfoldable pub from_text : ℕ → ℕ → Bytes → IpAddress → Bool × IpAddress
from_text acc dots [] a = if dots == 3 then (true, put_byte 3 (acc % 256) a) else (false, a)
from_text acc dots (c ∷ cs) a =
    let acc' = (acc * 10 + (c - b'0')) % 2 ^ 16 in
    let more = from_text acc' dots cs a in
    let next = from_text 0 (dots + 1) cs (put_byte dots (acc % 256) a) in
    if leb b'0' c && leb c b'9'
    then if ltb 255 acc' then (false, a) else more
    else if c == b'.'
    then if dots == 3 then (false, a) else next
    else (false, a)

unfoldable pub from_string : Bytes → IpAddress → Bool × IpAddress
from_string text a = from_text 0 0 text a

-- Four texts with dots between them; `none` where one of them is.
abbrev pub dotted : Option Bytes → Option Bytes → Option Bytes → Option Bytes → Option Bytes
dotted (some t0) (some t1) (some t2) (some t3) =
    some (t0 ++ b'.' ∷ (t1 ++ b'.' ∷ (t2 ++ b'.' ∷ t3)))
dotted (some t0) (some t1) (some t2) none = none
dotted (some t0) (some t1) none t3 = none
dotted (some t0) none t2 t3 = none
dotted none t1 t2 t3 = none

-- String::concat(unsigned char) converts by itoa().
unfoldable pub byte_text : ℕ → Option Bytes
byte_text b = itoa (pos b) 10

unfoldable pub to_string : IpAddress → Option Bytes
unfolding byte_text
to_string a = dotted (byte_text a.b0) (byte_text a.b1) (byte_text a.b2) (byte_text a.b3)

-- what printTo() prints
unfoldable pub print_to : IpAddress → Option Bytes
print_to a =
    dotted (print_number a.b0 10) (print_number a.b1 10) (print_number a.b2 10)
      (print_number a.b3 10)
