-- ===== src/Address/Tests.antt =====
-- Addresses of IPAddress (cores/epoxy/IPAddress.cpp) read and printed.
use epoxy_duino.Base.{◌≡◌, ◌↔◌, refl, true, false, some, arith}
use epoxy_duino.Base.Text.{Bytes, codes}
use epoxy_duino.Address.{IpAddress, from_string, from_text, to_string}
use epoxy_duino.Address.RoundTrip.{IsAddress, from_string-to_string}
use epoxy_duino.Address.Accepts.{IsDotted, from_string-true}

abbrev local : IpAddress
local = record { b0 = 127; b1 = 0; b2 = 0; b3 = 1 }

abbrev zero_address : IpAddress
zero_address = record { b0 = 0; b1 = 0; b2 = 0; b3 = 0 }

-- A text that is refused may leave its first bytes behind.
half_read :
    from_string (codes "9.8.x") zero_address ≡ (false, record { b0 = 9; b1 = 8; b2 = 0; b3 = 0 })
unfolding from_string from_text
half_read = refl

-- Empty fields stand for 0.
dots_only : from_string (codes "...") local ≡ (true, zero_address)
unfolding from_string from_text
dots_only = refl

local-IsAddress : IsAddress local
local-IsAddress = (omega arith, omega arith, omega arith, omega arith)

from_string-to_string_example :
    (text : Bytes) × (to_string local ≡ some text) × (from_string text zero_address ≡ (true, local))
from_string-to_string_example = from_string-to_string local zero_address local-IsAddress

local_read : from_string (codes "127.0.00.1") zero_address ≡ (true, local)
unfolding from_string from_text
local_read = refl

from_string-true_example :
    (from_string (codes "127.0.00.1") zero_address ≡ (true, local))
    ↔ IsDotted (codes "127.0.00.1") local
from_string-true_example = from_string-true (codes "127.0.00.1") zero_address local
