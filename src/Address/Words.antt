-- ===== src/Address/Words.antt =====
-- The 32-bit word of an IPv4 address (cores/epoxy/IPAddress.cpp and IPAddress.h), on a host that
-- stores the low byte first, as those that the source names.
use epoxy_duino.Base.{ℕ, ◌+◌, ◌*◌, ◌/◌, ◌%◌, ◌^◌, ◌<◌, ◌≡◌, ◌↔◌, Bool, true, ◌==◌}
use native.Mathlib.Omega.{arith}
use epoxy_duino.Address.{IpAddress}

abbrev pub unset_address : IpAddress
unset_address = record { b0 = 0; b1 = 0; b2 = 0; b3 = 0 }

unfoldable pub to_word : IpAddress → ℕ
to_word a = a.b0 + 2 ^ 8 * a.b1 + 2 ^ 16 * a.b2 + 2 ^ 24 * a.b3

unfoldable pub of_word : ℕ → IpAddress
of_word w = record {
  b0 = w % 2 ^ 8;
  b1 = w / 2 ^ 8 % 2 ^ 8;
  b2 = w / 2 ^ 16 % 2 ^ 8;
  b3 = w / 2 ^ 24 % 2 ^ 8;
}

-- four bytes at a pointer
abbrev pub of_bytes : ℕ → ℕ → ℕ → ℕ → IpAddress
of_bytes a b c d = record { b0 = a; b1 = b; b2 = c; b3 = d }

unfoldable pub same_address : IpAddress → IpAddress → Bool
unfolding to_word
same_address a b = to_word a == to_word b

-- The four bytes of an address are bytes.
abbrev pub IsAddress : IpAddress → Type 0
IsAddress a = (a.b0 < 2 ^ 8) × (a.b1 < 2 ^ 8) × (a.b2 < 2 ^ 8) × (a.b3 < 2 ^ 8)

-- Every word is the word of an address of four bytes, and an address comes back from its word.
pub of_word-to_word :
    (a : IpAddress) (w : ℕ)
    → IsAddress a
    → w < 2 ^ 32
    → (of_word (to_word a) ≡ a) × (to_word (of_word w) ≡ w) × IsAddress (of_word w)
unfolding to_word of_word
of_word-to_word a w (h₀, h₁, h₂, h₃) fits =
    let e₀ : to_word a % 2 ^ 8 ≡ a.b0 = omega (arith, h₀, h₁, h₂, h₃) in
    let e₁ : to_word a / 2 ^ 8 % 2 ^ 8 ≡ a.b1 = omega (arith, h₀, h₁, h₂, h₃) in
    let e₂ : to_word a / 2 ^ 16 % 2 ^ 8 ≡ a.b2 = omega (arith, h₀, h₁, h₂, h₃) in
    let e₃ : to_word a / 2 ^ 24 % 2 ^ 8 ≡ a.b3 = omega (arith, h₀, h₁, h₂, h₃) in
    (
      (λ i. record { b0 = e₀ i; b1 = e₁ i; b2 = e₂ i; b3 = e₃ i }),
      omega (arith, fits),
      (omega arith, omega arith, omega arith, omega arith),
    )

-- Two addresses are the same to operator== exactly when their four bytes are.
pub same_address_iff :
    (a b : IpAddress)
    → IsAddress a
    → IsAddress b
    → (same_address a b ≡ true) ↔ ((a.b0 ≡ b.b0) × (a.b1 ≡ b.b1) × (a.b2 ≡ b.b2) × (a.b3 ≡ b.b3))
unfolding same_address to_word
same_address_iff a b (h₀, h₁, h₂, h₃) (k₀, k₁, k₂, k₃) = ground arith
