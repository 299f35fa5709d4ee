-- ===== src/Base/Bits.antt =====
-- The binary digits of a number, and what `&`, `|` and a one-bit mask do to each of them.
use Prim.Native.Nat.{min, max, digits, bit_and, bit_or, bit_and-bitwise, bit_or-bitwise}
use Prim.Native.Nat.{ℕ, zero, suc, ◌+◌, ◌-◌, ◌*◌, ◌/◌, ◌%◌, ◌^◌, ◌≤◌, ◌<◌}
use mathlib.Core.Path.{◌≡◌, refl, ap}
use mathlib.Core.Logic.{◌≢◌}
use native.Mathlib.Decide.{ℕ_discrete}
use epoxy_duino.Base.Tests.{◌==◌}
use native.Mathlib.Nat.{pow-suc, one-le-pow}
use native.Mathlib.Omega.{arith}

-- digit `p` of `a`, the lowest first
abbrev pub bit : ℕ → ℕ → ℕ
bit a zero = a % 2
bit a (suc p) = bit (a / 2) p

pub bit-lt : (p a : ℕ) → bit a p < 2
bit-lt zero a = omega arith
bit-lt (suc p) a = bit-lt p (a / 2)

pub bit-zero : (p : ℕ) → bit 0 p ≡ 0
bit-zero zero = refl
bit-zero (suc p) = bit-zero p

halve : (d r : ℕ) → r < 2 → (d * 2 + r) / 2 ≡ d
halve d r h = omega arith

bit-digits :
    (z : ℕ → ℕ) (f : ℕ → ℕ → ℕ)
    → ((x y : ℕ) → x < 2 → y < 2 → f x y < 2)
    → ((y p : ℕ) → bit (z y) p ≡ f 0 (bit y p))
    → (n p a b : ℕ) → a ≤ n
    → bit (digits z f n a b) p ≡ f (bit a p) (bit b p)
bit-digits z f small base zero p zero b h = rw (bit-zero p) (base b p)
bit-digits z f small base zero p (suc a) b h = absurd (omega arith)
bit-digits z f small base (suc n) p zero b h = rw (bit-zero p) (base b p)
bit-digits z f small base (suc n) zero (suc a) b h =
    omega (arith, small (suc a % 2) (b % 2) (omega arith) (omega arith))
bit-digits z f small base (suc n) (suc p) (suc a) b h =
    rw
      (halve (digits z f n (suc a / 2) (b / 2)) (f (suc a % 2) (b % 2))
        (small (suc a % 2) (b % 2) (omega arith) (omega arith)))
      (bit-digits z f small base n p (suc a / 2) (b / 2) (omega arith))

-- `&` and `|` act on each digit by itself.
pub bit-bit_and : (a b p : ℕ) → bit (bit_and a b) p ≡ min (bit a p) (bit b p)
bit-bit_and a b p = rw (bit_and-bitwise a b) (
    bit-digits (λ y. zero) min (λ x y hx hy. omega arith) (λ y q. rw (bit-zero q) (omega arith)) a p
      a b (omega arith))

pub bit-bit_or : (a b p : ℕ) → bit (bit_or a b) p ≡ max (bit a p) (bit b p)
bit-bit_or a b p =
    rw (bit_or-bitwise a b) (
      bit-digits (λ y. y) max (λ x y hx hy. omega arith) (λ y q. omega arith) a p a b (omega arith))

half_pow : (q : ℕ) → 2 ^ suc q / 2 ≡ 2 ^ q
half_pow q = omega (arith, pow-suc 2 q)

-- A mask of one bit.
pub bit-pow_self : (q : ℕ) → bit (2 ^ q) q ≡ 1
bit-pow_self zero = refl
bit-pow_self (suc q) = rw (half_pow q) (bit-pow_self q)

pub bit-pow_ne : (q p : ℕ) → q ≢ p → bit (2 ^ q) p ≡ 0
bit-pow_ne zero zero h = absurd (h refl)
bit-pow_ne zero (suc p) h = bit-zero p
bit-pow_ne (suc q) zero h = omega (arith, pow-suc 2 q)
bit-pow_ne (suc q) (suc p) h = rw (half_pow q) (bit-pow_ne q p (λ e. h (ap suc e)))

-- The complement in `n` bits turns each digit over.
pub bit-complement : (n p a : ℕ) → p < n → a < 2 ^ n → bit (2 ^ n - 1 - a) p ≡ 1 - bit a p
bit-complement zero p a h k = absurd (omega arith)
bit-complement (suc n) zero a h k = omega (arith, pow-suc 2 n)
bit-complement (suc n) (suc p) a h k =
    rw (half_complement n a k)
      (bit-complement n p (a / 2) (omega arith) (omega (arith, pow-suc 2 n)))
  where
    half_complement : (n a : ℕ) → a < 2 ^ suc n → (2 ^ suc n - 1 - a) / 2 ≡ 2 ^ n - 1 - a / 2
    half_complement n a k = omega (arith, pow-suc 2 n, one-le-pow n 2)

-- Numbers with the same digits are equal.
bit_ext_below : (n a b : ℕ) → a ≤ n → b ≤ n → ((p : ℕ) → bit a p ≡ bit b p) → a ≡ b
bit_ext_below zero a b ha hb h = omega arith
bit_ext_below (suc n) a b ha hb h =
    omega (arith, h 0, bit_ext_below n (a / 2) (b / 2) (omega arith) (omega arith) (λ p. h (suc p)))

pub bit_ext : (a b : ℕ) → ((p : ℕ) → bit a p ≡ bit b p) → a ≡ b
bit_ext a b = bit_ext_below (a + b) a b (omega arith) (omega arith)

mask_off : (a q : ℕ) → bit a q ≡ 0 → (p : ℕ) → bit (bit_and a (2 ^ q)) p ≡ bit 0 p
mask_off a q e p =
    rw (bit-bit_and a (2 ^ q) p, bit-zero p)
      (elim (ℕ_discrete q p) [
        | yes same ↦ rw (← same) (omega arith)
        | no other ↦ omega (arith, bit-pow_ne q p other)
      ])

mask_on : (a q : ℕ) → bit a q ≡ 1 → bit_and a (2 ^ q) ≢ 0
mask_on a q e z =
    omega (arith, bit-bit_and a (2 ^ q) q, bit-pow_self q, ap (λ m. bit m q) z, bit-zero q)

-- Testing one digit with a mask reads that digit.
pub mask_test : (a q : ℕ) → (bit_and a (2 ^ q) == 0) ≡ (bit a q == 0)
mask_test a q = elim (ℕ_discrete (bit a q) 0) [
  | yes e ↦ ground (arith, bit_ext (bit_and a (2 ^ q)) 0 (mask_off a q e))
  | no n ↦ ground (arith, mask_on a q (omega (arith, bit-lt q a)))
]
