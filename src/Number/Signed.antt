-- ===== src/Number/Signed.antt =====
-- itoa() and ltoa() (cores/epoxy/avr_stdlib.cpp): the sign, down to INT_MIN and LONG_MIN.
use native.Mathlib.Nat.{pow-le-pow_right, one-le-pow, pow-suc, mod-eq_of_lt, mod-mod}
use epoxy_duino.Base.{
  ℕ, suc, ◌+◌, ◌-◌, ◌%◌, ◌^◌, ◌≤◌, ◌<◌, ◌≡◌, ◌≢◌, if◌then◌else◌, [], ◌∷◌, ◌++◌, some, false, ◌==◌,
  arith,
}
use epoxy_duino.Base.Int.{ℤ, pos, negsuc, to_unsigned}
use epoxy_duino.Base.Text.{Bytes}
use epoxy_duino.Number.{ltoa, ultoa, valid_base, is_negative}
use epoxy_duino.Number.RoundTrip.{Written, unsigned_text-Written}

abbrev pub sign : ℤ → Bytes
sign n = if is_negative n then b'-' ∷ [] else []

abbrev pub magnitude : ℤ → ℕ
magnitude (pos n) = n
magnitude (negsuc n) = suc n

-- The range of a signed number of `w + 1` bits.
abbrev pub Fits : ℕ → ℤ → Type 0
Fits w (pos n) = n < 2 ^ w
Fits w (negsuc n) = n < 2 ^ w

below_64 : (w : ℕ) → w < 64 → (2 ^ suc w ≤ 2 ^ 64) × (2 ^ suc w ≡ 2 ^ w + 2 ^ w) × (1 ≤ 2 ^ w)
below_64 w h = (
  pow-le-pow_right {n = 2} (omega arith) h,
  omega (arith, pow-suc 2 w),
  one-le-pow w 2 (omega arith),
)

negated : (m n : ℕ) → suc n < m → (m - (m - suc n % m) % m) % m ≡ suc n
negated m n h =
    rw (mod-eq_of_lt h, mod-eq_of_lt {n = m - suc n} {m = m} (omega arith))
      (rw (mod-eq_of_lt {n = m - (m - suc n)} {m = m} (omega arith)) (omega arith))

-- In base 10 itoa() and ltoa() write a minus sign exactly for the negative numbers, then the digits
-- of the absolute value, for every number of their width, the least one included.
pub ltoa-Written :
    (w : ℕ) (n : ℤ)
    → w < 64
    → Fits w n
    → (ds : Bytes) × (ltoa (suc w) n 10 ≡ some (sign n ++ ds)) × Written 10 (magnitude n) ds
unfolding ltoa
ltoa-Written w (pos n) h fits =
    let (top, double, one) = below_64 w h in
    let (ds, e, s) = unsigned_text-Written n 10 (omega arith) (omega arith) (omega arith) in
    (ds, rw (mod-eq_of_lt {n = n} {m = 2 ^ suc w} (omega arith)) e, s)
ltoa-Written w (negsuc n) h fits =
    let (top, double, one) = below_64 w h in
    let (ds, e, s) = unsigned_text-Written (suc n) 10 (omega arith) (omega arith) (omega arith) in
    (ds, rw (negated (2 ^ suc w) n (omega arith), e), s)

-- In every other base they write the bits of the number read as an unsigned one.
pub ltoa-ultoa :
    (w base : ℕ) (n : ℤ) → valid_base base ≢ 10 → ltoa w n base ≡ ultoa w (to_unsigned w n) base
unfolding ltoa ultoa
ltoa-ultoa w base (pos n) h =
    let other : (valid_base base == 10) ≡ false = ground arith in rw (other, mod-mod)
ltoa-ultoa w base (negsuc n) h =
    let other : (valid_base base == 10) ≡ false = ground arith in rw (other, mod-mod)
