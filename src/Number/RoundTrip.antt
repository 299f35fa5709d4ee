-- ===== src/Number/RoundTrip.antt =====
-- The text of a number spells it, fits the buffers, and has no leading zero.
use native.Mathlib.Nat.{
  pow-suc, pow-le-pow_right, one-le-pow, mod-eq_of_lt, div-lt_iff_lt-mul, div-add-mod', mod-lt,
}
use epoxy_duino.Base.{
  ℕ, suc, zero, ◌+◌, ◌-◌, ◌*◌, ◌/◌, ◌%◌, ◌^◌, ◌≤◌, ◌<◌, ◌≡◌, ◌≢◌, ◌⊎◌, refl, sym, ap, ◌∙◌,
  Bool-cases, ==_iff, inl, inr, if◌then◌else◌, ltb, leb, ◌==◌, [], ◌∷◌, ◌++◌, append_assoc,
  append-nil, some, length, length-append, arith,
}
use epoxy_duino.Base.Text.{Bytes, All, All-append}
use epoxy_duino.Number.{
  digit, emit, unsigned_text, ultoa, valid_base, print_digit, print_loop, print_number,
}

-- the number that a digit stands for, and the number that a text spells behind `v`
abbrev pub digit_value : ℕ → ℕ
digit_value c = if leb c b'9' then c - b'0' else c - b'A' + 10

abbrev pub value_from : ℕ → ℕ → Bytes → ℕ
value_from base v [] = v
value_from base v (c ∷ cs) = value_from base (v * base + digit_value c) cs

abbrev pub value : ℕ → Bytes → ℕ
value base = value_from base 0

value_from-append :
    (base v : ℕ) (xs ys : Bytes)
    → value_from base v (xs ++ ys) ≡ value_from base (value_from base v xs) ys
value_from-append base v [] ys = refl
value_from-append base v (c ∷ xs) ys = value_from-append base (v * base + digit_value c) xs ys

digit_value-digit : (r : ℕ) → r < 36 → digit_value (digit r) ≡ r
unfolding digit
digit_value-digit r h = ground arith

pub value_from-ge : (v : ℕ) (ds : Bytes) → v ≤ value_from 10 v ds
value_from-ge v [] = omega arith
value_from-ge v (c ∷ ds) = omega (arith, value_from-ge (v * 10 + digit_value c) ds)

-- the text holds digits of the base only, the first of them is not 0
abbrev pub IsDigit : ℕ → ℕ → Type 0
IsDigit base c = (r : ℕ) × (r < base) × (c ≡ digit r)

pub decimal_digit : (c : ℕ) → IsDigit 10 c → (b'0' ≤ c) × (c ≤ b'9') × (digit_value c ≡ c - b'0')
unfolding digit
decimal_digit c (r, lt, e) = rw e (ground arith, ground arith, ground arith)

quotient_lt : (base n f : ℕ) → 2 ≤ base → n < 2 ^ suc f → n / base < 2 ^ f
quotient_lt base n f h k = (div-lt_iff_lt-mul (omega arith)).1 (grind (arith, pow-suc 2 f))

-- the first byte, or 0
abbrev pub leading : Bytes → ℕ
leading [] = 0
leading (c ∷ cs) = c

-- what the rounds of the loop put before the text that was there
record Spells (base n fuel : ℕ) (ds : Bytes) : Type 0 where
  spelt : value base ds ≡ n
  digits : All (IsDigit base) ds
  short : length ds ≤ fuel
  lead : (ds ≡ []) ⊎ (leading ds ≢ b'0')

Spells-nil : (base n fuel : ℕ) → n ≡ 0 → Spells base n fuel []
Spells-nil base n fuel e = record {
  spelt = sym e;
  digits = tt;
  short = omega arith;
  lead = inl refl;
}

leading-append :
    (base n : ℕ) (ds : Bytes)
    → n ≢ 0
    → value base ds ≡ n / base
    → (ds ≡ []) ⊎ (leading ds ≢ b'0')
    → leading (ds ++ digit (n % base) ∷ []) ≢ b'0'
unfolding digit
leading-append base n [] more v lead =
    let last : n % base ≡ n = omega (arith, div-add-mod' n base, ap (λ (t : ℕ). t * base) v) in
    rw last (ground arith)
leading-append base n (c ∷ ds) more v (inl e) = cc
leading-append base n (c ∷ ds) more v (inr h) = h

-- one more round, which puts the last digit behind those of the quotient
Spells-step :
    (base n fuel : ℕ) (ds : Bytes)
    → 2 ≤ base
    → base ≤ 36
    → n ≢ 0
    → Spells base (n / base) fuel ds
    → Spells base n (suc fuel) (ds ++ digit (n % base) ∷ [])
Spells-step base n fuel ds lo hi more s = record {
  spelt =
      value_from-append base 0 ds (digit (n % base) ∷ [])
      ∙ omega (
        arith,
        s.spelt,
        ap (λ (t : ℕ). t * base) s.spelt,
        digit_value-digit (n % base),
        mod-lt n {m = base} (omega arith),
        div-add-mod' n base,
      );
  digits =
      All-append (IsDigit base) ds (digit (n % base) ∷ []) s.digits
        ((n % base, mod-lt n (omega arith), refl), tt);
  short = omega (arith, length-append {0} ds (digit (n % base) ∷ []), s.short);
  lead = inr (leading-append base n ds more s.spelt s.lead);
}

emit-Spells :
    (fuel base n : ℕ) (tail : Bytes)
    → 2 ≤ base
    → base ≤ 36
    → n < 2 ^ fuel
    → (ds : Bytes) × (emit fuel base n tail ≡ some (ds ++ tail)) × Spells base n fuel ds
unfolding emit
emit-Spells zero base n tail lo hi fits = ([], ground arith, Spells-nil base n 0 (omega arith))
emit-Spells (suc fuel) base n tail lo hi fits = elim (Bool-cases (n == 0)) [
  | inl done ↦ ([], rw done, Spells-nil base n (suc fuel) (ground arith))
  | inr more ↦
      let (ds, e, s) =
        emit-Spells fuel base (n / base) (digit (n % base) ∷ tail) lo hi
          (quotient_lt base n fuel lo fits) in
      (
        ds ++ digit (n % base) ∷ [],
        rw more (rw append_assoc e),
        Spells-step base n fuel ds lo hi (ground arith) s,
      )
]

-- What unsigned text is: digits of the base that spell the number, at most 64 of them, the first not
-- 0 but for the number 0.
pub record Written (base n : ℕ) (ds : Bytes) : Type 0 where
  pub spelt : value base ds ≡ n
  pub digits : All (IsDigit base) ds
  pub some_digit : 1 ≤ length ds
  pub short : length ds ≤ 64
  pub lead : (n ≡ 0) ⊎ (leading ds ≢ b'0')

zero-Written : (base : ℕ) → 2 ≤ base → Written base 0 (b'0' ∷ [])
zero-Written base lo = record {
  spelt = omega arith;
  digits = ((0, omega arith, unfold digit in refl), tt);
  some_digit = omega arith;
  short = omega arith;
  lead = inl refl;
}

Spells-Written : (base n : ℕ) (ds : Bytes) → n ≢ 0 → Spells base n 64 ds → Written base n ds
Spells-Written base n [] more s = absurd (more (sym s.spelt))
Spells-Written base n (c ∷ ds) more s = record {
  spelt = s.spelt;
  digits = s.digits;
  some_digit = omega arith;
  short = s.short;
  lead = inr (elim s.lead [ inl e ↦ cc | inr h ↦ h ]);
}

pub unsigned_text-Written :
    (n base : ℕ)
    → 2 ≤ base
    → base ≤ 36
    → n < 2 ^ 64
    → (ds : Bytes) × (unsigned_text n base ≡ some ds) × Written base n ds
unfolding unsigned_text
unsigned_text-Written n base lo hi fits = elim (Bool-cases (n == 0)) [
  | inl done ↦ (b'0' ∷ [], rw done, rw ((==_iff n 0).0 done) (zero-Written base lo))
  | inr more ↦
      let (ds, e, s) = emit-Spells 64 base n [] lo hi fits in
      (ds, rw (more, e, append-nil), Spells-Written base n ds (ground arith) s)
]

-- utoa() and ultoa() end for every number of their width and every base, and write the number's
-- digits: in base 10 if the base asked for is not one of 2 to 36. They stay within the 65 characters
-- of the local buffer.
pub ultoa-Written :
    (w n base : ℕ)
    → w ≤ 64
    → (ds : Bytes) × (ultoa w n base ≡ some ds) × Written (valid_base base) (n % 2 ^ w) ds
unfolding ultoa
ultoa-Written w n base h =
    unsigned_text-Written (n % 2 ^ w) (valid_base base) (ground arith) (ground arith) (
      omega (
        arith,
        mod-lt n {m = 2 ^ w} (one-le-pow w 2 (omega arith)),
        pow-le-pow_right {n = 2} (omega arith) h,
      ))

print_digit_lem : (r : ℕ) → r < 36 → print_digit r ≡ digit r
unfolding print_digit digit
print_digit_lem r h = ground arith

emit_done : (fuel base : ℕ) (str : Bytes) → emit fuel base 0 str ≡ some str
unfolding emit
emit_done zero base str = refl
emit_done (suc fuel) base str = refl

print_loop-emit :
    (fuel base n : ℕ) (str : Bytes)
    → 2 ≤ base
    → base ≤ 36
    → n ≢ 0
    → n < 2 ^ fuel
    → print_loop fuel base n str ≡ emit fuel base n str
unfolding print_loop emit
print_loop-emit zero base n str lo hi more fits = absurd (omega arith)
print_loop-emit (suc fuel) base n str lo hi more fits =
    rw (print_digit_lem (n % base) (omega (arith, mod-lt n {m = base} (omega arith)))) (
      ground (
        arith,
        emit_done fuel base (digit (n % base) ∷ str),
        print_loop-emit fuel base (n / base) (digit (n % base) ∷ str) lo hi,
        quotient_lt base n fuel lo fits,
      ))

print_loop-zero : (base : ℕ) → 2 ≤ base → print_loop 64 base 0 [] ≡ some (b'0' ∷ [])
unfolding print_loop print_digit
print_loop-zero base lo =
    let e : 0 / base ≡ 0 = omega arith in let m : 0 % base ≡ 0 = omega arith in rw (e, m)

print_loop-unsigned_text :
    (n base : ℕ)
    → 2 ≤ base
    → base ≤ 36
    → n < 2 ^ 64
    → print_loop 64 base n [] ≡ unsigned_text n base
unfolding unsigned_text
print_loop-unsigned_text n base lo hi fits = elim (Bool-cases (n == 0)) [
  | inl done ↦ rw (done, (==_iff n 0).0 done) (print_loop-zero base lo)
  | inr more ↦ rw more (print_loop-emit 64 base n [] lo hi (ground arith) fits)
]

-- Print::printNumber() writes what ultoa() writes, for every 64-bit number and every base up to 36.
pub print_number-ultoa :
    (n base : ℕ) → n < 2 ^ 64 → base ≤ 36 → print_number n base ≡ ultoa 64 n base
unfolding print_number ultoa
print_number-ultoa n base fits hi =
    let same : (if ltb base 2 then 10 else base) ≡ valid_base base = ground arith in
    rw (same, mod-eq_of_lt fits)
      (print_loop-unsigned_text n (valid_base base) (ground arith) (ground arith) fits)
