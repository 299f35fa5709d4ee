-- ===== src/Address/Accepts.antt =====
-- The texts that fromString() of IPAddress takes (cores/epoxy/IPAddress.cpp).
use mathlib.Core.Path.{subst}
use native.Mathlib.Nat.{mod-eq_of_lt}
use epoxy_duino.Base.{
  ℕ, ◌+◌, ◌-◌, ◌*◌, ◌%◌, ◌^◌, ◌<◌, ◌≤◌, ◌≡◌, ◌≢◌, ◌⊎◌, ◌↔◌, inl, inr, refl, sym, ap, ◌∙◌, Bool,
  Bool-cases, true, false, ◌&&◌, leb, ltb, ◌==◌, [], ◌∷◌, ◌++◌, append-nil, arith,
}
use epoxy_duino.Base.Text.{Bytes, All}
use epoxy_duino.Number.{digit}
use epoxy_duino.Number.RoundTrip.{IsDigit, digit_value, value_from, value, decimal_digit}
use epoxy_duino.Address.{IpAddress, put_byte, from_text, from_string}
use epoxy_duino.Address.RoundTrip.{IsAddress, from_text_digits}

is_decimal : (c : ℕ) → b'0' ≤ c → c ≤ b'9' → IsDigit 10 c
unfolding digit
is_decimal c lo hi = (c - b'0', omega arith, ground arith)

-- What a field of the text is when fromString() succeeds: decimal digits, of a value below 256, and
-- behind them the end of the fourth field, or a dot and the next one.
abbrev Field : ℕ → ℕ → Bytes → IpAddress → IpAddress → Type 0
Field acc dots text a result =
    (ds : Bytes) × (rest : Bytes) × (text ≡ ds ++ rest)
    × All (IsDigit 10) ds
    × (value_from 10 acc ds < 256)
    × (((rest ≡ []) × (dots ≡ 3) × (result ≡ put_byte 3 (value_from 10 acc ds) a))
        ⊎ ((more : Bytes) × (rest ≡ b'.' ∷ more)
            × (dots ≢ 3)
            × (from_text 0 (dots + 1) more (put_byte dots (value_from 10 acc ds) a)
                ≡ (true, result))))

digit-Field :
    (acc dots c : ℕ) (cs : Bytes) (a result : IpAddress)
    → b'0' ≤ c
    → c ≤ b'9'
    → Field (acc * 10 + digit_value c) dots cs a result
    → Field acc dots (c ∷ cs) a result
digit-Field acc dots c cs a result lo hi (ds, rest, e, all, small, stop) =
    (c ∷ ds, rest, ap (◌∷◌ c) e, (is_decimal c lo hi, all), small, stop)

refusal : (a result : IpAddress) → ¬ (◌≡◌ {A = Bool × IpAddress} (false, a) (true, result))
refusal a result e = ground (arith, ap (λ (p : Bool × IpAddress). p.0) e)

field_lem :
    (acc dots : ℕ) (text : Bytes) (a result : IpAddress)
    → acc < 256
    → from_text acc dots text a ≡ (true, result)
    → Field acc dots text a result
unfolding from_text
field_lem acc dots [] a result small ok = elim (Bool-cases (dots == 3)) [
  | inl last ↦
      let done = rw (last, mod-eq_of_lt small) at ok in
      ([], [], refl, tt, small, inl (refl, ground arith, ap (λ p. p.1) (sym done)))
  | inr early ↦ let no = rw early at ok in absurd (refusal a result no)
]
field_lem acc dots (c ∷ cs) a result small ok = elim (Bool-cases (leb b'0' c && leb c b'9')) [
  | inl is ↦
      let lo : b'0' ≤ c = ground arith in
      let hi : c ≤ b'9' = ground arith in
      let (_, _, v) = decimal_digit c (is_decimal c lo hi) in
      let next : (acc * 10 + (c - b'0')) % 2 ^ 16 ≡ acc * 10 + digit_value c =
        mod-eq_of_lt (omega arith) ∙ omega arith in
      elim (Bool-cases (ltb 255 (acc * 10 + digit_value c))) [
        | inl large ↦ let no = rw (is, next, large) at ok in absurd (refusal a result no)
        | inr fits ↦ digit-Field acc dots c cs a result lo hi (
            field_lem (acc * 10 + digit_value c) dots cs a result (ground arith)
              (rw (is, next, fits) at ok))
      ]
  | inr other ↦ elim (Bool-cases (c == b'.')) [
    | inr bad ↦ let no = rw (other, bad) at ok in absurd (refusal a result no)
    | inl dot ↦ elim (Bool-cases (dots == 3)) [
      | inl full ↦ let no = rw (other, dot, full) at ok in absurd (refusal a result no)
      | inr room ↦
          let next = rw (other, dot, room, mod-eq_of_lt small) at ok in
          (
            [],
            c ∷ cs,
            refl,
            tt,
            small,
            inr (cs, ap (λ z. z ∷ cs) (ground arith), ground arith, next),
          )
    ]
  ]
]

next_field :
    (dots : ℕ) (text : Bytes) (a result : IpAddress)
    → dots ≢ 3
    → from_text 0 dots text a ≡ (true, result)
    → (ds more : Bytes) × (text ≡ ds ++ b'.' ∷ more)
      × All (IsDigit 10) ds
      × (value 10 ds < 256)
      × (from_text 0 (dots + 1) more (put_byte dots (value 10 ds) a) ≡ (true, result))
next_field dots text a result early ok =
    let (ds, rest, e, all, small, stop) = field_lem 0 dots text a result (omega arith) ok in
    elim stop [
      | inl (over, last, same) ↦ absurd (early last)
      | inr (more, dot, other, next) ↦ (ds, more, e ∙ ap (λ z. ds ++ z) dot, all, small, next)
    ]

last_field :
    (text : Bytes) (a result : IpAddress)
    → from_text 0 3 text a ≡ (true, result)
    → All (IsDigit 10) text × (value 10 text < 256) × (result ≡ put_byte 3 (value 10 text) a)
last_field text a result ok =
    let (ds, rest, e, all, small, stop) = field_lem 0 3 text a result (omega arith) ok in
    elim stop [
      | inl (over, last, same) ↦
          let whole : text ≡ ds = e ∙ ap (λ z. ds ++ z) over ∙ append-nil ds in
          rw whole (all, small, same)
      | inr (more, dot, other, next) ↦ absurd (other refl)
    ]

field_and_dot :
    (dots : ℕ) (ds rest : Bytes) (a : IpAddress)
    → All (IsDigit 10) ds
    → value 10 ds < 256
    → dots < 3
    → from_text 0 dots (ds ++ b'.' ∷ rest) a
      ≡ from_text 0 (dots + 1) rest (put_byte dots (value 10 ds) a)
unfolding from_text
field_and_dot dots ds rest a all h lt =
    let room : (dots == 3) ≡ false = ground arith in
    from_text_digits 0 dots ds (b'.' ∷ rest) a all h ∙ rw (room, mod-eq_of_lt h) refl

field_and_end :
    (ds : Bytes) (a : IpAddress)
    → All (IsDigit 10) ds
    → value 10 ds < 256
    → from_text 0 3 ds a ≡ (true, put_byte 3 (value 10 ds) a)
unfolding from_text
field_and_end ds a all h =
    ap (λ (t : Bytes). from_text 0 3 t a) (sym (append-nil ds))
    ∙ from_text_digits 0 3 ds [] a all h
    ∙ rw (mod-eq_of_lt h) refl

-- Four fields of decimal digits with dots between them, and the address of which they are the
-- bytes. A field may be empty and stands for 0.
pub record IsDotted (text : Bytes) (a : IpAddress) : Type 0 where
  pub t0 : Bytes
  pub t1 : Bytes
  pub t2 : Bytes
  pub t3 : Bytes
  pub joined : text ≡ t0 ++ b'.' ∷ (t1 ++ b'.' ∷ (t2 ++ b'.' ∷ t3))
  pub digits0 : All (IsDigit 10) t0
  pub digits1 : All (IsDigit 10) t1
  pub digits2 : All (IsDigit 10) t2
  pub digits3 : All (IsDigit 10) t3
  pub bytes : a ≡ record { b0 = value 10 t0; b1 = value 10 t1; b2 = value 10 t2; b3 = value 10 t3 }
  pub below : IsAddress a

IsDotted-of_true :
    (text : Bytes) (prev a : IpAddress) → from_string text prev ≡ (true, a) → IsDotted text a
unfolding from_string
IsDotted-of_true text prev a ok =
    let (t0, u1, e0, d0, h0, ok1) = next_field 0 text prev a (omega arith) ok in
    let p1 = put_byte 0 (value 10 t0) prev in
    let (t1, u2, e1, d1, h1, ok2) = next_field 1 u1 p1 a (omega arith) ok1 in
    let p2 = put_byte 1 (value 10 t1) p1 in
    let (t2, t3, e2, d2, h2, ok3) = next_field 2 u2 p2 a (omega arith) ok2 in
    let (d3, h3, same) = last_field t3 (put_byte 2 (value 10 t2) p2) a ok3 in
    record {
      t0 = t0;
      t1 = t1;
      t2 = t2;
      t3 = t3;
      joined = e0 ∙ ap (λ z. t0 ++ b'.' ∷ z) (e1 ∙ ap (λ z. t1 ++ b'.' ∷ z) e2);
      digits0 = d0;
      digits1 = d1;
      digits2 = d2;
      digits3 = d3;
      bytes = same;
      below = rw same (h0, h1, h2, h3);
    }

true_of_fields :
    (t0 t1 t2 t3 : Bytes) (prev : IpAddress)
    → All (IsDigit 10) t0
    → All (IsDigit 10) t1
    → All (IsDigit 10) t2
    → All (IsDigit 10) t3
    → IsAddress (record { b0 = value 10 t0; b1 = value 10 t1; b2 = value 10 t2; b3 = value 10 t3 })
    → from_string (t0 ++ b'.' ∷ (t1 ++ b'.' ∷ (t2 ++ b'.' ∷ t3))) prev
      ≡ (true, record { b0 = value 10 t0; b1 = value 10 t1; b2 = value 10 t2; b3 = value 10 t3 })
unfolding from_string
true_of_fields t0 t1 t2 t3 prev d0 d1 d2 d3 (h0, h1, h2, h3) =
    let p1 = put_byte 0 (value 10 t0) prev in
    let p2 = put_byte 1 (value 10 t1) p1 in
    field_and_dot 0 t0 (t1 ++ b'.' ∷ (t2 ++ b'.' ∷ t3)) prev d0 h0 (omega arith)
    ∙ field_and_dot 1 t1 (t2 ++ b'.' ∷ t3) p1 d1 h1 (omega arith)
    ∙ field_and_dot 2 t2 t3 p2 d2 h2 (omega arith)
    ∙ field_and_end t3 (put_byte 2 (value 10 t2) p2) d3 h3

true_of-IsDotted :
    (text : Bytes) (prev a : IpAddress) → IsDotted text a → from_string text prev ≡ (true, a)
true_of-IsDotted text prev a d =
    ap (λ (t : Bytes). from_string t prev) d.joined
    ∙ true_of_fields d.t0 d.t1 d.t2 d.t3 prev d.digits0 d.digits1 d.digits2 d.digits3
        (subst IsAddress d.bytes d.below)
    ∙ ap (λ (r : IpAddress). (true, r)) (sym d.bytes)

-- fromString() answers true and leaves an address exactly if the text is four fields of decimal
-- digits with dots between them, each of a value below 256, which are the bytes of the address. A
-- field may be empty and stands for 0. What the address was before does not matter.
pub from_string-true :
    (text : Bytes) (prev a : IpAddress) → (from_string text prev ≡ (true, a)) ↔ IsDotted text a
from_string-true text prev a = (IsDotted-of_true text prev a, true_of-IsDotted text prev a)
