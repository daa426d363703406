-- ===== src/Text/Number.antt =====
-- Decimal numbers: `itoa` of misc.cc, and the C library's `atoi` as the program uses it.
use powermail.Base.{
  ℕ, zero, suc, ◌+◌, ◌-◌, ◌*◌, ◌/◌, ◌%◌, ◌^◌, ◌≤◌, ◌<◌, min, ◌≡◌, refl, sym, ap, ◌∙◌, [], ◌∷◌,
  arith, ltb, ◌==◌, if◌then◌else◌, Bool-cases, inl, inr,
}
use powermail.Base.Int.{ℤ, pos, negsuc, to_int32}
use powermail.Text.{Text, is_space, is_digit}

-- The digits of a number, in front of a text. The fuel bounds their count.
unfoldable pub digits_onto : ℕ → ℕ → Text → Text
digits_onto zero n t = t
digits_onto (suc f) n t =
    let rest = digits_onto f (n / 10) ((n % 10 + b'0') ∷ t) in
    if ltb n 10 then (n + b'0') ∷ t else rest

-- A stream writes an unsigned number so.
unfoldable pub utoa : ℕ → Text
utoa n = digits_onto (suc n) n []

unfoldable pub itoa : ℤ → Text
itoa (pos n) = utoa n
itoa (negsuc n) = b'-' ∷ utoa (suc n)

unfoldable pub digits_value : ℕ → Text → ℕ
unfolding is_digit
digits_value acc [] = acc
digits_value acc (c ∷ s) =
    let rest = digits_value (acc * 10 + (c - b'0')) s in if is_digit c then rest else acc

-- The digits behind the sign, as strtol reads them: it stops at LONG_MAX and at LONG_MIN, and atoi
-- returns the lower 32 bits.
unfoldable pub atoi_sign : Text → ℤ
unfolding digits_value
atoi_sign [] = pos 0
atoi_sign (c ∷ s) =
    if c == b'-'
    then to_int32 (2 ^ 64 - min (digits_value 0 s) (2 ^ 63))
    else if c == b'+'
    then to_int32 (min (digits_value 0 s) (2 ^ 63 - 1))
    else to_int32 (min (digits_value 0 (c ∷ s)) (2 ^ 63 - 1))

unfoldable pub atoi : Text → ℤ
unfolding atoi_sign is_space
atoi [] = pos 0
atoi (c ∷ s) = if is_space c then atoi s else atoi_sign (c ∷ s)

digits_value-digit :
    (a d : ℕ) (t : Text) → d < 10 → digits_value a ((d + b'0') ∷ t) ≡ digits_value (a * 10 + d) t
unfolding digits_value is_digit
digits_value-digit a d t h = ground arith

digits_value-digits_onto :
    (f n : ℕ) (t : Text) → n < f → digits_value 0 (digits_onto f n t) ≡ digits_value n t
unfolding digits_onto
digits_value-digits_onto zero n t h = elim h [ ]
digits_value-digits_onto (suc f) n t h = elim (Bool-cases (ltb n 10)) [
  | inl e ↦
      rw e (digits_value-digit 0 n t (ground arith) ∙ ap (λ k. digits_value k t) (omega arith))
  | inr e ↦ rw e (
      digits_value-digits_onto f (n / 10) ((n % 10 + b'0') ∷ t) (ground arith)
      ∙ digits_value-digit (n / 10) (n % 10) t (omega arith)
      ∙ ap (λ k. digits_value k t) (omega arith))
]

-- The first byte is a digit.
abbrev StartsWithDigit : Text → Type 0
StartsWithDigit t = (c : ℕ) × (r : Text) × (t ≡ c ∷ r) × (b'0' ≤ c) × (c ≤ b'9')

digits_onto-StartsWithDigit : (f n : ℕ) (t : Text) → n < f → StartsWithDigit (digits_onto f n t)
unfolding digits_onto
digits_onto-StartsWithDigit zero n t h = elim h [ ]
digits_onto-StartsWithDigit (suc f) n t h = elim (Bool-cases (ltb n 10)) [
  | inl e ↦ rw e (n + b'0', t, refl, omega arith, ground arith)
  | inr e ↦ rw e (digits_onto-StartsWithDigit f (n / 10) ((n % 10 + b'0') ∷ t) (ground arith))
]

atoi-digits :
    (c : ℕ) (r : Text)
    → b'0' ≤ c
    → c ≤ b'9'
    → atoi (c ∷ r) ≡ to_int32 (min (digits_value 0 (c ∷ r)) (2 ^ 63 - 1))
unfolding atoi atoi_sign is_space
atoi-digits c r h k = ground arith

utoa-value : (n : ℕ) → digits_value 0 (utoa n) ≡ n
unfolding utoa digits_value
utoa-value n = digits_value-digits_onto (suc n) n [] (omega arith)

to_int32_small : (n : ℕ) → n < 2 ^ 31 → to_int32 (min n (2 ^ 63 - 1)) ≡ pos n
to_int32_small n h = ground arith

pub atoi-utoa : (n : ℕ) → n < 2 ^ 31 → atoi (utoa n) ≡ pos n
atoi-utoa n h =
    let (c, r, e, lo, hi) = digits_onto-StartsWithDigit (suc n) n [] (omega arith) in
    let e' : utoa n ≡ c ∷ r = unfold utoa in e in
    ap atoi e'
    ∙ atoi-digits c r lo hi
    ∙ ap (λ t. to_int32 (min (digits_value 0 t) (2 ^ 63 - 1))) (sym e')
    ∙ ap (λ k. to_int32 (min k (2 ^ 63 - 1))) (utoa-value n)
    ∙ to_int32_small n h

atoi_minus : (t : Text) → atoi (b'-' ∷ t) ≡ to_int32 (2 ^ 64 - min (digits_value 0 t) (2 ^ 63))
unfolding atoi atoi_sign is_space
atoi_minus t = refl

to_int32_minus : (n : ℕ) → n < 2 ^ 31 → to_int32 (2 ^ 64 - min (suc n) (2 ^ 63)) ≡ negsuc n
to_int32_minus n h = ground arith

-- The values of a 32-bit int.
abbrev pub IsInt : ℤ → Type 0
IsInt (pos n) = n < 2 ^ 31
IsInt (negsuc n) = n < 2 ^ 31

-- Every int that `itoa` writes is read back by `atoi`, the negative ones too.
pub atoi-itoa : (z : ℤ) → IsInt z → atoi (itoa z) ≡ z
unfolding itoa
atoi-itoa (pos n) h = atoi-utoa n h
atoi-itoa (negsuc n) h =
    atoi_minus (utoa (suc n))
    ∙ ap (λ k. to_int32 (2 ^ 64 - min k (2 ^ 63))) (utoa-value (suc n))
    ∙ to_int32_minus n h
