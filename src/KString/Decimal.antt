-- ===== src/KString/Decimal.antt =====
-- kernel/kstring.cpp: the digits that kuitoa writes, and katoi as the inverse of kitoa.
use native.Mathlib.Nat.{pow-suc}
use sabaka_os.Common.{
  subst, ℕ, zero, suc, ◌+◌, ◌-◌, ◌*◌, ◌/◌, ◌%◌, ◌^◌, ◌≤◌, ◌<◌, [], ◌∷◌, some, ◌≡◌, refl, ◌∙◌, true,
  ltb, ◌==◌, if◌then◌else◌, arith, length, Bool-cases, inl, inr, ap, sym,
}
use sabaka_os.Common.Int.{ℤ, pos, negsuc}
use sabaka_os.KString.Text.{CString}
use sabaka_os.KString.Number.{
  hex, digits_loop, max_digits, kuitoa, kitoa, is_digit, digits_value, negate, katoi,
}

-- The value of a numeral with digits `0`-`9`, `A`-`F` in a base, above `acc` read so far.
abbrev pub digit_value : ℕ → ℕ
digit_value c = if ltb c b'A' then c - b'0' else c - b'A' + 10

abbrev pub value_in : ℕ → ℕ → CString → ℕ
value_in base acc [] = acc
value_in base acc (c ∷ s) = value_in base (acc * base + digit_value c) s

digit_value-hex : (d : ℕ) → d < 16 → digit_value (hex d) ≡ d
digit_value-hex d h = ground arith

-- With fuel for the digits the loop returns the numeral of `n` before what was there.
digits_loop-value :
    (fuel base n : ℕ) (tmp s : CString)
    → 2 ≤ base
    → base ≤ 16
    → digits_loop fuel base n tmp ≡ some s
    → value_in base 0 s ≡ value_in base n tmp
unfolding digits_loop
digits_loop-value zero base n tmp s lo hi e = elim (Bool-cases (n == 0)) [
  | inl z ↦ let z' : n ≡ 0 = ground arith in let e' : tmp ≡ s = ground arith in rw (z', e')
  | inr p ↦ absurd (ground arith)
]
digits_loop-value (suc fuel) base n tmp s lo hi e = elim (Bool-cases (n == 0)) [
  | inl z ↦ let z' : n ≡ 0 = ground arith in let e' : tmp ≡ s = ground arith in rw (z', e')
  | inr p ↦
      digits_loop-value fuel base (n / base) (hex (n % base) ∷ tmp) s lo hi (ground arith)
      ∙ ap (λ k. value_in base k tmp)
          (let e' : n / base * base + digit_value (hex (n % base)) ≡ n =
              rw (digit_value-hex (n % base) (grind arith)) (grind arith) in
            e')
]

half_lt : (m base n : ℕ) → 2 ≤ base → n < 2 * m → n / base < m
half_lt m base n lo l = grind arith

div_lt_pow : (fuel base n : ℕ) → 2 ≤ base → n < 2 ^ suc fuel → n / base < 2 ^ fuel
div_lt_pow fuel base n lo l = half_lt (2 ^ fuel) base n lo (omega (arith, pow-suc 2 fuel))

-- `fuel` rounds are enough below `2 ^ fuel`, and write at most `fuel` digits.
digits_loop-some :
    (fuel base n : ℕ) (tmp : CString)
    → 2 ≤ base
    → n < 2 ^ fuel
    → (s : CString) × (digits_loop fuel base n tmp ≡ some s) × (length s ≤ fuel + length tmp)
unfolding digits_loop
digits_loop-some zero base n tmp lo l = (tmp, ground arith, omega arith)
digits_loop-some (suc fuel) base n tmp lo l = elim (Bool-cases (n == 0)) [
  | inl z ↦ (tmp, rw z, omega arith)
  | inr p ↦
      let (s, e, k) =
        digits_loop-some fuel base (n / base) (hex (n % base) ∷ tmp) lo
          (div_lt_pow fuel base n lo l) in
      (s, rw p e, omega arith)
]

-- In every base that it accepts `kuitoa` writes a numeral of the number, of at most 32 digits,
-- which fit the 34 bytes of `tmp`.
pub kuitoa-value :
    (n base : ℕ)
    → n < 2 ^ 32
    → 2 ≤ base
    → base ≤ 16
    → (s : CString) × (kuitoa n (pos base) ≡ some s)
      × (value_in base 0 s ≡ n)
      × (length s ≤ max_digits)
unfolding kuitoa
kuitoa-value n base l lo hi = elim (Bool-cases (n == 0)) [
  | inl z ↦ (b'0' ∷ [], ground arith, ground arith, omega arith)
  | inr p ↦
      let (s, e, k) = digits_loop-some max_digits base n [] lo l in
      (s, ground arith, digits_loop-value max_digits base n [] s lo hi e, omega arith)
]

-- With decimal digits `katoi` reads on to the end of the text.
abbrev AllDigits : CString → Type 0
AllDigits [] = Unit {0}
AllDigits (c ∷ s) = (is_digit c ≡ true) × AllDigits s

digits_loop-AllDigits :
    (fuel n : ℕ) (tmp s : CString)
    → AllDigits tmp
    → digits_loop fuel 10 n tmp ≡ some s
    → AllDigits s
unfolding digits_loop
digits_loop-AllDigits zero n tmp s h e = subst AllDigits (ground arith) h
digits_loop-AllDigits (suc fuel) n tmp s h e = elim (Bool-cases (n == 0)) [
  | inl z ↦ subst AllDigits (ground arith) h
  | inr p ↦
      digits_loop-AllDigits fuel (n / 10) (hex (n % 10) ∷ tmp) s (ground arith, h) (ground arith)
]

value_in-le : (acc : ℕ) (s : CString) → acc ≤ value_in 10 acc s
value_in-le acc [] = omega arith
value_in-le acc (c ∷ s) = let h = value_in-le (acc * 10 + digit_value c) s in omega (arith, h)

digits_value-AllDigits :
    (r : ℕ) (s : CString)
    → AllDigits s
    → value_in 10 r s < 2 ^ 31
    → digits_value r s ≡ some (value_in 10 r s)
unfolding digits_value
digits_value-AllDigits r [] h l = refl
digits_value-AllDigits r (c ∷ s) h l =
    let e : digit_value c ≡ c - b'0' = ground (arith, h.0) in
    let le = value_in-le (r * 10 + digit_value c) s in
    let fits : ltb (r * 10 + (c - b'0')) 2147483648 ≡ true = ground (arith, e, le, l) in
    rw (h.0, fits, e) (digits_value-AllDigits (r * 10 + (c - b'0')) s h.1 (ground (arith, e, l)))

-- A decimal numeral, which `katoi` does not take for a negative one.
record IsNumeral (n : ℕ) (s : CString) : Type 0 where
  digits : AllDigits s
  value : digits_value 0 s ≡ some n

digits_value_zero : digits_value 0 (b'0' ∷ []) ≡ some 0
unfolding digits_value
digits_value_zero = refl

kuitoa-IsNumeral :
    (n : ℕ) → n < 2 ^ 31 → (s : CString) × (kuitoa n (pos 10) ≡ some s) × IsNumeral n s
unfolding kuitoa
kuitoa-IsNumeral n l = elim (Bool-cases (n == 0)) [
  | inl z ↦
      (b'0' ∷ [], ground arith, record { digits = (refl, tt); value = zero_value (ground arith) })
  | inr p ↦
      let (s, e, k) = digits_loop-some max_digits 10 n [] (omega arith) (omega (arith, l)) in
      let d : AllDigits s = digits_loop-AllDigits max_digits n [] s tt e in
      (
        s,
        ground arith,
        record {
          digits = d;
          value =
              let v = digits_loop-value max_digits 10 n [] s (omega arith) (omega arith) e in
              digits_value-AllDigits 0 s d (subst (λ k. k < 2 ^ 31) (sym v) l) ∙ ap some v;
        },
      )
]
  where
    zero_value : n ≡ 0 → digits_value 0 (b'0' ∷ []) ≡ some n
    zero_value e = digits_value_zero ∙ ap some (sym e)

katoi-IsNumeral : (n : ℕ) (s : CString) → IsNumeral n s → katoi s ≡ some (pos n)
unfolding katoi
katoi-IsNumeral n [] h = ground (arith, h.value)
katoi-IsNumeral n (c ∷ s) h = ground (arith, h.value, h.digits.0)

negate-add : (k : ℕ) → negate (k + 1) ≡ negsuc k
negate-add k = let e : k + 1 ≡ suc k = omega arith in rw e

negative-IsNumeral :
    (k : ℕ) (s : CString) → IsNumeral (k + 1) s → katoi (b'-' ∷ s) ≡ some (negsuc k)
unfolding katoi
negative-IsNumeral k s h = rw (h.value) (ap some (negate-add k))

-- An `int32_t` whose negation is one too: all but the least.
abbrev pub IsInt32 : ℤ → Type 0
IsInt32 (pos n) = n < 2 ^ 31
IsInt32 (negsuc k) = k + 1 < 2 ^ 31

-- `katoi` reads back every `int32_t` but the least, -2 ^ 31, that `kitoa` writes in base ten, without
-- running over the range of `int32_t` on the way.
pub katoi-kitoa :
    (n : ℤ) → IsInt32 n → (s : CString) × (kitoa n (pos 10) ≡ some s) × (katoi s ≡ some n)
unfolding kitoa
katoi-kitoa (pos n) l =
    let (s, e, h) = kuitoa-IsNumeral n (omega arith) in (s, e, katoi-IsNumeral n s h)
katoi-kitoa (negsuc k) l =
    let (s, e, h) = kuitoa-IsNumeral (k + 1) (omega arith) in
    (b'-' ∷ s, rw e, negative-IsNumeral k s h)
