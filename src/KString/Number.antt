-- ===== src/KString/Number.antt =====
-- kernel/kstring.cpp, kuitoa, kitoa and katoi. The text written to `buf` is returned as a string.
use sabaka_os.Common.{
  ℕ, zero, suc, ◌+◌, ◌-◌, ◌*◌, ◌/◌, ◌%◌, [], ◌∷◌, Option, none, some, Bool, false, ◌&&◌, ◌||◌, ltb,
  leb, ◌==◌, if◌then◌else◌,
}
use mathlib.Core.Option
use sabaka_os.Common.Int.{ℤ, pos, negsuc}
use sabaka_os.KString.Text.{CString}

-- `HEX[d]`
abbrev pub hex : ℕ → ℕ
hex d = if ltb d 10 then b'0' + d else b'A' + (d - 10)

-- `while (n > 0) { tmp[len++] = HEX[n % base]; n /= base; }`. The last digit pushed is the first
-- of the list, the order in which the next loop copies them. `none`: out of fuel.
unfoldable pub digits_loop : ℕ → ℕ → ℕ → CString → Option CString
digits_loop zero base n tmp = if n == 0 then some tmp else none
digits_loop (suc fuel) base n tmp =
    let rest = digits_loop fuel base (n / base) (hex (n % base) ∷ tmp) in
    if n == 0 then some tmp else rest

-- `tmp` has 34 bytes; 32 rounds are enough for every `uint32_t` (`digits_loop-some`).
abbrev pub max_digits : ℕ
max_digits = 32

unfoldable pub kuitoa : ℕ → ℤ → Option CString
kuitoa n (negsuc base) = some (b'?' ∷ [])
kuitoa n (pos base) =
    if ltb base 2 || ltb 16 base
    then some (b'?' ∷ [])
    else if n == 0
    then some (b'0' ∷ [])
    else digits_loop max_digits base n []

-- `(uint32_t)n`
abbrev pub to_u32 : ℤ → ℕ
to_u32 (pos n) = n
to_u32 (negsuc k) = 4294967296 - (k + 1)

abbrev pub prepend : ℕ → Option CString → Option CString
prepend c none = none
prepend c (some s) = some (c ∷ s)

abbrev is_ten : ℤ → Bool
is_ten (pos b) = b == 10
is_ten (negsuc b) = false

-- `-n` of a negative `int32_t` is `k + 1`. For the least one it runs over in base ten, where C++
-- does not say what happens: the theorems keep to those above.
unfoldable pub kitoa : ℤ → ℤ → Option CString
kitoa (pos n) base = kuitoa n base
kitoa (negsuc k) base =
    if is_ten base then prepend b'-' (kuitoa (k + 1) base) else kuitoa (to_u32 (negsuc k)) base

abbrev pub is_digit : ℕ → Bool
is_digit c = leb b'0' c && leb c b'9'

-- `none` says that `r`, an `int32_t`, has run over: C++ does not say what happens then.
unfoldable pub digits_value : ℕ → CString → Option ℕ
digits_value r [] = some r
digits_value r (c ∷ s) =
    let r' = r * 10 + (c - b'0') in
    let rest = digits_value r' s in
    if is_digit c then (if ltb r' 2147483648 then rest else none) else some r

-- `-r`
abbrev pub negate : ℕ → ℤ
negate zero = pos 0
negate (suc k) = negsuc k

unfoldable pub katoi : CString → Option ℤ
unfolding digits_value
katoi [] = some (pos 0)
katoi (c ∷ s) =
    if c == b'-'
    then Option.map negate (digits_value 0 s)
    else Option.map pos (digits_value 0 (c ∷ s))
