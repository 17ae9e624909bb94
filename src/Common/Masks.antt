-- ===== src/Common/Masks.antt =====
-- Masks that cut off low bits, as the sources round addresses to pages.
use Prim.Native.Nat.{
  ℕ, zero, suc, ◌+◌, ◌-◌, ◌*◌, ◌/◌, ◌%◌, ◌^◌, ◌≤◌, ◌<◌, min, digits, bit_and, bit_and-bitwise,
}
use native.Mathlib.Nat.{pow-suc, one-le-pow}
use sabaka_os.Common.{◌≡◌, refl, arith, ap}

-- The bitwise product of `a` and `b`, of which `a` has at most `n` digits.
abbrev product : (n a b : ℕ) → ℕ
product n a b = digits (λ y. zero) min n a b

product_fuel : (n k a b : ℕ) → a ≤ n → a ≤ k → product n a b ≡ product k a b
product_fuel zero zero zero b l h = refl
product_fuel zero (suc k) zero b l h = refl
product_fuel (suc n) zero zero b l h = refl
product_fuel (suc n) (suc k) zero b l h = refl
product_fuel zero k (suc a) b l h = absurd (omega arith)
product_fuel (suc n) zero (suc a) b l h = absurd (omega arith)
product_fuel (suc n) (suc k) (suc a) b l h =
    ap (λ (t : ℕ). t * 2 + min (suc a % 2) (b % 2))
      (product_fuel n k (suc a / 2) (b / 2) (omega arith) (omega arith))

-- The lowest digit of `bit_and`.
bit_and_low : (a b : ℕ) → bit_and a b ≡ bit_and (a / 2) (b / 2) * 2 + min (a % 2) (b % 2)
bit_and_low zero b = simp bit_and-bitwise (omega arith)
bit_and_low (suc a) b = simp bit_and-bitwise (
    ap (λ (t : ℕ). t * 2 + min (suc a % 2) (b % 2))
      (product_fuel a (suc a / 2) (suc a / 2) (b / 2) (omega arith) (omega arith)))

-- A mask of `k` ones keeps what has `k` digits.
bit_and_ones : (k x : ℕ) → x < 2 ^ k → bit_and x (2 ^ k - 1) ≡ x
bit_and_ones zero x l = ground (arith, bit_and_low x 0)
bit_and_ones (suc k) x l = ground (
  arith,
  pow-suc 2 k,
  one-le-pow k 2,
  bit_and_low x (2 ^ suc k - 1),
  bit_and_ones k (x / 2) (omega (arith, pow-suc 2 k)),
)

-- An even mask clears the lowest digit.
bit_and_even : (x m : ℕ) → bit_and x (2 * m) ≡ 2 * bit_and (x / 2) m
bit_and_even x m = ground (arith, bit_and_low x (2 * m))

-- `x & 0xFFFFF000` is `x` without its remainder by 4096.
pub bit_and_page : (x : ℕ) → x < 4294967296 → bit_and x 0xFFFFF000 ≡ x / 4096 * 4096
bit_and_page x l = omega (
  arith,
  bit_and_even x 0x7FFFF800,
  bit_and_even (x / 2) 0x3FFFFC00,
  bit_and_even (x / 2 / 2) 0x1FFFFE00,
  bit_and_even (x / 2 / 2 / 2) 0xFFFFF00,
  bit_and_even (x / 2 / 2 / 2 / 2) 0x7FFFF80,
  bit_and_even (x / 2 / 2 / 2 / 2 / 2) 0x3FFFFC0,
  bit_and_even (x / 2 / 2 / 2 / 2 / 2 / 2) 0x1FFFFE0,
  bit_and_even (x / 2 / 2 / 2 / 2 / 2 / 2 / 2) 0xFFFFF0,
  bit_and_even (x / 2 / 2 / 2 / 2 / 2 / 2 / 2 / 2) 0x7FFFF8,
  bit_and_even (x / 2 / 2 / 2 / 2 / 2 / 2 / 2 / 2 / 2) 0x3FFFFC,
  bit_and_even (x / 2 / 2 / 2 / 2 / 2 / 2 / 2 / 2 / 2 / 2) 0x1FFFFE,
  bit_and_even (x / 2 / 2 / 2 / 2 / 2 / 2 / 2 / 2 / 2 / 2 / 2) 0xFFFFF,
  bit_and_ones 20 (x / 2 / 2 / 2 / 2 / 2 / 2 / 2 / 2 / 2 / 2 / 2 / 2) (omega arith),
)
