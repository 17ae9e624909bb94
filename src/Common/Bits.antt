-- ===== src/Common/Bits.antt =====
-- Facts about the bit operations on small values, checked value by value.
use Prim.Native.Nat.{◌+◌, ◌*◌, ℕ, zero, suc, ◌-◌, ◌/◌, ◌%◌, ◌^◌, ◌<◌, bit_and, bit_or}
use mathlib.Core.Path.{◌≡◌, refl}
use mathlib.Core.Bool.{Bool, true, false, ◌&&◌}
use native.Mathlib.Omega.{arith}
use sabaka_os.Common.Tests.{ltb→lt, ◌==◌, ==_iff, if◌then◌else◌, ltb}

unfoldable pub holds_below : ℕ → (ℕ → Bool) → Bool
holds_below zero p = true
holds_below (suc n) p = p n && holds_below n p

pub holds_below_sound : (n : ℕ) (p : ℕ → Bool) (x : ℕ) → holds_below n p ≡ true → x < n → p x ≡ true
unfolding holds_below
holds_below_sound zero p x h l = absurd (omega arith)
holds_below_sound (suc n) p x h l = ground (arith, holds_below_sound n p x)

mask_table : holds_below 64 (λ x. bit_and x 15 == x % 16) ≡ true
unfolding holds_below
mask_table = refl

-- `x & 15` is the remainder by 16.
pub bit_and_fifteen : (x : ℕ) → x < 64 → bit_and x 15 ≡ x % 16
bit_and_fifteen x l = (==_iff _ _).0 (holds_below_sound 64 _ x mask_table l)

-- Of a byte: which bits are set after one bit is set or cleared.
abbrev byte_test : ℕ → ℕ → ℕ → Bool
byte_test b i j =
    (bit_and (bit_or b (2 ^ i)) (2 ^ j) == (if i == j then 2 ^ j else bit_and b (2 ^ j)))
    && ((bit_and (bit_and b (255 - 2 ^ i)) (2 ^ j) == (if i == j then 0 else bit_and b (2 ^ j)))
        && (ltb (bit_or b (2 ^ i)) 256 && ltb (bit_and b (255 - 2 ^ i)) 256))

and_true : (a b : Bool) → (a && b) ≡ true → (a ≡ true) × (b ≡ true)
and_true true b h = (refl, h)
and_true false b h = absurd (cc)

byte_bit_table : holds_below 16384 (λ x. byte_test (x / 64) (x / 8 % 8) (x % 8)) ≡ true
unfolding holds_below
byte_bit_table = refl

-- Of a byte `b`: bit `j` after bit `i` is set, after it is cleared, and that both are bytes.
pub byte_bits :
    (b i j : ℕ)
    → b < 256
    → i < 8
    → j < 8
    → (bit_and (bit_or b (2 ^ i)) (2 ^ j) ≡ (if i == j then 2 ^ j else bit_and b (2 ^ j)))
      × (bit_and (bit_and b (255 - 2 ^ i)) (2 ^ j) ≡ (if i == j then 0 else bit_and b (2 ^ j)))
      × (bit_or b (2 ^ i) < 256)
      × (bit_and b (255 - 2 ^ i) < 256)
byte_bits b i j lb li lj =
    let x = b * 64 + i * 8 + j in
    let eb : x / 64 ≡ b = omega arith in
    let ei : x / 8 % 8 ≡ i = omega arith in
    let ej : x % 8 ≡ j = omega arith in
    let all = holds_below_sound 16384 _ x byte_bit_table (omega arith) in
    let t : byte_test b i j ≡ true = rw (eb, ei, ej) at all in parts b i j t
  where
    parts :
        (b i j : ℕ)
        → byte_test b i j ≡ true
        → (bit_and (bit_or b (2 ^ i)) (2 ^ j) ≡ (if i == j then 2 ^ j else bit_and b (2 ^ j)))
          × (bit_and (bit_and b (255 - 2 ^ i)) (2 ^ j) ≡ (if i == j then 0 else bit_and b (2 ^ j)))
          × (bit_or b (2 ^ i) < 256)
          × (bit_and b (255 - 2 ^ i) < 256)
    parts b i j t =
        let (p, q) = and_true _ _ t in
        let (q, r) = and_true _ _ q in
        let (r, s) = and_true _ _ r in
        ((==_iff _ _).0 p, (==_iff _ _).0 q, ltb→lt _ _ r, ltb→lt _ _ s)

power_table : holds_below 8 (λ k. ltb 0 (2 ^ k)) ≡ true
unfolding holds_below
power_table = refl

pub power_pos : (k : ℕ) → k < 8 → 0 < 2 ^ k
power_pos k l = ltb→lt _ _ (holds_below_sound 8 _ k power_table l)
