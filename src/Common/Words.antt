-- ===== src/Common/Words.antt =====
-- Casts to the fixed widths, and the arithmetic of `uint32_t`.
use Prim.Native.Nat.{ℕ, ◌+◌, ◌-◌, ◌*◌, ◌%◌}

abbrev pub u8 : ℕ → ℕ
u8 n = n % 256

abbrev pub u16 : ℕ → ℕ
u16 n = n % 65536

abbrev pub u32 : ℕ → ℕ
u32 n = n % 4294967296

abbrev pub add32 : ℕ → ℕ → ℕ
add32 a b = u32 (a + b)

-- For operands below 2 ^ 32: the modulus keeps the truncated subtraction of ℕ exact.
abbrev pub sub32 : ℕ → ℕ → ℕ
sub32 a b = u32 (a + 4294967296 - b)

abbrev pub mul32 : ℕ → ℕ → ℕ
mul32 a b = u32 (a * b)
