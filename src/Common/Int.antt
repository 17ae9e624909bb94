-- ===== src/Common/Int.antt =====
-- Signed results: `negsuc n` is -(n + 1).
use Prim.Native.Nat.{ℕ, ◌-◌}
use sabaka_os.Common.{ltb, if◌then◌else◌}

pub data ℤ : Type 0 where
  pos : ℕ → ℤ
  negsuc : ℕ → ℤ

-- `(int)n` of a `uint32_t`: from 2 ^ 31 on, the number that is 2 ^ 32 less.
abbrev pub as_int : ℕ → ℤ
as_int n = if ltb n 2147483648 then pos n else negsuc (4294967295 - n)

-- The -1 by which the source reports a failure.
abbrev pub minus_one : ℤ
minus_one = negsuc 0
