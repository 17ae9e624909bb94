-- ===== src/Pmm/Bitmap.antt =====
-- kernel/pmm.cpp: the bits of the bitmap, read after one is set or cleared.
use mathlib.Core.Path.{◌≡◌}
use sabaka_os.Common.{ℕ, ◌/◌, ◌%◌, ◌<◌, true, false, ◌==◌, if◌then◌else◌, arith}
use sabaka_os.Common.Bits.{byte_bits, power_pos}
use sabaka_os.Pmm.{Bitmap, bitmap_set, bitmap_clear, bitmap_test}

abbrev pub IsBytes : Bitmap → Type 0
IsBytes b = (k : ℕ) → b k < 256

-- A bit is set after a write of ones exactly if it is the one written or was set before.
pub bitmap_test-bitmap_set :
    (b : Bitmap) (i j : ℕ)
    → IsBytes b
    → bitmap_test (bitmap_set b i) j ≡ (if i == j then true else bitmap_test b j)
unfolding bitmap_test bitmap_set
bitmap_test-bitmap_set b i j v =
    let bits = byte_bits (b (i / 8)) (i % 8) (j % 8) (v (i / 8)) (omega arith) (omega arith) in
    ground (arith, bits.0, power_pos (j % 8) (omega arith))

pub bitmap_test-bitmap_clear :
    (b : Bitmap) (i j : ℕ)
    → IsBytes b
    → bitmap_test (bitmap_clear b i) j ≡ (if i == j then false else bitmap_test b j)
unfolding bitmap_test bitmap_clear
bitmap_test-bitmap_clear b i j v =
    let bits = byte_bits (b (i / 8)) (i % 8) (j % 8) (v (i / 8)) (omega arith) (omega arith) in
    ground (arith, bits.1)

pub bitmap_set-IsBytes : (b : Bitmap) (i : ℕ) → IsBytes b → IsBytes (bitmap_set b i)
unfolding bitmap_set
bitmap_set-IsBytes b i v k =
    let bits = byte_bits (b (i / 8)) (i % 8) 0 (v (i / 8)) (omega arith) (omega arith) in
    ground (arith, v k, bits)

pub bitmap_clear-IsBytes : (b : Bitmap) (i : ℕ) → IsBytes b → IsBytes (bitmap_clear b i)
unfolding bitmap_clear
bitmap_clear-IsBytes b i v k =
    let bits = byte_bits (b (i / 8)) (i % 8) 0 (v (i / 8)) (omega arith) (omega arith) in
    ground (arith, v k, bits)
