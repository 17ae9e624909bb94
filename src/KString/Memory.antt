-- ===== src/KString/Memory.antt =====
-- kernel/kstring.cpp, kmemset to kmemcmp. A memory image is a function of the address; the loops
-- recur on the bytes left, with the pointers moved as the source moves them.
use sabaka_os.Common.{ℕ, zero, suc, ◌+◌, ◌-◌, update, ltb, leb, ◌==◌, if◌then◌else◌}
use sabaka_os.Common.Int.{ℤ, pos, negsuc}

unfoldable pub kmemset : (ℕ → ℕ) → ℕ → ℕ → ℕ → (ℕ → ℕ)
kmemset mem p val zero = mem
kmemset mem p val (suc n) = kmemset (update mem p val) (p + 1) val n

-- Source and destination in one memory image; the source is read as the copy goes on.
unfoldable pub kmemcpy : (ℕ → ℕ) → ℕ → ℕ → ℕ → (ℕ → ℕ)
kmemcpy mem d s zero = mem
kmemcpy mem d s (suc n) = kmemcpy (update mem d (mem s)) (d + 1) (s + 1) n

-- The loop of `kmemmove` that goes down: the pointers stand past the `n` bytes left.
unfoldable pub copy_down : (ℕ → ℕ) → ℕ → ℕ → ℕ → (ℕ → ℕ)
copy_down mem d s zero = mem
copy_down mem d s (suc n) = copy_down (update mem (d + n) (mem (s + n))) d s n

unfoldable pub kmemmove : (ℕ → ℕ) → ℕ → ℕ → ℕ → (ℕ → ℕ)
kmemmove mem d s n = if ltb d s then kmemcpy mem d s n else copy_down mem d s n

-- The difference of two bytes as an `int`.
abbrev pub byte_diff : ℕ → ℕ → ℤ
byte_diff a b = if leb b a then pos (a - b) else negsuc (b - a - 1)

unfoldable pub kmemcmp : (ℕ → ℕ) → ℕ → ℕ → ℕ → ℤ
kmemcmp mem p q zero = pos 0
kmemcmp mem p q (suc n) =
    let rest = kmemcmp mem (p + 1) (q + 1) n in
    if mem p == mem q then rest else byte_diff (mem p) (mem q)

-- `kmemcpy` between two separate buffers.
unfoldable pub copy_into : (ℕ → ℕ) → ℕ → (ℕ → ℕ) → ℕ → ℕ → (ℕ → ℕ)
copy_into dst d src s zero = dst
copy_into dst d src s (suc n) = copy_into (update dst d (src s)) (d + 1) src (s + 1) n
