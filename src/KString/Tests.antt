-- ===== src/KString/Tests.antt =====
-- Examples for the routines of kernel/kstring.cpp.
use sabaka_os.Common.{
  ℕ, ◌+◌, ◌-◌, ◌≡◌, refl, arith, some, [], ◌∷◌, within, get_or, if◌then◌else◌, ◌==◌,
}
use sabaka_os.Common.Int.{pos, negsuc}
use sabaka_os.KString.Memory.{kmemmove}
use sabaka_os.KString.MemoryLaws.{kmemmove_lem}
use sabaka_os.KString.Text.{needle_left, str_from, CString, kstrncpy, kstrstr}
use sabaka_os.KString.Copy.{kstrncpy_lem, after_copy}
use sabaka_os.KString.Number.{kitoa, katoi}
use sabaka_os.KString.Decimal.{katoi-kitoa}

abbrev ramp : ℕ → ℕ
ramp i = i + 65

abbrev ls : CString
ls = b'l' ∷ b's' ∷ []

abbrev only_l : CString
only_l = b'l' ∷ []

abbrev word : CString
word = b's' ∷ b'a' ∷ b'b' ∷ b'a' ∷ b'k' ∷ b'a' ∷ []

kmemmove_lem_example : kmemmove ramp 3 1 5 6 ≡ (if within 3 5 6 then ramp (1 + (6 - 3)) else ramp 6)
kmemmove_lem_example = kmemmove_lem ramp 3 1 5 6

-- The byte past a copy of eight bytes.
kstrncpy_lem_example : kstrncpy ramp 0 word 8 8 ≡ (
    if within 0 8 8
    then get_or word (8 - 0) 0
    else if 8 == 0 + 8
    then after_copy ramp 0 word 8
    else ramp 8)
kstrncpy_lem_example = kstrncpy_lem ramp 0 word 8 8

found : kstrstr word (b'a' ∷ b'k' ∷ []) ≡ some (b'a' ∷ b'k' ∷ b'a' ∷ [])
unfolding kstrstr str_from needle_left
found = refl

katoi-kitoa_example :
    (s : CString) × (kitoa (negsuc 41) (pos 10) ≡ some s) × (katoi s ≡ some (negsuc 41))
katoi-kitoa_example = katoi-kitoa (negsuc 41) (omega arith)
