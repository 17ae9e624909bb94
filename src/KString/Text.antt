-- ===== src/KString/Text.antt =====
-- kernel/kstring.cpp, kstrlen to kstrstr. A `const char*` into a NUL-terminated string is the list
-- of the bytes before the NUL; a pointer further into the string is a suffix of the list. A buffer
-- that is written is an array with the index of its first byte.
use sabaka_os.Common.{
  Bool, true, false, ℕ, zero, suc, ◌+◌, List, [], ◌∷◌, Option, none, some, update, ◌==◌,
  if◌then◌else◌,
}
use sabaka_os.Common.Int.{ℤ, pos}
use sabaka_os.KString.Memory.{byte_diff}

abbrev pub CString : Type 0
CString = List ℕ

-- `*s`
abbrev pub deref : CString → ℕ
deref [] = 0
deref (c ∷ s) = c

unfoldable pub kstrlen : CString → ℕ
kstrlen [] = 0
kstrlen (c ∷ s) = kstrlen s + 1

unfoldable pub kstrcmp : CString → CString → ℤ
kstrcmp [] b = byte_diff 0 (deref b)
kstrcmp (x ∷ a) [] = byte_diff x 0
kstrcmp (x ∷ a) (y ∷ b) = let rest = kstrcmp a b in if x == y then rest else byte_diff x y

unfoldable pub kstrncmp : CString → CString → ℕ → ℤ
kstrncmp a b zero = pos 0
kstrncmp [] b (suc n) = byte_diff 0 (deref b)
kstrncmp (x ∷ a) [] (suc n) = byte_diff x 0
kstrncmp (x ∷ a) (y ∷ b) (suc n) =
    let rest = kstrncmp a b n in if x == y then rest else byte_diff x y

unfoldable pub kstrcpy : (ℕ → ℕ) → ℕ → CString → (ℕ → ℕ)
kstrcpy dst d [] = update dst d 0
kstrcpy dst d (c ∷ s) = kstrcpy (update dst d c) (d + 1) s

-- `while (n--) *dst++ = '\0';`
unfoldable pub fill_zero : (ℕ → ℕ) → ℕ → ℕ → (ℕ → ℕ)
fill_zero dst d zero = dst
fill_zero dst d (suc n) = fill_zero (update dst d 0) (d + 1) n

-- The NUL is copied by the test of the first loop, which then leaves `n` as it is.
unfoldable pub kstrncpy : (ℕ → ℕ) → ℕ → CString → ℕ → (ℕ → ℕ)
kstrncpy dst d s zero = dst
kstrncpy dst d [] (suc n) = fill_zero (update dst d 0) (d + 1) (suc n)
kstrncpy dst d (c ∷ s) (suc n) = kstrncpy (update dst d c) (d + 1) s n

-- The string that a buffer holds from `d` on, if a NUL stands within `fuel` bytes.
abbrev pub string_at : ℕ → (ℕ → ℕ) → ℕ → Option CString
string_at zero buf d = none
string_at (suc fuel) buf d = elim (buf d) [
  | zero ↦ some []
  | suc c ↦ elim (string_at fuel buf (d + 1)) [ none ↦ none | some s ↦ some (suc c ∷ s) ]
]

-- `kstrcat`, over the length of the string that the buffer holds: `while (*dst) dst++;`
unfoldable pub kstrcat : (ℕ → ℕ) → ℕ → CString → CString → (ℕ → ℕ)
kstrcat dst d [] src = kstrcpy dst d src
kstrcat dst d (c ∷ held) src = kstrcat dst (d + 1) held src

unfoldable pub kstrchr : CString → ℕ → Option CString
kstrchr [] c = none
kstrchr (x ∷ s) c = let rest = kstrchr s c in if x == c then some (x ∷ s) else rest

-- The inner loop of `kstrstr`: what of the needle is left where the loop stops.
unfoldable pub needle_left : CString → CString → CString
needle_left [] np = np
needle_left (x ∷ hp) [] = []
needle_left (x ∷ hp) (y ∷ np) = let rest = needle_left hp np in if x == y then rest else y ∷ np

abbrev pub is_nil : CString → Bool
is_nil [] = true
is_nil (c ∷ s) = false

unfoldable pub str_from : CString → CString → Option CString
str_from [] n = none
str_from (x ∷ h) n =
    let rest = str_from h n in if is_nil (needle_left (x ∷ h) n) then some (x ∷ h) else rest

unfoldable pub kstrstr : CString → CString → Option CString
kstrstr h [] = some h
kstrstr h (c ∷ n) = str_from h (c ∷ n)
