-- ===== src/KString/Compare.antt =====
-- kernel/kstring.cpp, kstrcmp and kstrncmp against equality of strings.
use sabaka_os.Common.{
  subst, ℕ, zero, suc, ◌<◌, ◌≡◌, ◌↔◌, refl, [], ◌∷◌, ap₂, take, arith, Bool-cases, inl, inr, ◌==◌,
}
use sabaka_os.Common.Int.{pos}
use sabaka_os.KString.Text.{CString, kstrcmp, kstrncmp}

-- No NUL stands before the end.
abbrev pub IsCString : CString → Type 0
IsCString [] = Unit {0}
IsCString (c ∷ s) = (0 < c) × IsCString s

kstrcmp-eq : (a b : CString) → IsCString a → IsCString b → kstrcmp a b ≡ pos 0 → a ≡ b
unfolding kstrcmp
kstrcmp-eq [] [] p q h = refl
kstrcmp-eq [] (y ∷ b) p q h = absurd (ground arith)
kstrcmp-eq (x ∷ a) [] p q h = absurd (ground arith)
kstrcmp-eq (x ∷ a) (y ∷ b) p q h = elim (Bool-cases (x == y)) [
  | inl e ↦ ap₂ ◌∷◌ (ground arith) (kstrcmp-eq a b p.1 q.1 (ground arith))
  | inr e ↦ absurd (ground arith)
]

pub kstrcmp_self : (a : CString) → kstrcmp a a ≡ pos 0
unfolding kstrcmp
kstrcmp_self [] = refl
kstrcmp_self (x ∷ a) = ground (arith, kstrcmp_self a)

-- Of two NUL-terminated strings `kstrcmp` returns 0 exactly when they are the same string.
pub kstrcmp-eq-zero_iff :
    (a b : CString) → IsCString a → IsCString b → (kstrcmp a b ≡ pos 0) ↔ (a ≡ b)
kstrcmp-eq-zero_iff a b p q =
    (kstrcmp-eq a b p q, λ e. subst (λ c. kstrcmp a c ≡ pos 0) e (kstrcmp_self a))

kstrncmp-eq :
    (a b : CString) (n : ℕ)
    → IsCString a
    → IsCString b
    → kstrncmp a b n ≡ pos 0
    → take n a ≡ take n b
unfolding kstrncmp
kstrncmp-eq a b zero p q h = refl
kstrncmp-eq [] [] (suc n) p q h = refl
kstrncmp-eq [] (y ∷ b) (suc n) p q h = absurd (ground arith)
kstrncmp-eq (x ∷ a) [] (suc n) p q h = absurd (ground arith)
kstrncmp-eq (x ∷ a) (y ∷ b) (suc n) p q h = elim (Bool-cases (x == y)) [
  | inl e ↦ ap₂ ◌∷◌ (ground arith) (kstrncmp-eq a b n p.1 q.1 (ground arith))
  | inr e ↦ absurd (ground arith)
]

eq-kstrncmp : (a b : CString) (n : ℕ) → take n a ≡ take n b → kstrncmp a b n ≡ pos 0
unfolding kstrncmp
eq-kstrncmp a b zero h = refl
eq-kstrncmp [] [] (suc n) h = refl
eq-kstrncmp [] (y ∷ b) (suc n) h = absurd (cc)
eq-kstrncmp (x ∷ a) [] (suc n) h = absurd (cc)
eq-kstrncmp (x ∷ a) (y ∷ b) (suc n) h =
    let same : x ≡ y = cc in ground (arith, eq-kstrncmp a b n (cc))

-- `kstrncmp` returns 0 exactly when the strings agree on their first `n` bytes.
pub kstrncmp-eq-zero_iff :
    (a b : CString) (n : ℕ)
    → IsCString a
    → IsCString b
    → (kstrncmp a b n ≡ pos 0) ↔ (take n a ≡ take n b)
kstrncmp-eq-zero_iff a b n p q = (kstrncmp-eq a b n p q, eq-kstrncmp a b n)
