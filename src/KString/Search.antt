-- ===== src/KString/Search.antt =====
-- kernel/kstring.cpp, kstrchr, kstrstr and kstrcat against splittings of the string.
use sabaka_os.Common.{
  Option-cases, ◌⊎◌, ℕ, ◌+◌, ◌≡◌, ◌≢◌, refl, sym, ◌∙◌, [], ◌∷◌, ◌++◌, ap, ap₂, arith, Bool-cases,
  inl, inr, ◌==◌, true, none, some, length,
}
use sabaka_os.KString.Text.{CString, needle_left, is_nil, str_from, kstrstr, kstrcat, kstrcpy}

-- The needle stands in the string: at `at`, after `before`.
pub record Occurs (h n at : CString) : Type 0 where
  pub before : CString
  pub rest : CString
  pub split : h ≡ before ++ at
  pub starts : at ≡ n ++ rest

needle_left-nil : (h n : CString) → needle_left h n ≡ [] → (rest : CString) × (h ≡ n ++ rest)
unfolding needle_left
needle_left-nil [] n e = ([], let e' : n ≡ [] = e in rw e')
needle_left-nil (x ∷ h) [] e = (x ∷ h, refl)
needle_left-nil (x ∷ h) (y ∷ n) e = elim (Bool-cases (x == y)) [
  | inl s ↦ let (rest, e') = needle_left-nil h n (ground arith) in (rest, ap₂ ◌∷◌ (ground arith) e')
  | inr d ↦ absurd (ground arith)
]

needle_left-append : (n rest : CString) → needle_left (n ++ rest) n ≡ []
unfolding needle_left
needle_left-append [] [] = refl
needle_left-append [] (x ∷ rest) = refl
needle_left-append (y ∷ n) rest = ground (arith, needle_left-append n rest)

is_nil-eq : (s : CString) → is_nil s ≡ true → s ≡ []
is_nil-eq [] e = refl
is_nil-eq (c ∷ s) e = absurd (cc)

str_from-Occurs : (h n r : CString) → str_from h n ≡ some r → Occurs h n r
unfolding str_from
str_from-Occurs [] n r e = absurd (cc)
str_from-Occurs (x ∷ h) n r e = elim (Bool-cases (is_nil (needle_left (x ∷ h) n))) [
  | inl s ↦
      let (rest, e') = needle_left-nil (x ∷ h) n (is_nil-eq _ s) in
      let e'' : x ∷ h ≡ r = ground arith in
      record { before = []; rest = rest; split = e''; starts = sym e'' ∙ e' }
  | inr d ↦
      let o = str_from-Occurs h n r (ground arith) in
      record {
        before = x ∷ o.before;
        rest = o.rest;
        split = ap (λ t. x ∷ t) o.split;
        starts = o.starts;
      }
]

str_from-found : (before n rest : CString) → n ≢ [] → str_from (before ++ (n ++ rest)) n ≢ none
unfolding str_from
str_from-found [] [] rest ne = absurd (ne refl)
str_from-found [] (y ∷ n) rest ne = ground (arith, needle_left-append (y ∷ n) rest)
str_from-found (x ∷ before) n rest ne = ground (arith, str_from-found before n rest ne)

-- What `kstrstr` returns is an occurrence of the needle in the string.
pub kstrstr-Occurs : (h n r : CString) → kstrstr h n ≡ some r → Occurs h n r
unfolding kstrstr
kstrstr-Occurs h [] r e = record {
  before = [];
  rest = h;
  split = ground arith;
  starts = ground arith;
}
kstrstr-Occurs h (c ∷ n) r e = str_from-Occurs h (c ∷ n) r e

-- Where the needle occurs in the string, `kstrstr` finds an occurrence of it.
pub kstrstr-found :
    (before n rest : CString)
    → (r : CString) × (kstrstr (before ++ (n ++ rest)) n ≡ some r)
      × Occurs (before ++ (n ++ rest)) n r
unfolding kstrstr
kstrstr-found before [] rest =
    (_, refl, record { before = []; rest = before ++ rest; split = refl; starts = refl })
kstrstr-found before (c ∷ n) rest =
    found (Option-cases (str_from (before ++ (c ∷ n ++ rest)) (c ∷ n)))
  where
    found :
        (str_from (before ++ (c ∷ n ++ rest)) (c ∷ n) ≡ none)
          ⊎ ((r : CString) × (str_from (before ++ (c ∷ n ++ rest)) (c ∷ n) ≡ some r))
        → (r : CString) × (str_from (before ++ (c ∷ n ++ rest)) (c ∷ n) ≡ some r)
          × Occurs (before ++ (c ∷ n ++ rest)) (c ∷ n) r
    found (inl e) = absurd (str_from-found before (c ∷ n) rest (λ e'. cc) e)
    found (inr (r, e)) = (r, e, str_from-Occurs (before ++ (c ∷ n ++ rest)) (c ∷ n) r e)

-- `kstrcat` is a `kstrcpy` to the end of the string that the buffer holds.
pub kstrcat-kstrcpy :
    (dst : ℕ → ℕ) (d : ℕ) (held src : CString)
    → kstrcat dst d held src ≡ kstrcpy dst (d + length held) src
unfolding kstrcat
kstrcat-kstrcpy dst d [] src = ap (λ e. kstrcpy dst e src) (omega arith)
kstrcat-kstrcpy dst d (c ∷ held) src =
    kstrcat-kstrcpy dst (d + 1) held src ∙ ap (λ e. kstrcpy dst e src) (omega arith)
