-- ===== src/KString/Copy.antt =====
-- kernel/kstring.cpp, what kstrcpy, kstrncpy and kstrcat leave in the destination.
use sabaka_os.Common.{
  ◌-◌, within, if◌then◌else◌, ltb, ◌==◌, Bool-cases, inl, inr, ℕ, zero, suc, ◌+◌, ◌≤◌, ◌<◌, ◌≡◌,
  refl, ◌∙◌, ap, [], ◌∷◌, length, get_or, arith, update, update_self, update_ne,
}
use sabaka_os.KString.MemoryLaws.{Outside}
use sabaka_os.KString.Text.{CString, kstrcpy, fill_zero, kstrncpy}

pub kstrcpy_out :
    (dst : ℕ → ℕ) (d : ℕ) (s : CString) (j : ℕ)
    → Outside d (length s + 1) j
    → kstrcpy dst d s j ≡ dst j
unfolding kstrcpy
kstrcpy_out dst d [] j o = update_ne dst d j 0 (omega arith)
kstrcpy_out dst d (c ∷ s) j o =
    kstrcpy_out (update dst d c) (d + 1) s j (omega arith) ∙ update_ne dst d j c (omega arith)

pub kstrcpy_in :
    (dst : ℕ → ℕ) (d : ℕ) (s : CString) (k : ℕ)
    → k ≤ length s
    → kstrcpy dst d s (d + k) ≡ get_or s k 0
unfolding kstrcpy
kstrcpy_in dst d [] zero l = let e : d + 0 ≡ d = omega arith in rw e (update_self dst d 0)
kstrcpy_in dst d [] (suc k) l = absurd (omega arith)
kstrcpy_in dst d (c ∷ s) zero l =
    kstrcpy_out (update dst d c) (d + 1) s (d + 0) (omega arith)
    ∙ (let e : d + 0 ≡ d = omega arith in rw e (update_self dst d c))
kstrcpy_in dst d (c ∷ s) (suc k) l =
    ap (kstrcpy (update dst d c) (d + 1) s) (let e : d + suc k ≡ d + 1 + k = omega arith in e)
    ∙ kstrcpy_in (update dst d c) (d + 1) s k (omega arith)

-- `kstrcpy` writes the string and its NUL, `length + 1` bytes, and nothing else.
pub kstrcpy_lem :
    (dst : ℕ → ℕ) (d : ℕ) (s : CString) (j : ℕ)
    → kstrcpy dst d s j ≡ (if within d (length s + 1) j then get_or s (j - d) 0 else dst j)
kstrcpy_lem dst d s j = elim (Bool-cases (within d (length s + 1) j)) [
  | inl e ↦ rw e (
      ap (kstrcpy dst d s) (let e' : j ≡ d + (j - d) = ground arith in e')
      ∙ kstrcpy_in dst d s (j - d) (ground arith))
  | inr e ↦ rw e (kstrcpy_out dst d s j (ground arith))
]

fill_zero_out : (dst : ℕ → ℕ) (d n j : ℕ) → Outside d n j → fill_zero dst d n j ≡ dst j
unfolding fill_zero
fill_zero_out dst d zero j o = refl
fill_zero_out dst d (suc n) j o =
    fill_zero_out (update dst d 0) (d + 1) n j (omega arith) ∙ update_ne dst d j 0 (omega arith)

fill_zero_in : (dst : ℕ → ℕ) (d n k : ℕ) → k < n → fill_zero dst d n (d + k) ≡ 0
unfolding fill_zero
fill_zero_in dst d zero k l = absurd (omega arith)
fill_zero_in dst d (suc n) zero l =
    fill_zero_out (update dst d 0) (d + 1) n (d + 0) (omega arith)
    ∙ (let e : d + 0 ≡ d = omega arith in rw e (update_self dst d 0))
fill_zero_in dst d (suc n) (suc k) l =
    ap (fill_zero (update dst d 0) (d + 1) n) (let e : d + suc k ≡ d + 1 + k = omega arith in e)
    ∙ fill_zero_in (update dst d 0) (d + 1) n k (omega arith)

kstrncpy_out :
    (dst : ℕ → ℕ) (d : ℕ) (s : CString) (n j : ℕ)
    → Outside d (n + 1) j
    → kstrncpy dst d s n j ≡ dst j
unfolding kstrncpy
kstrncpy_out dst d s zero j o = refl
kstrncpy_out dst d [] (suc n) j o =
    fill_zero_out (update dst d 0) (d + 1) (suc n) j (omega arith)
    ∙ update_ne dst d j 0 (omega arith)
kstrncpy_out dst d (c ∷ s) (suc n) j o =
    kstrncpy_out (update dst d c) (d + 1) s n j (omega arith) ∙ update_ne dst d j c (omega arith)

kstrncpy_in :
    (dst : ℕ → ℕ) (d : ℕ) (s : CString) (n k : ℕ)
    → k < n
    → kstrncpy dst d s n (d + k) ≡ get_or s k 0
unfolding kstrncpy
kstrncpy_in dst d s zero k l = absurd (omega arith)
kstrncpy_in dst d [] (suc n) zero l =
    fill_zero_out (update dst d 0) (d + 1) (suc n) (d + 0) (omega arith)
    ∙ (let e : d + 0 ≡ d = omega arith in rw e (update_self dst d 0))
kstrncpy_in dst d [] (suc n) (suc k) l =
    ap (fill_zero (update dst d 0) (d + 1) (suc n))
      (let e : d + suc k ≡ d + 1 + k = omega arith in e)
    ∙ fill_zero_in (update dst d 0) (d + 1) (suc n) k (omega arith)
kstrncpy_in dst d (c ∷ s) (suc n) zero l = kstrncpy_head dst d c s n
  where
    kstrncpy_head :
        (dst : ℕ → ℕ) (d c : ℕ) (s : CString) (n : ℕ)
        → kstrncpy (update dst d c) (d + 1) s n (d + 0) ≡ c
    kstrncpy_head dst d c s n =
        kstrncpy_out (update dst d c) (d + 1) s n (d + 0) (omega arith)
        ∙ (let e : d + 0 ≡ d = omega arith in rw e (update_self dst d c))
kstrncpy_in dst d (c ∷ s) (suc n) (suc k) l =
    ap (kstrncpy (update dst d c) (d + 1) s n) (let e : d + suc k ≡ d + 1 + k = omega arith in e)
    ∙ kstrncpy_in (update dst d c) (d + 1) s n k (omega arith)

-- Past the `n` bytes: a source shorter than `n` costs one byte more.
kstrncpy_past_end :
    (dst : ℕ → ℕ) (d : ℕ) (s : CString) (n : ℕ) → length s < n → kstrncpy dst d s n (d + n) ≡ 0
unfolding kstrncpy
kstrncpy_past_end dst d s zero l = absurd (omega arith)
kstrncpy_past_end dst d [] (suc n) l =
    ap (fill_zero (update dst d 0) (d + 1) (suc n))
      (let e : d + suc n ≡ d + 1 + n = omega arith in e)
    ∙ fill_zero_in (update dst d 0) (d + 1) (suc n) n (omega arith)
kstrncpy_past_end dst d (c ∷ s) (suc n) l =
    ap (kstrncpy (update dst d c) (d + 1) s n) (let e : d + suc n ≡ d + 1 + n = omega arith in e)
    ∙ kstrncpy_past_end (update dst d c) (d + 1) s n (omega arith)

kstrncpy_full :
    (dst : ℕ → ℕ) (d : ℕ) (s : CString) (n : ℕ)
    → n ≤ length s
    → kstrncpy dst d s n (d + n) ≡ dst (d + n)
unfolding kstrncpy
kstrncpy_full dst d s zero l = refl
kstrncpy_full dst d [] (suc n) l = absurd (omega arith)
kstrncpy_full dst d (c ∷ s) (suc n) l =
    ap (kstrncpy (update dst d c) (d + 1) s n) (let e : d + suc n ≡ d + 1 + n = omega arith in e)
    ∙ kstrncpy_full (update dst d c) (d + 1) s n (omega arith)
    ∙ ap (update dst d c) (let e : d + 1 + n ≡ d + suc n = omega arith in e)
    ∙ update_ne dst d (d + suc n) c (omega arith)

-- What a copy of `n` bytes, padded with NULs, leaves at `d + n`, the first byte after it.
abbrev pub after_copy : (ℕ → ℕ) → ℕ → CString → ℕ → ℕ
after_copy dst d s n = if ltb (length s) n then 0 else dst (d + n)

-- `kstrncpy` writes the first `n` bytes of the string, padded with NULs, to the `n` bytes from
-- `d` on. The byte after them is left alone if the string has at least `n` bytes, and is set to
-- NUL, past the `n` bytes, if it is shorter. Every other byte is left alone.
pub kstrncpy_lem :
    (dst : ℕ → ℕ) (d : ℕ) (s : CString) (n j : ℕ)
    → kstrncpy dst d s n j ≡ (
        if within d n j
        then get_or s (j - d) 0
        else if j == d + n
        then after_copy dst d s n
        else dst j)
kstrncpy_lem dst d s n j = elim (Bool-cases (within d n j)) [
  | inl e ↦ rw e (
      ap (kstrncpy dst d s n) (let e' : j ≡ d + (j - d) = ground arith in e')
      ∙ kstrncpy_in dst d s n (j - d) (ground arith))
  | inr e ↦ rw e (elim (Bool-cases (j == d + n)) [
    | inl e' ↦
        let e'' : j ≡ d + n = ground arith in
        ground (arith, kstrncpy_full dst d s n, kstrncpy_past_end dst d s n)
    | inr e' ↦ rw e' (kstrncpy_out dst d s n j (ground arith))
  ])
]
