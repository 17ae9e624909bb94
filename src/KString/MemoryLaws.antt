-- ===== src/KString/MemoryLaws.antt =====
-- What the memory routines of kernel/kstring.cpp leave in each byte.
use sabaka_os.Common.{
  ◌-◌, within, slice, slice_congr, ap₂, ◌∷◌, if◌then◌else◌, ℕ, zero, suc, ◌+◌, ◌<◌, ◌≤◌, ◌≡◌, ◌⊎◌,
  ◌↔◌, inl, inr, refl, ◌∙◌, update, update_self, update_ne, ltb, ◌==◌, arith, Bool-cases, ap,
}
use sabaka_os.Common.Int.{pos}
use sabaka_os.KString.Memory.{kmemset, kmemcpy, copy_down, kmemmove, byte_diff, kmemcmp, copy_into}

-- An address outside the `n` bytes from `d` on.
abbrev pub Outside : ℕ → ℕ → ℕ → Type 0
Outside d n j = (j < d) ⊎ (d + n ≤ j)

kmemset_out : (mem : ℕ → ℕ) (p v n j : ℕ) → Outside p n j → kmemset mem p v n j ≡ mem j
unfolding kmemset
kmemset_out mem p v zero j o = refl
kmemset_out mem p v (suc n) j o =
    kmemset_out (update mem p v) (p + 1) v n j (omega arith) ∙ update_ne mem p j v (omega arith)

kmemset_in : (mem : ℕ → ℕ) (p v n k : ℕ) → k < n → kmemset mem p v n (p + k) ≡ v
unfolding kmemset
kmemset_in mem p v zero k l = absurd (omega arith)
kmemset_in mem p v (suc n) zero l =
    kmemset_out (update mem p v) (p + 1) v n (p + 0) (omega arith) ∙ ground (arith)
kmemset_in mem p v (suc n) (suc k) l =
    ap (kmemset (update mem p v) (p + 1) v n) (let e : p + suc k ≡ p + 1 + k = omega arith in e)
    ∙ kmemset_in (update mem p v) (p + 1) v n k (omega arith)

-- `kmemset` writes `val` to each of the `n` bytes from `p` on, and leaves every other byte alone.
pub kmemset_lem :
    (mem : ℕ → ℕ) (p v n j : ℕ) → kmemset mem p v n j ≡ (if within p n j then v else mem j)
kmemset_lem mem p v n j = elim (Bool-cases (within p n j)) [
  | inl e ↦ rw e (
      ap (kmemset mem p v n) (let e' : j ≡ p + (j - p) = ground arith in e')
      ∙ kmemset_in mem p v n (j - p) (ground arith))
  | inr e ↦ rw e (kmemset_out mem p v n j (ground arith))
]

kmemcpy_out : (mem : ℕ → ℕ) (d s n j : ℕ) → Outside d n j → kmemcpy mem d s n j ≡ mem j
unfolding kmemcpy
kmemcpy_out mem d s zero j o = refl
kmemcpy_out mem d s (suc n) j o =
    kmemcpy_out (update mem d (mem s)) (d + 1) (s + 1) n j (omega arith)
    ∙ update_ne mem d j (mem s) (omega arith)

-- Going up is right where the destination starts below the source, or past its end.
kmemcpy_in :
    (mem : ℕ → ℕ) (d s n k : ℕ)
    → (d < s) ⊎ (s + n ≤ d)
    → k < n
    → kmemcpy mem d s n (d + k) ≡ mem (s + k)
unfolding kmemcpy
kmemcpy_in mem d s zero k o l = absurd (omega arith)
kmemcpy_in mem d s (suc n) zero o l =
    kmemcpy_out (update mem d (mem s)) (d + 1) (s + 1) n (d + 0) (omega arith)
    ∙ (let e : d + 0 ≡ d = omega arith in
        let e' : s + 0 ≡ s = omega arith in rw (e, e') (update_self mem d (mem s)))
kmemcpy_in mem d s (suc n) (suc k) o l =
    ap (kmemcpy (update mem d (mem s)) (d + 1) (s + 1) n)
      (let e : d + suc k ≡ d + 1 + k = omega arith in e)
    ∙ kmemcpy_in (update mem d (mem s)) (d + 1) (s + 1) n k (omega arith) (omega arith)
    ∙ ap (update mem d (mem s)) (let e : s + 1 + k ≡ s + suc k = omega arith in e)
    ∙ update_ne mem d (s + suc k) (mem s) (omega arith)

copy_down_out : (mem : ℕ → ℕ) (d s n j : ℕ) → Outside d n j → copy_down mem d s n j ≡ mem j
unfolding copy_down
copy_down_out mem d s zero j o = refl
copy_down_out mem d s (suc n) j o =
    copy_down_out (update mem (d + n) (mem (s + n))) d s n j (omega arith)
    ∙ update_ne mem (d + n) j (mem (s + n)) (omega arith)

copy_down_in :
    (mem : ℕ → ℕ) (d s n k : ℕ) → s ≤ d → k < n → copy_down mem d s n (d + k) ≡ mem (s + k)
unfolding copy_down
copy_down_in mem d s zero k o l = absurd (omega arith)
copy_down_in mem d s (suc n) k o l = elim (Bool-cases (k == n)) [
  | inl e ↦
      let e' : k ≡ n = ground arith in
      rw e' (
        copy_down_out (update mem (d + n) (mem (s + n))) d s n (d + n) (omega arith)
        ∙ update_self mem (d + n) (mem (s + n)))
  | inr e ↦
      copy_down_in (update mem (d + n) (mem (s + n))) d s n k o (ground arith)
      ∙ update_ne mem (d + n) (s + k) (mem (s + n)) (ground arith)
]

kmemmove_out : (mem : ℕ → ℕ) (d s n j : ℕ) → Outside d n j → kmemmove mem d s n j ≡ mem j
unfolding kmemmove
kmemmove_out mem d s n j o = elim (Bool-cases (ltb d s)) [
  | inl lt ↦ rw lt (kmemcpy_out mem d s n j o)
  | inr ge ↦ rw ge (copy_down_out mem d s n j o)
]

kmemmove_in : (mem : ℕ → ℕ) (d s n k : ℕ) → k < n → kmemmove mem d s n (d + k) ≡ mem (s + k)
unfolding kmemmove
kmemmove_in mem d s n k l = elim (Bool-cases (ltb d s)) [
  | inl lt ↦ rw lt (kmemcpy_in mem d s n k (inl (ground arith)) l)
  | inr ge ↦ rw ge (copy_down_in mem d s n k (ground arith) l)
]

-- Whatever the overlap, `kmemmove` leaves the `n` bytes that stood at `s` at `d`, and leaves every
-- byte outside the destination alone.
pub kmemmove_lem :
    (mem : ℕ → ℕ) (d s n j : ℕ)
    → kmemmove mem d s n j ≡ (if within d n j then mem (s + (j - d)) else mem j)
kmemmove_lem mem d s n j = elim (Bool-cases (within d n j)) [
  | inl e ↦ rw e (
      ap (kmemmove mem d s n) (let e' : j ≡ d + (j - d) = ground arith in e')
      ∙ kmemmove_in mem d s n (j - d) (ground arith))
  | inr e ↦ rw e (kmemmove_out mem d s n j (ground arith))
]

pub copy_into_out :
    (dst : ℕ → ℕ) (d : ℕ) (src : ℕ → ℕ) (s n j : ℕ)
    → Outside d n j
    → copy_into dst d src s n j ≡ dst j
unfolding copy_into
copy_into_out dst d src s zero j o = refl
copy_into_out dst d src s (suc n) j o =
    copy_into_out (update dst d (src s)) (d + 1) src (s + 1) n j (omega arith)
    ∙ update_ne dst d j (src s) (omega arith)

pub copy_into_in :
    (dst : ℕ → ℕ) (d : ℕ) (src : ℕ → ℕ) (s n k : ℕ)
    → k < n
    → copy_into dst d src s n (d + k) ≡ src (s + k)
unfolding copy_into
copy_into_in dst d src s zero k l = absurd (omega arith)
copy_into_in dst d src s (suc n) zero l =
    copy_into_out (update dst d (src s)) (d + 1) src (s + 1) n (d + 0) (omega arith)
    ∙ (let e : d + 0 ≡ d = omega arith in
        let e' : s + 0 ≡ s = omega arith in rw (e, e') (update_self dst d (src s)))
copy_into_in dst d src s (suc n) (suc k) l =
    ap (copy_into (update dst d (src s)) (d + 1) src (s + 1) n)
      (let e : d + suc k ≡ d + 1 + k = omega arith in e)
    ∙ copy_into_in (update dst d (src s)) (d + 1) src (s + 1) n k (omega arith)
    ∙ ap src (let e : s + 1 + k ≡ s + suc k = omega arith in e)

byte_diff-eq-zero : (a b : ℕ) → byte_diff a b ≡ pos 0 → a ≡ b
byte_diff-eq-zero a b e = ground arith

byte_diff_self : (a b : ℕ) → a ≡ b → byte_diff a b ≡ pos 0
byte_diff_self a b e = ground arith

-- A copied block is the block that was copied.
pub slice-copy_into :
    (dst : ℕ → ℕ) (d : ℕ) (src : ℕ → ℕ) (s n : ℕ)
    → slice (copy_into dst d src s n) d n ≡ slice src s n
slice-copy_into dst d src s n =
    slice_congr (copy_into dst d src s n) src d s n (λ k l. copy_into_in dst d src s n k l)

kmemcmp-eq : (mem : ℕ → ℕ) (p q n : ℕ) → kmemcmp mem p q n ≡ pos 0 → slice mem p n ≡ slice mem q n
unfolding kmemcmp
kmemcmp-eq mem p q zero h = refl
kmemcmp-eq mem p q (suc n) h =
    ap₂ ◌∷◌ (ground (arith, byte_diff-eq-zero (mem p) (mem q)))
      (kmemcmp-eq mem (p + 1) (q + 1) n (ground (arith, byte_diff-eq-zero (mem p) (mem q))))

eq-kmemcmp : (mem : ℕ → ℕ) (p q n : ℕ) → slice mem p n ≡ slice mem q n → kmemcmp mem p q n ≡ pos 0
unfolding kmemcmp
eq-kmemcmp mem p q zero h = refl
eq-kmemcmp mem p q (suc n) h =
    let first : mem p ≡ mem q = cc in ground (arith, eq-kmemcmp mem (p + 1) (q + 1) n (cc))

-- `kmemcmp` returns 0 exactly when the two ranges of `n` bytes hold the same bytes.
pub kmemcmp-eq-zero_iff :
    (mem : ℕ → ℕ) (p q n : ℕ) → (kmemcmp mem p q n ≡ pos 0) ↔ (slice mem p n ≡ slice mem q n)
kmemcmp-eq-zero_iff mem p q n = (kmemcmp-eq mem p q n, eq-kmemcmp mem p q n)
