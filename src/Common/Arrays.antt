-- ===== src/Common/Arrays.antt =====
-- C arrays and memory as functions of the index. A write at one index leaves the others alone;
-- that an index lies in the array is a statement about the code that computes it.
use Prim.Native.Nat.{ℕ, zero, suc, ◌+◌, ◌<◌}
use mathlib.Core.Path.{◌≡◌, refl, ap, ap₂, ◌∙◌}
use mathlib.Core.Logic.{◌≢◌}
use mathlib.Core.Bool.{Bool, ◌&&◌}
use mathlib.Core.List.{List, [], ◌∷◌}
use native.Mathlib.Omega.{arith}
use sabaka_os.Common.Lists.{length}
use sabaka_os.Common.Tests.{◌==◌, if◌then◌else◌, ltb, leb}

abbrev pub update {ℓ} : {A : Type ℓ} → (ℕ → A) → ℕ → A → ℕ → A
update f i a j = if i == j then a else f j

pub update_self {ℓ} : {A : Type ℓ} (f : ℕ → A) (i : ℕ) (a : A) → update f i a i ≡ a
update_self f i a = ground arith

pub update_ne {ℓ} : {A : Type ℓ} (f : ℕ → A) (i j : ℕ) (a : A) → i ≢ j → update f i a j ≡ f j
update_ne f i j a h = ground arith

-- The `n` items from index `i` on.
abbrev pub slice {ℓ} : {A : Type ℓ} → (ℕ → A) → ℕ → ℕ → List A
slice f i zero = []
slice f i (suc n) = f i ∷ slice f (i + 1) n

-- Whether index `j` is one of the `n` from `d` on.
abbrev pub within : ℕ → ℕ → ℕ → Bool
within d n j = leb d j && ltb j (d + n)

pub length-slice {ℓ} : {A : Type ℓ} (f : ℕ → A) (i n : ℕ) → length (slice f i n) ≡ n
length-slice f i zero = refl
length-slice f i (suc n) = ap suc (length-slice f (i + 1) n)

-- Slices of two arrays that agree there are equal.
pub slice_congr {ℓ} :
    {A : Type ℓ} (f g : ℕ → A) (i j n : ℕ)
    → ((k : ℕ) → k < n → f (i + k) ≡ g (j + k))
    → slice f i n ≡ slice g j n
slice_congr f g i j zero h = refl
slice_congr f g i j (suc n) h =
    ap₂ ◌∷◌
      (ap f (let e : i ≡ i + 0 = omega arith in e)
        ∙ h 0 (omega arith)
        ∙ ap g (let e : j + 0 ≡ j = omega arith in e))
      (slice_congr f g (i + 1) (j + 1) n (λ k l.
        ap f (let e : i + 1 + k ≡ i + suc k = omega arith in e)
        ∙ h (suc k) (omega arith)
        ∙ ap g (let e : j + suc k ≡ j + 1 + k = omega arith in e)))
