-- ===== src/Common/Scan.antt =====
-- `for (i = from; i < from + n; i++)` as recursion on the rounds left: a loop that updates a
-- state, one that looks for the first index to pass a test, and one that counts such indices.
use Prim.Native.Nat.{ℕ, zero, suc, ◌+◌, ◌≤◌, ◌<◌}
use mathlib.Core.Path.{◌≡◌, refl}
use mathlib.Core.Logic.{◌≢◌, inl, inr}
use mathlib.Core.Bool.{Bool, true, false}
use mathlib.Core.Option.{Option, none, some}
use native.Mathlib.Omega.{arith}
use sabaka_os.Common.Tests.{◌==◌, if◌then◌else◌, Bool-cases}

unfoldable pub for_range {ℓ} : {S : Type ℓ} → ℕ → ℕ → (ℕ → S → S) → S → S
for_range i zero body s = s
for_range i (suc n) body s = for_range (i + 1) n body (body i s)

-- An invariant that each round carries from `k` to `k + 1` holds at the end.
pub for_range_inv {ℓ κ} :
    {S : Type ℓ} (P : ℕ → S → Type κ) (body : ℕ → S → S) (lo hi : ℕ)
    → ((k : ℕ) (s : S) → lo ≤ k → k < hi → P k s → P (k + 1) (body k s))
    → (n i : ℕ) (s : S) → i + n ≡ hi
    → lo ≤ i
    → P i s
    → P hi (for_range i n body s)
unfolding for_range
for_range_inv P body lo hi keep zero i s e l h = let e' : i ≡ hi = omega arith in rw (← e') h
for_range_inv P body lo hi keep (suc n) i s e l h =
    for_range_inv P body lo hi keep n (i + 1) (body i s) (omega arith) (omega arith)
      (keep i s l (omega arith) h)

-- The first index of `from .. from + n` that passes the test.
unfoldable pub find_index : (ℕ → Bool) → ℕ → ℕ → Option ℕ
find_index p i zero = none
find_index p i (suc n) = let rest = find_index p (i + 1) n in if p i then some i else rest

pub record IsFirst (p : ℕ → Bool) (lo hi i : ℕ) : Type 0 where
  pub above : lo ≤ i
  pub below : i < hi
  pub passes : p i ≡ true
  pub earlier : (j : ℕ) → lo ≤ j → j < i → p j ≡ false

pub find_index-some :
    (p : ℕ → Bool) (lo n : ℕ) {i : ℕ} → find_index p lo n ≡ some i → IsFirst p lo (lo + n) i
unfolding find_index
find_index-some p lo zero e = absurd (cc)
find_index-some p lo (suc n) {i} e = elim (Bool-cases (p lo)) [
  | inl here ↦ record {
    above = ground arith;
    below = ground arith;
    passes = ground arith;
    earlier = λ j a b. ground arith;
  }
  | inr not_here ↦ step not_here (find_index-some p (lo + 1) n (ground arith))
]
  where
    step : p lo ≡ false → IsFirst p (lo + 1) (lo + 1 + n) i → IsFirst p lo (lo + suc n) i
    step not_here f = record {
      above = omega arith;
      below = omega arith;
      passes = f.passes;
      earlier = λ j a b. elim (Bool-cases (j == lo)) [
        | inl e ↦ ground arith
        | inr e ↦ f.earlier j (ground arith) b
      ];
    }

pub find_index-none :
    (p : ℕ → Bool) (lo n : ℕ)
    → find_index p lo n ≡ none
    → (j : ℕ) → lo ≤ j
    → j < lo + n
    → p j ≡ false
unfolding find_index
find_index-none p lo zero e j a b = absurd (omega arith)
find_index-none p lo (suc n) e j a b = elim (Bool-cases (p lo)) [
  | inl here ↦ absurd (ground arith)
  | inr not_here ↦ elim (Bool-cases (j == lo)) [
    | inl e' ↦ ground arith
    | inr e' ↦ find_index-none p (lo + 1) n (ground arith) j (ground arith) (omega arith)
  ]
]

-- How many of the first `n` indices pass the test.
unfoldable pub count_below : (ℕ → Bool) → ℕ → ℕ
count_below p zero = 0
count_below p (suc n) = if p n then count_below p n + 1 else count_below p n

pub count_below-le : (p : ℕ → Bool) (n : ℕ) → count_below p n ≤ n
unfolding count_below
count_below-le p zero = omega arith
count_below-le p (suc n) = ground (arith, count_below-le p n)

-- Counts of tests that agree below `n` are equal.
pub count_below_congr :
    (p q : ℕ → Bool) (n : ℕ) → ((j : ℕ) → j < n → p j ≡ q j) → count_below p n ≡ count_below q n
unfolding count_below
count_below_congr p q zero h = refl
count_below_congr p q (suc n) h =
    ground (arith, h n (omega arith), count_below_congr p q n (λ j l. h j (omega arith)))

-- To pass one more index adds one.
pub count_below_add :
    (p q : ℕ → Bool) (i n : ℕ)
    → i < n
    → p i ≡ false
    → q i ≡ true
    → ((j : ℕ) → j < n → j ≢ i → p j ≡ q j)
    → count_below q n ≡ count_below p n + 1
unfolding count_below
count_below_add p q i zero l a b h = absurd (omega arith)
count_below_add p q i (suc n) l a b h = elim (Bool-cases (i == n)) [
  | inl e ↦
      let e' : n ≡ i = ground arith in
      let same : count_below p n ≡ count_below q n =
        count_below_congr p q n (λ j k. h j (omega arith) (omega arith)) in
      ground arith
  | inr e ↦
      let less : i < n = ground arith in
      ground (
        arith,
        h n (omega arith) (omega arith),
        count_below_add p q i n less a b (λ j k. h j (omega arith)),
      )
]

pub find_index_of :
    (p : ℕ → Bool) (lo n i : ℕ) → IsFirst p lo (lo + n) i → find_index p lo n ≡ some i
unfolding find_index
find_index_of p lo zero i f = absurd (omega arith)
find_index_of p lo (suc n) i f = elim (Bool-cases (i == lo)) [
  | inl e ↦ ground arith
  | inr ne ↦
      let skip : p lo ≡ false = f.earlier lo (omega arith) (ground arith) in
      let rest : find_index p (lo + 1) n ≡ some i = find_index_of p (lo + 1) n i (record {
        above = ground arith;
        below = ground arith;
        passes = f.passes;
        earlier = λ j a b. f.earlier j (omega arith) b;
      }) in
      rw skip rest
]

pub find_index_congr :
    (p q : ℕ → Bool) (lo n : ℕ)
    → ((j : ℕ) → lo ≤ j → j < lo + n → p j ≡ q j)
    → find_index p lo n ≡ find_index q lo n
unfolding find_index
find_index_congr p q lo zero h = refl
find_index_congr p q lo (suc n) h = ground (
  arith,
  h lo (omega arith) (omega arith),
  find_index_congr p q (lo + 1) n (λ j a b. h j (omega arith) (omega arith)),
)

pub find_index_fails :
    (p : ℕ → Bool) (lo n : ℕ)
    → ((j : ℕ) → lo ≤ j → j < lo + n → p j ≡ false)
    → find_index p lo n ≡ none
unfolding find_index
find_index_fails p lo zero h = refl
find_index_fails p lo (suc n) h =
    rw (h lo (omega arith) (omega arith))
      (find_index_fails p (lo + 1) n (λ j a b. h j (omega arith) (omega arith)))
