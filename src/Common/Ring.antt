-- ===== src/Common/Ring.antt =====
-- Circular buffers over an array of `cap` slots: the `n` items from index `h` on.
use Prim.Native.Nat.{◌≤◌, ℕ, zero, suc, ◌+◌, ◌-◌, ◌%◌, ◌<◌}
use mathlib.Core.Path.{sym, ◌≡◌, refl, ◌∙◌, ap, ap₂}
use mathlib.Core.Logic.{◌≢◌, inl, inr}
use mathlib.Core.List.{append_assoc, append-nil, List, [], ◌∷◌, ◌++◌}
use native.Mathlib.Nat.{mod-add-mod, mod-eq_of_lt, mod-eq-sub-mod, add-zero}
use mathlib.Core.Bool.{false}
use sabaka_os.Common.Tests.{ltb, Bool-cases}
use native.Mathlib.Omega.{arith}
use sabaka_os.Common.Arrays.{slice, update, update_self, update_ne}
use sabaka_os.Common.Lists.{length}

abbrev pub window {ℓ} : {A : Type ℓ} → (ℕ → A) → ℕ → ℕ → ℕ → List A
window f cap h zero = []
window f cap h (suc n) = f h ∷ window f cap ((h + 1) % cap) n

pub length-window {ℓ} : {A : Type ℓ} (f : ℕ → A) (cap h n : ℕ) → length (window f cap h n) ≡ n
length-window f cap h zero = refl
length-window f cap h (suc n) = ap suc (length-window f cap ((h + 1) % cap) n)

-- To walk on round the ring, but not all the way, never leads back to where it began.
ring_no_return :
    (cap start steps : ℕ) → start < cap → 0 < steps → steps < cap → (start + steps) % cap ≢ start
ring_no_return cap start steps below some_way not_round back =
    elim (Bool-cases (ltb (start + steps) cap)) [
      | inl before ↦
          let stays : (start + steps) % cap ≡ start + steps = mod-eq_of_lt (ground arith) in
          omega arith
      | inr past ↦
          let wraps : (start + steps) % cap ≡ (start + steps - cap) % cap =
            mod-eq-sub-mod (ground arith) in
          let lands : (start + steps - cap) % cap ≡ start + steps - cap =
            mod-eq_of_lt (omega arith) in
          let full : (ltb (start + steps) cap ≡ false) → cap ≤ start + steps = λ e. ground arith in
          omega (arith, full past)
    ]

-- The index one past a window is moved along by one step of its start.
pub step_mod : (cap h n : ℕ) → (h + suc n) % cap ≡ ((h + 1) % cap + n) % cap
step_mod cap h n = rw mod-add-mod (ap (λ k. k % cap) (omega arith))

-- Writing just past a window extends it by that item.
pub window-update {ℓ} :
    {A : Type ℓ} (f : ℕ → A) (cap : ℕ) (x : A) (n h i : ℕ)
    → h < cap
    → n < cap
    → i ≡ (h + n) % cap
    → window (update f i x) cap h (suc n) ≡ window f cap h n ++ (x ∷ [])
window-update f cap x zero h i hh hn e =
    rw (e, add-zero, mod-eq_of_lt hh) (ap (λ y. y ∷ []) (update_self f h x))
window-update f cap x (suc n) h i hh hn e =
    ap₂ ◌∷◌ (update_ne f i h x (rw e (ring_no_return cap h (suc n) hh (omega arith) hn)))
      (window-update f cap x n ((h + 1) % cap) i (omega arith) (omega arith) (e ∙ step_mod cap h n))

-- A window is never empty where its size is not zero.
pub window_of_ne_zero {ℓ} :
    {A : Type ℓ} (f : ℕ → A) (cap h n : ℕ)
    → n ≢ 0
    → window f cap h n ≡ f h ∷ window f cap ((h + 1) % cap) (n - 1)
window_of_ne_zero f cap h zero p = absurd (p refl)
window_of_ne_zero f cap h (suc n) p = ap (λ k. window f cap h (suc k)) (omega arith)

-- `h` and `n` step together: the index `n` places on.
pub step_mod_add : (cap h n m : ℕ) → ((h + n) % cap + m) % cap ≡ (h + (n + m)) % cap
step_mod_add cap h n m = rw mod-add-mod (ap (λ k. k % cap) (omega arith))

-- A window of `n + m` items is one of `n` and the one of `m` that follows it.
pub window-add {ℓ} :
    {A : Type ℓ} (f : ℕ → A) (cap h n m : ℕ)
    → h < cap
    → window f cap h (n + m) ≡ window f cap h n ++ window f cap ((h + n) % cap) m
window-add f cap h zero m l =
    let e : (h + 0) % cap ≡ h = rw add-zero (mod-eq_of_lt l) in
    let e' : 0 + m ≡ m = omega arith in rw (e, e')
window-add f cap h (suc n) m l =
    let e : suc n + m ≡ suc (n + m) = omega arith in
    rw (e, step_mod cap h n)
      (ap (λ w. f h ∷ w) (window-add f cap ((h + 1) % cap) n m (omega arith)))

-- `for (i = 0; i < n; i++) { buf[pos] = data[from + i]; pos = (pos + 1) % cap; }`
unfoldable pub put_loop :
    (cap : ℕ) (buf : ℕ → ℕ) (pos : ℕ) (data' : ℕ → ℕ) (from n : ℕ) → (ℕ → ℕ) × ℕ
put_loop cap buf pos data' from zero = (buf, pos)
put_loop cap buf pos data' from (suc n) =
    put_loop cap (update buf pos (data' from)) ((pos + 1) % cap) data' (from + 1) n

-- `for (i = 0; i < n; i++) { out[i] = buf[pos]; pos = (pos + 1) % cap; }`
unfoldable pub get_loop : (cap : ℕ) (buf : ℕ → ℕ) (pos n : ℕ) → List ℕ × ℕ
get_loop cap buf pos zero = ([], pos)
get_loop cap buf pos (suc n) =
    let (out, pos') = get_loop cap buf ((pos + 1) % cap) n in (buf pos ∷ out, pos')

pub get_loop_out :
    (cap : ℕ) (buf : ℕ → ℕ) (pos n : ℕ) → (get_loop cap buf pos n).0 ≡ window buf cap pos n
unfolding get_loop
get_loop_out cap buf pos zero = refl
get_loop_out cap buf pos (suc n) = ap (λ w. buf pos ∷ w) (get_loop_out cap buf ((pos + 1) % cap) n)

pub get_loop_pos :
    (cap : ℕ) (buf : ℕ → ℕ) (pos n : ℕ) → pos < cap → (get_loop cap buf pos n).1 ≡ (pos + n) % cap
unfolding get_loop
get_loop_pos cap buf pos zero l = rw (add-zero, mod-eq_of_lt l)
get_loop_pos cap buf pos (suc n) l =
    get_loop_pos cap buf ((pos + 1) % cap) n (omega arith) ∙ sym (step_mod cap pos n)

pub put_loop_pos :
    (cap : ℕ) (buf : ℕ → ℕ) (pos : ℕ) (data' : ℕ → ℕ) (from n : ℕ)
    → pos < cap
    → (put_loop cap buf pos data' from n).1 ≡ (pos + n) % cap
unfolding put_loop
put_loop_pos cap buf pos data' from zero l = rw (add-zero, mod-eq_of_lt l)
put_loop_pos cap buf pos data' from (suc n) l =
    put_loop_pos cap (update buf pos (data' from)) ((pos + 1) % cap) data' (from + 1) n
      (omega arith)
    ∙ sym (step_mod cap pos n)

-- With room for them, the loop puts the `n` bytes behind the `c` that the ring holds.
pub window-put_loop :
    (cap : ℕ) (buf : ℕ → ℕ) (h c pos : ℕ) (data' : ℕ → ℕ) (from n : ℕ)
    → h < cap
    → c + n ≤ cap
    → pos ≡ (h + c) % cap
    → window (put_loop cap buf pos data' from n).0 cap h (c + n)
      ≡ window buf cap h c ++ slice data' from n
unfolding put_loop
window-put_loop cap buf h c pos data' from zero l r e =
    let e' : c + 0 ≡ c = omega arith in rw (e', append-nil)
window-put_loop cap buf h c pos data' from (suc n) l r e =
    let e' : c + suc n ≡ suc c + n = omega arith in
    rw e' (
      window-put_loop cap (update buf pos (data' from)) h (suc c) ((pos + 1) % cap) data' (from + 1)
        n l (omega arith) (rw e (step_mod_add cap h c 1 ∙ ap (λ k. (h + k) % cap) (omega arith)))
      ∙ ap (λ w. w ++ slice data' (from + 1) n)
          (window-update buf cap (data' from) c h pos l (omega arith) e)
      ∙ append_assoc (window buf cap h c) (data' from ∷ []) (slice data' (from + 1) n))

-- The number of items between `tail` and `head`, where one slot is kept free.
abbrev pub ring_count : ℕ → ℕ → ℕ → ℕ
ring_count cap head tail = (head + cap - tail) % cap
