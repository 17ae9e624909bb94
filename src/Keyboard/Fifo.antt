-- ===== src/Keyboard/Fifo.antt =====
-- kernel/keyboard.cpp: the character buffer against a bounded FIFO.
use sabaka_os.Common.{
  ℕ, suc, ◌-◌, ◌<◌, ◌≡◌, ◌≢◌, ◌⊎◌, inl, inr, refl, ◌∙◌, ap, List, [], ◌∷◌, ◌++◌, true, false, ◌==◌,
  if◌then◌else◌, arith, length, update, Bool-cases,
}
use sabaka_os.Common.Ring.{window, ring_count, length-window, window-update, window_of_ne_zero}
use sabaka_os.Keyboard.{
  Keyboard, next_slot, buf_push, keyboard_init, keyboard_haschar, keyboard_getchar,
}

pub record IsValid (k : Keyboard) : Type 0 where
  pub head_in : k.buf_head < 256
  pub tail_in : k.buf_tail < 256

abbrev pub count : Keyboard → ℕ
count k = ring_count 256 k.buf_head k.buf_tail

-- The characters that wait, oldest first.
abbrev pub contents : Keyboard → List ℕ
contents k = window k.buf 256 k.buf_tail (count k)

-- A FIFO that holds at most 255 characters, and drops those that come while it is full.
unfoldable pub fifo_push : List ℕ → ℕ → List ℕ
fifo_push held c = if length held == 255 then held else held ++ (c ∷ [])

pub keyboard_init-IsValid :
    (k : Keyboard) → IsValid (keyboard_init k) × (contents (keyboard_init k) ≡ [])
unfolding keyboard_init
keyboard_init-IsValid k = (omega arith, refl)

pub buf_push-IsValid : {k : Keyboard} (c : ℕ) → IsValid k → IsValid (buf_push k c)
unfolding buf_push
buf_push-IsValid c v = ground arith

abbrev pushed : Keyboard → ℕ → Keyboard
pushed k c = record k { buf = update k.buf k.buf_head c; buf_head = next_slot k.buf_head }

contents-pushed :
    (k : Keyboard) (c : ℕ)
    → IsValid k
    → (next_slot k.buf_head == k.buf_tail) ≡ false
    → contents (pushed k c) ≡ contents k ++ (c ∷ [])
contents-pushed k c v ne =
    let more : count (pushed k c) ≡ suc (count k) = ground arith in
    ap (window (update k.buf k.buf_head c) 256 k.buf_tail) more
    ∙ window-update k.buf 256 c (count k) k.buf_tail k.buf_head (omega arith) (ground arith)
        (ground arith)

-- `buf_push` does to the characters that wait what the bounded FIFO does.
pub buf_push_refines :
    {k : Keyboard} (c : ℕ) → IsValid k → contents (buf_push k c) ≡ fifo_push (contents k) c
unfolding buf_push fifo_push
buf_push_refines {k} c v =
    ground (arith, length-window k.buf 256 k.buf_tail (count k), contents-pushed k c v)

-- `keyboard_getchar` hands out the oldest character and leaves the others in order; where none
-- waits it returns 0 and changes nothing. `keyboard_haschar` says which of the two it will be.
pub keyboard_getchar_refines :
    {k : Keyboard}
    → IsValid k
    → let (k', c) = keyboard_getchar k in
      ((keyboard_haschar k ≡ true) × (contents k ≡ c ∷ contents k') × IsValid k')
      ⊎ ((keyboard_haschar k ≡ false) × (contents k ≡ []) × (k' ≡ k) × (c ≡ 0))
unfolding keyboard_getchar keyboard_haschar
keyboard_getchar_refines {k} v = elim (Bool-cases (k.buf_head == k.buf_tail)) [
  | inl e ↦ inr (rw e, empty (ground arith), rw e, rw e)
  | inr ne ↦ rw ne (inl (refl, split (ground arith) (ground arith), omega arith))
]
  where
    empty : count k ≡ 0 → contents k ≡ []
    empty e = rw e

    split :
        count k ≢ 0
        → count (record k { buf_tail = next_slot k.buf_tail }) ≡ count k - 1
        → contents k ≡ k.buf k.buf_tail ∷ contents (record k { buf_tail = next_slot k.buf_tail })
    split ne less = rw less (window_of_ne_zero k.buf 256 k.buf_tail (count k) ne)
