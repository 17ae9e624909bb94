-- ===== src/Keyboard/Tests.antt =====
-- Examples for kernel/keyboard.cpp.
use sabaka_os.Common.{
  ℕ, List, Bool, ltb, ◌&&◌, refl, ◌≡◌, arith, true, false, [], ◌∷◌, ◌++◌, if◌then◌else◌,
}
use sabaka_os.Keyboard.{HidKeyState, Keyboard, on_keyboard}
use sabaka_os.Keyboard.Fifo.{IsValid, contents}
use sabaka_os.Keyboard.Keys.{push_all}
use sabaka_os.Keyboard.Typing.{Types, CapsAfter, shift_down, AreBytes, on_keyboard_types}
use mathlib.Core.List.{Memᴰ}

-- Two characters wait, the second one past the wrap, and a key is held down.
abbrev waiting : Keyboard
waiting = record {
  buf = λ i. i;
  buf_head = 1;
  buf_tail = 255;
  caps = false;
  user_cb = true;
  typed = [];
  prev_keys = 4 ∷ 0 ∷ 0 ∷ 0 ∷ 0 ∷ 0 ∷ [];
}

waiting-IsValid : IsValid waiting
waiting-IsValid = record { head_in = omega arith; tail_in = omega arith }

-- The held key, a new one, and Caps Lock, with Shift.
abbrev report : HidKeyState
report = record { modifier = 2; keycodes = 4 ∷ 5 ∷ 57 ∷ 0 ∷ 0 ∷ 0 ∷ [] }

report-AreBytes : AreBytes report.keycodes
report-AreBytes kc m = below report.keycodes refl kc m
  where
    all_below : List ℕ → Bool
    all_below [] = true
    all_below (x ∷ xs) = ltb x 256 && all_below xs

    below : (xs : List ℕ) → all_below xs ≡ true → AreBytes xs
    below [] h k m = elim m [ ]
    below (x ∷ xs) h k (Memᴰ.head e) = ground (arith, h, e)
    below (x ∷ xs) h k (Memᴰ.tail n) = below xs (ground (arith, h)) k n

on_keyboard_types_example :
    let k' = on_keyboard waiting report in
    (chars : List ℕ) × CapsAfter waiting.prev_keys report.keycodes waiting.caps k'.caps
    × Types (shift_down report.modifier) k'.caps waiting.prev_keys report.keycodes chars
    × (contents k' ≡ push_all (contents waiting) chars)
    × (k'.typed ≡ (if waiting.user_cb then waiting.typed ++ chars else waiting.typed))
    × (k'.prev_keys ≡ report.keycodes)
    × IsValid k'
on_keyboard_types_example = on_keyboard_types report waiting-IsValid (omega arith) report-AreBytes
