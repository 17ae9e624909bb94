-- ===== src/Keyboard/Chars.antt =====
-- kernel/keyboard.cpp: the tables HID_MAP and HID_SHIFT_MAP against the layout of a US keyboard.
use sabaka_os.Common.{
  ℕ, ◌+◌, ◌-◌, ◌≡◌, ◌<◌, List, [], ◌∷◌, Bool, true, false, ◌||◌, leb, ◌==◌, if◌then◌else◌, get_or,
  refl,
}
use sabaka_os.Common.Bits.{holds_below, holds_below_sound}
use sabaka_os.Common.{==_iff}
use sabaka_os.Keyboard.{key_char}
use sabaka_os.Keyboard.Layout.{hid_map, hid_shift_map}

-- The row of keys from `1` to `0`, as digits and with Shift, and the keys right of the letters.
abbrev digit_keys : List ℕ
digit_keys = b'1' ∷ b'2' ∷ b'3' ∷ b'4' ∷ b'5' ∷ b'6' ∷ b'7' ∷ b'8' ∷ b'9' ∷ b'0' ∷ []

abbrev digit_shifts : List ℕ
digit_shifts = b'!' ∷ b'@' ∷ b'#' ∷ b'$' ∷ b'%' ∷ b'^' ∷ b'&' ∷ b'*' ∷ b'(' ∷ b')' ∷ []

-- Enter, Escape, Backspace, Tab and the space bar.
abbrev control_keys : List ℕ
control_keys = 10 ∷ 27 ∷ 8 ∷ 9 ∷ b' ' ∷ []

-- The keys of the punctuation marks; the key after the backslash types nothing.
abbrev mark_keys : List ℕ
mark_keys = b'-' ∷ b'=' ∷ b'[' ∷ b']' ∷ 92 ∷ 0 ∷ b';' ∷ 39 ∷ b'`' ∷ b',' ∷ b'.' ∷ b'/' ∷ []

abbrev mark_shifts : List ℕ
mark_shifts = b'_' ∷ b'+' ∷ b'{' ∷ b'}' ∷ b'|' ∷ 0 ∷ b':' ∷ 34 ∷ b'~' ∷ b'<' ∷ b'>' ∷ b'?' ∷ []

-- The keys of the number pad.
abbrev pad_keys : List ℕ
pad_keys =
    b'/' ∷ b'*' ∷ b'-' ∷ b'+' ∷ 10 ∷ b'1' ∷ b'2' ∷ b'3' ∷ b'4' ∷ b'5' ∷ b'6' ∷ b'7' ∷ b'8' ∷ b'9'
    ∷ b'0' ∷ b'.' ∷ []

-- The character of a key of a US keyboard, 0 where it has none. Shift and Caps Lock make capital
-- letters, also together; of the other keys, Shift alone changes those of the digits and marks.
abbrev pub us_char : Bool → Bool → ℕ → ℕ
us_char shift caps kc =
    if leb kc 3
    then 0
    else if leb kc 29
    then (if shift || caps then b'A' + (kc - 4) else b'a' + (kc - 4))
    else if leb kc 39
    then get_or (if shift then digit_shifts else digit_keys) (kc - 30) 0
    else if leb kc 44
    then get_or control_keys (kc - 40) 0
    else if leb kc 56
    then get_or (if shift then mark_shifts else mark_keys) (kc - 45) 0
    else if leb kc 83
    then 0
    else get_or pad_keys (kc - 84) 0

same_below :
    (shift caps : Bool)
    → holds_below 256 (λ kc. key_char shift caps kc == us_char shift caps kc) ≡ true
unfolding holds_below key_char hid_map hid_shift_map
same_below true true = refl
same_below true false = refl
same_below false true = refl
same_below false false = refl

-- For every code of a byte the tables have the character of a US keyboard.
pub key_char-us_char :
    (shift caps : Bool) (kc : ℕ) → kc < 256 → key_char shift caps kc ≡ us_char shift caps kc
key_char-us_char shift caps kc l =
    (==_iff _ _).0 (holds_below_sound 256 _ kc (same_below shift caps) l)
