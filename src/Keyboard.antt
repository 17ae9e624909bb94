-- ===== src/Keyboard.antt =====
-- kernel/keyboard.cpp: from the reports of a USB keyboard to a buffer of characters. The callback
-- of `keyboard_set_callback` is the user's: `typed` keeps the characters handed to it, newest last.
pub mod Layout
pub mod Fifo
pub mod Keys
pub mod Chars
pub mod Typing
mod Tests
use Prim.Native.Nat.{bit_and}
use sabaka_os.Common.{
  ℕ, zero, suc, ◌+◌, ◌-◌, ◌%◌, List, [], ◌∷◌, ◌++◌, Bool, true, false, ◌&&◌, ◌||◌, not, ltb, leb,
  ◌==◌, if◌then◌else◌, update,
}
use Layout.{hid_map, hid_shift_map}

abbrev pub buf_size : ℕ
buf_size = 256

-- MOD_LSHIFT | MOD_RSHIFT
abbrev pub mod_shift : ℕ
mod_shift = 0x22

abbrev pub caps_lock : ℕ
caps_lock = 0x39

-- `HidKeyState`, with its six key codes in order.
pub record HidKeyState : Type 0 where
  pub modifier : ℕ
  pub keycodes : List ℕ

pub record Keyboard : Type 0 where
  pub buf : ℕ → ℕ
  pub buf_head : ℕ
  pub buf_tail : ℕ
  pub caps : Bool
  pub user_cb : Bool  -- whether a callback is set
  pub typed : List ℕ
  pub prev_keys : List ℕ

abbrev pub next_slot : ℕ → ℕ
next_slot i = (i + 1) % buf_size

unfoldable pub buf_push : Keyboard → ℕ → Keyboard
buf_push k c =
    if next_slot k.buf_head == k.buf_tail
    then k
    else record k { buf = update k.buf k.buf_head c; buf_head = next_slot k.buf_head }

-- Whether a key code stands in a list of them, as the inner loops of `on_keyboard` look for it.
abbrev pub has_key : List ℕ → ℕ → Bool
has_key [] kc = false
has_key (k ∷ ks) kc = k == kc || has_key ks kc

-- The first loop of `on_keyboard`: each Caps Lock that was not down before turns `caps`.
unfoldable pub caps_loop : List ℕ → List ℕ → Bool → Bool
caps_loop prev [] caps = caps
caps_loop prev (kc ∷ kcs) caps =
    caps_loop prev kcs (if kc == caps_lock && not (has_key prev caps_lock) then not caps else caps)

-- The character of a key.
unfoldable pub key_char : Bool → Bool → ℕ → ℕ
key_char shift caps kc =
    let c = if shift then hid_shift_map kc else hid_map kc in
    if caps
    then (if leb b'a' c && leb c b'z'
        then c - 32
        else if leb b'A' c && leb c b'Z' && not shift
        then c + 32
        else c)
    else c

-- `buf_push(c); if (user_cb) user_cb(c);`
unfoldable pub deliver : Keyboard → ℕ → Keyboard
deliver k c =
    let k' = buf_push k c in if k.user_cb then record k' { typed = k.typed ++ (c ∷ []) } else k'

-- One round of the second loop.
unfoldable pub press : Bool → Keyboard → ℕ → Keyboard
press shift k kc =
    let c = key_char shift k.caps kc in
    if kc == 0 || kc == 1
    then k
    else if has_key k.prev_keys kc
    then k
    else if c == 0
    then k
    else deliver k c

unfoldable pub press_loop : Bool → Keyboard → List ℕ → Keyboard
press_loop shift k [] = k
press_loop shift k (kc ∷ kcs) = press_loop shift (press shift k kc) kcs

unfoldable pub on_keyboard : Keyboard → HidKeyState → Keyboard
on_keyboard k ks =
    let shift = not (bit_and ks.modifier mod_shift == 0) in
    let k' = record k { caps = caps_loop k.prev_keys ks.keycodes k.caps } in
    record (press_loop shift k' ks.keycodes) { prev_keys = ks.keycodes }

unfoldable pub keyboard_init : Keyboard → Keyboard
keyboard_init k = record k {
  buf_head = 0;
  buf_tail = 0;
  caps = false;
  user_cb = false;
  prev_keys = 0 ∷ 0 ∷ 0 ∷ 0 ∷ 0 ∷ 0 ∷ [];
}

-- `set` is whether the callback is not null.
unfoldable pub keyboard_set_callback : Keyboard → Bool → Keyboard
keyboard_set_callback k set = record k { user_cb = set }

unfoldable pub keyboard_haschar : Keyboard → Bool
keyboard_haschar k = not (k.buf_head == k.buf_tail)

-- The character, 0 where there is none.
unfoldable pub keyboard_getchar : Keyboard → Keyboard × ℕ
keyboard_getchar k =
    if not (keyboard_haschar k)
    then (k, 0)
    else (record k { buf_tail = next_slot k.buf_tail }, k.buf k.buf_tail)
