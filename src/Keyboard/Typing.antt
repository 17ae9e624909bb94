-- ===== src/Keyboard/Typing.antt =====
-- kernel/keyboard.cpp: which characters a report types, on a US keyboard.
use mathlib.Core.List.{Memᴰ}
use sabaka_os.Common.{
  ℕ, ◌+◌, ◌/◌, ◌%◌, ◌≡◌, ◌≢◌, ◌≤◌, ◌<◌, ◌⊎◌, inl, inr, refl, sym, ◌∙◌, List, [], ◌∷◌, ◌++◌, Bool,
  true, false, not, ◌||◌, ◌==◌, if◌then◌else◌, arith, Bool-cases, subst, ==_iff,
}
use Prim.Native.Nat.{bit_and}
use sabaka_os.Common.Bits.{holds_below, holds_below_sound}
use sabaka_os.Keyboard.{HidKeyState, Keyboard, has_key, caps_loop, key_char, caps_lock, on_keyboard}
use sabaka_os.Keyboard.Fifo.{IsValid, contents}
use sabaka_os.Keyboard.Chars.{us_char, key_char-us_char}
use sabaka_os.Keyboard.Keys.{new_chars, push_all, has_shift, on_keyboard-Typed}

-- The characters that the keys of a report type: those of the keys that were not down in the report
-- before, but for codes 0 and 1, which are no keys, and for keys without a character.
pub data Types (shift caps : Bool) (prev : List ℕ) : List ℕ → List ℕ → Type 0 where
  no_more : Types shift caps prev [] []
  typed_key :
      (kc : ℕ) (kcs cs : List ℕ)
      → 2 ≤ kc
      → ¬ Memᴰ kc prev
      → us_char shift caps kc ≢ 0
      → Types shift caps prev kcs cs
      → Types shift caps prev (kc ∷ kcs) (us_char shift caps kc ∷ cs)
  silent_key :
      (kc : ℕ) (kcs cs : List ℕ)
      → (kc < 2) ⊎ (Memᴰ kc prev ⊎ (us_char shift caps kc ≡ 0))
      → Types shift caps prev kcs cs
      → Types shift caps prev (kc ∷ kcs) cs

-- How often a key stands in a report.
abbrev pub occurrences : ℕ → List ℕ → ℕ
occurrences kc [] = 0
occurrences kc (k ∷ ks) = (if k == kc then 1 else 0) + occurrences kc ks

-- Caps Lock stays as it is while its key is held down; else each time that the key stands in the
-- report turns it.
pub data CapsAfter (prev kcs : List ℕ) (caps caps' : Bool) : Type 0 where
  held_down : Memᴰ 0x39 prev → caps' ≡ caps → CapsAfter prev kcs caps caps'
  turned :
      ¬ Memᴰ 0x39 prev
      → caps' ≡ (if occurrences 0x39 kcs % 2 == 0 then caps else not caps)
      → CapsAfter prev kcs caps caps'

-- Left Shift is bit 1 of the modifiers, right Shift bit 5.
abbrev pub shift_down : ℕ → Bool
shift_down m = m / 2 % 2 == 1 || m / 32 % 2 == 1

shift_table :
    holds_below 256 (λ m. if shift_down m then not (bit_and m 0x22 == 0) else bit_and m 0x22 == 0)
    ≡ true
unfolding holds_below
shift_table = refl

has_shift-shift_down :
    (ks : HidKeyState) → ks.modifier < 256 → has_shift ks ≡ shift_down ks.modifier
has_shift-shift_down ks l =
    let h =
      holds_below_sound 256
        (λ m. if shift_down m then not (bit_and m 0x22 == 0) else bit_and m 0x22 == 0) ks.modifier
        shift_table l in
    elim (Bool-cases (shift_down ks.modifier)) [
      | inl s ↦ ground (arith, h, s)
      | inr n ↦ ground (arith, h, n)
    ]

has_key-Mem : (prev : List ℕ) (kc : ℕ) → has_key prev kc ≡ true → Memᴰ kc prev
has_key-Mem [] kc e = absurd (cc)
has_key-Mem (k ∷ ks) kc e = elim (Bool-cases (k == kc)) [
  | inl h ↦ Memᴰ.head (ground arith)
  | inr n ↦ Memᴰ.tail (has_key-Mem ks kc (ground arith))
]

Mem-has_key : (prev : List ℕ) (kc : ℕ) → Memᴰ kc prev → has_key prev kc ≡ true
Mem-has_key [] kc m = elim m [ ]
Mem-has_key (k ∷ ks) kc (Memᴰ.head e) = ground arith
Mem-has_key (k ∷ ks) kc (Memᴰ.tail m) = ground (arith, Mem-has_key ks kc m)

has_key-none : (prev : List ℕ) (kc : ℕ) → has_key prev kc ≡ false → ¬ Memᴰ kc prev
has_key-none prev kc e m = let h = Mem-has_key prev kc m in absurd (cc)

-- Every code is a byte.
abbrev pub AreBytes : List ℕ → Type 0
AreBytes kcs = (kc : ℕ) → Memᴰ kc kcs → kc < 256

-- Where a key types nothing.
silent-case :
    (shift caps : Bool) (prev : List ℕ) (kc c : ℕ)
    → c ≡ us_char shift caps kc
    → (kc == 0 || kc == 1 || has_key prev kc || c == 0) ≡ true
    → (kc < 2) ⊎ (Memᴰ kc prev ⊎ (us_char shift caps kc ≡ 0))
silent-case shift caps prev kc c e h = elim (Bool-cases (has_key prev kc)) [
  | inl k ↦ inr (inl (has_key-Mem prev kc k))
  | inr n ↦ elim (Bool-cases (c == 0)) [
    | inl z ↦ inr (inr (sym e ∙ (==_iff _ _).0 z))
    | inr p ↦ inl (ground (arith, h, n, p))
  ]
]

new_chars-Types :
    (shift caps : Bool) (prev kcs : List ℕ)
    → AreBytes kcs
    → Types shift caps prev kcs (new_chars shift caps prev kcs)
unfolding new_chars
new_chars-Types shift caps prev [] b = no_more
new_chars-Types shift caps prev (kc ∷ kcs) b =
    let c = key_char shift caps kc in
    let e : c ≡ us_char shift caps kc = key_char-us_char shift caps kc (b kc (Memᴰ.head refl)) in
    let rest = new_chars-Types shift caps prev kcs (λ k m. b k (Memᴰ.tail m)) in
    elim (Bool-cases (kc == 0 || kc == 1 || has_key prev kc || c == 0)) [
      | inl quiet ↦ rw quiet (silent_key kc kcs _ (silent-case shift caps prev kc c e quiet) rest)
      | inr loud ↦
          rw (loud, e)
            (typed_key kc kcs _ (ground (arith, loud)) (has_key-none prev kc (ground (arith, loud)))
              (λ z. let q = e ∙ z in absurd (ground (arith, loud, q))) rest)
    ]

caps_loop-held :
    (prev kcs : List ℕ) (caps : Bool)
    → has_key prev caps_lock ≡ true
    → caps_loop prev kcs caps ≡ caps
unfolding caps_loop
caps_loop-held prev [] caps h = refl
caps_loop-held prev (kc ∷ kcs) caps h = ground (arith, caps_loop-held prev kcs caps h, h)

caps_loop-turned :
    (prev kcs : List ℕ) (caps : Bool)
    → has_key prev caps_lock ≡ false
    → caps_loop prev kcs caps ≡ (if occurrences 0x39 kcs % 2 == 0 then caps else not caps)
unfolding caps_loop
caps_loop-turned prev [] caps h = refl
caps_loop-turned prev (kc ∷ kcs) true h =
    ground (arith, caps_loop-turned prev kcs false h, caps_loop-turned prev kcs true h, h)
caps_loop-turned prev (kc ∷ kcs) false h =
    ground (arith, caps_loop-turned prev kcs false h, caps_loop-turned prev kcs true h, h)

caps_loop-CapsAfter :
    (prev kcs : List ℕ) (caps : Bool) → CapsAfter prev kcs caps (caps_loop prev kcs caps)
caps_loop-CapsAfter prev kcs caps = elim (Bool-cases (has_key prev 0x39)) [
  | inl h ↦ held_down (has_key-Mem prev 0x39 h) (caps_loop-held prev kcs caps h)
  | inr n ↦ turned (has_key-none prev 0x39 n) (caps_loop-turned prev kcs caps n)
]

-- A report, whose modifiers and codes are bytes, turns Caps Lock as its key says, and types the
-- characters that its new keys have on a US keyboard, with Shift and with Caps Lock as the report
-- leaves it, in the order of the report: they go behind the characters that wait in the buffer as
-- far as it has room, and all of them to the callback. The report is kept for the next one to be
-- compared with.
pub on_keyboard_types :
    {k : Keyboard} (ks : HidKeyState)
    → IsValid k
    → ks.modifier < 256
    → AreBytes ks.keycodes
    → let k' = on_keyboard k ks in
      (chars : List ℕ) × CapsAfter k.prev_keys ks.keycodes k.caps k'.caps
      × Types (shift_down ks.modifier) k'.caps k.prev_keys ks.keycodes chars
      × (contents k' ≡ push_all (contents k) chars)
      × (k'.typed ≡ (if k.user_cb then k.typed ++ chars else k.typed))
      × (k'.prev_keys ≡ ks.keycodes)
      × IsValid k'
on_keyboard_types {k} ks v m b =
    let caps' = caps_loop k.prev_keys ks.keycodes k.caps in
    let shift = has_shift-shift_down ks m in
    let (buffered, handed, caps, prev, valid) = on_keyboard-Typed ks v in
    (
      new_chars (has_shift ks) caps' k.prev_keys ks.keycodes,
      subst (CapsAfter k.prev_keys ks.keycodes k.caps) (sym caps)
          (caps_loop-CapsAfter k.prev_keys ks.keycodes k.caps),
      subst
          (λ s.
            Types s (on_keyboard k ks).caps k.prev_keys ks.keycodes
              (new_chars (has_shift ks) caps' k.prev_keys ks.keycodes))
          shift
          (subst
            (λ c.
              Types (has_shift ks) c k.prev_keys ks.keycodes
                (new_chars (has_shift ks) caps' k.prev_keys ks.keycodes))
            (sym caps) (new_chars-Types (has_shift ks) caps' k.prev_keys ks.keycodes b)),
      buffered,
      handed,
      prev,
      valid,
    )
