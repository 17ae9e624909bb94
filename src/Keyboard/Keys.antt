-- ===== src/Keyboard/Keys.antt =====
-- kernel/keyboard.cpp: which characters a report types.
use Prim.Native.Nat.{bit_and}
use sabaka_os.Common.{
  ap₂, subst, ℕ, ◌≡◌, inl, inr, refl, sym, ◌∙◌, List, [], ◌∷◌, ◌++◌, Bool, true, false, not, ◌||◌,
  ◌==◌, if◌then◌else◌, arith, Bool-cases, append-nil, append_assoc,
}
use sabaka_os.Keyboard.{
  HidKeyState, Keyboard, mod_shift, has_key, caps_loop, key_char, buf_push, deliver, press,
  press_loop, on_keyboard,
}
use sabaka_os.Keyboard.Fifo.{IsValid, contents, fifo_push, buf_push_refines}

-- The characters of the keys of a report that were not down in the one before: codes 0 and 1 are
-- no keys, and a key with no character types nothing.
unfoldable pub new_chars : Bool → Bool → List ℕ → List ℕ → List ℕ
new_chars shift caps prev [] = []
new_chars shift caps prev (kc ∷ kcs) =
    let c = key_char shift caps kc in
    let rest = new_chars shift caps prev kcs in
    if kc == 0 || kc == 1 || has_key prev kc || c == 0 then rest else c ∷ rest

unfoldable pub push_all : List ℕ → List ℕ → List ℕ
push_all held [] = held
push_all held (c ∷ cs) = push_all (fifo_push held c) cs

-- Whether the report of the modifiers has a Shift key.
abbrev pub has_shift : HidKeyState → Bool
has_shift ks = not (bit_and ks.modifier mod_shift == 0)

-- The rest of what a round keeps.
record Kept (k k' : Keyboard) : Type 0 where
  valid : IsValid k'
  prev : k'.prev_keys ≡ k.prev_keys
  caps : k'.caps ≡ k.caps
  cb : k'.user_cb ≡ k.user_cb

deliver-Kept : {k : Keyboard} (c : ℕ) → IsValid k → Kept k (deliver k c)
unfolding deliver buf_push
deliver-Kept c v = ground arith

contents_if :
    (b : Bool) (k : Keyboard) (t : List ℕ)
    → contents (if b then record k { typed = t } else k) ≡ contents k
contents_if true k t = refl
contents_if false k t = refl

contents-deliver :
    {k : Keyboard} (c : ℕ) → IsValid k → contents (deliver k c) ≡ fifo_push (contents k) c
unfolding deliver
contents-deliver {k} c v =
    contents_if k.user_cb (buf_push k c) (k.typed ++ (c ∷ [])) ∙ buf_push_refines c v

typed-deliver :
    (k : Keyboard) (c : ℕ)
    → (deliver k c).typed ≡ (if k.user_cb then k.typed ++ (c ∷ []) else k.typed)
unfolding deliver buf_push
typed-deliver k c = ground arith

-- Whether a key of a report types nothing.
abbrev silent : Bool → Keyboard → ℕ → Bool
silent shift k kc = kc == 0 || kc == 1 || has_key k.prev_keys kc || key_char shift k.caps kc == 0

press-deliver :
    (shift : Bool) (k : Keyboard) (kc : ℕ)
    → press shift k kc ≡ (if silent shift k kc then k else deliver k (key_char shift k.caps kc))
unfolding press
press-deliver shift k kc = ground arith

-- What the loop over the keys of a report has done.
record Typed (shift : Bool) (k : Keyboard) (kcs : List ℕ) (k' : Keyboard) : Type 0 where
  kept : Kept k k'
  buffered : contents k' ≡ push_all (contents k) (new_chars shift k.caps k.prev_keys kcs)
  handed :
      k'.typed ≡ (if k.user_cb then k.typed ++ new_chars shift k.caps k.prev_keys kcs else k.typed)

after_silent :
    (shift : Bool) (k : Keyboard) (kc : ℕ) (kcs : List ℕ) (k' : Keyboard)
    → silent shift k kc ≡ true
    → Typed shift k kcs k'
    → Typed shift k (kc ∷ kcs) k'
unfolding new_chars
after_silent shift k kc kcs k' q t = record {
  kept = t.kept;
  buffered = rw q t.buffered;
  handed = rw q t.handed;
}

-- After a character the loop goes on from the keyboard that has it.
after_char :
    (shift : Bool) (k k1 : Keyboard) (c kc : ℕ) (kcs : List ℕ) (k' : Keyboard)
    → silent shift k kc ≡ false
    → c ≡ key_char shift k.caps kc
    → Kept k k1
    → contents k1 ≡ fifo_push (contents k) c
    → k1.typed ≡ (if k.user_cb then k.typed ++ (c ∷ []) else k.typed)
    → Typed shift k1 kcs k'
    → Typed shift k (kc ∷ kcs) k'
unfolding new_chars push_all
after_char shift k k1 c kc kcs k' q e kept b h t = record {
  kept = record {
    valid = t.kept.valid;
    prev = t.kept.prev ∙ kept.prev;
    caps = t.kept.caps ∙ kept.caps;
    cb = t.kept.cb ∙ kept.cb;
  };
  buffered =
      rw (q, ← e)
        (t.buffered ∙ ap₂ push_all b (ap₂ (λ a p. new_chars shift a p kcs) kept.caps kept.prev));
  handed =
      rw (q, ← e)
        (t.handed
          ∙ rw (kept.cb, kept.caps, kept.prev, h)
              (regroup k.user_cb k.typed c (new_chars shift k.caps k.prev_keys kcs)));
}
  where
    regroup :
        (u : Bool) (ts : List ℕ) (x : ℕ) (cs : List ℕ)
        → (if u
            then (if u then ts ++ (x ∷ []) else ts) ++ cs
            else (if u then ts ++ (x ∷ []) else ts))
          ≡ (if u then ts ++ (x ∷ cs) else ts)
    regroup true ts x cs = append_assoc ts (x ∷ []) cs
    regroup false ts x cs = refl

press_loop-Typed :
    (shift : Bool) (kcs : List ℕ) (k : Keyboard)
    → IsValid k
    → Typed shift k kcs (press_loop shift k kcs)
unfolding press_loop
press_loop-Typed shift [] k v = nothing
  where
    nothing : Typed shift k [] k
    nothing =
        unfold new_chars push_all in
        record {
          kept = record { valid = v; prev = refl; caps = refl; cb = refl };
          buffered = refl;
          handed = ground (arith, append-nil k.typed);
        }
press_loop-Typed shift (kc ∷ kcs) k v = elim (Bool-cases (silent shift k kc)) [
  | inl quiet ↦
      let e : press shift k kc ≡ k = press-deliver shift k kc ∙ rw quiet in
      subst (λ x. Typed shift k (kc ∷ kcs) (press_loop shift x kcs)) (sym e)
        (after_silent shift k kc kcs (press_loop shift k kcs) quiet
          (press_loop-Typed shift kcs k v))
  | inr loud ↦
      let c = key_char shift k.caps kc in
      let e : press shift k kc ≡ deliver k c = press-deliver shift k kc ∙ rw loud in
      subst (λ x. Typed shift k (kc ∷ kcs) (press_loop shift x kcs)) (sym e)
        (after_char shift k (deliver k c) c kc kcs (press_loop shift (deliver k c) kcs) loud refl
          (deliver-Kept c v) (contents-deliver c v) (typed-deliver k c)
          (press_loop-Typed shift kcs (deliver k c) (deliver-Kept c v).valid))
]

-- What a whole report does to the keyboard.
pub on_keyboard-Typed :
    {k : Keyboard} (ks : HidKeyState)
    → IsValid k
    → let k' = on_keyboard k ks in
      let caps' = caps_loop k.prev_keys ks.keycodes k.caps in
      let chars = new_chars (has_shift ks) caps' k.prev_keys ks.keycodes in
      (contents k' ≡ push_all (contents k) chars)
      × (k'.typed ≡ (if k.user_cb then k.typed ++ chars else k.typed))
      × (k'.caps ≡ caps')
      × (k'.prev_keys ≡ ks.keycodes)
      × IsValid k'
unfolding on_keyboard
on_keyboard-Typed {k} ks v =
    let t =
      press_loop-Typed (has_shift ks) ks.keycodes
        (record k { caps = caps_loop k.prev_keys ks.keycodes k.caps })
        (record { head_in = v.head_in; tail_in = v.tail_in }) in
    (
      t.buffered,
      t.handed,
      t.kept.caps,
      refl,
      record { head_in = t.kept.valid.head_in; tail_in = t.kept.valid.tail_in },
    )
