-- ===== src/Dns/Reads.antt =====
-- kernel/dns.cpp: decode_name and parse_response read no byte past the end of the packet.
use Prim.Native.Nat.{bit_and, bit_or}
use sabaka_os.Common.{
  ℕ, zero, suc, ◌+◌, ◌*◌, ◌<◌, ◌≡◌, refl, ◌∙◌, sym, ap, ap₂, [], ◌∷◌, ◌++◌, none, some, Bool, true,
  false, not, ◌&&◌, ltb, leb, ◌==◌, if◌then◌else◌, length, slice_congr, arith, inl, inr, Bool-cases,
}
use sabaka_os.Common.Words.{u16}
use sabaka_os.KString.Text.{CString}
use sabaka_os.Tcp.Receive.{be16, be32}
use sabaka_os.Dns.Names.{
  Decoded, decoded, malformed, out_of_fuel, Decoder, Round, returns, goes_on, or_else, jump,
  add_label, decode_round, decode_loop, decode_name, decode_fuel,
}
use sabaka_os.Dns.Response.{
  dns_type_a, dns_rcode_mask, sizeof_dns_header, address, no_address, name_at, Record, stops,
  next_record, read_record, answer_loop, question_loop, parse_response, htonl,
}

-- Two packets of the same `len` bytes.
abbrev pub SamePacket : ℕ → (ℕ → ℕ) → (ℕ → ℕ) → Type 0
SamePacket len pkt pkt' = (i : ℕ) → i < len → pkt i ≡ pkt' i

if_congr {ℓ} :
    {A : Type ℓ} (b : Bool) (x y x' y' : A)
    → (b ≡ true → x ≡ x')
    → (b ≡ false → y ≡ y')
    → (if b then x else y) ≡ (if b then x' else y')
if_congr true x y x' y' f g = f refl
if_congr false x y x' y' f g = g refl

if_congr₂ {ℓ} :
    {A : Type ℓ} (b b' : Bool) (x y x' y' : A)
    → b ≡ b'
    → (b ≡ true → x ≡ x')
    → (b ≡ false → y ≡ y')
    → (if b then x else y) ≡ (if b' then x' else y')
if_congr₂ true b' x y x' y' e f g = rw (← e) (f refl)
if_congr₂ false b' x y x' y' e f g = rw (← e) (g refl)

and_false : (x y : Bool) → y ≡ false → ¬ ((x && y) ≡ true)
and_false true y e f = cc
and_false false y e f = cc

module _ (len : ℕ) (pkt pkt' : ℕ → ℕ) (s : SamePacket len pkt pkt') where
  jump-same : (d : Decoder) → d.pos < len → jump pkt len d ≡ jump pkt' len d
  jump-same d l =
      if_congr (leb len (d.pos + 1)) _ _ _ _ (λ a. refl)
        (λ a.
          if_congr (ltb 10 (d.jumps + 1)) _ _ _ _ (λ b. refl)
            (λ b.
              ap₂
                (λ x y. goes_on (record d {
                  pos = u16 (bit_or (bit_and x 0x3F * 256) y);
                  jumps = d.jumps + 1;
                  end_pos = some (or_else d.end_pos (d.pos + 2));
                }))
                (s d.pos l) (s (d.pos + 1) (ground arith))))

  add_label-same :
      (max : ℕ) (d : Decoder) → d.pos < len → add_label pkt len max d ≡ add_label pkt' len max d
  add_label-same max d l = rw (← s d.pos l) (
      if_congr (ltb len (d.pos + 1 + pkt d.pos)) _ _ _ _ (λ a. refl)
        (λ a.
          if_congr (leb max (length d.out + pkt d.pos + 1)) _ _ _ _ (λ b. refl)
            (λ b.
              ap
                (λ (t : CString).
                  goes_on
                    (record d { pos = d.pos + 1 + pkt d.pos; out = d.out ++ (t ++ (b'.' ∷ [])) }))
                (slice_congr pkt pkt' (d.pos + 1) (d.pos + 1) (pkt d.pos)
                  (λ k u. s (d.pos + 1 + k) (ground arith))))))

  decode_round-same :
      (max : ℕ) (d : Decoder) → decode_round pkt len max d ≡ decode_round pkt' len max d
  unfolding decode_round
  decode_round-same max d =
      if_congr (not (ltb d.pos len)) _ _ _ _ (λ a. refl)
        (λ a.
          let l : d.pos < len = ground arith in
          if_congr₂ (pkt d.pos == 0) (pkt' d.pos == 0) _ _ _ _ (ap (λ x. x == 0) (s d.pos l))
            (λ b. refl)
            (λ b.
              if_congr₂ (bit_and (pkt d.pos) 0xC0 == 0xC0) (bit_and (pkt' d.pos) 0xC0 == 0xC0) _ _ _
                _ (ap (λ x. bit_and x 0xC0 == 0xC0) (s d.pos l)) (λ c. jump-same d l)
                (λ c. add_label-same max d l)))

  decode_loop-same :
      (max fuel : ℕ) (d : Decoder)
      → decode_loop pkt len max fuel d ≡ decode_loop pkt' len max fuel d
  unfolding decode_loop
  decode_loop-same max zero d = refl
  decode_loop-same max (suc fuel) d =
      go (decode_round pkt len max d) refl (decode_loop-same max fuel)
    where
      go :
          (r : Round)
          → decode_round pkt len max d ≡ r
          → ((d' : Decoder) → decode_loop pkt len max fuel d' ≡ decode_loop pkt' len max fuel d')
          → decode_loop pkt len max (suc fuel) d ≡ decode_loop pkt' len max (suc fuel) d
      go (returns r) e rec = rw (decode_loop, e, sym (decode_round-same max d) ∙ e) refl
      go (goes_on d') e rec = rw (decode_loop, e, sym (decode_round-same max d) ∙ e) (rec d')

  name_at-same : (pos : ℕ) → name_at pkt len pos ≡ name_at pkt' len pos
  unfolding decode_name
  name_at-same pos =
      decode_loop-same 254 (decode_fuel len)
        (record { pos = pos; out = []; jumps = 0; end_pos = none })

  be16-same : (i : ℕ) → i + 1 < len → be16 pkt i ≡ be16 pkt' i
  be16-same i l = ap₂ (λ x y. x * 256 + y) (s i (omega arith)) (s (i + 1) l)

  be32-same : (i : ℕ) → i + 3 < len → be32 pkt i ≡ be32 pkt' i
  be32-same i l =
      ap₂ (λ x y. x * 65536 + y) (be16-same i (omega arith)) (be16-same (i + 2) (omega arith))

  read_record-same : (pos : ℕ) → read_record pkt len pos ≡ read_record pkt' len pos
  read_record-same pos =
      if_congr (ltb len (pos + 10)) _ _ _ _ (λ a. refl)
        (λ a.
          let type_same = be16-same pos (ground arith) in
          let size_same = be16-same (pos + 8) (ground arith) in
          if_congr₂ (ltb len (u16 (pos + 10) + be16 pkt (pos + 8))) _ _ _ _ _
            (ap (λ n. ltb len (u16 (pos + 10) + n)) size_same) (λ b. refl)
            (λ b.
              if_congr₂ (be16 pkt pos == dns_type_a && be16 pkt (pos + 8) == 4) _ _ _ _ _
                (ap₂ (λ t n. t == dns_type_a && n == 4) type_same size_same)
                (λ c.
                  ap (λ v. stops (address (htonl v)))
                    (be32-same (u16 (pos + 10)) (room pos (be16 pkt pos) (be16 pkt (pos + 8)) b c)))
                (λ c. ap (λ n. next_record (u16 (u16 (pos + 10) + n))) size_same)))
    where
      room :
          (pos t n : ℕ)
          → ltb len (u16 (pos + 10) + n) ≡ false
          → (t == dns_type_a && n == 4) ≡ true
          → u16 (pos + 10) + 3 < len
      room pos t n b c = elim (Bool-cases (n == 4)) [
        | inl four ↦ ground arith
        | inr other ↦ absurd (and_false (t == dns_type_a) (n == 4) other c)
      ]

  answer_loop-same : (n pos : ℕ) → answer_loop pkt len n pos ≡ answer_loop pkt' len n pos
  unfolding answer_loop
  answer_loop-same zero pos = refl
  answer_loop-same (suc n) pos = elim (Bool-cases (leb len pos)) [
    | inl past ↦ rw (answer_loop, past) refl
    | inr inside ↦ named (name_at pkt len pos) refl (answer_loop-same n) inside
  ]
    where
      record_read :
          (next : ℕ) (name : CString) (r : Record)
          → leb len pos ≡ false
          → name_at pkt len pos ≡ decoded next name
          → read_record pkt len (u16 next) ≡ r
          → ((pos : ℕ) → answer_loop pkt len n pos ≡ answer_loop pkt' len n pos)
          → answer_loop pkt len (suc n) pos ≡ answer_loop pkt' len (suc n) pos
      record_read next name (stops r) i e f rec =
          rw
            (
              answer_loop,
              i,
              e,
              sym (name_at-same pos) ∙ e,
              f,
              sym (read_record-same (u16 next)) ∙ f,
            )
            refl
      record_read next name (next_record pos') i e f rec =
          rw
            (
              answer_loop,
              i,
              e,
              sym (name_at-same pos) ∙ e,
              f,
              sym (read_record-same (u16 next)) ∙ f,
            )
            (rec pos')

      named :
          (r : Decoded)
          → name_at pkt len pos ≡ r
          → ((pos : ℕ) → answer_loop pkt len n pos ≡ answer_loop pkt' len n pos)
          → leb len pos ≡ false
          → answer_loop pkt len (suc n) pos ≡ answer_loop pkt' len (suc n) pos
      named malformed e rec i = rw (answer_loop, i, e, sym (name_at-same pos) ∙ e) refl
      named out_of_fuel e rec i = rw (answer_loop, i, e, sym (name_at-same pos) ∙ e) refl
      named (decoded next name) e rec i =
          record_read next name (read_record pkt len (u16 next)) i e refl rec

  question_loop-same :
      (ancount n pos : ℕ)
      → question_loop pkt len ancount n pos ≡ question_loop pkt' len ancount n pos
  unfolding question_loop
  question_loop-same ancount zero pos = answer_loop-same ancount pos
  question_loop-same ancount (suc n) pos =
      named (name_at pkt len pos) refl (question_loop-same ancount n)
    where
      named :
          (r : Decoded)
          → name_at pkt len pos ≡ r
          → ((pos : ℕ) → question_loop pkt len ancount n pos ≡ question_loop pkt' len ancount n pos)
          → question_loop pkt len ancount (suc n) pos ≡ question_loop pkt' len ancount (suc n) pos
      named malformed e rec = rw (question_loop, e, sym (name_at-same pos) ∙ e) refl
      named out_of_fuel e rec = rw (question_loop, e, sym (name_at-same pos) ∙ e) refl
      named (decoded next name) e rec = elim (Bool-cases (ltb len (u16 (u16 next + 4)))) [
        | inl past ↦ rw (question_loop, e, sym (name_at-same pos) ∙ e, past) refl
        | inr inside ↦
            rw (question_loop, e, sym (name_at-same pos) ∙ e, inside) (rec (u16 (u16 next + 4)))
      ]

-- What parse_response makes of a packet depends on the bytes of the packet alone: no byte past its
-- end is read, whatever the lengths and pointers in it say.
pub parse_response-same :
    (len : ℕ) (pkt pkt' : ℕ → ℕ)
    → SamePacket len pkt pkt'
    → parse_response pkt len ≡ parse_response pkt' len
unfolding parse_response
parse_response-same len pkt pkt' s =
    if_congr (ltb len 12) _ _ _ _ (λ a. refl)
      (λ a.
        let flags = be16-same len pkt pkt' s 2 (ground arith) in
        let questions = be16-same len pkt pkt' s 4 (ground arith) in
        let answers = be16-same len pkt pkt' s 6 (ground arith) in
        rw (flags, questions, answers)
          (ap
            (λ k.
              if not (bit_and (be16 pkt' 2) dns_rcode_mask == 0)
              then no_address
              else if be16 pkt' 6 == 0
              then no_address
              else k)
            (question_loop-same len pkt pkt' s (be16 pkt' 6) (be16 pkt' 4) sizeof_dns_header)))
