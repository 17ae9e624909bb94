-- ===== src/Dns/Names.antt =====
-- kernel/dns.cpp, encode_name and decode_name.
use Prim.Native.Nat.{bit_and, bit_or}
use sabaka_os.Common.{
  not, ℕ, zero, suc, ◌+◌, ◌*◌, List, [], ◌∷◌, ◌++◌, Option, none, some, ◌||◌, ltb, leb, ◌==◌,
  if◌then◌else◌, length, take, drop, slice,
}
use sabaka_os.Common.Words.{u8, u16}
use sabaka_os.KString.Text.{CString}

abbrev pub dns_max_name : ℕ
dns_max_name = 253

-- The bytes of a text up to the next dot.
unfoldable pub label : CString → CString
label [] = []
label (c ∷ s) = let rest = label s in if c == b'.' then [] else c ∷ rest

-- `if (*p == '.') p++;`
abbrev pub skip_dot : CString → CString
skip_dot [] = []
skip_dot (c ∷ s) = if c == b'.' then s else c ∷ s

-- The loop of encode_name; a round takes a byte of the name at least. `none` is a lack of fuel.
unfoldable pub encode_loop : ℕ → CString → List ℕ → Option (List ℕ)
encode_loop zero s out = none
encode_loop (suc fuel) [] out = some (out ++ (0 ∷ []))
encode_loop (suc fuel) (c ∷ s) out =
    let label_len = u8 (length (label (c ∷ s))) in
    let rest =
      encode_loop fuel (skip_dot (drop label_len (c ∷ s)))
        (out ++ (label_len ∷ take label_len (c ∷ s))) in
    if label_len == 0 || ltb 63 label_len then some (out ++ (0 ∷ [])) else rest

-- The bytes that encode_name writes.
unfoldable pub encode_name : CString → Option (List ℕ)
encode_name name = encode_loop (length name + 1) name []

-- What decode_name returns: where the name ends and the name, or -1.
pub data Decoded : Type 0 where
  decoded : (next : ℕ) (name : CString) → Decoded
  malformed out_of_fuel : Decoded

-- The state of the loop of decode_name.
pub record Decoder : Type 0 where
  pub pos : ℕ
  pub out : CString
  pub jumps : ℕ
  pub end_pos : Option ℕ

-- What one round comes to.
pub data Round : Type 0 where
  returns : Decoded → Round
  goes_on : Decoder → Round

-- `if (out_pos > 0 && out[out_pos - 1] == '.') out_pos--;`
abbrev pub drop_last_dot : CString → CString
drop_last_dot [] = []
drop_last_dot (c ∷ []) = if c == b'.' then [] else c ∷ []
drop_last_dot (c ∷ d ∷ s) = c ∷ drop_last_dot (d ∷ s)

abbrev pub or_else : Option ℕ → ℕ → ℕ
or_else none n = n
or_else (some m) n = m

-- A pointer to an earlier name.
abbrev pub jump : (ℕ → ℕ) → ℕ → Decoder → Round
jump pkt pkt_len d =
    let ptr = u16 (bit_or (bit_and (pkt d.pos) 0x3F * 256) (pkt (d.pos + 1))) in
    if leb pkt_len (d.pos + 1)
    then returns malformed
    else if ltb 10 (d.jumps + 1)
    then returns malformed
    else goes_on (record d {
      pos = ptr;
      jumps = d.jumps + 1;
      end_pos = some (or_else d.end_pos (d.pos + 2));
    })

-- A label.
abbrev pub add_label : (ℕ → ℕ) → (pkt_len out_max : ℕ) → Decoder → Round
add_label pkt pkt_len out_max d =
    let len = pkt d.pos in
    if ltb pkt_len (d.pos + 1 + len)
    then returns malformed
    else if leb out_max (length d.out + len + 1)
    then returns malformed
    else goes_on (record d {
      pos = d.pos + 1 + len;
      out = d.out ++ (slice pkt (d.pos + 1) len ++ (b'.' ∷ []));
    })

unfoldable pub decode_round : (ℕ → ℕ) → (pkt_len out_max : ℕ) → Decoder → Round
decode_round pkt pkt_len out_max d =
    if not (ltb d.pos pkt_len)
    then returns malformed
    else if pkt d.pos == 0
    then returns (decoded (or_else d.end_pos (d.pos + 1)) (drop_last_dot d.out))
    else if bit_and (pkt d.pos) 0xC0 == 0xC0
    then jump pkt pkt_len d
    else add_label pkt pkt_len out_max d

unfoldable pub decode_loop : (ℕ → ℕ) → (pkt_len out_max fuel : ℕ) → Decoder → Decoded
decode_loop pkt pkt_len out_max zero d = out_of_fuel
decode_loop pkt pkt_len out_max (suc fuel) d = elim (decode_round pkt pkt_len out_max d) [
  | returns r ↦ r
  | goes_on d' ↦ decode_loop pkt pkt_len out_max fuel d'
]

-- Between two jumps, of which there are ten at most, a round reads on in the packet.
abbrev pub decode_fuel : ℕ → ℕ
decode_fuel pkt_len = 11 * (pkt_len + 2)

unfoldable pub decode_name : (ℕ → ℕ) → (pkt_len offset out_max : ℕ) → Decoded
decode_name pkt pkt_len offset out_max =
    decode_loop pkt pkt_len out_max (decode_fuel pkt_len)
      (record { pos = offset; out = []; jumps = 0; end_pos = none })
