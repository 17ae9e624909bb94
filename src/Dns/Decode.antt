-- ===== src/Dns/Decode.antt =====
-- kernel/dns.cpp, decode_name: it ends, whatever the packet holds, and stays within its bounds.
use sabaka_os.Common.{
  ℕ, zero, suc, ◌+◌, ◌-◌, ◌*◌, ◌≤◌, ◌<◌, ◌≡◌, refl, [], ◌∷◌, ◌++◌, Option, none, some, Bool, true,
  false, not, ltb, leb, ◌==◌, if◌then◌else◌, length, length-append, slice, length-slice, arith,
}
use Prim.Native.Nat.{bit_and}
use sabaka_os.KString.Text.{CString}
use sabaka_os.Dns.Names.{
  Decoded, decoded, malformed, Decoder, Round, returns, goes_on, drop_last_dot, or_else, jump,
  add_label, decode_round, decode_loop, decode_name,
}

-- A name that ends within the packet and fits the buffer with its NUL, or no name.
pub data Decodes (pkt_len out_max : ℕ) : Decoded → Type 0 where
  decodes :
      {next : ℕ} {name : CString}
      → next ≤ pkt_len
      → length name < out_max
      → Decodes pkt_len out_max (decoded next name)
  fails : Decodes pkt_len out_max malformed

record IsGood (pkt_len out_max : ℕ) (d : Decoder) : Type 0 where
  out_fits : length d.out < out_max
  end_fits : or_else d.end_pos 0 ≤ pkt_len
  jumps_le : d.jumps ≤ 10

-- What is left to do: the jumps that are left, and the packet from the position on.
abbrev measure : ℕ → Decoder → ℕ
measure pkt_len d = (10 - d.jumps) * (pkt_len + 2) + (pkt_len + 1 - d.pos)

data GoesWell (pkt_len out_max : ℕ) (d : Decoder) : Round → Type 0 where
  ends : {r : Decoded} → Decodes pkt_len out_max r → GoesWell pkt_len out_max d (returns r)
  nears :
      {d' : Decoder}
      → IsGood pkt_len out_max d'
      → measure pkt_len d' < measure pkt_len d
      → GoesWell pkt_len out_max d (goes_on d')

if-GoesWell :
    {L M : ℕ} {d : Decoder} (b : Bool) (x y : Round)
    → (b ≡ true → GoesWell L M d x)
    → (b ≡ false → GoesWell L M d y)
    → GoesWell L M d (if b then x else y)
if-GoesWell true x y f g = f refl
if-GoesWell false x y f g = g refl

length-drop_last_dot : (s : CString) → length (drop_last_dot s) ≤ length s
length-drop_last_dot [] = omega arith
length-drop_last_dot (c ∷ []) = ground arith
length-drop_last_dot (c ∷ d ∷ s) = omega (arith, length-drop_last_dot (d ∷ s))

or_else-le : (o : Option ℕ) (n L : ℕ) → or_else o 0 ≤ L → n ≤ L → or_else o n ≤ L
or_else-le none n L a b = b
or_else-le (some m) n L a b = a

-- A jump uses up one of the ten.
jump_nears :
    (jumps L pos ptr : ℕ)
    → jumps + 1 ≤ 10
    → (10 - (jumps + 1)) * (L + 2) + (L + 1 - ptr) < (10 - jumps) * (L + 2) + (L + 1 - pos)
jump_nears jumps L pos ptr l =
    let left : ℕ = 10 - (jumps + 1) in
    let e : 10 - jumps ≡ suc left = omega arith in rw e (grind arith)

jump-GoesWell :
    (pkt : ℕ → ℕ) (L M : ℕ) (d : Decoder) → IsGood L M d → d.pos < L → GoesWell L M d (jump pkt L d)
jump-GoesWell pkt L M d g l =
    if-GoesWell (leb L (d.pos + 1)) _ _ (λ a. ends fails)
      (λ a.
        if-GoesWell (ltb 10 (d.jumps + 1)) _ _ (λ b. ends fails)
          (λ b.
            nears
              (record {
                out_fits = g.out_fits;
                end_fits = or_else-le d.end_pos (d.pos + 2) L g.end_fits (ground arith);
                jumps_le = ground arith;
              })
              (jump_nears d.jumps L d.pos _ (ground arith))))

add_label-GoesWell :
    (pkt : ℕ → ℕ) (L M : ℕ) (d : Decoder)
    → IsGood L M d
    → d.pos < L
    → GoesWell L M d (add_label pkt L M d)
add_label-GoesWell pkt L M d g l =
    let len : ℕ = pkt d.pos in
    let text : CString = slice pkt (d.pos + 1) len ++ (b'.' ∷ []) in
    let whole = length-append d.out text in
    let part = length-append (slice pkt (d.pos + 1) len) (b'.' ∷ []) in
    let copied = length-slice pkt (d.pos + 1) len in
    if-GoesWell (ltb L (d.pos + 1 + len)) _ _ (λ a. ends fails)
      (λ a.
        if-GoesWell (leb M (length d.out + len + 1)) _ _ (λ b. ends fails)
          (λ b.
            nears
              (record {
                out_fits = ground (arith, whole, part, copied);
                end_fits = g.end_fits;
                jumps_le = g.jumps_le;
              })
              (ground arith)))

decode_round-GoesWell :
    (pkt : ℕ → ℕ) (L M : ℕ) (d : Decoder) → IsGood L M d → GoesWell L M d (decode_round pkt L M d)
unfolding decode_round
decode_round-GoesWell pkt L M d g =
    if-GoesWell (not (ltb d.pos L)) _ _ (λ a. ends fails)
      (λ a.
        let inside : d.pos < L = ground arith in
        if-GoesWell (pkt d.pos == 0) _ _
          (λ b. ends (
            decodes (or_else-le d.end_pos (d.pos + 1) L g.end_fits (omega arith))
              (omega (arith, length-drop_last_dot d.out, g.out_fits))))
          (λ b.
            if-GoesWell (bit_and (pkt d.pos) 0xC0 == 0xC0) _ _
              (λ c. jump-GoesWell pkt L M d g inside) (λ c. add_label-GoesWell pkt L M d g inside)))

decode_loop-Decodes :
    (pkt : ℕ → ℕ) (L M fuel : ℕ) (d : Decoder)
    → IsGood L M d
    → measure L d < fuel
    → Decodes L M (decode_loop pkt L M fuel d)
unfolding decode_loop
decode_loop-Decodes pkt L M zero d g l = absurd (omega arith)
decode_loop-Decodes pkt L M (suc fuel) d g l =
    go (decode_round pkt L M d) refl (decode_round-GoesWell pkt L M d g)
      (λ d' g' l'. decode_loop-Decodes pkt L M fuel d' g' l')
  where
    go :
        (r : Round)
        → decode_round pkt L M d ≡ r
        → GoesWell L M d r
        → ((d' : Decoder)
            → IsGood L M d'
            → measure L d' < fuel
            → Decodes L M (decode_loop pkt L M fuel d'))
        → Decodes L M (decode_loop pkt L M (suc fuel) d)
    go (returns r) e (ends h) rec = rw (decode_loop, e) h
    go (goes_on d') e (nears g' m) rec = rw (decode_loop, e) (rec d' g' (omega arith))

-- Whatever a packet holds, also where its pointers form a loop, decode_name ends: with -1, or with
-- a name that fits the buffer together with its NUL, and an end that is not past the packet's.
pub decode_name-Decodes :
    (pkt : ℕ → ℕ) (pkt_len offset out_max : ℕ)
    → 0 < out_max
    → Decodes pkt_len out_max (decode_name pkt pkt_len offset out_max)
unfolding decode_name
decode_name-Decodes pkt L offset M l =
    decode_loop-Decodes pkt L M (11 * (L + 2))
      (record { pos = offset; out = []; jumps = 0; end_pos = none })
      (record { out_fits = l; end_fits = omega arith; jumps_le = omega arith }) (omega arith)
