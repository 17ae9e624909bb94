-- ===== src/UdpListen/Fifo.antt =====
-- kernel/udp_listen.cpp: one listener against a bounded FIFO of datagrams.
use sabaka_os.Common.Bits.{bit_and_fifteen}
use sabaka_os.Common.{
  ◌≢◌, ℕ, suc, ◌+◌, ◌-◌, ◌%◌, ◌<◌, ◌≡◌, ◌⊎◌, refl, ◌∙◌, ap, List, [], ◌∷◌, ◌++◌, map, true, false,
  ltb, ◌==◌, if◌then◌else◌, arith, length, slice, update, Bool-cases, inl, inr, none, some,
}
use mathlib.Core.List.{map-append}
use sabaka_os.Common.Ring.{window, ring_count, length-window, window-update, window_of_ne_zero}
use sabaka_os.KString.MemoryLaws.{slice-copy_into}
use sabaka_os.UdpListen.{
  udpl_pkt_max, UdpPacket, UdpListener, next_slot, receive_into, make_callback, recv_from,
}

-- What a reader sees of a datagram: sender, port and bytes.
pub record Datagram : Type 0 where
  pub src_ip : ℕ
  pub src_port : ℕ
  pub payload : List ℕ

abbrev pub view : UdpPacket → Datagram
view p = record { src_ip = p.src_ip; src_port = p.src_port; payload = slice p.bytes 0 p.len }

pub record IsValid (l : UdpListener) : Type 0 where
  pub head_in : l.head < 16
  pub tail_in : l.tail < 16

abbrev pub count : UdpListener → ℕ
count l = ring_count 16 l.head l.tail

abbrev pub packets : UdpListener → List UdpPacket
packets l = window l.slots 16 l.tail (count l)

-- The datagrams that wait, oldest first.
abbrev pub contents : UdpListener → List Datagram
contents l = map view (packets l)

-- A FIFO that holds at most 15 datagrams, and drops those that come while it is full.
pub fifo_push : List Datagram → Datagram → List Datagram
fifo_push held p = if length held == 15 then held else held ++ (p ∷ [])

next_slot_mod : (i : ℕ) → i < 16 → next_slot i ≡ (i + 1) % 16
next_slot_mod i l = bit_and_fifteen (i + 1) (omega arith)

make_callback-IsValid :
    {l : UdpListener} (src_ip src_port : ℕ) (bytes : ℕ → ℕ) (len : ℕ)
    → IsValid l
    → IsValid (make_callback l src_ip src_port bytes len)
unfolding make_callback
make_callback-IsValid {l} src_ip src_port bytes len v =
    ground (arith, next_slot_mod l.head v.head_in)

recv_from-IsValid : {l : UdpListener} → IsValid l → IsValid (recv_from l).0
unfolding recv_from
recv_from-IsValid {l} v = ground (arith, next_slot_mod l.tail v.tail_in)

length-map : (ps : List UdpPacket) → length (map view ps) ≡ length ps
length-map [] = refl
length-map (p ∷ ps) = ap suc (length-map ps)

length-contents : (l : UdpListener) → length (contents l) ≡ count l
length-contents l = length-map (packets l) ∙ length-window l.slots 16 l.tail (count l)

-- The datagram cut off at 512 bytes.
abbrev pub clipped : ℕ → ℕ → (ℕ → ℕ) → ℕ → Datagram
clipped src_ip src_port bytes len = record {
  src_ip = src_ip;
  src_port = src_port;
  payload = slice bytes 0 (if ltb len udpl_pkt_max then len else udpl_pkt_max);
}

view-receive_into :
    (p : UdpPacket) (src_ip src_port : ℕ) (bytes : ℕ → ℕ) (len : ℕ)
    → view (receive_into p src_ip src_port bytes len) ≡ clipped src_ip src_port bytes len
view-receive_into p src_ip src_port bytes len =
    ap (λ b. record { src_ip = src_ip; src_port = src_port; payload = b })
      (slice-copy_into p.bytes 0 bytes 0 (if ltb len udpl_pkt_max then len else udpl_pkt_max))

abbrev pushed : UdpListener → UdpPacket → UdpListener
pushed l p = record l { slots = update l.slots l.head p; head = next_slot l.head }

contents-pushed :
    (l : UdpListener) (p : UdpPacket)
    → IsValid l
    → (next_slot l.head == l.tail) ≡ false
    → contents (pushed l p) ≡ contents l ++ (view p ∷ [])
contents-pushed l p v ne =
    let more : count (pushed l p) ≡ suc (count l) =
      ground (arith, next_slot_mod l.head v.head_in) in
    ap (λ k. map view (window (update l.slots l.head p) 16 l.tail k)) more
    ∙ ap (map view) (
        window-update l.slots 16 p (count l) l.tail l.head (omega arith)
          (ground (arith, next_slot_mod l.head v.head_in)) (ground arith))
    ∙ map-append view (packets l) (p ∷ [])

-- A datagram that comes to an open listener goes behind those that wait, cut off at 512 bytes, or
-- is dropped where 15 wait already. A listener that is not open ignores it. Either way the
-- indices stay in range.
pub make_callback_refines :
    {l : UdpListener} (src_ip src_port : ℕ) (bytes : ℕ → ℕ) (len : ℕ)
    → IsValid l
    → let l' = make_callback l src_ip src_port bytes len in
      (contents l' ≡ (
        if l.used then fifo_push (contents l) (clipped src_ip src_port bytes len) else contents l))
      × IsValid l'
unfolding make_callback fifo_push
make_callback_refines {l} src_ip src_port bytes len v = (
  ground (
    arith,
    next_slot_mod l.head v.head_in,
    length-contents l,
    contents-pushed l (receive_into (l.slots l.head) src_ip src_port bytes len) v,
    view-receive_into (l.slots l.head) src_ip src_port bytes len,
  ),
  make_callback-IsValid src_ip src_port bytes len v,
)

-- `udpl_recv` on an open listener takes the oldest datagram and leaves the rest in order; it
-- returns nothing, and changes nothing, exactly where the listener is not open or nothing waits.
pub recv_from_refines :
    {l : UdpListener}
    → IsValid l
    → let (l', got) = recv_from l in
      ((p : UdpPacket) × (got ≡ some p)
        × (l.used ≡ true)
        × (contents l ≡ view p ∷ contents l')
        × IsValid l')
      ⊎ ((got ≡ none) × (l' ≡ l) × ((l.used ≡ false) ⊎ (contents l ≡ [])))
unfolding recv_from
recv_from_refines {l} v = elim (Bool-cases l.used) [
  | inr closed ↦ inr (ground arith, ground arith, inl closed)
  | inl is_open ↦ elim (Bool-cases (l.head == l.tail)) [
    | inl e ↦ inr (ground arith, ground arith, inr (empty (ground arith)))
    | inr ne ↦ inl (
      l.slots l.tail,
      ground arith,
      is_open,
      rw (is_open, ne) (split (ground arith) (ground (arith, next_slot_mod l.tail v.tail_in))),
      recv_from-IsValid v,
    )
  ]
]
  where
    empty : count l ≡ 0 → contents l ≡ []
    empty e = rw e

    split :
        count l ≢ 0
        → (next_slot l.tail ≡ (l.tail + 1) % 16)
          × (count (record l { tail = next_slot l.tail }) ≡ count l - 1)
        → contents l ≡ view (l.slots l.tail) ∷ contents (record l { tail = next_slot l.tail })
    split ne less =
        rw less.1 (rw less.0 (ap (map view) (window_of_ne_zero l.slots 16 l.tail (count l) ne)))
