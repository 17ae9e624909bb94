-- ===== src/NetQueue/Fifo.antt =====
-- kernel/net_queue.cpp against a bounded FIFO of packets.
use mathlib.Core.List.{map-append}
use sabaka_os.Common.{
  ◌≢◌, length-slice, suc, sym, ◌⊎◌, ℕ, ◌-◌, ◌<◌, ◌≡◌, ◌↔◌, refl, ◌∙◌, ap, List, [], ◌∷◌, ◌++◌, map,
  Bool, true, false, ◌||◌, ltb, ◌==◌, if◌then◌else◌, arith, length, slice, update, Bool-cases, inl,
  inr,
}
use sabaka_os.Common.Ring.{window, ring_count, length-window, window-update, window_of_ne_zero}
use sabaka_os.KString.MemoryLaws.{slice-copy_into}
use sabaka_os.NetQueue.{
  net_queue_pkt_max, NetPacket, NetQueue, netq_init, next_slot, fill, netq_enqueue, netq_dequeue,
  netq_empty,
}

-- The bytes of a packet, which is what a reader sees of it.
abbrev pub payload : NetPacket → List ℕ
payload p = slice p.bytes 0 p.len

pub record IsValid (q : NetQueue) : Type 0 where
  pub head_in : q.head < 31
  pub tail_in : q.tail < 31

abbrev pub count : NetQueue → ℕ
count q = ring_count 31 q.head q.tail

-- The packets that wait, oldest first.
abbrev pub packets : NetQueue → List NetPacket
packets q = window q.slots 31 q.tail (count q)

abbrev pub contents : NetQueue → List (List ℕ)
contents q = map payload (packets q)

-- A FIFO that takes packets of 1 to 1536 bytes, and holds at most 30 of them.
pub fifo_push : List (List ℕ) → List ℕ → List (List ℕ) × Bool
fifo_push held p =
    if length p == 0 || ltb net_queue_pkt_max (length p)
    then (held, false)
    else if length held == 30
    then (held, false)
    else (held ++ (p ∷ []), true)

pub netq_init-IsValid : (q : NetQueue) → IsValid (netq_init q) × (contents (netq_init q) ≡ [])
unfolding netq_init
netq_init-IsValid q = (omega arith, refl)

pub netq_enqueue-IsValid :
    {q : NetQueue} (bytes : ℕ → ℕ) (len : ℕ) → IsValid q → IsValid (netq_enqueue q bytes len).0
unfolding netq_enqueue
netq_enqueue-IsValid bytes len v = ground arith

pub netq_dequeue-IsValid :
    {q : NetQueue} (out : NetPacket) → IsValid q → IsValid (netq_dequeue q out).0
unfolding netq_dequeue
netq_dequeue-IsValid out v = ground arith

length-map : (f : NetPacket → List ℕ) (ps : List NetPacket) → length (map f ps) ≡ length ps
length-map f [] = refl
length-map f (p ∷ ps) = ap suc (length-map f ps)

length-contents : (q : NetQueue) → length (contents q) ≡ count q
length-contents q = length-map payload (packets q) ∙ length-window q.slots 31 q.tail (count q)

payload-fill :
    (p : NetPacket) (bytes : ℕ → ℕ) (len : ℕ) → payload (fill p bytes len) ≡ slice bytes 0 len
payload-fill p bytes len = slice-copy_into p.bytes 0 bytes 0 len

-- The queue with one packet more.
abbrev pushed : NetQueue → (ℕ → ℕ) → ℕ → NetQueue
pushed q bytes len = record q {
  slots = update q.slots q.head (fill (q.slots q.head) bytes len);
  head = next_slot q.head;
}

contents-pushed :
    (q : NetQueue) (bytes : ℕ → ℕ) (len : ℕ)
    → IsValid q
    → (next_slot q.head == q.tail) ≡ false
    → contents (pushed q bytes len) ≡ contents q ++ (slice bytes 0 len ∷ [])
contents-pushed q bytes len v ne =
    let p = fill (q.slots q.head) bytes len in
    let more : count (pushed q bytes len) ≡ suc (count q) = ground arith in
    ap (λ k. map payload (window (update q.slots q.head p) 31 q.tail k)) more
    ∙ ap (map payload) (
        window-update q.slots 31 p (count q) q.tail q.head (omega arith) (ground arith)
          (ground arith))
    ∙ map-append payload (packets q) (p ∷ [])
    ∙ ap (λ b. contents q ++ (b ∷ [])) (payload-fill (q.slots q.head) bytes len)

-- `netq_enqueue` does to the waiting packets what the bounded FIFO does, with the same answer.
pub netq_enqueue_refines :
    {q : NetQueue} (bytes : ℕ → ℕ) (len : ℕ)
    → IsValid q
    → let (q', taken) = netq_enqueue q bytes len in
      (contents q', taken) ≡ fifo_push (contents q) (slice bytes 0 len)
unfolding netq_enqueue fifo_push
netq_enqueue_refines {q} bytes len v =
    ground (arith, length-slice bytes 0 len, length-contents q, contents-pushed q bytes len v)

-- `netq_dequeue` hands out the bytes of the oldest packet and keeps the others in order; of an
-- empty queue it hands out nothing and changes nothing.
pub netq_dequeue_refines :
    {q : NetQueue} (out : NetPacket)
    → IsValid q
    → let (q', p, taken) = netq_dequeue q out in
      ((taken ≡ true) × (contents q ≡ payload p ∷ contents q'))
      ⊎ ((taken ≡ false) × (contents q ≡ []) × (q' ≡ q) × (p ≡ out))
unfolding netq_dequeue
netq_dequeue_refines {q} out v = elim (Bool-cases (q.head == q.tail)) [
  | inl e ↦ inr (rw e, empty (ground arith), rw e, rw e)
  | inr ne ↦ rw ne (inl (refl, split (ground arith) (ground arith)))
]
  where
    empty : count q ≡ 0 → contents q ≡ []
    empty e = rw e

    split :
        count q ≢ 0
        → count (record q { tail = next_slot q.tail }) ≡ count q - 1
        → contents q
          ≡ payload (fill out (q.slots q.tail).bytes (q.slots q.tail).len)
            ∷ contents (record q { tail = next_slot q.tail })
    split ne less =
        rw (less, payload-fill out (q.slots q.tail).bytes (q.slots q.tail).len)
          (ap (map payload) (window_of_ne_zero q.slots 31 q.tail (count q) ne))

-- `netq_empty` says whether packets wait.
pub netq_empty_iff : {q : NetQueue} → IsValid q → (netq_empty q ≡ true) ↔ (contents q ≡ [])
unfolding netq_empty
netq_empty_iff {q} v = (
  λ e. let e' : count q ≡ 0 = ground arith in rw e',
  λ e. let z : count q ≡ 0 = sym (length-contents q) ∙ ap length e in ground arith,
)
