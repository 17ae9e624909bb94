-- ===== src/NetQueue.antt =====
-- kernel/net_queue.h and kernel/net_queue.cpp: the queue between the network card's interrupt and
-- `net_poll`. Only the consumer moves `tail` and only the producer moves `head`.
pub mod Fifo
mod Tests
use sabaka_os.Common.{
  ℕ, ◌+◌, ◌-◌, ◌%◌, List, Option, none, some, Bool, true, false, ◌||◌, ltb, ◌==◌, if◌then◌else◌,
  update,
}
use sabaka_os.KString.Memory.{copy_into}

abbrev pub net_queue_depth : ℕ
net_queue_depth = 32

abbrev pub net_queue_pkt_max : ℕ
net_queue_pkt_max = 1536

pub record NetPacket : Type 0 where
  pub bytes : ℕ → ℕ  -- data
  pub len : ℕ

pub record NetQueue : Type 0 where
  pub slots : ℕ → NetPacket
  pub head : ℕ
  pub tail : ℕ

unfoldable pub netq_init : NetQueue → NetQueue
netq_init q = record q { head = 0; tail = 0 }

-- `(i + 1) % (NET_QUEUE_DEPTH - 1)`
abbrev pub next_slot : ℕ → ℕ
next_slot i = (i + 1) % (net_queue_depth - 1)

-- The packet with `len` bytes of `bytes` copied over its own.
abbrev pub fill : NetPacket → (ℕ → ℕ) → ℕ → NetPacket
fill p bytes len = record { bytes = copy_into p.bytes 0 bytes 0 len; len = len }

unfoldable pub netq_enqueue : NetQueue → (ℕ → ℕ) → ℕ → NetQueue × Bool
netq_enqueue q bytes len =
    if len == 0 || ltb net_queue_pkt_max len
    then (q, false)
    else if next_slot q.head == q.tail
    then (q, false)
    else (
      record q {
        slots = update q.slots q.head (fill (q.slots q.head) bytes len);
        head = next_slot q.head;
      },
      true,
    )

-- `out` is the caller's packet, which the copy overwrites.
unfoldable pub netq_dequeue : NetQueue → NetPacket → NetQueue × NetPacket × Bool
netq_dequeue q out = if q.head == q.tail then (q, out, false) else (
  record q { tail = next_slot q.tail },
  fill out (q.slots q.tail).bytes (q.slots q.tail).len,
  true,
)

unfoldable pub netq_empty : NetQueue → Bool
netq_empty q = q.head == q.tail
