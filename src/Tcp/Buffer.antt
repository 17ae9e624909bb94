-- ===== src/Tcp/Buffer.antt =====
-- kernel/tcp.cpp: the receive buffer of a socket as a queue of bytes.
use sabaka_os.Common.{
  ℕ, ◌+◌, ◌-◌, ◌%◌, ◌≤◌, ◌<◌, ◌≡◌, refl, ◌∙◌, List, ◌++◌, ltb, if◌then◌else◌, arith, length, slice,
}
use sabaka_os.Common.Int.{ℤ, pos}
use sabaka_os.Common.Ring.{window, window-put_loop, put_loop_pos, step_mod_add}
use sabaka_os.Tcp.State.{TcpSocket, Tcp}
use sabaka_os.Tcp.Receive.{Incoming, copy_size, take_payload}
use sabaka_os.Tcp.Calls.{readable}

pub record IsValid (s : TcpSocket) : Type 0 where
  pub tail_in : s.recv_tail < 8192
  pub len_in : s.recv_len ≤ 8192
  pub head_at : s.recv_head ≡ (s.recv_tail + s.recv_len) % 8192

-- The bytes that came and were not read yet, oldest first.
abbrev pub contents : TcpSocket → List ℕ
contents s = window s.recv_buf 8192 s.recv_tail s.recv_len

-- What a payload has done: its first bytes, as many as find room, stand behind those that wait,
-- and are acknowledged.
pub record Stored (s : TcpSocket) (p : Incoming) (s' : TcpSocket) : Type 0 where
  pub valid : IsValid s'
  pub added : contents s' ≡ contents s ++ slice p.payload 0 (copy_size s p)
  pub acknowledged : s'.rcv_nxt ≡ (s.rcv_nxt + copy_size s p) % 4294967296
  pub size :
      copy_size s p ≡ (if ltb p.pay_len (8192 - s.recv_len) then p.pay_len else 8192 - s.recv_len)

-- A payload is stored as far as the receive buffer has room, behind the bytes that wait in it, and
-- the number of bytes stored is the number acknowledged.
pub take_payload-Stored : {s : TcpSocket} (p : Incoming) → IsValid s → Stored s p (take_payload s p)
unfolding take_payload
take_payload-Stored {s} p v =
    let size : copy_size s p
        ≡ (if ltb p.pay_len (8192 - s.recv_len) then p.pay_len else 8192 - s.recv_len) =
      ground (arith, v.len_in) in
    let room : s.recv_len + copy_size s p ≤ 8192 = ground (arith, v.len_in) in
    let n = copy_size s p in
    let c : (s.recv_len + n) % 4294967296 ≡ s.recv_len + n = omega arith in
    record {
      valid = record {
        tail_in = v.tail_in;
        len_in = omega arith;
        head_at =
            put_loop_pos 8192 s.recv_buf s.recv_head p.payload 0 n (omega (arith, v.head_at))
            ∙ rw (c, v.head_at) (step_mod_add 8192 s.recv_tail s.recv_len n);
      };
      added = rw c (
          window-put_loop 8192 s.recv_buf s.recv_tail s.recv_len s.recv_head p.payload 0 n v.tail_in
            room v.head_at);
      acknowledged = refl;
      size = size;
    }

-- What a read of a socket has done: `out` are the oldest bytes, as many as wait up to `maxlen`,
-- and the rest waits on in order.
pub record Took (t : Tcp) (i maxlen : ℕ) (r : Tcp × List ℕ × ℤ) : Type 0 where
  pub oldest : contents (t.socks i) ≡ r.1 ++ contents (r.0.socks i)
  pub number : length r.1 ≡ readable (t.socks i) maxlen
  pub returned : r.2 ≡ pos (length r.1)
  pub valid : IsValid (r.0.socks i)
