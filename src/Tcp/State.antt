-- ===== src/Tcp/State.antt =====
-- kernel/tcp.h and kernel/tcp.cpp, up to next_ephemeral: the sockets and their table.
use Prim.Native.Nat.{bit_and}
use sabaka_os.Common.{
  ℕ, zero, suc, ◌+◌, none, some, List, Bool, true, false, ◌&&◌, not, ltb, leb, ◌==◌, if◌then◌else◌,
  update, find_index, for_range,
}
use sabaka_os.Common.Int.{ℤ, pos, minus_one}
use sabaka_os.Common.Words.{u16, sub32}

pub data TcpState : Type 0 where
  closed syn_sent established fin_wait_1 fin_wait_2 close_wait last_ack time_wait : TcpState

abbrev pub is_closed : TcpState → Bool
is_closed closed = true
is_closed _ = false

abbrev pub is_established : TcpState → Bool
is_established established = true
is_established _ = false

abbrev pub is_time_wait : TcpState → Bool
is_time_wait time_wait = true
is_time_wait _ = false

-- The bits of the flags byte.
abbrev pub flag_fin : ℕ
flag_fin = 0x01

abbrev pub flag_syn : ℕ
flag_syn = 0x02

abbrev pub flag_rst : ℕ
flag_rst = 0x04

abbrev pub flag_psh : ℕ
flag_psh = 0x08

abbrev pub flag_ack : ℕ
flag_ack = 0x10

abbrev pub tcp_max_sockets : ℕ
tcp_max_sockets = 8

abbrev pub tcp_recv_buf : ℕ
tcp_recv_buf = 8192

abbrev pub tcp_retx_buf : ℕ
tcp_retx_buf = 2048

abbrev pub tcp_mss : ℕ
tcp_mss = 1460

abbrev pub tcp_retx_timeout_ms : ℕ
tcp_retx_timeout_ms = 1000

abbrev pub tcp_max_retx : ℕ
tcp_max_retx = 6

abbrev pub tcp_timewait_ms : ℕ
tcp_timewait_ms = 4000

-- `flags & bit`
abbrev pub has : ℕ → ℕ → Bool
has flags bit = not (bit_and flags bit == 0)

pub record TcpSocket : Type 0 where
  pub state : TcpState
  pub retx_count : ℕ
  pub local_port : ℕ
  pub remote_port : ℕ
  pub remote_ip : ℕ
  pub snd_nxt : ℕ
  pub snd_una : ℕ
  pub rcv_nxt : ℕ
  pub retx_buf : ℕ → ℕ
  pub retx_len : ℕ
  pub retx_flags : ℕ
  pub retx_seq : ℕ
  pub retx_deadline : ℕ
  pub recv_buf : ℕ → ℕ
  pub recv_head : ℕ
  pub recv_tail : ℕ
  pub recv_len : ℕ
  pub timewait_deadline : ℕ
  pub used : Bool

abbrev pub Sockets : Type 0
Sockets = ℕ → TcpSocket

-- What was given to the card, newest first, as the fields that tcp_send_raw fills in. `calls`
-- counts the calls of tcp_send_raw.
pub record Segment : Type 0 where
  pub ip_id : ℕ
  pub dst_ip : ℕ
  pub src_port : ℕ
  pub dst_port : ℕ
  pub seq : ℕ
  pub ack_seq : ℕ
  pub flags : ℕ
  pub payload : List ℕ

pub record Link : Type 0 where
  pub ip_id : ℕ
  pub wire : List Segment
  pub calls : ℕ

-- `s_socks`, `s_next_port`, and the link.
pub record Tcp : Type 0 where
  pub socks : Sockets
  pub next_port : ℕ
  pub link : Link

-- Whether `kmalloc` gives a buffer to the k-th call of tcp_send_raw and whether the card takes its
-- packet, and `pit_uptime_ms()`.
pub record Env : Type 0 where
  pub got_buffer : ℕ → Bool
  pub card_took : ℕ → Bool
  pub now : ℕ

-- `(int32_t)(a - b) > 0`
unfoldable pub seq_gt : ℕ → ℕ → Bool
seq_gt a b = ltb 0 (sub32 a b) && ltb (sub32 a b) 2147483648

-- `(int32_t)(a - b) >= 0`
unfoldable pub seq_gte : ℕ → ℕ → Bool
seq_gte a b = ltb (sub32 a b) 2147483648

-- A socket of zero bytes.
abbrev pub zero_socket : TcpSocket
zero_socket = record {
  state = closed;
  retx_count = 0;
  local_port = 0;
  remote_port = 0;
  remote_ip = 0;
  snd_nxt = 0;
  snd_una = 0;
  rcv_nxt = 0;
  retx_buf = λ i. 0;
  retx_len = 0;
  retx_flags = 0;
  retx_seq = 0;
  retx_deadline = 0;
  recv_buf = λ i. 0;
  recv_head = 0;
  recv_tail = 0;
  recv_len = 0;
  timewait_deadline = 0;
  used = false;
}

unfoldable pub tcp_init : Sockets → Sockets
tcp_init socks = for_range 0 tcp_max_sockets (λ i socks'. update socks' i zero_socket) socks

unfoldable pub alloc_sock : Sockets → Sockets × ℤ
alloc_sock socks = elim (find_index (λ i. not (socks i).used) 0 tcp_max_sockets) [
  | none ↦ (socks, minus_one)
  | some i ↦ (update socks i (record zero_socket { used = true }), pos i)
]

unfoldable pub free_sock : TcpSocket → TcpSocket
free_sock s = record s { state = closed; used = false }

-- Whether a socket in use has the port.
unfoldable pub port_used : Sockets → ℕ → Bool
port_used socks p =
    elim (find_index (λ i. (socks i).used && (socks i).local_port == p) 0 tcp_max_sockets) [
      | none ↦ false
      | some i ↦ true
    ]

-- The rounds of next_ephemeral that are left, from `s_next_port`: the next port, and the result.
unfoldable pub ephemeral_loop : Sockets → ℕ → ℕ → ℕ × ℕ
ephemeral_loop socks zero port = (u16 (port + 1), port)
ephemeral_loop socks (suc tries) port =
    let next = if leb 65535 port then 49152 else port + 1 in
    let rest = ephemeral_loop socks tries next in
    if port_used socks port then rest else (next, port)

unfoldable pub next_ephemeral : Tcp → Tcp × ℕ
next_ephemeral t =
    let (next, port) = ephemeral_loop t.socks 16384 t.next_port in
    (record t { next_port = next }, port)
