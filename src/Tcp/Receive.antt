-- ===== src/Tcp/Receive.antt =====
-- kernel/tcp.cpp, tcp_receive.
use sabaka_os.Common.{
  ℕ, ◌+◌, ◌-◌, ◌*◌, ◌/◌, none, some, Bool, true, ◌&&◌, ◌||◌, not, ltb, ◌==◌, if◌then◌else◌, update,
  find_index,
}
use sabaka_os.Common.Words.{u8, u16, add32, sub32}
use sabaka_os.Common.Ring.{put_loop}
use sabaka_os.Tcp.State.{
  TcpState, closed, syn_sent, established, fin_wait_1, fin_wait_2, close_wait, last_ack, time_wait,
  TcpSocket, Link, Tcp, Env, has, flag_fin, flag_syn, flag_rst, flag_ack, is_closed,
  tcp_max_sockets, tcp_recv_buf, tcp_timewait_ms, free_sock, seq_gt, seq_gte,
}
use sabaka_os.Tcp.Send.{tcp_send_raw, tcp_send_ack, tcp_send_rst_for, no_payload}

-- What tcp_receive reads from the header, in the order of the host.
pub record Incoming : Type 0 where
  pub src_ip : ℕ
  pub src_port : ℕ
  pub dst_port : ℕ
  pub seg_seq : ℕ
  pub seg_ack : ℕ
  pub flags : ℕ
  pub payload : ℕ → ℕ
  pub pay_len : ℕ

-- `ntohs` and `ntohl` of the bytes from index `i` on.
abbrev pub be16 : (ℕ → ℕ) → ℕ → ℕ
be16 seg i = seg i * 256 + seg (i + 1)

abbrev pub be32 : (ℕ → ℕ) → ℕ → ℕ
be32 seg i = be16 seg i * 65536 + be16 seg (i + 2)

-- `(hdr->data_off >> 4) * 4`
abbrev pub hdr_bytes : (ℕ → ℕ) → ℕ
hdr_bytes seg = u8 (seg 12 / 16 * 4)

abbrev pub parse : ℕ → (ℕ → ℕ) → ℕ → Incoming
parse src_ip seg len = record {
  src_ip = src_ip;
  src_port = be16 seg 0;
  dst_port = be16 seg 2;
  seg_seq = be32 seg 4;
  seg_ack = be32 seg 8;
  flags = seg 13;
  payload = λ i. seg (hdr_bytes seg + i);
  pay_len = len - hdr_bytes seg;
}

-- Whether the segment is for the socket.
abbrev pub is_for : Incoming → TcpSocket → Bool
is_for p c =
    c.used
    && not (is_closed c.state)
    && (c.remote_ip == p.src_ip && (c.remote_port == p.src_port && c.local_port == p.dst_port))

-- The part before the `switch`, for a segment with an acknowledgement.
unfoldable pub take_ack : TcpSocket → Incoming → TcpSocket
take_ack s p =
    if has p.flags flag_ack && (seq_gt p.seg_ack s.snd_una && seq_gte s.snd_nxt p.seg_ack)
    then (if p.seg_ack == s.snd_nxt
        then record s { snd_una = p.seg_ack; retx_deadline = 0; retx_len = 0; retx_count = 0 }
        else record s { snd_una = p.seg_ack })
    else s

-- The bytes of the payload that find room.
abbrev pub copy_size : TcpSocket → Incoming → ℕ
copy_size s p = u16 (
    if ltb p.pay_len (sub32 tcp_recv_buf s.recv_len)
    then p.pay_len
    else sub32 tcp_recv_buf s.recv_len)

-- `pay_len > 0 && seg_seq == s->rcv_nxt`
abbrev pub in_order : TcpSocket → Incoming → Bool
in_order s p = ltb 0 p.pay_len && p.seg_seq == s.rcv_nxt

-- The payload goes to the receive buffer.
unfoldable pub take_payload : TcpSocket → Incoming → TcpSocket
take_payload s p =
    let n = copy_size s p in
    let (buf', head') = put_loop tcp_recv_buf s.recv_buf s.recv_head p.payload 0 n in
    record s {
      recv_buf = buf';
      recv_head = head';
      recv_len = add32 s.recv_len n;
      rcv_nxt = add32 s.rcv_nxt n;
    }

-- `s->rcv_nxt++; tcp_send_ack(s);`
unfoldable pub take_fin : Env → Link → TcpSocket → Link × TcpSocket
take_fin e k s = tcp_send_ack e k (record s { rcv_nxt = add32 s.rcv_nxt 1 })

abbrev pub to_time_wait : Env → Link → TcpSocket → Link × TcpSocket
to_time_wait e k s =
    let (k', s') = take_fin e k s in
    (k', record s' { state = time_wait; timewait_deadline = add32 e.now tcp_timewait_ms })

unfoldable pub in_syn_sent : Env → Link → TcpSocket → Incoming → Link × TcpSocket
in_syn_sent e k s p =
    if has p.flags flag_syn && has p.flags flag_ack
    then (if not (p.seg_ack == s.snd_nxt)
        then (tcp_send_rst_for e k p.src_ip p.src_port p.dst_port p.seg_ack, free_sock s)
        else tcp_send_ack e k (record s {
          rcv_nxt = add32 p.seg_seq 1;
          snd_una = p.seg_ack;
          state = established;
          retx_deadline = 0;
        }))
    else (k, s)

-- The FIN of the peer on an established connection.
unfoldable pub close_from_peer : Env → Link → TcpSocket → Link × TcpSocket
close_from_peer e k s =
    let (k', s') = take_fin e k s in
    let (k'', s'', ok) =
      tcp_send_raw e k' (record s' { state = last_ack }) (flag_fin + flag_ack) no_payload 0 true in
    (k'', s'')

unfoldable pub in_established : Env → Link → TcpSocket → Incoming → Link × TcpSocket
in_established e k s p =
    let (k', s') = if in_order s p then tcp_send_ack e k (take_payload s p) else (k, s) in
    if has p.flags flag_fin then close_from_peer e k' s' else (k', s')

unfoldable pub in_fin_wait_1 : Env → Link → TcpSocket → Incoming → Link × TcpSocket
in_fin_wait_1 e k s p =
    let s' = if has p.flags flag_ack then record s { state = fin_wait_2 } else s in
    if has p.flags flag_fin then to_time_wait e k s' else (k, s')

unfoldable pub in_fin_wait_2 : Env → Link → TcpSocket → Incoming → Link × TcpSocket
in_fin_wait_2 e k s p =
    let s' = if in_order s p then take_payload s p else s in
    if has p.flags flag_fin then to_time_wait e k s' else (k, s')

unfoldable pub in_time_wait : Env → Link → TcpSocket → Incoming → Link × TcpSocket
in_time_wait e k s p =
    let (k', s') = take_fin e k s in
    if has p.flags flag_fin
    then (k', record s' { timewait_deadline = add32 e.now tcp_timewait_ms })
    else (k, s)

-- The `switch`.
unfoldable pub dispatch : TcpState → Env → Link → TcpSocket → Incoming → Link × TcpSocket
dispatch syn_sent e k s p = in_syn_sent e k s p
dispatch established e k s p = in_established e k s p
dispatch fin_wait_1 e k s p = in_fin_wait_1 e k s p
dispatch fin_wait_2 e k s p = in_fin_wait_2 e k s p
dispatch last_ack e k s p = if has p.flags flag_ack then (k, free_sock s) else (k, s)
dispatch time_wait e k s p = in_time_wait e k s p
dispatch closed e k s p = (k, s)
dispatch close_wait e k s p = (k, s)

-- From the test for RST on.
unfoldable pub receive_on : Env → Link → TcpSocket → Incoming → Link × TcpSocket
receive_on e k s p =
    if has p.flags flag_rst
    then (k, free_sock s)
    else dispatch (take_ack s p).state e k (take_ack s p) p

unfoldable pub deliver_segment : Env → Tcp → Incoming → Tcp
deliver_segment e t p = elim (find_index (λ i. is_for p (t.socks i)) 0 tcp_max_sockets) [
  | none ↦
      if has p.flags flag_rst
      then t
      else record t { link = tcp_send_rst_for e t.link p.src_ip p.src_port p.dst_port p.seg_ack }
  | some i ↦
      let (k, s) = receive_on e t.link (t.socks i) p in
      record t { socks = update t.socks i s; link = k }
]

unfoldable pub tcp_receive : Env → Tcp → ℕ → (ℕ → ℕ) → ℕ → Tcp
tcp_receive e t src_ip seg len =
    if ltb len 20
    then t
    else if ltb (hdr_bytes seg) 20 || ltb len (hdr_bytes seg)
    then t
    else deliver_segment e t (parse src_ip seg len)
