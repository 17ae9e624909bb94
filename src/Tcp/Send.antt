-- ===== src/Tcp/Send.antt =====
-- kernel/tcp.cpp, tcp_send_raw to tcp_tick: what a socket sends, and sends again. The headers of
-- the packet are its fields in `Segment`; checksums and the Ethernet address are not modelled.
use sabaka_os.Common.{
  ℕ, ◌+◌, ◌*◌, ◌^◌, ◌∷◌, Bool, true, false, ◌&&◌, not, ltb, leb, ◌==◌, if◌then◌else◌, update,
  for_range, slice,
}
use sabaka_os.Common.Words.{u8, u16, u32, add32}
use sabaka_os.KString.Memory.{copy_into}
use sabaka_os.Tcp.State.{
  TcpSocket, Segment, Link, Tcp, Env, has, flag_fin, flag_syn, flag_rst, flag_ack, is_time_wait,
  tcp_max_sockets, tcp_retx_buf, tcp_retx_timeout_ms, tcp_max_retx, zero_socket, free_sock, seq_gt,
}

abbrev pub segment : Link → TcpSocket → ℕ → (ℕ → ℕ) → ℕ → Segment
segment k s flags payload pay_len = record {
  ip_id = k.ip_id;
  dst_ip = s.remote_ip;
  src_port = s.local_port;
  dst_port = s.remote_port;
  seq = s.snd_nxt;
  ack_seq = if has flags flag_ack then s.rcv_nxt else 0;
  flags = flags;
  payload = slice payload 0 pay_len;
}

-- The sequence numbers that a segment takes.
abbrev pub advance : ℕ → ℕ → ℕ
advance flags pay_len =
    pay_len + (if has flags flag_syn then 1 else 0) + (if has flags flag_fin then 1 else 0)

-- What is kept to be sent again.
abbrev pub save_segment : Env → TcpSocket → ℕ → (ℕ → ℕ) → ℕ → TcpSocket
save_segment e s flags payload pay_len =
    let copy = if ltb pay_len tcp_retx_buf then pay_len else tcp_retx_buf in
    record s {
      retx_seq = s.snd_nxt;
      retx_flags = flags;
      retx_buf = copy_into s.retx_buf 0 payload 0 copy;
      retx_len = copy;
      retx_count = 0;
      retx_deadline = add32 e.now tcp_retx_timeout_ms;
    }

unfoldable pub after_send : Env → TcpSocket → ℕ → (ℕ → ℕ) → ℕ → Bool → TcpSocket
after_send e s flags payload pay_len save_retx =
    let s' =
      if save_retx && ltb 0 (advance flags pay_len)
      then save_segment e s flags payload pay_len
      else s in
    record s' { snd_nxt = add32 s.snd_nxt (advance flags pay_len) }

unfoldable pub tcp_send_raw :
    Env
    → Link
    → TcpSocket
    → (flags : ℕ) → (payload : ℕ → ℕ) → (pay_len : ℕ) → (save_retx : Bool) → Link × TcpSocket × Bool
tcp_send_raw e k s flags payload pay_len save_retx =
    let called = record k { calls = k.calls + 1 } in
    let built = record called { ip_id = u16 (k.ip_id + 1) } in
    if not (e.got_buffer k.calls)
    then (called, s, false)
    else if e.card_took k.calls
    then (
      record built { wire = segment k s flags payload pay_len ∷ k.wire },
      after_send e s flags payload pay_len save_retx,
      true,
    )
    else (built, s, false)

-- A null payload.
abbrev pub no_payload : ℕ → ℕ
no_payload i = 0

unfoldable pub tcp_send_ack : Env → Link → TcpSocket → Link × TcpSocket
tcp_send_ack e k s = let (k', s', ok) = tcp_send_raw e k s flag_ack no_payload 0 false in (k', s')

unfoldable pub tcp_send_rst_for : Env → Link → ℕ → ℕ → ℕ → ℕ → Link
tcp_send_rst_for e k dst_ip dst_port src_port seq =
    let tmp = record zero_socket {
      remote_ip = dst_ip;
      local_port = src_port;
      remote_port = dst_port;
      snd_nxt = seq;
    } in
    (tcp_send_raw e k tmp flag_rst no_payload 0 false).0

-- do_retransmit past its tests.
unfoldable pub send_again : Env → Link → TcpSocket → Link × TcpSocket
send_again e k s =
    let rewound = record s { snd_nxt = s.retx_seq } in
    let (k', s', ok) = tcp_send_raw e k rewound s.retx_flags s.retx_buf s.retx_len false in
    let next_to = u32 (tcp_retx_timeout_ms * 2 ^ s'.retx_count) in
    (k', record s' { retx_deadline = add32 e.now (if ltb 32000 next_to then 32000 else next_to) })

unfoldable pub do_retransmit : Env → Link → TcpSocket → Link × TcpSocket
do_retransmit e k s =
    let counted = record s { retx_count = u8 (s.retx_count + 1) } in
    if s.retx_len == 0 && not (has s.retx_flags (flag_syn + flag_fin))
    then (k, s)
    else if ltb tcp_max_retx counted.retx_count
    then (k, free_sock counted)
    else send_again e k counted

-- One round of the loop of tcp_tick.
unfoldable pub tick_sock : Env → Link → TcpSocket → Link × TcpSocket
tick_sock e k s =
    if not s.used
    then (k, s)
    else if is_time_wait s.state
    then (if leb s.timewait_deadline e.now then (k, free_sock s) else (k, s))
    else if not (s.retx_deadline == 0) && leb s.retx_deadline e.now
    then (if seq_gt s.snd_nxt s.snd_una
        then do_retransmit e k s
        else (k, record s { retx_deadline = 0 }))
    else (k, s)

unfoldable pub tcp_tick : Env → Tcp → Tcp
tcp_tick e t =
    for_range 0 tcp_max_sockets
      (λ i t'.
        let (k, s) = tick_sock e t'.link (t'.socks i) in
        record t' { socks = update t'.socks i s; link = k })
      t
