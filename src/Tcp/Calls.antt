-- ===== src/Tcp/Calls.antt =====
-- kernel/tcp.cpp, tcp_connect to tcp_state. `clock k` is the k-th reading of `pit_uptime_ms()` in
-- the call, and `others k` what interrupts do while the processor halts after it. A wait takes
-- fuel, and `none` says that it goes on.
use Prim.Native.Nat.{bit_xor}
use sabaka_os.Common.{
  ℕ, zero, suc, ◌+◌, ◌-◌, ◌*◌, List, [], Option, none, some, Bool, true, false, ◌||◌, not, ltb,
  ◌==◌, if◌then◌else◌, update,
}
use sabaka_os.Common.Int.{ℤ, pos, negsuc, minus_one}
use sabaka_os.Common.Words.{u32, add32, sub32, mul32}
use sabaka_os.Common.Ring.{get_loop}
use sabaka_os.Tcp.State.{
  TcpState, closed, syn_sent, fin_wait_1, close_wait, last_ack, time_wait, TcpSocket, Tcp, Env,
  is_closed, is_established, is_time_wait, tcp_max_sockets, tcp_recv_buf, tcp_mss,
  tcp_retx_timeout_ms, flag_fin, flag_syn, flag_psh, flag_ack, alloc_sock, free_sock,
  next_ephemeral,
}
use sabaka_os.Tcp.Send.{tcp_send_raw, no_payload}

-- `sock < 0 || sock >= TCP_MAX_SOCKETS`
abbrev pub sock_index : ℤ → Option ℕ
sock_index (negsuc k) = none
sock_index (pos i) = if ltb i tcp_max_sockets then some i else none

abbrev pub put_sock : Tcp → ℕ → TcpSocket → Tcp
put_sock t i s = record t { socks = update t.socks i s }

-- `while (pit_uptime_ms() < deadline) { if (stop) break; hlt }`: the sockets, the next reading of
-- the clock, and whether `stop` ended the loop.
unfoldable pub wait_loop :
    (clock : ℕ → ℕ) (others : ℕ → Tcp → Tcp) (i deadline : ℕ) (stop : TcpSocket → Bool)
    → (fuel k : ℕ) → Tcp
    → Option (Tcp × ℕ × Bool)
wait_loop clock others i deadline stop zero k t = none
wait_loop clock others i deadline stop (suc fuel) k t =
    let rest = wait_loop clock others i deadline stop fuel (k + 1) (others k t) in
    if ltb (clock k) deadline
    then (if stop (t.socks i) then some (t, k + 1, true) else rest)
    else some (t, k + 1, false)

-- Where tcp_connect ends.
abbrev pub connected : ℕ → Tcp → Tcp × ℤ
connected i t =
    if is_established (t.socks i).state
    then (t, pos i)
    else (put_sock t i (free_sock (t.socks i)), minus_one)

-- The initial sequence number.
abbrev pub initial_seq : ℕ → ℕ → ℕ
initial_seq now port = bit_xor (bit_xor (mul32 now 7919) (u32 (port * 65536))) 0xDEAD0000

unfoldable pub tcp_connect :
    Env
    → (clock : ℕ → ℕ) → (others : ℕ → Tcp → Tcp) → (fuel : ℕ) → Tcp
    → (dst_ip dst_port timeout_ms : ℕ) → Option (Tcp × ℤ)
tcp_connect e clock others fuel t dst_ip dst_port timeout_ms =
    let (socks', id) = alloc_sock t.socks in
    elim id [
      | negsuc j ↦ some (t, minus_one)
      | pos i ↦
          let (t1, port) = next_ephemeral (record t { socks = socks' }) in
          let iss = initial_seq (clock 0) port in
          let s = record (t1.socks i) {
            remote_ip = dst_ip;
            local_port = port;
            remote_port = dst_port;
            snd_nxt = iss;
            snd_una = iss;
            state = syn_sent;
          } in
          let (k, s', ok) = tcp_send_raw e t1.link s flag_syn no_payload 0 true in
          let t2 = record (put_sock t1 i s') { link = k } in
          let stop = λ (c : TcpSocket). is_established c.state || not c.used || is_closed c.state in
          if not ok
          then some (put_sock t2 i (free_sock s'), minus_one)
          else elim (wait_loop clock others i (add32 (clock 1) timeout_ms) stop fuel 2 t2) [
            | none ↦ none
            | some r ↦ some (connected i r.0)
          ]
    ]

-- `sent > 0 ? sent : -1`
abbrev pub sent_or_error : ℕ → ℤ
sent_or_error sent = if ltb 0 sent then pos sent else minus_one

-- The loop of tcp_send, on fuel for its chunks; each wait has `fuel`.
unfoldable pub send_loop :
    Env
    → (clock : ℕ → ℕ) → (others : ℕ → Tcp → Tcp) → (i : ℕ) → (bytes : ℕ → ℕ) → (len fuel : ℕ)
    → (chunks k : ℕ) → Tcp
    → (sent : ℕ) → Option (Tcp × ℤ)
send_loop e clock others i bytes len fuel zero k t sent = none
send_loop e clock others i bytes len fuel (suc chunks) k t sent =
    let chunk = if ltb tcp_mss (len - sent) then tcp_mss else len - sent in
    let (l, s, ok) =
      tcp_send_raw e t.link (t.socks i) (flag_ack + flag_psh) (λ j. bytes (sent + j)) chunk true in
    let t1 = record (put_sock t i s) { link = l } in
    let stop = λ (c : TcpSocket). c.snd_una == c.snd_nxt || not c.used in
    let waited : Option (Tcp × ℤ) =
      elim (wait_loop clock others i (add32 (clock k) (tcp_retx_timeout_ms * 3)) stop fuel (k + 1)
        t1) [
          | none ↦ none
          | some r ↦
              let (t2, k', stopped) = r in
              let rest = send_loop e clock others i bytes len fuel chunks k' t2 (sent + chunk) in
              let acked = (t2.socks i).snd_una == (t2.socks i).snd_nxt in
              if stopped
              then (if acked then rest else some (t2, sent_or_error (sent + chunk)))
              else rest
        ] in
    if not (ltb sent len)
    then some (t, pos sent)
    else if not ok
    then some (t1, sent_or_error sent)
    else waited

unfoldable pub tcp_send :
    Env
    → (clock : ℕ → ℕ) → (others : ℕ → Tcp → Tcp) → (fuel chunks : ℕ) → Tcp
    → ℤ
    → (ℕ → ℕ)
    → ℕ
    → Option (Tcp × ℤ)
tcp_send e clock others fuel chunks t sock bytes len = elim (sock_index sock) [
  | none ↦ some (t, minus_one)
  | some i ↦
      if not (t.socks i).used || not (is_established (t.socks i).state)
      then some (t, minus_one)
      else send_loop e clock others i bytes len fuel chunks 0 t 0
]

-- `s->recv_len < maxlen ? s->recv_len : maxlen`
abbrev pub readable : TcpSocket → ℕ → ℕ
readable s maxlen = if ltb s.recv_len maxlen then s.recv_len else maxlen

-- tcp_recv past its tests: the bytes go to the caller's buffer.
unfoldable pub take_bytes : TcpSocket → ℕ → TcpSocket × List ℕ
take_bytes s maxlen =
    let n = readable s maxlen in
    let (out, tail') = get_loop tcp_recv_buf s.recv_buf s.recv_tail n in
    (record s { recv_tail = tail'; recv_len = sub32 s.recv_len n }, out)

unfoldable pub tcp_recv : Tcp → ℤ → ℕ → Tcp × List ℕ × ℤ
tcp_recv t sock maxlen = elim (sock_index sock) [
  | none ↦ (t, [], minus_one)
  | some i ↦
      let (s, out) = take_bytes (t.socks i) maxlen in
      if not (t.socks i).used
      then (t, [], minus_one)
      else if (t.socks i).recv_len == 0
      then (t, [], pos 0)
      else (put_sock t i s, out, pos (readable (t.socks i) maxlen))
]

-- The states in which tcp_recv_wait does not wait for more.
abbrev pub no_more : TcpState → Bool
no_more close_wait = true
no_more last_ack = true
no_more closed = true
no_more time_wait = true
no_more _ = false

unfoldable pub tcp_recv_wait :
    (clock : ℕ → ℕ)
    → (others : ℕ → Tcp → Tcp) → (fuel : ℕ) → Tcp
    → ℤ
    → (maxlen timeout_ms : ℕ) → Option (Tcp × List ℕ × ℤ)
tcp_recv_wait clock others fuel t sock maxlen timeout_ms = elim (sock_index sock) [
  | none ↦ some (t, [], minus_one)
  | some i ↦
      let stop = λ (c : TcpSocket). ltb 0 c.recv_len || not c.used || no_more c.state in
      let waited : Option (Tcp × List ℕ × ℤ) =
        elim (wait_loop clock others i (add32 (clock 0) timeout_ms) stop fuel 1 t) [
          | none ↦ none
          | some r ↦ some (tcp_recv r.0 sock maxlen)
        ] in
      if not (t.socks i).used then some (t, [], minus_one) else waited
]

-- `if (s->state != TCP_TIME_WAIT) free_sock(s);`
abbrev pub free_unless_waiting : Tcp → ℕ → Tcp
free_unless_waiting t i =
    if is_time_wait (t.socks i).state then t else put_sock t i (free_sock (t.socks i))

unfoldable pub tcp_close :
    Env → (clock : ℕ → ℕ) → (others : ℕ → Tcp → Tcp) → (fuel : ℕ) → Tcp → ℤ → Option Tcp
tcp_close e clock others fuel t sock = elim (sock_index sock) [
  | none ↦ some t
  | some i ↦
      let (k, s, ok) =
        tcp_send_raw e t.link (record (t.socks i) { state = fin_wait_1 }) (flag_fin + flag_ack)
          no_payload 0 true in
      let t1 = record (put_sock t i s) { link = k } in
      let stop = λ (c : TcpSocket). not c.used || is_time_wait c.state || is_closed c.state in
      let waited : Option Tcp =
        elim (wait_loop clock others i (add32 (clock 0) 4000) stop fuel 1 t1) [
          | none ↦ none
          | some r ↦ some (free_unless_waiting r.0 i)
        ] in
      if not (t.socks i).used
      then some t
      else if is_established (t.socks i).state
      then waited
      else some (free_unless_waiting t i)
]

unfoldable pub tcp_state : Tcp → ℤ → TcpState
tcp_state t sock = elim (sock_index sock) [
  | none ↦ closed
  | some i ↦ if not (t.socks i).used then closed else (t.socks i).state
]
