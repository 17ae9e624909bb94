-- ===== src/Tcp/Received.antt =====
-- kernel/tcp.cpp: that segments, however they come, leave the receive buffer of each socket in a
-- good state.
use sabaka_os.Common.{
  ℕ, ◌≡◌, inl, inr, refl, sym, ◌∙◌, Bool, true, false, not, ◌==◌, ◌||◌, ltb, if◌then◌else◌, arith,
  subst, Option-cases, find_index,
}
use sabaka_os.Tcp.State.{
  TcpState, closed, syn_sent, established, fin_wait_1, fin_wait_2, close_wait, last_ack, time_wait,
  TcpSocket, Link, Tcp, Env, has, flag_fin, flag_rst, tcp_max_sockets, free_sock,
}
use sabaka_os.Tcp.Send.{after_send, tcp_send_raw, tcp_send_ack}
use sabaka_os.Tcp.Receive.{
  Incoming, is_for, in_order, take_ack, take_payload, take_fin, in_syn_sent, close_from_peer,
  in_established, in_fin_wait_1, in_fin_wait_2, in_time_wait, dispatch, receive_on, deliver_segment,
  parse, hdr_bytes, tcp_receive,
}
use sabaka_os.Tcp.Machine.{somebody, nobody}
use sabaka_os.Tcp.Buffer.{IsValid, take_payload-Stored}

-- The receive buffer and its indices are as they were.
record Same (s s' : TcpSocket) : Type 0 where
  tail : s'.recv_tail ≡ s.recv_tail
  size : s'.recv_len ≡ s.recv_len
  head : s'.recv_head ≡ s.recv_head

Same-IsValid : {s s' : TcpSocket} → Same s s' → IsValid s → IsValid s'
Same-IsValid e v = record {
  tail_in = omega (arith, e.tail, v.tail_in);
  len_in = omega (arith, e.size, v.len_in);
  head_at = e.head ∙ v.head_at ∙ sym (rw (e.tail, e.size) refl);
}

tcp_send_raw-IsValid :
    (e : Env) (k : Link) (s : TcpSocket) (flags : ℕ) (payload : ℕ → ℕ) (pay_len : ℕ) (save : Bool)
    → IsValid s
    → IsValid (tcp_send_raw e k s flags payload pay_len save).1
unfolding tcp_send_raw after_send
tcp_send_raw-IsValid e k s flags payload pay_len save v =
    Same-IsValid (record { tail = ground arith; size = ground arith; head = ground arith }) v

take_ack-IsValid : (s : TcpSocket) (p : Incoming) → IsValid s → IsValid (take_ack s p)
unfolding take_ack
take_ack-IsValid s p v =
    Same-IsValid (record { tail = ground arith; size = ground arith; head = ground arith }) v

tcp_send_ack-IsValid :
    (e : Env) (k : Link) (s : TcpSocket) → IsValid s → IsValid (tcp_send_ack e k s).1
unfolding tcp_send_ack
tcp_send_ack-IsValid e k s v = tcp_send_raw-IsValid e k s _ _ 0 false v

-- A change of the state, of the sequence numbers or of the deadlines.
other_fields : (s s' : TcpSocket) → Same s s' → IsValid s → IsValid s'
other_fields s s' e v = Same-IsValid e v

take_fin-IsValid : (e : Env) (k : Link) (s : TcpSocket) → IsValid s → IsValid (take_fin e k s).1
unfolding take_fin
take_fin-IsValid e k s v =
    tcp_send_ack-IsValid e k _
      (other_fields s _ (record { tail = refl; size = refl; head = refl }) v)

close_from_peer-IsValid :
    (e : Env) (k : Link) (s : TcpSocket) → IsValid s → IsValid (close_from_peer e k s).1
unfolding close_from_peer
close_from_peer-IsValid e k s v = tcp_send_raw-IsValid e _ _ _ _ 0 true (
    other_fields (take_fin e k s).1 _ (record { tail = refl; size = refl; head = refl })
      (take_fin-IsValid e k s v))

to_time_wait-IsValid :
    (e : Env) (k : Link) (s : TcpSocket) (deadline : ℕ)
    → IsValid s
    → IsValid (record (take_fin e k s).1 { state = time_wait; timewait_deadline = deadline })
to_time_wait-IsValid e k s deadline v =
    other_fields (take_fin e k s).1 _ (record { tail = refl; size = refl; head = refl })
      (take_fin-IsValid e k s v)

if-pair-IsValid :
    (b : Bool) (x y : Link × TcpSocket) → IsValid x.1 → IsValid y.1 → IsValid (if b then x else y).1
if-pair-IsValid true x y v w = v
if-pair-IsValid false x y v w = w

if-sock-IsValid :
    (b : Bool) (x y : TcpSocket) → IsValid x → IsValid y → IsValid (if b then x else y)
if-sock-IsValid true x y v w = v
if-sock-IsValid false x y v w = w

free_sock-IsValid : (s : TcpSocket) → IsValid s → IsValid (free_sock s)
unfolding free_sock
free_sock-IsValid s v = other_fields s _ (record { tail = refl; size = refl; head = refl }) v

in_established-IsValid :
    (e : Env) (k : Link) (s : TcpSocket) (p : Incoming)
    → IsValid s
    → IsValid (in_established e k s p).1
unfolding in_established
in_established-IsValid e k s p v =
    let x : Link × TcpSocket =
      if in_order s p then tcp_send_ack e k (take_payload s p) else (k, s) in
    let w : IsValid x.1 =
      if-pair-IsValid (in_order s p) (tcp_send_ack e k (take_payload s p)) (k, s)
        (tcp_send_ack-IsValid e k _ (take_payload-Stored p v).valid) v in
    if-pair-IsValid (has p.flags flag_fin) (close_from_peer e x.0 x.1) x
      (close_from_peer-IsValid e x.0 x.1 w) w

in_syn_sent-IsValid :
    (e : Env) (k : Link) (s : TcpSocket) (p : Incoming)
    → IsValid s
    → IsValid (in_syn_sent e k s p).1
unfolding in_syn_sent
in_syn_sent-IsValid e k s p v =
    if-pair-IsValid _ _ (k, s)
      (if-pair-IsValid (not (p.seg_ack == s.snd_nxt)) _ _ (free_sock-IsValid s v) (
        tcp_send_ack-IsValid e k _
          (other_fields s _ (record { tail = refl; size = refl; head = refl }) v)))
      v

dispatch-IsValid :
    (a : TcpState) (e : Env) (k : Link) (s : TcpSocket) (p : Incoming)
    → IsValid s
    → IsValid (dispatch a e k s p).1
unfolding dispatch in_fin_wait_1 in_fin_wait_2 in_time_wait
dispatch-IsValid syn_sent e k s p v = in_syn_sent-IsValid e k s p v
dispatch-IsValid established e k s p v = in_established-IsValid e k s p v
dispatch-IsValid fin_wait_1 e k s p v =
    let w =
      if-sock-IsValid _ (record s { state = fin_wait_2 }) s
        (other_fields s _ (record { tail = refl; size = refl; head = refl }) v) v in
    if-pair-IsValid (has p.flags flag_fin) _ _ (to_time_wait-IsValid e k _ _ w) w
dispatch-IsValid fin_wait_2 e k s p v =
    let w = if-sock-IsValid (in_order s p) (take_payload s p) s (take_payload-Stored p v).valid v in
    if-pair-IsValid (has p.flags flag_fin) _ _ (to_time_wait-IsValid e k _ _ w) w
dispatch-IsValid last_ack e k s p v =
    if-pair-IsValid _ (k, free_sock s) (k, s) (free_sock-IsValid s v) v
dispatch-IsValid time_wait e k s p v =
    if-pair-IsValid (has p.flags flag_fin) _ (k, s)
      (other_fields (take_fin e k s).1 _ (record { tail = refl; size = refl; head = refl })
        (take_fin-IsValid e k s v))
      v
dispatch-IsValid closed e k s p v = v
dispatch-IsValid close_wait e k s p v = v

receive_on-IsValid :
    (e : Env) (k : Link) (s : TcpSocket) (p : Incoming) → IsValid s → IsValid (receive_on e k s p).1
unfolding receive_on
receive_on-IsValid e k s p v =
    if-pair-IsValid (has p.flags flag_rst) (k, free_sock s) _ (free_sock-IsValid s v)
      (dispatch-IsValid (take_ack s p).state e k (take_ack s p) p (take_ack-IsValid s p v))

-- Every socket's receive buffer is in a good state.
abbrev pub AllValid : Tcp → Type 0
AllValid t = (j : ℕ) → IsValid (t.socks j)

deliver_segment-AllValid :
    (e : Env) (t : Tcp) (p : Incoming) → AllValid t → AllValid (deliver_segment e t p)
deliver_segment-AllValid e t p v j =
    elim (Option-cases (find_index (λ i. is_for p (t.socks i)) 0 tcp_max_sockets)) [
      | inl n ↦ subst (λ socks. IsValid (socks j)) (sym (nobody e t p n)) (v j)
      | inr (i, f) ↦
          subst (λ u. IsValid (u.socks j)) (sym (somebody e t p i f))
            (if-sock-IsValid (i == j) (receive_on e t.link (t.socks i) p).1 (t.socks j)
              (receive_on-IsValid e t.link (t.socks i) p (v i)) (v j))
    ]

if-AllValid : (b : Bool) (u w : Tcp) → AllValid u → AllValid w → AllValid (if b then u else w)
if-AllValid true u w x y = x
if-AllValid false u w x y = y

-- Whatever bytes come in, `tcp_receive` keeps the receive buffer of every socket in a good state:
-- its indices in range, its length at most 8192, and its head as far from its tail as it is long.
pub tcp_receive-AllValid :
    (e : Env) (t : Tcp) (src_ip : ℕ) (seg : ℕ → ℕ) (len : ℕ)
    → AllValid t
    → AllValid (tcp_receive e t src_ip seg len)
unfolding tcp_receive
tcp_receive-AllValid e t src_ip seg len v = if-AllValid (ltb len 20) t _ v (
    if-AllValid (ltb (hdr_bytes seg) 20 || ltb len (hdr_bytes seg)) t
      (deliver_segment e t (parse src_ip seg len)) v
      (deliver_segment-AllValid e t (parse src_ip seg len) v))
