-- ===== src/Tcp/Machine.antt =====
-- kernel/tcp.cpp, tcp_receive as a state machine: which socket a segment moves, and to what state.
use sabaka_os.Common.{
  ◌<◌, ◌≤◌, ◌≢◌, find_index-none, ltb, ◌||◌, ℕ, ◌≡◌, ◌⊎◌, inl, inr, refl, ◌∙◌, ap, none, some, Bool,
  true, false, ◌==◌, if◌then◌else◌, arith, update, update_self, update_ne, Bool-cases, Option-cases,
  find_index, find_index-some,
}
use sabaka_os.Tcp.State.{
  is_closed, TcpState, closed, syn_sent, established, fin_wait_1, fin_wait_2, close_wait, last_ack,
  time_wait, TcpSocket, Link, Tcp, Env, has, flag_rst, tcp_max_sockets,
}
use sabaka_os.Tcp.Send.{tcp_send_rst_for}
use sabaka_os.Tcp.Receive.{
  Incoming, is_for, receive_on, deliver_segment, parse, hdr_bytes, tcp_receive,
}
use sabaka_os.Tcp.Diagram.{next_state, state-receive_on}

-- The socket is the one of the connection that the segment belongs to.
pub record IsFor (p : Incoming) (s : TcpSocket) : Type 0 where
  pub in_use : s.used ≡ true
  pub not_closed : s.state ≢ closed
  pub from_peer : s.remote_ip ≡ p.src_ip
  pub from_port : s.remote_port ≡ p.src_port
  pub to_port : s.local_port ≡ p.dst_port

-- What a segment of `len` bytes, with a header of `header` bytes, does to the sockets.
pub data Moved (socks socks' : ℕ → TcpSocket) (p : Incoming) (len header : ℕ) : Type 0 where
  malformed :
      (len < 20) ⊎ (header < 20) ⊎ (len < header) → socks' ≡ socks → Moved socks socks' p len header
  for_none :
      20 ≤ header
      → header ≤ len
      → ((j : ℕ) → j < tcp_max_sockets → ¬ IsFor p (socks j))
      → socks' ≡ socks
      → Moved socks socks' p len header
  moved :
      (i : ℕ)
      → 20 ≤ header
      → header ≤ len
      → i < tcp_max_sockets
      → IsFor p (socks i)
      → ((j : ℕ) → j < i → ¬ IsFor p (socks j))
      → (socks' i).state ≡ next_state (socks i).state p.flags (p.seg_ack == (socks i).snd_nxt)
      → ((j : ℕ) → i ≢ j → socks' j ≡ socks j)
      → Moved socks socks' p len header

is_closed-true : (a : TcpState) → is_closed a ≡ false → a ≢ closed
is_closed-true a e h = absurd (cc (ap is_closed h))

is_closed-false : (a : TcpState) → a ≢ closed → is_closed a ≡ false
is_closed-false closed n = absurd (n refl)
is_closed-false syn_sent n = refl
is_closed-false established n = refl
is_closed-false fin_wait_1 n = refl
is_closed-false fin_wait_2 n = refl
is_closed-false close_wait n = refl
is_closed-false last_ack n = refl
is_closed-false time_wait n = refl

is_for-IsFor : (p : Incoming) (s : TcpSocket) → is_for p s ≡ true → IsFor p s
is_for-IsFor p s e = record {
  in_use = ground arith;
  not_closed = is_closed-true s.state (ground arith);
  from_peer = ground arith;
  from_port = ground arith;
  to_port = ground arith;
}

is_for-none : (p : Incoming) (s : TcpSocket) → is_for p s ≡ false → ¬ IsFor p s
is_for-none p s e h =
    let open_socket = is_closed-false s.state h.not_closed in
    let u = h.in_use in
    let a = h.from_peer in let b = h.from_port in let c = h.to_port in absurd (ground arith)

-- The segment is for socket `i`.
pub somebody :
    (e : Env) (t : Tcp) (p : Incoming) (i : ℕ)
    → find_index (λ i'. is_for p (t.socks i')) 0 tcp_max_sockets ≡ some i
    → deliver_segment e t p ≡ record t {
      socks = update t.socks i (receive_on e t.link (t.socks i) p).1;
      link = (receive_on e t.link (t.socks i) p).0;
    }
unfolding deliver_segment
somebody e t p i f = rw (f, deliver_segment) refl

-- The segment is for no socket.
pub nobody :
    (e : Env) (t : Tcp) (p : Incoming)
    → find_index (λ i'. is_for p (t.socks i')) 0 tcp_max_sockets ≡ none
    → (deliver_segment e t p).socks ≡ t.socks
unfolding deliver_segment
nobody e t p n =
    rw (n, deliver_segment)
      (if_same (has p.flags flag_rst) t
        (tcp_send_rst_for e t.link p.src_ip p.src_port p.dst_port p.seg_ack))
  where
    if_same :
        (b : Bool) (u : Tcp) (l : Link) → (if b then u else (record u { link = l })).socks ≡ u.socks
    if_same true u l = refl
    if_same false u l = refl

deliver_segment-Moved :
    (e : Env) (t : Tcp) (p : Incoming) (len header : ℕ)
    → 20 ≤ header
    → header ≤ len
    → Moved t.socks (deliver_segment e t p).socks p len header
deliver_segment-Moved e t p len header lo hi =
    elim (Option-cases (find_index (λ i. is_for p (t.socks i)) 0 tcp_max_sockets)) [
      | inl n ↦
          for_none lo hi
            (λ j l. is_for-none p (t.socks j) (
              find_index-none (λ i. is_for p (t.socks i)) 0 tcp_max_sockets n j (omega arith)
                (omega arith)))
            (nobody e t p n)
      | inr (i, f) ↦
          let first = find_index-some (λ i'. is_for p (t.socks i')) 0 tcp_max_sockets f in
          let after : (deliver_segment e t p).socks
              ≡ update t.socks i (receive_on e t.link (t.socks i) p).1 =
            ap (λ (u : Tcp). u.socks) (somebody e t p i f) in
          moved i lo hi (omega (arith, first.below)) (is_for-IsFor p (t.socks i) first.passes)
            (λ j l. is_for-none p (t.socks j) (first.earlier j (omega arith) l))
            (ap (λ (u : ℕ → TcpSocket). (u i).state) after
              ∙ ap (λ (s : TcpSocket). s.state)
                  (update_self t.socks i (receive_on e t.link (t.socks i) p).1)
              ∙ state-receive_on e t.link (t.socks i) p)
            (λ j ne.
              ap (λ (u : ℕ → TcpSocket). u j) after
              ∙ update_ne t.socks i j (receive_on e t.link (t.socks i) p).1 ne)
    ]

if-Moved :
    (b : Bool) (u w : Tcp) (socks : ℕ → TcpSocket) (p : Incoming) (len header : ℕ)
    → (b ≡ true → Moved socks u.socks p len header)
    → (b ≡ false → Moved socks w.socks p len header)
    → Moved socks (if b then u else w).socks p len header
if-Moved true u w socks p len header x y = x refl
if-Moved false u w socks p len header x y = y refl

-- Bytes that are shorter than a header, or than the header that they announce, or that announce one
-- of less than 20 bytes, change no socket. Any other segment for no socket in use changes none, and
-- one for a socket leaves the first such socket in the state that the diagram says, and every other
-- as it was.
pub tcp_receive-Moved :
    (e : Env) (t : Tcp) (src_ip : ℕ) (seg : ℕ → ℕ) (len : ℕ)
    → Moved t.socks
        (tcp_receive e t src_ip seg len).socks
        (parse src_ip seg len)
        len
        (hdr_bytes seg)
unfolding tcp_receive
tcp_receive-Moved e t src_ip seg len =
    let p = parse src_ip seg len in
    if-Moved (ltb len 20) t _ t.socks p len (hdr_bytes seg)
      (λ short. malformed (inl (ground arith)) refl)
      (λ long.
        if-Moved (ltb (hdr_bytes seg) 20 || ltb len (hdr_bytes seg)) t (deliver_segment e t p)
          t.socks p len (hdr_bytes seg)
          (λ bad. malformed (inr (bad_header (hdr_bytes seg) bad)) refl)
          (λ good. deliver_segment-Moved e t p len (hdr_bytes seg) (ground arith) (ground arith)))
  where
    bad_header : (h : ℕ) → (ltb h 20 || ltb len h) ≡ true → (h < 20) ⊎ (len < h)
    bad_header h bad = elim (Bool-cases (ltb h 20)) [
      | inl a ↦ inl (ground arith)
      | inr b ↦ inr (ground arith)
    ]
