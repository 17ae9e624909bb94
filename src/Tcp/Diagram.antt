-- ===== src/Tcp/Diagram.antt =====
-- kernel/tcp.cpp: the diagram of the states, and that a segment moves its socket as it says.
use sabaka_os.Common.{
  ℕ, ◌+◌, ◌≡◌, inl, inr, refl, sym, ◌∙◌, ap, ap₂, ◌%◌, Bool, true, false, ◌&&◌, ◌==◌, if◌then◌else◌,
  arith, Bool-cases,
}
use sabaka_os.Tcp.State.{
  TcpState, closed, syn_sent, established, fin_wait_1, fin_wait_2, close_wait, last_ack, time_wait,
  TcpSocket, Link, Env, has, flag_fin, flag_syn, flag_rst, flag_ack, free_sock,
}
use sabaka_os.Tcp.Send.{after_send, tcp_send_raw, tcp_send_ack}
use sabaka_os.Tcp.Receive.{
  Incoming, take_ack, take_payload, take_fin, in_order, in_syn_sent, close_from_peer,
  in_established, in_fin_wait_1, in_fin_wait_2, in_time_wait, dispatch, receive_on,
}

-- The diagram of the states: where a segment with these flags leads, and whether it acknowledges
-- all that was sent.
pub next_state : TcpState → ℕ → Bool → TcpState
next_state syn_sent flags acks_all =
    if has flags flag_rst
    then closed
    else if has flags flag_syn && has flags flag_ack
    then (if acks_all then established else closed)
    else syn_sent
next_state established flags acks_all =
    if has flags flag_rst then closed else if has flags flag_fin then last_ack else established
next_state fin_wait_1 flags acks_all =
    if has flags flag_rst
    then closed
    else if has flags flag_fin
    then time_wait
    else if has flags flag_ack
    then fin_wait_2
    else fin_wait_1
next_state fin_wait_2 flags acks_all =
    if has flags flag_rst then closed else if has flags flag_fin then time_wait else fin_wait_2
next_state last_ack flags acks_all =
    if has flags flag_rst then closed else if has flags flag_ack then closed else last_ack
next_state time_wait flags acks_all = if has flags flag_rst then closed else time_wait
next_state close_wait flags acks_all = if has flags flag_rst then closed else close_wait
next_state closed flags acks_all = closed

state-tcp_send_raw :
    (e : Env) (k : Link) (s : TcpSocket) (flags : ℕ) (payload : ℕ → ℕ) (pay_len : ℕ) (save : Bool)
    → (tcp_send_raw e k s flags payload pay_len save).1.state ≡ s.state
unfolding tcp_send_raw after_send
state-tcp_send_raw e k s flags payload pay_len save = ground arith

state-tcp_send_ack : (e : Env) (k : Link) (s : TcpSocket) → (tcp_send_ack e k s).1.state ≡ s.state
unfolding tcp_send_ack
state-tcp_send_ack e k s = state-tcp_send_raw e k s flag_ack _ 0 false

state-take_fin : (e : Env) (k : Link) (s : TcpSocket) → (take_fin e k s).1.state ≡ s.state
unfolding take_fin
state-take_fin e k s = state-tcp_send_ack e k _

state-close_from_peer :
    (e : Env) (k : Link) (s : TcpSocket) → (close_from_peer e k s).1.state ≡ last_ack
unfolding close_from_peer
state-close_from_peer e k s = state-tcp_send_raw e _ _ _ _ 0 true

state-take_payload : (s : TcpSocket) (p : Incoming) → (take_payload s p).state ≡ s.state
unfolding take_payload
state-take_payload s p = refl

state-take_ack : (s : TcpSocket) (p : Incoming) → (take_ack s p).state ≡ s.state
unfolding take_ack
state-take_ack s p = ground arith

snd_nxt-take_ack : (s : TcpSocket) (p : Incoming) → (take_ack s p).snd_nxt ≡ s.snd_nxt
unfolding take_ack
snd_nxt-take_ack s p = ground arith

state-dispatch :
    (a : TcpState) (e : Env) (k : Link) (s : TcpSocket) (p : Incoming)
    → s.state ≡ a
    → has p.flags flag_rst ≡ false
    → (dispatch a e k s p).1.state ≡ next_state a p.flags (p.seg_ack == s.snd_nxt)
unfolding dispatch next_state in_syn_sent in_established in_fin_wait_1 in_fin_wait_2 in_time_wait
    free_sock
state-dispatch syn_sent e k s p h r = ground (
  arith,
  state-tcp_send_ack e k (record s {
    rcv_nxt = (p.seg_seq + 1) % 4294967296;
    snd_una = p.seg_ack;
    state = established;
    retx_deadline = 0;
  }),
)
state-dispatch established e k s p h r =
    let x : Link × TcpSocket =
      if in_order s p then tcp_send_ack e k (take_payload s p) else (k, s) in
    ground (
      arith,
      state-close_from_peer e x.0 x.1,
      state-tcp_send_ack e k (take_payload s p),
      state-take_payload s p,
    )
state-dispatch fin_wait_1 e k s p h r = ground arith
state-dispatch fin_wait_2 e k s p h r = ground (arith, state-take_payload s p)
state-dispatch last_ack e k s p h r = ground arith
state-dispatch time_wait e k s p h r = ground (arith, state-take_fin e k s)
state-dispatch closed e k s p h r = ground (arith, h, r)
state-dispatch close_wait e k s p h r = ground arith

-- A reset closes a connection in any state.
closed-next_state :
    (a : TcpState) (flags : ℕ) (acks_all : Bool)
    → has flags flag_rst ≡ true
    → next_state a flags acks_all ≡ closed
unfolding next_state
closed-next_state syn_sent flags acks_all r = ground arith
closed-next_state established flags acks_all r = ground arith
closed-next_state fin_wait_1 flags acks_all r = ground arith
closed-next_state fin_wait_2 flags acks_all r = ground arith
closed-next_state last_ack flags acks_all r = ground arith
closed-next_state time_wait flags acks_all r = ground arith
closed-next_state close_wait flags acks_all r = ground arith
closed-next_state closed flags acks_all r = refl

if-true {ℓ} : {A : Type ℓ} (b : Bool) (x y : A) → b ≡ true → (if b then x else y) ≡ x
if-true b x y e = ground arith

if-false {ℓ} : {A : Type ℓ} (b : Bool) (x y : A) → b ≡ false → (if b then x else y) ≡ y
if-false b x y e = ground arith

-- A segment leaves its socket in the state that the diagram says.
pub state-receive_on :
    (e : Env) (k : Link) (s : TcpSocket) (p : Incoming)
    → (receive_on e k s p).1.state ≡ next_state s.state p.flags (p.seg_ack == s.snd_nxt)
unfolding receive_on free_sock
state-receive_on e k s p = elim (Bool-cases (has p.flags flag_rst)) [
  | inl r ↦
      ap (λ (x : Link × TcpSocket). x.1.state) (if-true (has p.flags flag_rst) _ _ r)
      ∙ sym (closed-next_state s.state p.flags (p.seg_ack == s.snd_nxt) r)
  | inr n ↦
      ap (λ (x : Link × TcpSocket). x.1.state) (if-false (has p.flags flag_rst) _ _ n)
      ∙ state-dispatch (take_ack s p).state e k (take_ack s p) p refl n
      ∙ ap₂ (λ a b. next_state a p.flags (p.seg_ack == b)) (state-take_ack s p)
          (snd_nxt-take_ack s p)
]
