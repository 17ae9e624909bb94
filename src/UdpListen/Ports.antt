-- ===== src/UdpListen/Ports.antt =====
-- kernel/udp_listen.cpp: a listener and the handler that the network layer calls for its port.
use sabaka_os.Common.{
  lt→ltb, update_self, ℕ, ◌<◌, ◌≡◌, ◌⊎◌, refl, ap, [], true, false, not, arith, update, inl, inr,
  none, some, Option-cases, find_index, find_index-some,
}
use sabaka_os.Common.Int.{pos, minus_one}
use sabaka_os.UdpHandlers.{listener, udp_handler, net_udp_register}
use sabaka_os.UdpHandlers.Lookup.{
  HasRoom, udp_handler-net_udp_register, udp_handler-net_udp_register_null,
}
use sabaka_os.UdpListen.{UdpState, udpl_max, fresh_listener, udpl_open, udpl_close}
use sabaka_os.UdpListen.Fifo.{IsValid, contents}

-- What a successful `udpl_open` gives: a listener that was closed is open on the port, is empty,
-- and is the one that datagrams to the port reach.
pub record Opened (st : UdpState) (port i : ℕ) (st' : UdpState) : Type 0 where
  pub in_range : i < udpl_max
  pub was_closed : (st.listeners i).used ≡ false
  pub is_open : (st'.listeners i).used ≡ true
  pub on_port : (st'.listeners i).port ≡ port
  pub valid : IsValid (st'.listeners i)
  pub empty : contents (st'.listeners i) ≡ []
  pub reached : udp_handler st'.handlers port ≡ some (listener i)

opened :
    (st : UdpState) (port i : ℕ)
    → HasRoom st.handlers port
    → i < udpl_max
    → (st.listeners i).used ≡ false
    → Opened st port i (record {
      listeners = update st.listeners i (fresh_listener (st.listeners i) port);
      handlers = net_udp_register st.handlers port (some (listener i));
    })
opened st port i room l c = record {
  in_range = l;
  was_closed = c;
  is_open = ap (λ u. u.used) here;
  on_port = ap (λ u. u.port) here;
  valid = rw here (omega arith);
  empty = rw here;
  reached = udp_handler-net_udp_register st.handlers port (listener i) room;
}
  where
    here :
        update st.listeners i (fresh_listener (st.listeners i) port) i
        ≡ fresh_listener (st.listeners i) port
    here = update_self st.listeners i (fresh_listener (st.listeners i) port)

-- Where the handler table has room for the port, `udpl_open` either opens a listener that was
-- closed, from which datagrams to the port can then be read, or returns -1 and changes nothing.
pub udpl_open-Opened :
    (st : UdpState) (port : ℕ)
    → HasRoom st.handlers port
    → let (st', r) = udpl_open st port in
      ((i : ℕ) × (r ≡ pos i) × Opened st port i st') ⊎ ((r ≡ minus_one) × (st' ≡ st))
unfolding udpl_open
udpl_open-Opened st port room =
    elim (Option-cases (find_index (λ i. not (st.listeners i).used) 0 udpl_max)) [
      | inl e ↦ rw (e, udpl_open) (inr (refl, refl))
      | inr (i, e) ↦
          let f = find_index-some (λ i. not (st.listeners i).used) 0 udpl_max e in
          rw (e, udpl_open)
            (inl
              (i, refl, opened st port i room (omega (arith, f.below)) (ground (arith, f.passes))))
    ]

-- After `udpl_close` the listener is closed, and datagrams to its port reach no handler.
pub udpl_close-closed :
    (st : UdpState) (i : ℕ)
    → i < udpl_max
    → let st' = udpl_close st (pos i) in
      ((st'.listeners i).used ≡ false) × (udp_handler st'.handlers (st.listeners i).port ≡ none)
unfolding udpl_close
udpl_close-closed st i l =
    rw (lt→ltb i udpl_max l, udpl_close)
      (ground arith, udp_handler-net_udp_register_null st.handlers (st.listeners i).port)
