-- ===== src/UdpHandlers/Lookup.antt =====
-- kernel/net.cpp: which handler `handle_udp` finds after `net_udp_register`.
use sabaka_os.Common.{
  ℕ, ◌+◌, ◌<◌, ◌≡◌, ◌≢◌, ◌⊎◌, inl, inr, refl, ◌∙◌, ap, Option, none, some, true, false, update,
  find_index, find_index-some, find_index-none, find_index_of, find_index_congr, find_index_fails,
  IsFirst, for_range, for_range_inv, arith, Option-cases,
}
use sabaka_os.UdpHandlers.{
  UdpCallback, UdpHandler, Handlers, udp_handlers, serves, is_free, drop_port, new_handler,
  add_handler, net_udp_register, udp_handler,
}

-- Two tables in which the same slots serve `port`, with the same callbacks.
same_handler :
    (hs hs' : Handlers) (port : ℕ)
    → ((j : ℕ) → serves hs' port j ≡ serves hs port j)
    → ((j : ℕ) → serves hs port j ≡ true → (hs' j).cb ≡ (hs j).cb)
    → udp_handler hs' port ≡ udp_handler hs port
unfolding udp_handler
same_handler hs hs' port s c =
    rw
      (
        find_index_congr (serves hs' port) (serves hs port) 0 udp_handlers (λ j a b. s j),
        udp_handler,
      )
      (elim (Option-cases (find_index (serves hs port) 0 udp_handlers)) [
        | inl e ↦ rw (e, udp_handler)
        | inr (i, e) ↦
            rw (e, udp_handler)
              (ap some (c i (find_index-some (serves hs port) 0 udp_handlers e).passes))
      ])

found :
    (hs : Handlers) (port i : ℕ)
    → IsFirst (serves hs port) 0 (0 + udp_handlers) i
    → udp_handler hs port ≡ some (hs i).cb
unfolding udp_handler
found hs port i f = rw (find_index_of (serves hs port) 0 udp_handlers i f, udp_handler)

-- A slot of the table serves the port, or is free.
abbrev pub HasRoom : Handlers → ℕ → Type 0
HasRoom hs port = (i : ℕ) × (i < udp_handlers) × ((serves hs port i ≡ true) ⊎ (is_free hs i ≡ true))

replaced :
    (hs : Handlers) (port : ℕ) (cb : UdpCallback) (i : ℕ)
    → IsFirst (serves hs port) 0 (0 + udp_handlers) i
    → udp_handler (update hs i (record (hs i) { cb = cb })) port ≡ some cb
replaced hs port cb i f =
    found (update hs i (record (hs i) { cb = cb })) port i (record {
      above = f.above;
      below = f.below;
      passes = ground (arith, f.passes);
      earlier = λ j a b. ground (arith, f.earlier j a b);
    })
    ∙ ground arith

added :
    (hs : Handlers) (port : ℕ) (cb : UdpCallback) (i : ℕ)
    → i < udp_handlers
    → find_index (serves hs port) 0 udp_handlers ≡ none
    → udp_handler (update hs i (new_handler port cb)) port ≡ some cb
added hs port cb i l none_serves =
    found (update hs i (new_handler port cb)) port i (record {
      above = omega arith;
      below = omega arith;
      passes = ground arith;
      earlier = λ j a b.
          ground
            (arith, find_index-none (serves hs port) 0 udp_handlers none_serves j a (omega arith));
    })
    ∙ ground arith

-- Once a callback is registered for a port, and the table has room for it, datagrams to the port
-- reach that callback.
pub udp_handler-net_udp_register :
    (hs : Handlers) (port : ℕ) (cb : UdpCallback)
    → HasRoom hs port
    → udp_handler (net_udp_register hs port (some cb)) port ≡ some cb
unfolding net_udp_register add_handler
udp_handler-net_udp_register hs port cb (k, l, room) =
    elim (Option-cases (find_index (serves hs port) 0 udp_handlers)) [
      | inr (i, e) ↦
          rw (e, net_udp_register)
            (replaced hs port cb i (find_index-some (serves hs port) 0 udp_handlers e))
      | inl e ↦ elim (Option-cases (find_index (is_free hs) 0 udp_handlers)) [
        | inr (i, e') ↦
            rw (e, net_udp_register, e', add_handler)
              (added hs port cb i (find_index-some (is_free hs) 0 udp_handlers e').below e)
        | inl e' ↦ absurd (
            ground (
              arith,
              find_index-none (serves hs port) 0 udp_handlers e k (omega arith) l,
              find_index-none (is_free hs) 0 udp_handlers e' k (omega arith) l,
            ))
      ]
    ]

keeps_others :
    (hs : Handlers) (port other i : ℕ) (h : UdpHandler)
    → port ≢ other
    → h.port ≡ port
    → (serves hs port i ≡ true) ⊎ (is_free hs i ≡ true)
    → udp_handler (update hs i h) other ≡ udp_handler hs other
keeps_others hs port other i h ne e was =
    same_handler hs (update hs i h) other (λ j. ground arith) (λ j s. ground arith)

-- To register a callback for one port, or to take a port off the table, does not change which
-- handler the datagrams to another port reach.
pub udp_handler-net_udp_register_ne :
    (hs : Handlers) (port other : ℕ) (cb : Option UdpCallback)
    → port ≢ other
    → udp_handler (net_udp_register hs port cb) other ≡ udp_handler hs other
unfolding net_udp_register add_handler
udp_handler-net_udp_register_ne hs port other (some cb) ne =
    elim (Option-cases (find_index (serves hs port) 0 udp_handlers)) [
      | inr (i, e) ↦
          rw (e, net_udp_register)
            (keeps_others hs port other i (record (hs i) { cb = cb }) ne
              (ground (arith, (find_index-some (serves hs port) 0 udp_handlers e).passes))
              (inl (find_index-some (serves hs port) 0 udp_handlers e).passes))
      | inl e ↦ elim (Option-cases (find_index (is_free hs) 0 udp_handlers)) [
        | inr (i, e') ↦
            rw (e, net_udp_register, e', add_handler)
              (keeps_others hs port other i (new_handler port cb) ne refl
                (inr (find_index-some (is_free hs) 0 udp_handlers e').passes))
        | inl e' ↦ rw (e, net_udp_register, e', add_handler)
      ]
    ]
udp_handler-net_udp_register_ne hs port other none ne =
    for_range_inv (λ k hs'. udp_handler hs' other ≡ udp_handler hs other) (drop_port port) 0
      udp_handlers (λ k hs' a b h. step k hs' ∙ h) udp_handlers 0 hs refl (omega arith) refl
  where
    step :
        (k : ℕ) (hs' : Handlers) → udp_handler (drop_port port k hs') other ≡ udp_handler hs' other
    step k hs' =
        same_handler hs' (drop_port port k hs') other (λ j. ground arith) (λ j s. ground arith)

-- After a null callback is registered for a port, its datagrams reach no handler.
pub udp_handler-net_udp_register_null :
    (hs : Handlers) (port : ℕ) → udp_handler (net_udp_register hs port none) port ≡ none
unfolding net_udp_register udp_handler
udp_handler-net_udp_register_null hs port = rw (
  find_index_fails (serves dropped port) 0 udp_handlers (λ j a b. cleared j (omega arith)),
  udp_handler,
)
  where
    dropped : Handlers
    dropped = for_range 0 udp_handlers (drop_port port) hs

    cleared : (j : ℕ) → j < udp_handlers → serves dropped port j ≡ false
    cleared =
        for_range_inv (λ k hs'. (j : ℕ) → j < k → serves hs' port j ≡ false) (drop_port port) 0
          udp_handlers (λ k hs' a b h j l. step k hs' j (h j) l) udp_handlers 0 hs refl
          (omega arith) (λ j l. absurd (omega arith))
      where
        step :
            (k : ℕ) (hs' : Handlers) (j : ℕ)
            → (j < k → serves hs' port j ≡ false)
            → j < k + 1
            → serves (drop_port port k hs') port j ≡ false
        step k hs' j h l = ground arith
