-- ===== src/UdpListen/Tests.antt =====
-- Examples for the listeners of kernel/udp_listen.cpp.
use sabaka_os.Common.{◌≡◌, ◌⊎◌, inr, refl, arith, true, false, none, some, [], ◌∷◌}
use sabaka_os.UdpHandlers.{listener}
use sabaka_os.UdpHandlers.Lookup.{HasRoom}
use sabaka_os.UdpListen.{UdpPacket, UdpListener, UdpState, recv_from}
use sabaka_os.UdpListen.Fifo.{IsValid, contents, view, recv_from_refines}

abbrev one_waits : UdpListener
one_waits = record {
  port = 53;
  used = true;
  slots = λ i. record { src_ip = 167772162; src_port = 1053; bytes = λ k. k; len = 4 };
  head = 0;
  tail = 15;
}

one_waits-IsValid : IsValid one_waits
one_waits-IsValid = record { head_in = omega arith; tail_in = omega arith }

recv_from_refines_example :
    let (l', got) = recv_from one_waits in
    ((p : UdpPacket) × (got ≡ some p)
      × (one_waits.used ≡ true)
      × (contents one_waits ≡ view p ∷ contents l')
      × IsValid l')
    ⊎ ((got ≡ none) × (l' ≡ one_waits) × ((one_waits.used ≡ false) ⊎ (contents one_waits ≡ [])))
recv_from_refines_example = recv_from_refines one_waits-IsValid

-- Nothing listens yet.
abbrev idle : UdpState
idle = record {
  listeners = λ i. record one_waits { used = false };
  handlers = λ i. record { port = 0; cb = listener 0; used = false };
}

idle-HasRoom : HasRoom idle.handlers 53
idle-HasRoom = (0, omega arith, inr refl)
