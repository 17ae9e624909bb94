-- ===== src/UdpHandlers/Tests.antt =====
-- Examples for the handler table of kernel/net.cpp.
use sabaka_os.Common.{◌≡◌, inl, refl, arith, some, ◌==◌}
use sabaka_os.UdpHandlers.{Handlers, listener, dns_udp_callback, net_udp_register, udp_handler}
use sabaka_os.UdpHandlers.Lookup.{HasRoom, udp_handler-net_udp_register}

-- Slot 3 serves the resolver's port.
abbrev one_handler : Handlers
one_handler i = record { port = 5353; cb = dns_udp_callback; used = i == 3 }

one_handler-HasRoom : HasRoom one_handler 5353
one_handler-HasRoom = (3, omega arith, inl refl)

udp_handler-net_udp_register_example :
    udp_handler (net_udp_register one_handler 5353 (some (listener 1))) 5353 ≡ some (listener 1)
udp_handler-net_udp_register_example =
    udp_handler-net_udp_register one_handler 5353 (listener 1) one_handler-HasRoom
