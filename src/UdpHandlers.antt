-- ===== src/UdpHandlers.antt =====
-- kernel/net.cpp: the table of UDP handlers, `net_udp_register` and the search of `handle_udp`.
pub mod Lookup
mod Tests
use sabaka_os.Common.{
  ℕ, Option, none, some, Bool, true, false, ◌&&◌, not, ◌==◌, if◌then◌else◌, update, find_index,
  for_range,
}

-- The callbacks that the kernel registers: `s_callbacks[i]` of a listener, and the resolver's.
pub data UdpCallback : Type 0 where
  listener : ℕ → UdpCallback
  dns_udp_callback : UdpCallback

abbrev pub udp_handlers : ℕ
udp_handlers = 8

pub record UdpHandler : Type 0 where
  pub port : ℕ
  pub cb : UdpCallback
  pub used : Bool

abbrev pub Handlers : Type 0
Handlers = ℕ → UdpHandler

-- `s_udp_handlers[i].used && s_udp_handlers[i].port == port`
abbrev pub serves : Handlers → ℕ → ℕ → Bool
serves hs port i = (hs i).used && (hs i).port == port

abbrev pub is_free : Handlers → ℕ → Bool
is_free hs i = not (hs i).used

-- One round of the loop that takes a port's handlers off the table.
abbrev pub drop_port : ℕ → ℕ → Handlers → Handlers
drop_port port i hs = if serves hs port i then update hs i (record (hs i) { used = false }) else hs

abbrev pub new_handler : ℕ → UdpCallback → UdpHandler
new_handler port cb = record { port = port; cb = cb; used = true }

-- The second loop of `net_udp_register`, which takes a free slot.
unfoldable pub add_handler : Handlers → ℕ → UdpCallback → Handlers
add_handler hs port cb = elim (find_index (is_free hs) 0 udp_handlers) [
  | none ↦ hs
  | some i ↦ update hs i (new_handler port cb)
]

-- `none` is a null callback.
unfoldable pub net_udp_register : Handlers → ℕ → Option UdpCallback → Handlers
net_udp_register hs port none = for_range 0 udp_handlers (drop_port port) hs
net_udp_register hs port (some cb) = elim (find_index (serves hs port) 0 udp_handlers) [
  | some i ↦ update hs i (record (hs i) { cb = cb })
  | none ↦ add_handler hs port cb
]

-- The handler that `handle_udp` calls for a datagram to `port`.
unfoldable pub udp_handler : Handlers → ℕ → Option UdpCallback
udp_handler hs port = elim (find_index (serves hs port) 0 udp_handlers) [
  | none ↦ none
  | some i ↦ some (hs i).cb
]
