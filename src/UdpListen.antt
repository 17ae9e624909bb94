-- ===== src/UdpListen.antt =====
-- kernel/udp_listen.h and kernel/udp_listen.cpp: listeners that keep the datagrams to a port until
-- `udpl_recv` takes them. The interrupt moves `head` and the reader moves `tail`.
pub mod Fifo
pub mod Ports
mod Tests
use Prim.Native.Nat.{bit_and}
use sabaka_os.Common.{
  ℕ, zero, suc, ◌+◌, ◌-◌, Option, none, some, Bool, true, false, not, ltb, ◌==◌, if◌then◌else◌,
  update, find_index, min,
}
use sabaka_os.Common.Int.{ℤ, pos, negsuc, minus_one}
use sabaka_os.Common.Words.{add32}
use sabaka_os.KString.Memory.{copy_into}
use sabaka_os.UdpHandlers.{UdpCallback, listener, Handlers, net_udp_register}

abbrev pub udpl_buf_depth : ℕ
udpl_buf_depth = 16

abbrev pub udpl_pkt_max : ℕ
udpl_pkt_max = 512

abbrev pub udpl_max : ℕ
udpl_max = 4

pub record UdpPacket : Type 0 where
  pub src_ip : ℕ
  pub src_port : ℕ
  pub bytes : ℕ → ℕ  -- data
  pub len : ℕ

pub record UdpListener : Type 0 where
  pub port : ℕ
  pub used : Bool
  pub slots : ℕ → UdpPacket
  pub head : ℕ
  pub tail : ℕ

-- `s_listeners`, and the handler table of the network layer.
pub record UdpState : Type 0 where
  pub listeners : ℕ → UdpListener
  pub handlers : Handlers

-- `(i + 1) & (UDPL_BUF_DEPTH - 1)`
abbrev pub next_slot : ℕ → ℕ
next_slot i = bit_and (i + 1) (udpl_buf_depth - 1)

-- What `make_callback` leaves in the slot.
abbrev pub receive_into : UdpPacket → ℕ → ℕ → (ℕ → ℕ) → ℕ → UdpPacket
receive_into p src_ip src_port bytes len = record {
  src_ip = src_ip;
  src_port = src_port;
  bytes = copy_into p.bytes 0 bytes 0 (if ltb len udpl_pkt_max then len else udpl_pkt_max);
  len = if ltb len udpl_pkt_max then len else udpl_pkt_max;
}

-- `make_callback` for one listener.
unfoldable pub make_callback : UdpListener → ℕ → ℕ → (ℕ → ℕ) → ℕ → UdpListener
make_callback l src_ip src_port bytes len =
    if not l.used then l else if next_slot l.head == l.tail then l else record l {
      slots = update l.slots l.head (receive_into (l.slots l.head) src_ip src_port bytes len);
      head = next_slot l.head;
    }

abbrev pub fresh_listener : UdpListener → ℕ → UdpListener
fresh_listener l port = record l { port = port; head = 0; tail = 0; used = true }

unfoldable pub udpl_open : UdpState → ℕ → UdpState × ℤ
udpl_open st port = elim (find_index (λ i. not (st.listeners i).used) 0 udpl_max) [
  | none ↦ (st, minus_one)
  | some i ↦ (
    record {
      listeners = update st.listeners i (fresh_listener (st.listeners i) port);
      handlers = net_udp_register st.handlers port (some (listener i));
    },
    pos i,
  )
]

-- `udpl_recv` on the listener of a handle that is in range; `none`: it returns 0.
unfoldable pub recv_from : UdpListener → UdpListener × Option UdpPacket
recv_from l =
    if not l.used
    then (l, none)
    else if l.head == l.tail
    then (l, none)
    else (record l { tail = next_slot l.tail }, some (l.slots l.tail))

-- `handle < 0 || handle >= UDPL_MAX`
abbrev pub handle_index : ℤ → Option ℕ
handle_index (negsuc k) = none
handle_index (pos i) = if ltb i udpl_max then some i else none

unfoldable pub udpl_recv : UdpState → ℤ → UdpState × Option UdpPacket
udpl_recv st handle = elim (handle_index handle) [
  | none ↦ (st, none)
  | some i ↦
      let (l, got) = recv_from (st.listeners i) in
      (record st { listeners = update st.listeners i l }, got)
]

-- The wait of `udpl_recv_wait`: `clock k` is `pit_uptime_ms()` at the k-th test of the loop, and
-- `others` what interrupts do while the processor halts. `none`: out of fuel.
unfoldable pub recv_wait_loop :
    (clock : ℕ → ℕ) (others : ℕ → UdpState → UdpState) (handle : ℤ) (deadline : ℕ)
    → (fuel k : ℕ) → UdpState
    → Option (UdpState × Option UdpPacket)
recv_wait_loop clock others handle deadline zero k st = none
recv_wait_loop clock others handle deadline (suc fuel) k st =
    let (st', got) = udpl_recv st handle in
    let rest = recv_wait_loop clock others handle deadline fuel (k + 1) (others k st') in
    let wait : Option (UdpState × Option UdpPacket) = elim got [
      | none ↦ rest
      | some p ↦ some (st', some p)
    ] in
    if ltb (clock k) deadline then wait else some (st, none)

-- `clock 0` is the reading that sets the deadline.
unfoldable pub udpl_recv_wait :
    (clock : ℕ → ℕ) (others : ℕ → UdpState → UdpState)
    → (fuel : ℕ) → UdpState
    → ℤ
    → ℕ
    → Option (UdpState × Option UdpPacket)
udpl_recv_wait clock others fuel st handle timeout_ms = elim (handle_index handle) [
  | none ↦ some (st, none)
  | some i ↦ recv_wait_loop clock others handle (add32 (clock 0) timeout_ms) fuel 1 st
]

unfoldable pub udpl_close : UdpState → ℤ → UdpState
udpl_close st handle = elim (handle_index handle) [
  | none ↦ st
  | some i ↦ record {
    listeners = update st.listeners i (record (st.listeners i) { used = false });
    handlers = net_udp_register st.handlers (st.listeners i).port none;
  }
]
