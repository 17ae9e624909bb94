-- ===== src/Tcp/Tests.antt =====
-- Examples for the sockets of kernel/tcp.cpp.
use sabaka_os.Common.{ℕ, ◌+◌, refl, arith, true, [], ◌==◌, if◌then◌else◌}
use sabaka_os.Tcp.State.{established, TcpSocket, Tcp, Env, zero_socket}
use sabaka_os.Tcp.Receive.{Incoming, parse, take_payload, tcp_receive}
use sabaka_os.Tcp.Buffer.{IsValid, Stored, take_payload-Stored}
use sabaka_os.Tcp.Machine.{Moved, tcp_receive-Moved}
use sabaka_os.Tcp.Received.{AllValid, tcp_receive-AllValid}

-- Connected, with two bytes to read, the second one past the wrap.
abbrev open_socket : TcpSocket
open_socket = record zero_socket {
  state = established;
  used = true;
  local_port = 49152;
  remote_port = 80;
  remote_ip = 16777343;
  recv_buf = λ i. i;
  recv_head = 1;
  recv_tail = 8191;
  recv_len = 2;
  rcv_nxt = 1000;
  snd_nxt = 7;
  snd_una = 7;
}

open_socket-IsValid : IsValid open_socket
open_socket-IsValid = record { tail_in = omega arith; len_in = omega arith; head_at = refl }

abbrev one_open : Tcp
one_open = record {
  socks = λ i. if i == 3 then open_socket else zero_socket;
  next_port = 49153;
  link = record { ip_id = 24576; wire = []; calls = 0 };
}

one_open-AllValid : AllValid one_open
one_open-AllValid j = record {
  tail_in = ground arith;
  len_in = ground arith;
  head_at = ground arith;
}

abbrev working : Env
working = record { got_buffer = λ k. true; card_took = λ k. true; now = 5000 }

-- A segment with a header of 20 bytes, FIN and ACK set, and no payload, from port 80 to 49152.
abbrev fin_bytes : ℕ → ℕ
fin_bytes i =
    if i == 1 then 80 else if i == 2 then 192 else if i == 12 then 80 else if i == 13 then 17 else 0

tcp_receive-Moved_example :
    Moved one_open.socks
      (tcp_receive working one_open 16777343 fin_bytes 20).socks
      (parse 16777343 fin_bytes 20)
      20
      20
tcp_receive-Moved_example = tcp_receive-Moved working one_open 16777343 fin_bytes 20

tcp_receive-AllValid_example : AllValid (tcp_receive working one_open 16777343 fin_bytes 20)
tcp_receive-AllValid_example =
    tcp_receive-AllValid working one_open 16777343 fin_bytes 20 one_open-AllValid

-- Four bytes of payload.
abbrev four_bytes : Incoming
four_bytes = record (parse 16777343 fin_bytes 20) {
  seg_seq = 1000;
  payload = λ i. i + 65;
  pay_len = 4;
}

take_payload-Stored_example : Stored open_socket four_bytes (take_payload open_socket four_bytes)
take_payload-Stored_example = take_payload-Stored four_bytes open_socket-IsValid
