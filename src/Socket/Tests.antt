-- ===== src/Socket/Tests.antt =====
-- Calls of sockets at 192.168.2.200.
use tipy.Common.{
  ℕ, ◌-◌, ◌≡◌, refl, true, concat, false, Option, none, some, List, [], ◌∷◌, ◌++◌, take, arith,
}
use tipy.Address.Text.{Text}
use tipy.Buffer.Ring
use tipy.Buffer.Recoverable.{init, free_space, enqueue, dequeue}
use tipy.Buffer.Recoverable.Resend.{IsValid, unread}
use tipy.Tcp.Tests.Samples.{new_block}
use tipy.Socket.Table.{
  Errno, etimedout, econnrefused, Sock, Host, id_of, new_sock, address_error, returned,
}
use tipy.Socket.Tcp
use tipy.Socket.Tcp.{
  TcpState, waiting, sent, tcp_bind, tcp_send, tcp_send_woken, tcp_recv, tcp_recv_woken,
  tcp_connect_woken,
}
use tipy.Socket.Tcp.Errors.{IsRaised, run-IsRaised, run-bind}
use tipy.Socket.Tcp.Send.{buffer_of, between, tcp_send-restarts}
use tipy.Socket.Udp.{UdpState}

abbrev text : Text
text = b'1' ∷ b'.' ∷ b'2' ∷ b'.' ∷ b'3' ∷ b'.' ∷ b'4' ∷ []

abbrev host : Host
host = record { unicast_ip = 16909060; unicast_text = text }

-- One socket, 0, with the error and with the block 0
abbrev sock : Option Errno → Sock
sock error = record (new_sock 6) { error = error }

abbrev state : Option Errno → TcpState ℕ
state error = record {
  table = record {
    sockets = λ id. none;
    entries = λ id. some 0;
    bound_sockets = λ ip port. false;
    ephemeral_ports = [];
    used_ports = [];
  };
  socks = λ i. sock error;
  blocks = λ k. new_block;
  next_block = 1;
  events = [];
}

run-IsRaised_example :
    let s' =
      Tcp.run host
        (Tcp.connect_woken 0 ∷ Tcp.close 0 ∷ Tcp.error_set 0 econnrefused ∷ [])
        (state (some etimedout)) in
    ((text : Text) (port : ℕ) → IsRaised (tcp_bind host 0 text port s').0)
    × ((payload : List ℕ) → IsRaised (tcp_send 0 payload s').0)
    × ((bufsize : ℕ) → IsRaised (tcp_recv 0 bufsize s').0)
    × ((k dlen : ℕ) (payload : List ℕ) → IsRaised (tcp_send_woken 0 k payload dlen s').0)
    × IsRaised (tcp_connect_woken 0 s').0
    × ((k bufsize : ℕ)
        → (tcp_recv_woken 0 k bufsize true s').0
          ≡ returned (Ring.dequeue (s'.blocks k).rcv_buf bufsize).0)
run-IsRaised_example =
    run-IsRaised host (Tcp.connect_woken 0 ∷ Tcp.close 0 ∷ Tcp.error_set 0 econnrefused ∷ [])
      (state (some etimedout)) 0 (etimedout, refl)

-- Socket 0 is bound to 1.2.3.4:80 and closed; socket 1 cannot be bound to it.
run-bind_example :
    IsRaised
      (tcp_bind host 1 text 80 (
        Tcp.run host
          (Tcp.close 0 ∷ Tcp.block_removed (id_of 0 0 0 0) ∷ [])
          (tcp_bind host 0 text 80 (state none)).1)).0
unfolding tcp_bind new_sock address_error tipy.Address.Inet.ip_address
run-bind_example =
    run-bind host 0 text 80 16909060 (state none) refl refl
      (Tcp.close 0 ∷ Tcp.block_removed (id_of 0 0 0 0) ∷ []) 1

-- A block whose send buffer has eight places and three bytes in it
abbrev three_sent : TcpState ℕ
three_sent = record (state none) {
  blocks = λ k. record new_block { snd_buf = (enqueue (init 8) (1 ∷ 2 ∷ 3 ∷ [])).1 };
}

three_sent-IsValid : IsValid (buffer_of three_sent 0)
unfolding init enqueue tipy.Buffer.Slices.enqueue tipy.Buffer.Slices.stored
    tipy.Buffer.Slices.free_bytes unread tipy.Buffer.Recoverable.Resend.retained
three_sent-IsValid = record {
  reading = record { storage = refl; read_in = omega arith; write_in = omega arith };
  keeping = record { storage = refl; read_in = omega arith; write_in = omega arith };
  within = omega arith;
}

-- Four of the five bytes fit. All seven bytes are taken out, and three are acknowledged.
tcp_send-restarts_example :
    let room = free_space (buffer_of three_sent 0) in
    let left = 5 - room in
    let (r, t) = tcp_send 0 (4 ∷ 5 ∷ 6 ∷ 7 ∷ 8 ∷ []) three_sent in
    let (r', t') = tcp_send_woken 0 0 (4 ∷ 5 ∷ 6 ∷ 7 ∷ 8 ∷ []) left (between 0 7 3 t) in
    (r ≡ returned (waiting left))
    × (r' ≡ returned (sent 5))
    × (concat (dequeue (buffer_of t 0) 7).0 ++ unread (buffer_of t' 0)
        ≡ unread (buffer_of three_sent 0)
          ++ (take room (4 ∷ 5 ∷ 6 ∷ 7 ∷ 8 ∷ []) ++ (4 ∷ 5 ∷ 6 ∷ 7 ∷ 8 ∷ [])))
unfolding free_space init enqueue tipy.Buffer.Slices.free_bytes tipy.Buffer.Slices.enqueue tcp_send
    tipy.Buffer.Recoverable.free dequeue tipy.Buffer.Slices.dequeue tipy.Buffer.Slices.ready_bytes
    tipy.Buffer.Slices.stored
tcp_send-restarts_example =
    tcp_send-restarts 0 0 7 3 (4 ∷ 5 ∷ 6 ∷ 7 ∷ 8 ∷ []) three_sent refl refl three_sent-IsValid
      (omega arith) (omega arith)

-- A socket under the key of 1.2.3.4:53
abbrev registered : UdpState
registered = record {
  table = record {
    sockets = λ id. some 0;
    entries = λ id. none;
    bound_sockets = λ ip port. false;
    ephemeral_ports = [];
    used_ports = [];
  };
  socks = λ i. sock none;
  sent = [];
}
