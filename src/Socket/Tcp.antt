-- ===== src/Socket/Tcp.antt =====
-- tipy/protocols/tcp/tcp_usrreq.py. A call ends where it waits; what happens when it is woken is a
-- function of its own, and what other threads do in between is a call of `Call`.
pub mod Grows
pub mod Errors
pub mod Send
use tipy.Common.{
  ℕ, suc, ◌+◌, ◌-◌, Bool, true, false, Option, none, some, List, [], ◌∷◌, ◌++◌, length,
  if◌then◌else◌, ltb, ◌==◌,
}
use tipy.Arp.{set_at}
use tipy.Packet.Tcp.Rx.{SockId}
use tipy.Address.Text.{Text}
use tipy.Address.Inet.{ip_address}
use tipy.Buffer.Ring.{RingBuffer}
use tipy.Buffer.Ring
use tipy.Buffer.Recoverable
use tipy.Tcp.Types.{
  State, listen, syn_sent, syn_recv, estab, fin_wait_1, fin_wait_2, close_wait, closing, last_ack,
  time_wait, closed, Tcpcb, FloatOps, init,
}
use tipy.Socket.Table.{
  Errno, epipe, eaddrnotavail, eaddrinuse, einval, etimedout, enotconn, Reply, returned, raised,
  exception, waits, Sock, Host, id_of, Table, register_socket, remove_socket, update_socket,
  register_bound_socket, check_bound, pick_ephemeral_port, register_entry, remove_entry,
  address_error, is_bound_port,
}

-- `TCPEvent`, with the number of its block
pub data TcpEvent : Type 0 where
  connect_event send_event : ℕ → TcpEvent

-- The table, the sockets and the control blocks by their numbers, the number of the next block, and
-- the events that were scheduled.
pub record TcpState (R : Type 0) : Type 0 where
  pub table : Table ℕ
  pub socks : ℕ → Sock
  pub blocks : ℕ → Tcpcb R
  pub next_block : ℕ
  pub events : List TcpEvent

-- NON_RECEIVABLE_STATES
unfoldable pub non_receivable : State → Bool
non_receivable close_wait = true
non_receivable last_ack = true
non_receivable closed = true
non_receivable closing = true
non_receivable time_wait = true
non_receivable listen = false
non_receivable syn_sent = false
non_receivable syn_recv = false
non_receivable estab = false
non_receivable fin_wait_1 = false
non_receivable fin_wait_2 = false

-- How far `send` is: all is in the buffer, or it waits for room for so many bytes.
pub data Progress : Type 0 where
  sent waiting : ℕ → Progress

-- The address is stored before its error is raised.
abbrev pub with_address : Host → Text → Sock → Sock
with_address host text so = record so {
  local_ip = elim (ip_address text) [ none ↦ so.local_ip | some ip ↦ ip ];
  error = address_error host text so.error;
}

module _ {R : Type 0} where
  abbrev pub put : ℕ → Sock → TcpState R → TcpState R
  put i so s = record s { socks = set_at s.socks i so }

  -- so.error = e; so.raise_exception()
  unfoldable pub fail : {A : Type 0} → ℕ → Errno → Sock → TcpState R → Reply A × TcpState R
  unfolding set_at
  fail i e so s = (raised e, put i (record so { error = some e }) s)

  -- so.sock_id, and the tables
  unfoldable pub tcp_register : ℕ → Sock → TcpState R → Reply (Unit {0}) × TcpState R
  unfolding set_at register_socket register_bound_socket
  tcp_register i so s =
      let id = id_of so.local_ip so.local_port so.remote_ip so.remote_port in
      (
        returned tt,
        put i (record so { sock_id = id })
            (record s {
              table =
                  register_bound_socket so.local_ip so.local_port (register_socket id i s.table);
            }),
      )

  -- `tcp_bind` behind the first `raise_exception`
  unfoldable pub tcp_bind_port : ℕ → ℕ → Sock → TcpState R → Reply (Unit {0}) × TcpState R
  unfolding fail tcp_register is_bound_port check_bound
  tcp_bind_port i port so s =
      if is_bound_port so.local_port
      then fail i einval so s
      else (if check_bound so.local_ip port s.table
          then fail i eaddrinuse (record so { local_port = port }) s
          else tcp_register i (record so { local_port = port }) s)

  unfoldable pub tcp_bind : Host → ℕ → Text → ℕ → TcpState R → Reply (Unit {0}) × TcpState R
  unfolding tcp_bind_port set_at
  tcp_bind host i text port s =
      let so = with_address host text (s.socks i) in
      elim (address_error host text ((s.socks i).error)) [
        | some e ↦ (raised e, put i so s)
        | none ↦ tcp_bind_port i port so s
      ]

  -- The new block is registered, CONNECT is scheduled, and the call waits for `connect_events`.
  unfoldable pub tcp_connect_start :
      Tcpcb R → ℕ → Sock → Table ℕ → TcpState R → Reply (Unit {0}) × TcpState R
  unfolding set_at register_entry
  tcp_connect_start block i so table s = (
    waits,
    put i so (record s {
      table = register_entry so.sock_id s.next_block table;
      blocks = set_at s.blocks s.next_block block;
      next_block = suc s.next_block;
      events = s.events ++ (connect_event s.next_block ∷ []);
    }),
  )

  -- The port and the address of a socket without a port, and the entry of the table
  unfoldable pub tcp_connect_from :
      Host → Tcpcb R → ℕ → Sock → TcpState R → Reply (Unit {0}) × TcpState R
  unfolding tcp_connect_start pick_ephemeral_port register_socket update_socket set_at
  tcp_connect_from host block i so s =
      if so.local_port == 0
      then elim (pick_ephemeral_port s.table) [
        | none ↦ (exception, put i so s)
        | some (port, table) ↦
            let id = id_of host.unicast_ip port so.remote_ip so.remote_port in
            tcp_connect_start block i
              (record so { local_port = port; local_ip = host.unicast_ip; sock_id = id })
              (register_socket id i table) s
      ]
      else (let id = id_of so.local_ip so.local_port so.remote_ip so.remote_port in
          tcp_connect_start block i (record so { sock_id = id })
            (update_socket (id_of so.local_ip so.local_port 0 0) id i s.table) s)

  -- `block` is what `TCPCB.__init__` makes.
  unfoldable pub tcp_connect :
      Host → Tcpcb R → ℕ → Text → ℕ → TcpState R → Reply (Unit {0}) × TcpState R
  unfolding tcp_connect_from fail
  tcp_connect host block i text port s = elim (ip_address text) [
    | none ↦ fail i eaddrnotavail (s.socks i) s
    | some ip ↦
        tcp_connect_from host block i (record (s.socks i) { remote_ip = ip; remote_port = port }) s
  ]

  -- `so.raise_exception()`, and else what follows
  abbrev pub unless_error :
      {A : Type 0} → Option Errno → TcpState R → Reply A × TcpState R → Reply A × TcpState R
  unless_error none s r = r
  unless_error (some e) s r = (raised e, s)

  -- `tcp_connect` when it is woken
  unfoldable pub tcp_connect_woken : ℕ → TcpState R → Reply (Unit {0}) × TcpState R
  tcp_connect_woken i s = unless_error ((s.socks i).error) s (returned tt, s)

  -- One round of the loop of `tcp_send`: all of the data are given to the buffer. What is left to
  -- send is 0 also where Python's `dlen` is below 0.
  unfoldable pub tcp_send_round : ℕ → List ℕ → ℕ → TcpState R → Progress × TcpState R
  unfolding set_at Recoverable.enqueue
  tcp_send_round k payload dlen s =
      let (l, snd_buf) = Recoverable.enqueue ((s.blocks k).snd_buf) payload in
      (
        if ltb 0 (dlen - l) then waiting (dlen - l) else sent (length payload),
        record s {
          blocks = set_at s.blocks k (record (s.blocks k) { snd_buf = snd_buf });
          events = s.events ++ (send_event k ∷ []);
        },
      )

  -- `tcp_send` up to its end or its first wait. The loop is not entered without data.
  unfoldable pub tcp_send : ℕ → List ℕ → TcpState R → Reply Progress × TcpState R
  unfolding tcp_send_round fail
  tcp_send i payload s =
      unless_error ((s.socks i).error) s (elim (s.table.entries ((s.socks i).sock_id)) [
        | none ↦ fail i epipe (s.socks i) s
        | some k ↦
            if length payload == 0
            then (returned (sent 0), s)
            else (let (p, s') = tcp_send_round k payload (length payload) s in (returned p, s'))
      ])

  -- `tcp_send` when it is woken with `dlen` bytes to go
  unfoldable pub tcp_send_woken : ℕ → ℕ → List ℕ → ℕ → TcpState R → Reply Progress × TcpState R
  unfolding tcp_send_round
  tcp_send_woken i k payload dlen s =
      unless_error ((s.socks i).error) s
        (let (p, s') = tcp_send_round k payload dlen s in (returned p, s'))

  -- The end of `tcp_recv`
  unfoldable pub tcp_dequeue : ℕ → ℕ → RingBuffer → TcpState R → Reply (List (List ℕ)) × TcpState R
  unfolding set_at Ring.dequeue
  tcp_dequeue k bufsize buf s =
      let (views, rcv_buf) = Ring.dequeue buf bufsize in
      (
        returned views,
        record s { blocks = set_at s.blocks k (record (s.blocks k) { rcv_buf = rcv_buf }) },
      )

  -- `tcp_recv` of the block `k`, up to its end or to its wait for `recv_events`, which it reaches if
  -- the buffer is empty.
  unfoldable pub tcp_recv_block : ℕ → ℕ → TcpState R → Reply (List (List ℕ)) × TcpState R
  unfolding tcp_dequeue non_receivable Ring.is_empty
  tcp_recv_block k bufsize s =
      if non_receivable (s.blocks k).state
      then (returned [], s)
      else (if Ring.is_empty (s.blocks k).rcv_buf
          then (waits, s)
          else tcp_dequeue k bufsize (s.blocks k).rcv_buf s)

  unfoldable pub tcp_recv : ℕ → ℕ → TcpState R → Reply (List (List ℕ)) × TcpState R
  unfolding tcp_recv_block fail
  tcp_recv i bufsize s =
      unless_error ((s.socks i).error) s (elim (s.table.entries ((s.socks i).sock_id)) [
        | none ↦ fail i enotconn (s.socks i) s
        | some k ↦ tcp_recv_block k bufsize s
      ])

  -- `tcp_recv` of the block `k` when its wait ends, `notified` in time or not. No error is looked
  -- at: what the buffer has then is returned, also if that is nothing.
  unfoldable pub tcp_recv_woken : ℕ → ℕ → ℕ → Bool → TcpState R → Reply (List (List ℕ)) × TcpState R
  unfolding tcp_dequeue fail
  tcp_recv_woken i k bufsize notified s =
      if notified
      then tcp_dequeue k bufsize (s.blocks k).rcv_buf s
      else fail i etimedout (s.socks i) s

  unfoldable pub tcp_close : ℕ → TcpState R → TcpState R
  unfolding set_at remove_socket
  tcp_close i s = elim (s.table.entries ((s.socks i).sock_id)) [
    | none ↦ record s { table = remove_socket (s.socks i).sock_id s.table }
    | some k ↦ record s {
      blocks = set_at s.blocks k (record (s.blocks k) { close_requested = true });
      events = s.events ++ (send_event k ∷ []);
    }
  ]

  unfoldable pub tcp_shutdown : ℕ → TcpState R → Reply (Unit {0}) × TcpState R
  unfolding set_at fail
  tcp_shutdown i s = elim (s.table.entries ((s.socks i).sock_id)) [
    | none ↦ fail i enotconn (s.socks i) s
    | some k ↦ (
      returned tt,
      record s {
        blocks = set_at s.blocks k (record (s.blocks k) { shutdown_requested = true });
        events = s.events ++ (send_event k ∷ []);
      },
    )
  ]

  -- `remove_tcpcb` of tcpcb.py
  unfoldable pub remove_tcpcb : SockId → TcpState R → TcpState R
  unfolding remove_socket remove_entry
  remove_tcpcb id s = record s { table = remove_entry id (remove_socket id s.table) }

-- What happens to the sockets: the calls of all applications with the waking of those that wait, and
-- what the state machine does: it changes a block, sets the error of a socket, or removes a block.
pub data Call (R : Type 0) : Type 0 where
  bind : ℕ → Text → ℕ → Call R
  connect : Tcpcb R → ℕ → Text → ℕ → Call R
  connect_woken : ℕ → Call R
  send : ℕ → List ℕ → Call R
  send_woken : ℕ → ℕ → List ℕ → ℕ → Call R
  recv : ℕ → ℕ → Call R
  recv_woken : ℕ → ℕ → ℕ → Bool → Call R
  close shutdown : ℕ → Call R
  block_changed : ℕ → Tcpcb R → Call R
  error_set : ℕ → Errno → Call R
  block_removed : SockId → Call R

module _ {R : Type 0} where
  unfoldable pub step : Host → Call R → TcpState R → TcpState R
  unfolding set_at
  step host (bind i text port) s = (tcp_bind host i text port s).1
  step host (connect block i text port) s = (tcp_connect host block i text port s).1
  step host (connect_woken i) s = (tcp_connect_woken i s).1
  step host (send i payload) s = (tcp_send i payload s).1
  step host (send_woken i k payload dlen) s = (tcp_send_woken i k payload dlen s).1
  step host (recv i bufsize) s = (tcp_recv i bufsize s).1
  step host (recv_woken i k bufsize notified) s = (tcp_recv_woken i k bufsize notified s).1
  step host (close i) s = tcp_close i s
  step host (shutdown i) s = (tcp_shutdown i s).1
  step host (block_changed k block) s = record s { blocks = set_at s.blocks k block }
  step host (error_set i e) s = put i (record (s.socks i) { error = some e }) s
  step host (block_removed id) s = remove_tcpcb id s

  unfoldable pub run : Host → List (Call R) → TcpState R → TcpState R
  unfolding step
  run host [] s = s
  run host (c ∷ cs) s = run host cs (step host c s)
