-- ===== src/Socket/Udp.antt =====
-- tipy/protocols/udp/udp_usrreq.py, with `get_data` of udp/socket.py.
pub mod Leaks
use tipy.Common.{
  ℕ, Bool, true, false, not, ◌&&◌, Option, none, some, List, [], ◌∷◌, ◌++◌, take, if◌then◌else◌,
  ltb, ◌==◌,
}
use tipy.Arp.{set_at}
use tipy.Packet.Tcp.Rx.{SockId}
use tipy.Address.Text.{Text}
use tipy.Address.Inet.{ip_address}
use tipy.Socket.Table.{
  Errno, eaddrinuse, einval, etimedout, edestaddrreq, Reply, returned, raised, exception, Sock,
  Host, id_of, Table, register_socket, update_socket, remove_socket_of_objects,
  register_bound_socket, check_bound, pick_ephemeral_port, register_entry, address_error,
  is_bound_port,
}

-- The table, with the errors of ICMP messages, the sockets by their numbers, and the calls of
-- `tx_udp`.
pub record UdpState : Type 0 where
  pub table : Table Errno
  pub socks : ℕ → Sock
  pub sent : List (SockId × List ℕ)

abbrev pub put : ℕ → Sock → UdpState → UdpState
put i so s = record s { socks = set_at s.socks i so }

unfoldable pub fail : {A : Type 0} → ℕ → Errno → Sock → UdpState → Reply A × UdpState
unfolding set_at
fail i e so s = (raised e, put i (record so { error = some e }) s)

unfoldable pub udp_register : ℕ → Sock → UdpState → Reply (Unit {0}) × UdpState
unfolding set_at register_socket register_bound_socket
udp_register i so s =
    let id = id_of so.local_ip so.local_port so.remote_ip so.remote_port in
    (
      returned tt,
      put i (record so { sock_id = id })
          (record s {
            table = register_bound_socket so.local_ip so.local_port (register_socket id i s.table);
          }),
    )

-- `udp_bind` behind the first `raise_exception`, for an address that was read
unfoldable pub udp_bind_port : ℕ → ℕ → Sock → UdpState → Reply (Unit {0}) × UdpState
unfolding fail udp_register is_bound_port check_bound
udp_bind_port i port so s =
    if is_bound_port so.local_port
    then fail i einval so s
    else (if check_bound so.local_ip port s.table
        then fail i eaddrinuse (record so { local_port = port }) s
        else udp_register i (record so { local_port = port }) s)

abbrev pub local_address : Text → Sock → ℕ
local_address text so = elim (ip_address text) [ none ↦ so.local_ip | some ip ↦ ip ]

-- Where the error is raised, the address is not stored.
unfoldable pub udp_bind : Host → ℕ → Text → ℕ → UdpState → Reply (Unit {0}) × UdpState
unfolding udp_bind_port set_at
udp_bind host i text port s =
    let so = s.socks i in
    elim (address_error host text (so.error)) [
      | some e ↦ (raised e, put i (record so { error = some e }) s)
      | none ↦ udp_bind_port i port (record so { local_ip = local_address text so; error = none }) s
    ]

unfoldable pub udp_connect_from : Host → ℕ → Sock → UdpState → Reply (Unit {0}) × UdpState
unfolding pick_ephemeral_port register_socket update_socket set_at
udp_connect_from host i so s =
    if so.local_port == 0
    then elim (pick_ephemeral_port s.table) [
      | none ↦ (exception, put i so s)
      | some (port, table) ↦
          let id = id_of host.unicast_ip port so.remote_ip so.remote_port in
          (
            returned tt,
            put i (record so { local_port = port; local_ip = host.unicast_ip; sock_id = id })
                (record s { table = register_socket id i table }),
          )
    ]
    else (let id = id_of so.local_ip so.local_port so.remote_ip so.remote_port in
        (
          returned tt,
          put i (record so { sock_id = id })
              (record s {
                table = update_socket (id_of so.local_ip so.local_port 0 0) id i s.table;
              }),
        ))

-- `udp_connect`: IPFormatError is not caught.
unfoldable pub udp_connect : Host → ℕ → Text → ℕ → UdpState → Reply (Unit {0}) × UdpState
unfolding udp_connect_from
udp_connect host i text port s = elim (ip_address text) [
  | none ↦ (exception, s)
  | some ip ↦ udp_connect_from host i (record (s.socks i) { remote_ip = ip; remote_port = port }) s
]

unfoldable pub udp_close : ℕ → UdpState → UdpState
unfolding remove_socket_of_objects
udp_close i s = record s { table = remove_socket_of_objects s.table }

-- so.remote_ip.ip != 0 and so.remote_port
abbrev pub is_connected : Sock → Bool
is_connected so = not (so.remote_ip == 0) && not (so.remote_port == 0)

unfoldable pub udp_send : ℕ → List ℕ → UdpState → Reply (Unit {0}) × UdpState
unfolding fail
udp_send i payload s =
    let so = s.socks i in
    if is_connected so
    then elim (s.table.entries (so.sock_id)) [
      | some e ↦ fail i e so s
      | none ↦ (
        returned tt,
        record s {
          sent =
              s.sent
              ++ ((id_of so.local_ip so.local_port so.remote_ip so.remote_port, payload) ∷ []);
        },
      )
    ]
    else fail i edestaddrreq so s

-- `udp_recv`: the call always waits. It is `notified` in time, or not.
unfoldable pub udp_recv : ℕ → ℕ → Bool → UdpState → Reply (List ℕ) × UdpState
unfolding fail set_at
udp_recv i bufsize notified s =
    if notified
    then elim ((s.socks i).queue) [
      | [] ↦ (exception, s)
      | packet ∷ rest ↦
          (returned (take bufsize packet), put i (record (s.socks i) { queue = rest }) s)
    ]
    else fail i etimedout (s.socks i) s

-- `get_data`, called by `rx_udp` for the socket of a datagram
unfoldable pub get_data : SockId → List ℕ → UdpState → UdpState
unfolding set_at
get_data id packet s = elim (s.table.sockets id) [
  | none ↦ s
  | some i ↦ put i (record (s.socks i) { queue = (s.socks i).queue ++ (packet ∷ []) }) s
]

pub data Call : Type 0 where
  bind connect : ℕ → Text → ℕ → Call
  close : ℕ → Call
  send : ℕ → List ℕ → Call
  recv : ℕ → ℕ → Bool → Call
  datagram : SockId → List ℕ → Call

unfoldable pub step : Host → Call → UdpState → UdpState
step host (bind i text port) s = (udp_bind host i text port s).1
step host (connect i text port) s = (udp_connect host i text port s).1
step host (close i) s = udp_close i s
step host (send i payload) s = (udp_send i payload s).1
step host (recv i bufsize notified) s = (udp_recv i bufsize notified s).1
step host (datagram id packet) s = get_data id packet s

unfoldable pub run : Host → List Call → UdpState → UdpState
unfolding step
run host [] s = s
run host (c ∷ cs) s = run host cs (step host c s)
