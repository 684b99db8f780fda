-- ===== src/Socket/Raw.antt =====
-- tipy/protocols/raw/raw_usrreq.py, with `get_data` of raw/socket.py and RIPTable of
-- tipy/components/sockets_table.py.
use tipy.Common.{
  ℕ, ◌≡◌, refl, Bool, true, Option, none, some, List, [], ◌∷◌, ◌++◌, length, take, if◌then◌else◌,
  ◌==◌, arith,
}
use tipy.Arp.{set_at}
use tipy.Packet.Tcp.Rx.{SockId}
use tipy.Address.Text.{Text}
use tipy.Address.Inet.{ip_address}
use tipy.Socket.Table.{
  Errno, eaddrnotavail, etimedout, edestaddrreq, Reply, returned, raised, exception, Sock, Host,
  id_of, set_id, same_id, address_error,
}

-- A call of `tx_raw`: the data, the protocol, the source and the destination.
record RawPacket : Type 0 where
  payload : List ℕ
  protocol : ℕ
  src : ℕ
  dst : ℕ

-- `sockets` is the one dictionary of RIPTable.
record RawState : Type 0 where
  sockets : SockId → Option ℕ
  socks : ℕ → Sock
  sent : List RawPacket

-- (local_ip, proto, remote_ip)
abbrev raw_id : Sock → ℕ → SockId
raw_id so remote_ip = id_of so.local_ip so.proto remote_ip 0

abbrev put : ℕ → Sock → RawState → RawState
put i so s = record s { socks = set_at s.socks i so }

unfoldable fail : {A : Type 0} → ℕ → Errno → Sock → RawState → Reply A × RawState
unfolding set_at
fail i e so s = (raised e, put i (record so { error = some e }) s)

-- so.sock_id, and `register_socket`
unfoldable raw_register : ℕ → Sock → RawState → Reply (Unit {0}) × RawState
unfolding set_at set_id
raw_register i so s = (
  returned tt,
  put i (record so { sock_id = raw_id so so.remote_ip })
      (record s { sockets = set_id s.sockets (raw_id so so.remote_ip) (some i) }),
)

unfoldable raw_bind : Host → ℕ → Text → ℕ → RawState → Reply (Unit {0}) × RawState
unfolding fail raw_register
raw_bind host i text port s =
    let so = s.socks i in
    elim (address_error host text (so.error)) [
      | some e ↦ fail i e so s
      | none ↦
          raw_register i
            (record so {
              local_ip = elim (ip_address text) [ none ↦ so.local_ip | some ip ↦ ip ];
              local_port = port;
              error = none;
            })
            s
    ]

-- The address and the error that the `try` of `raw_connect` leaves
abbrev with_remote : Text → Sock → Sock
with_remote text so = elim (ip_address text) [
  | none ↦ record so { error = some eaddrnotavail }
  | some ip ↦ record so { remote_ip = ip }
]

-- What follows `raise_exception`. The socket leaves the key of its bind, if it has an address.
unfoldable raw_connect_from : Host → ℕ → Sock → RawState → Reply (Unit {0}) × RawState
unfolding raw_register set_id
raw_connect_from host i so s =
    if so.local_ip == 0
    then raw_register i (record so { local_ip = host.unicast_ip }) s
    else raw_register i so (record s { sockets = set_id s.sockets (raw_id so 0) none })

unfoldable raw_connect : Host → ℕ → Text → ℕ → RawState → Reply (Unit {0}) × RawState
unfolding fail raw_connect_from
raw_connect host i text port s =
    let so = with_remote text (s.socks i) in
    elim (so.error) [
      | some e ↦ fail i e so s
      | none ↦ raw_connect_from host i (record so { remote_port = port }) s
    ]

unfoldable raw_close : ℕ → RawState → RawState
unfolding set_id
raw_close i s = record s { sockets = set_id s.sockets ((s.socks i).sock_id) none }

unfoldable raw_send : ℕ → List ℕ → RawState → Reply ℕ × RawState
unfolding fail
raw_send i payload s =
    let so = s.socks i in
    if so.remote_ip == 0 then fail i edestaddrreq so s else (
      returned (length payload),
      record s {
        sent =
            s.sent
            ++ (record {
              payload = payload;
              protocol = so.proto;
              src = so.local_ip;
              dst = so.remote_ip;
            }
                ∷ []);
      },
    )

-- The call always waits. It is `notified` in time, or not.
unfoldable raw_recv : ℕ → ℕ → Bool → RawState → Reply (List ℕ) × RawState
unfolding fail set_at
raw_recv i bufsize notified s =
    if notified
    then elim ((s.socks i).queue) [
      | [] ↦ (exception, s)
      | packet ∷ rest ↦
          (returned (take bufsize packet), put i (record (s.socks i) { queue = rest }) s)
    ]
    else fail i etimedout (s.socks i) s

-- `get_data`, called by `_h_icmp_echo_rep` and `rx_ip`
unfoldable get_data : SockId → List ℕ → RawState → RawState
unfolding set_at
get_data id packet s = elim (s.sockets id) [
  | none ↦ s
  | some i ↦ put i (record (s.socks i) { queue = (s.socks i).queue ++ (packet ∷ []) }) s
]

same_id_refl : (id : SockId) → same_id id id ≡ true
unfolding same_id
same_id_refl id = ground arith

-- A closed socket gets no more packets under its key.
raw_close-get_data :
    (i : ℕ) (packet : List ℕ) (s : RawState)
    → get_data ((s.socks i).sock_id) packet (raw_close i s) ≡ raw_close i s
unfolding get_data raw_close set_id
raw_close-get_data i packet s =
    rw (get_data, raw_close, set_id, same_id_refl ((s.socks i).sock_id)) refl
