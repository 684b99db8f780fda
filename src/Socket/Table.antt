-- ===== src/Socket/Table.antt =====
-- `UDPTable`, `TCPTable` and `RIPTable` of tipy/components/sockets_table.py, and what sockets of all
-- kinds have in common (tipy/lib/socket.py, tipy/lib/errno.py).
use tipy.Common.{
  ℕ, Bool, true, false, not, ◌&&◌, ◌||◌, Option, none, some, List, [], ◌∷◌, if◌then◌else◌, ltb,
  ◌==◌,
}
use tipy.Packet.Tcp.Rx.{SockId}
use tipy.Address.Text.{Text}
use tipy.Address.Inet.{ip_address}

-- `Errno` and `GaiError`
pub data Errno : Type 0 where
  econnrefused econnreset epipe eaddrnotavail eaddrinuse enoprotoopt eopnotsupp einval : Errno
  etimedout edestaddrreq enotconn eai_noname : Errno

-- A call returns, ends with the exception of `raise_exception` or with another one, or waits.
pub data Reply (A : Type 0) : Type 0 where
  returned : A → Reply A
  raised : Errno → Reply A
  exception waits : Reply A

-- The fields of every socket. `error` is `none` for 0. Datagrams wait in `queue`. A raw socket has
-- its protocol in the place of the local port of `sock_id`.
pub record Sock : Type 0 where
  pub local_ip : ℕ
  pub local_port : ℕ
  pub remote_ip : ℕ
  pub remote_port : ℕ
  pub proto : ℕ
  pub error : Option Errno
  pub sock_id : SockId
  pub queue : List (List ℕ)

-- The host's address, as a number and as the text that it was made of.
pub record Host : Type 0 where
  pub unicast_ip : ℕ
  pub unicast_text : Text

abbrev pub id_of : ℕ → ℕ → ℕ → ℕ → SockId
id_of local_ip local_port remote_ip remote_port = record {
  local_ip = local_ip;
  local_port = local_port;
  remote_ip = remote_ip;
  remote_port = remote_port;
}

-- `UDPSocket.__init__`, and those of the other kinds
unfoldable pub new_sock : ℕ → Sock
new_sock proto = record {
  local_ip = 0;
  local_port = 0;
  remote_ip = 0;
  remote_port = 0;
  proto = proto;
  error = none;
  sock_id = id_of 0 0 0 0;
  queue = [];
}

unfoldable pub same_id : SockId → SockId → Bool
same_id x y =
    (x.local_ip == y.local_ip)
    && ((x.local_port == y.local_port)
        && ((x.remote_ip == y.remote_ip) && (x.remote_port == y.remote_port)))

unfoldable pub same_text : Text → Text → Bool
same_text [] [] = true
same_text [] (y ∷ ys) = false
same_text (x ∷ xs) [] = false
same_text (x ∷ xs) (y ∷ ys) = (x == y) && same_text xs ys

-- A table. `entries` is `err_msg` of UDPTable and `tcpcbs` of TCPTable. The order of the list of
-- ephemeral ports is the one in which `set.pop` takes them.
pub record Table (E : Type 0) : Type 0 where
  pub sockets : SockId → Option ℕ
  pub entries : SockId → Option E
  pub bound_sockets : ℕ → ℕ → Bool
  pub ephemeral_ports : List ℕ
  pub used_ports : List ℕ

-- d[k] = v, and d.pop(k, None)
unfoldable pub set_id {ℓ} :
    {A : Type ℓ} → (SockId → Option A) → SockId → Option A → SockId → Option A
unfolding same_id
set_id d k v k' = if same_id k k' then v else d k'

unfoldable pub member : ℕ → List ℕ → Bool
member p [] = false
member p (q ∷ qs) = (p == q) || member p qs

module _ {E : Type 0} where
  unfoldable pub register_socket : SockId → ℕ → Table E → Table E
  unfolding set_id
  register_socket sock_id socket t = record t { sockets = set_id t.sockets sock_id (some socket) }

  unfoldable pub remove_socket : SockId → Table E → Table E
  unfolding set_id
  remove_socket sock_id t = record t { sockets = set_id t.sockets sock_id none }

  -- The key of `udp_close` has IPAddress objects in it, which equal no integer.
  unfoldable pub remove_socket_of_objects : Table E → Table E
  remove_socket_of_objects t = t

  unfoldable pub update_socket : SockId → SockId → ℕ → Table E → Table E
  unfolding register_socket remove_socket
  update_socket old new socket t = register_socket new socket (remove_socket old t)

  unfoldable pub register_bound_socket : ℕ → ℕ → Table E → Table E
  register_bound_socket ip port t = record t {
    bound_sockets = λ i p. ((i == ip) && (p == port)) || t.bound_sockets i p;
  }

  unfoldable pub check_bound : ℕ → ℕ → Table E → Bool
  check_bound ip port t = t.bound_sockets ip port

  unfoldable pub add_used_port : ℕ → Table E → Table E
  unfolding member
  add_used_port port t =
      if member port t.ephemeral_ports then t else record t { used_ports = port ∷ t.used_ports }

  -- `pick_ephemeral_udp_port` and `pick_ephemeral_tcp_port`: without a port left, KeyError
  unfoldable pub pick_ephemeral_port : Table E → Option (ℕ × Table E)
  unfolding add_used_port
  pick_ephemeral_port t = elim (t.ephemeral_ports) [
    | [] ↦ none
    | p ∷ ps ↦ some (p, add_used_port p (record t { ephemeral_ports = ps }))
  ]

  -- `tcpcbs[sock_id] = tcpcb`, `tcpcbs.pop(sock_id, None)`, and `err_msg[sock_id] = error`
  unfoldable pub register_entry : SockId → E → Table E → Table E
  unfolding set_id
  register_entry sock_id e t = record t { entries = set_id t.entries sock_id (some e) }

  unfoldable pub remove_entry : SockId → Table E → Table E
  unfolding set_id
  remove_entry sock_id t = record t { entries = set_id t.entries sock_id none }

-- The `try` of the bind calls: the text is compared with the text of the host's address.
unfoldable pub address_error : Host → Text → Option Errno → Option Errno
unfolding ip_address same_text
address_error host text error = elim (ip_address text) [
  | none ↦ some eai_noname
  | some ip ↦ if same_text text host.unicast_text then error else some eaddrnotavail
]

-- so.local_port in range(1, 65535)
unfoldable pub is_bound_port : ℕ → Bool
is_bound_port port = not (port == 0) && ltb port 65535
