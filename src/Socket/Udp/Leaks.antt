-- ===== src/Socket/Udp/Leaks.antt =====
-- What stays in the table of tipy/components/sockets_table.py for UDP.
use tipy.Common.{
  ℕ, ◌≡◌, refl, Bool, true, false, Option, none, some, List, [], ◌∷◌, ◌++◌, take, if◌then◌else◌,
}
use tipy.Packet.Tcp.Rx.{SockId}
use tipy.Address.Text.{Text}
use tipy.Socket.Table.{
  Errno, eaddrinuse, einval, edestaddrreq, Reply, returned, raised, exception, Sock, Host, id_of,
  set_id, same_id, register_socket, remove_socket_of_objects, register_bound_socket, check_bound,
  address_error, is_bound_port,
}
use tipy.Socket.Udp.{
  UdpState, put, fail, udp_register, udp_bind_port, udp_bind, udp_close, udp_send, udp_recv,
  get_data, local_address, is_connected, Call, bind, connect, close, send, recv, datagram, step,
  run,
}

-- The calls without `connect`.
abbrev pub NoConnect : List Call → Type 0
NoConnect [] = Unit
NoConnect (connect i text port ∷ cs) = ⊥
NoConnect (bind i text port ∷ cs) = NoConnect cs
NoConnect (close i ∷ cs) = NoConnect cs
NoConnect (send i payload ∷ cs) = NoConnect cs
NoConnect (recv i bufsize notified ∷ cs) = NoConnect cs
NoConnect (datagram id packet ∷ cs) = NoConnect cs

-- A socket is registered under the key.
abbrev pub IsRegistered : SockId → UdpState → Type 0
IsRegistered id s = (i : ℕ) × (s.table.sockets id ≡ some i)

module _ (id : SockId) where
  set_id-IsRegistered :
      (d : SockId → Option ℕ) (k : SockId) (i : ℕ)
      → (j : ℕ) × (d id ≡ some j)
      → (j : ℕ) × (set_id d k (some i) id ≡ some j)
  unfolding set_id
  set_id-IsRegistered d k i (j, e) = go (same_id k id)
    where
      go : (b : Bool) → (m : ℕ) × ((if b then some i else d id) ≡ some m)
      go true = (i, refl)
      go false = (j, e)

  udp_bind_port-IsRegistered :
      (i port : ℕ) (so : Sock) (s : UdpState)
      → IsRegistered id s
      → IsRegistered id (udp_bind_port i port so s).1
  unfolding udp_bind_port fail udp_register register_bound_socket register_socket
  udp_bind_port-IsRegistered i port so s h =
      go (is_bound_port so.local_port) (check_bound so.local_ip port s.table)
    where
      so' : Sock
      so' = record so { local_port = port }

      go :
          (b c : Bool)
          → IsRegistered id
              (if b
                then fail {A = Unit {0}} i einval so s
                else (if c then fail i eaddrinuse so' s else udp_register i so' s)).1
      go true c = h
      go false true = h
      go false false = set_id-IsRegistered s.table.sockets _ i h

  udp_bind-IsRegistered :
      (host : Host) (i : ℕ) (text : Text) (port : ℕ) (s : UdpState)
      → IsRegistered id s
      → IsRegistered id (udp_bind host i text port s).1
  unfolding udp_bind
  udp_bind-IsRegistered host i text port s h = go (address_error host text ((s.socks i).error))
    where
      so : Sock
      so = s.socks i

      go :
          (o : Option Errno)
          → IsRegistered id
              (elim o as (λ _. Reply (Unit {0}) × UdpState) [
                | some e ↦ (raised e, put i (record so { error = some e }) s)
                | none ↦
                    udp_bind_port i port
                      (record so { local_ip = local_address text so; error = none })
                      s
              ]).1
      go (some e) = h
      go none =
          udp_bind_port-IsRegistered i port
            (record so { local_ip = local_address text so; error = none }) s h

  udp_send-IsRegistered :
      (i : ℕ) (payload : List ℕ) (s : UdpState)
      → IsRegistered id s
      → IsRegistered id (udp_send i payload s).1
  unfolding udp_send fail
  udp_send-IsRegistered i payload s h =
      go (is_connected (s.socks i)) (s.table.entries ((s.socks i).sock_id))
    where
      so : Sock
      so = s.socks i

      go :
          (b : Bool) (o : Option Errno)
          → IsRegistered id
              (if b
                then elim o as (λ _. Reply (Unit {0}) × UdpState) [
                  | some e ↦ fail i e so s
                  | none ↦ (
                    returned tt,
                    record s {
                      sent =
                          s.sent
                          ++ ((id_of so.local_ip so.local_port so.remote_ip so.remote_port, payload)
                              ∷ []);
                    },
                  )
                ]
                else fail i edestaddrreq so s).1
      go true (some e) = h
      go true none = h
      go false o = h

  udp_recv-IsRegistered :
      (i bufsize : ℕ) (notified : Bool) (s : UdpState)
      → IsRegistered id s
      → IsRegistered id (udp_recv i bufsize notified s).1
  unfolding udp_recv fail
  udp_recv-IsRegistered i bufsize false s h = h
  udp_recv-IsRegistered i bufsize true s h = go ((s.socks i).queue)
    where
      go :
          (q : List (List ℕ))
          → IsRegistered id
              (elim q as (λ _. Reply (List ℕ) × UdpState) [
                | [] ↦ (exception, s)
                | packet ∷ rest ↦
                    (returned (take bufsize packet), put i (record (s.socks i) { queue = rest }) s)
              ]).1
      go [] = h
      go (packet ∷ rest) = h

  get_data-IsRegistered :
      (k : SockId) (packet : List ℕ) (s : UdpState)
      → IsRegistered id s
      → IsRegistered id (get_data k packet s)
  unfolding get_data
  get_data-IsRegistered k packet s h = go (s.table.sockets k)
    where
      go :
          (o : Option ℕ)
          → IsRegistered id (elim o as (λ _. UdpState) [
            | none ↦ s
            | some i ↦ put i (record (s.socks i) { queue = (s.socks i).queue ++ (packet ∷ []) }) s
          ])
      go none = h
      go (some i) = h

  -- A key under which a socket is registered keeps one through any calls but `connect`: closing a
  -- socket does not take it out of the table, and datagrams for it are still taken.
  pub run-IsRegistered :
      (host : Host) (cs : List Call) (s : UdpState)
      → NoConnect cs
      → IsRegistered id s
      → IsRegistered id (run host cs s)
  unfolding run step udp_close remove_socket_of_objects
  run-IsRegistered host [] s n h = h
  run-IsRegistered host (connect i text port ∷ cs) s n h = absurd n
  run-IsRegistered host (bind i text port ∷ cs) s n h =
      run-IsRegistered host cs _ n (udp_bind-IsRegistered host i text port s h)
  run-IsRegistered host (close i ∷ cs) s n h = run-IsRegistered host cs _ n h
  run-IsRegistered host (send i payload ∷ cs) s n h =
      run-IsRegistered host cs _ n (udp_send-IsRegistered i payload s h)
  run-IsRegistered host (recv i bufsize notified ∷ cs) s n h =
      run-IsRegistered host cs _ n (udp_recv-IsRegistered i bufsize notified s h)
  run-IsRegistered host (datagram k packet ∷ cs) s n h =
      run-IsRegistered host cs _ n (get_data-IsRegistered k packet s h)
