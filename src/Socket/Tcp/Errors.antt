-- ===== src/Socket/Tcp/Errors.antt =====
-- What the calls of tipy/protocols/tcp/tcp_usrreq.py answer after an error, and after a bind.
use tipy.Common.{
  ℕ, ◌≡◌, refl, sym, ap, ◌∙◌, Bool, true, false, ◌&&◌, ◌||◌, Option, none, some, List,
  if◌then◌else◌, ◌==◌, arith,
}
use tipy.Arp.{set_at}
use tipy.Address.Text.{Text}
use tipy.Address.Inet.{ip_address}
use tipy.Buffer.Ring
use tipy.Socket.Table.{
  Errno, Reply, returned, raised, exception, waits, Sock, Host, check_bound, address_error,
  eaddrinuse, einval, is_bound_port, register_bound_socket,
}
use tipy.Socket.Tcp.{
  TcpState, fail, with_address, tcp_register, tcp_bind_port, tcp_bind, unless_error,
  tcp_connect_woken, tcp_send, tcp_send_woken, tcp_recv, tcp_recv_woken, tcp_dequeue, Call, run,
}
use tipy.Socket.Tcp.Grows.{HasError, run-Grows, address_error-Worse}

-- A call that ends with the exception of an error of the socket.
abbrev pub IsRaised : {A : Type 0} → Reply A → Type 0
IsRaised (returned a) = ⊥
IsRaised (raised e) = Unit
IsRaised exception = ⊥
IsRaised waits = ⊥

same_number : (n : ℕ) → (n == n) ≡ true
same_number n = ground arith

registered_here :
    (f : ℕ → ℕ → Bool) (ip port : ℕ) → (((ip == ip) && (port == port)) || f ip port) ≡ true
registered_here f ip port = rw (same_number ip, same_number port)

address_of :
    (host : Host) (text : Text) (so : Sock) (ip : ℕ)
    → ip_address text ≡ some ip
    → (with_address host text so).local_ip ≡ ip
address_of host text so ip e = ap (λ o. elim o as (λ _. ℕ) [ none ↦ so.local_ip | some ip ↦ ip ]) e

module _ {R : Type 0} where
  unless_error-IsRaised :
      {A : Type 0} (o : Option Errno) (s : TcpState R) (r : Reply A × TcpState R)
      → HasError o
      → IsRaised (unless_error o s r).0
  unless_error-IsRaised none s r (e, h) = absurd (cc h)
  unless_error-IsRaised (some e) s r h = tt

  tcp_bind-IsRaised :
      (host : Host) (i : ℕ) (text : Text) (port : ℕ) (s : TcpState R)
      → HasError (address_error host text ((s.socks i).error))
      → IsRaised (tcp_bind host i text port s).0
  unfolding tcp_bind
  tcp_bind-IsRaised host i text port s h = go (address_error host text ((s.socks i).error)) h
    where
      go :
          (o : Option Errno)
          → HasError o
          → IsRaised
              (elim o as (λ _. Reply (Unit {0}) × TcpState R) [
                | some e ↦ (
                  raised e,
                  record s { socks = set_at s.socks i (with_address host text (s.socks i)) },
                )
                | none ↦ tcp_bind_port i port (with_address host text (s.socks i)) s
              ]).0
      go none (e, h) = absurd (cc h)
      go (some e) h = tt

  -- A socket that has had an error: whatever is called on any socket and whatever the state machine
  -- does from then on, every bind, every send and recv that begins, and every connect and send that
  -- is woken, ends with an exception of the socket. A recv that was waiting and is woken does not:
  -- it returns what the receive buffer has.
  pub run-IsRaised :
      (host : Host) (cs : List (Call R)) (s : TcpState R) (i : ℕ)
      → HasError (s.socks i).error
      → let s' = run host cs s in
        ((text : Text) (port : ℕ) → IsRaised (tcp_bind host i text port s').0)
        × ((payload : List ℕ) → IsRaised (tcp_send i payload s').0)
        × ((bufsize : ℕ) → IsRaised (tcp_recv i bufsize s').0)
        × ((k dlen : ℕ) (payload : List ℕ) → IsRaised (tcp_send_woken i k payload dlen s').0)
        × IsRaised (tcp_connect_woken i s').0
        × ((k bufsize : ℕ)
            → (tcp_recv_woken i k bufsize true s').0
              ≡ returned (Ring.dequeue (s'.blocks k).rcv_buf bufsize).0)
  unfolding tcp_send tcp_recv tcp_send_woken tcp_connect_woken tcp_recv_woken tcp_dequeue
  run-IsRaised host cs s i h =
      let s' = run host cs s in
      let h' = (run-Grows host cs s).errors_stay i h in
      let o = (s'.socks i).error in
      (
        λ text port. tcp_bind-IsRaised host i text port s' (address_error-Worse host text o h'),
        λ payload. unless_error-IsRaised o s' _ h',
        λ bufsize. unless_error-IsRaised o s' _ h',
        λ k dlen payload. unless_error-IsRaised o s' _ h',
        unless_error-IsRaised o s' _ h',
        λ k bufsize. refl,
      )

  tcp_register-bound :
      (i : ℕ) (so : Sock) (s : TcpState R)
      → (tcp_register i so s).1.table.bound_sockets so.local_ip so.local_port ≡ true
  unfolding tcp_register register_bound_socket
  tcp_register-bound i so s = registered_here s.table.bound_sockets so.local_ip so.local_port

  tcp_bind_port-bound :
      (i port : ℕ) (so : Sock) (s : TcpState R)
      → (tcp_bind_port i port so s).0 ≡ returned tt
      → (tcp_bind_port i port so s).1.table.bound_sockets so.local_ip port ≡ true
  unfolding tcp_bind_port fail
  tcp_bind_port-bound i port so s h =
      go (is_bound_port so.local_port) (check_bound so.local_ip port s.table) h
    where
      so' : Sock
      so' = record so { local_port = port }

      go :
          (b c : Bool)
          → (if b
              then fail i einval so s
              else (if c then fail i eaddrinuse so' s else tcp_register i so' s)).0
            ≡ returned tt
          → (if b
                then fail i einval so s
                else (if c
                    then fail i eaddrinuse so' s
                    else tcp_register i so' s)).1.table.bound_sockets
              so.local_ip port
            ≡ true
      go true c e = absurd (cc e)
      go false true e = absurd (cc e)
      go false false e = tcp_register-bound i so' s

  tcp_bind-bound :
      (host : Host) (i : ℕ) (text : Text) (port : ℕ) (s : TcpState R)
      → (tcp_bind host i text port s).0 ≡ returned tt
      → (tcp_bind host i text port s).1.table.bound_sockets
          (with_address host text (s.socks i)).local_ip
          port
        ≡ true
  unfolding tcp_bind
  tcp_bind-bound host i text port s h = go (address_error host text ((s.socks i).error)) h
    where
      so : Sock
      so = with_address host text (s.socks i)

      result : Option Errno → Reply (Unit {0}) × TcpState R
      result o = elim o as (λ _. Reply (Unit {0}) × TcpState R) [
        | some e ↦ (raised e, record s { socks = set_at s.socks i so })
        | none ↦ tcp_bind_port i port so s
      ]

      go :
          (o : Option Errno)
          → (result o).0 ≡ returned tt
          → (result o).1.table.bound_sockets so.local_ip port ≡ true
      go none e = tcp_bind_port-bound i port so s e
      go (some x) e = absurd (cc e)

  tcp_bind_port-IsRaised :
      (i port : ℕ) (so : Sock) (s : TcpState R)
      → s.table.bound_sockets so.local_ip port ≡ true
      → IsRaised (tcp_bind_port i port so s).0
  unfolding tcp_bind_port check_bound fail
  tcp_bind_port-IsRaised i port so s h = rw h (go (is_bound_port so.local_port))
    where
      go :
          (b : Bool)
          → IsRaised {A = Unit {0}}
              (if b
                then fail i einval so s
                else fail i eaddrinuse (record so { local_port = port }) s).0
      go true = tt
      go false = tt

  tcp_bind-again :
      (host : Host) (i : ℕ) (text : Text) (port : ℕ) (s : TcpState R)
      → s.table.bound_sockets (with_address host text (s.socks i)).local_ip port ≡ true
      → IsRaised (tcp_bind host i text port s).0
  unfolding tcp_bind
  tcp_bind-again host i text port s h = go (address_error host text ((s.socks i).error))
    where
      so : Sock
      so = with_address host text (s.socks i)

      go :
          (o : Option Errno)
          → IsRaised
              (elim o as (λ _. Reply (Unit {0}) × TcpState R) [
                | some e ↦ (raised e, record s { socks = set_at s.socks i so })
                | none ↦ tcp_bind_port i port so s
              ]).0
      go none = tcp_bind_port-IsRaised i port so s h
      go (some e) = tt

  -- Once a bind to an address and a port has returned, every later bind to them ends with an
  -- exception, of the same socket or of another one, whatever was called in between: closing does
  -- not free the port.
  pub run-bind :
      (host : Host) (i : ℕ) (text : Text) (port ip : ℕ) (s : TcpState R)
      → ip_address text ≡ some ip
      → (tcp_bind host i text port s).0 ≡ returned tt
      → (cs : List (Call R)) (j : ℕ)
      → IsRaised (tcp_bind host j text port (run host cs (tcp_bind host i text port s).1)).0
  run-bind host i text port ip s e h cs j =
      let s1 = (tcp_bind host i text port s).1 in
      let s2 = run host cs s1 in
      let bound = tcp_bind-bound host i text port s h in
      let at_ip =
        ap (λ a. s1.table.bound_sockets a port) (sym (address_of host text (s.socks i) ip e))
        ∙ bound in
      let later = (run-Grows host cs s1).bound_stay ip port at_ip in
      tcp_bind-again host j text port s2
        (ap (λ a. s2.table.bound_sockets a port) (address_of host text (s2.socks j) ip e) ∙ later)
