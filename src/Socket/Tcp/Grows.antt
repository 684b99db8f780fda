-- ===== src/Socket/Tcp/Grows.antt =====
-- What no call of tipy/protocols/tcp/tcp_usrreq.py takes back: the error of a socket, and the address
-- that a socket was bound to.
use tipy.Common.{
  ℕ, ◌≡◌, refl, sym, ap, ◌∙◌, Bool, true, false, ◌||◌, Option, none, some, List, [], ◌∷◌, ◌++◌,
  length, if◌then◌else◌, ◌==◌, arith,
}
use mathlib.Core.Path.{subst}
use tipy.Arp.{set_at}
use tipy.Address.Text.{Text}
use tipy.Address.Inet.{ip_address}
use tipy.Buffer.Ring.{RingBuffer}
use tipy.Buffer.Ring
use tipy.Tcp.Types.{Tcpcb}
use tipy.Socket.Table.{
  Errno, Reply, Sock, Host, Table, check_bound, register_bound_socket, register_socket,
  update_socket, remove_socket, register_entry, remove_entry, pick_ephemeral_port, add_used_port,
  is_bound_port, address_error, einval, eaddrinuse, eaddrnotavail, eai_noname, etimedout, epipe,
  enotconn, same_text, id_of, member,
}
use tipy.Socket.Tcp.{
  TcpState, Progress, send_event, fail, tcp_register, tcp_bind_port, with_address, tcp_bind,
  tcp_connect_start, tcp_connect_from, tcp_connect, unless_error, tcp_connect_woken, tcp_send_round,
  tcp_send, tcp_send_woken, tcp_dequeue, tcp_recv_block, tcp_recv, tcp_recv_woken, tcp_close,
  tcp_shutdown, remove_tcpcb, non_receivable, Call, bind, connect, connect_woken, send, send_woken,
  recv, recv_woken, close, shutdown, block_changed, error_set, block_removed, step, run,
}

-- An error that is there stays, or another one takes its place.
abbrev pub HasError : Option Errno → Type 0
HasError o = (e : Errno) × (o ≡ some e)

abbrev pub Worse : Option Errno → Option Errno → Type 0
Worse old new = HasError old → HasError new

pub record Grows {R : Type 0} (s s' : TcpState R) : Type 0 where
  pub errors_stay : (i : ℕ) → Worse (s.socks i).error (s'.socks i).error
  pub bound_stay :
      (ip port : ℕ) → s.table.bound_sockets ip port ≡ true → s'.table.bound_sockets ip port ≡ true

set_at-Worse :
    (socks : ℕ → Sock) (j : ℕ) (so : Sock)
    → Worse (socks j).error so.error
    → (i : ℕ) → Worse (socks i).error (set_at socks j so i).error
unfolding set_at
set_at-Worse socks j so w i h = go (j == i) refl
  where
    equal : (j == i) ≡ true → i ≡ j
    equal e = ground arith

    go : (b : Bool) → (j == i) ≡ b → HasError (if b then so else socks i).error
    go true e = w (subst (λ k. HasError (socks k).error) (equal e) h)
    go false e = h

bound_too : (a b : Bool) → b ≡ true → (a || b) ≡ true
bound_too true b e = refl
bound_too false b e = e

pub address_error-Worse :
    (host : Host) (text : Text) (o : Option Errno) → Worse o (address_error host text o)
unfolding address_error
address_error-Worse host text o h = parsed (ip_address text)
  where
    compared : (b : Bool) → HasError (if b then o else some eaddrnotavail)
    compared true = h
    compared false = (eaddrnotavail, refl)

    parsed :
        (a : Option ℕ)
        → HasError (elim a as (λ _. Option Errno) [
          | none ↦ some eai_noname
          | some ip ↦ if same_text text host.unicast_text then o else some eaddrnotavail
        ])
    parsed none = (eai_noname, refl)
    parsed (some ip) = compared (same_text text host.unicast_text)

pick-bound_sockets :
    (t : Table ℕ) (port : ℕ) (t' : Table ℕ)
    → pick_ephemeral_port t ≡ some (port, t')
    → t'.bound_sockets ≡ t.bound_sockets
unfolding pick_ephemeral_port add_used_port
pick-bound_sockets t port t' e = go t.ephemeral_ports e
  where
    second :
        (p q : ℕ) (x y : Table ℕ)
        → ◌≡◌ {A = Option (ℕ × Table ℕ)} (some (p, x)) (some (q, y))
        → y ≡ x
    second p q x y e = cc

    added :
        (b : Bool) (x y : Table ℕ)
        → x.bound_sockets ≡ t.bound_sockets
        → y.bound_sockets ≡ t.bound_sockets
        → (if b then x else y).bound_sockets ≡ t.bound_sockets
    added true x y p q = p
    added false x y p q = q

    go :
        (ports : List ℕ)
        → (elim ports as (λ _. Option (ℕ × Table ℕ)) [
          | [] ↦ none
          | p ∷ ps ↦ some (p, add_used_port p (record t { ephemeral_ports = ps }))
        ])
          ≡ some (port, t')
        → t'.bound_sockets ≡ t.bound_sockets
    go [] e = absurd (cc e)
    go (p ∷ ps) e =
        ap (λ u. u.bound_sockets)
          (second p port (add_used_port p (record t { ephemeral_ports = ps })) t' e)
        ∙ added (member p ps) (record t { ephemeral_ports = ps })
            (record t { ephemeral_ports = ps; used_ports = p ∷ t.used_ports }) refl refl

module _ {R : Type 0} where
  fail-Grows :
      (A : Type 0) (i : ℕ) (e : Errno) (so : Sock) (s : TcpState R)
      → Grows s (fail {A = A} i e so s).1
  unfolding fail
  fail-Grows A i e so s = record {
    errors_stay = set_at-Worse s.socks i (record so { error = some e }) (λ _. (e, refl));
    bound_stay = λ ip port h. h;
  }

  same-Grows : (s : TcpState R) → Grows s s
  same-Grows s = record { errors_stay = λ i h. h; bound_stay = λ ip port h. h }

  module _ {A : Type 0} (s : TcpState R) where
    if-Grows :
        (b : Bool) (x y : Reply A × TcpState R)
        → Grows s x.1
        → Grows s y.1
        → Grows s (if b then x else y).1
    if-Grows true x y p q = p
    if-Grows false x y p q = q

    option-Grows :
        {B : Type 0} (o : Option B) (x : Reply A × TcpState R) (f : B → Reply A × TcpState R)
        → Grows s x.1
        → ((b : B) → Grows s (f b).1)
        → Grows s (elim o as (λ _. Reply A × TcpState R) [ none ↦ x | some b ↦ f b ]).1
    option-Grows none x f p q = p
    option-Grows (some b) x f p q = q b

    option_eq-Grows :
        {B : Type 0} (o : Option B) (x : Reply A × TcpState R) (f : B → Reply A × TcpState R)
        → Grows s x.1
        → ((b : B) → o ≡ some b → Grows s (f b).1)
        → Grows s (elim o as (λ _. Reply A × TcpState R) [ none ↦ x | some b ↦ f b ]).1
    option_eq-Grows none x f p q = p
    option_eq-Grows (some b) x f p q = q b refl

    error-Grows :
        (o : Option Errno) (r : Reply A × TcpState R) → Grows s r.1 → Grows s (unless_error o s r).1
    error-Grows none r p = p
    error-Grows (some e) r p = same-Grows s

  tcp_register-Grows :
      (i : ℕ) (so : Sock) (s : TcpState R)
      → Worse (s.socks i).error so.error
      → Grows s (tcp_register i so s).1
  unfolding tcp_register register_bound_socket register_socket
  tcp_register-Grows i so s w = record {
    errors_stay =
        set_at-Worse s.socks i
          (record so { sock_id = id_of so.local_ip so.local_port so.remote_ip so.remote_port }) w;
    bound_stay = λ ip p h. bound_too _ _ h;
  }

  tcp_bind_port-Grows :
      (i port : ℕ) (so : Sock) (s : TcpState R)
      → Worse (s.socks i).error so.error
      → Grows s (tcp_bind_port i port so s).1
  unfolding tcp_bind_port
  tcp_bind_port-Grows i port so s w =
      let so' : Sock = record so { local_port = port } in
      if-Grows s (is_bound_port so.local_port) _ _ (fail-Grows (Unit {0}) i einval so s) (
        if-Grows s (check_bound so.local_ip port s.table) _ _
          (fail-Grows (Unit {0}) i eaddrinuse so' s) (tcp_register-Grows i so' s w))

  tcp_bind-Grows :
      (host : Host) (i : ℕ) (text : Text) (port : ℕ) (s : TcpState R)
      → Grows s (tcp_bind host i text port s).1
  unfolding tcp_bind
  tcp_bind-Grows host i text port s =
      let so = with_address host text (s.socks i) in
      let w = address_error-Worse host text ((s.socks i).error) in
      option-Grows s (address_error host text ((s.socks i).error)) _ _
        (tcp_bind_port-Grows i port so s w)
        (λ e. record { errors_stay = set_at-Worse s.socks i so w; bound_stay = λ ip p h. h })

  tcp_connect_start-Grows :
      (block : Tcpcb R) (i : ℕ) (so : Sock) (t : Table ℕ) (s : TcpState R)
      → Worse (s.socks i).error so.error
      → t.bound_sockets ≡ s.table.bound_sockets
      → Grows s (tcp_connect_start block i so t s).1
  unfolding tcp_connect_start register_entry
  tcp_connect_start-Grows block i so t s w e = record {
    errors_stay = set_at-Worse s.socks i so w;
    bound_stay = λ ip p h. ap (λ f. f ip p) e ∙ h;
  }

  tcp_connect_from-Grows :
      (host : Host) (block : Tcpcb R) (i : ℕ) (so : Sock) (s : TcpState R)
      → Worse (s.socks i).error so.error
      → Grows s (tcp_connect_from host block i so s).1
  unfolding tcp_connect_from register_socket update_socket remove_socket
  tcp_connect_from-Grows host block i so s w =
      if-Grows s (so.local_port == 0) _ _
        (option_eq-Grows s (pick_ephemeral_port s.table) _ _
          (record { errors_stay = set_at-Worse s.socks i so w; bound_stay = λ ip p h. h })
          (λ (port, t) e.
            tcp_connect_start-Grows block i _ _ s w (pick-bound_sockets s.table port t e)))
        (tcp_connect_start-Grows block i _ _ s w refl)

  tcp_connect-Grows :
      (host : Host) (block : Tcpcb R) (i : ℕ) (text : Text) (port : ℕ) (s : TcpState R)
      → Grows s (tcp_connect host block i text port s).1
  unfolding tcp_connect
  tcp_connect-Grows host block i text port s =
      option-Grows s (ip_address text) _ _ (fail-Grows (Unit {0}) i eaddrnotavail (s.socks i) s)
        (λ ip.
          tcp_connect_from-Grows host block i
            (record (s.socks i) { remote_ip = ip; remote_port = port }) s (λ h. h))

  -- A call that leaves the sockets and the table as they are.
  others-Grows : (s s' : TcpState R) → s'.socks ≡ s.socks → s'.table ≡ s.table → Grows s s'
  others-Grows s s' p q = record {
    errors_stay = λ i h. subst (λ f. HasError (f i).error) (sym p) h;
    bound_stay = λ ip port h. ap (λ t. t.bound_sockets ip port) q ∙ h;
  }

  tcp_send-Grows : (i : ℕ) (payload : List ℕ) (s : TcpState R) → Grows s (tcp_send i payload s).1
  unfolding tcp_send tcp_send_round
  tcp_send-Grows i payload s = error-Grows s ((s.socks i).error) _ (
      option-Grows s (s.table.entries ((s.socks i).sock_id)) _ _
        (fail-Grows Progress i epipe (s.socks i) s)
        (λ k. if-Grows s (length payload == 0) _ _ (same-Grows s) (others-Grows s _ refl refl)))

  tcp_send_woken-Grows :
      (i k : ℕ) (payload : List ℕ) (dlen : ℕ) (s : TcpState R)
      → Grows s (tcp_send_woken i k payload dlen s).1
  unfolding tcp_send_woken tcp_send_round
  tcp_send_woken-Grows i k payload dlen s =
      error-Grows s ((s.socks i).error) _ (others-Grows s _ refl refl)

  tcp_recv-Grows : (i bufsize : ℕ) (s : TcpState R) → Grows s (tcp_recv i bufsize s).1
  unfolding tcp_recv tcp_recv_block tcp_dequeue
  tcp_recv-Grows i bufsize s = error-Grows s ((s.socks i).error) _ (
      option-Grows s (s.table.entries ((s.socks i).sock_id)) _ _
        (fail-Grows (List (List ℕ)) i enotconn (s.socks i) s)
        (λ k. if-Grows s (non_receivable (s.blocks k).state) _ _ (same-Grows s) (
          if-Grows s (Ring.is_empty (s.blocks k).rcv_buf) _ _ (same-Grows s)
            (others-Grows s _ refl refl))))

  tcp_recv_woken-Grows :
      (i k bufsize : ℕ) (notified : Bool) (s : TcpState R)
      → Grows s (tcp_recv_woken i k bufsize notified s).1
  unfolding tcp_recv_woken tcp_dequeue
  tcp_recv_woken-Grows i k bufsize true s = others-Grows s _ refl refl
  tcp_recv_woken-Grows i k bufsize false s = fail-Grows (List (List ℕ)) i etimedout (s.socks i) s

  tcp_close-Grows : (i : ℕ) (s : TcpState R) → Grows s (tcp_close i s)
  unfolding tcp_close remove_socket
  tcp_close-Grows i s = go (s.table.entries ((s.socks i).sock_id))
    where
      go :
          (o : Option ℕ)
          → Grows s (elim o as (λ _. TcpState R) [
            | none ↦ record s { table = remove_socket (s.socks i).sock_id s.table }
            | some k ↦ record s {
              blocks = set_at s.blocks k (record (s.blocks k) { close_requested = true });
              events = s.events ++ (send_event k ∷ []);
            }
          ])
      go none = record { errors_stay = λ i h. h; bound_stay = λ ip port h. h }
      go (some k) = others-Grows s _ refl refl

  tcp_shutdown-Grows : (i : ℕ) (s : TcpState R) → Grows s (tcp_shutdown i s).1
  unfolding tcp_shutdown
  tcp_shutdown-Grows i s =
      option-Grows s (s.table.entries ((s.socks i).sock_id)) _ _
        (fail-Grows (Unit {0}) i enotconn (s.socks i) s) (λ k. others-Grows s _ refl refl)

  step-Grows : (host : Host) (c : Call R) (s : TcpState R) → Grows s (step host c s)
  unfolding step tcp_connect_woken remove_tcpcb remove_entry remove_socket
  step-Grows host (bind i text port) s = tcp_bind-Grows host i text port s
  step-Grows host (connect block i text port) s = tcp_connect-Grows host block i text port s
  step-Grows host (connect_woken i) s = error-Grows s ((s.socks i).error) _ (same-Grows s)
  step-Grows host (send i payload) s = tcp_send-Grows i payload s
  step-Grows host (send_woken i k payload dlen) s = tcp_send_woken-Grows i k payload dlen s
  step-Grows host (recv i bufsize) s = tcp_recv-Grows i bufsize s
  step-Grows host (recv_woken i k bufsize notified) s = tcp_recv_woken-Grows i k bufsize notified s
  step-Grows host (close i) s = tcp_close-Grows i s
  step-Grows host (shutdown i) s = tcp_shutdown-Grows i s
  step-Grows host (block_changed k block) s = others-Grows s _ refl refl
  step-Grows host (error_set i e) s = record {
    errors_stay = set_at-Worse s.socks i _ (λ _. (e, refl));
    bound_stay = λ ip port h. h;
  }
  step-Grows host (block_removed id) s = record {
    errors_stay = λ i h. h;
    bound_stay = λ ip port h. h;
  }

  pub run-Grows : (host : Host) (cs : List (Call R)) (s : TcpState R) → Grows s (run host cs s)
  unfolding run
  run-Grows host [] s = same-Grows s
  run-Grows host (c ∷ cs) s =
      let p = step-Grows host c s in
      let q = run-Grows host cs (step host c s) in
      record {
        errors_stay = λ i h. q.errors_stay i (p.errors_stay i h);
        bound_stay = λ ip port h. q.bound_stay ip port (p.bound_stay ip port h);
      }
