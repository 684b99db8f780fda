-- ===== src/Tcp/Moves/Runs.antt =====
-- What holds of every block that events have taken from `connect` on.
use tipy.Common.{ℕ, ◌<◌, ◌≡◌, ◌≢◌, ◌⊎◌, inl, inr, arith, refl, Bool, true}
use tipy.Tcp.Types.{
  State, listen, syn_sent, syn_recv, estab, fin_wait_1, fin_wait_2, close_wait, closing, last_ack,
  time_wait, closed, Tcpcb, FloatOps, init,
}
use tipy.Tcp.Machine.{Event, connect, handle}
use tipy.Tcp.Moves.{
  Edge, stay, opened, syn_acked, syn_crossed, crossed_syn_acked, fin_received, fin_acked,
  fin_crossed, fin_acked_by_fin, peer_fin_received, crossed_fin_acked, last_fin_acked,
  reset_received, fin_sent, last_fin_sent, aborted, fin_agrees, r_estab, r_fin_wait_1, r_fin_wait_2,
  r_close_wait, r_closing, r_last_ack, a_estab, a_fin_wait_1, a_fin_wait_2, a_close_wait, a_closing,
}
use tipy.Tcp.Moves.Diagram.{handle-Moved}

-- The blocks that one `connect` on a new block and then other events lead to.
pub data Reachable {R : Type 0} ⦃fl : FloatOps R⦄ : Tcpcb R → Type 0 where
  connected :
      (iss : ℕ) (linger_on : Bool) (clock : ℕ → ℕ)
      → Reachable (handle connect (init iss linger_on clock)).1
  after : (e : Event) (c : Tcpcb R) → e ≢ connect → Reachable c → Reachable (handle e c).1

-- how far a connection has come
abbrev pub rank : State → ℕ
rank listen = 0
rank syn_sent = 1
rank syn_recv = 2
rank estab = 3
rank close_wait = 4
rank last_ack = 5
rank fin_wait_1 = 4
rank fin_wait_2 = 5
rank closing = 5
rank time_wait = 6
rank closed = 7

rank-Edge : (e : Event) (s t : State) → e ≢ connect → Edge e s t → (s ≡ t) ⊎ (rank s < rank t)
rank-Edge e s t h stay = inl refl
rank-Edge e s t h opened = absurd (h refl)
rank-Edge e s t h syn_acked = inr (omega arith)
rank-Edge e s t h syn_crossed = inr (omega arith)
rank-Edge e s t h crossed_syn_acked = inr (omega arith)
rank-Edge e s t h fin_received = inr (omega arith)
rank-Edge e s t h fin_acked = inr (omega arith)
rank-Edge e s t h fin_crossed = inr (omega arith)
rank-Edge e s t h fin_acked_by_fin = inr (omega arith)
rank-Edge e s t h peer_fin_received = inr (omega arith)
rank-Edge e s t h crossed_fin_acked = inr (omega arith)
rank-Edge e s t h last_fin_acked = inr (omega arith)
rank-Edge e s t h (fin_sent _) = inr (omega arith)
rank-Edge e s t h (last_fin_sent _) = inr (omega arith)
rank-Edge e s t h (reset_received r_estab) = inr (omega arith)
rank-Edge e s t h (reset_received r_fin_wait_1) = inr (omega arith)
rank-Edge e s t h (reset_received r_fin_wait_2) = inr (omega arith)
rank-Edge e s t h (reset_received r_close_wait) = inr (omega arith)
rank-Edge e s t h (reset_received r_closing) = inr (omega arith)
rank-Edge e s t h (reset_received r_last_ack) = inr (omega arith)
rank-Edge e s t h (aborted _ a_estab) = inr (omega arith)
rank-Edge e s t h (aborted _ a_fin_wait_1) = inr (omega arith)
rank-Edge e s t h (aborted _ a_fin_wait_2) = inr (omega arith)
rank-Edge e s t h (aborted _ a_close_wait) = inr (omega arith)
rank-Edge e s t h (aborted _ a_closing) = inr (omega arith)

begun-connect : (s t : State) → 0 < rank s → Edge connect s t → 0 < rank t
begun-connect s t h stay = h
begun-connect s t h opened = omega arith
begun-connect s t h (fin_sent x) = elim x [ ]
begun-connect s t h (last_fin_sent x) = elim x [ ]
begun-connect s t h (aborted x _) = elim x [ ]

module _ {R : Type 0} ⦃fl : FloatOps R⦄ where
  -- On every reachable block, `sent_fin` is set exactly in the states that a FIN leads to, CLOSED
  -- aside, and the state is not LISTEN.
  pub Reachable-agrees :
      (c : Tcpcb R) → Reachable c → (fin_agrees c.state c.sent_fin ≡ true) × (0 < rank c.state)
  unfolding fin_agrees init
  Reachable-agrees _ (connected iss linger_on clock) =
      let m = handle-Moved connect (init iss linger_on clock) refl λ _. refl in
      (m.fin_fits, begun-connect closed _ (omega arith) m.edge)
  Reachable-agrees _ (after e c other r) =
      let (agrees, begun) = Reachable-agrees c r in
      let m = handle-Moved e c agrees (λ h. absurd (other h)) in
      (
        m.fin_fits,
        elim (rank-Edge e c.state (handle e c).1.state other m.edge) [
          | inl same ↦ rw (← same) begun
          | inr more ↦ omega arith
        ],
      )

  -- From a reachable block, an event leaves the state as it is or takes the connection farther:
  -- a state that was left never comes back, and a connection changes its state six times at most.
  pub handle-rank :
      (e : Event) (c : Tcpcb R)
      → e ≢ connect
      → Reachable c
      → let old = c.state in let new = (handle e c).1.state in (old ≡ new) ⊎ (rank old < rank new)
  handle-rank e c other r =
      let (agrees, _) = Reachable-agrees c r in
      rank-Edge e c.state (handle e c).1.state other
        ((handle-Moved e c agrees λ h. absurd (other h)).edge)
