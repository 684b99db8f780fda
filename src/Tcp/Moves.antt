-- ===== src/Tcp/Moves.antt =====
-- The state diagram of tipy/protocols/tcp/tcp_fsm.py: the moves of each event, and the states in
-- which the FIN has been sent.
pub mod Frame
pub mod Quiets
pub mod Rules
pub mod Receiving
pub mod Opening
pub mod Fin
pub mod Sending
pub mod Diagram
pub mod Runs
use tipy.Common.{Bool, true, not, ◌≡◌}
use tipy.Tcp.Types.{
  State, listen, syn_sent, syn_recv, estab, fin_wait_1, fin_wait_2, close_wait, closing, last_ack,
  time_wait, closed, Segment, Tcpcb,
}
use tipy.Tcp.Machine.{Event, connect, send, rtx, rx_segment}

-- the events that may send data and FIN
pub data Sends : Event → Type 0 where
  by_send : Sends send
  by_rtx : Sends rtx

-- the states in which a segment with RST ends the connection
pub data Resettable : State → Type 0 where
  r_estab : Resettable estab
  r_fin_wait_1 : Resettable fin_wait_1
  r_fin_wait_2 : Resettable fin_wait_2
  r_close_wait : Resettable close_wait
  r_closing : Resettable closing
  r_last_ack : Resettable last_ack

-- the states in which a close with SO_LINGER sends a reset
pub data Abortable : State → Type 0 where
  a_estab : Abortable estab
  a_fin_wait_1 : Abortable fin_wait_1
  a_fin_wait_2 : Abortable fin_wait_2
  a_close_wait : Abortable close_wait
  a_closing : Abortable closing

-- The moves that an event may make.
pub data Edge : Event → State → State → Type 0 where
  stay : {e : Event} {s : State} → Edge e s s
  opened : {s : State} → Edge connect s syn_sent
  syn_acked : {p : Segment} → Edge (rx_segment p) syn_sent estab
  syn_crossed : {p : Segment} → Edge (rx_segment p) syn_sent syn_recv
  crossed_syn_acked : {p : Segment} → Edge (rx_segment p) syn_recv estab
  fin_received : {p : Segment} → Edge (rx_segment p) estab close_wait
  fin_acked : {p : Segment} → Edge (rx_segment p) fin_wait_1 fin_wait_2
  fin_crossed : {p : Segment} → Edge (rx_segment p) fin_wait_1 closing
  fin_acked_by_fin : {p : Segment} → Edge (rx_segment p) fin_wait_1 time_wait
  peer_fin_received : {p : Segment} → Edge (rx_segment p) fin_wait_2 time_wait
  crossed_fin_acked : {p : Segment} → Edge (rx_segment p) closing time_wait
  last_fin_acked : {p : Segment} → Edge (rx_segment p) last_ack closed
  reset_received : {p : Segment} {s : State} → Resettable s → Edge (rx_segment p) s closed
  fin_sent : {e : Event} → Sends e → Edge e estab fin_wait_1
  last_fin_sent : {e : Event} → Sends e → Edge e close_wait last_ack
  aborted : {e : Event} {s : State} → Sends e → Abortable s → Edge e s closed

-- does `sent_fin` agree with the state?
unfoldable pub fin_agrees : State → Bool → Bool
fin_agrees closed sent = true
fin_agrees fin_wait_1 sent = sent
fin_agrees fin_wait_2 sent = sent
fin_agrees closing sent = sent
fin_agrees last_ack sent = sent
fin_agrees time_wait sent = sent
fin_agrees _ sent = not sent

-- `sent_fin` before and after: only an event that may send a FIN sets it
pub data FinStep : Event → Bool → Bool → Type 0 where
  fin_kept : {e : Event} {f : Bool} → FinStep e f f
  fin_set : {e : Event} {f : Bool} → Sends e → FinStep e f true

-- a block that an event has taken along the diagram from state `s` and `sent_fin` `f`
pub record Moved {R : Type 0} (e : Event) (s : State) (f : Bool) (c : Tcpcb R) : Type 0 where
  pub edge : Edge e s c.state
  pub fin_step : FinStep e f c.sent_fin
  pub fin_fits : fin_agrees c.state c.sent_fin ≡ true
