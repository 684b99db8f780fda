-- ===== src/Tcp/Moves/Receiving.antt =====
-- The moves of the receiving states of tipy/protocols/tcp/tcp_fsm.py.
use tipy.Common.{◌≡◌, Bool, true}
use tipy.Tcp.Types.{
  estab, fin_wait_1, fin_wait_2, close_wait, closing, last_ack, time_wait, Segment, econnreset,
  FloatOps,
}
use tipy.Tcp.Action.Keeps.{Keeps, Keeps-bind, keeps_rules}
use tipy.Tcp.Machine.{rx_segment}
use tipy.Tcp.Moves.{
  Moved, fin_agrees, fin_received, fin_acked, fin_crossed, fin_acked_by_fin, peer_fin_received,
  crossed_fin_acked, last_fin_acked, reset_received, r_estab, r_fin_wait_1, r_fin_wait_2,
  r_close_wait, r_closing, r_last_ack,
}
use tipy.Tcp.Moves.Frame.{
  Quiet, Quiet-gets, quiet_rules, send_challenge_ack-Quiet, rtt_sample-Quiet, stop_rtx_timer-Quiet,
  restart_rtx_timer-Quiet, stop_time_wait_timer-Quiet, start_time_wait_timer-Quiet,
}
use tipy.Tcp.Moves.Quiets.{
  h_rx_ack-Quiet, h_rx_wnd-Quiet, h_rx_seq-Quiet, compute_rcv_wnd-Quiet, append_rcv_data-Quiet,
  free_snd-Quiet, all_acked-Quiet, want_ack-Quiet, send_ack-Quiet, estab_acked-Quiet,
  close_wait_acked-Quiet,
}
use tipy.Tcp.Moves.Rules.{
  Moved-Quiet, Moved-closed, received-change_state, Moved-h_rx_rst, Moved-reset_or_closed,
  Moved-unless_reset, Moved-verdict,
}
use tipy.Tcp.Receive.{
  fin_wait_1_acked, handle_fin_wait_1, rx_fin_wait_1, handle_fin_wait_2, rx_fin_wait_2,
  handle_closing, closing_acked, rx_closing, handle_close_wait, rx_close_wait, handle_last_ack,
  last_ack_acked, rx_last_ack, rx_time_wait, handle_estab, accept_estab, rx_estab,
}

pub ruleset moved_rules = (
  keeps_rules, quiet_rules, Moved-Quiet, Moved-closed, Moved-h_rx_rst, Moved-reset_or_closed,
  Moved-unless_reset, Moved-verdict, h_rx_ack-Quiet, h_rx_wnd-Quiet, h_rx_seq-Quiet,
  compute_rcv_wnd-Quiet, append_rcv_data-Quiet, free_snd-Quiet, all_acked-Quiet, want_ack-Quiet,
  send_ack-Quiet, estab_acked-Quiet, close_wait_acked-Quiet, stop_rtx_timer-Quiet,
  restart_rtx_timer-Quiet, stop_time_wait_timer-Quiet, start_time_wait_timer-Quiet,
  send_challenge_ack-Quiet,
)

module _ {R : Type 0} ⦃fl : FloatOps R⦄ where
  accept_estab-Moved :
      {x : Segment} {f : Bool} (p : Segment)
      → fin_agrees estab f ≡ true
      → Keeps (Moved {R = R} (rx_segment x) estab f) (accept_estab p)
  unfolding accept_estab handle_estab fin_agrees
  accept_estab-Moved p h =
      search (moved_rules, received-change_state, fin_received, reset_received, r_estab) depth 20

  pub rx_estab-Moved :
      {x : Segment} {f : Bool} (p : Segment)
      → fin_agrees estab f ≡ true
      → Keeps (Moved {R = R} (rx_segment x) estab f) (rx_estab p)
  unfolding rx_estab
  rx_estab-Moved p h = Keeps-bind _ _ (Moved-Quiet _ (h_rx_seq-Quiet p)) λ r.
      Moved-verdict (r.0) _ _ _ (accept_estab-Moved (r.1) h) (search moved_rules depth 12)
        (search moved_rules depth 12)

  handle_fin_wait_1-Moved :
      {x : Segment} {f : Bool} (p : Segment)
      → fin_agrees fin_wait_1 f ≡ true
      → Keeps (Moved {R = R} (rx_segment x) fin_wait_1 f) (handle_fin_wait_1 p)
  unfolding handle_fin_wait_1 fin_wait_1_acked fin_agrees
  handle_fin_wait_1-Moved p h =
      search (moved_rules, received-change_state, fin_acked, fin_crossed, fin_acked_by_fin) depth 20

  pub rx_fin_wait_1-Moved :
      {x : Segment} {f : Bool} (p : Segment)
      → fin_agrees fin_wait_1 f ≡ true
      → Keeps (Moved {R = R} (rx_segment x) fin_wait_1 f) (rx_fin_wait_1 p)
  unfolding rx_fin_wait_1
  rx_fin_wait_1-Moved p h = Keeps-bind _ _ (Moved-Quiet _ (h_rx_seq-Quiet p)) λ r.
      Moved-verdict (r.0) _ _ _
        (Keeps-bind _ _ (Moved-reset_or_closed (r.1) (reset_received r_fin_wait_1))
          λ reset. Moved-unless_reset reset (r.1) _ (handle_fin_wait_1-Moved (r.1) h))
        (search moved_rules depth 12) (search moved_rules depth 12)

  handle_fin_wait_2-Moved :
      {x : Segment} {f : Bool} (p : Segment)
      → fin_agrees fin_wait_2 f ≡ true
      → Keeps (Moved {R = R} (rx_segment x) fin_wait_2 f) (handle_fin_wait_2 p)
  unfolding handle_fin_wait_2 fin_agrees
  handle_fin_wait_2-Moved p h =
      search (moved_rules, received-change_state, peer_fin_received) depth 20

  pub rx_fin_wait_2-Moved :
      {x : Segment} {f : Bool} (p : Segment)
      → fin_agrees fin_wait_2 f ≡ true
      → Keeps (Moved {R = R} (rx_segment x) fin_wait_2 f) (rx_fin_wait_2 p)
  unfolding rx_fin_wait_2
  rx_fin_wait_2-Moved p h = Keeps-bind _ _ (Moved-Quiet _ (h_rx_seq-Quiet p)) λ r.
      Moved-verdict (r.0) _ _ _
        (Keeps-bind _ _ (Moved-reset_or_closed (r.1) (reset_received r_fin_wait_2))
          λ reset. Moved-unless_reset reset (r.1) _ (handle_fin_wait_2-Moved (r.1) h))
        (search moved_rules depth 12) (search moved_rules depth 12)

  handle_closing-Moved :
      {x : Segment} {f : Bool} (p : Segment)
      → fin_agrees closing f ≡ true
      → Keeps (Moved {R = R} (rx_segment x) closing f) (handle_closing p)
  unfolding handle_closing closing_acked fin_agrees
  handle_closing-Moved p h = search (moved_rules, received-change_state, crossed_fin_acked) depth 20

  pub rx_closing-Moved :
      {x : Segment} {f : Bool} (p : Segment)
      → fin_agrees closing f ≡ true
      → Keeps (Moved {R = R} (rx_segment x) closing f) (rx_closing p)
  unfolding rx_closing
  rx_closing-Moved p h = Keeps-bind _ _ (Moved-Quiet _ (Quiet-gets _)) λ r.
      Moved-verdict r _ _ _
        (Keeps-bind _ _ (Moved-reset_or_closed p (reset_received r_closing))
          λ reset. Moved-unless_reset reset p _ (handle_closing-Moved p h))
        (search moved_rules depth 12) (search moved_rules depth 12)

  handle_close_wait-Moved :
      {x : Segment} {f : Bool} (p : Segment)
      → fin_agrees close_wait f ≡ true
      → Keeps (Moved {R = R} (rx_segment x) close_wait f) (handle_close_wait p)
  unfolding handle_close_wait fin_agrees
  handle_close_wait-Moved p h = search moved_rules depth 20

  pub rx_close_wait-Moved :
      {x : Segment} {f : Bool} (p : Segment)
      → fin_agrees close_wait f ≡ true
      → Keeps (Moved {R = R} (rx_segment x) close_wait f) (rx_close_wait p)
  unfolding rx_close_wait
  rx_close_wait-Moved p h = Keeps-bind _ _ (Moved-Quiet _ (Quiet-gets _)) λ r.
      Moved-verdict r _ _ _
        (Keeps-bind _ _ (Moved-reset_or_closed p (reset_received r_close_wait))
          λ reset. Moved-unless_reset reset p _ (handle_close_wait-Moved p h))
        (search moved_rules depth 12) (search moved_rules depth 12)

  handle_last_ack-Moved :
      {x : Segment} {f : Bool} (p : Segment)
      → fin_agrees last_ack f ≡ true
      → Keeps (Moved {R = R} (rx_segment x) last_ack f) (handle_last_ack p)
  unfolding handle_last_ack last_ack_acked fin_agrees
  handle_last_ack-Moved p h = search (moved_rules, rtt_sample-Quiet, last_fin_acked) depth 20

  pub rx_last_ack-Moved :
      {x : Segment} {f : Bool} (p : Segment)
      → fin_agrees last_ack f ≡ true
      → Keeps (Moved {R = R} (rx_segment x) last_ack f) (rx_last_ack p)
  unfolding rx_last_ack
  rx_last_ack-Moved p h = Keeps-bind _ _ (Moved-Quiet _ (Quiet-gets _)) λ r.
      Moved-verdict r _ _ _
        (Keeps-bind _ _ (Moved-h_rx_rst p econnreset (reset_received r_last_ack))
          λ reset. Moved-unless_reset reset p _ (handle_last_ack-Moved p h))
        (search moved_rules depth 12) (search moved_rules depth 12)

  pub rx_time_wait-Moved :
      {x : Segment} {f : Bool} (p : Segment)
      → fin_agrees time_wait f ≡ true
      → Keeps (Moved {R = R} (rx_segment x) time_wait f) (rx_time_wait p)
  unfolding rx_time_wait fin_agrees
  rx_time_wait-Moved p h = search moved_rules depth 20
