-- ===== src/Tcp/Receive.antt =====
-- The receiving states of tipy/protocols/tcp/tcp_fsm.py from ESTAB to TIME-WAIT.
use tipy.Common.{ℕ, ◌-◌, Bool, true, ltb, ◌==◌, ◌||◌, if◌then◌else◌}
use tipy.Buffer.Recoverable
use tipy.Tcp.Types.{
  fin_wait_2, close_wait, closing, time_wait, closed, Segment, accept_and_handle, accept_but_buffer,
  drop_segment, econnreset, notify_recv, notify_send, schedule_send, FloatOps,
}
use tipy.Tcp.Action.{Action, pure, gets, modify, skip, when, emit, ◌>>=◌, ◌>>◌}
use tipy.Tcp.Timer.{stop_rtx_timer, restart_rtx_timer, stop_time_wait_timer, start_time_wait_timer}
use tipy.Tcp.Output.{change_state, signal_rst, send_ack, send_challenge_ack, rtt_sample}
use tipy.Tcp.Input.{
  h_rx_ack, h_rx_wnd, h_rx_seq, h_rx_seq_check, h_rx_rst, h_active_close_rx, compute_rcv_wnd,
  append_rcv_data,
}

module _ {R : Type 0} where
  -- `snd_buf.free(n=…)`
  unfoldable pub free_snd : ℕ → Action R (Unit {0})
  free_snd n = modify λ c. record c { snd_buf = Recoverable.free c.snd_buf n }

  unfoldable pub all_acked : Action R Bool
  all_acked = gets λ c. c.snd_nxt == c.snd_una

  unfoldable pub want_ack : Segment → Action R (Unit {0})
  want_ack p = when (ltb 0 p.dlen || p.fin) (modify λ c. record c { ack_now = true })

  -- `_h_rx_rst(…) or _h_active_close_rx(…)`
  unfoldable pub reset_or_closed : Segment → Action R Bool
  reset_or_closed p = do
    reset ← h_rx_rst p econnreset
    if reset then pure true else h_active_close_rx p

  -- What the states do alike with an accepted segment: a reset is signalled, a SYN is challenged.
  unfoldable pub unless_reset : Bool → Segment → Action R (Unit {0}) → Action R (Unit {0})
  unless_reset reset p rest =
      if reset then signal_rst else if p.syn then send_challenge_ack else rest

module _ {R : Type 0} ⦃fl : FloatOps R⦄ where
  unfoldable pub estab_acked : ℕ → Action R (Unit {0})
  estab_acked seq_acked = do
    rtt_sample
    all ← all_acked
    if all then stop_rtx_timer else restart_rtx_timer
    free_snd seq_acked
    emit notify_send

  unfoldable pub handle_estab : Segment → Action R (Unit {0})
  handle_estab p = do
    want_ack p
    seq_acked ← h_rx_ack p
    when (ltb 0 seq_acked) (estab_acked seq_acked)
    h_rx_wnd p
    append_rcv_data p
    when p.fin (do change_state close_wait; emit notify_recv)
    emit schedule_send

  unfoldable pub accept_estab : Segment → Action R (Unit {0})
  accept_estab p = do reset ← h_rx_rst p econnreset; unless_reset reset p (handle_estab p)

  unfoldable pub rx_estab : Segment → Action R (Unit {0})
  rx_estab p = do
    (verdict, cut) ← h_rx_seq p
    elim verdict [
      | accept_and_handle ↦ accept_estab cut
      | accept_but_buffer ↦ do modify (λ c. record c { ack_now = true }); emit schedule_send
      | drop_segment ↦ send_challenge_ack
    ]

  unfoldable pub fin_wait_1_acked : Segment → ℕ → Action R (Unit {0})
  fin_wait_1_acked p seq_acked = do
    all ← all_acked
    if all
        then (do
          stop_rtx_timer
          free_snd (seq_acked - 1)
          if p.fin
              then (do change_state time_wait; start_time_wait_timer)
              else change_state fin_wait_2)
        else (do restart_rtx_timer; free_snd seq_acked; when p.fin (change_state closing))
    compute_rcv_wnd

  unfoldable pub handle_fin_wait_1 : Segment → Action R (Unit {0})
  handle_fin_wait_1 p = do
    want_ack p
    seq_acked ← h_rx_ack p
    when (ltb 0 seq_acked) (fin_wait_1_acked p seq_acked)
    h_rx_wnd p
    append_rcv_data p
    ack_now ← gets (λ c. c.ack_now)
    when ack_now send_ack

  unfoldable pub rx_fin_wait_1 : Segment → Action R (Unit {0})
  rx_fin_wait_1 p = do
    (verdict, cut) ← h_rx_seq p
    elim verdict [
      | accept_and_handle ↦ do
        reset ← reset_or_closed cut
        unless_reset reset cut (handle_fin_wait_1 cut)
      | accept_but_buffer ↦ send_ack
      | drop_segment ↦ send_challenge_ack
    ]

  unfoldable pub handle_fin_wait_2 : Segment → Action R (Unit {0})
  handle_fin_wait_2 p = do
    want_ack p
    compute_rcv_wnd
    h_rx_ack p
    h_rx_wnd p
    when p.fin (do change_state time_wait; start_time_wait_timer)
    append_rcv_data p
    send_ack

  unfoldable pub rx_fin_wait_2 : Segment → Action R (Unit {0})
  rx_fin_wait_2 p = do
    (verdict, cut) ← h_rx_seq p
    elim verdict [
      | accept_and_handle ↦ do
        reset ← reset_or_closed cut
        unless_reset reset cut (handle_fin_wait_2 cut)
      | accept_but_buffer ↦ send_ack
      | drop_segment ↦ send_challenge_ack
    ]

  unfoldable pub closing_acked : ℕ → Action R (Unit {0})
  closing_acked seq_acked = do
    all ← all_acked
    if all
        then (do
          stop_rtx_timer
          change_state time_wait
          start_time_wait_timer
          free_snd (seq_acked - 1))
        else (do restart_rtx_timer; free_snd seq_acked)

  unfoldable pub handle_closing : Segment → Action R (Unit {0})
  handle_closing p = do
    seq_acked ← h_rx_ack p
    when (ltb 0 seq_acked) (closing_acked seq_acked)
    h_rx_wnd p
    skip

  unfoldable pub rx_closing : Segment → Action R (Unit {0})
  rx_closing p = do
    verdict ← gets (h_rx_seq_check p)
    elim verdict [
      | accept_and_handle ↦ do reset ← reset_or_closed p; unless_reset reset p (handle_closing p)
      | _ ↦ send_ack
    ]

  unfoldable pub close_wait_acked : Action R (Unit {0})
  close_wait_acked = do
    rtt_sample
    all ← all_acked
    if all then stop_rtx_timer else restart_rtx_timer

  unfoldable pub handle_close_wait : Segment → Action R (Unit {0})
  handle_close_wait p = do
    seq_acked ← h_rx_ack p
    when (ltb 0 seq_acked) close_wait_acked
    h_rx_wnd p
    free_snd seq_acked
    emit schedule_send

  -- A segment out of the window too schedules a SEND event.
  unfoldable pub rx_close_wait : Segment → Action R (Unit {0})
  rx_close_wait p = do
    verdict ← gets (h_rx_seq_check p)
    elim verdict [
      | accept_and_handle ↦ do reset ← reset_or_closed p; unless_reset reset p (handle_close_wait p)
      | _ ↦ emit schedule_send
    ]

  unfoldable pub last_ack_acked : ℕ → Action R (Unit {0})
  last_ack_acked seq_acked = do
    rtt_sample
    all ← all_acked
    if all
        then (do stop_rtx_timer; free_snd (seq_acked - 1); change_state closed)
        else (do restart_rtx_timer; free_snd seq_acked)

  unfoldable pub handle_last_ack : Segment → Action R (Unit {0})
  handle_last_ack p = do
    seq_acked ← h_rx_ack p
    when (ltb 0 seq_acked) (last_ack_acked seq_acked)
    h_rx_wnd p
    skip

  unfoldable pub rx_last_ack : Segment → Action R (Unit {0})
  rx_last_ack p = do
    verdict ← gets (h_rx_seq_check p)
    elim verdict [
      | accept_and_handle ↦ do
        reset ← h_rx_rst p econnreset
        unless_reset reset p (handle_last_ack p)
      | _ ↦ skip
    ]

  unfoldable pub rx_time_wait : Segment → Action R (Unit {0})
  rx_time_wait p = when p.fin (do send_ack; stop_time_wait_timer; start_time_wait_timer)
