-- ===== src/Tcp/Transmit.antt =====
-- The sending states of tipy/protocols/tcp/tcp_fsm.py from ESTAB to LAST-ACK.
use tipy.Common.{Bool, true, false, none, some, ltb, ◌&&◌, ◌||◌, if◌then◌else◌}
use tipy.Tcp.Types.{fin_wait_1, last_ack, Outcome, done, Tcpcb, FloatOps}
use tipy.Tcp.Action.{Action, pure, gets, modify, when, ◌>>=◌, ◌>>◌}
use tipy.Tcp.Output.{send_ack, send_fin, h_active_close_tx}
use tipy.Tcp.Input.{compute_rcv_wnd}
use tipy.Tcp.TxLoop.{drain_snd_buf, tx_loop, is_null}

module _ {R : Type 0} where
  -- the ACK that a received segment asked for
  unfoldable pub ack_if_wanted : Action R Outcome
  ack_if_wanted = do
    ack_now ← gets (λ c. c.ack_now)
    when ack_now (do send_ack; modify (λ c. record c { ack_now = false }))
    pure done

  -- is a FIN due, and does the window let it out?
  abbrev pub fin_due : Tcpcb R → Bool
  fin_due c = (c.close_requested || c.shutdown_requested) && ltb 0 c.snd_wnd

module _ {R : Type 0} ⦃fl : FloatOps R⦄ where
  unfoldable pub estab_without_data : Action R Outcome
  estab_without_data = do
    close_req ← gets (λ c. c.close_requested)
    aborted ← h_active_close_tx close_req
    if aborted then pure done else do
      due ← gets fin_due
      if due
          then (do
            send_fin (some fin_wait_1)
            modify (λ c. record c { ack_now = false })
            pure done)
          else ack_if_wanted

  unfoldable pub tx_estab : Action R Outcome
  tx_estab = do
    views ← drain_snd_buf
    shutdown_req ← gets (λ c. c.shutdown_requested)
    close_req ← gets (λ c. c.close_requested)
    compute_rcv_wnd
    if is_null views
        then estab_without_data
        else tx_loop views (some fin_wait_1) shutdown_req close_req

  -- FIN-WAIT-1 and CLOSING: the FIN again
  unfoldable pub fin_again : Action R Outcome
  fin_again = do
    close_req ← gets (λ c. c.close_requested)
    aborted ← h_active_close_tx close_req
    open_window ← gets (λ c. ltb 0 c.snd_wnd)
    if aborted then pure done else do when open_window (send_fin none); pure done

  unfoldable pub tx_fin_wait_1 : Action R Outcome
  tx_fin_wait_1 = do
    views ← drain_snd_buf
    compute_rcv_wnd
    if is_null views then fin_again else tx_loop views none true false

  unfoldable pub tx_fin_wait_2 : Action R Outcome
  tx_fin_wait_2 = do
    close_req ← gets (λ c. c.close_requested)
    h_active_close_tx close_req
    pure done

  unfoldable pub tx_closing : Action R Outcome
  tx_closing = do
    views ← drain_snd_buf
    if is_null views then fin_again else tx_loop views none true false

  unfoldable pub close_wait_without_data : Action R Outcome
  close_wait_without_data = do
    close_req ← gets (λ c. c.close_requested)
    aborted ← h_active_close_tx close_req
    if aborted then pure done else do
      due ← gets fin_due
      if due then (do send_fin (some last_ack); pure done) else ack_if_wanted

  unfoldable pub tx_close_wait : Action R Outcome
  tx_close_wait = do
    shutdown_req ← gets (λ c. c.shutdown_requested)
    close_req ← gets (λ c. c.close_requested)
    compute_rcv_wnd
    views ← drain_snd_buf
    if is_null views
        then close_wait_without_data
        else tx_loop views (some last_ack) shutdown_req close_req

  unfoldable pub tx_last_ack : Action R Outcome
  tx_last_ack = do
    views ← drain_snd_buf
    open_window ← gets (λ c. ltb 0 c.snd_wnd)
    if is_null views
        then (do when open_window (send_fin none); pure done)
        else tx_loop views none true false
