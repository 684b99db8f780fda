-- ===== src/Tcp/Moves/Diagram.antt =====
-- Every event moves a block along the state diagram.
use tipy.Common.{◌≡◌, refl, Bool, true, false, none}
use tipy.Tcp.Types.{
  State, listen, syn_sent, syn_recv, estab, fin_wait_1, fin_wait_2, close_wait, closing, last_ack,
  time_wait, closed, Segment, Tcpcb, FloatOps, type_error, done,
}
use tipy.Tcp.Action.{gets, modify, ◌>>=◌, ◌>>◌}
use tipy.Tcp.Action.Keeps.{Keeps, Keeps-bind, Keeps-pure}
use tipy.Tcp.Timer.{back_off_rto}
use tipy.Tcp.Output.{rollback_to_una}
use tipy.Tcp.Machine.{
  Event, connect, send, rtx, request_close, request_shutdown, rx_segment, rx_in, tx_in, rx, tx,
  do_rtx, handle,
}
use tipy.Tcp.Moves.{stay, Sends, by_send, by_rtx, Moved, fin_kept, fin_agrees}
use tipy.Tcp.Moves.Frame.{
  Same, Quiet, Quiet-modify, Quiet-bind, same, back_off_rto-Quiet, rollback_to_una-Quiet,
}
use tipy.Tcp.Moves.Rules.{Moved-Quiet}
use tipy.Tcp.Moves.Opening.{
  activ_open-Moved, rx_syn_sent-Moved, rx_syn_recv-Moved, tx_syn_sent-Quiet, tx_syn_recv-Quiet,
}
use tipy.Tcp.Moves.Receiving.{
  rx_estab-Moved, rx_fin_wait_1-Moved, rx_fin_wait_2-Moved, rx_close_wait-Moved, rx_closing-Moved,
  rx_last_ack-Moved, rx_time_wait-Moved,
}
use tipy.Tcp.Moves.Sending.{
  tx_estab-Moved, tx_fin_wait_1-Moved, tx_fin_wait_2-Moved, tx_close_wait-Moved, tx_closing-Moved,
  tx_last_ack-Moved,
}

module _ {R : Type 0} ⦃fl : FloatOps R⦄ where
  rx_in-Moved :
      (s : State) (p : Segment) (f : Bool)
      → fin_agrees s f ≡ true
      → Keeps (Moved {R = R} (rx_segment p) s f) (rx_in s p)
  rx_in-Moved listen p f h = Keeps-pure type_error
  rx_in-Moved syn_sent p f h = rx_syn_sent-Moved p h
  rx_in-Moved syn_recv p f h = Keeps-bind _ _ (rx_syn_recv-Moved p h) λ _. Keeps-pure done
  rx_in-Moved estab p f h = Keeps-bind _ _ (rx_estab-Moved p h) λ _. Keeps-pure done
  rx_in-Moved fin_wait_1 p f h = Keeps-bind _ _ (rx_fin_wait_1-Moved p h) λ _. Keeps-pure done
  rx_in-Moved fin_wait_2 p f h = Keeps-bind _ _ (rx_fin_wait_2-Moved p h) λ _. Keeps-pure done
  rx_in-Moved close_wait p f h = Keeps-bind _ _ (rx_close_wait-Moved p h) λ _. Keeps-pure done
  rx_in-Moved closing p f h = Keeps-bind _ _ (rx_closing-Moved p h) λ _. Keeps-pure done
  rx_in-Moved last_ack p f h = Keeps-bind _ _ (rx_last_ack-Moved p h) λ _. Keeps-pure done
  rx_in-Moved time_wait p f h = Keeps-bind _ _ (rx_time_wait-Moved p h) λ _. Keeps-pure done
  rx_in-Moved closed p f h = Keeps-pure done

  tx_in-Moved : (e : Event) (s : State) (f : Bool) → Sends e → Keeps (Moved {R = R} e s f) (tx_in s)
  tx_in-Moved e listen f se = Keeps-pure type_error
  tx_in-Moved e syn_sent f se =
      Keeps-bind _ _ (Moved-Quiet _ tx_syn_sent-Quiet) λ _. Keeps-pure done
  tx_in-Moved e syn_recv f se =
      Keeps-bind _ _ (Moved-Quiet _ tx_syn_recv-Quiet) λ _. Keeps-pure done
  tx_in-Moved e estab f se = tx_estab-Moved se
  tx_in-Moved e fin_wait_1 f se = tx_fin_wait_1-Moved se
  tx_in-Moved e fin_wait_2 f se = tx_fin_wait_2-Moved se
  tx_in-Moved e close_wait f se = tx_close_wait-Moved se
  tx_in-Moved e closing f se = tx_closing-Moved se
  tx_in-Moved e last_ack f se = tx_last_ack-Moved se
  tx_in-Moved e time_wait f se = Keeps-pure type_error
  tx_in-Moved e closed f se = Keeps-pure done

  unmoved :
      {e : Event} (c : Tcpcb R)
      → fin_agrees c.state c.sent_fin ≡ true
      → Moved e c.state c.sent_fin c
  unmoved c h = record { edge = stay; fin_step = fin_kept; fin_fits = h }

  tx-Moved :
      {e : Event} (c : Tcpcb R)
      → Sends e
      → fin_agrees c.state c.sent_fin ≡ true
      → Moved e c.state c.sent_fin (tx c).1
  unfolding tx ◌>>=◌ gets
  tx-Moved {e = e} c se h = (tx_in-Moved e c.state c.sent_fin se).at c (unmoved c h)

  back_off-Quiet :
      Quiet {R = R} (back_off_rto >> rollback_to_una >> modify (λ c. record c { rtx_timer = none }))
  back_off-Quiet =
      Quiet-bind _ _ (Quiet-bind _ _ back_off_rto-Quiet λ _. rollback_to_una-Quiet)
        λ _. Quiet-modify _ λ c. same refl refl

  Moved-from :
      {e : Event} {c b g : Tcpcb R}
      → Same c b
      → Moved e b.state b.sent_fin g
      → Moved e c.state c.sent_fin g
  Moved-from k m = rw (← k.state_kept, ← k.fin_kept) m

  -- If `sent_fin` agrees with the state, and is not set when `connect` is handled, then every event
  -- leaves the state or moves it along an edge that the diagram has for the event, `sent_fin` is
  -- set only by an event that may send a FIN, and it agrees with the new state.
  pub handle-Moved :
      (e : Event) (c : Tcpcb R)
      → fin_agrees c.state c.sent_fin ≡ true
      → (e ≡ connect → c.sent_fin ≡ false)
      → Moved e c.state c.sent_fin (handle e c).1
  unfolding handle do_rtx ◌>>=◌ rx
  handle-Moved connect c h first =
      (Keeps-bind _ _ (activ_open-Moved (first refl)) λ _. Keeps-pure done).at c (unmoved c h)
  handle-Moved send c h first = tx-Moved c by_send h
  handle-Moved rtx c h first =
      let k = back_off-Quiet.at c in
      Moved-from k (tx-Moved _ by_rtx (rw (k.state_kept, k.fin_kept) h))
  handle-Moved (rx_segment p) c h first = (rx_in-Moved c.state p c.sent_fin h).at c (unmoved c h)
  handle-Moved request_close c h first = unmoved _ h
  handle-Moved request_shutdown c h first = unmoved _ h
