-- ===== src/Tcp/Machine.antt =====
-- The event handlers `connect`, `tx`, `rx` and `rtx` of tipy/protocols/tcp/tcp_fsm.py with their
-- tables `_rx_map` and `_tx_map`, and the events of tipy/components/tcp_events.py. A table's
-- `None` is called all the same, which raises.
use tipy.Common.{none, List, [], ◌∷◌, true}
use tipy.Tcp.Types.{
  State, listen, syn_sent, syn_recv, estab, fin_wait_1, fin_wait_2, close_wait, closing, last_ack,
  time_wait, closed, Segment, Outcome, done, type_error, Tcpcb, FloatOps,
}
use tipy.Tcp.Action.{Action, pure, gets, modify, ◌>>=◌, ◌>>◌}
use tipy.Tcp.Timer.{back_off_rto}
use tipy.Tcp.Output.{rollback_to_una}
use tipy.Tcp.Open.{activ_open, rx_syn_sent, rx_syn_recv, tx_syn_sent, tx_syn_recv}
use tipy.Tcp.Receive.{
  rx_estab, rx_fin_wait_1, rx_fin_wait_2, rx_close_wait, rx_closing, rx_last_ack, rx_time_wait,
}
use tipy.Tcp.Transmit.{
  tx_estab, tx_fin_wait_1, tx_fin_wait_2, tx_close_wait, tx_closing, tx_last_ack,
}

-- `TCPEvent`, by its type, and the two requests that the application sets from its own thread
pub data Event : Type 0 where
  connect send rtx request_close request_shutdown : Event
  rx_segment : Segment → Event

module _ {R : Type 0} ⦃fl : FloatOps R⦄ where
  -- `_rx_map`
  abbrev pub rx_in : State → Segment → Action R Outcome
  rx_in listen p = pure type_error
  rx_in syn_sent p = rx_syn_sent p
  rx_in syn_recv p = rx_syn_recv p >> pure done
  rx_in estab p = rx_estab p >> pure done
  rx_in fin_wait_1 p = rx_fin_wait_1 p >> pure done
  rx_in fin_wait_2 p = rx_fin_wait_2 p >> pure done
  rx_in close_wait p = rx_close_wait p >> pure done
  rx_in closing p = rx_closing p >> pure done
  rx_in last_ack p = rx_last_ack p >> pure done
  rx_in time_wait p = rx_time_wait p >> pure done
  rx_in closed p = pure done

  -- `_tx_map`
  abbrev pub tx_in : State → Action R Outcome
  tx_in listen = pure type_error
  tx_in syn_sent = tx_syn_sent >> pure done
  tx_in syn_recv = tx_syn_recv >> pure done
  tx_in estab = tx_estab
  tx_in fin_wait_1 = tx_fin_wait_1
  tx_in fin_wait_2 = tx_fin_wait_2
  tx_in close_wait = tx_close_wait
  tx_in closing = tx_closing
  tx_in last_ack = tx_last_ack
  tx_in time_wait = pure type_error
  tx_in closed = pure done

  unfoldable pub rx : Segment → Action R Outcome
  rx p = do state ← gets (λ c. c.state); rx_in state p

  unfoldable pub tx : Action R Outcome
  tx = do state ← gets (λ c. c.state); tx_in state

  unfoldable pub do_rtx : Action R Outcome
  do_rtx = do back_off_rto; rollback_to_una; modify (λ c. record c { rtx_timer = none }); tx

  -- The handler of one event.
  unfoldable pub handle : Event → Action R Outcome
  handle connect = activ_open >> pure done
  handle send = tx
  handle rtx = do_rtx
  handle (rx_segment p) = rx p
  handle request_close = modify (λ c. record c { close_requested = true }) >> pure done
  handle request_shutdown = modify (λ c. record c { shutdown_requested = true }) >> pure done

  -- The handlers of a list of events, in order; one that does not return ends the run.
  unfoldable pub run : List Event → Tcpcb R → Outcome × Tcpcb R
  run [] c = (done, c)
  run (e ∷ es) c =
      let (outcome, c') = handle e c in elim outcome [ done ↦ run es c' | other ↦ (other, c') ]
