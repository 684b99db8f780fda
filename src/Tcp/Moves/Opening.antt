-- ===== src/Tcp/Moves/Opening.antt =====
-- The moves of the opening states of tipy/protocols/tcp/tcp_fsm.py.
use tipy.Common.{ℕ, ◌≡◌, Bool, true, false, Option, none, some}
use tipy.Tcp.Types.{State, syn_sent, syn_recv, Segment, FloatOps, parse_error}
use tipy.Tcp.Action.Keeps.{Keeps, Keeps-bind, Keeps-pure}
use tipy.Tcp.Machine.{connect, rx_segment}
use tipy.Tcp.Moves.{
  Moved, fin_agrees, FinStep, fin_kept, fin_set, opened, syn_acked, syn_crossed, crossed_syn_acked,
}
use tipy.Tcp.Moves.Frame.{
  Quiet, Quiet-gets, start_rtx_timer-Quiet, advance_snd_nxt-Quiet, init_snd_seq-Quiet,
  raise_snd_max-Quiet, rollback_to_una-Quiet, rtt_probe-Quiet, rtt_sample-Quiet,
  drop_with_reset-Quiet,
}
use tipy.Tcp.Moves.Quiets.{init_snd_wnd-Quiet, init_rcv_seq-Quiet, early_data-Quiet, h_rx_seq-Quiet}
use tipy.Tcp.Moves.Rules.{Moved-Quiet, Moved-change_state, Moved-verdict, received-change_state}
use tipy.Tcp.Moves.Receiving.{moved_rules}
use tipy.Tcp.Open.{
  activ_open, established, with_options, establish, simultaneous_open, syn_and_ack, answer_syn,
  refused, rx_syn_sent, acked_in_syn_recv, syn_again, rx_syn_recv, tx_syn_sent, tx_syn_recv,
}

ruleset opening_rules = (
  moved_rules, start_rtx_timer-Quiet, advance_snd_nxt-Quiet, init_snd_seq-Quiet,
  raise_snd_max-Quiet, rollback_to_una-Quiet, rtt_probe-Quiet, rtt_sample-Quiet,
  drop_with_reset-Quiet, init_snd_wnd-Quiet, init_rcv_seq-Quiet, early_data-Quiet,
)

connect_fits :
    {f : Bool} → f ≡ false → (g : Bool) → FinStep connect f g → fin_agrees syn_sent g ≡ true
unfolding fin_agrees
connect_fits h g fin_kept = rw h
connect_fits h g (fin_set x) = elim x [ ]

module _ {R : Type 0} ⦃fl : FloatOps R⦄ where
  pub activ_open-Moved :
      {s : State} {f : Bool} → f ≡ false → Keeps (Moved {R = R} connect s f) activ_open
  unfolding activ_open fin_agrees
  activ_open-Moved h =
      search (opening_rules, Moved-change_state syn_sent opened (connect_fits h)) depth 20

  established-Moved :
      {x : Segment} {f : Bool} (mss : Option ℕ) (p : Segment)
      → fin_agrees syn_sent f ≡ true
      → Keeps (Moved {R = R} (rx_segment x) syn_sent f) (established mss p)
  unfolding established fin_agrees
  established-Moved mss p h = search (opening_rules, received-change_state, syn_acked) depth 20

  with_options-Moved :
      {x : Segment} {f : Bool} (o : Option (Option ℕ)) (p : Segment)
      → fin_agrees syn_sent f ≡ true
      → Keeps (Moved {R = R} (rx_segment x) syn_sent f) (with_options o (λ mss. established mss p))
  with_options-Moved none p h = Keeps-pure parse_error
  with_options-Moved (some mss) p h = established-Moved mss p h

  establish-Moved :
      {x : Segment} {f : Bool} (p : Segment)
      → fin_agrees syn_sent f ≡ true
      → Keeps (Moved {R = R} (rx_segment x) syn_sent f) (establish p)
  unfolding establish
  establish-Moved p h = search (opening_rules, with_options-Moved, h) depth 20

  simultaneous_open-Moved :
      {x : Segment} {f : Bool} (p : Segment)
      → fin_agrees syn_sent f ≡ true
      → Keeps (Moved {R = R} (rx_segment x) syn_sent f) (simultaneous_open p)
  unfolding simultaneous_open fin_agrees
  simultaneous_open-Moved p h = search (opening_rules, received-change_state, syn_crossed) depth 20

  pub rx_syn_sent-Moved :
      {x : Segment} {f : Bool} (p : Segment)
      → fin_agrees syn_sent f ≡ true
      → Keeps (Moved {R = R} (rx_segment x) syn_sent f) (rx_syn_sent p)
  unfolding rx_syn_sent answer_syn syn_and_ack refused
  rx_syn_sent-Moved p h =
      search (opening_rules, establish-Moved, simultaneous_open-Moved, h) depth 20

  acked_in_syn_recv-Moved :
      {x : Segment} {f : Bool} (p : Segment)
      → fin_agrees syn_recv f ≡ true
      → Keeps (Moved {R = R} (rx_segment x) syn_recv f) (acked_in_syn_recv p)
  unfolding acked_in_syn_recv fin_agrees
  acked_in_syn_recv-Moved p h =
      search (opening_rules, received-change_state, crossed_syn_acked) depth 20

  syn_again-Moved :
      {x : Segment} {f : Bool} (p : Segment)
      → fin_agrees syn_recv f ≡ true
      → Keeps (Moved {R = R} (rx_segment x) syn_recv f) (syn_again p)
  unfolding syn_again
  syn_again-Moved p h = Keeps-bind _ _ (Moved-Quiet _ (Quiet-gets _)) λ cut.
      Keeps-bind _ _ (Moved-Quiet _ (h_rx_seq-Quiet cut)) λ r.
        Moved-verdict (r.0) _ _ _ (acked_in_syn_recv-Moved (r.1) h)
          (acked_in_syn_recv-Moved (r.1) h) (search opening_rules)

  pub rx_syn_recv-Moved :
      {x : Segment} {f : Bool} (p : Segment)
      → fin_agrees syn_recv f ≡ true
      → Keeps (Moved {R = R} (rx_segment x) syn_recv f) (rx_syn_recv p)
  unfolding rx_syn_recv
  rx_syn_recv-Moved p h = search (opening_rules, syn_again-Moved, h) depth 20

module _ {R : Type 0} where
  pub tx_syn_sent-Quiet : Quiet {R = R} tx_syn_sent
  unfolding tx_syn_sent
  tx_syn_sent-Quiet = search opening_rules depth 12

  pub tx_syn_recv-Quiet : Quiet {R = R} tx_syn_recv
  unfolding tx_syn_recv
  tx_syn_recv-Quiet = search opening_rules depth 12
