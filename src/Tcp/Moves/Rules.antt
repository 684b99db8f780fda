-- ===== src/Tcp/Moves/Rules.antt =====
-- How actions move a block along the diagram: quiet ones stay, `_change_state` makes one of the
-- event's moves, and the FIN moves a block that has not sent it.
use tipy.Common.{◌≡◌, refl, Bool, true}
use tipy.Tcp.Types.{
  State, closed, Segment, SoError, Verdict, accept_and_handle, accept_but_buffer, drop_segment,
}
use tipy.Tcp.Action.{Action, modify}
use tipy.Tcp.Action.Keeps.{Keeps, keeps_rules}
use tipy.Tcp.Machine.{Event, rx_segment}
use tipy.Tcp.Moves.{Edge, FinStep, fin_kept, fin_set, Moved, fin_agrees}
use tipy.Tcp.Moves.Frame.{
  Quiet, stop_all_timers-Quiet, quiet_rules, signal_rst-Quiet, drop_with_reset-Quiet,
  send_challenge_ack-Quiet,
}
use tipy.Tcp.Output.{change_state, abort}
use tipy.Tcp.Input.{h_rx_rst, h_active_close_rx}
use tipy.Tcp.Receive.{reset_or_closed, unless_reset}

module _ {R : Type 0} {e : Event} {s : State} {f : Bool} where
  pub Moved-Quiet : {A : Type 0} (m : Action R A) → Quiet m → Keeps (Moved e s f) m
  Moved-Quiet m q = record {
    at = λ c h.
        let k = q.at c in
        record {
          edge = rw k.state_kept h.edge;
          fin_step = rw k.fin_kept h.fin_step;
          fin_fits = rw (k.state_kept, k.fin_kept) h.fin_fits;
        };
  }

  -- a move to a state whose answer for `sent_fin` is that of the block
  pub Moved-change_state :
      (new : State)
      → Edge e s new
      → ((g : Bool) → FinStep e f g → fin_agrees new g ≡ true)
      → Keeps (Moved {R = R} e s f) (change_state new)
  unfolding change_state modify
  Moved-change_state new edge fits = record {
    at =
        λ c h. record { edge = edge; fin_step = h.fin_step; fin_fits = fits c.sent_fin h.fin_step };
  }

  pub Moved-closed : Edge e s closed → Keeps (Moved {R = R} e s f) (change_state closed)
  unfolding fin_agrees
  Moved-closed edge = Moved-change_state closed edge λ g _. refl

  pub Moved-abort : Edge e s closed → Keeps (Moved {R = R} e s f) abort
  unfolding abort
  Moved-abort edge = search (keeps_rules, Moved-closed, edge, Moved-Quiet, quiet_rules) depth 12

  pub Moved-h_rx_rst :
      (p : Segment) (errno : SoError)
      → Edge e s closed
      → Keeps (Moved {R = R} e s f) (h_rx_rst p errno)
  unfolding h_rx_rst
  Moved-h_rx_rst p errno edge =
      search (keeps_rules, Moved-abort, Moved-Quiet, quiet_rules, stop_all_timers-Quiet) depth 12

  pub Moved-h_active_close_rx :
      (p : Segment) → Edge e s closed → Keeps (Moved {R = R} e s f) (h_active_close_rx p)
  unfolding h_active_close_rx
  Moved-h_active_close_rx p edge =
      search
        (
          keeps_rules, Moved-abort, Moved-Quiet, quiet_rules, stop_all_timers-Quiet,
          drop_with_reset-Quiet,
        )
        depth 12

  pub Moved-reset_or_closed :
      (p : Segment) → Edge e s closed → Keeps (Moved {R = R} e s f) (reset_or_closed p)
  unfolding reset_or_closed
  Moved-reset_or_closed p edge =
      search (keeps_rules, Moved-h_rx_rst, Moved-h_active_close_rx) depth 12

  pub Moved-unless_reset :
      (reset : Bool) (p : Segment) (rest : Action R (Unit {0}))
      → Keeps (Moved e s f) rest
      → Keeps (Moved e s f) (unless_reset reset p rest)
  unfolding unless_reset
  Moved-unless_reset reset p rest k =
      search (keeps_rules, Moved-Quiet, signal_rst-Quiet, send_challenge_ack-Quiet) depth 12

  -- the three ways that the check of the sequence number may go
  pub Moved-verdict :
      {A : Type 0} (v : Verdict) (m n k : Action R A)
      → Keeps (Moved e s f) m
      → Keeps (Moved e s f) n
      → Keeps (Moved e s f) k
      → Keeps
          (Moved e s f)
          (elim v [ accept_and_handle ↦ m | accept_but_buffer ↦ n | drop_segment ↦ k ])
  Moved-verdict accept_and_handle m n k a b c = a
  Moved-verdict accept_but_buffer m n k a b c = b
  Moved-verdict drop_segment m n k a b c = c

received_fits :
    (p : Segment) (new : State) (f : Bool)
    → fin_agrees new f ≡ true
    → (g : Bool) → FinStep (rx_segment p) f g
    → fin_agrees new g ≡ true
received_fits p new f h g fin_kept = h
received_fits p new f h g (fin_set x) = elim x [ ]

-- A received segment does not change `sent_fin`, so the new state must agree with it as it was.
pub received-change_state :
    {R : Type 0} {p : Segment} {s : State} {f : Bool} (new : State)
    → Edge (rx_segment p) s new
    → fin_agrees new f ≡ true
    → Keeps (Moved {R = R} (rx_segment p) s f) (change_state new)
received-change_state new edge h = Moved-change_state new edge (received_fits _ new _ h)
