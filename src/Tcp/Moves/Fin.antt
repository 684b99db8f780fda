-- ===== src/Tcp/Moves/Fin.antt =====
-- The moves of `_send_fin`, `_h_active_close_tx` and `_tx_loop` of tipy/protocols/tcp/tcp_fsm.py.
use tipy.Common.{ℕ, zero, suc, ◌≡◌, Bool, true, false, Option, none, some, List, ◌==◌}
use tipy.Tcp.Types.{State, closed, Outcome, done, type_error, parse_error, looping, FloatOps}
use tipy.Tcp.Action.{Action, pure, ◌>>=◌, ◌>>◌}
use tipy.Tcp.Action.Keeps.{Keeps, Keeps-bind, Keeps-pure, Keeps-if, keeps_rules}
use tipy.Tcp.Timer.{start_rtx_timer}
use tipy.Tcp.Machine.{Event}
use tipy.Tcp.Moves.{Edge, Moved, Sends, fin_agrees, fin_set}
use tipy.Tcp.Moves.Frame.{
  Quiet, Quiet-gets, quiet_rules, start_rtx_timer-Quiet, advance_snd_nxt-Quiet, raise_snd_max-Quiet,
  rtt_probe-Quiet, resend_fin-Quiet, stop_all_timers-Quiet,
}
use tipy.Tcp.Moves.Quiets.{send_data-Quiet}
use tipy.Tcp.Moves.Rules.{Moved-Quiet, Moved-abort}
use tipy.Tcp.Output.{send_fin, first_fin, transmit_fin, h_active_close_tx, send_rst, change_state}
use tipy.Tcp.TxLoop.{tx_rounds, tx_data, tx_loop, finish_with_fin, Progress}

-- where the FIN may lead from `s`: along an edge, or nowhere if it agrees with every state reached
pub data FinTarget : Event → State → Option State → Type 0 where
  fin_moves :
      {e : Event} {s n : State} → Edge e s n → fin_agrees n true ≡ true → FinTarget e s (some n)
  fin_stays :
      {e : Event} {s : State}
      → ((old : State) → Edge e s old → fin_agrees old true ≡ true)
      → FinTarget e s none

module _ {R : Type 0} ⦃fl : FloatOps R⦄ where
  transmit_fin-Quiet : Quiet {R = R} transmit_fin
  unfolding transmit_fin
  transmit_fin-Quiet =
      search
        (
          quiet_rules, rtt_probe-Quiet, advance_snd_nxt-Quiet, raise_snd_max-Quiet,
          start_rtx_timer-Quiet,
        )
        depth 12

module _ {R : Type 0} ⦃fl : FloatOps R⦄ {e : Event} {s : State} {f : Bool} where
  first_fin-Moved :
      (next : Option State)
      → Sends e
      → FinTarget e s next
      → Keeps (Moved {R = R} e s f) (first_fin next)
  unfolding first_fin change_state ◌>>=◌
  first_fin-Moved (some n) se (fin_moves edge fits) = record {
    at = λ c h.
        let sent = transmit_fin-Quiet.at (record c { sent_fin = true }) in
        record {
          edge = edge;
          fin_step = rw sent.fin_kept (fin_set se);
          fin_fits = rw sent.fin_kept fits;
        };
  }
  first_fin-Moved none se (fin_stays fits) = record {
    at = λ c h.
        let sent = transmit_fin-Quiet.at (record c { sent_fin = true }) in
        record {
          edge = rw sent.state_kept h.edge;
          fin_step = rw sent.fin_kept (fin_set se);
          fin_fits = rw (sent.fin_kept, sent.state_kept) (fits c.state h.edge);
        };
  }

  finish_with_fin-Moved :
      (next : Option State)
      → Sends e
      → FinTarget e s next
      → Keeps (Moved {R = R} e s f) (finish_with_fin next)
  unfolding finish_with_fin change_state ◌>>=◌
  finish_with_fin-Moved (some n) se (fin_moves edge fits) = record {
    at = λ c h. record { edge = edge; fin_step = fin_set se; fin_fits = fits };
  }
  finish_with_fin-Moved none se (fin_stays fits) = record {
    at = λ c h. record { edge = h.edge; fin_step = fin_set se; fin_fits = fits c.state h.edge };
  }

  pub send_fin-Moved :
      (next : Option State)
      → Sends e
      → FinTarget e s next
      → Keeps (Moved {R = R} e s f) (send_fin next)
  unfolding send_fin
  send_fin-Moved next se t =
      search (keeps_rules, first_fin-Moved, Moved-Quiet, resend_fin-Quiet) depth 12

  pub h_active_close_tx-Moved :
      (b : Bool) → Edge e s closed → Keeps (Moved {R = R} e s f) (h_active_close_tx b)
  unfolding h_active_close_tx send_rst
  h_active_close_tx-Moved b edge =
      search (keeps_rules, quiet_rules, Moved-abort, Moved-Quiet, stop_all_timers-Quiet) depth 12

  -- a close was not asked for, or the state may abort
  pub h_active_close_tx-false-Moved : Keeps (Moved {R = R} e s f) (h_active_close_tx false)
  unfolding h_active_close_tx
  h_active_close_tx-false-Moved = search (keeps_rules, quiet_rules, Moved-Quiet) depth 12

  Moved-if_true :
      {A : Type 0} (b : Bool) (m n : Action R A)
      → Keeps (Moved e s f) m
      → Keeps (Moved e s f) n
      → Keeps (Moved {R = R} e s f) (elim b [ true ↦ m | false ↦ n ])
  Moved-if_true true m n km kn = km
  Moved-if_true false m n km kn = kn

  tx_rounds-Moved :
      (fuel : ℕ) (fin_wanted : Bool) (next : Option State) (v : Progress)
      → Sends e
      → FinTarget e s next
      → Keeps (Moved {R = R} e s f) (tx_rounds fuel fin_wanted next v)
  unfolding tx_rounds
  tx_rounds-Moved zero fin_wanted next v se t = Keeps-pure looping
  tx_rounds-Moved (suc fuel) fin_wanted next v se t = Keeps-if (v.dlen == 0) _ _ (Keeps-pure done) (
      Keeps-bind _ _ (Moved-Quiet _ (Quiet-gets _)) λ mss.
        Keeps-bind _ _ (Moved-Quiet _ (send_data-Quiet _ _)) λ _.
          Moved-if_true _ _ _ (finish_with_fin-Moved next se t)
            (Moved-if_true _ _ _ (Keeps-pure done) (tx_rounds-Moved fuel fin_wanted next _ se t)))

  tx_data-Moved :
      (views : List (List ℕ)) (next : Option State) (fin_wanted : Bool)
      → Sends e
      → FinTarget e s next
      → Keeps (Moved {R = R} e s f) (tx_data views next fin_wanted)
  unfolding tx_data
  tx_data-Moved views next fin_wanted se t =
      Keeps-bind _ _ (Moved-Quiet _ (Quiet-gets _))
        λ wnd. Keeps-bind _ _ (tx_rounds-Moved _ fin_wanted next _ se t) λ outcome. started outcome
    where
      started :
          (o : Outcome)
          → Keeps
              (Moved {R = R} e s f)
              (elim o [ done ↦ (start_rtx_timer >> pure done) | other ↦ pure other ])
      started done = search (keeps_rules, Moved-Quiet, start_rtx_timer-Quiet)
      started type_error = Keeps-pure type_error
      started parse_error = Keeps-pure parse_error
      started looping = Keeps-pure looping

  pub tx_loop-Moved :
      (views : List (List ℕ)) (next : Option State) (shutdown close : Bool)
      → Sends e
      → FinTarget e s next
      → Keeps (Moved {R = R} e s f) (h_active_close_tx close)
      → Keeps (Moved {R = R} e s f) (tx_loop views next shutdown close)
  unfolding tx_loop
  tx_loop-Moved views next shutdown close se t k = search (keeps_rules, tx_data-Moved) depth 12
