-- ===== src/Tcp/Moves/Sending.antt =====
-- The moves of the sending states of tipy/protocols/tcp/tcp_fsm.py.
use tipy.Common.{◌≡◌, refl, Bool, true, none}
use tipy.Tcp.Types.{
  State, estab, fin_wait_1, fin_wait_2, close_wait, closing, last_ack, closed, FloatOps,
}
use tipy.Tcp.Action.Keeps.{Keeps, keeps_rules}
use tipy.Tcp.Machine.{Event}
use tipy.Tcp.Moves.{
  Edge, opened, stay, aborted, fin_sent, last_fin_sent, Moved, Sends, fin_agrees, a_estab,
  a_fin_wait_1, a_fin_wait_2, a_close_wait, a_closing,
}
use tipy.Tcp.Moves.Frame.{quiet_rules}
use tipy.Tcp.Moves.Quiets.{compute_rcv_wnd-Quiet, drain_snd_buf-Quiet, ack_if_wanted-Quiet}
use tipy.Tcp.Moves.Rules.{Moved-Quiet}
use tipy.Tcp.Moves.Fin.{
  FinTarget, fin_moves, fin_stays, send_fin-Moved, h_active_close_tx-Moved,
  h_active_close_tx-false-Moved, tx_loop-Moved,
}
use tipy.Tcp.Transmit.{
  estab_without_data, tx_estab, fin_again, tx_fin_wait_1, tx_fin_wait_2, tx_closing,
  close_wait_without_data, tx_close_wait, tx_last_ack,
}

-- a state that agrees with a FIN sent moves only to such states
sent_stays_sent :
    (e : Event) (s old : State)
    → Sends e
    → Edge e s old
    → fin_agrees s true ≡ true
    → fin_agrees old true ≡ true
unfolding fin_agrees
sent_stays_sent e s old se stay h = h
sent_stays_sent e s old se (aborted _ _) h = refl
sent_stays_sent e s old se (fin_sent _) h = refl
sent_stays_sent e s old se (last_fin_sent _) h = refl
sent_stays_sent e s old se opened h = elim se [ ]
sent_stays_sent e s old se _ h = elim se [ ]

fin_again_target : (e : Event) (s : State) → Sends e → fin_agrees s true ≡ true → FinTarget e s none
fin_again_target e s se h = fin_stays λ old edge. sent_stays_sent e s old se edge h

ruleset sending_rules = (
  keeps_rules, quiet_rules, Moved-Quiet, compute_rcv_wnd-Quiet, drain_snd_buf-Quiet,
  ack_if_wanted-Quiet, send_fin-Moved, h_active_close_tx-Moved, h_active_close_tx-false-Moved,
  tx_loop-Moved, aborted,
)

module _ {R : Type 0} ⦃fl : FloatOps R⦄ {e : Event} {f : Bool} where
  pub tx_estab-Moved : Sends e → Keeps (Moved {R = R} e estab f) tx_estab
  unfolding tx_estab estab_without_data fin_agrees
  tx_estab-Moved se = search (sending_rules, a_estab, fin_moves (fin_sent se) refl) depth 20

  fin_again-Moved :
      (s : State)
      → Sends e
      → fin_agrees s true ≡ true
      → Edge e s closed
      → Keeps (Moved {R = R} e s f) fin_again
  unfolding fin_again
  fin_again-Moved s se h edge = search (sending_rules, fin_again_target e s se h) depth 20

  pub tx_fin_wait_1-Moved : Sends e → Keeps (Moved {R = R} e fin_wait_1 f) tx_fin_wait_1
  unfolding tx_fin_wait_1 fin_agrees
  tx_fin_wait_1-Moved se =
      search
        (sending_rules, fin_again-Moved, refl, a_fin_wait_1, fin_again_target e fin_wait_1 se refl)
        depth 20

  pub tx_fin_wait_2-Moved : Sends e → Keeps (Moved {R = R} e fin_wait_2 f) tx_fin_wait_2
  unfolding tx_fin_wait_2
  tx_fin_wait_2-Moved se = search (sending_rules, a_fin_wait_2) depth 20

  pub tx_closing-Moved : Sends e → Keeps (Moved {R = R} e closing f) tx_closing
  unfolding tx_closing fin_agrees
  tx_closing-Moved se =
      search (sending_rules, fin_again-Moved, refl, a_closing, fin_again_target e closing se refl)
        depth 20

  pub tx_close_wait-Moved : Sends e → Keeps (Moved {R = R} e close_wait f) tx_close_wait
  unfolding tx_close_wait close_wait_without_data fin_agrees
  tx_close_wait-Moved se =
      search (sending_rules, a_close_wait, fin_moves (last_fin_sent se) refl) depth 20

  pub tx_last_ack-Moved : Sends e → Keeps (Moved {R = R} e last_ack f) tx_last_ack
  unfolding tx_last_ack fin_agrees
  tx_last_ack-Moved se = search (sending_rules, fin_again_target e last_ack se refl) depth 20
