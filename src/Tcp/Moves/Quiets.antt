-- ===== src/Tcp/Moves/Quiets.antt =====
-- The receiving and sending helpers of tipy/protocols/tcp/tcp_fsm.py that are quiet.
use tipy.Common.{ℕ, arith, refl, Bool, List}
use tipy.Tcp.Types.{Segment, FloatOps}
use tipy.Tcp.Moves.Frame.{
  Quiet, same, Quiet-gets, Quiet-modify, quiet_rules, rtt_sample-Quiet, rtt_probe-Quiet,
  stop_rtx_timer-Quiet, restart_rtx_timer-Quiet,
}
use tipy.Tcp.Output.{send_ack}
use tipy.Tcp.Input.{
  h_rx_ack, h_rx_wnd, init_snd_wnd, init_rcv_seq, h_rx_seq, h_rx_seq_normal, compute_rcv_wnd,
  enqueue_rcv, copy_rcv_data, append_rcv_data,
}
use tipy.Tcp.Receive.{free_snd, all_acked, want_ack, estab_acked, close_wait_acked}
use tipy.Tcp.TxLoop.{drain_snd_buf, count_new_data, send_data}
use tipy.Tcp.Transmit.{ack_if_wanted}
use tipy.Tcp.Open.{early_data}

module _ {R : Type 0} where
  pub h_rx_ack-Quiet : (p : Segment) → Quiet {R = R} (h_rx_ack p)
  unfolding h_rx_ack
  h_rx_ack-Quiet p = record { at = λ c. ground (arith, same {c = c}) }

  pub init_snd_wnd-Quiet : (p : Segment) → Quiet {R = R} (init_snd_wnd p)
  unfolding init_snd_wnd
  init_snd_wnd-Quiet p = Quiet-modify _ λ c. same refl refl

  pub h_rx_wnd-Quiet : (p : Segment) → Quiet {R = R} (h_rx_wnd p)
  unfolding h_rx_wnd
  h_rx_wnd-Quiet p = search (quiet_rules, init_snd_wnd-Quiet) depth 12

  pub init_rcv_seq-Quiet : (p : Segment) → Quiet {R = R} (init_rcv_seq p)
  unfolding init_rcv_seq
  init_rcv_seq-Quiet p = Quiet-modify _ λ c. same refl refl

  pub h_rx_seq-Quiet : (p : Segment) → Quiet {R = R} (h_rx_seq p)
  unfolding h_rx_seq h_rx_seq_normal
  h_rx_seq-Quiet p = record { at = λ c. ground (arith, same {c = c}) }

  pub compute_rcv_wnd-Quiet : Quiet {R = R} compute_rcv_wnd
  unfolding compute_rcv_wnd
  compute_rcv_wnd-Quiet = Quiet-modify _ λ c. same refl refl

  pub enqueue_rcv-Quiet : (b : List ℕ) → Quiet {R = R} (enqueue_rcv b)
  unfolding enqueue_rcv
  enqueue_rcv-Quiet b = record { at = λ c. same refl refl }

  pub append_rcv_data-Quiet : (p : Segment) → Quiet {R = R} (append_rcv_data p)
  unfolding append_rcv_data copy_rcv_data
  append_rcv_data-Quiet p = search (quiet_rules, enqueue_rcv-Quiet, compute_rcv_wnd-Quiet) depth 12

  pub free_snd-Quiet : (n : ℕ) → Quiet {R = R} (free_snd n)
  unfolding free_snd
  free_snd-Quiet n = Quiet-modify _ λ c. same refl refl

  pub all_acked-Quiet : Quiet {R = R} all_acked
  unfolding all_acked
  all_acked-Quiet = Quiet-gets _

  pub want_ack-Quiet : (p : Segment) → Quiet {R = R} (want_ack p)
  unfolding want_ack
  want_ack-Quiet p = search quiet_rules depth 12

  pub send_ack-Quiet : Quiet {R = R} send_ack
  unfolding send_ack
  send_ack-Quiet = search quiet_rules

  pub drain_snd_buf-Quiet : Quiet {R = R} drain_snd_buf
  unfolding drain_snd_buf
  drain_snd_buf-Quiet = record { at = λ c. same refl refl }

  pub ack_if_wanted-Quiet : Quiet {R = R} ack_if_wanted
  unfolding ack_if_wanted
  ack_if_wanted-Quiet = search (quiet_rules, send_ack-Quiet) depth 12

module _ {R : Type 0} ⦃fl : FloatOps R⦄ where
  pub early_data-Quiet : (p : Segment) → Quiet {R = R} (early_data p)
  unfolding early_data
  early_data-Quiet p = record { at = λ c. same refl refl }

  pub estab_acked-Quiet : (n : ℕ) → Quiet {R = R} (estab_acked n)
  unfolding estab_acked
  estab_acked-Quiet n =
      search
        (
          quiet_rules, rtt_sample-Quiet, all_acked-Quiet, stop_rtx_timer-Quiet,
          restart_rtx_timer-Quiet, free_snd-Quiet,
        )
        depth 12

  pub close_wait_acked-Quiet : Quiet {R = R} close_wait_acked
  unfolding close_wait_acked
  close_wait_acked-Quiet =
      search
        (
          quiet_rules, rtt_sample-Quiet, all_acked-Quiet, stop_rtx_timer-Quiet,
          restart_rtx_timer-Quiet,
        )
        depth 12

  pub send_data-Quiet : (payload : List ℕ) (fin : Bool) → Quiet {R = R} (send_data payload fin)
  unfolding send_data count_new_data
  send_data-Quiet payload fin = search (quiet_rules, rtt_probe-Quiet) depth 12
