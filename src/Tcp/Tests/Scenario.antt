-- ===== src/Tcp/Tests/Scenario.antt =====
-- A connection from `connect` to its FIN, run.
use tipy.Common.{◌≡◌, refl, [], ◌∷◌}
use tipy.Buffer.Slices
use tipy.Buffer.Ring
use tipy.Buffer.Recoverable
use tipy.Tcp.Types.{init, fin_wait_1}
use tipy.Tcp.Action.{pure, gets, modify, ◌>>=◌, emit, read_clock}
use tipy.Tcp.Timer.{
  set_initial_rto, update_rto, new_rto, set_new_rto, back_off_rto, remove_task, remove_timer,
  schedule_rtx_timer, start_unless, start_rtx_timer, restart_rtx_timer, stop_rtx_timer,
  stop_time_wait_timer, stop_all_timers, start_time_wait_timer,
}
use tipy.Tcp.Output.{
  change_state, signal_rst, tx_tcp, send_ack, spend_token, send_challenge_ack, send_rst,
  drop_with_reset, advance_snd_nxt, init_snd_seq, raise_snd_max, rollback_to_una, abort,
  h_active_close_tx, rtt_probe, rtt_sample, resend_fin, transmit_fin, first_fin, send_fin,
}
use tipy.Tcp.Input.{
  last_seq, h_rx_ack, init_snd_wnd, h_rx_wnd, init_rcv_seq, h_rx_seq_normal, h_rx_seq,
  h_rx_seq_check, h_rx_rst, h_active_close_rx, compute_rcv_wnd, enqueue_rcv, copy_rcv_data,
  append_rcv_data,
}
use tipy.Tcp.TxLoop.{
  generate_segment_payload, count_new_data, send_data, finish_with_fin, tx_rounds, tx_data, tx_loop,
  drain_snd_buf,
}
use tipy.Tcp.Open.{
  activ_open, early_data, established, establish, simultaneous_open, syn_and_ack, answer_syn,
  refused, rx_syn_sent, acked_in_syn_recv, syn_again, rx_syn_recv, tx_syn_sent, tx_syn_recv,
}
use tipy.Tcp.Receive.{
  free_snd, all_acked, want_ack, reset_or_closed, unless_reset, estab_acked, handle_estab,
  accept_estab, rx_estab, fin_wait_1_acked, handle_fin_wait_1, rx_fin_wait_1, handle_fin_wait_2,
  rx_fin_wait_2, closing_acked, handle_closing, rx_closing, close_wait_acked, handle_close_wait,
  rx_close_wait, last_ack_acked, handle_last_ack, rx_last_ack, rx_time_wait,
}
use tipy.Tcp.Transmit.{
  ack_if_wanted, estab_without_data, tx_estab, fin_again, tx_fin_wait_1, tx_fin_wait_2, tx_closing,
  close_wait_without_data, tx_close_wait, tx_last_ack,
}
use tipy.Tcp.Machine.{rx, tx, do_rtx, handle, run, connect, send, request_close, rx_segment}
use tipy.Tcp.Seq.{seq_diff, seq_lt, seq_leq, seq_gt, seq_geq}
use tipy.Tcp.Tests.Samples.{nat_floats, new_block, syn_ack, data_segment}

-- the handshake, a segment of data, and the FIN after a close
handshake_and_close :
    (run ⦃fl = nat_floats⦄
      (connect ∷ rx_segment syn_ack ∷ rx_segment data_segment ∷ request_close ∷ send ∷ [])
      new_block).1.state
    ≡ fin_wait_1
unfolding init pure gets modify ◌>>=◌ emit read_clock set_initial_rto update_rto new_rto set_new_rto
    back_off_rto remove_task remove_timer schedule_rtx_timer start_unless start_rtx_timer
    restart_rtx_timer stop_rtx_timer stop_time_wait_timer stop_all_timers start_time_wait_timer
    change_state signal_rst tx_tcp send_ack spend_token send_challenge_ack send_rst drop_with_reset
    advance_snd_nxt init_snd_seq raise_snd_max rollback_to_una abort h_active_close_tx rtt_probe
    rtt_sample resend_fin transmit_fin first_fin send_fin last_seq h_rx_ack init_snd_wnd h_rx_wnd
    init_rcv_seq h_rx_seq_normal h_rx_seq h_rx_seq_check h_rx_rst h_active_close_rx compute_rcv_wnd
    enqueue_rcv copy_rcv_data append_rcv_data generate_segment_payload count_new_data send_data
    finish_with_fin tx_rounds tx_data tx_loop drain_snd_buf activ_open early_data established
    establish simultaneous_open syn_and_ack answer_syn refused rx_syn_sent acked_in_syn_recv
    syn_again rx_syn_recv tx_syn_sent tx_syn_recv free_snd all_acked want_ack reset_or_closed
    unless_reset estab_acked handle_estab accept_estab rx_estab fin_wait_1_acked handle_fin_wait_1
    rx_fin_wait_1 handle_fin_wait_2 rx_fin_wait_2 closing_acked handle_closing rx_closing
    close_wait_acked handle_close_wait rx_close_wait last_ack_acked handle_last_ack rx_last_ack
    rx_time_wait ack_if_wanted estab_without_data tx_estab fin_again tx_fin_wait_1 tx_fin_wait_2
    tx_closing close_wait_without_data tx_close_wait tx_last_ack rx tx do_rtx handle run seq_diff
    seq_lt seq_leq seq_gt seq_geq Slices.free_bytes Slices.ready_bytes Slices.stored Slices.enqueue
    Slices.dequeue Ring.init Ring.free_space Ring.ready Ring.is_empty Ring.enqueue Ring.dequeue
    Ring.run Recoverable.init Recoverable.free Recoverable.free_space Recoverable.ready
    Recoverable.is_empty Recoverable.roll_back_to_r Recoverable.roll_back_to_w Recoverable.enqueue
    Recoverable.dequeue
handshake_and_close = refl
