-- ===== src/Tcp/Tests.antt =====
-- Concrete runs of the models of tipy/protocols/tcp, and examples of the theorems on them.
pub mod Samples
mod Scenario
mod Delivery
use tipy.Common.{
  ℕ, ◌+◌, ◌-◌, ◌*◌, ◌/◌, ◌≡◌, ◌≢◌, ◌≤◌, ◌<◌, ◌⊎◌, ◌↔◌, ◌++◌, ◌^◌, inl, inr, refl, Bool, true, false,
  not, arith, Option, none, some, List, [], ◌∷◌, length, concat, ltb, leb, min, max, if◌then◌else◌,
}
use tipy.Common.Int.{pos}
use tipy.Buffer.Slices
use tipy.Buffer.Ring
use tipy.Tcp.Seq.{mask32, seq_mod, seq_diff, seq_lt, seq_leq, seq_gt, seq_geq}
use tipy.Tcp.Seq.Order.{seq_lt_shift, seq_trichotomy, seq_window}
use tipy.Tcp.Types.{
  State, estab, fin_wait_1, Segment, Tcpcb, FloatOps, Outcome, done, init, accept_and_handle,
  accept_but_buffer, drop_segment,
}
use tipy.Tcp.Timer.{min_rto, max_rto, set_new_rto, back_off_rto}
use tipy.Tcp.Timer.Rto.{rto_bounds}
use tipy.Tcp.Input.{h_rx_ack, h_rx_seq_normal, compute_rcv_wnd, seg_len}
use tipy.Tcp.Input.Acks.{h_rx_ack_lem}
use tipy.Tcp.Input.Window.{in_order_accepted, out_of_order_kept, compute_rcv_wnd_lem}
use tipy.Tcp.TxLoop.{generate_segment_payload, tx_data}
use tipy.Tcp.TxLoop.Ends.{generate_segment_payload_lem, tx_data-done}
use tipy.Tcp.Machine.{Event, connect, send, request_close, rx_segment, handle, rx, run}
use tipy.Tcp.Tests.Samples.{
  nat_floats, clock, new_block, connecting, syn_ack, data_segment, in_flight,
}
use tipy.Tcp.Moves.{Moved, fin_agrees}
use tipy.Tcp.Moves.Diagram.{handle-Moved}
use tipy.Tcp.Moves.Runs.{Reachable, connected, after, rank, Reachable-agrees, handle-rank}

syn_ack_connect : rx_segment syn_ack ≢ connect
syn_ack_connect = λ e. absurd cc

connecting-Reachable : Reachable ⦃fl = nat_floats⦄ connecting
connecting-Reachable = connected 5 false clock

data_connect : rx_segment data_segment ≢ connect
data_connect = λ e. absurd cc

handle-Moved_example :
    Moved
      (rx_segment syn_ack)
      connecting.state
      connecting.sent_fin
      (handle ⦃fl = nat_floats⦄ (rx_segment syn_ack) connecting).1
handle-Moved_example =
    handle-Moved ⦃fl = nat_floats⦄ (rx_segment syn_ack) connecting
      (Reachable-agrees ⦃fl = nat_floats⦄ connecting connecting-Reachable).0
      (λ e. absurd (syn_ack_connect e))

abbrev opened : Tcpcb ℕ
opened = (handle ⦃fl = nat_floats⦄ (rx_segment syn_ack) connecting).1

opened-Reachable :
    Reachable ⦃fl = nat_floats⦄ (handle ⦃fl = nat_floats⦄ (rx_segment syn_ack) connecting).1
opened-Reachable = after (rx_segment syn_ack) connecting syn_ack_connect connecting-Reachable

Reachable-agrees_example :
    (fin_agrees opened.state opened.sent_fin ≡ true) × (0 < rank opened.state)
Reachable-agrees_example = Reachable-agrees ⦃fl = nat_floats⦄ opened opened-Reachable

handle-rank_example :
    (opened.state ≡ (handle ⦃fl = nat_floats⦄ (rx_segment data_segment) opened).1.state)
    ⊎ (rank opened.state < rank (handle ⦃fl = nat_floats⦄ (rx_segment data_segment) opened).1.state)
handle-rank_example =
    handle-rank ⦃fl = nat_floats⦄ (rx_segment data_segment) opened data_connect opened-Reachable

-- 6 acknowledges one of the three numbers in flight
h_rx_ack_lem_example :
    ((0 < seq_diff 6 5)
      × (seq_diff 6 5 ≤ seq_diff 8 5)
      × (h_rx_ack data_segment in_flight ≡ (seq_diff 6 5, record in_flight { snd_una = 6 }))
      × (seq_diff 8 6 + seq_diff 6 5 ≡ seq_diff 8 5))
    ⊎ (((seq_diff 6 5 ≡ 0) ⊎ (seq_diff 8 5 < seq_diff 6 5))
        × (h_rx_ack data_segment in_flight ≡ (0, in_flight)))
unfolding seq_diff init
h_rx_ack_lem_example =
    h_rx_ack_lem data_segment in_flight (omega arith) (omega arith) (omega arith) (omega arith)

-- three bytes from RCV.NXT on
in_order_accepted_example :
    let (v, p') = (h_rx_seq_normal data_segment in_flight).0 in
    let c' = (h_rx_seq_normal data_segment in_flight).1 in
    (v ≡ accept_and_handle)
    × (p'.dlen + seq_diff 101 101 ≡ 3)
    × (c'.tcp_data_start ≡ seq_diff 101 101)
    × (c'.tcp_data_len ≡ min (seq_diff 111 101 - 1) (3 - seq_diff 101 101))
    × (seq_diff c'.rcv_nxt 101 ≡ c'.tcp_data_len)
    × (seq_diff c'.rcv_adv c'.rcv_nxt + c'.tcp_data_len ≡ seq_diff 111 101)
unfolding init seq_diff
in_order_accepted_example =
    in_order_accepted data_segment in_flight (omega arith) (omega arith) (omega arith) (omega arith)
      (omega arith) (omega arith)

compute_rcv_wnd_lem_example :
    ((compute_rcv_wnd in_flight).1.rcv_wnd ≡ pos (Ring.free_space in_flight.rcv_buf))
    × ((compute_rcv_wnd in_flight).1.rcv_nxt ≡ 101)
    × (seq_diff (compute_rcv_wnd in_flight).1.rcv_adv 101
        ≡ max (seq_diff 111 101) (Ring.free_space in_flight.rcv_buf))
unfolding init seq_diff Ring.free_space Slices.free_bytes Ring.init
compute_rcv_wnd_lem_example =
    compute_rcv_wnd_lem in_flight (omega arith) (omega arith) (omega arith) (omega arith)

tx_data-done_example :
    (tx_data ⦃fl = nat_floats⦄
      ((1 ∷ 2 ∷ 3 ∷ []) ∷ (4 ∷ []) ∷ [])
      (some fin_wait_1)
      true
      in_flight).0
    ≡ done
tx_data-done_example =
    tx_data-done ⦃fl = nat_floats⦄ ((1 ∷ 2 ∷ 3 ∷ []) ∷ (4 ∷ []) ∷ []) (some fin_wait_1) true
      in_flight (omega arith)

ltb_irreflexive : (a : ℕ) → ltb a a ≡ false
ltb_irreflexive a = ground arith

rto_bounds_example :
    (ltb (set_new_rto ⦃fl = nat_floats⦄ 3 new_block).rto 1 ≡ false)
    × ((set_new_rto ⦃fl = nat_floats⦄ 3 new_block).rtt ≡ none)
    × (ltb 60 (back_off_rto ⦃fl = nat_floats⦄ new_block).1.rto ≡ false)
    × ((back_off_rto ⦃fl = nat_floats⦄ new_block).1.rtt ≡ none)
rto_bounds_example = rto_bounds ⦃fl = nat_floats⦄ 3 new_block ltb_irreflexive

-- across the wrap: two numbers from 4294967295 on
seq_window_example :
    (seq_leq 4294967295 0 ≡ true) × (seq_lt 0 (mask32 (4294967295 + 2)) ≡ true)
    ↔ (seq_diff 0 4294967295 < 2)
seq_window_example =
    seq_window 4294967295 0 2 (omega arith) (omega arith) (omega arith) (omega arith)
