-- ===== src/Tcp/Tests/Delivery.antt =====
-- Examples of the theorems on the receive buffer, on challenge ACKs and on a segment size of 0.
use tipy.Common.{
  ℕ, ◌+◌, ◌-◌, ◌≤◌, ◌<◌, ◌≡◌, ◌⊎◌, refl, arith, none, [], ◌∷◌, length, false, min, take, ◌++◌,
}
use tipy.Buffer.Slices
use tipy.Buffer.Slices.{slice}
use tipy.Buffer.Ring
use tipy.Buffer.Ring.Refine.{IsValid, held, init-IsValid}
use tipy.Tcp.Types.{Tcpcb, accept_and_handle, looping, init, default_size}
use tipy.Tcp.Action.{read_clock}
use tipy.Tcp.Output.{refilled, send_challenge_ack}
use tipy.Tcp.Output.Challenge.{send_challenge_ack_lem}
use tipy.Tcp.Seq.{seq_diff}
use tipy.Tcp.Input.{h_rx_seq_normal, append_rcv_data}
use tipy.Tcp.Input.Delivery.{in_order_delivered, overlap_loses_bytes}
use tipy.Tcp.TxLoop.{tx_rounds}
use tipy.Tcp.TxLoop.Stuck.{tx_rounds-looping}
use tipy.Tcp.Tests.Samples.{nat_floats, new_block, data_segment, in_flight}

-- one of the first two bytes was received before
abbrev overlapped : Tcpcb ℕ
overlapped = record in_flight { tcp_data_start = 1; tcp_data_len = 2 }

overlapped-IsValid : IsValid overlapped.rcv_buf
unfolding init
overlapped-IsValid = init-IsValid default_size (omega arith)

room : 2 ≤ Ring.free_space overlapped.rcv_buf
unfolding init Ring.init Ring.free_space Slices.free_bytes
room = omega arith

in_flight-IsValid : IsValid in_flight.rcv_buf
unfolding init
in_flight-IsValid = init-IsValid default_size (omega arith)

ten_places : seq_diff 111 101 ≤ Ring.free_space in_flight.rcv_buf
unfolding init Ring.init Ring.free_space Slices.free_bytes seq_diff
ten_places = omega arith

in_order_delivered_example :
    let ((v, p'), c1) = h_rx_seq_normal data_segment in_flight in
    let (l, c2) = append_rcv_data p' c1 in
    (v ≡ accept_and_handle)
    × (l ≡ min (seq_diff 111 101 - 1) 3)
    × (held c2.rcv_buf ≡ held in_flight.rcv_buf ++ take l (7 ∷ 8 ∷ 9 ∷ []))
    × (seq_diff c2.rcv_nxt 101 ≡ l)
unfolding init seq_diff
in_order_delivered_example =
    in_order_delivered data_segment in_flight in_flight-IsValid refl (omega arith) (omega arith)
      refl refl refl (omega arith) (omega arith) (omega arith) ten_places

overlap_loses_bytes_example :
    length (held (append_rcv_data data_segment overlapped).1.rcv_buf) + 1
    ≡ length (held overlapped.rcv_buf) + 2
overlap_loses_bytes_example =
    overlap_loses_bytes data_segment overlapped overlapped-IsValid (omega arith)
      (omega (arith, room)) (omega arith) (omega arith) room

send_challenge_ack_lem_example :
    let c' = (send_challenge_ack in_flight).1 in
    let tokens = (refilled (read_clock in_flight).0 (read_clock in_flight).1).challenge_ack_limit in
    (c'.challenge_ack_limit ≤ 100)
    × (length c'.effects + c'.challenge_ack_limit ≡ length in_flight.effects + tokens)
    × ((c'.effects ≡ in_flight.effects) ⊎ (0 < tokens))
unfolding init
send_challenge_ack_lem_example = send_challenge_ack_lem in_flight (omega arith)

tx_rounds-looping_example :
    (tx_rounds ⦃fl = nat_floats⦄ 50 false none
      (record { views = (1 ∷ []) ∷ []; dlen = 1; snd_wnd = 9; bytes_send_counter = 0 })
      new_block).0
    ≡ looping
unfolding init
tx_rounds-looping_example =
    tx_rounds-looping ⦃fl = nat_floats⦄ 50 false none
      (record { views = (1 ∷ []) ∷ []; dlen = 1; snd_wnd = 9; bytes_send_counter = 0 }) new_block
      (1 ∷ []) [] refl refl (omega arith) (omega arith) (omega arith) (omega arith)
