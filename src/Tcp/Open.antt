-- ===== src/Tcp/Open.antt =====
-- The opening states of tipy/protocols/tcp/tcp_fsm.py: `_activ_open`, SYN-SENT and SYN-RECV.
use tipy.Common.{ℕ, ◌+◌, true, false, Option, none, some, ltb, ◌&&◌, if◌then◌else◌}
use tipy.Common.Int.{pos, minus}
use tipy.Buffer.Ring
use tipy.Tcp.Seq.{mask32, seq_lt}
use tipy.Tcp.Types.{
  syn_sent, syn_recv, estab, Segment, drop_segment, econnrefused, notify_connect, notify_recv,
  Tcpcb, FloatOps, default_size, Outcome, done, parse_error,
}
use tipy.Tcp.Action.{Action, pure, gets, modify, when, emit, ◌>>=◌, ◌>>◌}
use tipy.Tcp.Timer.{start_rtx_timer, stop_rtx_timer}
use tipy.Tcp.Output.{
  change_state, plain_segment, tx_tcp, send_ack, drop_with_reset, advance_snd_nxt, init_snd_seq,
  raise_snd_max, rollback_to_una, rtt_probe, rtt_sample,
}
use tipy.Tcp.Input.{h_rx_ack, h_rx_wnd, init_snd_wnd, init_rcv_seq, h_rx_seq}

-- `options.get(TCP_MSS_KIND, 536)`
abbrev pub mss_of : Option ℕ → ℕ
mss_of none = 536
mss_of (some n) = n

module _ {R : Type 0} ⦃fl : FloatOps R⦄ where
  unfoldable pub activ_open : Action R (Unit {0})
  activ_open = do
    tx_tcp (λ c. record (plain_segment c) {
      seq = c.iss;
      ack_seq = 0;
      ack = false;
      syn = true;
      window = pos default_size;
      mss_option = true;
    })
    rtt_probe
    init_snd_seq
    advance_snd_nxt 1
    raise_snd_max
    change_state syn_sent
    start_rtx_timer

  -- data before ESTAB: the bytes that the buffer takes
  unfoldable pub early_data : Segment → Action R ℕ
  early_data p c =
      let (l, b) = Ring.enqueue c.rcv_buf p.payload in
      (l, record c { rcv_buf = b; rcv_wnd = minus c.rcv_wnd l; rcv_nxt = mask32 (c.rcv_nxt + l) })

  -- the SYN is acknowledged, and the peer's SYN is here
  unfoldable pub established : Option ℕ → Segment → Action R Outcome
  established mss p = do
    modify (λ c. record c { remote_mss = mss_of mss })
    l ← if ltb 0 p.dlen then early_data p else pure 0
    send_ack
    change_state estab
    emit notify_connect
    when (ltb 0 l) (emit notify_recv)
    pure done

  -- `packet_rx.tcp.options`, read for the first time, and what follows
  abbrev pub with_options : Option (Option ℕ) → (Option ℕ → Action R Outcome) → Action R Outcome
  with_options none next = pure parse_error
  with_options (some mss) next = next mss

  unfoldable pub establish : Segment → Action R Outcome
  establish p = do
    rtt_sample
    stop_rtx_timer
    init_rcv_seq p
    init_snd_wnd p
    with_options p.mss (λ mss. established mss p)

  unfoldable pub simultaneous_open : Segment → Action R (Unit {0})
  simultaneous_open p = do
    stop_rtx_timer
    rollback_to_una
    modify (λ c. record c { rtt = none })
    init_rcv_seq p
    init_snd_wnd p
    tx_tcp (λ c. record (plain_segment c) { syn = true })
    rtt_probe
    advance_snd_nxt 1
    start_rtx_timer
    change_state syn_recv

  unfoldable pub syn_and_ack : Segment → Action R Outcome
  syn_and_ack p = do
    acked ← h_rx_ack p
    if ltb 0 acked then establish p else (drop_with_reset p >> pure done)

  -- the segment did not refuse the connection
  unfoldable pub answer_syn : Segment → Action R Outcome
  answer_syn p =
      if p.fin
      then pure done
      else if p.syn && p.ack
      then syn_and_ack p
      else (when p.syn (simultaneous_open p) >> pure done)

  unfoldable pub refused : Action R (Unit {0})
  refused = do
    stop_rtx_timer
    modify (λ c. record c { so_error = econnrefused })
    emit notify_connect

  unfoldable pub rx_syn_sent : Segment → Action R Outcome
  rx_syn_sent p = do
    acked ← if p.rst then h_rx_ack p else pure 0
    if ltb 0 acked then (refused >> pure done) else answer_syn p

  -- the segment after the repeated SYN, already received, is cut off, and without its data
  abbrev pub without_syn : Segment → Tcpcb R → Segment
  without_syn p c =
      if ltb p.seq c.rcv_nxt
      then record p { seq = mask32 (p.seq + 1); syn = false; dlen = 0 }
      else record p { dlen = 0 }

  unfoldable pub acked_in_syn_recv : Segment → Action R (Unit {0})
  acked_in_syn_recv p = do
    acked ← h_rx_ack p
    if ltb 0 acked
        then (do
          rtt_sample
          stop_rtx_timer
          h_rx_wnd p
          send_ack
          change_state estab
          emit notify_connect)
        else drop_with_reset p

  unfoldable pub syn_again : Segment → Action R (Unit {0})
  syn_again p = do
    cut ← gets (without_syn p)
    (verdict, cut') ← h_rx_seq cut
    elim verdict [ drop_segment ↦ send_ack | _ ↦ acked_in_syn_recv cut' ]

  -- A segment with no ACK or with no SYN is ignored.
  unfoldable pub rx_syn_recv : Segment → Action R (Unit {0})
  rx_syn_recv p = do
    before ← gets (λ c. seq_lt p.seq c.irs)
    when (p.ack && p.syn) (if before then drop_with_reset p else syn_again p)

module _ {R : Type 0} where
  unfoldable pub tx_syn_sent : Action R (Unit {0})
  tx_syn_sent = do
    tx_tcp (λ c. record (plain_segment c) { ack = false; syn = true })
    advance_snd_nxt 1
    start_rtx_timer

  unfoldable pub tx_syn_recv : Action R (Unit {0})
  tx_syn_recv = do
    tx_tcp (λ c. record (plain_segment c) { syn = true })
    advance_snd_nxt 1
    start_rtx_timer
