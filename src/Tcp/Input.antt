-- ===== src/Tcp/Input.antt =====
-- The receiving helpers of tipy/protocols/tcp/tcp_fsm.py: acknowledgement, window and sequence
-- checks, resets, and the copy into the receive buffer. A helper that changes the segment, as
-- `_h_rx_seq` does, returns it.
pub mod Acks
pub mod Window
pub mod Delivery
use tipy.Common.{
  ℕ, ◌+◌, ◌-◌, Bool, true, false, not, Option, none, some, List, min, leb, ltb, ◌==◌, ◌&&◌, ◌||◌,
  bit, length, take, drop, if◌then◌else◌,
}
use tipy.Common.Int.{ℤ, pos, minus, is_zero}
use tipy.Buffer.Slices.{slice}
use tipy.Buffer.Ring
use tipy.Tcp.Seq.{seq_mod, mask32, seq_diff, seq_lt, seq_leq, seq_gt, seq_geq}
use tipy.Tcp.Types.{
  Segment, Verdict, accept_and_handle, accept_but_buffer, drop_segment, SoError, Tcpcb, notify_recv,
}
use tipy.Tcp.Action.{Action, pure, gets, modify, skip, when, emit, ◌>>=◌, ◌>>◌}
use tipy.Tcp.Timer.{stop_all_timers}
use tipy.Tcp.Output.{drop_with_reset, abort}

-- SEG.LEN: the payload, and one number for each of FIN and SYN
abbrev pub seg_len : Segment → ℕ
seg_len p = p.dlen + bit p.fin + bit p.syn

-- tcp_seq.py; the sum is not reduced
unfoldable pub last_seq : Segment → ℕ
last_seq p = bit p.syn + bit p.fin + p.seq + p.dlen - bit (p.syn || p.fin || ltb 0 p.dlen)

-- the integer modulo 2 ^ 32, as `&` masks a Python int of either sign
abbrev pub mask32_ℤ : ℕ → ℤ → ℕ
mask32_ℤ n (pos k) = mask32 (n + k)
mask32_ℤ n (ℤ.negsuc k) = mask32 (n + (seq_mod - mask32 (k + 1)))

module _ {R : Type 0} where
  -- `_h_rx_ack`: the number of sequence numbers that the segment newly acknowledges
  unfoldable pub h_rx_ack : Segment → Action R ℕ
  h_rx_ack p c =
      if seq_leq p.ack_seq c.snd_una || seq_gt p.ack_seq c.snd_nxt
      then (0, c)
      else (seq_diff p.ack_seq c.snd_una, record c { snd_una = p.ack_seq })

  -- the newer segment by SEG.SEQ, then by SEG.ACK, sets the window
  abbrev pub newer_window : Segment → Tcpcb R → Bool
  newer_window p c = seq_lt c.snd_wl1 p.seq || (p.seq == c.snd_wl1 && seq_lt c.snd_wl2 p.ack_seq)

  unfoldable pub init_snd_wnd : Segment → Action R (Unit {0})
  init_snd_wnd p = modify λ c. record c { snd_wnd = p.window; snd_wl1 = p.seq; snd_wl2 = p.ack_seq }

  unfoldable pub h_rx_wnd : Segment → Action R Bool
  h_rx_wnd p = do
    newer ← gets (newer_window p)
    if newer then (do init_snd_wnd p; pure true) else pure false

  unfoldable pub init_rcv_seq : Segment → Action R (Unit {0})
  init_rcv_seq p = modify λ c.
      let nxt = mask32 (p.seq + 1) in
      record c { irs = p.seq; rcv_nxt = nxt; rcv_adv = mask32_ℤ nxt c.rcv_wnd }

  -- the four checks that `rcv_seq_map` lists
  abbrev pub h_rx_seq_zlen_zwnd : Segment → Tcpcb R → Verdict
  h_rx_seq_zlen_zwnd p c = if p.seq == c.rcv_nxt then accept_and_handle else drop_segment

  abbrev pub h_rx_seq_zlen : Segment → Tcpcb R → Verdict
  h_rx_seq_zlen p c =
      if seq_leq c.rcv_nxt p.seq && seq_lt p.seq c.rcv_adv then accept_and_handle else drop_segment

  abbrev pub h_rx_seq_zwnd : Segment → Tcpcb R → Verdict
  h_rx_seq_zwnd p c = drop_segment

  -- the numbers of an in-order segment before RCV.NXT, which were received before
  abbrev pub todrop : Segment → Tcpcb R → ℕ
  todrop p c = seq_diff c.rcv_nxt p.seq

  -- how far an in-order segment moves RCV.NXT
  abbrev pub in_order_len : Segment → Tcpcb R → ℕ
  in_order_len p c =
      min (mask32 (seq_diff c.rcv_adv c.rcv_nxt + (seq_mod - 1)))
        (seq_diff (last_seq p + 1) c.rcv_nxt)

  -- the segment after the trim: it starts at RCV.NXT, and a FIN outside the window is cleared
  abbrev pub trimmed : Segment → Tcpcb R → Segment
  trimmed p c = record p {
    seq = mask32 (p.seq + todrop p c);
    dlen = p.dlen + bit p.fin + bit p.syn - todrop p c;
    fin = if p.fin && seq_geq (last_seq p) c.rcv_adv then false else p.fin;
  }

  unfoldable pub h_rx_seq_normal : Segment → Action R (Verdict × Segment)
  h_rx_seq_normal p c =
      let n = in_order_len p c in
      if seq_leq p.seq c.rcv_nxt && seq_geq (last_seq p) c.rcv_nxt
      then (
        (accept_and_handle, trimmed p c),
        record c {
          tcp_data_start = todrop p c;
          tcp_data_len = n;
          rcv_nxt = mask32 (c.rcv_nxt + n);
        },
      )
      else if seq_gt p.seq c.rcv_nxt && seq_lt p.seq c.rcv_adv
      then ((accept_but_buffer, p), c)
      else ((drop_segment, p), c)

  -- `_h_rx_seq`: the check is chosen by whether the segment and the window are empty
  unfoldable pub h_rx_seq : Segment → Action R (Verdict × Segment)
  h_rx_seq p c =
      if ltb 0 (seg_len p)
      then (if is_zero c.rcv_wnd then ((h_rx_seq_zwnd p c, p), c) else h_rx_seq_normal p c)
      else (if is_zero c.rcv_wnd
          then ((h_rx_seq_zlen_zwnd p c, p), c)
          else ((h_rx_seq_zlen p c, p), c))

  unfoldable pub h_rx_seq_check : Segment → Tcpcb R → Verdict
  h_rx_seq_check p c =
      if seq_geq p.seq c.rcv_nxt && seq_lt p.seq c.rcv_adv then accept_and_handle else drop_segment

  unfoldable pub h_rx_rst : Segment → SoError → Action R Bool
  h_rx_rst p errno =
      if p.rst
      then (do modify (λ c. record c { so_error = errno }); stop_all_timers; abort; pure true)
      else pure false

  -- `_h_active_close_rx`: after a close, a segment with data resets the connection.
  unfoldable pub h_active_close_rx : Segment → Action R Bool
  h_active_close_rx p = do
    close_req ← gets (λ c. c.close_requested)
    if close_req && ltb 0 p.dlen
        then (do stop_all_timers; drop_with_reset p; abort; pure true)
        else pure false

  -- the window is the free space, and its right edge only moves forward
  unfoldable pub compute_rcv_wnd : Action R (Unit {0})
  compute_rcv_wnd = modify λ c.
      let space = Ring.free_space c.rcv_buf in
      let adv = mask32 (space + c.rcv_nxt) in
      record c { rcv_wnd = pos space; rcv_adv = if seq_gt adv c.rcv_adv then adv else c.rcv_adv }

  -- `rcv_buf.enqueue(buffer=data[start : dlen])`
  unfoldable pub enqueue_rcv : List ℕ → Action R ℕ
  enqueue_rcv buffer c = let (l, b) = Ring.enqueue c.rcv_buf buffer in (l, record c { rcv_buf = b })

  unfoldable pub copy_rcv_data : Segment → Action R ℕ
  copy_rcv_data p = do
    buffer ← gets (λ c. slice c.tcp_data_start c.tcp_data_len p.payload)
    l ← enqueue_rcv buffer
    modify (λ c. record c { rcv_wnd = minus c.rcv_wnd c.tcp_data_len })
    emit notify_recv
    pure l

  unfoldable pub append_rcv_data : Segment → Action R ℕ
  append_rcv_data p = do
    compute_rcv_wnd
    full ← gets (λ c. is_zero c.rcv_wnd)
    if full || leb (length p.payload) 0 then pure 0 else copy_rcv_data p
