-- ===== src/Tcp/Output.antt =====
-- The sending helpers of tipy/protocols/tcp/tcp_fsm.py: state changes, round-trip samples, and
-- the segments without payload. `notify`, `schedule_event`, `tx_tcp` and `remove_tcpcb` are
-- logged as effects.
pub mod Challenge
use tipy.Common.{
  ℕ, ◌+◌, ◌-◌, ◌*◌, ◌/◌, Bool, true, false, Option, none, some, [], ◌∷◌, min, leb, ltb, ◌&&◌,
  if◌then◌else◌,
}
use tipy.Common.Int.{pos}
use tipy.Buffer.Recoverable
use tipy.Tcp.Seq.{mask32, seq_gt}
use tipy.Tcp.Types.{
  State, closed, Segment, TxSegment, transmit, notify_recv, notify_send, removed, Tcpcb, FloatOps,
  max_tcp_challenge_ack_limit, tcp_challenge_ack_rate_hz,
}
use tipy.Tcp.Action.{Action, pure, gets, modify, skip, when, emit, read_clock, ◌>>=◌, ◌>>◌}
use tipy.Tcp.Timer.{set_new_rto, start_rtx_timer, stop_all_timers}

module _ {R : Type 0} where
  unfoldable pub change_state : State → Action R (Unit {0})
  change_state new = modify λ c. record c { prev_state = c.state; state = new }

  -- `_change_state`, whose `new` may be `None`
  abbrev pub change_state_to : Option State → Action R (Unit {0})
  change_state_to none = skip
  change_state_to (some new) = change_state new

  unfoldable pub signal_rst : Action R (Unit {0})
  signal_rst = do emit notify_recv; emit notify_send

  -- a segment at `snd_nxt` that acknowledges `rcv_nxt`, with no flag but those given
  abbrev pub plain_segment : Tcpcb R → TxSegment
  plain_segment c = record {
    seq = c.snd_nxt;
    ack_seq = c.rcv_nxt;
    ack = true;
    psh = false;
    rst = false;
    syn = false;
    fin = false;
    window = c.rcv_wnd;
    mss_option = false;
    payload = [];
  }

  -- `tcpcb.core.tx_tcp(…)` with arguments computed from the block
  unfoldable pub tx_tcp : (Tcpcb R → TxSegment) → Action R (Unit {0})
  tx_tcp args = modify λ c. record c { effects = transmit (args c) ∷ c.effects }

  unfoldable pub send_ack : Action R (Unit {0})
  send_ack = tx_tcp plain_segment

  -- the tokens after the refill, if a second has passed
  abbrev pub refilled : ℕ → Tcpcb R → Tcpcb R
  refilled now c =
      let elapsed = (now - c.last_challenge_ack_timestamp) / 1_000_000_000 in
      if ltb 0 elapsed
      then record c {
        challenge_ack_limit =
            min max_tcp_challenge_ack_limit
              (c.challenge_ack_limit + tcp_challenge_ack_rate_hz * elapsed);
        last_challenge_ack_timestamp = now;
      }
      else c

  unfoldable pub spend_token : Action R (Unit {0})
  spend_token = modify λ c. record c { challenge_ack_limit = c.challenge_ack_limit - 1 }

  -- The clock is monotonic, so the elapsed time is not negative.
  unfoldable pub send_challenge_ack : Action R (Unit {0})
  send_challenge_ack = do
    now ← read_clock
    modify (refilled now)
    limit ← gets (λ c. c.challenge_ack_limit)
    if leb limit 0 then skip else do send_ack; spend_token

  unfoldable pub send_rst : Action R (Unit {0})
  send_rst = tx_tcp λ c. record (plain_segment c) { rst = true; window = pos 0 }

  -- `_drop_with_reset`: an ACK is answered at its own number, with no acknowledgement.
  unfoldable pub drop_with_reset : Segment → Action R (Unit {0})
  drop_with_reset p =
      if p.ack
      then (tx_tcp λ c. record (plain_segment c) {
        seq = p.ack_seq;
        ack_seq = 0;
        ack = false;
        rst = true;
        window = pos 0;
      })
      else send_rst

  -- `snd_nxt` moves over one number, as a SYN or a FIN takes
  unfoldable pub advance_snd_nxt : ℕ → Action R (Unit {0})
  advance_snd_nxt n = modify λ c. record c { snd_nxt = mask32 (c.snd_nxt + n) }

  unfoldable pub init_snd_seq : Action R (Unit {0})
  init_snd_seq = modify λ c. record c { snd_una = c.iss; snd_nxt = c.iss; snd_max = c.iss }

  -- `tcpcb.snd_max = tcpcb.snd_nxt`
  unfoldable pub raise_snd_max : Action R (Unit {0})
  raise_snd_max = modify λ c. record c { snd_max = c.snd_nxt }

  unfoldable pub rollback_to_una : Action R (Unit {0})
  rollback_to_una =
      modify λ c. record c { snd_buf = Recoverable.roll_back_to_r c.snd_buf; snd_nxt = c.snd_una }

  -- the block leaves the tables, in state CLOSED and with its timers stopped
  unfoldable pub abort : Action R (Unit {0})
  abort = do change_state closed; emit removed

  -- `_h_active_close_tx`: a close with SO_LINGER set aborts by RST; then the result is true.
  unfoldable pub h_active_close_tx : Bool → Action R Bool
  h_active_close_tx close_requested = do
    linger_on ← gets (λ c. c.linger_on)
    if close_requested && linger_on
        then (do stop_all_timers; send_rst; abort; pure true)
        else pure false

module _ {R : Type 0} ⦃fl : FloatOps R⦄ where
  abbrev pub seconds : ℕ → R
  seconds ns = fl.div (fl.ratio ns 1) (fl.ratio 1_000_000_000 1)

  -- `_rtt_probe`; the clock is read only if there is no probe
  unfoldable pub rtt_probe : Action R (Unit {0})
  rtt_probe = do
    rtt ← gets (λ c. c.rtt)
    elim rtt [
      | none ↦ do now ← read_clock; modify (λ c. record c { rtt = some (seconds now) })
      | some t ↦ skip
    ]

  unfoldable pub rtt_sample : Action R (Unit {0})
  rtt_sample = do
    rtt ← gets (λ c. c.rtt)
    elim rtt [
      | none ↦ skip
      | some t ↦ do now ← read_clock; modify (set_new_rto (fl.sub (seconds now) t))
    ]

  -- a FIN that was sent is only sent again, behind what was sent at most
  unfoldable pub resend_fin : Action R (Unit {0})
  resend_fin = do
    again ← gets (λ c. seq_gt c.snd_max c.snd_nxt)
    when again (do
      tx_tcp (λ c. record (plain_segment c) { fin = true })
      advance_snd_nxt 1
      start_rtx_timer)

  -- the FIN goes out, timed and with the retransmission timer
  unfoldable pub transmit_fin : Action R (Unit {0})
  transmit_fin = do
    rtt_probe
    tx_tcp (λ c. record (plain_segment c) { fin = true })
    advance_snd_nxt 1
    raise_snd_max
    start_rtx_timer

  unfoldable pub first_fin : Option State → Action R (Unit {0})
  first_fin next_state = do
    modify (λ c. record c { sent_fin = true })
    transmit_fin
    change_state_to next_state

  unfoldable pub send_fin : Option State → Action R (Unit {0})
  send_fin next_state = do
    sent ← gets (λ c. c.sent_fin)
    if sent then resend_fin else first_fin next_state
