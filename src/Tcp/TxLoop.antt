-- ===== src/Tcp/TxLoop.antt =====
-- `_tx_loop` of tipy/protocols/tcp/tcp_fsm.py with its helpers: drained bytes cut into segments.
pub mod Ends
pub mod Stuck
use tipy.Common.{
  ℕ, zero, suc, ◌+◌, ◌-◌, Bool, true, false, Option, none, some, List, [], ◌∷◌, min, leb, ltb, ◌==◌,
  ◌&&◌, ◌||◌, bit, length, take, drop, concat, if◌then◌else◌,
}
use tipy.Buffer.Recoverable
use tipy.Tcp.Seq.{mask32, seq_gt}
use tipy.Tcp.Types.{State, TxSegment, Outcome, done, looping, Tcpcb, FloatOps}
use tipy.Tcp.Action.{Action, pure, gets, modify, skip, when, ◌>>=◌, ◌>>◌}
use tipy.Tcp.Timer.{start_rtx_timer}
use tipy.Tcp.Output.{
  plain_segment, tx_tcp, change_state, change_state_to, rtt_probe, h_active_close_tx,
}

abbrev pub tcp_max_tx_bytes : ℕ
tcp_max_tx_bytes = 10000

-- `_generate_segment_payload`: up to `n` bytes of the first view, and the views left. No caller
-- passes the empty list, at which Python raises.
unfoldable pub generate_segment_payload : List (List ℕ) → ℕ → List ℕ × List (List ℕ)
generate_segment_payload [] n = ([], [])
generate_segment_payload (first ∷ rest) n =
    if leb (length first) n then (first, rest) else (take n first, drop n first ∷ rest)

abbrev pub is_null : List (List ℕ) → Bool
is_null [] = true
is_null (x ∷ xs) = false

-- The variables of the loop.
pub record Progress : Type 0 where
  pub views : List (List ℕ)
  pub dlen : ℕ
  pub snd_wnd : ℕ
  pub bytes_send_counter : ℕ

-- One round cuts this payload and leaves these variables.
abbrev pub cut : ℕ → Progress → List ℕ × Progress
cut remote_mss v =
    let n = min remote_mss (min v.snd_wnd v.dlen) in
    let (payload, views) = generate_segment_payload v.views n in
    (
      payload,
      record {
        views = views;
        dlen = v.dlen - length payload;
        snd_wnd = v.snd_wnd - length payload;
        bytes_send_counter = v.bytes_send_counter + length payload;
      },
    )

-- the rounds that suffice: each one takes a byte or a view
abbrev pub tx_fuel : List (List ℕ) → ℕ
tx_fuel views = suc (length (concat views) + length views)

module _ {R : Type 0} ⦃fl : FloatOps R⦄ where
  -- new data is timed, data sent again is not
  unfoldable pub count_new_data : Action R (Unit {0})
  count_new_data = do
    is_new ← gets (λ c. seq_gt c.snd_nxt c.snd_max)
    when is_new (do modify (λ c. record c { snd_max = c.snd_nxt }); rtt_probe)

  unfoldable pub send_data : List ℕ → Bool → Action R (Unit {0})
  send_data payload should_fin = do
    tx_tcp (λ c. record (plain_segment c) { psh = true; fin = should_fin; payload = payload })
    modify (λ c. record c { snd_nxt = mask32 (c.snd_nxt + length payload + bit should_fin) })
    count_new_data

  unfoldable pub finish_with_fin : Option State → Action R Outcome
  finish_with_fin next_state = do
    modify (λ c. record c { sent_fin = true })
    change_state_to next_state
    pure done

  -- `while dlen > 0`. The fuel is the rounds left; `looping` is a loop that does not end.
  unfoldable pub tx_rounds : ℕ → Bool → Option State → Progress → Action R Outcome
  tx_rounds zero fin_wanted next_state v = pure looping
  tx_rounds (suc fuel) fin_wanted next_state v = if v.dlen == 0 then pure done else do
    mss ← gets (λ c. c.remote_mss)
    let payload = (cut mss v).0
    let v' = (cut mss v).1
    let should_fin = fin_wanted && is_null v'.views
    send_data payload should_fin
    elim should_fin [
      | true ↦ finish_with_fin next_state
      | false ↦ elim (leb v'.snd_wnd 0 || leb tcp_max_tx_bytes v'.bytes_send_counter) [
        | true ↦ pure done
        | false ↦ tx_rounds fuel fin_wanted next_state v'
      ]
    ]

  -- the loop, and the timer behind it, which a loop that does not end never starts
  unfoldable pub tx_data : List (List ℕ) → Option State → Bool → Action R Outcome
  tx_data views next_state fin_wanted = do
    snd_wnd ← gets (λ c. c.snd_wnd)
    outcome ← tx_rounds (tx_fuel views) fin_wanted next_state (record {
      views = views;
      dlen = length (concat views);
      snd_wnd = snd_wnd;
      bytes_send_counter = 0;
    })
    elim outcome [ done ↦ (do start_rtx_timer; pure done) | other ↦ pure other ]

  unfoldable pub tx_loop : List (List ℕ) → Option State → Bool → Bool → Action R Outcome
  tx_loop views next_state shutdown_requested close_requested = do
    aborted ← h_active_close_tx close_requested
    if aborted then pure done else tx_data views next_state (shutdown_requested || close_requested)

module _ {R : Type 0} where
  -- `_drain_snd_buf`
  unfoldable pub drain_snd_buf : Action R (List (List ℕ))
  drain_snd_buf c =
      let (views, b) = Recoverable.dequeue c.snd_buf (min tcp_max_tx_bytes c.snd_wnd) in
      (views, record c { snd_buf = b })
