-- ===== src/Tcp/Moves/Frame.antt =====
-- The helpers of tipy/protocols/tcp/tcp_fsm.py and tcp_timer.py that change neither the state of a
-- block nor `sent_fin`, and how quiet actions are put together.
use tipy.Common.{ℕ, arith, ◌≡◌, ◌∙◌, refl, Bool, true, false, Option, none, some, if◌then◌else◌}
use tipy.Tcp.Types.{Segment, TxSegment, Tcpcb, FloatOps, Effect}
use tipy.Tcp.Action.{Action, modify, emit, read_clock, pure, gets, ◌>>=◌}
use tipy.Tcp.Timer.{
  start_unless, start_rtx_timer, restart_rtx_timer, stop_rtx_timer, stop_time_wait_timer,
  stop_all_timers, start_time_wait_timer, schedule_rtx_timer, back_off_rto, set_new_rto, new_rto,
  update_rto, set_initial_rto,
}
use tipy.Tcp.Output.{
  send_ack, tx_tcp, drop_with_reset, send_rst, send_challenge_ack, spend_token, refilled,
  signal_rst, advance_snd_nxt, init_snd_seq, raise_snd_max, rollback_to_una, rtt_probe, rtt_sample,
  resend_fin,
}

-- `g` is a block with the state and `sent_fin` of `c`
pub record Same {R : Type 0} (c g : Tcpcb R) : Type 0 where
  pub state_kept : g.state ≡ c.state
  pub fin_kept : g.sent_fin ≡ c.sent_fin

pub record Quiet {R A : Type 0} (m : Action R A) : Type 0 where
  pub at : (c : Tcpcb R) → Same c (m c).1

module _ {R : Type 0} where
  pub same : {c g : Tcpcb R} → g.state ≡ c.state → g.sent_fin ≡ c.sent_fin → Same c g
  same es ef = record { state_kept = es; fin_kept = ef }

  pub Quiet-pure : {A : Type 0} (a : A) → Quiet {R = R} (pure a)
  unfolding pure
  Quiet-pure a = record { at = λ c. same refl refl }

  pub Quiet-gets : {A : Type 0} (f : Tcpcb R → A) → Quiet (gets f)
  unfolding gets
  Quiet-gets f = record { at = λ c. same refl refl }

  pub Quiet-modify : (f : Tcpcb R → Tcpcb R) → ((c : Tcpcb R) → Same c (f c)) → Quiet (modify f)
  unfolding modify
  Quiet-modify f h = record { at = h }

  pub Quiet-if :
      {A : Type 0} (b : Bool) (m n : Action R A) → Quiet m → Quiet n → Quiet (if b then m else n)
  Quiet-if true m n qm qn = qm
  Quiet-if false m n qm qn = qn

  pub Quiet-option :
      {A B : Type 0} (o : Option B) (m : Action R A) (f : B → Action R A)
      → Quiet m
      → ((b : B) → Quiet (f b))
      → Quiet (elim o [ none ↦ m | some b ↦ f b ])
  Quiet-option none m f qm qf = qm
  Quiet-option (some b) m f qm qf = qf b

  pub Quiet-bind :
      {A B : Type 0} (m : Action R A) (f : A → Action R B)
      → Quiet m
      → ((a : A) → Quiet (f a))
      → Quiet (m >>= f)
  unfolding ◌>>=◌
  Quiet-bind m f qm qf = record {
    at = λ c.
        let (a, c') = m c in
        let first = qm.at c in
        let second = (qf a).at c' in
        record {
          state_kept = second.state_kept ∙ first.state_kept;
          fin_kept = second.fin_kept ∙ first.fin_kept;
        };
  }

  pub emit-Quiet : (e : Effect) → Quiet {R = R} (emit e)
  unfolding emit modify
  emit-Quiet e = record { at = λ c. same refl refl }

  pub read_clock-Quiet : Quiet {R = R} read_clock
  unfolding read_clock
  read_clock-Quiet = record { at = λ c. same refl refl }

  pub tx_tcp-Quiet : (f : Tcpcb R → TxSegment) → Quiet (tx_tcp f)
  unfolding tx_tcp modify
  tx_tcp-Quiet f = record { at = λ c. same refl refl }

pub ruleset quiet_rules = (
  Quiet-pure, Quiet-gets, Quiet-modify, Quiet-if, Quiet-option, Quiet-bind, same, refl, emit-Quiet,
  read_clock-Quiet, tx_tcp-Quiet,
)

module _ {R : Type 0} where
  pub stop_rtx_timer-Quiet : Quiet {R = R} stop_rtx_timer
  unfolding stop_rtx_timer
  stop_rtx_timer-Quiet = Quiet-modify _ λ c. same refl refl

  pub stop_time_wait_timer-Quiet : Quiet {R = R} stop_time_wait_timer
  unfolding stop_time_wait_timer
  stop_time_wait_timer-Quiet = Quiet-modify _ λ c. same refl refl

  pub stop_all_timers-Quiet : Quiet {R = R} stop_all_timers
  unfolding stop_all_timers
  stop_all_timers-Quiet = search (quiet_rules, stop_rtx_timer-Quiet, stop_time_wait_timer-Quiet)

  pub drop_with_reset-Quiet : (p : Segment) → Quiet {R = R} (drop_with_reset p)
  unfolding drop_with_reset send_rst
  drop_with_reset-Quiet p = search quiet_rules

  refilled-Same : (now : ℕ) (c : Tcpcb R) → Same c (refilled now c)
  refilled-Same now c = ground arith

  pub send_challenge_ack-Quiet : Quiet {R = R} send_challenge_ack
  unfolding send_challenge_ack send_ack spend_token
  send_challenge_ack-Quiet = search (quiet_rules, refilled-Same) depth 12

  start_unless-Same : (t : Option ℕ) (c : Tcpcb R) → Same c (start_unless t c)
  unfolding start_unless schedule_rtx_timer
  start_unless-Same none c = same refl refl
  start_unless-Same (some i) c = same refl refl

  pub start_rtx_timer-Quiet : Quiet {R = R} start_rtx_timer
  unfolding start_rtx_timer
  start_rtx_timer-Quiet = Quiet-modify _ λ c. start_unless-Same c.rtx_timer c

  pub restart_rtx_timer-Quiet : Quiet {R = R} restart_rtx_timer
  unfolding restart_rtx_timer schedule_rtx_timer
  restart_rtx_timer-Quiet = Quiet-modify _ λ c. same refl refl

  pub signal_rst-Quiet : Quiet {R = R} signal_rst
  unfolding signal_rst
  signal_rst-Quiet = search quiet_rules

  pub advance_snd_nxt-Quiet : (n : ℕ) → Quiet {R = R} (advance_snd_nxt n)
  unfolding advance_snd_nxt
  advance_snd_nxt-Quiet n = Quiet-modify _ λ c. same refl refl

  pub init_snd_seq-Quiet : Quiet {R = R} init_snd_seq
  unfolding init_snd_seq
  init_snd_seq-Quiet = Quiet-modify _ λ c. same refl refl

  pub raise_snd_max-Quiet : Quiet {R = R} raise_snd_max
  unfolding raise_snd_max
  raise_snd_max-Quiet = Quiet-modify _ λ c. same refl refl

  pub rollback_to_una-Quiet : Quiet {R = R} rollback_to_una
  unfolding rollback_to_una
  rollback_to_una-Quiet = Quiet-modify _ λ c. same refl refl

module _ {R : Type 0} ⦃fl : FloatOps R⦄ where
  pub start_time_wait_timer-Quiet : Quiet {R = R} start_time_wait_timer
  unfolding start_time_wait_timer
  start_time_wait_timer-Quiet = Quiet-modify _ λ c. same refl refl

  pub back_off_rto-Quiet : Quiet {R = R} back_off_rto
  unfolding back_off_rto
  back_off_rto-Quiet = Quiet-modify _ λ c. same refl refl

  set_new_rto-Same : (rtt : R) (s v : Option R) (c : Tcpcb R) → Same c (new_rto rtt s v c)
  unfolding new_rto update_rto set_initial_rto
  set_new_rto-Same rtt (some s) (some v) c = same refl refl
  set_new_rto-Same rtt (some s) none c = same refl refl
  set_new_rto-Same rtt none v c = same refl refl

  pub rtt_probe-Quiet : Quiet {R = R} rtt_probe
  unfolding rtt_probe
  rtt_probe-Quiet = Quiet-bind _ _ (Quiet-gets _) λ rtt.
      Quiet-option rtt _ _
        (Quiet-bind _ _ read_clock-Quiet λ now. Quiet-modify _ λ c. same refl refl)
        λ t. Quiet-pure tt

  pub rtt_sample-Quiet : Quiet {R = R} rtt_sample
  unfolding rtt_sample set_new_rto
  rtt_sample-Quiet = Quiet-bind _ _ (Quiet-gets _) λ rtt. Quiet-option rtt _ _ (Quiet-pure tt) λ t.
      Quiet-bind _ _ read_clock-Quiet
        λ now. Quiet-modify _ λ c. set_new_rto-Same _ c.srtt c.rttvar c

  pub resend_fin-Quiet : Quiet {R = R} resend_fin
  unfolding resend_fin
  resend_fin-Quiet = search (quiet_rules, advance_snd_nxt-Quiet, start_rtx_timer-Quiet) depth 12
