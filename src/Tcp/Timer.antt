-- ===== src/Tcp/Timer.antt =====
-- tipy/protocols/tcp/tcp_timer.py: the retransmission timeout and the two timers of a block.
-- A float is a value of `R`. The heap behind `schedule_timer` is not modelled: a task is appended
-- to the tasks ever scheduled, and `TimerTask.remove` marks it.
pub mod Rto
use tipy.Common.{
  ℕ, zero, suc, Bool, true, false, Option, none, some, List, [], ◌∷◌, ◌++◌, length, if◌then◌else◌,
}
use tipy.Tcp.Types.{Tcpcb, FloatOps, TimerTask, TimerCall, schedule_rtx, call_remove_tcpcb}
use tipy.Tcp.Action.{Action, gets, modify, skip, when, ◌>>=◌, ◌>>◌}

module _ {R : Type 0} ⦃fl : FloatOps R⦄ where
  -- Python's `max(a, b)` and `min(a, b)`: the first, unless the second is strictly better
  abbrev pub fmax : R → R → R
  fmax a b = if fl.lt a b then b else a

  abbrev pub fmin : R → R → R
  fmin a b = if fl.lt b a then b else a

  -- TIME_WAIT_TIMEOUT, K, G, MAX_RTO, MIN_RTO, BETA, ALPHA
  abbrev pub time_wait_timeout : R
  time_wait_timeout = fl.ratio 30 1

  abbrev pub k_factor : R
  k_factor = fl.ratio 4 1

  abbrev pub granularity : R
  granularity = fl.ratio 1 1000

  abbrev pub max_rto : R
  max_rto = fl.ratio 60 1

  abbrev pub min_rto : R
  min_rto = fl.ratio 1 1

  abbrev pub beta : R
  beta = fl.ratio 1 4

  abbrev pub alpha : R
  alpha = fl.ratio 1 8

  abbrev pub rto_of : R → R → R
  rto_of srtt rttvar = fmax (fl.add srtt (fmax granularity (fl.mul k_factor rttvar))) min_rto

  -- `rtt` is the sample, the value that `tcpcb.rtt` has at the call.
  unfoldable pub set_initial_rto : R → Tcpcb R → Tcpcb R
  set_initial_rto rtt c =
      let rttvar = fl.div rtt (fl.ratio 2 1) in
      record c { srtt = some rtt; rttvar = some rttvar; rto = rto_of rtt rttvar; rtt = none }

  unfoldable pub update_rto : R → R → R → Tcpcb R → Tcpcb R
  update_rto rtt srtt rttvar c =
      let one = fl.ratio 1 1 in
      let rttvar' : R =
        fl.add (fl.mul (fl.sub one beta) rttvar) (fl.mul beta (fl.abs (fl.sub srtt rtt))) in
      let srtt' : R = fl.add (fl.mul (fl.sub one alpha) srtt) (fl.mul alpha rtt) in
      record c { rttvar = some rttvar'; srtt = some srtt'; rto = rto_of srtt' rttvar'; rtt = none }

  unfoldable pub new_rto : R → Option R → Option R → Tcpcb R → Tcpcb R
  new_rto rtt (some srtt) (some rttvar) c = update_rto rtt srtt rttvar c
  new_rto rtt _ _ c = set_initial_rto rtt c

  unfoldable pub set_new_rto : R → Tcpcb R → Tcpcb R
  set_new_rto rtt c = new_rto rtt c.srtt c.rttvar c

  unfoldable pub back_off_rto : Action R (Unit {0})
  back_off_rto = modify λ c. record c {
    rto = fmin (fl.mul c.rto (fl.ratio 2 1)) max_rto;
    rttvar = none;
    srtt = none;
    rtt = none;
  }

module _ {R : Type 0} where
  -- `TimerTask.remove` on the task at an index
  unfoldable pub remove_task : ℕ → List (TimerTask R) → List (TimerTask R)
  remove_task i [] = []
  remove_task zero (t ∷ ts) = record t { deleted = true } ∷ ts
  remove_task (suc i) (t ∷ ts) = t ∷ remove_task i ts

  -- `if timer: timer.remove()`
  unfoldable pub remove_timer : Option ℕ → List (TimerTask R) → List (TimerTask R)
  remove_timer none ts = ts
  remove_timer (some i) ts = remove_task i ts

  -- `schedule_timer`: the new task; its name is the number of tasks before it
  abbrev pub with_task : R → TimerCall → List (TimerTask R) → List (TimerTask R)
  with_task after call ts =
      ts ++ (record { expire_after = after; call = call; deleted = false } ∷ [])

  unfoldable pub schedule_rtx_timer : Tcpcb R → Tcpcb R
  schedule_rtx_timer c = record c {
    rtx_timer = some (length c.timers);
    timers = with_task c.rto schedule_rtx c.timers;
  }

  unfoldable pub start_unless : Option ℕ → Tcpcb R → Tcpcb R
  start_unless none c = schedule_rtx_timer c
  start_unless (some i) c = c

  unfoldable pub start_rtx_timer : Action R (Unit {0})
  start_rtx_timer = modify λ c. start_unless c.rtx_timer c

  unfoldable pub restart_rtx_timer : Action R (Unit {0})
  restart_rtx_timer =
      modify λ c. schedule_rtx_timer (record c { timers = remove_timer c.rtx_timer c.timers })

  unfoldable pub stop_rtx_timer : Action R (Unit {0})
  stop_rtx_timer =
      modify λ c. record c { timers = remove_timer c.rtx_timer c.timers; rtx_timer = none }

  unfoldable pub stop_time_wait_timer : Action R (Unit {0})
  stop_time_wait_timer =
      modify
        λ c. record c { timers = remove_timer c.time_wait_timer c.timers; time_wait_timer = none }

  unfoldable pub stop_all_timers : Action R (Unit {0})
  stop_all_timers = stop_rtx_timer >> stop_time_wait_timer

module _ {R : Type 0} ⦃fl : FloatOps R⦄ where
  unfoldable pub start_time_wait_timer : Action R (Unit {0})
  start_time_wait_timer = modify λ c. record c {
    time_wait_timer = some (length c.timers);
    timers = with_task time_wait_timeout call_remove_tcpcb c.timers;
  }
