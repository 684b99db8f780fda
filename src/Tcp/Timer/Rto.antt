-- ===== src/Tcp/Timer/Rto.antt =====
-- The bounds of the retransmission timeout.
use tipy.Common.{◌≡◌, refl, false, Bool-cases, inl, inr, Option, none, some}
use tipy.Tcp.Types.{Tcpcb, FloatOps}
use tipy.Tcp.Action.{modify}
use tipy.Tcp.Timer.{
  fmax, fmin, min_rto, max_rto, set_initial_rto, update_rto, new_rto, set_new_rto, back_off_rto,
}

module _ {R : Type 0} ⦃fl : FloatOps R⦄ where
  fmax_bound : (a b : R) → fl.lt b b ≡ false → fl.lt (fmax a b) b ≡ false
  fmax_bound a b irreflexive = elim (Bool-cases (fl.lt a b)) [
    | inl e ↦ rw e irreflexive
    | inr e ↦ rw (e, e) refl
  ]

  fmin_bound : (a b : R) → fl.lt b b ≡ false → fl.lt b (fmin a b) ≡ false
  fmin_bound a b irreflexive = elim (Bool-cases (fl.lt b a)) [
    | inl e ↦ rw e irreflexive
    | inr e ↦ rw (e, e) refl
  ]

  new_rto_bound :
      (rtt : R) (s v : Option R) (c : Tcpcb R)
      → fl.lt min_rto min_rto ≡ false
      → (fl.lt (new_rto rtt s v c).rto min_rto ≡ false) × ((new_rto rtt s v c).rtt ≡ none)
  unfolding new_rto update_rto set_initial_rto
  new_rto_bound rtt (some s) (some v) c h = (fmax_bound _ min_rto h, refl)
  new_rto_bound rtt (some s) none c h = (fmax_bound _ min_rto h, refl)
  new_rto_bound rtt none v c h = (fmax_bound _ min_rto h, refl)

  -- If no float comes before itself: after a sample the timeout is not below MIN_RTO, whether the
  -- sample was the first or not, and after a backoff it is not above MAX_RTO; both clear the
  -- sample that was running.
  pub rto_bounds :
      (rtt : R) (c : Tcpcb R)
      → ((a : R) → fl.lt a a ≡ false)
      → (fl.lt (set_new_rto rtt c).rto min_rto ≡ false)
        × ((set_new_rto rtt c).rtt ≡ none)
        × (fl.lt max_rto (back_off_rto c).1.rto ≡ false)
        × ((back_off_rto c).1.rtt ≡ none)
  unfolding set_new_rto back_off_rto modify
  rto_bounds rtt c irreflexive =
      let (least, cleared) = new_rto_bound rtt c.srtt c.rttvar c (irreflexive min_rto) in
      (least, cleared, fmin_bound _ max_rto (irreflexive max_rto), refl)
