-- ===== src/Tcp/Output/Challenge.antt =====
-- The rate limit of challenge ACKs (`_send_challenge_ack`).
use tipy.Common.{
  ℕ, ◌+◌, ◌≤◌, ◌<◌, ◌≡◌, ◌⊎◌, inl, inr, refl, ap, ◌∙◌, Bool-cases, arith, length, leb, leb→lt,
  if◌then◌else◌,
}
use tipy.Tcp.Types.{Tcpcb, max_tcp_challenge_ack_limit}
use tipy.Tcp.Action.{◌>>=◌, ◌>>◌, skip, gets, pure, modify, read_clock}
use tipy.Tcp.Output.{refilled, spend_token, send_ack, send_challenge_ack, tx_tcp}

module _ {R : Type 0} where
  refilled-limit :
      (now : ℕ) (c : Tcpcb R)
      → c.challenge_ack_limit ≤ max_tcp_challenge_ack_limit
      → (refilled now c).challenge_ack_limit ≤ max_tcp_challenge_ack_limit
  refilled-limit now c h = ground arith

  refilled-effects : (now : ℕ) (c : Tcpcb R) → (refilled now c).effects ≡ c.effects
  refilled-effects now c = ground arith

  -- the end of the handler, on the block after the refill
  spend :
      (c : Tcpcb R)
      → let c' = ((if leb c.challenge_ack_limit 0 then skip else (send_ack >> spend_token)) c).1 in
        (c'.challenge_ack_limit ≤ c.challenge_ack_limit)
        × (length c'.effects + c'.challenge_ack_limit ≡ length c.effects + c.challenge_ack_limit)
        × ((c'.effects ≡ c.effects) ⊎ (0 < c.challenge_ack_limit))
  unfolding ◌>>=◌ modify pure send_ack tx_tcp spend_token
  spend c = elim (Bool-cases (leb c.challenge_ack_limit 0)) [
    | inl e ↦ rw e (omega arith, refl, inl refl)
    | inr e ↦
        let some_left : 0 < c.challenge_ack_limit = leb→lt c.challenge_ack_limit 0 e in
        rw e (omega arith, omega arith, inr some_left)
  ]

  -- Tokens pay for challenge ACKs: with the tokens refilled at the reading of the clock, one fewer
  -- is left if an ACK was sent, and none is sent if there was none; there are never more than 100.
  pub send_challenge_ack_lem :
      (c : Tcpcb R)
      → c.challenge_ack_limit ≤ max_tcp_challenge_ack_limit
      → let c' = (send_challenge_ack c).1 in
        let tokens = (refilled (read_clock c).0 (read_clock c).1).challenge_ack_limit in
        (c'.challenge_ack_limit ≤ max_tcp_challenge_ack_limit)
        × (length c'.effects + c'.challenge_ack_limit ≡ length c.effects + tokens)
        × ((c'.effects ≡ c.effects) ⊎ (0 < tokens))
  unfolding send_challenge_ack read_clock ◌>>=◌ gets modify pure
  send_challenge_ack_lem c h =
      let refill = refilled (read_clock c).0 (read_clock c).1 in
      let (fewer, paid, sent) = spend refill in
      let same = refilled-effects (read_clock c).0 (read_clock c).1 in
      (
        omega (arith, fewer, refilled-limit (read_clock c).0 (read_clock c).1 h),
        paid ∙ ap (λ es. length {0} es + refill.challenge_ack_limit) same,
        elim sent [ inl e ↦ inl (e ∙ same) | inr h' ↦ inr h' ],
      )
