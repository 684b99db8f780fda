-- ===== src/Tcp/Input/Acks.antt =====
-- What an acknowledgement does to the send sequence (`_h_rx_ack`).
use tipy.Common.{ℕ, ◌+◌, ◌^◌, ◌≤◌, ◌<◌, ◌≡◌, ◌⊎◌, inl, inr, refl, Bool, true, false, arith, ◌||◌}
use tipy.Tcp.Seq.{seq_mod, seq_diff, seq_lt, seq_leq, seq_gt}
use tipy.Tcp.Seq.Order.{seq_diff_flip}
use tipy.Tcp.Types.{Segment, Tcpcb}
use tipy.Tcp.Input.{h_rx_ack}

-- the distances of three numbers on the circle, the first two from the base
pub seq_diff_split :
    (a n b : ℕ)
    → a < seq_mod
    → n < seq_mod
    → b < seq_mod
    → ((seq_diff a b ≤ seq_diff n b) × (seq_diff n a + seq_diff a b ≡ seq_diff n b))
      ⊎ ((seq_diff n b < seq_diff a b) × (seq_diff a n + seq_diff n b ≡ seq_diff a b))
unfolding seq_diff
seq_diff_split a n b ha hn hb = grind arith

-- the test that ignores an ACK
abbrev ignored : ℕ → ℕ → ℕ → Bool
ignored a b n = seq_leq a b || seq_gt a n

ignored_lem :
    (a n b : ℕ)
    → a < seq_mod
    → n < seq_mod
    → b < seq_mod
    → seq_diff n b < 2 ^ 31
    → ((ignored a b n ≡ false) × (0 < seq_diff a b) × (seq_diff a b ≤ seq_diff n b))
      ⊎ ((ignored a b n ≡ true) × ((seq_diff a b ≡ 0) ⊎ (seq_diff n b < seq_diff a b)))
ignored_lem a n b ha hn hb half =
    unfold seq_lt seq_leq seq_gt in
    ground (arith, seq_diff_split a n b ha hn hb, seq_diff_flip a b ha hb, seq_diff_flip a n ha hn)

module _ {R : Type 0} where
  -- With less than half the sequence space in flight, an acknowledgement is taken exactly if it
  -- covers something in flight and nothing beyond: then the number of newly acknowledged
  -- sequence numbers is returned, SND.UNA moves to it, and what stays in flight is the rest. Any
  -- other acknowledgement returns 0 and changes nothing.
  pub h_rx_ack_lem :
      (p : Segment) (c : Tcpcb R)
      → p.ack_seq < seq_mod
      → c.snd_una < seq_mod
      → c.snd_nxt < seq_mod
      → seq_diff c.snd_nxt c.snd_una < 2 ^ 31
      → let k = seq_diff p.ack_seq c.snd_una in
        let flight = seq_diff c.snd_nxt c.snd_una in
        ((0 < k)
          × (k ≤ flight)
          × (h_rx_ack p c ≡ (k, record c { snd_una = p.ack_seq }))
          × (seq_diff c.snd_nxt p.ack_seq + k ≡ flight))
        ⊎ (((k ≡ 0) ⊎ (flight < k)) × (h_rx_ack p c ≡ (0, c)))
  unfolding h_rx_ack
  h_rx_ack_lem p c ha hu hn half = elim (ignored_lem p.ack_seq c.snd_nxt c.snd_una ha hn hu half) [
    | inl (e, pos, le) ↦ rw e (
        inl (
          pos,
          le,
          refl,
          omega (arith, seq_diff_split p.ack_seq c.snd_nxt c.snd_una ha hn hu, pos, le),
        ))
    | inr (e, why) ↦ rw e (inr (why, refl))
  ]
