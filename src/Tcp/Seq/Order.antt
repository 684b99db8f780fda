-- ===== src/Tcp/Seq/Order.antt =====
-- The comparisons of sequence numbers as facts about offsets from a base, across the wrap.
use tipy.Common.{ap, ℕ, ◌+◌, ◌-◌, ◌^◌, ◌≤◌, ◌<◌, ◌≡◌, ◌≢◌, ◌⊎◌, ◌↔◌, true, not, arith, ltb}
use tipy.Tcp.Seq.{seq_mod, mask32, seq_diff, seq_lt, seq_leq, seq_gt, seq_geq}

-- For sequence numbers the difference is the number of steps from `b` up to `a`, round the wrap:
-- it is below 2 ^ 32, and `b` advanced by it is `a`.
pub seq_diff_steps :
    (a b : ℕ)
    → a < seq_mod
    → b < seq_mod
    → (seq_diff a b < seq_mod) × (mask32 (b + seq_diff a b) ≡ a)
unfolding seq_diff
seq_diff_steps a b ha hb = omega arith

-- Advancing by fewer than 2 ^ 32 steps and measuring the way gives the number of steps.
pub seq_diff-advance : (a n : ℕ) → a < seq_mod → n < seq_mod → seq_diff (mask32 (a + n)) a ≡ n
unfolding seq_diff
seq_diff-advance a n ha hn = omega arith

seq_diff_shift :
    (a b k : ℕ)
    → a < seq_mod
    → b < seq_mod
    → seq_diff (mask32 (a + k)) (mask32 (b + k)) ≡ seq_diff a b
unfolding seq_diff
seq_diff_shift a b k ha hb = omega arith

-- Moving both numbers by the same distance changes no comparison, wherever the wrap falls.
pub seq_lt_shift :
    (a b k : ℕ) → a < seq_mod → b < seq_mod → seq_lt (mask32 (a + k)) (mask32 (b + k)) ≡ seq_lt a b
unfolding seq_lt
seq_lt_shift a b k ha hb = ap (λ d. ltb 0x7fff_ffff d) (seq_diff_shift a b k ha hb)

-- the two directions round the circle
pub seq_diff_flip :
    (a b : ℕ)
    → a < seq_mod
    → b < seq_mod
    → ((a ≡ b) × (seq_diff a b ≡ 0) × (seq_diff b a ≡ 0))
      ⊎ ((a ≢ b) × (0 < seq_diff a b) × (seq_diff b a ≡ seq_mod - seq_diff a b))
unfolding seq_diff
seq_diff_flip a b ha hb = grind arith

-- Of two sequence numbers that are not half the space apart, exactly one comes before the other
-- or they are equal: the tests say which, and agree with one another.
pub seq_trichotomy :
    (a b : ℕ)
    → a < seq_mod
    → b < seq_mod
    → seq_diff a b ≢ 2 ^ 31
    → (seq_lt a b ≡ not (seq_geq a b))
      × (seq_gt a b ≡ not (seq_leq a b))
      × (seq_gt a b ≡ seq_lt b a)
      × (seq_geq a b ≡ seq_leq b a)
seq_trichotomy a b ha hb half =
    unfold seq_lt seq_leq seq_gt seq_geq in ground (arith, seq_diff_flip a b ha hb)

-- A number seen from a base moved forward by `n`.
pub seq_diff_rebase :
    (b s n : ℕ)
    → b < seq_mod
    → s < seq_mod
    → n < seq_mod
    → ((seq_diff s b < n) × (seq_diff s (mask32 (b + n)) + n ≡ seq_mod + seq_diff s b))
      ⊎ ((n ≤ seq_diff s b) × (seq_diff s (mask32 (b + n)) + n ≡ seq_diff s b))
unfolding seq_diff
seq_diff_rebase b s n hb hs hn = grind arith

-- From a base `b`, for a window of at most 2 ^ 31 numbers, the test of a receiver `b <= s < b + n`
-- holds exactly when `s` is fewer than `n` steps after `b`.
pub seq_window :
    (b s n : ℕ)
    → b < seq_mod
    → s < seq_mod
    → 0 < n
    → n < 2 ^ 31
    → (seq_leq b s ≡ true) × (seq_lt s (mask32 (b + n)) ≡ true) ↔ (seq_diff s b < n)
seq_window b s n hb hs pn hn =
    unfold seq_lt seq_leq in
    (
      λ h. ground (arith, seq_diff_flip s b hs hb, seq_diff_rebase b s n hb hs (omega arith)),
      λ h. ground (arith, seq_diff_flip s b hs hb, seq_diff_rebase b s n hb hs (omega arith)),
    )
