-- ===== src/Tcp/Seq.antt =====
-- tipy/protocols/tcp/tcp_seq.py: comparison in the sequence space of 2 ^ 32 numbers.
-- `& 0xFFFFFFFF` is the remainder by 2 ^ 32. Python's difference may be negative, so the modulus
-- is added before `b`, itself reduced, is taken away.
pub mod Order
use tipy.Common.{ℕ, ◌+◌, ◌-◌, ◌%◌, ◌^◌, Bool, not, ◌&&◌, ◌||◌, ltb, ◌==◌}

abbrev pub seq_mod : ℕ
seq_mod = 2 ^ 32

-- x & 0xFF_FF_FF_FF
abbrev pub mask32 : ℕ → ℕ
mask32 x = x % seq_mod

-- (a - b) & 0xFF_FF_FF_FF
unfoldable pub seq_diff : ℕ → ℕ → ℕ
seq_diff a b = (a + (seq_mod - b % seq_mod)) % seq_mod

unfoldable pub seq_lt : ℕ → ℕ → Bool
unfolding seq_diff
seq_lt a b = ltb 0x7fff_ffff (seq_diff a b)

unfoldable pub seq_leq : ℕ → ℕ → Bool
unfolding seq_lt
seq_leq a b = a == b || seq_lt a b

unfoldable pub seq_gt : ℕ → ℕ → Bool
unfolding seq_diff
seq_gt a b = not (a == b) && ltb (seq_diff a b) 0x8000_0000

unfoldable pub seq_geq : ℕ → ℕ → Bool
unfolding seq_gt
seq_geq a b = a == b || seq_gt a b
