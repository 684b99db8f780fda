-- ===== src/Buffer/Recoverable.antt =====
-- `RRingBuffer` of tipy/lib/buffer.py: reads and writes move the virtual offsets, and the offsets
-- `r` and `w` keep what they were. Locks are not modelled: a method is one step.
pub mod Resend
use tipy.Common.{ℕ, ◌+◌, ◌%◌, Bool, List, replicate, ◌==◌}
use tipy.Buffer.Slices
use tipy.Buffer.Slices.{free_bytes, ready_bytes}

pub record RRingBuffer : Type 0 where
  pub size : ℕ
  pub ring : List ℕ
  pub w : ℕ
  pub r : ℕ
  pub vr : ℕ
  pub vw : ℕ

unfoldable pub init : ℕ → RRingBuffer
init size = record { size = size; ring = replicate size 0; w = 0; r = 0; vr = 0; vw = 0 }

unfoldable pub free : RRingBuffer → ℕ → RRingBuffer
free b n = record b { r = (b.r + n) % b.size }

unfoldable pub free_space : RRingBuffer → ℕ
free_space b = free_bytes b.size b.vr b.vw

unfoldable pub ready : RRingBuffer → ℕ
ready b = ready_bytes b.size b.vr b.vw

unfoldable pub is_empty : RRingBuffer → Bool
is_empty b = b.vw == b.vr

unfoldable pub roll_back_to_r : RRingBuffer → RRingBuffer
roll_back_to_r b = record b { vr = b.r }

unfoldable pub roll_back_to_w : RRingBuffer → RRingBuffer
roll_back_to_w b = record b { vw = b.w }

unfoldable pub enqueue : RRingBuffer → List ℕ → ℕ × RRingBuffer
enqueue b buffer =
    let (n, ring, vw) = Slices.enqueue b.size b.ring b.vr b.vw buffer in
    (n, record b { ring = ring; vw = vw })

unfoldable pub dequeue : RRingBuffer → ℕ → List (List ℕ) × RRingBuffer
dequeue b n =
    let (views, vr) = Slices.dequeue b.size b.ring b.vr b.vw n in (views, record b { vr = vr })
