-- ===== src/Buffer/Ring.antt =====
-- `RingBuffer` of tipy/lib/buffer.py. Locks are not modelled: a method is one step.
pub mod Refine
use tipy.Common.{ℕ, ◌-◌, Bool, List, [], ◌∷◌, length, replicate, concat, ◌==◌}
use tipy.Buffer.Slices
use tipy.Buffer.Slices.{free_bytes, ready_bytes}
use tipy.Buffer.Queue.{Op, put, get, Reply, accepted, bytes}

pub record RingBuffer : Type 0 where
  pub size : ℕ
  pub ring : List ℕ
  pub w : ℕ
  pub r : ℕ

unfoldable pub init : ℕ → RingBuffer
init size = record { size = size; ring = replicate size 0; w = 0; r = 0 }

unfoldable pub free_space : RingBuffer → ℕ
free_space b = free_bytes b.size b.r b.w

unfoldable pub ready : RingBuffer → ℕ
ready b = ready_bytes b.size b.r b.w

unfoldable pub is_empty : RingBuffer → Bool
is_empty b = b.w == b.r

unfoldable pub enqueue : RingBuffer → List ℕ → ℕ × RingBuffer
enqueue b buffer =
    let (n, ring, w) = Slices.enqueue b.size b.ring b.r b.w buffer in
    (n, record b { ring = ring; w = w })

unfoldable pub dequeue : RingBuffer → ℕ → List (List ℕ) × RingBuffer
dequeue b n = let (views, r) = Slices.dequeue b.size b.ring b.r b.w n in (views, record b { r = r })

-- A client's calls in order, with what each returns. The views of a `dequeue` are joined, as
-- `TCPSocket.recv` does.
unfoldable pub run : RingBuffer → List Op → List Reply
run b [] = []
run b (put buffer ∷ ops) = let (n, b') = enqueue b buffer in accepted n ∷ run b' ops
run b (get n ∷ ops) = let (views, b') = dequeue b n in bytes (concat views) ∷ run b' ops
