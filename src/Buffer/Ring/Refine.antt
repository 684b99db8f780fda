-- ===== src/Buffer/Ring/Refine.antt =====
-- A `RingBuffer` behaves as the bounded queue of the bytes that it holds.
use tipy.Common.{
  ℕ, ◌+◌, ◌-◌, ◌≤◌, ◌<◌, ◌≡◌, ◌↔◌, refl, ◌∙◌, ap, true, List, [], ◌∷◌, ◌++◌, length, take, drop,
  concat, min, arith, length-replicate,
}
use tipy.Buffer.Slices.Contents.{InRing, contents, length-contents, free-add-ready, ready_cases}
use tipy.Buffer.Slices.Enqueue.{enqueue-Enqueued}
use tipy.Buffer.Slices.Dequeue.{dequeue-Dequeued}
use tipy.Buffer.Queue
use tipy.Buffer.Queue.{Op, put, get, accepted, bytes}
use tipy.Buffer.Ring.{RingBuffer, init, free_space, ready, is_empty, enqueue, dequeue, run}

abbrev pub IsValid : RingBuffer → Type 0
IsValid b = InRing b.size b.ring b.r b.w

unfoldable pub held : RingBuffer → List ℕ
held b = contents b.ring b.r b.w

pub init-IsValid : (size : ℕ) → 0 < size → IsValid (init size)
unfolding init
init-IsValid size h = record { storage = length-replicate size 0; read_in = h; write_in = h }

pub length-held : {b : RingBuffer} → IsValid b → length (held b) ≡ ready b
unfolding held ready
length-held v = length-contents v

is_empty_iff : {b : RingBuffer} → IsValid b → (is_empty b ≡ true) ↔ (ready b ≡ 0)
unfolding is_empty ready
is_empty_iff {b} v = (
  λ e. ground (arith, ready_cases b.size b.r b.w v.read_in v.write_in),
  λ e. ground (arith, ready_cases b.size b.r b.w v.read_in v.write_in),
)

-- The counts that a ring reports: the bytes held and the bytes that fit make up all of the ring
-- but one byte, and the ring is empty exactly when it holds nothing.
pub counts :
    {b : RingBuffer}
    → IsValid b
    → (ready b ≡ length (held b))
      × (free_space b + length (held b) + 1 ≡ b.size)
      × ((is_empty b ≡ true) ↔ (length (held b) ≡ 0))
counts {b} v =
    rw (length-held v) (refl, unfold ready free_space in free-add-ready v, is_empty_iff v)

module _ {b : RingBuffer} (v : IsValid b) where
  pub enqueue-IsValid : (buffer : List ℕ) → IsValid (enqueue b buffer).1
  unfolding enqueue
  enqueue-IsValid buffer = (enqueue-Enqueued v buffer).valid

  pub dequeue-IsValid : (n : ℕ) → IsValid (dequeue b n).1
  unfolding dequeue
  dequeue-IsValid n = (dequeue-Dequeued v n).valid

  -- `enqueue` is the queue's `push`: the count that it returns and the bytes held afterwards.
  pub enqueue_refines :
      (buffer : List ℕ)
      → let (n, b') = enqueue b buffer in (n, held b') ≡ Queue.push (b.size - 1) (held b) buffer
  unfolding enqueue held
  enqueue_refines buffer =
      let d = enqueue-Enqueued v buffer in
      let fits = length-contents v in
      let count : (enqueue b buffer).0 ≡ min (length buffer) (b.size - 1 - length (held b)) =
        omega (arith, d.taken, fits, free-add-ready v) in
      λ i. (count i, (d.appended ∙ ap (λ k. held b ++ take k buffer) count) i)

  size-enqueue : (buffer : List ℕ) → (enqueue b buffer).1.size ≡ b.size
  unfolding enqueue
  size-enqueue buffer = refl

  size-dequeue : (n : ℕ) → (dequeue b n).1.size ≡ b.size
  unfolding dequeue
  size-dequeue n = refl

  -- `dequeue` returns the first bytes of the queue, in at most two views, and leaves the others.
  pub dequeue_refines :
      (n : ℕ)
      → let (views, b') = dequeue b n in
        (concat views ≡ take n (held b)) × (held b' ≡ drop n (held b)) × (length views ≤ 2)
  unfolding dequeue held
  dequeue_refines n = let d = dequeue-Dequeued v n in (d.returned, d.left, d.views)

-- No sequence of calls tells a ring from the queue of its bytes with capacity `size - 1`.
pub run_refines :
    (ops : List Op) {b : RingBuffer} → IsValid b → run b ops ≡ Queue.run (b.size - 1) (held b) ops
unfolding run Queue.run enqueue held
run_refines [] v = refl
run_refines (put buffer ∷ ops) {b} v =
    rw (run_refines ops (enqueue-IsValid v buffer), size-enqueue v buffer)
      (ap (λ (p : ℕ × List ℕ). accepted p.0 ∷ Queue.run (b.size - 1) p.1 ops)
        (enqueue_refines v buffer))
run_refines (get n ∷ ops) {b} v =
    rw
      (
        run_refines ops (dequeue-IsValid v n),
        size-dequeue v n,
        (dequeue_refines v n).0,
        (dequeue_refines v n).1,
      )
      refl
