-- ===== src/Buffer/Tests.antt =====
-- Concrete runs of the models of tipy/lib/buffer.py, and examples of the theorems on them.
use tipy.Common.{◌-◌, ◌≤◌, ◌<◌, ◌≡◌, refl, arith, [], ◌∷◌, length, concat, take, drop}
use tipy.Buffer.Slices
use tipy.Buffer.Queue
use tipy.Buffer.Queue.{put, get, accepted, bytes}
use tipy.Buffer.Ring
use tipy.Buffer.Ring.{RingBuffer}
use tipy.Buffer.Ring.Refine.{held, counts, enqueue_refines, dequeue_refines, run_refines}
use tipy.Buffer.Ring.Refine as RingProofs
use tipy.Buffer.Recoverable
use tipy.Buffer.Recoverable.{RRingBuffer}
use tipy.Buffer.Recoverable.Resend.{
  unread, retained, resend, dequeue_lem, retained-free, enqueue_beside, enqueue_overwrites,
}
use tipy.Buffer.Recoverable.Resend as ResendProofs

-- a ring of four bytes that has taken two and handed out one
abbrev ring : RingBuffer
ring = (Ring.dequeue (Ring.enqueue (Ring.init 4) (1 ∷ 2 ∷ [])).1 1).1

ring-IsValid : RingProofs.IsValid ring
ring-IsValid =
    RingProofs.dequeue-IsValid
      (RingProofs.enqueue-IsValid (RingProofs.init-IsValid 4 (omega arith)) (1 ∷ 2 ∷ [])) 1

-- the third write wraps, and the last is cut to the one byte that fits
wraps :
    Ring.run (Ring.init 4) (put (1 ∷ 2 ∷ []) ∷ get 1 ∷ put (3 ∷ 4 ∷ 5 ∷ []) ∷ get 9 ∷ [])
    ≡ accepted 2 ∷ bytes (1 ∷ []) ∷ accepted 2 ∷ bytes (2 ∷ 3 ∷ 4 ∷ []) ∷ []
unfolding Ring.run Ring.init Ring.enqueue Ring.dequeue Slices.enqueue Slices.dequeue Slices.stored
    Slices.free_bytes Slices.ready_bytes
wraps = refl

run_refines_example :
    Ring.run ring (put (3 ∷ 4 ∷ 5 ∷ []) ∷ get 9 ∷ [])
    ≡ Queue.run (ring.size - 1) (held ring) (put (3 ∷ 4 ∷ 5 ∷ []) ∷ get 9 ∷ [])
run_refines_example = run_refines (put (3 ∷ 4 ∷ 5 ∷ []) ∷ get 9 ∷ []) ring-IsValid

-- a send buffer of four bytes, of which two are written
abbrev written : RRingBuffer
written = (Recoverable.enqueue (Recoverable.init 4) (1 ∷ 2 ∷ [])).1

empty-IsValid : ResendProofs.IsValid (Recoverable.init 4)
empty-IsValid = ResendProofs.init-IsValid 4 (omega arith)

-- `written` is the empty buffer after a write, with its parts
written-IsValid : ResendProofs.IsValid written
unfolding Recoverable.init Recoverable.enqueue Slices.enqueue Slices.stored Slices.free_bytes unread
    retained Slices.ready_bytes
written-IsValid = record {
  reading = record { storage = refl; read_in = omega arith; write_in = omega arith };
  keeping = record { storage = refl; read_in = omega arith; write_in = omega arith };
  within = omega arith;
}

-- both bytes were sent and are not acknowledged
abbrev sent : RRingBuffer
sent = (Recoverable.dequeue written 2).1

sent-IsValid : ResendProofs.IsValid sent
sent-IsValid = ResendProofs.dequeue-IsValid written-IsValid 2

sent_counts : (Recoverable.free_space sent ≤ 3) × (length (unread sent) < length (retained sent))
unfolding Recoverable.init Recoverable.enqueue Recoverable.dequeue Recoverable.free_space
    Slices.enqueue Slices.dequeue Slices.stored Slices.free_bytes Slices.ready_bytes unread retained
    tipy.Buffer.Slices.Contents.contents
sent_counts = (omega arith, omega arith)

resend_example :
    let (_, once) = Recoverable.dequeue written 2 in
    let (again, b') = Recoverable.dequeue (Recoverable.roll_back_to_r once) 1 in
    (concat again ≡ take 1 (retained written))
    × (unread b' ≡ drop 1 (retained written))
    × (retained b' ≡ retained written)
resend_example = resend written-IsValid 2 1

enqueue_overwrites_example :
    let (n, b') = Recoverable.enqueue sent (3 ∷ 4 ∷ 5 ∷ []) in
    (n ≡ Recoverable.free_space sent)
    × (unread (Recoverable.roll_back_to_r b')
        ≡ drop (sent.size - length (retained sent)) (take n (3 ∷ 4 ∷ 5 ∷ [])))
enqueue_overwrites_example =
    enqueue_overwrites sent-IsValid (3 ∷ 4 ∷ 5 ∷ []) sent_counts.0 sent_counts.1
