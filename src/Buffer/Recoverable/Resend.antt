-- ===== src/Buffer/Recoverable/Resend.antt =====
-- What a send buffer keeps for retransmission: the bytes from `r` up to the virtual write offset.
use tipy.Common.{
  ℕ, ◌+◌, ◌-◌, ◌%◌, ◌≤◌, ◌<◌, ◌≡◌, refl, sym, drop-append_length, ◌∙◌, ap, List, ◌++◌, length, take,
  drop, concat, min, arith, length-append, length-take, length-drop, length-replicate, take_all,
}
use tipy.Buffer.Slices
use tipy.Buffer.Slices.Contents.{
  InRing, contents, length-contents, free-add-ready, ready_cases, mod-lt_two,
}
use tipy.Buffer.Slices.Enqueue.{enqueue-Enqueued, enqueue_lem, stored-contents}
use tipy.Buffer.Slices.Dequeue.{dequeue-Dequeued, dequeue-offset}
use tipy.Buffer.Recoverable.{RRingBuffer, init, free, free_space, roll_back_to_r, enqueue, dequeue}

-- the bytes still to be read
unfoldable pub unread : RRingBuffer → List ℕ
unread b = contents b.ring b.vr b.vw

-- the bytes not yet freed: those handed out and not acknowledged, then those still to be read
unfoldable pub retained : RRingBuffer → List ℕ
retained b = contents b.ring b.r b.vw

-- The offsets lie inside the ring, and what is still to be read is among what is retained.
pub record IsValid (b : RRingBuffer) : Type 0 where
  pub reading : InRing b.size b.ring b.vr b.vw
  pub keeping : InRing b.size b.ring b.r b.vw
  pub within : length (unread b) ≤ length (retained b)

pub init-IsValid : (size : ℕ) → 0 < size → IsValid (init size)
unfolding init unread retained
init-IsValid size h = record {
  reading = record { storage = length-replicate size 0; read_in = h; write_in = h };
  keeping = record { storage = length-replicate size 0; read_in = h; write_in = h };
  within = omega arith;
}

-- From the virtual read offset round the ring to the read offset.
offset_back :
    {size r vr w : ℕ} {ring : List ℕ}
    → InRing size ring r w
    → InRing size ring vr w
    → (n : ℕ) → n + Slices.ready_bytes size r w ≡ size + Slices.ready_bytes size vr w
    → Slices.ready_bytes size vr w < Slices.ready_bytes size r w
    → (vr + n) % size ≡ r
offset_back {size} {r} {vr} {w} keeping reading n e apart = omega (
  arith,
  ready_cases size r w keeping.read_in keeping.write_in,
  ready_cases size vr w reading.read_in reading.write_in,
  mod-lt_two (vr + n) size,
  keeping.read_in,
  reading.read_in,
  keeping.write_in,
)

module _ {b : RRingBuffer} (v : IsValid b) where
  length-retained : length (retained b) ≡ Slices.ready_bytes b.size b.r b.vw
  unfolding retained
  length-retained = length-contents v.keeping

  length-unread : length (unread b) ≡ Slices.ready_bytes b.size b.vr b.vw
  unfolding unread
  length-unread = length-contents v.reading

  -- Reading and rolling back: a read changes nothing that is retained, and after a rollback the
  -- retained bytes are read again from the first one on, whatever was read before.
  pub resend :
      (n m : ℕ)
      → let (_, sent) = dequeue b n in
        let (again, b') = dequeue (roll_back_to_r sent) m in
        (concat again ≡ take m (retained b))
        × (unread b' ≡ drop m (retained b))
        × (retained b' ≡ retained b)
  unfolding dequeue roll_back_to_r retained unread
  resend n m = let d = dequeue-Dequeued v.keeping m in (d.returned, d.left, refl)

  -- A read returns the next unread bytes, leaves the others, and keeps all that was retained.
  pub dequeue_lem :
      (n : ℕ)
      → let (views, b') = dequeue b n in
        (concat views ≡ take n (unread b))
        × (unread b' ≡ drop n (unread b))
        × (retained b' ≡ retained b)
  unfolding dequeue retained unread
  dequeue_lem n = let d = dequeue-Dequeued v.reading n in (d.returned, d.left, refl)

  pub dequeue-IsValid : (n : ℕ) → IsValid (dequeue b n).1
  unfolding dequeue unread retained
  dequeue-IsValid n =
      let d = dequeue-Dequeued v.reading n in
      record {
        reading = d.valid;
        keeping = v.keeping;
        within = rw d.left (omega (arith, length-drop n (unread b), v.within));
      }

  pub roll_back_to_r-IsValid : IsValid (roll_back_to_r b)
  unfolding roll_back_to_r unread retained
  roll_back_to_r-IsValid = record { reading = v.keeping; keeping = v.keeping; within = omega arith }

  -- Freeing acknowledged bytes, no more than are retained, forgets exactly the oldest ones.
  pub retained-free : (n : ℕ) → n ≤ length (retained b) → retained (free b n) ≡ drop n (retained b)
  unfolding free retained
  retained-free n h =
      let few : n ≤ Slices.ready_bytes b.size b.r b.vw = omega (arith, length-retained) in
      rw (← dequeue-offset v.keeping n few) (dequeue-Dequeued v.keeping n).left

  -- A write that fits beside everything retained is taken whole, and both the retained and the
  -- unread bytes grow by exactly it.
  pub enqueue_beside :
      (buffer : List ℕ)
      → length (retained b) + length buffer < b.size
      → let (n, b') = enqueue b buffer in
        (n ≡ length buffer)
        × (retained b' ≡ retained b ++ buffer)
        × (unread b' ≡ unread b ++ buffer)
  unfolding enqueue retained unread
  enqueue_beside buffer h =
      let all : min (length buffer) (Slices.free_bytes b.size b.vr b.vw) ≡ length buffer =
        omega (arith, length-unread, length-retained, free-add-ready v.reading, v.within) in
      let whole = take_all (length buffer) buffer (omega arith) in
      rw (enqueue_lem v.reading buffer, all)
        (
          refl,
          stored-contents v.keeping buffer (length buffer) (omega arith)
                (omega (arith, length-retained, free-add-ready v.keeping))
              ∙ ap (λ k. retained b ++ k) whole,
          stored-contents v.reading buffer (length buffer) (omega arith) (omega (arith, all))
              ∙ ap (λ k. unread b ++ k) whole,
        )

  -- A write of at least `free_space` bytes, while bytes that were read are not freed, destroys all
  -- that was retained: after a rollback, what is read is the end of the write and nothing else.
  pub enqueue_overwrites :
      (buffer : List ℕ)
      → free_space b ≤ length buffer
      → length (unread b) < length (retained b)
      → let (n, b') = enqueue b buffer in
        (n ≡ free_space b)
        × (unread (roll_back_to_r b') ≡ drop (b.size - length (retained b)) (take n buffer))
  unfolding enqueue roll_back_to_r unread free_space retained
  enqueue_overwrites buffer full unacked =
      let d = enqueue-Enqueued v.reading buffer in
      let n = (enqueue b buffer).0 in
      let ring = (enqueue b buffer).1.ring in
      let vw = (enqueue b buffer).1.vw in
      let left = b.size - length (retained b) in
      let skipped = length (unread b) + left in
      let kept = length-retained in
      let waiting = length-unread in
      let taken : n ≡ free_space b = omega (arith, d.taken) in
      let back : (b.vr + skipped) % b.size ≡ b.r =
        offset_back v.keeping v.reading skipped
          (omega (arith, kept, waiting, free-add-ready v.keeping)) (omega (arith, kept, waiting)) in
      let few : skipped ≤ Slices.ready_bytes b.size b.vr vw = omega (
        arith,
        length-contents d.valid,
        ap (length {0}) d.appended,
        length-append (unread b) (take n buffer),
        length-take n buffer,
        d.taken,
        waiting,
        kept,
        free-add-ready v.reading,
        free-add-ready v.keeping,
      ) in
      (
        taken,
        ap (λ r. contents ring r vw) (sym (dequeue-offset d.valid skipped few ∙ back))
            ∙ (dequeue-Dequeued d.valid skipped).left
            ∙ ap (drop skipped) d.appended
            ∙ drop-append_length (unread b) (take n buffer) left,
      )
