-- ===== src/Buffer/Slices/Dequeue.antt =====
-- What `dequeue` of tipy/lib/buffer.py takes from the bytes of a ring.
use native.Mathlib.Nat.{mod-eq_of_lt}
use tipy.Common.{
  ℕ, ◌+◌, ◌-◌, ◌%◌, ◌≤◌, ◌<◌, ◌≡◌, refl, ◌∙◌, ap, sym, min, List, [], length, take, drop, ltb, leb,
  arith, inl, inr, Bool-cases, leb→le, leb→lt, le→leb, ltb→lt, ltb→le, length-take, length-drop,
  take-min, take-nil, drop-nil, drop-min,
}
use tipy.Buffer.Slices.{ready_bytes, slice, dequeue}
use tipy.Buffer.Slices.Contents.{contents, InRing, ready_cases, length-contents}
use tipy.Buffer.Slices.Branches.{Dequeued, straight, before_end, around}

-- The lengths of the views, where `n` bytes are there.
module _ {size : ℕ} {ring : List ℕ} {r w : ℕ} (v : InRing size ring r w) (n : ℕ)
    (h : n ≤ ready_bytes size r w) where
  length-one :
      r + min n (ready_bytes size r w) ≤ size
      → length (slice r (r + min n (ready_bytes size r w)) ring) ≡ n
  length-one fits = omega (
    arith,
    length-take (r + min n (ready_bytes size r w) - r) (drop r ring),
    length-drop r ring,
    v.storage,
  )

  length-two :
      w < r
      → size < r + min n (ready_bytes size r w)
      → r + length (drop r ring) + length (take (min n (ready_bytes size r w) - (size - r)) ring)
        ≡ r + n
  length-two below over = omega (
    arith,
    length-take (min n (ready_bytes size r w) - (size - r)) ring,
    length-drop r ring,
    ready_cases size r w v.read_in v.write_in,
    v.storage,
    v.read_in,
  )

module _ {size : ℕ} {ring : List ℕ} {r w : ℕ} (v : InRing size ring r w) (n : ℕ) where
  abbrev count : ℕ
  count = min n (ready_bytes size r w)

  -- Asking for what is there is asking for `n`.
  clamped :
      (out : List (List ℕ) × ℕ) → Dequeued size ring r w count out → Dequeued size ring r w n out
  clamped out d = record {
    views = d.views;
    valid = d.valid;
    returned = d.returned ∙ rw (← length-contents v) (take-min n (contents ring r w));
    left = d.left ∙ rw (← length-contents v) (drop-min n (contents ring r w));
  }

  ready_straight : r < w → count ≤ w - r
  ready_straight h = omega (arith, ready_cases size r w v.read_in v.write_in)

  ready_around : w < r → count ≤ w + size - r
  ready_around h = omega (arith, ready_cases size r w v.read_in v.write_in)

  offset_unmoved : n ≤ ready_bytes size r w → r ≡ w → r ≡ (r + n) % size
  offset_unmoved h e =
      let none_asked : n ≡ 0 = omega (arith, ready_cases size r w v.read_in v.write_in) in
      rw none_asked (omega (arith, mod-eq_of_lt {n = r + 0} {m = size} (omega (arith, v.read_in))))

  no_contents : r ≡ w → contents ring r w ≡ []
  unfolding contents
  no_contents h =
      let none_left : w - r ≡ 0 = omega arith in rw (le→leb r w (omega arith), none_left) refl

  nothing : r ≡ w → Dequeued size ring r w n ([], r)
  nothing h = record {
    views = omega arith;
    valid = v;
    returned = rw (no_contents h) (sym (take-nil n));
    left = rw (no_contents h) (sym (drop-nil n));
  }

  -- `dequeue` returns the oldest bytes, at most `n`, in at most two views, and leaves the others.
  pub dequeue-Dequeued : Dequeued size ring r w n (dequeue size ring r w n)
  unfolding dequeue
  dequeue-Dequeued = elim (Bool-cases (ltb r w)) [
    | inl e ↦ rw e (clamped _ (straight v count (ready_straight (ltb→lt r w e)) (ltb→lt r w e)))
    | inr e ↦ rw e (elim (Bool-cases (ltb w r)) [
      | inl e2 ↦ rw e2 (elim (Bool-cases (leb (r + count) size)) [
        | inl f ↦ rw f (clamped _ (before_end v count (ltb→lt w r e2) (leb→le (r + count) size f)))
        | inr f ↦ rw f (
            clamped _ (
              around v count (ready_around (ltb→lt w r e2)) (ltb→lt w r e2)
                (leb→lt (r + count) size f)))
      ])
      | inr e2 ↦ rw e2 (nothing (omega (arith, ltb→le r w e, ltb→le w r e2)))
    ])
  ]

  -- A read of bytes that are there moves the read offset by their number.
  pub dequeue-offset : n ≤ ready_bytes size r w → (dequeue size ring r w n).1 ≡ (r + n) % size
  unfolding dequeue
  dequeue-offset h = elim (Bool-cases (ltb r w)) [
    | inl e ↦ rw e (
        ap (λ k. (r + k) % size)
          (length-one v n h
            (omega (arith, ready_straight (ltb→lt r w e), v.write_in, ltb→lt r w e))))
    | inr e ↦ rw e (elim (Bool-cases (ltb w r)) [
      | inl e2 ↦ rw e2 (elim (Bool-cases (leb (r + count) size)) [
        | inl f ↦ rw f (ap (λ k. (r + k) % size) (length-one v n h (leb→le (r + count) size f)))
        | inr f ↦
            rw f (ap (λ k. k % size) (length-two v n h (ltb→lt w r e2) (leb→lt (r + count) size f)))
      ])
      | inr e2 ↦ rw e2 (offset_unmoved h (omega (arith, ltb→le r w e, ltb→le w r e2)))
    ])
  ]
