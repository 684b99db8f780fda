-- ===== src/Buffer/Slices/Enqueue.antt =====
-- What `enqueue` of tipy/lib/buffer.py appends to the bytes of a ring.
use native.Mathlib.Nat.{mod-eq_of_lt, add-zero}
use tipy.Common.{
  ℕ, ◌+◌, ◌-◌, ◌%◌, ◌≤◌, ◌<◌, ◌≡◌, refl, ◌∙◌, ap, sym, min, List, ◌++◌, length, take, drop, write,
  leb, ◌==◌, arith, inl, inr, Bool-cases, leb→le, leb→lt, le→leb, lt→leb, length-take, length-drop,
  append_assoc, append-nil, take-add, take_all,
}
use tipy.Common.Writes.{length-write, write-nil, drop-write_behind, drop-write, take-write}
use tipy.Buffer.Slices.{free_bytes, slice, write_wrapped, stored, enqueue}
use tipy.Buffer.Slices.Contents.{contents, InRing, free_cases, mod-lt_two}

-- A write up to the end of a list replaces its tail.
write_end :
    (xs : List ℕ) (i : ℕ) (ys : List ℕ)
    → i + length ys ≡ length xs
    → write xs i ys ≡ take i xs ++ ys
write_end xs i ys e =
    sym (take_all (length xs) (write xs i ys) (omega (arith, length-write xs i ys)))
    ∙ take-write (length xs) xs i ys (omega arith) (omega arith)

-- The three ways in which a write of `n` bytes lies in the ring.
module _ {size : ℕ} {ring : List ℕ} {r w : ℕ} (v : InRing size ring r w) where
  -- behind the readable bytes, with the read offset before them
  contents_ahead :
      (xs : List ℕ)
      → r ≤ w
      → w + length xs ≤ size - 1
      → contents (write ring w xs) r (w + length xs) ≡ contents ring r w ++ xs
  unfolding contents
  contents_ahead xs h fits =
      rw
        (
          le→leb r w h,
          le→leb r (w + length xs) (omega arith),
          drop-write r (w - r) ring w xs (omega arith),
        )
        (take-write (w + length xs - r) (drop r ring) (w - r) xs (omega arith)
          (omega (arith, length-drop r ring, v.storage, v.read_in)))

  -- in the gap below the read offset
  contents_gap :
      (xs : List ℕ)
      → w + length xs < r
      → contents (write ring w xs) r (w + length xs) ≡ contents ring r w ++ xs
  unfolding contents
  contents_gap xs h =
      rw
        (
          lt→leb r w (omega arith),
          lt→leb r (w + length xs) h,
          drop-write_behind r ring w xs (omega arith),
          take-write (w + length xs) ring w xs (omega arith) (omega (arith, v.storage, v.read_in)),
        )
        (simp append_assoc)

  -- round the end of the ring
  contents_round :
      (xs ys : List ℕ)
      → r ≤ w
      → w + length xs ≡ size
      → length ys < r
      → contents (write (write ring w xs) 0 ys) r (length ys) ≡ contents ring r w ++ (xs ++ ys)
  unfolding contents
  contents_round xs ys h full below =
      rw
        (
          le→leb r w h,
          lt→leb r (length ys) below,
          drop-write_behind r (write ring w xs) 0 ys (omega arith),
          drop-write r (w - r) ring w xs (omega arith),
          write_end (drop r ring) (w - r) xs (omega (arith, length-drop r ring, v.storage)),
          take-write (length ys) (write ring w xs) 0 ys (omega arith)
              (omega (arith, length-write ring w xs, v.storage, v.read_in)),
        )
        (simp append_assoc)

-- `count` bytes of `buffer` that fit behind the write offset, seen from a read offset `r`.
module _ {size : ℕ} {ring : List ℕ} {r w : ℕ} (v : InRing size ring r w) (buffer : List ℕ)
    (count : ℕ) (few : count ≤ length buffer) (fits_below : count ≤ free_bytes size r w) where
  length-stored : (n : ℕ) → n ≤ count → length (take n buffer) ≡ n
  length-stored n h = omega (arith, length-take n buffer)

  appended_contiguous :
      w + count ≤ size - 1
      → contents (write ring w (take count buffer)) r (w + count)
        ≡ contents ring r w ++ take count buffer
  appended_contiguous fits =
      let len = length-stored count (omega arith) in
      elim (free_cases size r w v.read_in v.write_in) [
        | inl (h, e) ↦ rw len at (contents_ahead v (take count buffer) h (omega (arith, len)))
        | inr (h, e) ↦ rw len at (contents_gap v (take count buffer) (omega (arith, len)))
      ]

  -- A write that reaches the end of the ring starts behind the read offset.
  round_below : size - 1 < w + count → (r ≤ w) × (w + count - size < r)
  round_below over = omega (arith, free_cases size r w v.read_in v.write_in, v.write_in)

  length-tail : size - 1 < w + count → length (slice (size - w) count buffer) ≡ w + count - size
  length-tail over = omega (
    arith,
    length-take (count - (size - w)) (drop (size - w) buffer),
    length-drop (size - w) buffer,
    v.write_in,
  )

  appended_wrapped :
      size - 1 < w + count
      → contents (write_wrapped size ring w buffer count) r (w + count - size)
        ≡ contents ring r w ++ take count buffer
  appended_wrapped over =
      let head : List ℕ = take (size - w) buffer in
      let tail : List ℕ = slice (size - w) count buffer in
      let len = length-tail over in
      let joined : take count buffer ≡ head ++ tail =
        ap (λ k. take k buffer) (omega (arith, round_below over, v.write_in))
        ∙ take-add (size - w) (count - (size - w)) buffer in
      rw (joined, ← len)
        (contents_round v head tail (round_below over).0
          (omega (arith, length-stored (size - w) (omega (arith, v.write_in)), v.write_in))
          (omega (arith, len, round_below over)))

  offset_contiguous : w + count ≤ size - 1 → (w + count) % size ≡ w + count
  offset_contiguous fits = mod-eq_of_lt {n = w + count} {m = size} (omega (arith, v.write_in))

  offset_wrapped : size - 1 < w + count → (w + count) % size ≡ w + count - size
  offset_wrapped over =
      omega (arith, mod-lt_two (w + count) size, round_below over, v.write_in, v.read_in)

  -- The ring that `enqueue` leaves, seen from `r`: the old bytes and the new ones.
  pub stored-contents :
      contents (stored size ring w buffer count) r ((w + count) % size)
      ≡ contents ring r w ++ take count buffer
  unfolding stored
  stored-contents = elim (Bool-cases (leb (w + count) (size - 1))) [
    | inl e ↦
        let fits = leb→le (w + count) (size - 1) e in
        rw (e, offset_contiguous fits) (appended_contiguous fits)
    | inr e ↦
        let over = leb→lt (w + count) (size - 1) e in
        rw (e, offset_wrapped over) (appended_wrapped over)
  ]

pub length-stored_ring :
    (size : ℕ) (ring : List ℕ) (w : ℕ) (buffer : List ℕ) (n : ℕ)
    → length (stored size ring w buffer n) ≡ length ring
unfolding stored
length-stored_ring size ring w buffer n = elim (Bool-cases (leb (w + n) (size - 1))) [
  | inl e ↦ rw e (length-write ring w (take n buffer))
  | inr e ↦ rw e (
      length-write (write ring w (take (size - w) buffer)) 0 (slice (size - w) n buffer)
      ∙ length-write ring w (take (size - w) buffer))
]

-- The bytes taken, the ring and the write offset after an `enqueue` of `buffer`.
pub record Enqueued (size : ℕ) (ring : List ℕ) (r w : ℕ) (buffer : List ℕ) (out : ℕ × List ℕ × ℕ)
    : Type 0 where
  pub taken : out.0 ≡ min (length buffer) (free_bytes size r w)
  pub valid : InRing size out.1 r out.2
  pub appended : contents out.1 r out.2 ≡ contents ring r w ++ take out.0 buffer

module _ {size : ℕ} {ring : List ℕ} {r w : ℕ} (v : InRing size ring r w) (buffer : List ℕ) where
  abbrev taken_bytes : ℕ
  taken_bytes = min (length buffer) (free_bytes size r w)

  -- `enqueue` takes as many bytes as fit and appends exactly them, on every branch.
  pub enqueue-Enqueued : Enqueued size ring r w buffer (enqueue size ring r w buffer)
  unfolding enqueue
  enqueue-Enqueued = elim (Bool-cases (free_bytes size r w == 0)) [
    | inl full ↦ rw full (record {
      taken = ground arith;
      valid = v;
      appended = sym (append-nil (contents ring r w));
    })
    | inr room ↦ rw room (record {
      taken = refl;
      valid = record {
        storage = length-stored_ring size ring w buffer taken_bytes ∙ v.storage;
        read_in = v.read_in;
        write_in = omega (arith, v.read_in);
      };
      appended = stored-contents v buffer taken_bytes (omega arith) (omega arith);
    })
  ]

  -- When nothing fits, storing no byte is what the early return does.
  pub enqueue_lem :
      enqueue size ring r w buffer
      ≡ (taken_bytes, stored size ring w buffer taken_bytes, (w + taken_bytes) % size)
  unfolding enqueue stored
  enqueue_lem = elim (Bool-cases (free_bytes size r w == 0)) [
    | inl full ↦
        let none_fit : taken_bytes ≡ 0 = ground arith in
        rw
          (
            full,
            none_fit,
            le→leb (w + 0) (size - 1) (omega (arith, v.write_in)),
            write-nil ring w,
            mod-eq_of_lt {n = w + 0} {m = size} (omega (arith, v.write_in)),
          )
          (λ i. (0, ring, sym (add-zero w) i))
    | inr room ↦ rw room refl
  ]
