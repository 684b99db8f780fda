-- ===== src/Buffer/Slices/Branches.antt =====
-- The three branches of `dequeue` of tipy/lib/buffer.py, by what each takes from the ring.
use native.Mathlib.Nat.{mod-eq_of_lt}
use tipy.Common.{
  ℕ, ◌+◌, ◌-◌, ◌%◌, ◌≤◌, ◌<◌, ◌≡◌, refl, ◌∙◌, ap, sym, List, [], ◌∷◌, ◌++◌, length, take, drop,
  arith, inl, inr, le→leb, lt→leb, length-take, length-drop, append-nil, drop-take, drop-drop,
  drop-append, take-append, take-append_length, drop-append_length, take-take, concat, drop_all,
}
use tipy.Buffer.Slices.{slice}
use tipy.Buffer.Slices.Contents.{contents, InRing, mod-lt_two}

-- The views returned and the read offset after a `dequeue` of up to `n` bytes.
pub record Dequeued (size : ℕ) (ring : List ℕ) (r w n : ℕ) (out : List (List ℕ) × ℕ) : Type 0 where
  pub views : length out.0 ≤ 2
  pub valid : InRing size ring out.1 w
  pub returned : concat out.0 ≡ take n (contents ring r w)
  pub left : contents ring out.1 w ≡ drop n (contents ring r w)

-- A `dequeue` of `m` bytes, where so many are there.
module _ {size : ℕ} {ring : List ℕ} {r w : ℕ} (v : InRing size ring r w) (m : ℕ) where
  pub slice_lem : slice r (r + m) ring ≡ take m (drop r ring)
  slice_lem = ap (λ k. take k (drop r ring)) (omega arith)

  pub length-slice : r + m ≤ size → length (take m (drop r ring)) ≡ m
  length-slice fits = omega (arith, length-take m (drop r ring), length-drop r ring, v.storage)

  -- the readable bytes lie in one piece
  pub straight :
      m ≤ w - r
      → r < w
      → Dequeued size ring r w m
          (slice r (r + m) ring ∷ [], (r + length (slice r (r + m) ring)) % size)
  unfolding contents
  straight some_bytes h =
      rw
        (
          slice_lem,
          length-slice (omega (arith, v.write_in)),
          mod-eq_of_lt {n = r + m} {m = size} (omega (arith, v.write_in)),
        )
        (record {
          views = omega arith;
          valid = record {
            storage = v.storage;
            read_in = omega (arith, v.write_in);
            write_in = v.write_in;
          };
          returned =
              rw (append-nil, le→leb r w (omega arith))
                (sym (take-take m (w - r) (drop r ring) some_bytes));
          left =
              rw
                (
                  le→leb r w (omega arith),
                  le→leb (r + m) w (omega arith),
                  drop-take m (w - r) (drop r ring),
                  drop-drop m r ring,
                )
                (ap (λ k. take k (drop (r + m) ring)) (omega arith));
        })

  -- they wrap, but those asked for do not
  returned_before_end : w < r → r + m ≤ size → take m (drop r ring) ≡ take m (contents ring r w)
  unfolding contents
  returned_before_end h fits = rw (lt→leb r w h) (
      sym
        (take-append m (drop r ring) (take w ring) (omega (arith, length-drop r ring, v.storage))))

  left_before_end : w < r → r + m < size → contents ring (r + m) w ≡ drop m (contents ring r w)
  unfolding contents
  left_before_end h fits =
      rw
        (
          lt→leb r w h,
          lt→leb (r + m) w (omega arith),
          drop-append m (drop r ring) (take w ring) (omega (arith, length-drop r ring, v.storage)),
          drop-drop m r ring,
        )
        refl

  left_at_end : w < r → r + m ≡ size → contents ring 0 w ≡ drop m (contents ring r w)
  unfolding contents
  left_at_end h full =
      rw
        (
          lt→leb r w h,
          le→leb 0 w (omega arith),
          drop-append m (drop r ring) (take w ring) (omega (arith, length-drop r ring, v.storage)),
          drop_all m (drop r ring) (omega (arith, length-drop r ring, v.storage)),
        )
        (ap (λ k. take k ring) (omega arith))

  pub before_end :
      w < r
      → r + m ≤ size
      → Dequeued size ring r w m
          (slice r (r + m) ring ∷ [], (r + length (slice r (r + m) ring)) % size)
  before_end h fits =
      rw (slice_lem, length-slice fits)
        (elim (mod-lt_two (r + m) size (omega (arith, v.read_in))) [
          | inl (small, e) ↦ rw e (record {
            views = omega arith;
            valid = record { storage = v.storage; read_in = small; write_in = v.write_in };
            returned = append-nil _ ∙ returned_before_end h fits;
            left = left_before_end h small;
          })
          | inr (large, e) ↦
              let at_end : r + m - size ≡ 0 = omega arith in
              rw (e, at_end)
                (record {
                  views = omega arith;
                  valid = record {
                    storage = v.storage;
                    read_in = omega (arith, v.read_in);
                    write_in = v.write_in;
                  };
                  returned = append-nil _ ∙ returned_before_end h fits;
                  left = left_at_end h (omega arith);
                })
        ])

  -- the bytes taken from the start of the ring
  abbrev second : ℕ
  second = m - (size - r)

  length-second : m ≤ w + size - r → w < r → length (take second ring) ≡ second
  length-second some_bytes h = omega (arith, length-take second ring, v.storage, v.read_in)

  offset_around :
      m ≤ w + size - r
      → w < r
      → size < r + m
      → (r + length (drop r ring) + length (take second ring)) % size ≡ second
  offset_around some_bytes h over = omega (
    arith,
    mod-lt_two (r + length (drop r ring) + length (take second ring)) size,
    length-second some_bytes h,
    length-drop r ring,
    v.storage,
    v.read_in,
  )

  returned_around :
      m ≤ w + size - r
      → w < r
      → size < r + m
      → drop r ring ++ take second ring ≡ take m (contents ring r w)
  unfolding contents
  returned_around some_bytes h over =
      let len : length (drop r ring) + second ≡ m = omega (arith, length-drop r ring, v.storage) in
      rw
        (
          lt→leb r w h,
          ← take-take second w ring (omega arith),
          ← take-append_length (drop r ring) (take w ring) second,
          len,
        )
        refl

  left_around :
      m ≤ w + size - r → w < r → size < r + m → contents ring second w ≡ drop m (contents ring r w)
  unfolding contents
  left_around some_bytes h over =
      let len : length (drop r ring) + second ≡ m = omega (arith, length-drop r ring, v.storage) in
      rw
        (
          lt→leb r w h,
          le→leb second w (omega arith),
          ← drop-take second w ring,
          ← drop-append_length (drop r ring) (take w ring) second,
          len,
        )
        refl

  pub around :
      m ≤ w + size - r
      → w < r
      → size < r + m
      → Dequeued size ring r w m (
        drop r ring ∷ take second ring ∷ [],
        (r + length (drop r ring) + length (take second ring)) % size,
      )
  around some_bytes h over = rw (offset_around some_bytes h over) (record {
    views = omega arith;
    valid = record {
      storage = v.storage;
      read_in = omega (arith, v.read_in);
      write_in = v.write_in;
    };
    returned =
        ap (λ ys. drop r ring ++ ys) (append-nil (take second ring))
        ∙ returned_around some_bytes h over;
    left = left_around some_bytes h over;
  })
