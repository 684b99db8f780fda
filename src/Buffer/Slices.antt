-- ===== src/Buffer/Slices.antt =====
-- The body that `RingBuffer` and `RRingBuffer` share in tipy/lib/buffer.py: `enqueue` and
-- `dequeue` over a ring of `size` bytes with a read offset `r` and a write offset `w`.
-- A byte is any number: bytes are only moved. `memoryview` slices are copied, where Python aliases.
pub mod Contents
pub mod Enqueue
pub mod Branches
pub mod Dequeue
use tipy.Common.{
  ℕ, ◌+◌, ◌-◌, ◌%◌, min, List, [], ◌∷◌, ◌++◌, length, take, drop, write, ltb, leb, ◌==◌,
  if◌then◌else◌,
}

-- (a - b) % size, for `a` below `size` and `b` up to it
abbrev pub offset_diff : ℕ → ℕ → ℕ → ℕ
offset_diff size a b = (a + (size - b)) % size

-- (r - w - 1) % size
unfoldable pub free_bytes : ℕ → ℕ → ℕ → ℕ
free_bytes size r w = offset_diff size r (w + 1)

-- (w - r) % size
unfoldable pub ready_bytes : ℕ → ℕ → ℕ → ℕ
ready_bytes size r w = offset_diff size w r

-- xs[a:b]
abbrev pub slice : ℕ → ℕ → List ℕ → List ℕ
slice a b xs = take (b - a) (drop a xs)

-- The two assignments of the wrapped branch: `ring[w:] = buffer[:s - w]`, then
-- `ring[:n - (s - w)] = buffer[s - w:n]`.
abbrev pub write_wrapped : ℕ → List ℕ → ℕ → List ℕ → ℕ → List ℕ
write_wrapped size ring w buffer n =
    write (write ring w (take (size - w) buffer)) 0 (slice (size - w) n buffer)

-- the ring after `n` bytes of `buffer` went in, contiguous or wrapped
unfoldable pub stored : ℕ → List ℕ → ℕ → List ℕ → ℕ → List ℕ
stored size ring w buffer n =
    if leb (w + n) (size - 1)
    then write ring w (take n buffer)
    else write_wrapped size ring w buffer n

-- `enqueue`: the bytes taken, the ring, and the write offset after it.
unfoldable pub enqueue : ℕ → List ℕ → ℕ → ℕ → List ℕ → ℕ × List ℕ × ℕ
enqueue size ring r w buffer =
    let free = free_bytes size r w in
    let n = min (length buffer) free in
    if free == 0 then (0, ring, w) else (n, stored size ring w buffer n, (w + n) % size)

-- `dequeue`: the views returned, and the read offset after it.
unfoldable pub dequeue : ℕ → List ℕ → ℕ → ℕ → ℕ → List (List ℕ) × ℕ
dequeue size ring r w n =
    let m = min n (ready_bytes size r w) in
    let one = slice r (r + m) ring in
    let first = drop r ring in
    let second = take (m - (size - r)) ring in
    if ltb r w
    then (one ∷ [], (r + length one) % size)
    else if ltb w r
    then (if leb (r + m) size
        then (one ∷ [], (r + length one) % size)
        else (first ∷ second ∷ [], (r + length first + length second) % size))
    else ([], r)
