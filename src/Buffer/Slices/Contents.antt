-- ===== src/Buffer/Slices/Contents.antt =====
-- The bytes that a ring holds, oldest first, and how many they are.
use tipy.Common.{
  ◌%◌, ◌≤◌, ◌⊎◌, inl, inr, Bool-cases, leb→le, leb→lt, ℕ, ◌+◌, ◌-◌, ◌<◌, ◌≡◌, List, ◌++◌, length,
  take, drop, leb, if◌then◌else◌, arith, length-append, length-take, length-drop,
}
use native.Mathlib.Nat.{mod-eq_of_lt, mod-eq-sub-mod}
use tipy.Buffer.Slices.{free_bytes, ready_bytes}

-- From `r` up to `w`, round the end of the ring.
unfoldable pub contents : List ℕ → ℕ → ℕ → List ℕ
contents ring r w = if leb r w then take (w - r) (drop r ring) else drop r ring ++ take w ring

-- The offsets lie inside a ring of `size` bytes.
pub record InRing (size : ℕ) (ring : List ℕ) (r w : ℕ) : Type 0 where
  pub storage : length ring ≡ size
  pub read_in : r < size
  pub write_in : w < size

-- A remainder of a number below twice the modulus.
pub mod-lt_two : (n m : ℕ) → n < m + m → ((n < m) × (n % m ≡ n)) ⊎ ((m ≤ n) × (n % m ≡ n - m))
mod-lt_two n m h = grind (arith, mod-eq_of_lt, mod-eq-sub-mod)

pub ready_cases :
    (size r w : ℕ)
    → r < size
    → w < size
    → ((r ≤ w) × (ready_bytes size r w ≡ w - r)) ⊎ ((w < r) × (ready_bytes size r w ≡ w + size - r))
unfolding ready_bytes
ready_cases size r w hr hw = grind (arith, mod-lt_two (w + (size - r)) size)

pub free_cases :
    (size r w : ℕ)
    → r < size
    → w < size
    → ((r ≤ w) × (free_bytes size r w ≡ size - 1 - (w - r)))
      ⊎ ((w < r) × (free_bytes size r w ≡ r - w - 1))
unfolding free_bytes
free_cases size r w hr hw = grind (arith, mod-lt_two (r + (size - (w + 1))) size)

module _ {size : ℕ} {ring : List ℕ} {r w : ℕ} (v : InRing size ring r w) where
  pub length-contents : length (contents ring r w) ≡ ready_bytes size r w
  unfolding contents
  length-contents = elim (Bool-cases (leb r w)) [
    | inl e ↦ rw e (
        omega (
          arith,
          leb→le r w e,
          ready_cases size r w v.read_in v.write_in,
          length-take (w - r) (drop r ring),
          length-drop r ring,
          v.storage,
        ))
    | inr e ↦ rw e (
        omega (
          arith,
          leb→lt r w e,
          ready_cases size r w v.read_in v.write_in,
          length-append (drop r ring) (take w ring),
          length-drop r ring,
          length-take w ring,
          v.storage,
        ))
  ]

  -- One byte of the ring stays unused.
  pub free-add-ready : free_bytes size r w + ready_bytes size r w + 1 ≡ size
  free-add-ready = omega (
    arith,
    ready_cases size r w v.read_in v.write_in,
    free_cases size r w v.read_in v.write_in,
    v.storage,
  )
