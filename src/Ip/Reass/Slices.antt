-- ===== src/Ip/Reass/Slices.antt =====
-- A buffer that is filled, slice by slice, with the bytes of a datagram.
use tipy.Common.{
  ℕ, zero, suc, ◌+◌, ◌≤◌, ◌<◌, ◌≡◌, refl, ap, ◌∙◌, ◌⊎◌, inl, inr, Option, some, none, List, [], ◌∷◌,
  length, take, drop, get_elem?, write, arith,
}
use tipy.Common.Writes.{write-nil}

module _ {ℓ} {A : Type ℓ} where
  -- The buffer holds the datagram's byte at `k`.
  abbrev pub Agree : List A → List A → ℕ → Type ℓ
  Agree buffer datagram k = get_elem? buffer k ≡ get_elem? datagram k

  -- A slice of the datagram written at its place: its own bytes agree, and those that did.
  pub write-Agree :
      (i n : ℕ) (buffer datagram : List A) (k : ℕ)
      → length buffer ≡ length datagram
      → i + n ≤ length datagram
      → Agree buffer datagram k ⊎ ((i ≤ k) × (k < i + n))
      → Agree (write buffer i (take n (drop i datagram))) datagram k
  write-Agree zero zero buffer datagram k e h (inl a) =
      ap (λ b. get_elem? b k) (write-nil buffer 0) ∙ a
  write-Agree zero zero buffer datagram k e h (inr p) = absurd (omega (arith, p.1))
  write-Agree zero (suc n) [] [] k e h p = absurd (omega arith)
  write-Agree zero (suc n) [] (y ∷ ys) k e h p = absurd (omega arith)
  write-Agree zero (suc n) (x ∷ xs) [] k e h p = absurd (omega arith)
  write-Agree zero (suc n) (x ∷ xs) (y ∷ ys) zero e h p = refl
  write-Agree zero (suc n) (x ∷ xs) (y ∷ ys) (suc k) e h (inl a) =
      write-Agree zero n xs ys k (omega arith) (omega arith) (inl a)
  write-Agree zero (suc n) (x ∷ xs) (y ∷ ys) (suc k) e h (inr p) =
      write-Agree zero n xs ys k (omega arith) (omega arith) (inr (omega arith, omega (arith, p.1)))
  write-Agree (suc i) n [] [] k e h p = refl
  write-Agree (suc i) n [] (y ∷ ys) k e h p = absurd (omega arith)
  write-Agree (suc i) n (x ∷ xs) [] k e h p = absurd (omega arith)
  write-Agree (suc i) n (x ∷ xs) (y ∷ ys) zero e h (inl a) = a
  write-Agree (suc i) n (x ∷ xs) (y ∷ ys) zero e h (inr p) = absurd (omega (arith, p.0))
  write-Agree (suc i) n (x ∷ xs) (y ∷ ys) (suc k) e h (inl a) =
      write-Agree i n xs ys k (omega arith) (omega arith) (inl a)
  write-Agree (suc i) n (x ∷ xs) (y ∷ ys) (suc k) e h (inr p) =
      write-Agree i n xs ys k (omega arith) (omega arith)
        (inr (omega (arith, p.0), omega (arith, p.1)))

  -- A buffer of the datagram's length that agrees everywhere is the datagram.
  pub Agree-everywhere :
      (buffer datagram : List A)
      → length buffer ≡ length datagram
      → ((k : ℕ) → k < length datagram → Agree buffer datagram k)
      → buffer ≡ datagram
  Agree-everywhere [] [] e a = refl
  Agree-everywhere [] (y ∷ ys) e a = absurd (omega arith)
  Agree-everywhere (x ∷ xs) [] e a = absurd (omega arith)
  Agree-everywhere (x ∷ xs) (y ∷ ys) e a =
      ap (λ z. z ∷ xs) (ap (known x) (a 0 (omega arith)))
      ∙ ap (λ zs. y ∷ zs) (Agree-everywhere xs ys (omega arith) (λ k h. a (suc k) (omega arith)))
    where
      known : A → Option A → A
      known d none = d
      known d (some z) = z
