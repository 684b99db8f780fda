-- ===== src/Common/Writes.antt =====
-- What an assignment to a slice changes and what it leaves alone.
use Prim.Native.Nat.{ℕ, zero, suc, ◌+◌, ◌≤◌}
use mathlib.Core.Path.{◌≡◌, refl, ap}
use mathlib.Core.List.{List, [], ◌∷◌, ◌++◌}
use native.Mathlib.Omega.{arith}
use tipy.Common.Lists.{length, take, drop, write}

module _ {ℓ} {A : Type ℓ} where
  pub length-write : (xs : List A) (i : ℕ) (ys : List A) → length (write xs i ys) ≡ length xs
  length-write [] zero [] = refl
  length-write (x ∷ xs) zero [] = refl
  length-write [] zero (y ∷ ys) = refl
  length-write (x ∷ xs) zero (y ∷ ys) = ap suc (length-write xs zero ys)
  length-write [] (suc i) ys = refl
  length-write (x ∷ xs) (suc i) ys = ap suc (length-write xs i ys)

  pub write-nil : (xs : List A) (i : ℕ) → write xs i [] ≡ xs
  write-nil [] zero = refl
  write-nil (x ∷ xs) zero = refl
  write-nil [] (suc i) = refl
  write-nil (x ∷ xs) (suc i) = ap (λ zs. x ∷ zs) (write-nil xs i)

  -- Before the slice nothing changes.
  pub take-write_before :
      (n : ℕ) (xs : List A) (i : ℕ) (ys : List A) → n ≤ i → take n (write xs i ys) ≡ take n xs
  take-write_before zero xs i ys h = refl
  take-write_before (suc n) xs zero ys h = absurd (omega arith)
  take-write_before (suc n) [] (suc i) ys h = refl
  take-write_before (suc n) (x ∷ xs) (suc i) ys h =
      ap (λ zs. x ∷ zs) (take-write_before n xs i ys (omega arith))

  -- Behind the slice nothing changes.
  pub drop-write_behind :
      (n : ℕ) (xs : List A) (i : ℕ) (ys : List A)
      → i + length ys ≤ n
      → drop n (write xs i ys) ≡ drop n xs
  drop-write_behind n [] zero [] h = refl
  drop-write_behind n (x ∷ xs) zero [] h = refl
  drop-write_behind zero xs zero (y ∷ ys) h = absurd (omega arith)
  drop-write_behind (suc n) [] zero (y ∷ ys) h = refl
  drop-write_behind (suc n) (x ∷ xs) zero (y ∷ ys) h = drop-write_behind n xs zero ys (omega arith)
  drop-write_behind zero xs (suc i) ys h = absurd (omega arith)
  drop-write_behind (suc n) [] (suc i) ys h = refl
  drop-write_behind (suc n) (x ∷ xs) (suc i) ys h = drop-write_behind n xs i ys (omega arith)

  write_empty : (k : ℕ) (ys : List A) → (let e : List A = [] in e) ≡ write [] k ys
  write_empty zero [] = refl
  write_empty zero (y ∷ ys) = refl
  write_empty (suc k) ys = refl

  -- A suffix that starts before the slice is written at the slice's place in it.
  pub drop-write :
      (n k : ℕ) (xs : List A) (i : ℕ) (ys : List A)
      → n + k ≡ i
      → drop n (write xs i ys) ≡ write (drop n xs) k ys
  drop-write zero k xs i ys h = ap (λ j. write xs j ys) (omega arith)
  drop-write (suc n) k xs zero ys h = absurd (omega arith)
  drop-write (suc n) k [] (suc i) ys h = write_empty k ys
  drop-write (suc n) k (x ∷ xs) (suc i) ys h = drop-write n k xs i ys (omega arith)

  -- Up to its end, the written slice shows what was written.
  pub take-write :
      (n : ℕ) (xs : List A) (i : ℕ) (ys : List A)
      → n ≡ i + length ys
      → n ≤ length xs
      → take n (write xs i ys) ≡ take i xs ++ ys
  take-write zero xs zero [] e h = refl
  take-write (suc n) xs zero [] e h = absurd (omega arith)
  take-write zero xs zero (y ∷ ys) e h = absurd (omega arith)
  take-write (suc n) [] zero (y ∷ ys) e h = absurd (omega arith)
  take-write (suc n) (x ∷ xs) zero (y ∷ ys) e h =
      ap (λ zs. y ∷ zs) (take-write n xs zero ys (omega arith) (omega arith))
  take-write zero xs (suc i) ys e h = absurd (omega arith)
  take-write (suc n) [] (suc i) ys e h = absurd (omega arith)
  take-write (suc n) (x ∷ xs) (suc i) ys e h =
      ap (λ zs. x ∷ zs) (take-write n xs i ys (omega arith) (omega arith))
