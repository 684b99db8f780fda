-- ===== src/Common/Places.antt =====
-- Writing to and reading from the middle of a sequence that is given in parts.
use Prim.Native.Nat.{ℕ, suc, ◌+◌, ◌≤◌}
use mathlib.Core.Path.{◌≡◌, refl, ap, ◌∙◌}
use mathlib.Core.List.{List, [], ◌∷◌, ◌++◌}
use native.Mathlib.Omega.{arith}
use tipy.Common.Lists.{length, drop, write, get_elem?}

module _ {ℓ} {A : Type ℓ} where
  pub write_front :
      (ys zs : List A) → length ys ≤ length zs → write zs 0 ys ≡ ys ++ drop (length ys) zs
  write_front [] [] h = refl
  write_front [] (z ∷ zs) h = refl
  write_front (y ∷ ys) [] h = absurd (omega arith)
  write_front (y ∷ ys) (z ∷ zs) h = ap (λ xs. y ∷ xs) (write_front ys zs (omega arith))

  pub write-append_length :
      (xs ys zs : List A)
      → length ys ≤ length zs
      → write (xs ++ zs) (length xs) ys ≡ xs ++ (ys ++ drop (length ys) zs)
  write-append_length [] ys zs h = write_front ys zs h
  write-append_length (x ∷ xs) ys zs h = ap (λ ws. x ∷ ws) (write-append_length xs ys zs h)

  pub get_elem?-append_length :
      (xs ys : List A) (i : ℕ) → get_elem? (xs ++ ys) (length xs + i) ≡ get_elem? ys i
  get_elem?-append_length [] ys i = ap (get_elem? ys) (omega arith)
  get_elem?-append_length (x ∷ xs) ys i =
      ap (get_elem? (x ∷ (xs ++ ys))) (suc_sum (length xs) i) ∙ get_elem?-append_length xs ys i
    where
      suc_sum : (n i : ℕ) → suc n + i ≡ suc (n + i)
      suc_sum n i = omega arith
