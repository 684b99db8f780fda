-- ===== src/Wire/Csum/Zeros.antt =====
-- The checksum of tipy/lib/csum.py over a frame that ends with unused bytes, as the frames of the
-- sending ring do.
use tipy.Common.{ℕ, zero, suc, ◌+◌, ◌≡◌, refl, ap, [], ◌∷◌, ◌++◌, replicate, arith}
use tipy.Wire.Struct.{Bytes}
use tipy.Wire.Csum.{sum_words, little_word, fold_carries, swap_bytes, complement, inet_csum_little}
use tipy.Wire.Csum.Words.{little_sum}
use tipy.Wire.Csum.Rfc.{IsSum, IsSum-unique, folded-IsSum}

-- The checksum depends on the bytes only through their sum.
pub inet_csum_little-cong :
    (xs ys : Bytes) (init : ℕ)
    → little_sum xs ≡ little_sum ys
    → inet_csum_little xs init ≡ inet_csum_little ys init
unfolding inet_csum_little
inet_csum_little-cong xs ys init e =
    ap (λ s. complement (swap_bytes s))
      (IsSum-unique _ _ (init + little_sum ys)
        (let p : IsSum (fold_carries (sum_words little_word xs init)) (init + little_sum ys) =
            rw (← e) (folded-IsSum xs init) in
          p)
        (folded-IsSum ys init))

little_sum_zeros : (n : ℕ) → little_sum (replicate n 0) ≡ 0
unfolding little_sum
little_sum_zeros zero = refl
little_sum_zeros (suc zero) = refl
little_sum_zeros (suc (suc n)) = omega (arith, little_sum_zeros n)

little_sum-zeros : (xs : Bytes) (n : ℕ) → little_sum (xs ++ replicate n 0) ≡ little_sum xs
unfolding little_sum
little_sum-zeros [] n = little_sum_zeros n
little_sum-zeros (x ∷ []) zero = refl
little_sum-zeros (x ∷ []) (suc n) = omega (arith, little_sum_zeros n)
little_sum-zeros (x ∷ y ∷ xs) n = omega (arith, little_sum-zeros xs n)

pub inet_csum_little-zeros :
    (xs : Bytes) (n init : ℕ)
    → inet_csum_little (xs ++ replicate n 0) init ≡ inet_csum_little xs init
inet_csum_little-zeros xs n init =
    inet_csum_little-cong (xs ++ replicate n 0) xs init (little_sum-zeros xs n)
