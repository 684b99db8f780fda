-- ===== src/Wire/Csum/Words.antt =====
-- Sums of words modulo 65535, where a carry out of 16 bits comes back in as 1.
use tipy.Common.{
  ℕ, zero, suc, ◌+◌, ◌-◌, ◌*◌, ◌/◌, ◌%◌, ◌≤◌, ◌<◌, ◌≡◌, refl, sym, ap, ◌∙◌, [], ◌∷◌, ◌++◌, length,
  take, drop, length-drop, take-take, drop-take, drop-drop, drop_all, Bool-cases, ltb→lt, ltb→le,
  min, inl, inr, get_elem?, write, some, ltb, if◌then◌else◌, arith,
}
use mathlib.Core.Path.{subst}
use tipy.Wire.Struct.{Bytes}
use tipy.Wire.Csum.{little_word, sum_cast, last_byte, sum_words}

-- The sum of the 16-bit words, least significant byte first; an odd last byte is a word.
unfoldable pub little_sum : Bytes → ℕ
little_sum [] = 0
little_sum (b ∷ []) = b
little_sum (b ∷ c ∷ bs) = b + 256 * c + little_sum bs

-- The sum of the 16-bit words in network order, an odd last byte padded with a zero byte.
unfoldable pub network_sum : Bytes → ℕ
network_sum [] = 0
network_sum (b ∷ []) = 256 * b
network_sum (b ∷ c ∷ bs) = 256 * b + c + network_sum bs

-- Two sums with the same remainder, both zero or both not, fold to the same 16 bits.
unfoldable pub SameFold : ℕ → ℕ → Type 0
SameFold a b = (a % 65535 ≡ b % 65535) × (min 1 a ≡ min 1 b)

SameFold-add : (a b c d : ℕ) → SameFold a b → SameFold c d → SameFold (a + c) (b + d)
unfolding SameFold
SameFold-add a b c d p q = (omega (arith, p.0, q.0), omega (arith, p.1, q.1))

little_word-little_sum : (xs : Bytes) → SameFold (little_word xs) (little_sum xs)
unfolding little_word little_sum SameFold
little_word-little_sum [] = (refl, refl)
little_word-little_sum (b ∷ []) = (omega arith, omega arith)
little_word-little_sum (b ∷ c ∷ bs) =
    let (p, q) = little_word-little_sum bs in (omega (arith, p), omega (arith, q))

-- Splitting behind an even number of bytes splits the sum.
pub little_sum-split :
    (n : ℕ) (xs : Bytes)
    → n % 2 ≡ 0
    → little_sum xs ≡ little_sum (take n xs) + little_sum (drop n xs)
unfolding little_sum
little_sum-split zero xs e = omega arith
little_sum-split (suc zero) xs e = absurd (omega arith)
little_sum-split (suc (suc n)) [] e = refl
little_sum-split (suc (suc n)) (b ∷ []) e = omega arith
little_sum-split (suc (suc n)) (b ∷ c ∷ bs) e = omega (arith, little_sum-split n bs (omega arith))

none_summed : SameFold 0 (little_sum [])
unfolding SameFold little_sum
none_summed = (refl, refl)

little_sum-split_add :
    (w m : ℕ) (xs : Bytes)
    → w % 2 ≡ 0
    → little_sum (take (w + m) xs) ≡ little_sum (take w xs) + little_sum (take m (drop w xs))
little_sum-split_add w m xs e =
    little_sum-split w (take (w + m) xs) e
    ∙ ap (λ ys. little_sum ys + little_sum (drop w (take (w + m) xs)))
        (take-take w (w + m) xs (omega arith))
    ∙ ap (λ ys. little_sum (take w xs) + little_sum ys)
        (drop-take w (w + m) xs ∙ ap (λ k. take k (drop w xs)) (omega arith))

suc_mul : (n w : ℕ) → suc n * w ≡ w + n * w
suc_mul n w = omega arith

pub sum_cast-little_sum :
    (w n : ℕ) (xs : Bytes)
    → w % 2 ≡ 0
    → SameFold (sum_cast little_word w n xs) (little_sum (take (n * w) xs))
unfolding sum_cast
sum_cast-little_sum w zero xs e =
    subst (λ k. SameFold 0 (little_sum (take k xs))) (zero_mul w) none_summed
  where
    zero_mul : (w : ℕ) → 0 ≡ 0 * w
    zero_mul w = omega arith
sum_cast-little_sum w (suc n) xs e =
    subst (SameFold (sum_cast little_word w (suc n) xs))
      (sym (little_sum-split_add w (n * w) xs e)
        ∙ ap (λ k. little_sum (take k xs)) (sym (suc_mul n w)))
      (SameFold-add _ _ _ _ (little_word-little_sum (take w xs))
        (sum_cast-little_sum w n (drop w xs) e))

last_byte-little_sum : (xs : Bytes) → length xs ≡ 1 → last_byte xs ≡ little_sum xs
unfolding last_byte little_sum
last_byte-little_sum [] e = absurd (omega arith)
last_byte-little_sum (b ∷ []) e = refl
last_byte-little_sum (b ∷ c ∷ bs) e = absurd (omega arith)

last_byte-drop : (n : ℕ) (xs : Bytes) → n < length xs → last_byte (drop n xs) ≡ last_byte xs
unfolding last_byte
last_byte-drop zero xs h = refl
last_byte-drop (suc n) [] h = absurd (omega arith)
last_byte-drop (suc n) (b ∷ []) h = absurd (omega arith)
last_byte-drop (suc n) (b ∷ c ∷ bs) h = last_byte-drop n (c ∷ bs) (omega arith)

-- What is left behind the words is the last byte, or nothing.
plus_none : (s : ℕ) → s + little_sum [] ≡ s
unfolding little_sum
plus_none s = omega arith

tail_sum :
    (k : ℕ) (xs : Bytes) (s : ℕ)
    → length xs ≤ suc k
    → s + little_sum (drop k xs) ≡ (if ltb k (length xs) then s + last_byte xs else s)
unfolding little_sum
tail_sum k xs s h = elim (Bool-cases (ltb k (length xs))) [
  | inl e ↦
      ap (λ x. s + x)
        (sym (
            last_byte-little_sum (drop k xs)
              (omega (arith, length-drop k xs, ltb→lt k (length xs) e)))
          ∙ last_byte-drop k xs (ltb→lt k (length xs) e))
      ∙ sym (ap (λ b. if b then s + last_byte xs else s) e)
  | inr e ↦
      ap (λ ys. s + little_sum ys) (drop_all k xs (ltb→le k (length xs) e))
      ∙ plus_none s
      ∙ sym (ap (λ b. if b then s + last_byte xs else s) e)
]

SameFold-refl : (a : ℕ) → SameFold a a
unfolding SameFold
SameFold-refl a = (refl, refl)

split_sum :
    (i j : ℕ) (xs : Bytes)
    → i % 2 ≡ 0
    → j % 2 ≡ 0
    → little_sum (take i xs) + little_sum (take j (drop i xs)) + little_sum (drop (i + j) xs)
      ≡ little_sum xs
split_sum i j xs p q = omega (
  arith,
  little_sum-split i xs p,
  little_sum-split j (drop i xs) q,
  ap little_sum (drop-drop j i xs),
)

-- The sum that inet_csum_little folds.
pub sum_words-little_sum :
    (xs : Bytes) (init : ℕ) → SameFold (sum_words little_word xs init) (init + little_sum xs)
unfolding sum_words
sum_words-little_sum xs init =
    let n = length xs in
    let i = n / 8 * 8 in
    let h = (n - i) / 2 in
    let j = h * 2 in
    let p = sum_cast-little_sum 8 (n / 8) xs refl in
    let q = sum_cast-little_sum 2 h (drop i xs) refl in
    let summed =
      SameFold-add _ _ _ _ (SameFold-add _ _ _ _ (SameFold-add _ _ _ _ (SameFold-refl init) p) q)
        (SameFold-refl (little_sum (drop (i + j) xs))) in
    let parts = split_sum i j xs (omega arith) (omega arith) in
    let total : init
          + little_sum (take i xs)
          + little_sum (take j (drop i xs))
          + little_sum (drop (i + j) xs)
        ≡ init + little_sum xs =
      omega (arith, parts) in
    subst (λ a. SameFold a (init + little_sum xs)) (tail_sum (i + j) xs _ (omega arith))
      (subst (SameFold _) total summed)

pub little_sum-append :
    (xs ys : Bytes) → length xs % 2 ≡ 0 → little_sum (xs ++ ys) ≡ little_sum xs + little_sum ys
unfolding little_sum
little_sum-append [] ys e = omega arith
little_sum-append (b ∷ []) ys e = absurd (omega arith)
little_sum-append (b ∷ c ∷ xs) ys e = omega (arith, little_sum-append xs ys (omega arith))

-- Bytes written over zero bytes at an even place add themselves to the sum.
pub little_sum-write :
    (i : ℕ) (xs : Bytes) (x y : ℕ)
    → i % 2 ≡ 0
    → get_elem? xs i ≡ some 0
    → get_elem? xs (suc i) ≡ some 0
    → little_sum (write xs i (x ∷ y ∷ [])) ≡ little_sum xs + (x + 256 * y)
unfolding little_sum
little_sum-write zero [] x y e p q = absurd cc
little_sum-write zero (b ∷ []) x y e p q = absurd cc
little_sum-write zero (b ∷ c ∷ bs) x y e p q = grind arith
little_sum-write (suc zero) xs x y e p q = absurd (omega arith)
little_sum-write (suc (suc i)) [] x y e p q = absurd cc
little_sum-write (suc (suc i)) (b ∷ []) x y e p q = absurd cc
little_sum-write (suc (suc i)) (b ∷ c ∷ bs) x y e p q =
    omega (arith, little_sum-write i bs x y (omega arith) p q)
