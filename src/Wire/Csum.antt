-- ===== src/Wire/Csum.antt =====
-- tipy/lib/csum.py: the Internet checksum, as a little-endian and as a big-endian host computes
-- it. A host reads `data.cast("Q")` and `data.cast("H")` in its own byte order.
pub mod Words
pub mod Rfc
pub mod Zeros
use tipy.Common.{
  ℕ, zero, suc, ◌+◌, ◌-◌, ◌*◌, ◌/◌, ◌%◌, Bool, true, false, List, [], ◌∷◌, length, take, drop,
  if◌then◌else◌, ltb,
}
use tipy.Wire.Struct.{Bytes}

-- A word of the host: least significant byte first, and most significant byte first.
unfoldable pub little_word : Bytes → ℕ
little_word [] = 0
little_word (b ∷ bs) = b + 256 * little_word bs

unfoldable pub big_word : ℕ → Bytes → ℕ
big_word acc [] = acc
big_word acc (b ∷ bs) = big_word (acc * 256 + b) bs

-- sum(data[:w * n].cast(…)), for words of `w` bytes
unfoldable pub sum_cast : (Bytes → ℕ) → ℕ → ℕ → Bytes → ℕ
sum_cast word w zero packet = 0
sum_cast word w (suc n) packet = word (take w packet) + sum_cast word w n (drop w packet)

-- data[-1]
unfoldable pub last_byte : Bytes → ℕ
last_byte [] = 0
last_byte (b ∷ []) = b
last_byte (b ∷ c ∷ bs) = last_byte (c ∷ bs)

-- The sum that both functions take before they fold it.
unfoldable pub sum_words : (Bytes → ℕ) → Bytes → ℕ → ℕ
sum_words word packet inited_sum =
    let n = length packet in
    let dwords = n / 8 in
    let i = dwords * 8 in
    let s = inited_sum + sum_cast word 8 dwords packet in
    let hwords = (n - i) / 2 in
    let s' = s + sum_cast word 2 hwords (drop i packet) in
    let i' = i + hwords * 2 in if ltb i' n then s' + last_byte packet else s'

-- while s >> 16: s = (s >> 16) + (s & 0xFFFF)
-- `fuel` bounds the number of times the loop is entered.
unfoldable pub fold_from : ℕ → ℕ → ℕ
fold_from zero s = s
fold_from (suc fuel) s = elim (ltb s 65536) [
  | true ↦ s
  | false ↦ fold_from fuel (s / 65536 + s % 65536)
]

unfoldable pub fold_carries : ℕ → ℕ
fold_carries s = fold_from s s

-- (s << 8 & 0xFF00) | (s >> 8)
unfoldable pub swap_bytes : ℕ → ℕ
swap_bytes s = s * 256 % 65536 + s / 256

-- ~s & 0xFFFF
unfoldable pub complement : ℕ → ℕ
complement s = 65535 - s % 65536

unfoldable pub inet_csum_little : Bytes → ℕ → ℕ
unfolding sum_words
inet_csum_little packet inited_sum =
    complement (swap_bytes (fold_carries (sum_words little_word packet inited_sum)))

unfoldable pub inet_csum_big : Bytes → ℕ → ℕ
inet_csum_big packet inited_sum =
    complement (fold_carries (sum_words (big_word 0) packet inited_sum))
