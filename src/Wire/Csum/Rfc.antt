-- ===== src/Wire/Csum/Rfc.antt =====
-- The checksum of RFC 1071, byte pair by byte pair in network order, and the agreement of
-- tipy/lib/csum.py with it.
use tipy.Common.{
  ℕ, zero, suc, ◌+◌, ◌-◌, ◌*◌, ◌/◌, ◌%◌, ◌≤◌, ◌<◌, ◌≡◌, refl, sym, ap, ◌∙◌, Bool, true, false, [],
  ◌∷◌, ◌++◌, length, get_elem?, some, write, take_all, ltb, ltb→lt, ltb→le, if◌then◌else◌,
  Bool-cases, inl, inr, arith,
}
use mathlib.Core.Path.{subst}
use tipy.Wire.Struct.{Bytes}
use tipy.Wire.Csum.{
  little_word, sum_words, sum_cast, fold_from, fold_carries, swap_bytes, complement,
  inet_csum_little,
}
use tipy.Wire.Csum.Words.{
  SameFold, little_sum, network_sum, sum_words-little_sum, sum_cast-little_sum, little_sum-append,
  little_sum-write,
}

unfoldable pub IsBytes : Bytes → Type 0
IsBytes [] = Unit
IsBytes (b ∷ bs) = (b < 256) × IsBytes bs

-- Ones' complement addition of 16-bit words: a carry out of the word is added to it.
unfoldable pub add_around : ℕ → ℕ → ℕ
add_around a b = if ltb (a + b) 65536 then a + b else a + b - 65535

unfoldable pub rfc_sum : Bytes → ℕ
rfc_sum [] = 0
rfc_sum (b ∷ []) = add_around (256 * b) 0
rfc_sum (b ∷ c ∷ bs) = add_around (256 * b + c) (rfc_sum bs)

-- The checksum field of a message whose checksum field is zero.
unfoldable pub rfc1071 : Bytes → ℕ
rfc1071 bs = 65535 - rfc_sum bs

unfoldable pub IsSum : ℕ → ℕ → Type 0
IsSum s total = (s < 65536) × SameFold s total

fold_step :
    (fuel s : ℕ) (b : Bool)
    → ltb s 65536 ≡ b
    → fold_from (suc fuel) s ≡ (if b then s else fold_from fuel (s / 65536 + s % 65536))
unfolding fold_from
fold_step fuel s true e =
    ap (λ b. elim b as (λ _. ℕ) [ true ↦ s | false ↦ fold_from fuel (s / 65536 + s % 65536) ]) e
fold_step fuel s false e =
    ap (λ b. elim b as (λ _. ℕ) [ true ↦ s | false ↦ fold_from fuel (s / 65536 + s % 65536) ]) e

fold_from-IsSum : (fuel s : ℕ) → s ≤ fuel → IsSum (fold_from fuel s) s
unfolding IsSum fold_from SameFold
fold_from-IsSum zero s h = (omega arith, (refl, refl))
fold_from-IsSum (suc fuel) s h =
    elim (Bool-cases (ltb s 65536)) as (λ _. IsSum (fold_from (suc fuel) s) s) [
      | inl e ↦
          subst (λ x. IsSum x s) (sym (fold_step fuel s true e)) (ltb→lt s 65536 e, (refl, refl))
      | inr e ↦
          let (lt, (p, q)) =
            fold_from-IsSum fuel (s / 65536 + s % 65536) (omega (arith, ltb→le s 65536 e)) in
          subst (λ x. IsSum x s) (sym (fold_step fuel s false e))
            (lt, (omega (arith, p), omega (arith, q, ltb→le s 65536 e)))
    ]

add_around-IsSum : (a b total : ℕ) → a < 65536 → IsSum b total → IsSum (add_around a b) (a + total)
unfolding IsSum add_around SameFold
add_around-IsSum a b total h (lt, (p, q)) = (ground arith, (ground arith, ground arith))

rfc_sum-IsSum : (bs : Bytes) → IsBytes bs → IsSum (rfc_sum bs) (network_sum bs)
unfolding IsSum rfc_sum network_sum IsBytes SameFold
rfc_sum-IsSum [] h = (omega arith, (refl, refl))
rfc_sum-IsSum (b ∷ []) h =
    subst (IsSum (add_around (256 * b) 0)) (plus_zero (256 * b))
      (add_around-IsSum (256 * b) 0 0 (omega (arith, h.0)) (omega arith, (refl, refl)))
  where
    plus_zero : (n : ℕ) → n + 0 ≡ n
    plus_zero n = omega arith
rfc_sum-IsSum (b ∷ c ∷ bs) (hb, (hc, h)) =
    add_around-IsSum (256 * b + c) (rfc_sum bs) (network_sum bs) (omega arith) (rfc_sum-IsSum bs h)

pub IsSum-unique : (a b total : ℕ) → IsSum a total → IsSum b total → a ≡ b
unfolding IsSum SameFold
IsSum-unique a b total (ha, (p, q)) (hb, (p', q')) = omega arith

little_sum-network_sum : (bs : Bytes) → SameFold (256 * little_sum bs) (network_sum bs)
unfolding little_sum network_sum SameFold
little_sum-network_sum [] = (refl, refl)
little_sum-network_sum (b ∷ []) = (refl, refl)
little_sum-network_sum (b ∷ c ∷ bs) =
    let (p, q) = little_sum-network_sum bs in (omega (arith, p), omega (arith, q))

-- Swapping the bytes of a sum in little-endian order gives the sum in network order.
swap_bytes-IsSum :
    (s total network : ℕ)
    → IsSum s total
    → SameFold (256 * total) network
    → IsSum (swap_bytes s) network
unfolding IsSum swap_bytes SameFold
swap_bytes-IsSum s total network (h, (p, q)) (p', q') = (omega arith, (omega arith, omega arith))

pub folded-IsSum :
    (packet : Bytes) (init : ℕ)
    → IsSum (fold_carries (sum_words little_word packet init)) (init + little_sum packet)
unfolding IsSum fold_carries SameFold
folded-IsSum packet init =
    let s = sum_words little_word packet init in
    let (lt, (p, q)) = fold_from-IsSum s s (omega arith) in
    let (p', q') = sum_words-little_sum packet init in (lt, (p ∙ p', q ∙ q'))

-- The words of the pseudo header, as the callers of inet_csum add them up.
unfoldable pub pseudo_sum : ℕ → Bytes → ℕ
pseudo_sum dwords pseudo = sum_cast little_word 4 dwords pseudo

pseudo_sum-total :
    (dwords : ℕ) (pseudo packet : Bytes)
    → length pseudo ≡ dwords * 4
    → SameFold
        (256 * (pseudo_sum dwords pseudo + little_sum packet))
        (network_sum (pseudo ++ packet))
unfolding SameFold pseudo_sum
pseudo_sum-total dwords pseudo packet e =
    let (p, q) = sum_cast-little_sum 4 dwords pseudo refl in
    let (p', q') = little_sum-network_sum (pseudo ++ packet) in
    let joined = little_sum-append pseudo packet (omega arith) in
    let whole = ap little_sum (take_all (dwords * 4) pseudo (omega arith)) in
    (omega arith, omega arith)

complement-IsSum : (s total : ℕ) → IsSum s total → complement s ≡ 65535 - s
unfolding complement IsSum
complement-IsSum s total p = omega (arith, p.0)

IsBytes-append : (xs ys : Bytes) → IsBytes xs → IsBytes ys → IsBytes (xs ++ ys)
unfolding IsBytes
IsBytes-append [] ys p q = q
IsBytes-append (x ∷ xs) ys (hx, p) q = (hx, IsBytes-append xs ys p q)

-- The checksum that a little-endian host computes over a packet, with the 32-bit words of the
-- pseudo header in its own byte order as the first sum, is RFC 1071's over both.
pub inet_csum_little-rfc1071 :
    (dwords : ℕ) (pseudo packet : Bytes)
    → length pseudo ≡ dwords * 4
    → IsBytes pseudo
    → IsBytes packet
    → inet_csum_little packet (pseudo_sum dwords pseudo) ≡ rfc1071 (pseudo ++ packet)
unfolding inet_csum_little rfc1071
inet_csum_little-rfc1071 dwords pseudo packet e p q =
    let total = pseudo_sum dwords pseudo + little_sum packet in
    let folded = folded-IsSum packet (pseudo_sum dwords pseudo) in
    let swapped = swap_bytes-IsSum _ total _ folded (pseudo_sum-total dwords pseudo packet e) in
    let summed = rfc_sum-IsSum (pseudo ++ packet) (IsBytes-append pseudo packet p q) in
    complement-IsSum _ _ swapped ∙ ap (λ s. 65535 - s) (IsSum-unique _ _ _ swapped summed)

refill :
    (s : ℕ)
    → s < 65536
    → complement (swap_bytes s) / 256 + 256 * (complement (swap_bytes s) % 256) ≡ 65535 - s
unfolding complement swap_bytes
refill s h = omega arith

-- A frame whose checksum field has been filled in passes the check of its receiver.
pub filled-inet_csum_little :
    (frame : Bytes) (i init : ℕ)
    → i % 2 ≡ 0
    → get_elem? frame i ≡ some 0
    → get_elem? frame (suc i) ≡ some 0
    → (let c = inet_csum_little frame init in
        inet_csum_little (write frame i (c / 256 ∷ c % 256 ∷ [])) init ≡ 0)
unfolding inet_csum_little IsSum SameFold complement swap_bytes
filled-inet_csum_little frame i init e p q =
    let s = fold_carries (sum_words little_word frame init) in
    let c = inet_csum_little frame init in
    let frame' = write frame i (c / 256 ∷ c % 256 ∷ []) in
    let (lt, (r, z)) = folded-IsSum frame init in
    let (lt', (r', z')) = folded-IsSum frame' init in
    let added = little_sum-write i frame (c / 256) (c % 256) e p q in
    let filled = refill s lt in
    let all_ones : fold_carries (sum_words little_word frame' init) ≡ 65535 = omega arith in
    ap (λ t. complement (swap_bytes t)) all_ones
