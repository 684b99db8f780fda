-- ===== src/Ip/Reass/Placed.antt =====
-- The early fragments of a datagram, kept in `temporary_data_buffer` and copied by `_ip_reass`.
use tipy.Common.{
  ℕ, ◌+◌, ◌*◌, ◌≤◌, ◌<◌, ◌≡◌, refl, sym, ap, ◌∙◌, ◌⊎◌, inl, inr, Bool, true, false, some, none,
  List, [], ◌∷◌, ◌++◌, length, take, drop, get_elem?, write, Bool-cases, if◌then◌else◌, le→leb,
  ◌==◌, arith,
}
use tipy.Common.Writes.{length-write}
use tipy.Wire.Struct.{Bytes, pack_into}
use tipy.Ip.Reass.{dict_set, place_all}
use tipy.Ip.Reass.Slices.{Agree, write-Agree}

-- `chunk` is the slice of the datagram at block `o`.
pub record IsSlice (datagram : Bytes) (o : ℕ) (chunk : Bytes) : Type 0 where
  pub within : o * 8 + length chunk ≤ length datagram
  pub copied : chunk ≡ take (length chunk) (drop (o * 8) datagram)

abbrev pub Covers : ℕ → ℕ → ℕ → Type 0
Covers o n k = (o * 8 ≤ k) × (k < o * 8 + n)

unfoldable pub AllSlices : Bytes → List (ℕ × Bytes) → Type 0
AllSlices datagram [] = Unit
AllSlices datagram ((o, chunk) ∷ rest) = IsSlice datagram o chunk × AllSlices datagram rest

unfoldable pub SomeCovers : List (ℕ × Bytes) → ℕ → Type 0
SomeCovers [] k = ⊥
SomeCovers ((o, chunk) ∷ rest) k = Covers o (length chunk) k ⊎ SomeCovers rest k

unfoldable pub has_key : List (ℕ × Bytes) → ℕ → Bool
has_key [] k = false
has_key ((k', v) ∷ rest) k = if k' == k then true else has_key rest k

-- A slice goes into a buffer of the datagram's length.
pub pack_into-slice :
    (datagram buffer chunk : Bytes) (o : ℕ)
    → length buffer ≡ length datagram
    → IsSlice datagram o chunk
    → pack_into buffer (o * 8) chunk ≡ some (write buffer (o * 8) chunk)
pack_into-slice datagram buffer chunk o e s =
    rw (le→leb (o * 8 + length chunk) (length buffer) (omega (arith, s.within)))

pub write-slice :
    (datagram buffer chunk : Bytes) (o k : ℕ)
    → length buffer ≡ length datagram
    → IsSlice datagram o chunk
    → Agree buffer datagram k ⊎ Covers o (length chunk) k
    → Agree (write buffer (o * 8) chunk) datagram k
write-slice datagram buffer chunk o k e s p =
    ap (λ c. get_elem? (write buffer (o * 8) c) k) s.copied
    ∙ write-Agree (o * 8) (length chunk) buffer datagram k e s.within p

pub record Placed (datagram : Bytes) (frags : List (ℕ × Bytes)) (buffer : Bytes) : Type 0 where
  pub result : Bytes
  pub placed : place_all frags buffer ≡ (true, result)
  pub same_length : length result ≡ length datagram
  pub agrees : (k : ℕ) → Agree buffer datagram k ⊎ SomeCovers frags k → Agree result datagram k

place_all-step :
    (o : ℕ) (chunk : Bytes) (rest : List (ℕ × Bytes)) (buffer buffer' : Bytes)
    → pack_into buffer (o * 8) chunk ≡ some buffer'
    → place_all ((o, chunk) ∷ rest) buffer ≡ place_all rest buffer'
unfolding place_all
place_all-step o chunk rest buffer buffer' e =
    ap (λ p. elim p as (λ _. Bool × Bytes) [ none ↦ (false, buffer) | some b ↦ place_all rest b ]) e

pub place_all-Placed :
    (datagram : Bytes) (frags : List (ℕ × Bytes)) (buffer : Bytes)
    → length buffer ≡ length datagram
    → AllSlices datagram frags
    → Placed datagram frags buffer
unfolding place_all AllSlices SomeCovers
place_all-Placed datagram [] buffer e s = record {
  result = buffer;
  placed = refl;
  same_length = e;
  agrees = λ k p. elim p [ inl a ↦ a | inr none_covers ↦ absurd none_covers ];
}
place_all-Placed datagram ((o, chunk) ∷ rest) buffer e (s, ss) =
    let buffer' = write buffer (o * 8) chunk in
    let p =
      place_all-Placed datagram rest buffer' (omega (arith, length-write buffer (o * 8) chunk))
        ss in
    record {
      result = p.result;
      placed =
          place_all-step o chunk rest buffer buffer' (pack_into-slice datagram buffer chunk o e s)
          ∙ p.placed;
      same_length = p.same_length;
      agrees = λ k c. p.agrees k (elim c [
        | inl a ↦ inl (write-slice datagram buffer chunk o k e s (inl a))
        | inr (inl here) ↦ inl (write-slice datagram buffer chunk o k e s (inr here))
        | inr (inr later) ↦ inr later
      ]);
    }

pub dict_set-fresh :
    (d : List (ℕ × Bytes)) (k : ℕ) (v : Bytes)
    → has_key d k ≡ false
    → dict_set d k v ≡ d ++ ((k, v) ∷ [])
unfolding dict_set has_key
dict_set-fresh [] k v h = refl
dict_set-fresh ((k', v') ∷ rest) k v h = elim (Bool-cases (k' == k)) [
  | inl e ↦ absurd (cc (h, ap (λ b. if b then true else has_key rest k) e))
  | inr e ↦
      ap (λ b. if b then ((k, v) ∷ rest) else ((k', v') ∷ dict_set rest k v)) e
      ∙ ap (λ d. (k', v') ∷ d)
          (dict_set-fresh rest k v (sym (ap (λ b. if b then true else has_key rest k) e) ∙ h))
]

-- An entry that is added keeps the slices slices, covers what it covers, and takes one key.
pub AllSlices-added :
    (datagram : Bytes) (d : List (ℕ × Bytes)) (o : ℕ) (chunk : Bytes)
    → AllSlices datagram d
    → IsSlice datagram o chunk
    → AllSlices datagram (d ++ ((o, chunk) ∷ []))
unfolding AllSlices
AllSlices-added datagram [] o chunk ss s = (s, tt)
AllSlices-added datagram ((o', c) ∷ rest) o chunk (s', ss) s =
    (s', AllSlices-added datagram rest o chunk ss s)

pub SomeCovers-added :
    (d : List (ℕ × Bytes)) (o k : ℕ) (chunk : Bytes)
    → SomeCovers d k ⊎ Covers o (length chunk) k
    → SomeCovers (d ++ ((o, chunk) ∷ [])) k
unfolding SomeCovers
SomeCovers-added [] o k chunk (inl none_covers) = absurd none_covers
SomeCovers-added [] o k chunk (inr c) = inl c
SomeCovers-added ((o', c') ∷ rest) o k chunk (inl (inl c)) = inl c
SomeCovers-added ((o', c') ∷ rest) o k chunk (inl (inr c)) =
    inr (SomeCovers-added rest o k chunk (inl c))
SomeCovers-added ((o', c') ∷ rest) o k chunk (inr c) = inr (SomeCovers-added rest o k chunk (inr c))

pub has_key-added :
    (d : List (ℕ × Bytes)) (o k : ℕ) (chunk : Bytes)
    → has_key d k ≡ false
    → (o == k) ≡ false
    → has_key (d ++ ((o, chunk) ∷ [])) k ≡ false
unfolding has_key
has_key-added [] o k chunk h e = rw e
has_key-added ((o', c) ∷ rest) o k chunk h e = elim (Bool-cases (o' == k)) [
  | inl f ↦ absurd (cc (h, ap (λ b. if b then true else has_key rest k) f))
  | inr f ↦
      ap (λ b. if b then true else has_key (rest ++ ((o, chunk) ∷ [])) k) f
      ∙ has_key-added rest o k chunk (sym (ap (λ b. if b then true else has_key rest k) f) ∙ h) e
]
