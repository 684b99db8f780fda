-- ===== src/Packet/Icmp/Built.antt =====
-- The bytes of a message that tipy/protocols/icmp/builder.py writes.
use tipy.Common.{
  ℕ, ◌+◌, ◌/◌, ◌%◌, ◌<◌, ◌≡◌, refl, ap, ◌∙◌, true, false, none, some, [], ◌∷◌, ◌++◌, length,
  length-replicate, replicate, write, if◌then◌else◌, le→leb, lt→ltb, arith,
}
use tipy.Wire.Struct.{Bytes, pack_into}
use tipy.Wire.Csum.{inet_csum_little}
use tipy.Wire.Csum.Rfc.{filled-inet_csum_little}
use tipy.Wire.Csum.Zeros.{inet_csum_little-zeros}
use tipy.Common.Places.{write-append_length}
use tipy.Packet.Frame.{pack_front}
use tipy.Packet.Tcp.Header.{zeros_behind, csum-fits}
use tipy.Packet.Icmp.{
  IcmpBuilder, icmp_fill, icmp_build, assign_data, is_error, is_echo, icmp_echo_id, icmp_echo_seq,
  icmp_data,
}

-- A message with a zero checksum, and its two words.
unfoldable pub unsummed : ℕ → ℕ → ℕ → ℕ → Bytes → Bytes
unsummed type_ code first second payload =
    type_ ∷ code ∷ 0 ∷ 0 ∷ first / 256 ∷ first % 256 ∷ second / 256 ∷ second % 256 ∷ payload

unfoldable pub summed : ℕ → ℕ → ℕ → ℕ → Bytes → Bytes
unfolding unsummed
summed type_ code first second payload =
    let c = inet_csum_little (unsummed type_ code first second payload) 0 in
    write (unsummed type_ code first second payload) 2 (c / 256 ∷ c % 256 ∷ [])

pub filled-summed :
    (type_ code first second : ℕ) (payload : Bytes)
    → inet_csum_little (summed type_ code first second payload) 0 ≡ 0
unfolding summed unsummed
filled-summed type_ code first second payload =
    filled-inet_csum_little (unsummed type_ code first second payload) 2 0 refl refl refl

module _ (type_ code first second : ℕ) (payload : Bytes) where
  pub length-summed : length (summed type_ code first second payload) ≡ length payload + 8
  unfolding summed unsummed
  length-summed = omega arith

  pub echo_id-summed : icmp_echo_id (summed type_ code first second payload) ≡ some first
  unfolding summed unsummed
  echo_id-summed = ap some (omega arith)

  pub echo_seq-summed : icmp_echo_seq (summed type_ code first second payload) ≡ some second
  unfolding summed unsummed
  echo_seq-summed = ap some (omega arith)

  pub data-summed : icmp_data (summed type_ code first second payload) ≡ payload
  unfolding summed unsummed
  data-summed = refl

module _ (type_ code first second : ℕ) (payload : Bytes) (slack : ℕ) where
  assign-unsummed :
      assign_data
        (unsummed type_ code first second [] ++ replicate (length payload + slack) 0)
        payload
      ≡ some (unsummed type_ code first second payload ++ replicate slack 0)
  unfolding unsummed
  assign-unsummed =
      let head = unsummed type_ code first second [] in
      let zs : Bytes = replicate (length payload + slack) 0 in
      let l = length-replicate {A = ℕ} (length payload + slack) 0 in
      ap (λ t. if t then some (write (head ++ zs) 8 payload) else none)
        (le→leb (8 + length payload) (length (head ++ zs)) (omega arith))
      ∙ ap some (write-append_length head payload zs (omega arith))
      ∙ ap (λ ws. some (head ++ (payload ++ ws))) (zeros_behind (length payload) slack)

  pack_csum :
      (c : ℕ)
      → pack_into
          (unsummed type_ code first second payload ++ replicate slack 0)
          2
          (c / 256 ∷ c % 256 ∷ [])
        ≡ some (
            write (unsummed type_ code first second payload) 2 (c / 256 ∷ c % 256 ∷ [])
            ++ replicate slack 0)
  unfolding unsummed
  pack_csum c = rw (
      le→leb 4 (length (unsummed type_ code first second payload ++ replicate slack 0))
        (omega arith))

  pub icmp_fill-summed :
      icmp_fill
        (some (unsummed type_ code first second []))
        (some payload)
        (replicate (length payload + 8 + slack) 0)
      ≡ some (summed type_ code first second payload ++ replicate slack 0)
  unfolding icmp_fill summed unsummed
  icmp_fill-summed =
      let image = unsummed type_ code first second payload in
      let c = inet_csum_little image 0 in
      ap
        (λ n. icmp_fill (some (unsummed type_ code first second [])) (some payload) (replicate n 0))
        (reorder (length payload) slack)
      ∙ rw (
        pack_front 8 (length payload + slack) (unsummed type_ code first second []) refl,
        assign-unsummed,
        inet_csum_little-zeros image slack 0,
        lt→ltb c 65536 (csum-fits image 0),
        pack_csum c,
      )
    where
      reorder : (n m : ℕ) → n + 8 + m ≡ 8 + (n + m)
      reorder n m = omega arith

pub icmp_build-error :
    (b : IcmpBuilder) (payload : Bytes) (slack : ℕ)
    → is_error b.type_ ≡ true
    → b.code < 256
    → b.payload ≡ some payload
    → icmp_build b (replicate (length payload + 8 + slack) 0)
      ≡ some (summed b.type_ b.code 0 0 payload ++ replicate slack 0)
unfolding icmp_build unsummed
icmp_build-error b payload slack k c p =
    rw (k, lt→ltb b.type_ 256 (error_small b.type_ k), lt→ltb b.code 256 c, p)
      (icmp_fill-summed b.type_ b.code 0 0 payload slack)
  where
    error_small : (t : ℕ) → is_error t ≡ true → t < 256
    error_small t e = ground arith

pub icmp_build-echo :
    (b : IcmpBuilder) (id seq : ℕ) (payload : Bytes) (slack : ℕ)
    → is_echo b.type_ ≡ true
    → b.code < 256
    → id < 65536
    → seq < 65536
    → b.echo_id ≡ some id
    → b.echo_seq ≡ some seq
    → b.payload ≡ some payload
    → icmp_build b (replicate (length payload + 8 + slack) 0)
      ≡ some (summed b.type_ b.code id seq payload ++ replicate slack 0)
unfolding icmp_build unsummed
icmp_build-echo b id seq payload slack k c i s ei es p =
    rw
      (
        not_error b.type_ k,
        k,
        lt→ltb b.type_ 256 (echo_small b.type_ k),
        lt→ltb b.code 256 c,
        ei,
        es,
        lt→ltb id 65536 i,
        lt→ltb seq 65536 s,
        p,
      )
      (icmp_fill-summed b.type_ b.code id seq payload slack)
  where
    echo_small : (t : ℕ) → is_echo t ≡ true → t < 256
    echo_small t e = ground arith

    not_error : (t : ℕ) → is_echo t ≡ true → is_error t ≡ false
    not_error t e = ground arith
