-- ===== src/Packet/Udp/Built.antt =====
-- The bytes of a datagram that tipy/protocols/udp/builder.py writes.
use tipy.Common.{
  ℕ, ◌+◌, ◌/◌, ◌%◌, ◌<◌, ◌≡◌, refl, ap, some, [], ◌∷◌, ◌++◌, append-nil, length, replicate, write,
  le→leb, lt→ltb, arith,
}
use tipy.Wire.Struct.{Bytes, pack_h, pack_all, pack_into}
use tipy.Wire.Csum.{inet_csum_little}
use tipy.Wire.Csum.Rfc.{filled-inet_csum_little}
use tipy.Wire.Csum.Zeros.{inet_csum_little-zeros}
use tipy.Packet.Frame.{pack_front}
use tipy.Packet.Tcp.Header.{csum-fits}
use tipy.Packet.Udp.{UdpBuilder, udp_len, udp_build}

pub record Fits (b : UdpBuilder) : Type 0 where
  pub src_fits : b.src < 65536
  pub dst_fits : b.dst < 65536
  pub len_fits : udp_len b < 65536

-- The datagram with a zero checksum.
unfoldable pub unsummed : UdpBuilder → Bytes
unsummed b =
    b.src / 256
    ∷ b.src % 256
    ∷ b.dst / 256
    ∷ b.dst % 256
    ∷ udp_len b / 256
    ∷ udp_len b % 256
    ∷ 0
    ∷ 0
    ∷ b.payload

unfoldable pub summed : UdpBuilder → ℕ → Bytes
unfolding unsummed
summed b phsum =
    let c = inet_csum_little (unsummed b) phsum in write (unsummed b) 6 (c / 256 ∷ c % 256 ∷ [])

length-unsummed : (b : UdpBuilder) → length (unsummed b) ≡ udp_len b
unfolding unsummed udp_len
length-unsummed b = omega arith

pub length-summed : (b : UdpBuilder) (phsum : ℕ) → length (summed b phsum) ≡ udp_len b
unfolding summed unsummed udp_len
length-summed b phsum = omega arith

pack_all-unsummed :
    (b : UdpBuilder)
    → Fits b
    → pack_all (pack_h b.src ∷ pack_h b.dst ∷ pack_h (udp_len b) ∷ pack_h 0 ∷ some b.payload ∷ [])
      ≡ some (unsummed b)
unfolding unsummed
pack_all-unsummed b f =
    rw
      (
        lt→ltb b.src 65536 f.src_fits,
        lt→ltb b.dst 65536 f.dst_fits,
        lt→ltb (udp_len b) 65536 f.len_fits,
      )
      (ap (λ p. some (unsummed_front b p)) (append-nil b.payload))
  where
    unsummed_front : UdpBuilder → Bytes → Bytes
    unsummed_front b p =
        b.src / 256
        ∷ b.src % 256
        ∷ b.dst / 256
        ∷ b.dst % 256
        ∷ udp_len b / 256
        ∷ udp_len b % 256
        ∷ 0
        ∷ 0
        ∷ p

pack_csum :
    (b : UdpBuilder) (c slack : ℕ)
    → pack_into (unsummed b ++ replicate slack 0) 6 (c / 256 ∷ c % 256 ∷ [])
      ≡ some (write (unsummed b) 6 (c / 256 ∷ c % 256 ∷ []) ++ replicate slack 0)
unfolding unsummed
pack_csum b c slack = rw (le→leb 8 (length (unsummed b ++ replicate slack 0)) (omega arith))

-- With fields that fit, the builder writes the datagram into the front of any frame of zeros that
-- is long enough.
pub udp_build-summed :
    (b : UdpBuilder) (slack phsum : ℕ)
    → Fits b
    → udp_build b (replicate (udp_len b + slack) 0) phsum
      ≡ some (summed b phsum ++ replicate slack 0)
unfolding udp_build summed
udp_build-summed b slack phsum f =
    let c = inet_csum_little (unsummed b) phsum in
    rw (
      pack_all-unsummed b f,
      pack_front (udp_len b) slack (unsummed b) (length-unsummed b),
      inet_csum_little-zeros (unsummed b) slack phsum,
      lt→ltb c 65536 (csum-fits (unsummed b) phsum),
      pack_csum b c slack,
    )

pub filled-summed : (b : UdpBuilder) (phsum : ℕ) → inet_csum_little (summed b phsum) phsum ≡ 0
unfolding summed unsummed
filled-summed b phsum = filled-inet_csum_little (unsummed b) 6 phsum refl refl refl
