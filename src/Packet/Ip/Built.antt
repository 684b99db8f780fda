-- ===== src/Packet/Ip/Built.antt =====
-- The bytes of a packet that tipy/protocols/ip/builder.py writes round its payload.
use tipy.Common.{
  ℕ, ◌+◌, ◌/◌, ◌%◌, ◌<◌, ◌≡◌, refl, false, some, [], ◌∷◌, ◌++◌, length, replicate, write, le→leb,
  lt→ltb, arith,
}
use tipy.Wire.Struct.{Bytes, pack_into}
use tipy.Wire.Csum.{inet_csum_little}
use tipy.Wire.Csum.Rfc.{filled-inet_csum_little}
use tipy.Wire.Csum.Zeros.{inet_csum_little-zeros}
use tipy.Packet.Frame.{pack_front}
use tipy.Packet.Tcp.Header.{csum-fits}
use tipy.Packet.Ip.Options.{build_opts, opts_len}
use tipy.Packet.Ip.{
  Payload, payload_len, IpBuilder, ip_builder, ihl_of, ip_header, payload_build, build_payload,
  ip_build,
}

-- What is written into a header without options, for a payload of `len` bytes.
pub record Head : Type 0 where
  pub len : ℕ
  pub id : ℕ
  pub ttl : ℕ
  pub protocol : ℕ
  pub src : ℕ
  pub dst : ℕ

abbrev pub plain : Payload → Head → IpBuilder
plain payload h = record {
  payload = payload;
  payload_length = h.len;
  id = h.id;
  offset = 0;
  flag_df = false;
  flag_mf = false;
  ttl = h.ttl;
  protocol = h.protocol;
  options = [];
  ihl = 5;
  total_len = 20 + h.len;
  src = h.src;
  dst = h.dst;
}

pub ip_builder-plain :
    (payload : Payload) (h : Head)
    → payload_len payload ≡ some h.len
    → ip_builder payload h.id h.ttl h.protocol [] h.src h.dst ≡ some (plain payload h)
unfolding ip_builder ihl_of opts_len
ip_builder-plain payload h e = rw e

pub record Fits (h : Head) : Type 0 where
  pub total_fits : 20 + h.len < 65536
  pub id_fits : h.id < 65536
  pub ttl_fits : h.ttl < 256
  pub protocol_fits : h.protocol < 256
  pub src_fits : h.src < 4294967296
  pub dst_fits : h.dst < 4294967296

-- The header with a zero checksum.
unfoldable pub unsummed : Head → Bytes
unsummed h =
    69
    ∷ 0
    ∷ (20 + h.len) / 256
    ∷ (20 + h.len) % 256
    ∷ h.id / 256
    ∷ h.id % 256
    ∷ 0
    ∷ 0
    ∷ h.ttl
    ∷ h.protocol
    ∷ 0
    ∷ 0
    ∷ h.src / 16777216
    ∷ h.src / 65536 % 256
    ∷ h.src / 256 % 256
    ∷ h.src % 256
    ∷ h.dst / 16777216
    ∷ h.dst / 65536 % 256
    ∷ h.dst / 256 % 256
    ∷ h.dst % 256
    ∷ []

unfoldable pub summed : Head → Bytes
unfolding unsummed
summed h = let c = inet_csum_little (unsummed h) 0 in write (unsummed h) 10 (c / 256 ∷ c % 256 ∷ [])

module _ (h : Head) where
  pub filled-summed : inet_csum_little (summed h) 0 ≡ 0
  unfolding summed unsummed
  filled-summed = filled-inet_csum_little (unsummed h) 10 0 refl refl refl

  pub length-summed : length (summed h) ≡ 20
  unfolding summed unsummed
  length-summed = refl

  length-unsummed : length (unsummed h) ≡ 20
  unfolding unsummed
  length-unsummed = refl

  ip_header-unsummed :
      (payload : Payload) → Fits h → ip_header (plain payload h) ≡ some (unsummed h)
  unfolding ip_header unsummed
  ip_header-unsummed payload f = rw (
    lt→ltb (20 + h.len) 65536 f.total_fits,
    lt→ltb h.id 65536 f.id_fits,
    lt→ltb h.ttl 256 f.ttl_fits,
    lt→ltb h.protocol 256 f.protocol_fits,
    lt→ltb h.src 4294967296 f.src_fits,
    lt→ltb h.dst 4294967296 f.dst_fits,
  )

  pack_csum :
      (c m : ℕ)
      → pack_into (unsummed h ++ replicate m 0) 10 (c / 256 ∷ c % 256 ∷ [])
        ≡ some (write (unsummed h) 10 (c / 256 ∷ c % 256 ∷ []) ++ replicate m 0)
  unfolding unsummed
  pack_csum c m = rw (le→leb 12 (length (unsummed h ++ replicate m 0)) (omega arith))

  -- The view of the frame behind the header.
  build_payload-summed :
      (payload : Payload) (rest built : Bytes)
      → payload_build (plain payload h) rest ≡ some built
      → build_payload (plain payload h) (summed h ++ rest) ≡ some (summed h ++ built)
  unfolding build_payload summed unsummed
  build_payload-summed payload rest built e = rw e

  -- With fields that fit, the header goes in front of what the payload writes into the rest of the
  -- frame.
  pub ip_build-summed :
      (payload : Payload) (slack : ℕ) (built : Bytes)
      → Fits h
      → payload_build (plain payload h) (replicate (h.len + slack) 0) ≡ some built
      → ip_build (plain payload h) (replicate (20 + (h.len + slack)) 0) ≡ some (summed h ++ built)
  unfolding ip_build build_opts summed
  ip_build-summed payload slack built f e =
      let m = h.len + slack in
      let c = inet_csum_little (unsummed h) 0 in
      rw
        (
          ip_header-unsummed payload f,
          pack_front 20 m (unsummed h) length-unsummed,
          inet_csum_little-zeros (unsummed h) m 0,
          lt→ltb c 65536 (csum-fits (unsummed h) 0),
          pack_csum c m,
        )
        (build_payload-summed payload (replicate m 0) built e)
