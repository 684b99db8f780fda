-- ===== src/Packet/Udp/Received.antt =====
-- What tipy/protocols/udp/rx.py does with the datagrams that builder.py writes.
use tipy.Common.{
  ℕ, ◌+◌, ◌*◌, ◌/◌, ◌%◌, ◌<◌, ◌≡◌, ◌≢◌, refl, ap, ◌∙◌, Bool, true, false, Option, none, some, [],
  ◌∷◌, append-nil, length, replicate, if◌then◌else◌, lt→ltb, le→ltb, ◌==◌, arith,
}
use tipy.Wire.Struct.{Bytes}
use tipy.Wire.Csum.{
  inet_csum_little, sum_cast, little_word, sum_words, fold_carries, swap_bytes, complement,
}
use tipy.Wire.Csum.Words.{little_sum, SameFold}
use tipy.Wire.Csum.Rfc.{IsSum, folded-IsSum, pseudo_sum}
use tipy.Packet.Tcp.Rx.{SockId, pseudo_header}
use tipy.Packet.Udp.{
  UdpBuilder, udp_len, udp_build, udp_to_bytes, udp_parser_len, UdpInput, dropped, raised, get_data,
  port_unreachable, demultiplex, rx_summed, rx_udp,
}
use tipy.Packet.Udp.Built.{Fits, summed, unsummed, length-summed, filled-summed, udp_build-summed}

pseudo_image : ℕ → ℕ → ℕ → ℕ → Bytes
pseudo_image src_ip dst_ip protocol l =
    src_ip / 16777216
    ∷ src_ip / 65536 % 256
    ∷ src_ip / 256 % 256
    ∷ src_ip % 256
    ∷ dst_ip / 16777216
    ∷ dst_ip / 65536 % 256
    ∷ dst_ip / 256 % 256
    ∷ dst_ip % 256
    ∷ 0
    ∷ protocol
    ∷ l / 256
    ∷ l % 256
    ∷ []

pseudo_header-image :
    (src_ip dst_ip protocol l : ℕ)
    → src_ip < 4294967296
    → dst_ip < 4294967296
    → protocol < 256
    → l < 65536
    → pseudo_header src_ip dst_ip protocol l ≡ some (pseudo_image src_ip dst_ip protocol l)
unfolding pseudo_header pseudo_image
pseudo_header-image src_ip dst_ip protocol l s d p h = rw (
  lt→ltb src_ip 4294967296 s,
  lt→ltb dst_ip 4294967296 d,
  lt→ltb protocol 256 p,
  lt→ltb l 65536 h,
)

-- How the sum of the pseudo header depends on the length in it.
pseudo_sum-length :
    (src_ip dst_ip protocol l : ℕ)
    → pseudo_sum 3 (pseudo_image src_ip dst_ip protocol l) + 16777216 * 8
      ≡ pseudo_sum 3 (pseudo_image src_ip dst_ip protocol 8)
        + 65536 * (l / 256)
        + 16777216 * (l % 256)
unfolding pseudo_sum sum_cast little_word pseudo_image
pseudo_sum-length src_ip dst_ip protocol l = omega arith

-- A frame that passes the check has a sum that is a multiple of 65535.
summed_zero :
    (frame : Bytes) (init : ℕ)
    → inet_csum_little frame init ≡ 0
    → (init + little_sum frame) % 65535 ≡ 0
unfolding inet_csum_little IsSum SameFold complement swap_bytes
summed_zero frame init e =
    let s = fold_carries (sum_words little_word frame init) in
    let (lt, (r, z)) = folded-IsSum frame init in let ones : s ≡ 65535 = omega arith in omega arith

-- Only the length of an empty datagram passes with the length 8 in the pseudo header.
wrong_length :
    (right wrong total l : ℕ)
    → right + 16777216 * 8 ≡ wrong + 65536 * (l / 256) + 16777216 * (l % 256)
    → l < 65536
    → (right + total) % 65535 ≡ 0
    → (wrong + total) % 65535 ≡ 0
    → l ≡ 8
wrong_length right wrong total l e h r w = omega arith

module _ (src_ip dst_ip protocol : ℕ) (b : UdpBuilder) where
  right_sum : ℕ
  right_sum = pseudo_sum 3 (pseudo_image src_ip dst_ip protocol (udp_len b))

  wrong_sum : ℕ
  wrong_sum = pseudo_sum 3 (pseudo_image src_ip dst_ip protocol 8)

  empty_of_zero :
      Fits b → inet_csum_little (summed b right_sum) wrong_sum ≡ 0 → length b.payload ≡ 0
  unfolding right_sum wrong_sum udp_len
  empty_of_zero f e =
      let l =
        wrong_length right_sum wrong_sum (little_sum (summed b right_sum)) (udp_len b)
          (pseudo_sum-length src_ip dst_ip protocol (udp_len b)) f.len_fits
          (summed_zero (summed b right_sum) right_sum (filled-summed b right_sum))
          (summed_zero (summed b right_sum) wrong_sum e) in
      omega arith

udp_to_bytes-summed :
    (b : UdpBuilder) (phsum : ℕ) → Fits b → udp_to_bytes b phsum ≡ some (summed b phsum)
unfolding udp_to_bytes
udp_to_bytes-summed b phsum f =
    ap (λ n. udp_build b (replicate n 0) phsum) (plus_zero (udp_len b))
    ∙ udp_build-summed b 0 phsum f
    ∙ ap some (append-nil (summed b phsum))
  where
    plus_zero : (n : ℕ) → n ≡ n + 0
    plus_zero n = omega arith

-- The connection that a datagram is for.
abbrev pub sock_id_of : ℕ → ℕ → UdpBuilder → SockId
sock_id_of src_ip dst_ip b = record {
  local_ip = dst_ip;
  local_port = b.dst;
  remote_ip = src_ip;
  remote_port = b.src;
}

module _ (sockets : SockId → Bool) (src_ip dst_ip protocol : ℕ) (b : UdpBuilder) (f : Fits b) where
  empty_or_dropped : UdpInput
  empty_or_dropped =
      if length b.payload == 0
      then (if sockets (sock_id_of src_ip dst_ip b)
          then get_data (sock_id_of src_ip dst_ip b) []
          else port_unreachable)
      else dropped

  demultiplex-summed :
      (phsum : ℕ)
      → demultiplex sockets src_ip dst_ip (summed b phsum)
        ≡ some (
            if sockets (sock_id_of src_ip dst_ip b)
            then get_data (sock_id_of src_ip dst_ip b) b.payload
            else port_unreachable)
  unfolding demultiplex summed unsummed
  demultiplex-summed phsum = ap2 (halves b.dst) (halves b.src)
    where
      halves : (v : ℕ) → v / 256 * 256 + v % 256 ≡ v
      halves v = omega arith

      ap2 :
          {d s : ℕ}
          → d ≡ b.dst
          → s ≡ b.src
          → some (
              let id : SockId = record {
                local_ip = dst_ip;
                local_port = d;
                remote_ip = src_ip;
                remote_port = s;
              } in
              if sockets id then get_data id b.payload else port_unreachable)
            ≡ some (
                if sockets (sock_id_of src_ip dst_ip b)
                then get_data (sock_id_of src_ip dst_ip b) b.payload
                else port_unreachable)
      ap2 p q = rw (p, q)

  delivered : Option UdpInput → UdpInput
  delivered o = elim o as (λ _. UdpInput) [ none ↦ raised | some input ↦ input ]

  when_empty :
      (payload : Bytes)
      → length payload ≡ 0
      → delivered (
          some (
            if sockets (sock_id_of src_ip dst_ip b)
            then get_data (sock_id_of src_ip dst_ip b) payload
            else port_unreachable))
        ≡ (if length payload == 0
            then (if sockets (sock_id_of src_ip dst_ip b)
                then get_data (sock_id_of src_ip dst_ip b) []
                else port_unreachable)
            else dropped)
  unfolding delivered
  when_empty [] e = refl
  when_empty (x ∷ xs) e = absurd (omega arith)

  zero_of_empty :
      length b.payload ≡ 0
      → inet_csum_little
          (summed b (right_sum src_ip dst_ip protocol b))
          (wrong_sum src_ip dst_ip protocol b)
        ≡ 0
  unfolding right_sum wrong_sum udp_len
  zero_of_empty e =
      ap
        (λ n.
          inet_csum_little (summed b (right_sum src_ip dst_ip protocol b))
            (pseudo_sum 3 (pseudo_image src_ip dst_ip protocol n)))
        (eight (length b.payload) e)
      ∙ filled-summed b (right_sum src_ip dst_ip protocol b)
    where
      eight : (n : ℕ) → n ≡ 0 → 8 ≡ n + 8
      eight n e = omega arith

  rx_summed-summed :
      rx_summed sockets src_ip dst_ip
        (summed b (right_sum src_ip dst_ip protocol b))
        (pseudo_image src_ip dst_ip protocol 8)
      ≡ empty_or_dropped
  unfolding rx_summed empty_or_dropped wrong_sum delivered
  rx_summed-summed =
      go (inet_csum_little (summed b ps) (wrong_sum src_ip dst_ip protocol b) == 0) refl
    where
      ps : ℕ
      ps = right_sum src_ip dst_ip protocol b

      equal_of : (n : ℕ) → (n == 0) ≡ true → n ≡ 0
      equal_of n e = ground arith

      apart_of : (n : ℕ) (x y : UdpInput) → n ≢ 0 → y ≡ (if n == 0 then x else y)
      apart_of n x y e = ground arith

      not_zero : (n : ℕ) → (n == 0) ≡ false → n ≢ 0
      not_zero n e = λ h. ground arith

      go :
          (z : Bool)
          → (inet_csum_little (summed b ps) (wrong_sum src_ip dst_ip protocol b) == 0) ≡ z
          → (if z then delivered (demultiplex sockets src_ip dst_ip (summed b ps)) else dropped)
            ≡ empty_or_dropped
      go true e =
          ap delivered (demultiplex-summed ps)
          ∙ when_empty b.payload (empty_of_zero src_ip dst_ip protocol b f (equal_of _ e))
      go false e = apart_of (length b.payload) _ dropped (λ h. not_zero _ e (zero_of_empty h))

  rx_udp-summed :
      src_ip < 4294967296
      → dst_ip < 4294967296
      → protocol < 256
      → rx_udp sockets src_ip dst_ip protocol (summed b (right_sum src_ip dst_ip protocol b))
        ≡ empty_or_dropped
  unfolding rx_udp udp_len
  rx_udp-summed s d p =
      let frame = summed b (right_sum src_ip dst_ip protocol b) in
      let received : Option Bytes → UdpInput = λ o. elim o as (λ _. UdpInput) [
        | none ↦ raised
        | some phdr ↦ rx_summed sockets src_ip dst_ip frame phdr
      ] in
      ap
        (λ t. if t then dropped else received (pseudo_header src_ip dst_ip protocol udp_parser_len))
        (le→ltb (length frame) 8
          (omega (arith, length-summed b (right_sum src_ip dst_ip protocol b))))
      ∙ ap received (pseudo_header-image src_ip dst_ip protocol 8 s d p (omega arith))
      ∙ rx_summed-summed

-- A datagram whose fields fit is built with the sum of its pseudo header. If it has no data, the
-- receiver gives them to the socket of its addresses and ports, or answers that the port is
-- unreachable; every datagram with data is dropped.
pub udp_to_bytes-rx_udp :
    (sockets : SockId → Bool) (src_ip dst_ip protocol : ℕ) (b : UdpBuilder)
    → Fits b
    → src_ip < 4294967296
    → dst_ip < 4294967296
    → protocol < 256
    → (phdr : Bytes) × (frame : Bytes) × (pseudo_header src_ip dst_ip protocol (udp_len b)
        ≡ some phdr)
      × (udp_to_bytes b (pseudo_sum 3 phdr) ≡ some frame)
      × (rx_udp sockets src_ip dst_ip protocol frame ≡ (
          if length b.payload == 0
          then (if sockets (sock_id_of src_ip dst_ip b)
              then get_data (sock_id_of src_ip dst_ip b) []
              else port_unreachable)
          else dropped))
unfolding right_sum empty_or_dropped
udp_to_bytes-rx_udp sockets src_ip dst_ip protocol b f s d p = (
  pseudo_image src_ip dst_ip protocol (udp_len b),
  summed b (right_sum src_ip dst_ip protocol b),
  pseudo_header-image src_ip dst_ip protocol (udp_len b) s d p f.len_fits,
  udp_to_bytes-summed b (right_sum src_ip dst_ip protocol b) f,
  rx_udp-summed sockets src_ip dst_ip protocol b f s d p,
)
