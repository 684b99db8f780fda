-- ===== src/Ip/Rx.antt =====
-- `rx_ip` of tipy/protocols/ip/rx.py with tipy/protocols/ip/parser.py: what becomes of a frame. The
-- host is little-endian. The next layers and the raw sockets are not part of it: what they are
-- given is a delivery.
pub mod Checks
use tipy.Common.{
  ℕ, zero, suc, ◌+◌, ◌-◌, ◌*◌, ◌/◌, ◌%◌, ◌≤◌, ◌<◌, ◌≡◌, refl, sym, ap, ◌∙◌, inl, inr, Bool, true,
  false, not, ◌&&◌, ◌||◌, Bool-cases, Option, none, some, List, [], ◌∷◌, ◌++◌, length, take, drop,
  if◌then◌else◌, ltb, leb, ltb→le, ◌==◌, arith,
}
use tipy.Wire.Struct.{Bytes, ◌>>=◌, unpack_b, unpack_h, unpack_l}
use tipy.Wire.Csum.{inet_csum_little}
use tipy.Ip.Reass.{Fragment, Result, waiting, key_error, struct_error, defragmented}
use tipy.Ip.Cache.{IpCache, ip_reass}

-- The properties of `IPParser` that `rx_ip` reads.
pub record IpPacket : Type 0 where
  pub ihl : ℕ
  pub total_len : ℕ
  pub id : ℕ
  pub flags_fragoff : ℕ
  pub ttl : ℕ
  pub protocol : ℕ
  pub src : ℕ
  pub dst : ℕ
  pub payload : Bytes
  pub header : Bytes

unfoldable pub flag_mf : IpPacket → Bool
flag_mf p = p.flags_fragoff / 8192 % 2 == 1

unfoldable pub fragment_offset : IpPacket → ℕ
fragment_offset p = p.flags_fragoff % 8192

-- `data` is frame[ihl:ihl + total_len].
unfoldable pub ip_parser : Bytes → Option IpPacket
ip_parser frame = do
  first ← unpack_b frame 0
  total_len ← unpack_h frame 2
  id ← unpack_h frame 4
  flags_fragoff ← unpack_h frame 6
  ttl ← unpack_b frame 8
  protocol ← unpack_b frame 9
  src ← unpack_l frame 12
  dst ← unpack_l frame 16
  let ihl = first % 16 * 4
  some record {
    ihl = ihl;
    total_len = total_len;
    id = id;
    flags_fragoff = flags_fragoff;
    ttl = ttl;
    protocol = protocol;
    src = src;
    dst = dst;
    payload = take total_len (drop ihl frame);
    header = take ihl frame;
  }

-- `IPAddress.is_broadcast` and `is_multicast`
unfoldable pub is_broadcast : ℕ → Bool
is_broadcast ip = ip == 4294967295

unfoldable pub is_multicast : ℕ → Bool
is_multicast ip = ip / 268435456 == 14

-- A call of the next layer, of a raw socket's `get_data`, of `tx_icmp` with a type and a code, or
-- an exception.
pub data Delivery : Type 0 where
  next_layer raw_data : ℕ → Bytes → Delivery
  icmp : ℕ → ℕ → Bytes → Delivery
  raised : Delivery

-- The host's address, and whether a raw socket is bound to a local address, a protocol and a
-- remote address.
pub record Core : Type 0 where
  pub unicast_ip : ℕ
  pub rip_socket : ℕ → ℕ → ℕ → Bool

-- The keys of `ip_protocol_map`.
unfoldable pub has_next_layer : ℕ → Bool
has_next_layer protocol =
    (protocol == 255) || ((protocol == 1) || ((protocol == 17) || (protocol == 6)))

-- frame[ihl:total_len]
unfoldable pub next_frame : IpPacket → Bytes → Bytes
next_frame p frame = drop p.ihl (take p.total_len frame)

-- `_icmp_proto_unreach` and `_icmp_ttl_exceeded`
unfoldable pub icmp_about : ℕ → ℕ → IpPacket → Delivery
icmp_about type_ code p = icmp type_ code (p.header ++ take 8 p.payload)

-- The next layer, a raw socket, or an ICMP message, for a packet that is whole.
unfoldable pub deliver : Core → IpPacket → Bytes → Delivery
unfolding has_next_layer next_frame icmp_about
deliver core p frame =
    if has_next_layer p.protocol
    then next_layer p.protocol (next_frame p frame)
    else (if core.rip_socket p.dst p.protocol p.src
        then raw_data p.protocol p.payload
        else icmp_about 3 2 p)

unfoldable pub fragment_of : IpPacket → Fragment
unfolding flag_mf fragment_offset
fragment_of p = record {
  src = p.src;
  dst = p.dst;
  id = p.id;
  protocol = p.protocol;
  ihl = p.ihl;
  dlen = p.total_len - p.ihl;
  offset = fragment_offset p;
  flag_mf = flag_mf p;
  payload = p.payload;
  header = p.header;
}

-- A datagram from `_ip_reass` that has no addresses: an empty one is false, and one of a next
-- layer is passed on, since only the protocol and the lengths are read for it.
unfoldable pub deliver_short : Bytes → List Delivery
unfolding has_next_layer
deliver_short [] = []
deliver_short (first ∷ rest) = elim (unpack_b (first ∷ rest) 9) [
  | none ↦ raised ∷ []
  | some protocol ↦ elim (unpack_h (first ∷ rest) 2) [
    | none ↦ raised ∷ []
    | some total_len ↦
        if has_next_layer protocol
        then next_layer protocol (drop (first % 16 * 4) (take total_len (first ∷ rest))) ∷ []
        else raised ∷ []
  ]
]

-- What `_ip_reass` returned.
unfoldable pub deliver_result : Core → Result → List Delivery
unfolding deliver ip_parser deliver_short
deliver_result core waiting = []
deliver_result core key_error = raised ∷ []
deliver_result core struct_error = raised ∷ []
deliver_result core (defragmented datagram) = elim (ip_parser datagram) [
  | none ↦ deliver_short datagram
  | some p ↦ deliver core p datagram ∷ []
]

unfoldable pub reassemble : Core → IpPacket → IpCache → List Delivery × IpCache
unfolding deliver_result fragment_of ip_reass
reassemble core p c =
    let (result, c') = ip_reass (fragment_of p) c in (deliver_result core result, c')

-- From the check whether the packet is whole on. Behind a raw socket the function goes on to the
-- reassembly.
unfoldable pub accept : Core → IpPacket → Bytes → IpCache → List Delivery × IpCache
unfolding deliver reassemble flag_mf fragment_offset has_next_layer
accept core p frame c =
    let (deliveries, c') = reassemble core p c in
    if (fragment_offset p == 0) && not (flag_mf p)
    then (if has_next_layer p.protocol || not (core.rip_socket p.dst p.protocol p.src)
        then (deliver core p frame ∷ [], c)
        else (deliver core p frame ∷ deliveries, c'))
    else (deliveries, c')

-- The checks, of which the last three are the header's options, the addresses and the time to live.
unfoldable pub rx_parsed : Core → IpPacket → Bytes → IpCache → List Delivery × IpCache
unfolding accept icmp_about is_broadcast is_multicast
rx_parsed core p frame c =
    if not (inet_csum_little (take p.ihl frame) 0 == 0)
    then ([], c)
    else (if ltb 20 p.ihl
        then ([], c)
        else (if is_broadcast p.src || (is_multicast p.src || not (p.dst == core.unicast_ip))
            then ([], c)
            else (if p.ttl == 0 then (icmp_about 11 0 p ∷ [], c) else accept core p frame c)))

unfoldable pub rx_ip : Core → Bytes → IpCache → List Delivery × IpCache
unfolding rx_parsed ip_parser
rx_ip core frame c =
    if ltb (length frame) 20
    then ([], c)
    else elim (ip_parser frame) [ none ↦ (raised ∷ [], c) | some p ↦ rx_parsed core p frame c ]
