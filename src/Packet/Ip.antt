-- ===== src/Packet/Ip.antt =====
-- tipy/protocols/ip/builder.py: an IP header, its options and its payload are written into a frame.
-- The host is little-endian; `none` is an exception. The payload is another builder.
pub mod Options
pub mod Built
pub mod Delivered
use tipy.Common.{
  ℕ, zero, suc, ◌+◌, ◌-◌, ◌*◌, ◌/◌, ◌%◌, Bool, true, false, ◌&&◌, ◌||◌, Option, none, some, List,
  [], ◌∷◌, ◌++◌, length, take, drop, replicate, if◌then◌else◌, ltb, leb, bit, ◌==◌,
}
use tipy.Wire.Struct.{Bytes, ◌>>=◌, pack_b, pack_h, pack_l, pack_all, pack_into}
use tipy.Wire.Csum.{inet_csum_little}
use tipy.Wire.Csum.Rfc.{pseudo_sum}
use tipy.Packet.Tcp
use tipy.Packet.Tcp.{TcpBuilder}
use tipy.Packet.Tcp.Rx.{pseudo_header}
use tipy.Packet.Udp.{UdpBuilder, udp_len, udp_build}
use tipy.Packet.Icmp.{IcmpBuilder, icmp_len, icmp_build}
use tipy.Packet.Ip.Options.{IpOpt, opt_len, opts_len, build_opts}

-- `RAWBuilder` has its data.
pub data Payload : Type 0 where
  tcp : TcpBuilder → Payload
  udp : UdpBuilder → Payload
  icmp : IcmpBuilder → Payload
  raw : Bytes → Payload

-- len(self._payload)
unfoldable pub payload_len : Payload → Option ℕ
payload_len (tcp b) = some (Tcp.tcp_len b)
payload_len (udp b) = some (udp_len b)
payload_len (icmp b) = icmp_len b
payload_len (raw payload) = some (length payload)

-- frame[:len(self._data)] = self._data
unfoldable pub raw_build : Bytes → Bytes → Option Bytes
raw_build payload frame = pack_into frame 0 payload

-- `build(frame=frame, phsum=phsum)`: `RAWBuilder.build` has no such parameter.
unfoldable pub build_summed : Payload → Bytes → ℕ → Option Bytes
build_summed (tcp b) frame phsum = Tcp.build b frame phsum
build_summed (udp b) frame phsum = udp_build b frame phsum
build_summed (icmp b) frame phsum = icmp_build b frame
build_summed (raw payload) frame phsum = none

-- `build(frame=frame)`: the builders of TCP and UDP want `phsum`.
unfoldable pub build_alone : Payload → Bytes → Option Bytes
unfolding raw_build
build_alone (tcp b) frame = none
build_alone (udp b) frame = none
build_alone (icmp b) frame = icmp_build b frame
build_alone (raw payload) frame = raw_build payload frame

-- `options` is empty for None too.
pub record IpBuilder : Type 0 where
  pub payload : Payload
  pub payload_length : ℕ
  pub id : ℕ
  pub offset : ℕ
  pub flag_df : Bool
  pub flag_mf : Bool
  pub ttl : ℕ
  pub protocol : ℕ
  pub options : List IpOpt
  pub ihl : ℕ
  pub total_len : ℕ
  pub src : ℕ
  pub dst : ℕ

-- IP_IHL, and with options the words that they take
unfoldable pub ihl_of : List IpOpt → Option ℕ
ihl_of options = do n ← opts_len options; some (n / 4 + 5)

-- `IPBuilder.__init__`, with the arguments that `tx_ip` gives
unfoldable pub ip_builder : Payload → ℕ → ℕ → ℕ → List IpOpt → ℕ → ℕ → Option IpBuilder
unfolding payload_len ihl_of
ip_builder payload id ttl protocol options src dst = do
  n ← payload_len payload
  ihl ← ihl_of options
  some record {
    payload = payload;
    payload_length = n;
    id = id;
    offset = 0;
    flag_df = false;
    flag_mf = false;
    ttl = ttl;
    protocol = protocol;
    options = options;
    ihl = ihl;
    total_len = ihl * 4 + n;
    src = src;
    dst = dst;
  }

-- `IPBuilder.__len__`
unfoldable pub ip_len : IpBuilder → Option ℕ
ip_len b = do n ← payload_len b.payload; some (b.ihl * 4 + n)

-- `IPBuilder.psum`
unfoldable pub psum : IpBuilder → Option ℕ
unfolding pseudo_header
psum b = do
  phdr ← pseudo_header b.src b.dst b.protocol (b.total_len - b.ihl * 4)
  some (pseudo_sum 3 phdr)

-- n | flag << k, where `power` is 2 ^ k
unfoldable pub or_bit : ℕ → Bool → ℕ → ℕ
or_bit power flag n = if flag && (n / power % 2 == 0) then n + power else n

-- The header without its options. IP_VERSION is 4, and the flags stand over the offset.
unfoldable pub ip_header : IpBuilder → Option Bytes
unfolding or_bit
ip_header b = pack_all (
    pack_b (or_bit 64 true b.ihl)
    ∷ pack_b 0
    ∷ pack_h b.total_len
    ∷ pack_h b.id
    ∷ pack_h (or_bit 16384 b.flag_df (or_bit 8192 b.flag_mf b.offset))
    ∷ pack_b b.ttl
    ∷ pack_b b.protocol
    ∷ pack_h 0
    ∷ pack_l b.src
    ∷ pack_l b.dst
    ∷ [])

-- The protocols of NEED_P_HDR_SUM
abbrev pub need_p_hdr_sum : ℕ → Bool
need_p_hdr_sum protocol = (protocol == 6) || (protocol == 17)

-- The call of the payload's `build`
unfoldable pub payload_build : IpBuilder → Bytes → Option Bytes
unfolding psum build_summed build_alone
payload_build b frame =
    if need_p_hdr_sum b.protocol
    then (do phsum ← psum b; build_summed b.payload frame phsum)
    else build_alone b.payload frame

-- It writes into `frame[ihl * 4:]`, a view of the frame.
unfoldable pub build_payload : IpBuilder → Bytes → Option Bytes
unfolding payload_build
build_payload b frame = do
  built ← payload_build b (drop (b.ihl * 4) frame)
  some (take (b.ihl * 4) frame ++ built)

-- `IPBuilder.build`: the checksum is over the whole frame, as it is before the payload is written.
unfoldable pub ip_build : IpBuilder → Bytes → Option Bytes
unfolding ip_header build_opts build_payload
ip_build b frame = do
  packed ← ip_header b
  frame1 ← pack_into frame 0 packed
  frame2 ← build_opts b.options frame1 20
  csum ← pack_h (inet_csum_little frame2 0)
  frame3 ← pack_into frame2 10 csum
  build_payload b frame3
