-- ===== src/Packet/Udp.antt =====
-- tipy/protocols/udp: a datagram is written into a frame (builder.py), read (parser.py), and
-- received (rx.py). The host is little-endian; `none` is an exception.
pub mod Built
pub mod Received
use tipy.Common.{
  ℕ, suc, ◌+◌, ◌/◌, ◌%◌, Bool, true, false, Option, none, some, List, [], ◌∷◌, ◌++◌, length, take,
  drop, replicate, if◌then◌else◌, ltb, ◌==◌,
}
use tipy.Wire.Struct.{Bytes, ◌>>=◌, pack_h, pack_all, pack_into, unpack_h}
use tipy.Wire.Csum.{inet_csum_little}
use tipy.Wire.Csum.Rfc.{pseudo_sum}
use tipy.Packet.Tcp.Rx.{SockId, pseudo_header}

pub record UdpBuilder : Type 0 where
  pub src : ℕ
  pub dst : ℕ
  pub payload : Bytes

-- `UDPBuilder.__len__`
unfoldable pub udp_len : UdpBuilder → ℕ
udp_len b = length b.payload + 8

-- `UDPBuilder.build`
unfoldable pub udp_build : UdpBuilder → Bytes → ℕ → Option Bytes
unfolding udp_len
udp_build b frame phsum = do
  packed ←
      pack_all (pack_h b.src ∷ pack_h b.dst ∷ pack_h (udp_len b) ∷ pack_h 0 ∷ some b.payload ∷ [])
  frame1 ← pack_into frame 0 packed
  csum ← pack_h (inet_csum_little frame1 phsum)
  pack_into frame1 6 csum

-- `UDPBuilder.to_bytes`
unfoldable pub udp_to_bytes : UdpBuilder → ℕ → Option Bytes
unfolding udp_build
udp_to_bytes b ps_hdr_sum = udp_build b (replicate (udp_len b) 0) ps_hdr_sum

-- The properties of `UDPParser`.
abbrev pub udp_src : Bytes → Option ℕ
udp_src frame = unpack_h frame 0

abbrev pub udp_dst : Bytes → Option ℕ
udp_dst frame = unpack_h frame 2

abbrev pub udp_length : Bytes → Option ℕ
udp_length frame = unpack_h frame 4

abbrev pub udp_chksum : Bytes → Option ℕ
udp_chksum frame = unpack_h frame 6

abbrev pub udp_data : Bytes → Bytes
udp_data frame = drop 8 frame

abbrev pub udp_header : Bytes → Bytes
udp_header frame = take 8 frame

-- `len(packet_rx.udp)`: the length of the header
abbrev pub udp_parser_len : ℕ
udp_parser_len = 8

-- The datagram is dropped, its data are appended to the queue of a socket, the sender is told that
-- the port is unreachable, or an exception is raised.
pub data UdpInput : Type 0 where
  dropped raised : UdpInput
  get_data : SockId → Bytes → UdpInput
  port_unreachable : UdpInput

-- From the checksum on.
unfoldable pub demultiplex : (SockId → Bool) → ℕ → ℕ → Bytes → Option UdpInput
demultiplex sockets src_ip dst_ip frame = do
  dst ← udp_dst frame
  src ← udp_src frame
  let sock_id : SockId = record {
    local_ip = dst_ip;
    local_port = dst;
    remote_ip = src_ip;
    remote_port = src;
  }
  some (if sockets sock_id then get_data sock_id (udp_data frame) else port_unreachable)

unfoldable pub rx_summed : (SockId → Bool) → ℕ → ℕ → Bytes → Bytes → UdpInput
unfolding demultiplex
rx_summed sockets src_ip dst_ip frame phdr =
    if inet_csum_little frame (pseudo_sum 3 phdr) == 0
    then elim (demultiplex sockets src_ip dst_ip frame) [ none ↦ raised | some input ↦ input ]
    else dropped

unfoldable pub rx_udp : (SockId → Bool) → ℕ → ℕ → ℕ → Bytes → UdpInput
unfolding pseudo_header rx_summed
rx_udp sockets src_ip dst_ip protocol frame =
    if ltb (length frame) 8
    then dropped
    else elim (pseudo_header src_ip dst_ip protocol udp_parser_len) [
      | none ↦ raised
      | some phdr ↦ rx_summed sockets src_ip dst_ip frame phdr
    ]
