-- ===== src/Packet/Ether.antt =====
-- tipy/protocols/ether: frames are built, put on the wire by tipy/components/tx_ring.py, and handed
-- to the protocol of their type. `none` is an exception.
pub mod Wired
use tipy.Common.{
  ℕ, ◌+◌, ◌*◌, ◌/◌, ◌%◌, Bool, true, false, Option, none, some, List, [], ◌∷◌, ◌++◌, length, take,
  drop, replicate, if◌then◌else◌, ◌==◌,
}
use tipy.Wire.Struct.{Bytes, ◌>>=◌, pack_h, pack_l, pack_all, pack_into, unpack_h}
use tipy.Packet.Arp.{ArpBuilder, arp_build, arp_len, mac_high, mac_low, unpack_mac}
use tipy.Packet.Ip.{IpBuilder, ip_build, ip_len}

pub data EtherPayload : Type 0 where
  ip : IpBuilder → EtherPayload
  arp : ArpBuilder → EtherPayload

pub record EtherBuilder : Type 0 where
  pub dst : ℕ
  pub src : ℕ
  pub type_ : ℕ
  pub payload : EtherPayload

unfoldable pub payload_build : EtherPayload → Bytes → Option Bytes
payload_build (ip b) frame = ip_build b frame
payload_build (arp b) frame = arp_build b frame

unfoldable pub payload_len : EtherPayload → Option ℕ
payload_len (ip b) = ip_len b
payload_len (arp b) = some arp_len

-- The header: '! IH IH H'
unfoldable pub ether_header : EtherBuilder → Option Bytes
ether_header b = pack_all (
    pack_l (mac_high b.dst)
    ∷ pack_h (mac_low b.dst)
    ∷ pack_l (mac_high b.src)
    ∷ pack_h (mac_low b.src)
    ∷ pack_h b.type_
    ∷ [])

-- `EtherBuilder.build`: the payload writes into `frame[14:]`.
unfoldable pub ether_build : EtherBuilder → Bytes → Option Bytes
unfolding ether_header payload_build
ether_build b frame = do
  packed ← ether_header b
  frame1 ← pack_into frame 0 packed
  built ← payload_build b.payload (drop 14 frame1)
  some (take 14 frame1 ++ built)

-- `EtherBuilder.__len__`
unfoldable pub ether_len : EtherBuilder → Option ℕ
unfolding payload_len
ether_len b = do n ← payload_len b.payload; some (14 + n)

-- MTU of config.py
abbrev pub mtu : ℕ
mtu = 1500

-- What the loop of the sending ring writes for a frame.
unfoldable pub transmit : EtherBuilder → Option Bytes
unfolding ether_build ether_len
transmit b = do frame ← ether_build b (replicate (mtu + 14) 0); n ← ether_len b; some (take n frame)

-- The properties of `EtherParser`.
abbrev pub ether_dst : Bytes → Option ℕ
ether_dst frame = unpack_mac frame 0

abbrev pub ether_src : Bytes → Option ℕ
ether_src frame = unpack_mac frame 6

abbrev pub ether_type : Bytes → Option ℕ
ether_type frame = unpack_h frame 12

-- The frame goes to `rx_arp` with its destination and source, to `rx_ip`, or is dropped, or an
-- exception is raised.
pub data EtherInput : Type 0 where
  to_arp : ℕ → ℕ → Bytes → EtherInput
  to_ip : Bytes → EtherInput
  dropped raised : EtherInput

-- `ether_protocol_map`: IP is in it once the host has its address.
unfoldable pub ether_protocol : Bool → ℕ → ℕ → ℕ → Bytes → EtherInput
ether_protocol has_ip dst src type_ frame =
    if type_ == 2054
    then to_arp dst src frame
    else (if has_ip then (if type_ == 2048 then to_ip frame else dropped) else dropped)

unfoldable pub rx_parsed : Bool → Bytes → Option EtherInput
unfolding ether_protocol
rx_parsed has_ip frame = do
  dst ← ether_dst frame
  src ← ether_src frame
  type_ ← ether_type frame
  some (ether_protocol has_ip dst src type_ (drop 14 frame))

-- `rx_ether`
unfoldable pub rx_ether : Bool → Bytes → EtherInput
unfolding rx_parsed
rx_ether has_ip frame = elim (rx_parsed has_ip frame) [ none ↦ raised | some input ↦ input ]
