-- ===== src/Packet/Arp.antt =====
-- The bytes of an ARP packet: tipy/protocols/arp/builder.py and parser.py, and `rx_arp` of rx.py
-- from its frame on. A MAC address is its integer; `none` is an exception.
pub mod Received
use tipy.Common.{
  ℕ, ◌+◌, ◌*◌, ◌/◌, ◌%◌, Bool, true, false, Option, none, some, List, [], ◌∷◌, ◌++◌, length,
  if◌then◌else◌, ltb, ◌==◌,
}
use tipy.Wire.Struct.{
  Bytes, ◌>>=◌, pack_b, pack_h, pack_l, pack_all, pack_into, unpack_b, unpack_h, unpack_l,
}
use tipy.Arp.{ArpState, Host, rx_arp_reply, rx_arp_request}

-- `MACAddress.mac_high` and `mac_low`, and the address that a parser makes of the two
abbrev pub mac_high : ℕ → ℕ
mac_high mac = mac / 65536

abbrev pub mac_low : ℕ → ℕ
mac_low mac = mac % 65536

abbrev pub unpack_mac : Bytes → ℕ → Option ℕ
unpack_mac frame offset = do
  i ← unpack_l frame offset
  h ← unpack_h frame (offset + 4)
  some (i * 65536 + h)

pub record ArpBuilder : Type 0 where
  pub sha : ℕ
  pub spa : ℕ
  pub tha : ℕ
  pub tpa : ℕ
  pub op : ℕ

-- The packet: '! H H B B H I H I I H I'
unfoldable pub arp_packed : ArpBuilder → Option Bytes
arp_packed b = pack_all (
    pack_h 1
    ∷ pack_h 2048
    ∷ pack_b 6
    ∷ pack_b 4
    ∷ pack_h b.op
    ∷ pack_l (mac_high b.sha)
    ∷ pack_h (mac_low b.sha)
    ∷ pack_l b.spa
    ∷ pack_l (mac_high b.tha)
    ∷ pack_h (mac_low b.tha)
    ∷ pack_l b.tpa
    ∷ [])

-- `ARPBuilder.build`
unfoldable pub arp_build : ArpBuilder → Bytes → Option Bytes
unfolding arp_packed
arp_build b frame = do packed ← arp_packed b; pack_into frame 0 packed

-- `ARPBuilder.__len__`
abbrev pub arp_len : ℕ
arp_len = 28

-- The properties of `ARPParser`.
abbrev pub arp_hwtype : Bytes → Option ℕ
arp_hwtype frame = unpack_h frame 0

abbrev pub arp_ptype : Bytes → Option ℕ
arp_ptype frame = unpack_h frame 2

abbrev pub arp_hwlen : Bytes → Option ℕ
arp_hwlen frame = unpack_b frame 4

abbrev pub arp_plen : Bytes → Option ℕ
arp_plen frame = unpack_b frame 5

abbrev pub arp_op : Bytes → Option ℕ
arp_op frame = unpack_h frame 6

abbrev pub arp_sha : Bytes → Option ℕ
arp_sha frame = unpack_mac frame 8

abbrev pub arp_spa : Bytes → Option ℕ
arp_spa frame = unpack_l frame 14

abbrev pub arp_tha : Bytes → Option ℕ
arp_tha frame = unpack_mac frame 18

abbrev pub arp_tpa : Bytes → Option ℕ
arp_tpa frame = unpack_l frame 24

module _ {D : Type 0} where
  -- By the operation, of which 2 is ARP_OP_REPLY and 1 is ARP_OP_REQUEST; the frame went from `src`
  -- to `dst`.
  unfoldable pub rx_arp_op : Host → ℕ → ℕ → ℕ → ℕ → ℕ → ℕ → ArpState D → ArpState D
  rx_arp_op host dst src op sha spa tpa s =
      if op == 2
      then rx_arp_reply host dst spa sha s
      else (if op == 1 then rx_arp_request host src spa tpa s else s)

  unfoldable pub rx_arp_parsed : Host → ℕ → ℕ → Bytes → ArpState D → Option (ArpState D)
  unfolding rx_arp_op
  rx_arp_parsed host dst src frame s = do
    op ← arp_op frame
    sha ← arp_sha frame
    spa ← arp_spa frame
    tpa ← arp_tpa frame
    some (rx_arp_op host dst src op sha spa tpa s)

  -- `rx_arp`, for a host that has an address
  unfoldable pub rx_arp : Host → ℕ → ℕ → Bytes → ArpState D → Option (ArpState D)
  unfolding rx_arp_parsed
  rx_arp host dst src frame s =
      let received = rx_arp_parsed host dst src frame s in
      if ltb (length frame) 28 then some s else received
