-- ===== src/Packet/Icmp.antt =====
-- tipy/protocols/icmp: a message is written into a frame (builder.py), read (parser.py), and
-- received (rx.py). The host is little-endian. An exception of the builder is `none`.
pub mod Built
pub mod Received
use tipy.Common.{
  ℕ, ◌+◌, ◌/◌, ◌%◌, Bool, true, false, ◌&&◌, ◌||◌, Option, none, some, List, [], ◌∷◌, ◌++◌, length,
  take, drop, replicate, write, if◌then◌else◌, ltb, leb, ◌==◌,
}
use tipy.Wire.Struct.{Bytes, ◌>>=◌, pack_b, pack_h, pack_l, pack_all, pack_into, unpack_b, unpack_h}
use tipy.Wire.Csum.{inet_csum_little}
use tipy.Ip.Rx.{Core}

-- `None` of Python is `none`.
pub record IcmpBuilder : Type 0 where
  pub type_ : ℕ
  pub code : ℕ
  pub payload : Option Bytes
  pub echo_id : Option ℕ
  pub echo_seq : Option ℕ

-- `ICMPBuilder.__len__`: None has no length.
unfoldable pub icmp_len : IcmpBuilder → Option ℕ
icmp_len b = do payload ← b.payload; some (length payload + 8)

-- frame[8:8 + len(data)] = data
abbrev pub assign_data : Bytes → Bytes → Option Bytes
assign_data frame payload =
    if leb (8 + length payload) (length frame) then some (write frame 8 payload) else none

-- type in (DESTINATION_UNREACHABLE, TIME_EXCEEDED), and in (ECHO_REQUEST, ECHO_REPLY)
abbrev pub is_error : ℕ → Bool
is_error type_ = (type_ == 3) || (type_ == 11)

abbrev pub is_echo : ℕ → Bool
is_echo type_ = (type_ == 8) || (type_ == 0)

-- `struct.pack` of None is struct.error.
abbrev pub pack_option_h : Option ℕ → Option Bytes
pack_option_h o = do v ← o; pack_h v

-- The eight bytes of the header, the data behind them, and the checksum.
unfoldable pub icmp_fill : Option Bytes → Option Bytes → Bytes → Option Bytes
icmp_fill header payload_option frame = do
  packed ← header
  frame1 ← pack_into frame 0 packed
  payload ← payload_option
  frame2 ← assign_data frame1 payload
  csum ← pack_h (inet_csum_little frame2 0)
  pack_into frame2 2 csum

-- `ICMPBuilder.build`: a message of another type writes nothing.
unfoldable pub icmp_build : IcmpBuilder → Bytes → Option Bytes
unfolding icmp_fill
icmp_build b frame =
    if is_error b.type_
    then icmp_fill (pack_all (pack_b b.type_ ∷ pack_b b.code ∷ pack_h 0 ∷ pack_l 0 ∷ [])) b.payload
        frame
    else (if is_echo b.type_
        then icmp_fill
            (pack_all (
              pack_b b.type_
              ∷ pack_b b.code
              ∷ pack_h 0
              ∷ pack_option_h b.echo_id
              ∷ pack_option_h b.echo_seq
              ∷ []))
            b.payload frame
        else some frame)

-- The properties of `ICMPParser`.
abbrev pub icmp_type : Bytes → Option ℕ
icmp_type frame = unpack_b frame 0

abbrev pub icmp_code : Bytes → Option ℕ
icmp_code frame = unpack_b frame 1

abbrev pub icmp_checksum : Bytes → Option ℕ
icmp_checksum frame = unpack_h frame 2

abbrev pub icmp_echo_id : Bytes → Option ℕ
icmp_echo_id frame = unpack_h frame 4

abbrev pub icmp_echo_seq : Bytes → Option ℕ
icmp_echo_seq frame = unpack_h frame 6

-- `err_data`, `echo_data` and `data`
abbrev pub icmp_data : Bytes → Bytes
icmp_data frame = drop 8 frame

abbrev pub icmp_header : Bytes → Bytes
icmp_header frame = take 8 frame

pub data Exception : Type 0 where
  index_error name_error : Exception

-- The message is dropped or not supported, an exception is raised, an echo reply goes to `tx_icmp`
-- with a source and a destination, a raw socket is given the message, or there is no such socket.
pub data IcmpInput : Type 0 where
  dropped unsupported no_socket : IcmpInput
  raises : Exception → IcmpInput
  tx_icmp : ℕ → ℕ → IcmpBuilder → IcmpInput
  raw_data : Bytes → IcmpInput

-- `_h_icmp_dest_unreach_port` and `_h_icmp_dest_unreach_proto`. They read the first byte of the
-- data, and then call `IPAddress`, which rx.py imports for the type checker only.
unfoldable pub h_icmp_dest_unreach : Bytes → IcmpInput
h_icmp_dest_unreach frame = elim (unpack_b (icmp_data frame) 0) [
  | none ↦ raises index_error
  | some _ ↦ raises name_error
]

-- `_h_icmp_echo_req`: `src` and `dst` are the packet's.
unfoldable pub h_icmp_echo_req : ℕ → ℕ → Bytes → Option IcmpInput
h_icmp_echo_req src dst frame = do
  echo_id ← icmp_echo_id frame
  echo_seq ← icmp_echo_seq frame
  some (
      tx_icmp dst src (record {
        type_ = 0;
        code = 0;
        payload = some (icmp_data frame);
        echo_id = some echo_id;
        echo_seq = some echo_seq;
      }))

-- `_h_icmp_echo_rep`
unfoldable pub h_icmp_echo_rep : Core → ℕ → ℕ → ℕ → Bytes → IcmpInput
h_icmp_echo_rep core src dst protocol frame =
    if core.rip_socket dst protocol src then raw_data frame else no_socket

-- The call of the entry of `icmp_map`.
unfoldable pub handle_icmp : Core → ℕ → ℕ → ℕ → ℕ → ℕ → Bytes → Option IcmpInput
unfolding h_icmp_dest_unreach h_icmp_echo_req h_icmp_echo_rep
handle_icmp core src dst protocol type_ code frame =
    if (type_ == 3) && ((code == 3) || (code == 2))
    then some (h_icmp_dest_unreach frame)
    else (if (type_ == 8) && (code == 0)
        then h_icmp_echo_req src dst frame
        else (if (type_ == 0) && (code == 0)
            then some (h_icmp_echo_rep core src dst protocol frame)
            else some unsupported))

-- The type and the code, of which a frame of eight bytes has both.
unfoldable pub dispatch : Core → ℕ → ℕ → ℕ → Bytes → Option IcmpInput
unfolding handle_icmp
dispatch core src dst protocol frame = do
  type_ ← icmp_type frame
  code ← icmp_code frame
  handle_icmp core src dst protocol type_ code frame

unfoldable pub rx_icmp : Core → ℕ → ℕ → ℕ → Bytes → IcmpInput
unfolding dispatch
rx_icmp core src dst protocol frame =
    if ltb (length frame) 8
    then dropped
    else (if inet_csum_little frame 0 == 0
        then elim (dispatch core src dst protocol frame) [
          | none ↦ raises index_error
          | some input ↦ input
        ]
        else dropped)
