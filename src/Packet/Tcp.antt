-- ===== src/Packet/Tcp.antt =====
-- tipy/protocols/tcp/builder.py: a TCP segment is written into a frame. The host is
-- little-endian, so `inet_csum` is `inet_csum_little`. `none` is an exception: struct.error,
-- ValueError for a slice of the wrong size, or ValueError for more than 40 bytes of options.
pub mod Parse
pub mod Options
pub mod Header
pub mod RoundTrip
pub mod Padding
pub mod Rx
use tipy.Common.{
  ℕ, zero, suc, ◌+◌, ◌-◌, ◌*◌, ◌/◌, ◌%◌, Bool, true, false, Option, none, some, List, [], ◌∷◌, ◌++◌,
  length, replicate, if◌then◌else◌, ltb, leb, bit, ◌==◌,
}
use tipy.Wire.Struct.{Bytes, ◌>>=◌, pack_b, pack_h, pack_l, pack_all, pack_into}
use tipy.Wire.Csum.{inet_csum_little}

-- MSS of config.py
abbrev pub mss : ℕ
mss = 1460

-- `TCPOptEOL(count)`, `TCPOptNOP()`, `TCPOptMSS()`
pub data TcpOpt : Type 0 where
  opt_eol : ℕ → TcpOpt
  opt_nop opt_mss : TcpOpt

abbrev pub opt_len : TcpOpt → ℕ
opt_len (opt_eol count) = count
opt_len opt_nop = 1
opt_len opt_mss = 4

-- The bytes of an option. The format of TCPOptEOL has `count` values, and one is given.
abbrev pub opt_bytes : TcpOpt → Option Bytes
opt_bytes (opt_eol count) = if count == 1 then some (0 ∷ []) else none
opt_bytes opt_nop = pack_b 1
opt_bytes opt_mss = pack_all (pack_b 2 ∷ pack_b 4 ∷ pack_h mss ∷ [])

unfoldable pub opts_len : List TcpOpt → ℕ
opts_len [] = 0
opts_len (o ∷ os) = opt_len o + opts_len os

unfoldable pub tcp_opt_padding : List TcpOpt → List TcpOpt
unfolding opts_len
tcp_opt_padding opts =
    let pad = (4 - opts_len opts % 4) % 4 in if pad == 0 then opts else (opts ++ (opt_eol pad ∷ []))

-- `TCPOptBuilder(options)`
unfoldable pub tcp_opt_builder : List TcpOpt → Option (List TcpOpt)
unfolding opts_len tcp_opt_padding
tcp_opt_builder opts = if ltb 40 (opts_len opts) then none else some (tcp_opt_padding opts)

-- `TCPOptBuilder.build`
unfoldable pub build_opts : List TcpOpt → Bytes → ℕ → Option Bytes
build_opts [] frame offset = some frame
build_opts (o ∷ os) frame offset = do
  packed ← opt_bytes o
  frame' ← pack_into frame offset packed
  build_opts os frame' (offset + opt_len o)

-- `options` is empty for `None` too: an empty TCPOptBuilder is false.
pub record TcpBuilder : Type 0 where
  pub src : ℕ
  pub dst : ℕ
  pub seq : ℕ
  pub ack_seq : ℕ
  pub cwr : Bool
  pub ece : Bool
  pub urg : Bool
  pub ack : Bool
  pub psh : Bool
  pub rst : Bool
  pub syn : Bool
  pub fin : Bool
  pub window : ℕ
  pub urg_ptr : ℕ
  pub options : List TcpOpt
  pub payload : Bytes

unfoldable pub doff : TcpBuilder → ℕ
unfolding opts_len
doff b = opts_len b.options / 4 + 5

-- `TCPBuilder.__len__`
unfoldable pub tcp_len : TcpBuilder → ℕ
unfolding doff
tcp_len b = doff b * 4 + length b.payload

-- the data offset and the flags
unfoldable pub doff_flags : TcpBuilder → ℕ
unfolding doff
doff_flags b =
    doff b * 4096
    + bit b.cwr * 128
    + bit b.ece * 64
    + bit b.urg * 32
    + bit b.ack * 16
    + bit b.psh * 8
    + bit b.rst * 4
    + bit b.syn * 2
    + bit b.fin

unfoldable pub header : TcpBuilder → Option Bytes
unfolding doff_flags
header b = pack_all (
    pack_h b.src
    ∷ pack_h b.dst
    ∷ pack_l b.seq
    ∷ pack_l b.ack_seq
    ∷ pack_h (doff_flags b)
    ∷ pack_h b.window
    ∷ pack_h 0
    ∷ pack_h b.urg_ptr
    ∷ [])

-- `TCPBuilder.build`
unfoldable pub build : TcpBuilder → Bytes → ℕ → Option Bytes
unfolding header build_opts opts_len inet_csum_little
build b frame phsum = do
  packed ← header b
  frame1 ← pack_into frame 0 packed
  frame2 ← build_opts b.options frame1 20
  frame3 ← pack_into frame2 (20 + opts_len b.options) b.payload
  csum ← pack_h (inet_csum_little frame3 phsum)
  pack_into frame3 16 csum

-- `TCPBuilder.to_bytes`
unfoldable pub to_bytes : TcpBuilder → ℕ → Option Bytes
unfolding build tcp_len
to_bytes b ps_hdr_sum = build b (replicate (tcp_len b) 0) ps_hdr_sum
