-- ===== src/Packet/Tcp/Parse.antt =====
-- tipy/protocols/tcp/parser.py: the fields of a received segment. `none` is an index out of range.
use tipy.Common.{
  ℕ, zero, suc, ◌+◌, ◌-◌, ◌*◌, ◌/◌, ◌%◌, Bool, true, false, Option, none, some, length, drop, ltb,
  ◌==◌,
}
use tipy.Wire.Struct.{Bytes, ◌>>=◌, unpack_b, unpack_h, unpack_l}
use tipy.Tcp.Types.{Segment}

abbrev pub tcp_src : Bytes → Option ℕ
tcp_src frame = unpack_h frame 0

abbrev pub tcp_dst : Bytes → Option ℕ
tcp_dst frame = unpack_h frame 2

abbrev pub tcp_seq : Bytes → Option ℕ
tcp_seq frame = unpack_l frame 4

abbrev pub tcp_ack_seq : Bytes → Option ℕ
tcp_ack_seq frame = unpack_l frame 8

abbrev pub tcp_doff : Bytes → Option ℕ
tcp_doff frame = do b ← unpack_b frame 12; some (b / 16 * 4)

abbrev pub tcp_flags : Bytes → Option ℕ
tcp_flags frame = unpack_b frame 13

-- bool(self.flags & m), for a power of two
abbrev pub flag_bit : ℕ → ℕ → Bool
flag_bit m flags = flags / m % 2 == 1

abbrev pub tcp_window : Bytes → Option ℕ
tcp_window frame = unpack_h frame 14

abbrev pub tcp_checksum : Bytes → Option ℕ
tcp_checksum frame = unpack_h frame 16

abbrev pub tcp_urg_ptr : Bytes → Option ℕ
tcp_urg_ptr frame = unpack_h frame 18

-- The options' loop from `ptr` on, and the value of the last MSS option before it. `fuel` bounds
-- the number of rounds.
unfoldable pub options_from : ℕ → Bytes → ℕ → ℕ → Option ℕ → Option (Option ℕ)
options_from zero frame doff ptr mss = some mss
options_from (suc fuel) frame doff ptr mss = elim (ltb ptr doff) [
  | false ↦ some mss
  | true ↦ elim (unpack_b frame ptr) [
    | none ↦ none
    | some kind ↦ elim (kind == 2) [
      | true ↦ elim (unpack_h frame (ptr + 2)) [
        | none ↦ none
        | some value ↦ options_from fuel frame doff (ptr + 4) (some value)
      ]
      | false ↦ elim (kind == 0) [
        | true ↦ some mss
        | false ↦ options_from fuel frame doff (ptr + 1) mss
      ]
    ]
  ]
]

-- `options.get(TCP_MSS_KIND)`; each round moves `ptr` forward, so `doff` rounds are enough.
unfoldable pub tcp_options : Bytes → Option (Option ℕ)
unfolding options_from
tcp_options frame = do doff ← tcp_doff frame; options_from doff frame doff 20 none

abbrev pub tcp_data : Bytes → Option Bytes
tcp_data frame = do doff ← tcp_doff frame; some (drop doff frame)

-- `len(self._frame) - self.doff`, where the header does not reach behind the frame
abbrev pub tcp_dlen : Bytes → Option ℕ
tcp_dlen frame = do doff ← tcp_doff frame; some (length frame - doff)

-- What the state machine reads of a `TCPParser`.
unfoldable pub segment_of : Bytes → Option Segment
unfolding tcp_options
segment_of frame = do
  seq ← tcp_seq frame
  ack_seq ← tcp_ack_seq frame
  flags ← tcp_flags frame
  window ← tcp_window frame
  dlen ← tcp_dlen frame
  payload ← tcp_data frame
  some record {
    seq = seq;
    ack_seq = ack_seq;
    ack = flag_bit 16 flags;
    rst = flag_bit 4 flags;
    syn = flag_bit 2 flags;
    fin = flag_bit 1 flags;
    window = window;
    mss = tcp_options frame;
    dlen = dlen;
    payload = payload;
  }
