-- ===== src/Packet/Tcp/RoundTrip.antt =====
-- What tipy/protocols/tcp/builder.py writes, parser.py reads back, and the checksum holds.
use tipy.Common.{
  ℕ, ◌+◌, ◌-◌, ◌*◌, ◌/◌, ◌%◌, ◌≡◌, refl, sym, ap, ◌∙◌, Bool, true, false, none, some, [], ◌∷◌, ◌++◌,
  length, length-append, drop, drop-append_length, write, ◌==◌, bit, arith,
}
use tipy.Wire.Struct.{Bytes, ◌>>=◌}
use tipy.Wire.Csum.{inet_csum_little}
use tipy.Wire.Csum.Rfc.{filled-inet_csum_little}
use tipy.Tcp.Types.{Segment}
use tipy.Packet.Tcp.{TcpBuilder, opts_len, doff, doff_flags, to_bytes}
use tipy.Packet.Tcp.Options.{mss_of, opts_image, length-opts_image, options_from-opts_image}
use tipy.Packet.Tcp.Parse.{
  tcp_src, tcp_dst, tcp_seq, tcp_ack_seq, tcp_doff, tcp_flags, flag_bit, tcp_window, tcp_urg_ptr,
  tcp_options, options_from, tcp_data, tcp_dlen, segment_of,
}
use tipy.Packet.Tcp.Header.{Fits, header_image, unsummed, summed, to_bytes-summed, bit-le}

halves : (v : ℕ) → some (v / 256 * 256 + v % 256) ≡ some v
halves v = ap some (omega arith)

quarters :
    (v : ℕ)
    → some ((v / 16777216 * 256 + v / 65536 % 256) * 65536 + (v / 256 % 256 * 256 + v % 256))
      ≡ some v
quarters v = ap some (omega arith)

pub tcp_src-summed : (b : TcpBuilder) (phsum : ℕ) → tcp_src (summed b phsum) ≡ some b.src
unfolding summed unsummed header_image
tcp_src-summed b phsum = halves b.src

pub tcp_dst-summed : (b : TcpBuilder) (phsum : ℕ) → tcp_dst (summed b phsum) ≡ some b.dst
unfolding summed unsummed header_image
tcp_dst-summed b phsum = halves b.dst

pub tcp_seq-summed : (b : TcpBuilder) (phsum : ℕ) → tcp_seq (summed b phsum) ≡ some b.seq
unfolding summed unsummed header_image
tcp_seq-summed b phsum = quarters b.seq

pub tcp_ack_seq-summed :
    (b : TcpBuilder) (phsum : ℕ) → tcp_ack_seq (summed b phsum) ≡ some b.ack_seq
unfolding summed unsummed header_image
tcp_ack_seq-summed b phsum = quarters b.ack_seq

tcp_window-summed : (b : TcpBuilder) (phsum : ℕ) → tcp_window (summed b phsum) ≡ some b.window
unfolding summed unsummed header_image
tcp_window-summed b phsum = halves b.window

tcp_urg_ptr-summed : (b : TcpBuilder) (phsum : ℕ) → tcp_urg_ptr (summed b phsum) ≡ some b.urg_ptr
unfolding summed unsummed header_image
tcp_urg_ptr-summed b phsum = halves b.urg_ptr

pub tcp_flags-summed :
    (b : TcpBuilder) (phsum : ℕ) → tcp_flags (summed b phsum) ≡ some (doff_flags b % 256)
unfolding summed unsummed header_image
tcp_flags-summed b phsum = refl

tcp_doff-summed :
    (b : TcpBuilder) (phsum : ℕ)
    → Fits b
    → tcp_doff (summed b phsum) ≡ some (20 + opts_len b.options)
unfolding summed unsummed header_image doff_flags doff
tcp_doff-summed b phsum f = ap some (
    omega (
      arith,
      f.options_padded,
      bit-le b.cwr,
      bit-le b.ece,
      bit-le b.urg,
      bit-le b.ack,
      bit-le b.psh,
      bit-le b.rst,
      bit-le b.syn,
      bit-le b.fin,
    ))

test_bit : (v : Bool) (n : ℕ) → n ≡ bit v → (n == 1) ≡ v
test_bit true n e = ground arith
test_bit false n e = ground arith

pub record Flags (b : TcpBuilder) (flags : ℕ) : Type 0 where
  pub urg : flag_bit 32 flags ≡ b.urg
  pub ack : flag_bit 16 flags ≡ b.ack
  pub psh : flag_bit 8 flags ≡ b.psh
  pub rst : flag_bit 4 flags ≡ b.rst
  pub syn : flag_bit 2 flags ≡ b.syn
  pub fin : flag_bit 1 flags ≡ b.fin

pub doff_flags-Flags : (b : TcpBuilder) → Flags b (doff_flags b % 256)
unfolding doff_flags
doff_flags-Flags b =
    let cwr = bit-le b.cwr in
    let ece = bit-le b.ece in
    let urg = bit-le b.urg in
    let ack = bit-le b.ack in
    let psh = bit-le b.psh in
    let rst = bit-le b.rst in
    let syn = bit-le b.syn in
    let fin = bit-le b.fin in
    record {
      urg = test_bit b.urg _ (omega arith);
      ack = test_bit b.ack _ (omega arith);
      psh = test_bit b.psh _ (omega arith);
      rst = test_bit b.rst _ (omega arith);
      syn = test_bit b.syn _ (omega arith);
      fin = test_bit b.fin _ (omega arith);
    }

pub length-summed :
    (b : TcpBuilder) (phsum : ℕ)
    → Fits b
    → length (summed b phsum) ≡ 20 + (opts_len b.options + length b.payload)
unfolding summed unsummed header_image
length-summed b phsum f = omega (
  arith,
  length-append (opts_image b.options) b.payload,
  length-opts_image b.options f.options_buildable,
)

front : TcpBuilder → ℕ → Bytes
front b phsum =
    let c = inet_csum_little (unsummed b) phsum in
    write (header_image b []) 16 (c / 256 ∷ c % 256 ∷ [])

summed-front :
    (b : TcpBuilder) (phsum : ℕ)
    → summed b phsum ≡ front b phsum ++ (opts_image b.options ++ b.payload)
unfolding summed unsummed header_image front
summed-front b phsum = refl

length-front : (b : TcpBuilder) (phsum : ℕ) → length (front b phsum) ≡ 20
unfolding front header_image
length-front b phsum = refl

drop-summed :
    (b : TcpBuilder) (phsum : ℕ)
    → Fits b
    → drop (20 + opts_len b.options) (summed b phsum) ≡ b.payload
drop-summed b phsum f =
    let o = opts_image b.options in
    let l = length-front b phsum in
    ap (drop (20 + opts_len b.options)) (summed-front b phsum)
    ∙ ap (λ n. drop n (front b phsum ++ (o ++ b.payload)))
        (omega (arith, length-opts_image b.options f.options_buildable))
    ∙ drop-append_length (front b phsum) (o ++ b.payload) (length o + 0)
    ∙ drop-append_length o b.payload 0

options-summed :
    (b : TcpBuilder) (phsum : ℕ)
    → Fits b
    → tcp_options (summed b phsum) ≡ some (mss_of b.options none)
unfolding tcp_options
options-summed b phsum f =
    let n = 20 + opts_len b.options in
    ap (λ d. d >>= (λ doff. options_from doff (summed b phsum) doff 20 none))
      (tcp_doff-summed b phsum f)
    ∙ ap (λ frame. options_from n frame n 20 none) (summed-front b phsum)
    ∙ options_from-opts_image b.options (front b phsum) b.payload n 20 n none
        (sym (length-front b phsum)) refl (omega arith) f.options_buildable

pub tcp_dlen-summed :
    (b : TcpBuilder) (phsum : ℕ) → Fits b → tcp_dlen (summed b phsum) ≡ some (length b.payload)
tcp_dlen-summed b phsum f =
    ap (λ d. d >>= (λ doff. some (length (summed b phsum) - doff))) (tcp_doff-summed b phsum f)
    ∙ ap some (omega (arith, length-summed b phsum f))

tcp_data-summed : (b : TcpBuilder) (phsum : ℕ) → Fits b → tcp_data (summed b phsum) ≡ some b.payload
tcp_data-summed b phsum f =
    ap (λ d. d >>= (λ doff. some (drop doff (summed b phsum)))) (tcp_doff-summed b phsum f)
    ∙ ap some (drop-summed b phsum f)

-- What the state machine reads of a segment that was built.
abbrev pub received : TcpBuilder → Segment
received b = record {
  seq = b.seq;
  ack_seq = b.ack_seq;
  ack = b.ack;
  rst = b.rst;
  syn = b.syn;
  fin = b.fin;
  window = b.window;
  mss = some (mss_of b.options none);
  dlen = length b.payload;
  payload = b.payload;
}

pub segment_of-summed :
    (b : TcpBuilder) (phsum : ℕ) → Fits b → segment_of (summed b phsum) ≡ some (received b)
unfolding segment_of
segment_of-summed b phsum f =
    let fl = doff_flags-Flags b in
    rw (
      tcp_seq-summed b phsum,
      tcp_ack_seq-summed b phsum,
      tcp_flags-summed b phsum,
      tcp_window-summed b phsum,
      options-summed b phsum f,
      tcp_dlen-summed b phsum f,
      tcp_data-summed b phsum f,
      fl.ack,
      fl.rst,
      fl.syn,
      fl.fin,
    )

pub filled-summed : (b : TcpBuilder) (phsum : ℕ) → inet_csum_little (summed b phsum) phsum ≡ 0
unfolding summed unsummed header_image
filled-summed b phsum = filled-inet_csum_little (unsummed b) 16 phsum refl refl refl

-- A segment whose fields fit is built, passes the checksum of its receiver, and is parsed there
-- with the ports, the urgent pointer and the flags URG and PSH that it was built with, and to the
-- fields that the state machine reads, the MSS option and the data among them.
pub to_bytes-segment_of :
    (b : TcpBuilder) (phsum : ℕ)
    → Fits b
    → (frame : Bytes) × (flags : ℕ) × (to_bytes b phsum ≡ some frame)
      × (inet_csum_little frame phsum ≡ 0)
      × (tcp_src frame ≡ some b.src)
      × (tcp_dst frame ≡ some b.dst)
      × (tcp_urg_ptr frame ≡ some b.urg_ptr)
      × (tcp_flags frame ≡ some flags)
      × (flag_bit 32 flags ≡ b.urg)
      × (flag_bit 8 flags ≡ b.psh)
      × (segment_of frame ≡ some (received b))
to_bytes-segment_of b phsum f =
    let fl = doff_flags-Flags b in
    (
      summed b phsum,
      doff_flags b % 256,
      to_bytes-summed b phsum f,
      filled-summed b phsum,
      tcp_src-summed b phsum,
      tcp_dst-summed b phsum,
      tcp_urg_ptr-summed b phsum,
      tcp_flags-summed b phsum,
      fl.urg,
      fl.psh,
      segment_of-summed b phsum f,
    )
