-- ===== src/Packet/Tcp/Header.antt =====
-- The bytes of a segment that the builder writes.
use tipy.Common.{
  ℕ, zero, suc, ◌+◌, ◌/◌, ◌%◌, ◌≤◌, ◌<◌, ◌≡◌, refl, ap, ◌∙◌, Bool, true, false, some, [], ◌∷◌, ◌++◌,
  append-nil, length, length-replicate, drop, drop_all, replicate, write, le→leb, lt→ltb, bit,
  arith,
}
use tipy.Wire.Struct.{Bytes, pack_into}
use tipy.Wire.Csum.{inet_csum_little, complement}
use tipy.Packet.Tcp.{
  TcpBuilder, opts_len, doff, doff_flags, tcp_len, header, build, build_opts, to_bytes,
}
use tipy.Packet.Tcp.Options.{
  IsBuildable, opts_image, length-opts_image, build_opts-opts_image, pack_into-append,
}

-- The fields fit their places on the wire, and the options can be built.
pub record Fits (b : TcpBuilder) : Type 0 where
  pub src_fits : b.src < 65536
  pub dst_fits : b.dst < 65536
  pub seq_fits : b.seq < 4294967296
  pub ack_seq_fits : b.ack_seq < 4294967296
  pub window_fits : b.window < 65536
  pub urg_ptr_fits : b.urg_ptr < 65536
  pub options_padded : opts_len b.options % 4 ≡ 0
  pub options_fit : opts_len b.options ≤ 40
  pub options_buildable : IsBuildable b.options

-- The header with a zero checksum, in front of `rest`.
unfoldable pub header_image : TcpBuilder → Bytes → Bytes
header_image b rest =
    b.src / 256
    ∷ b.src % 256
    ∷ b.dst / 256
    ∷ b.dst % 256
    ∷ b.seq / 16777216
    ∷ b.seq / 65536 % 256
    ∷ b.seq / 256 % 256
    ∷ b.seq % 256
    ∷ b.ack_seq / 16777216
    ∷ b.ack_seq / 65536 % 256
    ∷ b.ack_seq / 256 % 256
    ∷ b.ack_seq % 256
    ∷ doff_flags b / 256
    ∷ doff_flags b % 256
    ∷ b.window / 256
    ∷ b.window % 256
    ∷ 0
    ∷ 0
    ∷ b.urg_ptr / 256
    ∷ b.urg_ptr % 256
    ∷ rest

pub bit-le : (b : Bool) → bit b ≤ 1
bit-le true = omega arith
bit-le false = omega arith

pub doff_flags_below : (b : TcpBuilder) → Fits b → doff_flags b < 65536
unfolding doff_flags doff
doff_flags_below b f = omega (
  arith,
  f.options_fit,
  bit-le b.cwr,
  bit-le b.ece,
  bit-le b.urg,
  bit-le b.ack,
  bit-le b.psh,
  bit-le b.rst,
  bit-le b.syn,
  bit-le b.fin,
)

header-header_image : (b : TcpBuilder) → Fits b → header b ≡ some (header_image b [])
unfolding header header_image
header-header_image b f = rw (
  lt→ltb b.src 65536 f.src_fits,
  lt→ltb b.dst 65536 f.dst_fits,
  lt→ltb b.seq 4294967296 f.seq_fits,
  lt→ltb b.ack_seq 4294967296 f.ack_seq_fits,
  lt→ltb (doff_flags b) 65536 (doff_flags_below b f),
  lt→ltb b.window 65536 f.window_fits,
  lt→ltb b.urg_ptr 65536 f.urg_ptr_fits,
)

-- The frame before the checksum is filled in.
unfoldable pub unsummed : TcpBuilder → Bytes
unfolding header_image
unsummed b = header_image b (opts_image b.options ++ b.payload)

pub zeros_behind : (n m : ℕ) → drop n (replicate (n + m) 0) ≡ replicate {A = ℕ} m 0
zeros_behind zero m = ap (λ k. replicate k 0) (omega arith)
zeros_behind (suc n) m = ap (λ k. drop (suc n) (replicate k 0)) (suc_sum n m) ∙ zeros_behind n m
  where
    suc_sum : (n m : ℕ) → suc n + m ≡ suc (n + m)
    suc_sum n m = omega arith

-- The frame with its checksum.
unfoldable pub summed : TcpBuilder → ℕ → Bytes
unfolding unsummed
summed b phsum =
    let c = inet_csum_little (unsummed b) phsum in write (unsummed b) 16 (c / 256 ∷ c % 256 ∷ [])

pub csum-fits : (frame : Bytes) (phsum : ℕ) → inet_csum_little frame phsum < 65536
unfolding inet_csum_little complement
csum-fits frame phsum = omega arith

pub tcp_len-parts :
    (b : TcpBuilder) → Fits b → tcp_len b ≡ 20 + (opts_len b.options + length b.payload)
unfolding tcp_len doff
tcp_len-parts b f = omega (arith, f.options_padded)

step_header :
    (b : TcpBuilder)
    → Fits b
    → pack_into (replicate (tcp_len b) 0) 0 (header_image b [])
      ≡ some (header_image b (replicate (opts_len b.options + length b.payload) 0))
unfolding header_image
step_header b f =
    let n = opts_len b.options + length b.payload in
    ap (λ k. pack_into (replicate k 0) 0 (header_image b [])) (tcp_len-parts b f)
    ∙ pack_into-append [] (header_image b []) (replicate (20 + n) 0) 0 refl
        (omega (arith, length-replicate {A = ℕ} (20 + n) 0))
    ∙ ap (λ ws. some (header_image b ws)) (zeros_behind 20 n)

step_options :
    (b : TcpBuilder)
    → Fits b
    → build_opts b.options (header_image b (replicate (opts_len b.options + length b.payload) 0)) 20
      ≡ some (header_image b (opts_image b.options ++ replicate (length b.payload) 0))
unfolding header_image
step_options b f =
    let n = opts_len b.options + length b.payload in
    build_opts-opts_image b.options (header_image b []) (replicate n 0) 20 refl f.options_buildable
      (omega (arith, length-replicate {A = ℕ} n 0))
    ∙ ap (λ ws. some (header_image b (opts_image b.options ++ ws)))
        (zeros_behind (opts_len b.options) (length b.payload))

step_payload :
    (b : TcpBuilder)
    → Fits b
    → pack_into
        (header_image b (opts_image b.options ++ replicate (length b.payload) 0))
        (20 + opts_len b.options)
        b.payload
      ≡ some (unsummed b)
unfolding header_image unsummed
step_payload b f =
    let zs : Bytes = replicate (length b.payload) 0 in
    let l = length-replicate {A = ℕ} (length b.payload) 0 in
    pack_into-append (header_image b (opts_image b.options)) b.payload zs (20 + opts_len b.options)
      (omega (arith, length-opts_image b.options f.options_buildable)) (omega arith)
    ∙ ap (λ ws. some (header_image b ws))
        (ap (λ ws. (opts_image b.options ++ b.payload) ++ ws)
            (drop_all (length b.payload) zs (omega arith))
          ∙ append-nil (opts_image b.options ++ b.payload))

step_csum :
    (b : TcpBuilder) (c : ℕ)
    → pack_into (unsummed b) 16 (c / 256 ∷ c % 256 ∷ [])
      ≡ some (write (unsummed b) 16 (c / 256 ∷ c % 256 ∷ []))
unfolding unsummed header_image
step_csum b c = rw (le→leb 18 (length (unsummed b)) (omega arith))

-- With fields that fit, the builder writes a frame.
pub to_bytes-summed :
    (b : TcpBuilder) (phsum : ℕ) → Fits b → to_bytes b phsum ≡ some (summed b phsum)
unfolding to_bytes build summed
to_bytes-summed b phsum f =
    let c = inet_csum_little (unsummed b) phsum in
    rw (
      header-header_image b f,
      step_header b f,
      step_options b f,
      step_payload b f,
      lt→ltb c 65536 (csum-fits (unsummed b) phsum),
      step_csum b c,
    )
