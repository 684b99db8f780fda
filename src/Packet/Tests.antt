-- ===== src/Packet/Tests.antt =====
-- Segments built and read.
mod Datagrams
mod Ping
use tipy.Common.{Bool, ℕ, ◌%◌, ◌<◌, ◌≡◌, refl, true, false, none, some, [], ◌∷◌, arith}
use tipy.Wire.Struct.{Bytes}
use tipy.Wire.Csum.{inet_csum_little}
use tipy.Packet.Tcp.{
  TcpBuilder, opt_nop, opt_mss, opt_eol, opts_len, tcp_opt_padding, to_bytes, tcp_len,
}
use tipy.Packet.Tcp.Options.{IsBuildable}
use tipy.Packet.Tcp.Header.{Fits}
use tipy.Packet.Tcp.Parse.{tcp_src, tcp_dst, tcp_urg_ptr, tcp_flags, flag_bit, segment_of}
use tipy.Packet.Tcp.RoundTrip.{received, to_bytes-segment_of}
use tipy.Wire.Csum.Rfc.{pseudo_sum}
use tipy.Packet.Tcp.Rx.{pseudo_header, SockId, sock_id_of, rx_tcp, reset_for, to_bytes-rx_tcp}
use tipy.Packet.Tcp.Padding.{to_bytes-padding}

-- A SYN with the MSS option, three NOPs and a byte of padding.
abbrev syn : TcpBuilder
syn = record {
  src = 40000;
  dst = 80;
  seq = 4294967295;
  ack_seq = 0;
  cwr = false;
  ece = false;
  urg = false;
  ack = false;
  psh = true;
  rst = false;
  syn = true;
  fin = false;
  window = 65535;
  urg_ptr = 7;
  options = opt_mss ∷ opt_nop ∷ opt_nop ∷ opt_nop ∷ opt_eol 1 ∷ [];
  payload = 1 ∷ 2 ∷ 3 ∷ [];
}

syn-Fits : Fits syn
unfolding opts_len IsBuildable
syn-Fits = record {
  src_fits = omega arith;
  dst_fits = omega arith;
  seq_fits = omega arith;
  ack_seq_fits = omega arith;
  window_fits = omega arith;
  urg_ptr_fits = omega arith;
  options_padded = refl;
  options_fit = omega arith;
  options_buildable = (refl, tt);
}

to_bytes-segment_of_example :
    (frame : Bytes) × (flags : ℕ) × (to_bytes syn 1234 ≡ some frame)
    × (inet_csum_little frame 1234 ≡ 0)
    × (tcp_src frame ≡ some 40000)
    × (tcp_dst frame ≡ some 80)
    × (tcp_urg_ptr frame ≡ some 7)
    × (tcp_flags frame ≡ some flags)
    × (flag_bit 32 flags ≡ false)
    × (flag_bit 8 flags ≡ true)
    × (segment_of frame ≡ some (received syn))
to_bytes-segment_of_example = to_bytes-segment_of syn 1234 syn-Fits

-- One NOP leaves three bytes to pad.
abbrev padded : TcpBuilder
padded = record syn { options = opt_nop ∷ opt_eol 3 ∷ [] }

padding : padded.options ≡ tcp_opt_padding (opt_nop ∷ [])
unfolding tcp_opt_padding
padding = refl

left_over : 0 < opts_len (opt_nop ∷ []) % 4
unfolding opts_len
left_over = omega arith

not_one : opts_len (opt_nop ∷ []) % 4 < 3
unfolding opts_len
not_one = omega arith

to_bytes-padding_example : to_bytes padded 0 ≡ none
to_bytes-padding_example = to_bytes-padding padded (opt_nop ∷ []) 0 padding left_over not_one

-- 192.168.2.1 and 192.168.2.200, protocol 6, 31 bytes
abbrev tcp_phdr : Bytes
tcp_phdr = 192 ∷ 168 ∷ 2 ∷ 1 ∷ 192 ∷ 168 ∷ 2 ∷ 200 ∷ 0 ∷ 6 ∷ 0 ∷ 31 ∷ []

syn_phdr : pseudo_header 3232236033 3232236232 6 (tcp_len syn) ≡ some tcp_phdr
unfolding pseudo_header tcp_len
syn_phdr = refl

-- No connection has the addresses and ports.
abbrev no_sockets : SockId → Bool
no_sockets sock_id = false

to_bytes-rx_tcp_example :
    (frame : Bytes) × (to_bytes syn (pseudo_sum 3 tcp_phdr) ≡ some frame)
    × (segment_of frame ≡ some (received syn))
    × (rx_tcp no_sockets 3232236033 3232236232 6 frame
        ≡ reset_for (sock_id_of 3232236033 3232236232 syn) (record syn { rst = false }))
to_bytes-rx_tcp_example =
    to_bytes-rx_tcp no_sockets 3232236033 3232236232 6 syn tcp_phdr syn-Fits syn_phdr
