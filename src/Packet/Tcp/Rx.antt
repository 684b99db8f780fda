-- ===== src/Packet/Tcp/Rx.antt =====
-- `rx_tcp` of tipy/protocols/tcp/rx.py: a segment goes to its connection, or is answered by RST.
use tipy.Common.{
  ℕ, ◌+◌, ◌%◌, ◌≤◌, ◌≡◌, refl, ap, ◌∙◌, Bool, true, false, Option, none, some, [], ◌∷◌, length, bit,
  if◌then◌else◌, ltb, le→ltb, ◌==◌, arith,
}
use tipy.Wire.Struct.{Bytes, ◌>>=◌, pack_b, pack_h, pack_l, pack_all}
use tipy.Wire.Csum.{inet_csum_little}
use tipy.Wire.Csum.Rfc.{pseudo_sum}
use tipy.Packet.Tcp.{TcpBuilder, tcp_len, to_bytes}
use tipy.Packet.Tcp.Header.{Fits, summed, tcp_len-parts, to_bytes-summed}
use tipy.Packet.Tcp.Parse.{
  tcp_src, tcp_dst, tcp_seq, tcp_ack_seq, tcp_flags, tcp_dlen, flag_bit, segment_of,
}
use tipy.Packet.Tcp.RoundTrip.{
  received, length-summed, filled-summed, tcp_src-summed, tcp_dst-summed, tcp_seq-summed,
  tcp_ack_seq-summed, tcp_flags-summed, tcp_dlen-summed, segment_of-summed, doff_flags-Flags,
}

-- The pseudo header: '! I I B B H'
unfoldable pub pseudo_header : ℕ → ℕ → ℕ → ℕ → Option Bytes
pseudo_header src_ip dst_ip protocol l =
    pack_all (pack_l src_ip ∷ pack_l dst_ip ∷ pack_b 0 ∷ pack_b protocol ∷ pack_h l ∷ [])

-- A key of `sockets`: local address and port, remote address and port.
pub record SockId : Type 0 where
  pub local_ip : ℕ
  pub local_port : ℕ
  pub remote_ip : ℕ
  pub remote_port : ℕ

-- The segment is dropped, an RX_SEGMENT event is scheduled with its frame, RST is sent with a
-- sequence number, an acknowledgment number and the ACK flag, or an exception is raised.
pub data TcpInput : Type 0 where
  dropped raised : TcpInput
  rx_segment : SockId → Bytes → TcpInput
  rst_sent : SockId → ℕ → ℕ → Bool → TcpInput

-- RST for a connection that does not exist.
unfoldable pub reset : SockId → Bytes → Option TcpInput
reset sock_id frame = do
  flags ← tcp_flags frame
  ack_seq ← tcp_ack_seq frame
  seq ← tcp_seq frame
  dlen ← tcp_dlen frame
  some (
      if flag_bit 16 flags
      then rst_sent sock_id ack_seq 0 false
      else rst_sent sock_id 0
          ((seq + dlen + bit (flag_bit 2 flags) + bit (flag_bit 1 flags)) % 4294967296) true)

-- From the checksum on, for a packet whose addresses and protocol are given.
unfoldable pub demultiplex : (SockId → Bool) → ℕ → ℕ → Bytes → Option TcpInput
unfolding reset
demultiplex sockets src_ip dst_ip frame = do
  src ← tcp_src frame
  dst ← tcp_dst frame
  let sock_id : SockId = record {
    local_ip = dst_ip;
    local_port = dst;
    remote_ip = src_ip;
    remote_port = src;
  }
  if sockets sock_id then some (rx_segment sock_id frame) else reset sock_id frame

unfoldable pub rx_summed : (SockId → Bool) → ℕ → ℕ → Bytes → Bytes → TcpInput
unfolding demultiplex
rx_summed sockets src_ip dst_ip frame phdr =
    if inet_csum_little frame (pseudo_sum 3 phdr) == 0
    then elim (demultiplex sockets src_ip dst_ip frame) [ none ↦ raised | some input ↦ input ]
    else dropped

unfoldable pub rx_tcp : (SockId → Bool) → ℕ → ℕ → ℕ → Bytes → TcpInput
unfolding pseudo_header rx_summed
rx_tcp sockets src_ip dst_ip protocol frame =
    if ltb (length frame) 20
    then dropped
    else elim (pseudo_header src_ip dst_ip protocol (length frame)) [
      | none ↦ raised
      | some phdr ↦ rx_summed sockets src_ip dst_ip frame phdr
    ]

abbrev pub sock_id_of : ℕ → ℕ → TcpBuilder → SockId
sock_id_of src_ip dst_ip b = record {
  local_ip = dst_ip;
  local_port = b.dst;
  remote_ip = src_ip;
  remote_port = b.src;
}

-- The answer of RFC 9293 (3.5.2) to a segment for no connection: nothing to a reset; to another
-- segment a RST, which takes the place that the segment acknowledges, or else acknowledges all that
-- the segment takes up.
unfoldable pub reset_for : SockId → TcpBuilder → TcpInput
reset_for sock_id b =
    if b.rst
    then dropped
    else (if b.ack
        then rst_sent sock_id b.ack_seq 0 false
        else rst_sent sock_id 0 ((b.seq + length b.payload + bit b.syn + bit b.fin) % 4294967296)
            true)

-- What `rx_tcp` answers: what would be due to the segment if it were no reset.
abbrev pub answer_to : SockId → TcpBuilder → TcpInput
answer_to sock_id b = reset_for sock_id (record b { rst = false })

reset-summed :
    (sock_id : SockId) (b : TcpBuilder) (phsum : ℕ)
    → Fits b
    → reset sock_id (summed b phsum) ≡ some (answer_to sock_id b)
unfolding reset reset_for
reset-summed sock_id b phsum f =
    let fl = doff_flags-Flags b in
    rw (
      tcp_flags-summed b phsum,
      tcp_ack_seq-summed b phsum,
      tcp_seq-summed b phsum,
      tcp_dlen-summed b phsum f,
      fl.ack,
      fl.syn,
      fl.fin,
    )

demultiplex-summed :
    (sockets : SockId → Bool) (src_ip dst_ip : ℕ) (b : TcpBuilder) (phsum : ℕ)
    → Fits b
    → demultiplex sockets src_ip dst_ip (summed b phsum)
      ≡ some (
          if sockets (sock_id_of src_ip dst_ip b)
          then rx_segment (sock_id_of src_ip dst_ip b) (summed b phsum)
          else answer_to (sock_id_of src_ip dst_ip b) b)
unfolding demultiplex
demultiplex-summed sockets src_ip dst_ip b phsum f =
    rw (tcp_src-summed b phsum, tcp_dst-summed b phsum) (go (sockets (sock_id_of src_ip dst_ip b)))
  where
    go :
        (known : Bool)
        → (if known
            then some (rx_segment (sock_id_of src_ip dst_ip b) (summed b phsum))
            else reset (sock_id_of src_ip dst_ip b) (summed b phsum))
          ≡ some (
              if known
              then rx_segment (sock_id_of src_ip dst_ip b) (summed b phsum)
              else answer_to (sock_id_of src_ip dst_ip b) b)
    go true = refl
    go false = reset-summed (sock_id_of src_ip dst_ip b) b phsum f

rx_summed-summed :
    (sockets : SockId → Bool) (src_ip dst_ip : ℕ) (b : TcpBuilder) (phdr : Bytes)
    → Fits b
    → rx_summed sockets src_ip dst_ip (summed b (pseudo_sum 3 phdr)) phdr ≡ (
        if sockets (sock_id_of src_ip dst_ip b)
        then rx_segment (sock_id_of src_ip dst_ip b) (summed b (pseudo_sum 3 phdr))
        else answer_to (sock_id_of src_ip dst_ip b) b)
unfolding rx_summed
rx_summed-summed sockets src_ip dst_ip b phdr f =
    let ps = pseudo_sum 3 phdr in
    let input : Option TcpInput → TcpInput =
      λ o. elim o as (λ _. TcpInput) [ none ↦ raised | some i ↦ i ] in
    ap (λ c. if c == 0 then input (demultiplex sockets src_ip dst_ip (summed b ps)) else dropped)
      (filled-summed b ps)
    ∙ ap input (demultiplex-summed sockets src_ip dst_ip b ps f)

rx_tcp-summed :
    (sockets : SockId → Bool) (src_ip dst_ip protocol : ℕ) (frame phdr : Bytes)
    → 20 ≤ length frame
    → pseudo_header src_ip dst_ip protocol (length frame) ≡ some phdr
    → rx_tcp sockets src_ip dst_ip protocol frame ≡ rx_summed sockets src_ip dst_ip frame phdr
unfolding rx_tcp
rx_tcp-summed sockets src_ip dst_ip protocol frame phdr l e =
    let summed : Option Bytes → TcpInput = λ o. elim o as (λ _. TcpInput) [
      | none ↦ raised
      | some p ↦ rx_summed sockets src_ip dst_ip frame p
    ] in
    ap (λ t. if t then dropped else summed (pseudo_header src_ip dst_ip protocol (length frame)))
      (le→ltb (length frame) 20 l)
    ∙ ap summed e

-- A segment whose fields fit, built with its pseudo header's sum, reaches the connection of its
-- addresses and ports, where the state machine reads the fields that it was built with. If there is
-- no such connection, it is answered by the RST that RFC 9293 wants for the segment without its RST
-- flag. So a reset is answered too, by another reset, where the RFC wants no answer.
pub to_bytes-rx_tcp :
    (sockets : SockId → Bool) (src_ip dst_ip protocol : ℕ) (b : TcpBuilder) (phdr : Bytes)
    → Fits b
    → pseudo_header src_ip dst_ip protocol (tcp_len b) ≡ some phdr
    → (frame : Bytes) × (to_bytes b (pseudo_sum 3 phdr) ≡ some frame)
      × (segment_of frame ≡ some (received b))
      × (rx_tcp sockets src_ip dst_ip protocol frame ≡ (
          if sockets (sock_id_of src_ip dst_ip b)
          then rx_segment (sock_id_of src_ip dst_ip b) frame
          else reset_for (sock_id_of src_ip dst_ip b) (record b { rst = false })))
to_bytes-rx_tcp sockets src_ip dst_ip protocol b phdr f e =
    let ps = pseudo_sum 3 phdr in
    let frame = summed b ps in
    (
      frame,
      to_bytes-summed b ps f,
      segment_of-summed b ps f,
      rx_tcp-summed sockets src_ip dst_ip protocol frame phdr (omega (arith, length-summed b ps f))
            (ap (pseudo_header src_ip dst_ip protocol)
                (omega (arith, length-summed b ps f, tcp_len-parts b f))
              ∙ e)
          ∙ rx_summed-summed sockets src_ip dst_ip b phdr f,
    )
