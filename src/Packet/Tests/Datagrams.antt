-- ===== src/Packet/Tests/Datagrams.antt =====
-- Datagrams, messages and options of tipy/protocols, built and read.
use Prim.Native.Nat.{bit_and}
use tipy.Common.{
  ◌==◌, ◌+◌, zero, suc, ◌≡◌, ◌≢◌, inl, refl, Bool, true, false, none, some, [], ◌∷◌, replicate,
  if◌then◌else◌, leb, arith,
}
use tipy.Wire.Struct.{Bytes}
use tipy.Wire.Csum.Rfc.{pseudo_sum}
use tipy.Ip.Rx.{Core}
use tipy.Arp.{ArpState, Host, ip_frame, tx_ether, tx_ip_to}
use tipy.Packet.Tcp.Rx.{SockId, pseudo_header}
use tipy.Packet.Udp.{UdpBuilder, udp_len, udp_to_bytes, rx_udp, dropped}
use tipy.Packet.Udp.Built
use tipy.Packet.Udp.Received.{udp_to_bytes-rx_udp}
use tipy.Packet.Icmp.{icmp_build, rx_icmp, raises, name_error}
use tipy.Packet.Icmp.Received.{unreachable, unreachable-raises}
use tipy.Packet.Arp.{ArpBuilder, arp_build, rx_arp_op, rx_arp}
use tipy.Packet.Arp.Received
use tipy.Packet.Arp.Received.{arp_build-rx_arp}
use tipy.Packet.Ip.{IpBuilder, raw, payload_len}
use tipy.Packet.Ip.Built.{plain}
use tipy.Packet.Ip.Options.{ip_opt_builder, looping}
use tipy.Packet.Ip.Options.Parsing.{NoEmptyRoute, ip_opt_builder-ends}
use tipy.Packet.Tx.{Network, raised, done, no_options, tx_ip}
use tipy.Packet.Tx.Routes.{plain_head, tx_ip-tx_ip_to}

abbrev query : UdpBuilder
query = record { src = 40000; dst = 53; payload = 1 ∷ 2 ∷ 3 ∷ [] }

query-Fits : Built.Fits query
unfolding udp_len
query-Fits = record { src_fits = omega arith; dst_fits = omega arith; len_fits = omega arith }

-- Every address and port has a socket, and yet the query is dropped.
abbrev all_sockets : SockId → Bool
all_sockets id = true

udp_to_bytes-rx_udp_example :
    (phdr : Bytes) × (frame : Bytes) × (pseudo_header 3232236033 3232236232 17 (udp_len query)
      ≡ some phdr)
    × (udp_to_bytes query (pseudo_sum 3 phdr) ≡ some frame)
    × (rx_udp all_sockets 3232236033 3232236232 17 frame ≡ dropped)
udp_to_bytes-rx_udp_example =
    udp_to_bytes-rx_udp all_sockets 3232236033 3232236232 17 query query-Fits (omega arith)
      (omega arith) (omega arith)

abbrev core : Core
core = record { unicast_ip = 3232236232; rip_socket = λ local protocol remote. false }

unreachable-raises_example :
    (frame : Bytes) × (icmp_build (unreachable 3 (69 ∷ 0 ∷ [])) (replicate 10 0) ≡ some frame)
    × (rx_icmp core 3232236033 3232236232 1 frame ≡ raises name_error)
unreachable-raises_example =
    unreachable-raises core 3232236033 3232236232 1 3 69 (0 ∷ []) (inl refl)

abbrev request : ArpBuilder
request = record { op = 1; sha = 2199023255553; tha = 0; spa = 3232236033; tpa = 3232236232 }

request-Fits : Received.Fits request
request-Fits = record {
  op_fits = omega arith;
  sha_fits = omega arith;
  tha_fits = omega arith;
  spa_fits = omega arith;
  tpa_fits = omega arith;
}

-- No cached address, no request.
abbrev empty : ArpState IpBuilder
empty = record {
  arp_cache = λ ip. none;
  arp_wait_list = λ ip. false;
  arp_wait_prob_list = λ ip. false;
  pending_datagrams = λ ip. none;
  tasks = [];
  conflict_ips = [];
  sent = [];
  raised = false;
}

abbrev host : Host
host = record { unicast_mac = 2199023255554; unicast_ip = 3232236232 }

arp_build-rx_arp_example :
    (frame : Bytes) × (arp_build request (replicate 46 0) ≡ some frame)
    × (rx_arp host 281474976710655 2199023255553 frame empty
        ≡ some (
            rx_arp_op host 281474976710655 2199023255553 1 2199023255553 3232236033 3232236232
              empty))
arp_build-rx_arp_example =
    arp_build-rx_arp request 18 host 281474976710655 2199023255553 empty request-Fits

abbrev net : Network
net = record { network = 3232236032; mask = 4294967040; router = 3232236033 }

-- A datagram for 8.8.8.8, which is outside: it goes by the router, 192.168.2.1.
tx_ip-tx_ip_to_example :
    let d = plain (raw (1 ∷ 2 ∷ 3 ∷ [])) (plain_head 3 1 64 255 3232236232 134744072) in
    tx_ip net (raw (1 ∷ 2 ∷ 3 ∷ [])) 3232236232 134744072 255 no_options 1 empty ≡ (
      if leb (20 + 3) 1500
      then done (
          if 134744072 == 4294967295
          then tx_ether (ip_frame 281474976710655 d) empty
          else tx_ip_to
              (if bit_and 134744072 net.mask == net.network then 134744072 else net.router)
              d
              empty)
      else raised)
unfolding payload_len
tx_ip-tx_ip_to_example =
    tx_ip-tx_ip_to net (raw (1 ∷ 2 ∷ 3 ∷ [])) 3232236232 134744072 255 no_options 1 empty 3 refl
      refl

-- A NOP and an LSRR option of three bytes
abbrev route_option : Bytes
route_option = 1 ∷ 131 ∷ 3 ∷ 4 ∷ []

route_option-NoEmptyRoute : NoEmptyRoute route_option
route_option-NoEmptyRoute zero = λ e f. cc e
route_option-NoEmptyRoute (suc zero) = λ e f. cc f
route_option-NoEmptyRoute (suc (suc zero)) = λ e f. cc e
route_option-NoEmptyRoute (suc (suc (suc zero))) = λ e f. cc e
route_option-NoEmptyRoute (suc (suc (suc (suc i)))) = λ e f. cc e

ip_opt_builder-ends_example : ip_opt_builder route_option ≢ looping
ip_opt_builder-ends_example = ip_opt_builder-ends route_option route_option-NoEmptyRoute
