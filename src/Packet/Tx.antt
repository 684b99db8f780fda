-- ===== src/Packet/Tx.antt =====
-- tipy/protocols/ip/tx.py with the callers of `tx_ip` in icmp/tx.py, udp/tx.py, tcp/tx.py and
-- raw/tx.py. A datagram that waits for an address is its builder.
pub mod Routes
pub mod Ping
use Prim.Native.Nat.{bit_and}
use tipy.Common.{
  ℕ, ◌+◌, Bool, true, false, Option, none, some, List, [], ◌∷◌, if◌then◌else◌, ltb, leb, ◌==◌,
}
use tipy.Wire.Struct.{Bytes, ◌>>=◌}
use tipy.Ip.Rx.{is_broadcast}
use tipy.Arp.{ArpState, ip_frame, tx_ether, tx_ip_to}
use tipy.Packet.Ip.{Payload, tcp, udp, icmp, raw, IpBuilder, ip_builder, ip_len, psum}
use tipy.Packet.Ip.Options.{IpOpt, Parsed, looping, bad_option, type_error, parsed, ip_opt_builder}
use tipy.Packet.Tcp
use tipy.Packet.Udp.{udp_to_bytes}
use tipy.Packet.Icmp.{IcmpBuilder}
use tipy.Packet.Ether.{mtu}

-- `network`, `mask` and `router` of the core
pub record Network : Type 0 where
  pub network : ℕ
  pub mask : ℕ
  pub router : ℕ

-- `sock_opt`: the entries (IPPROTO_IP, IPPROTO_TTL) and (IPPROTO_IP, IPPROTO_OPTIONS)
pub record SockOpt : Type 0 where
  pub ttl : Option ℕ
  pub options : Option Bytes

-- An exception, a loop that goes on, or the new state.
pub data Outcome : Type 0 where
  raised looped : Outcome
  done : ArpState IpBuilder → Outcome

-- `IPAddress.is_in_subnet`
unfoldable pub is_in_subnet : ℕ → Network → Bool
is_in_subnet ip n = bit_and ip n.mask == n.network

-- The payload as bytes, which only the builders of TCP and UDP give for a sum.
unfoldable pub payload_bytes : Payload → ℕ → Option Bytes
payload_bytes (tcp b) phsum = Tcp.to_bytes b phsum
payload_bytes (udp b) phsum = udp_to_bytes b phsum
payload_bytes (icmp b) phsum = none
payload_bytes (raw payload) phsum = none

-- `IPFragBuilder(…)`: its `__init__` reads `self.__ihl`, which is set nowhere before.
unfoldable pub frag_builder : Bytes → Option (List IpBuilder)
frag_builder payload = none

-- The fragments of a datagram above the MTU.
unfoldable pub fragments : IpBuilder → Option (List IpBuilder)
unfolding payload_bytes frag_builder psum
fragments b = do phsum ← psum b; payload ← payload_bytes b.payload phsum; frag_builder payload

-- Every fragment goes to the destination itself.
unfoldable pub send_fragments : ℕ → List IpBuilder → ArpState IpBuilder → ArpState IpBuilder
send_fragments dst [] s = s
send_fragments dst (f ∷ fs) s = send_fragments dst fs (tx_ip_to dst f s)

-- The datagram goes to the broadcast address, to its destination, or to the router.
unfoldable pub route : Network → ℕ → IpBuilder → ArpState IpBuilder → ArpState IpBuilder
unfolding is_in_subnet
route net dst b s =
    if is_broadcast dst
    then tx_ether (ip_frame 281474976710655 b) s
    else (if is_in_subnet dst net then tx_ip_to dst b s else tx_ip_to net.router b s)

-- By the length of the datagram.
unfoldable pub sent_or_fragmented :
    Network → ℕ → IpBuilder → ℕ → ArpState IpBuilder → Option (ArpState IpBuilder)
unfolding route fragments send_fragments
sent_or_fragmented net dst b n s =
    if leb n mtu
    then some (route net dst b s)
    else (do frags ← fragments b; some (send_fragments dst frags s))

-- From `IPBuilder` on. `id` is from `randint`.
unfoldable pub tx_ip_with :
    Network
    → Payload
    → ℕ
    → ℕ
    → ℕ
    → ℕ
    → List IpOpt
    → ℕ
    → ArpState IpBuilder
    → Option (ArpState IpBuilder)
unfolding sent_or_fragmented ip_builder ip_len
tx_ip_with net payload src dst ttl protocol options id s = do
  b ← ip_builder payload id ttl protocol options src dst
  n ← ip_len b
  sent_or_fragmented net dst b n s

abbrev pub outcome : Option (ArpState IpBuilder) → Outcome
outcome none = raised
outcome (some s) = done s

-- `_prep_ip_options`, and what follows
unfoldable pub tx_ip_options :
    Network → Payload → ℕ → ℕ → ℕ → ℕ → ℕ → Parsed → ArpState IpBuilder → Outcome
unfolding tx_ip_with
tx_ip_options net payload src dst ttl protocol id looping s = looped
tx_ip_options net payload src dst ttl protocol id bad_option s = raised
tx_ip_options net payload src dst ttl protocol id type_error s = raised
tx_ip_options net payload src dst ttl protocol id (parsed options) s =
    outcome (tx_ip_with net payload src dst ttl protocol options id s)

abbrev pub ttl_of : SockOpt → ℕ
ttl_of o = elim (o.ttl) [ none ↦ 64 | some ttl ↦ ttl ]

abbrev pub options_of : SockOpt → Parsed
options_of o = elim (o.options) [ none ↦ parsed [] | some raw_opts ↦ ip_opt_builder raw_opts ]

unfoldable pub tx_ip : Network → Payload → ℕ → ℕ → ℕ → SockOpt → ℕ → ArpState IpBuilder → Outcome
unfolding tx_ip_options ip_opt_builder
tx_ip net payload src dst protocol sock_opt id s =
    tx_ip_options net payload src dst (ttl_of sock_opt) protocol id (options_of sock_opt) s

abbrev pub no_options : SockOpt
no_options = record { ttl = none; options = none }

-- `tx_icmp`, `tx_udp`, `tx_tcp` and `tx_raw`
unfoldable pub tx_icmp : Network → ℕ → ℕ → IcmpBuilder → ℕ → ArpState IpBuilder → Outcome
unfolding tx_ip
tx_icmp net src dst message id s = tx_ip net (icmp message) src dst 1 no_options id s

unfoldable pub tx_udp : Network → ℕ → ℕ → ℕ → ℕ → Bytes → SockOpt → ℕ → ArpState IpBuilder → Outcome
unfolding tx_ip
tx_udp net local_ip remote_ip local_port remote_port payload sock_opt id s =
    tx_ip net (udp (record { src = local_port; dst = remote_port; payload = payload })) local_ip
      remote_ip 17 sock_opt id s

unfoldable pub tx_raw : Network → Bytes → ℕ → ℕ → ℕ → SockOpt → ℕ → ArpState IpBuilder → Outcome
unfolding tx_ip
tx_raw net payload protocol src dst sock_opt id s =
    tx_ip net (raw payload) src dst protocol sock_opt id s
