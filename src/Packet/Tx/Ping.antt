-- ===== src/Packet/Tx/Ping.antt =====
-- An echo request and its reply, from `tx_icmp` of one host over the wire to `rx_icmp` of the other.
use tipy.Common.{
  ℕ, ◌+◌, ◌-◌, ◌≤◌, ◌<◌, ◌≡◌, refl, sym, ap, ◌∙◌, true, false, none, some, [], ◌∷◌, ◌++◌,
  append_assoc, length, length-append, replicate, le→leb, if◌then◌else◌, arith,
}
use tipy.Wire.Struct.{Bytes}
use tipy.Ip.Cache.{IpCache}
use tipy.Ip.Rx.{Core, next_layer, rx_ip, is_broadcast, is_multicast, has_next_layer}
use tipy.Arp.{ArpState, ip_frame, tx_ether, tx_ip_to, h_unresolved_mac_datagrams}
use tipy.Packet.Icmp
use tipy.Packet.Icmp.{
  IcmpBuilder, icmp_len, icmp_build, icmp_echo_id, icmp_echo_seq, icmp_data, rx_icmp, raw_data,
  no_socket, is_echo,
}
use tipy.Packet.Icmp.Built
use tipy.Packet.Icmp.Received.{echo, request_answered, reply_received}
use tipy.Packet.Ip.{icmp, IpBuilder, payload_len, payload_build, build_alone, ip_len, ip_build}
use tipy.Packet.Ip.Built.{Head, plain, summed, length-summed, ip_build-summed}
use tipy.Packet.Ip.Delivered.{rx_ip-next_layer}
use tipy.Packet.Ether
use tipy.Packet.Ether.{EtherBuilder, ip, transmit, to_ip, rx_ether, ether_protocol}
use tipy.Packet.Ether.Wired.{wired, transmit-wired, rx_ether-wired}
use tipy.Packet.Tx.{Network, done, route, is_in_subnet, tx_icmp, no_options}
use tipy.Packet.Tx.Routes.{plain_head, tx_ip-route}

pub record Station : Type 0 where
  pub core : Core
  pub net : Network
  pub mac : ℕ

abbrev pub ip_of : Station → ℕ
ip_of a = a.core.unicast_ip

-- The first station reaches the second: it is in its network, and its MAC address is known.
pub record Reaches (a b : Station) (s : ArpState IpBuilder) : Type 0 where
  pub inside : is_in_subnet (ip_of b) a.net ≡ true
  pub resolved : s.arp_cache (ip_of b) ≡ some b.mac
  pub source_one : (is_broadcast (ip_of a) ≡ false) × (is_multicast (ip_of a) ≡ false)
  pub target_one : is_broadcast (ip_of b) ≡ false
  pub ips_fit : (ip_of a < 4294967296) × (ip_of b < 4294967296)
  pub macs_fit : (a.mac < 281474976710656) × (b.mac < 281474976710656)

tx_ip_to-known :
    (tpa mac : ℕ) (d : IpBuilder) (s : ArpState IpBuilder)
    → s.arp_cache tpa ≡ some mac
    → tx_ip_to tpa d s ≡ tx_ether (ip_frame mac d) s
unfolding tx_ip_to
tx_ip_to-known tpa mac d s e =
    ap
      (λ o. elim o as (λ _. ArpState IpBuilder) [
        | some mac ↦ tx_ether (ip_frame mac d) s
        | none ↦ h_unresolved_mac_datagrams tpa d s
      ])
      e

-- The Ethernet frame in which a datagram goes out.
abbrev pub frame_of : Station → Station → IpBuilder → EtherBuilder
frame_of a b packet = record { dst = b.mac; src = a.mac; type_ = 2048; payload = ip packet }

-- A message crosses from the first station to the second: one datagram is sent, its frame goes on
-- the wire, and the second station's ICMP is handed the message.
pub record Crosses (a b : Station) (id : ℕ) (s : ArpState IpBuilder) (m : IcmpBuilder)
    (image : Bytes) : Type 0 where
  pub packet : IpBuilder
  pub wire : Bytes
  pub received : Bytes
  pub sent : tx_icmp a.net (ip_of a) (ip_of b) m id s ≡ done (tx_ether (ip_frame b.mac packet) s)
  pub transmitted : transmit (frame_of a b packet) ≡ some wire
  pub framed : rx_ether true wire ≡ to_ip received
  pub delivered : (c : IpCache) → rx_ip b.core received c ≡ (next_layer 1 image ∷ [], c)

module _ (a b : Station) (id : ℕ) (s : ArpState IpBuilder) (m : IcmpBuilder) (image : Bytes) where
  head : Head
  head = plain_head (length image) id 64 1 (ip_of a) (ip_of b)

  packet_of : IpBuilder
  packet_of = plain (icmp m) head

  sent_lem :
      Reaches a b s
      → icmp_len m ≡ some (length image)
      → 20 + length image ≤ 1500
      → tx_icmp a.net (ip_of a) (ip_of b) m id s ≡ done (tx_ether (ip_frame b.mac packet_of) s)
  unfolding tx_icmp packet_of head route payload_len
  sent_lem r l fits =
      tx_ip-route a.net (icmp m) (ip_of a) (ip_of b) 1 no_options id s (length image) l refl
      ∙ rw (le→leb (20 + length image) 1500 fits, r.target_one, r.inside)
          (ap done (tx_ip_to-known (ip_of b) b.mac packet_of s r.resolved))

  slack : ℕ
  slack = 1480 - length image

  transmitted_lem :
      Reaches a b s
      → id < 65536
      → icmp_len m ≡ some (length image)
      → 20 + length image ≤ 1500
      → icmp_build m (replicate (length image + slack) 0) ≡ some (image ++ replicate slack 0)
      → transmit (frame_of a b packet_of)
        ≡ some (wired (frame_of a b packet_of) (summed head ++ image))
  unfolding packet_of head Ether.payload_len Ether.payload_build ip_len payload_len payload_build
      build_alone slack plain_head
  transmitted_lem r i l fits built =
      transmit-wired (frame_of a b packet_of) (summed head ++ image) slack
        (record { dst_fits = r.macs_fit.1; src_fits = r.macs_fit.0; type_fits = omega arith })
        (rw l (ap some (omega (arith, length-append (summed head) image, length-summed head))))
        (ap (λ n. ip_build packet_of (replicate n 0)) (whole (length image) fits)
          ∙ ip_build-summed head (icmp m) slack (image ++ replicate slack 0)
              (record {
                total_fits = omega arith;
                id_fits = i;
                ttl_fits = omega arith;
                protocol_fits = omega arith;
                src_fits = r.ips_fit.0;
                dst_fits = r.ips_fit.1;
              })
              built
          ∙ ap some (sym (append_assoc (summed head) image (replicate slack 0))))
    where
      whole : (n : ℕ) → 20 + n ≤ 1500 → 1500 ≡ 20 + (n + (1480 - n))
      whole n h = omega arith

  delivered_lem :
      Reaches a b s
      → (c : IpCache) → rx_ip b.core (summed head ++ image) c ≡ (next_layer 1 image ∷ [], c)
  unfolding head plain_head has_next_layer
  delivered_lem r c =
      rx_ip-next_layer head image refl b.core c
        (record { from_one = r.source_one; to_me = refl; alive = omega arith; known = refl })

  framed_lem :
      rx_ether true (wired (frame_of a b packet_of) (summed head ++ image))
      ≡ to_ip (summed head ++ image)
  unfolding ether_protocol
  framed_lem = rx_ether-wired (frame_of a b packet_of) (summed head ++ image) true

  crosses :
      Reaches a b s
      → id < 65536
      → icmp_len m ≡ some (length image)
      → 20 + length image ≤ 1500
      → icmp_build m (replicate (length image + slack) 0) ≡ some (image ++ replicate slack 0)
      → Crosses a b id s m image
  crosses r i l fits built = record {
    packet = packet_of;
    wire = wired (frame_of a b packet_of) (summed head ++ image);
    received = summed head ++ image;
    sent = sent_lem r l fits;
    transmitted = transmitted_lem r i l fits built;
    framed = framed_lem;
    delivered = delivered_lem r;
  }

-- Echo requests and replies cross.
echo-Crosses :
    (a b : Station) (ip_id : ℕ) (s : ArpState IpBuilder) (type_ id seq : ℕ) (payload : Bytes)
    → Reaches a b s
    → ip_id < 65536
    → is_echo type_ ≡ true
    → id < 65536
    → seq < 65536
    → 28 + length payload ≤ 1500
    → Crosses a b ip_id s (echo type_ id seq payload) (Built.summed type_ 0 id seq payload)
unfolding slack icmp_len
echo-Crosses a b ip_id s type_ id seq payload r i k x y fits =
    let image = Built.summed type_ 0 id seq payload in
    let l = Built.length-summed type_ 0 id seq payload in
    crosses a b ip_id s (echo type_ id seq payload) image r i (ap some (sym l)) (omega arith) (
      ap (λ n. icmp_build (echo type_ id seq payload) (replicate (n + (1480 - length image)) 0)) l
      ∙ Built.icmp_build-echo (echo type_ id seq payload) id seq payload (1480 - length image) k
          (omega arith) x y refl refl refl)

-- Two stations that reach each other. An echo request whose packet fits the MTU crosses to the
-- second one and is answered there by an echo reply with the same identifier, sequence number and
-- data. The reply crosses back and goes to the raw socket that waits for it, if there is one, with
-- all three.
pub ping :
    (a b : Station) (ip_id ip_id' id seq : ℕ) (payload : Bytes) (s s' : ArpState IpBuilder)
    → Reaches a b s
    → Reaches b a s'
    → ip_id < 65536
    → ip_id' < 65536
    → id < 65536
    → seq < 65536
    → 28 + length payload ≤ 1500
    → (request : Bytes) × (reply : Bytes) × Crosses a b ip_id s (echo 8 id seq payload) request
      × (rx_icmp b.core (ip_of a) (ip_of b) 1 request
          ≡ Icmp.tx_icmp (ip_of b) (ip_of a) (echo 0 id seq payload))
      × Crosses b a ip_id' s' (echo 0 id seq payload) reply
      × (rx_icmp a.core (ip_of b) (ip_of a) 1 reply
          ≡ (if a.core.rip_socket (ip_of a) 1 (ip_of b) then raw_data reply else no_socket))
      × (icmp_echo_id reply ≡ some id)
      × (icmp_echo_seq reply ≡ some seq)
      × (icmp_data reply ≡ payload)
ping a b ip_id ip_id' id seq payload s s' r r' i i' x y fits = (
  Built.summed 8 0 id seq payload,
  Built.summed 0 0 id seq payload,
  echo-Crosses a b ip_id s 8 id seq payload r i refl x y fits,
  request_answered b.core (ip_of a) (ip_of b) 1 id seq payload,
  echo-Crosses b a ip_id' s' 0 id seq payload r' i' refl x y fits,
  reply_received a.core (ip_of b) (ip_of a) 1 id seq payload,
  Built.echo_id-summed 0 0 id seq payload,
  Built.echo_seq-summed 0 0 id seq payload,
  Built.data-summed 0 0 id seq payload,
)
