-- ===== src/Packet/Tx/Routes.antt =====
-- Which way `tx_ip` of tipy/protocols/ip/tx.py takes, by the length of the datagram and its
-- destination.
use Prim.Native.Nat.{bit_and}
use tipy.Common.{
  ◌==◌, ℕ, ◌+◌, ◌≡◌, refl, ap, ◌∙◌, Bool, true, false, Option, none, some, [], leb, if◌then◌else◌,
}
use tipy.Wire.Struct.{Bytes, ◌>>=◌}
use tipy.Ip.Rx.{is_broadcast}
use tipy.Arp.{ArpState, ip_frame, tx_ether, tx_ip_to}
use tipy.Packet.Ip.{Payload, payload_len, IpBuilder, ip_len, psum}
use tipy.Packet.Ip.Options.{Parsed, parsed, ip_opt_builder}
use tipy.Packet.Ip.Built.{Head, plain, ip_builder-plain}
use tipy.Packet.Tx.{
  Network, SockOpt, Outcome, raised, done, payload_bytes, frag_builder, fragments, send_fragments,
  route, sent_or_fragmented, is_in_subnet, tx_ip_with, tx_ip_options, ttl_of, outcome, tx_ip,
}

pub fragments-none : (b : IpBuilder) → fragments b ≡ none
unfolding fragments frag_builder
fragments-none b = go (psum b)
  where
    bytes : (o : Option Bytes) → (o >>= frag_builder) ≡ none
    bytes none = refl
    bytes (some payload) = refl

    go : (o : Option ℕ) → (o >>= (λ phsum. payload_bytes b.payload phsum >>= frag_builder)) ≡ none
    go none = refl
    go (some phsum) = bytes (payload_bytes b.payload phsum)

-- A datagram without options: its builder.
unfoldable pub plain_head : ℕ → ℕ → ℕ → ℕ → ℕ → ℕ → Head
plain_head n id ttl protocol src dst = record {
  len = n;
  id = id;
  ttl = ttl;
  protocol = protocol;
  src = src;
  dst = dst;
}

-- Of the three ways of `route`, two go by ARP, for one of two addresses.
next_hop :
    (net : Network) (dst : ℕ) (d : IpBuilder) (s : ArpState IpBuilder)
    → route net dst d s ≡ (
        if dst == 4294967295
        then tx_ether (ip_frame 281474976710655 d) s
        else tx_ip_to (if bit_and dst net.mask == net.network then dst else net.router) d s)
unfolding route is_in_subnet is_broadcast
next_hop net dst d s = go (dst == 4294967295) (bit_and dst net.mask == net.network)
  where
    go :
        (to_all inside : Bool)
        → (if to_all
            then tx_ether (ip_frame 281474976710655 d) s
            else (if inside then tx_ip_to dst d s else tx_ip_to net.router d s))
          ≡ (if to_all
              then tx_ether (ip_frame 281474976710655 d) s
              else tx_ip_to (if inside then dst else net.router) d s)
    go true inside = refl
    go false true = refl
    go false false = refl

module _ (net : Network) (payload : Payload) (src dst protocol : ℕ) (o : SockOpt) (id : ℕ)
    (s : ArpState IpBuilder) (n : ℕ) (l : payload_len payload ≡ some n) where
  head : Head
  head = plain_head n id (ttl_of o) protocol src dst

  sent_or_raised : Bool → Outcome
  sent_or_raised fits = if fits then done (route net dst (plain payload head) s) else raised

  tx_ip_with-sent :
      outcome (tx_ip_with net payload src dst (ttl_of o) protocol [] id s)
      ≡ sent_or_raised (leb (20 + n) 1500)
  unfolding tx_ip_with ip_len sent_or_fragmented plain_head sent_or_raised head
  tx_ip_with-sent = rw (ip_builder-plain payload head l, l) (go (leb (20 + n) 1500))
    where
      go :
          (fits : Bool)
          → outcome (
              if fits
              then some (route net dst (plain payload head) s)
              else (fragments (plain payload head)
                  >>= (λ frags. some (send_fragments dst frags s))))
            ≡ sent_or_raised fits
      go true = refl
      go false = rw (fragments-none (plain payload head))

  -- Without options a datagram goes the way of its destination if it fits the MTU with its header.
  pub tx_ip-route :
      o.options ≡ none
      → tx_ip net payload src dst protocol o id s ≡ (
          if leb (20 + n) 1500
          then done (route net dst (plain payload (plain_head n id (ttl_of o) protocol src dst)) s)
          else raised)
  unfolding tx_ip tx_ip_options sent_or_raised head
  tx_ip-route e =
      ap
        (λ (raw_opts : Option Bytes).
          tx_ip_options net payload src dst (ttl_of o) protocol id (parsed_opts raw_opts) s)
        e
      ∙ tx_ip_with-sent
    where
      parsed_opts : Option Bytes → Parsed
      parsed_opts raw_opts = elim raw_opts as (λ _. Parsed) [
        | none ↦ parsed []
        | some opts ↦ ip_opt_builder opts
      ]

  -- A datagram without options that fits the MTU with its header: to the broadcast address it is
  -- sent at once in a broadcast frame; else it is sent to, or kept for, the MAC address of its next
  -- hop, which is the destination itself if the mask takes it to the host's network, and the router
  -- if not. A longer one ends in an exception, and nothing is sent, queued or asked for.
  pub tx_ip-tx_ip_to :
      o.options ≡ none
      → let d = plain payload (plain_head n id (ttl_of o) protocol src dst) in
        tx_ip net payload src dst protocol o id s ≡ (
          if leb (20 + n) 1500
          then done (
              if dst == 4294967295
              then tx_ether (ip_frame 281474976710655 d) s
              else tx_ip_to (if bit_and dst net.mask == net.network then dst else net.router) d s)
          else raised)
  tx_ip-tx_ip_to e =
      let d = plain payload (plain_head n id (ttl_of o) protocol src dst) in
      tx_ip-route e
      ∙ ap (λ s'. if leb (20 + n) 1500 then done s' else raised) (next_hop net dst d s)
