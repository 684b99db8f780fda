-- ===== src/Packet/Tests/Ping.antt =====
-- An echo request and its reply between two hosts of one network.
use tipy.Common.{ℕ, ◌≡◌, refl, false, none, some, [], ◌∷◌, if◌then◌else◌, ◌==◌, arith}
use tipy.Wire.Struct.{Bytes}
use tipy.Ip.Rx.{is_broadcast, is_multicast}
use tipy.Arp.{ArpState}
use tipy.Packet.Icmp
use tipy.Packet.Icmp.{icmp_echo_id, icmp_echo_seq, icmp_data, rx_icmp, raw_data, no_socket}
use tipy.Packet.Icmp.Received.{echo}
use tipy.Packet.Ip.{IpBuilder}
use tipy.Packet.Tx.{Network, is_in_subnet}
use tipy.Packet.Tx.Ping.{Station, Reaches, Crosses, ping}

abbrev net : Network
net = record { network = 3232236032; mask = 4294967040; router = 3232236033 }

abbrev station : ℕ → ℕ → Station
station ip mac = record {
  core = record { unicast_ip = ip; rip_socket = λ local protocol remote. protocol == 1 };
  net = net;
  mac = mac;
}

abbrev here : Station
here = station 3232236232 2199023255553

abbrev there : Station
there = station 3232236233 2199023255554

-- A host that knows one MAC address.
abbrev knows : ℕ → ℕ → ArpState IpBuilder
knows known mac = record {
  arp_cache = λ ip. if ip == known then some mac else none;
  arp_wait_list = λ ip. false;
  arp_wait_prob_list = λ ip. false;
  pending_datagrams = λ ip. none;
  tasks = [];
  conflict_ips = [];
  sent = [];
  raised = false;
}

here-Reaches : Reaches here there (knows 3232236233 2199023255554)
unfolding is_in_subnet is_broadcast is_multicast
here-Reaches = record {
  inside = refl;
  resolved = refl;
  source_one = (refl, refl);
  target_one = refl;
  ips_fit = (omega arith, omega arith);
  macs_fit = (omega arith, omega arith);
}

there-Reaches : Reaches there here (knows 3232236232 2199023255553)
unfolding is_in_subnet is_broadcast is_multicast
there-Reaches = record {
  inside = refl;
  resolved = refl;
  source_one = (refl, refl);
  target_one = refl;
  ips_fit = (omega arith, omega arith);
  macs_fit = (omega arith, omega arith);
}

ping_example :
    let s = knows 3232236233 2199023255554 in
    let s' = knows 3232236232 2199023255553 in
    (request : Bytes) × (reply : Bytes) × Crosses here there 7 s
      (echo 8 1 2 (104 ∷ 105 ∷ []))
      request
    × (rx_icmp there.core 3232236232 3232236233 1 request
        ≡ Icmp.tx_icmp 3232236233 3232236232 (echo 0 1 2 (104 ∷ 105 ∷ [])))
    × Crosses there here 9 s' (echo 0 1 2 (104 ∷ 105 ∷ [])) reply
    × (rx_icmp here.core 3232236233 3232236232 1 reply
        ≡ (if here.core.rip_socket 3232236232 1 3232236233 then raw_data reply else no_socket))
    × (icmp_echo_id reply ≡ some 1)
    × (icmp_echo_seq reply ≡ some 2)
    × (icmp_data reply ≡ 104 ∷ 105 ∷ [])
ping_example =
    ping here there 7 9 1 2 (104 ∷ 105 ∷ []) (knows 3232236233 2199023255554)
      (knows 3232236232 2199023255553) here-Reaches there-Reaches (omega arith) (omega arith)
      (omega arith) (omega arith) (omega arith)
