-- ===== src/Packet/Ip/Delivered.antt =====
-- A packet that tipy/protocols/ip/builder.py writes arrives at tipy/protocols/ip/rx.py.
use tipy.Common.{
  ℕ, ◌+◌, ◌*◌, ◌/◌, ◌%◌, ◌≡◌, ◌≢◌, refl, ap, ◌∙◌, true, false, Option, none, some, List, [], ◌∷◌,
  ◌++◌, length, length-append, take, take_all, drop, if◌then◌else◌, le→ltb, ◌==◌, arith,
}
use tipy.Wire.Struct.{Bytes}
use tipy.Ip.Cache.{IpCache}
use tipy.Ip.Rx.{
  IpPacket, ip_parser, flag_mf, fragment_offset, is_broadcast, is_multicast, Delivery, next_layer,
  raised, Core, has_next_layer, next_frame, deliver, accept, rx_parsed, rx_ip,
}
use tipy.Packet.Ip.Built.{Head, unsummed, summed, filled-summed, length-summed}

-- What the parser reads of a packet whose payload has the length that its header says.
abbrev parsed : Head → Bytes → IpPacket
parsed h built = record {
  ihl = 20;
  total_len = 20 + h.len;
  id = h.id;
  flags_fragoff = 0;
  ttl = h.ttl;
  protocol = h.protocol;
  src = h.src;
  dst = h.dst;
  payload = built;
  header = summed h;
}

-- The packet is for the host, from one host, alive, and of a protocol that has a next layer.
pub record IsFor (core : Core) (h : Head) : Type 0 where
  pub from_one : (is_broadcast h.src ≡ false) × (is_multicast h.src ≡ false)
  pub to_me : h.dst ≡ core.unicast_ip
  pub alive : h.ttl ≢ 0
  pub known : has_next_layer h.protocol ≡ true

module _ (h : Head) (built : Bytes) (l : length built ≡ h.len) where
  take_header : take 20 (summed h ++ built) ≡ summed h
  unfolding summed unsummed
  take_header = refl

  drop_header : drop 20 (summed h ++ built) ≡ built
  unfolding summed unsummed
  drop_header = refl

  ip_parser-parsed : ip_parser (summed h ++ built) ≡ some (parsed h built)
  unfolding ip_parser summed unsummed
  ip_parser-parsed = rw (
    halves (20 + h.len),
    halves h.id,
    quarters h.src,
    quarters h.dst,
    take_all (20 + h.len) built (omega arith),
  )
    where
      halves : (v : ℕ) → v / 256 * 256 + v % 256 ≡ v
      halves v = omega arith

      quarters :
          (v : ℕ)
          → (v / 16777216 * 256 + v / 65536 % 256) * 65536 + (v / 256 % 256 * 256 + v % 256) ≡ v
      quarters v = omega arith

  next_frame-built : next_frame (parsed h built) (summed h ++ built) ≡ built
  unfolding next_frame
  next_frame-built =
      ap (drop 20) (
        take_all (20 + h.len) (summed h ++ built)
          (omega (arith, length-append (summed h) built, length-summed h)))
      ∙ drop_header

  accept-next_layer :
      (core : Core) (c : IpCache)
      → has_next_layer h.protocol ≡ true
      → accept core (parsed h built) (summed h ++ built) c ≡ (next_layer h.protocol built ∷ [], c)
  unfolding accept deliver flag_mf fragment_offset
  accept-next_layer core c k = rw (k, next_frame-built)

  rx_parsed-next_layer :
      (core : Core) (c : IpCache)
      → IsFor core h
      → rx_parsed core (parsed h built) (summed h ++ built) c
        ≡ (next_layer h.protocol built ∷ [], c)
  unfolding rx_parsed
  rx_parsed-next_layer core c t =
      let (b, m) = t.from_one in
      rw
        (
          take_header,
          filled-summed h,
          b,
          m,
          equal h.dst core.unicast_ip t.to_me,
          apart h.ttl t.alive,
        )
        (accept-next_layer core c t.known)
    where
      equal : (a b : ℕ) → a ≡ b → (a == b) ≡ true
      equal a b e = ground arith

      apart : (a : ℕ) → a ≢ 0 → (a == 0) ≡ false
      apart a e = ground arith

  -- A packet that was built reaches the next layer of its protocol, with the payload that was built.
  pub rx_ip-next_layer :
      (core : Core) (c : IpCache)
      → IsFor core h
      → rx_ip core (summed h ++ built) c ≡ (next_layer h.protocol built ∷ [], c)
  unfolding rx_ip
  rx_ip-next_layer core c t =
      let frame = summed h ++ built in
      let received : Option IpPacket → List Delivery × IpCache = λ o.
        elim o as (λ _. List Delivery × IpCache) [
          | none ↦ (raised ∷ [], c)
          | some p ↦ rx_parsed core p frame c
        ] in
      ap (λ t. if t then ([], c) else received (ip_parser frame))
        (le→ltb (length frame) 20 (omega (arith, length-append (summed h) built, length-summed h)))
      ∙ ap received ip_parser-parsed
      ∙ rx_parsed-next_layer core c t
