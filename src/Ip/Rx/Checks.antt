-- ===== src/Ip/Rx/Checks.antt =====
-- The checks of `rx_ip` in tipy/protocols/ip/rx.py.
use tipy.Common.{
  ℕ, ◌≤◌, ◌≡◌, ◌≢◌, refl, ◌⊎◌, inl, inr, Bool, true, false, not, ◌||◌, Option, none, some, List, [],
  ◌∷◌, length, take, if◌then◌else◌, ltb, ltb→le, ◌==◌, arith,
}
use tipy.Wire.Struct.{Bytes}
use tipy.Wire.Csum.{inet_csum_little}
use tipy.Ip.Cache.{IpCache}
use tipy.Ip.Rx.{
  IpPacket, ip_parser, is_broadcast, is_multicast, Delivery, next_layer, raw_data, icmp, raised,
  Core, icmp_about, accept, rx_parsed, rx_ip,
}

-- A packet for this host: its header is not longer than 20 bytes and has the right checksum, it
-- comes from one host to this one, and it has time to live.
pub record Passes (core : Core) (p : IpPacket) (frame : Bytes) : Type 0 where
  pub summed : inet_csum_little (take p.ihl frame) 0 ≡ 0
  pub short : p.ihl ≤ 20
  pub from_one : (is_broadcast p.src ≡ false) × (is_multicast p.src ≡ false)
  pub to_me : p.dst ≡ core.unicast_ip
  pub alive : p.ttl ≢ 0

-- Nothing goes to a next layer or a raw socket.
unfoldable pub NoneDelivered : List Delivery → Type 0
NoneDelivered [] = Unit
NoneDelivered (next_layer protocol frame ∷ ds) = ⊥
NoneDelivered (raw_data protocol data_bytes ∷ ds) = ⊥
NoneDelivered (icmp type_ code data_bytes ∷ ds) = NoneDelivered ds
NoneDelivered (raised ∷ ds) = NoneDelivered ds

module _ (core : Core) (frame : Bytes) (c : IpCache) where
  Refused : List Delivery × IpCache → Type 0
  Refused (ds, c') = (c' ≡ c) × NoneDelivered ds

  Outcome : IpPacket → List Delivery × IpCache → Type 0
  Outcome p r = (Passes core p frame × (r ≡ accept core p frame c)) ⊎ Refused r

  both_false : (a b : Bool) → (a || b) ≡ false → (a ≡ false) × (b ≡ false)
  both_false true b e = absurd (cc e)
  both_false false b e = (refl, e)

  not-false : (a : Bool) → not a ≡ false → a ≡ true
  not-false true e = refl
  not-false false e = absurd (cc e)

  equal_of : (a b : ℕ) → (a == b) ≡ true → a ≡ b
  equal_of a b e = ground arith

  apart_of : (a b : ℕ) → (a == b) ≡ false → a ≢ b
  apart_of a b e = λ h. ground arith

  rx_parsed-Outcome : (p : IpPacket) → Outcome p (rx_parsed core p frame c)
  unfolding rx_parsed Outcome Refused NoneDelivered icmp_about
  rx_parsed-Outcome p = checksum (inet_csum_little (take p.ihl frame) 0 == 0) refl
    where
      timed :
          (b : Bool)
          → (p.ttl == 0) ≡ b
          → (inet_csum_little (take p.ihl frame) 0 == 0) ≡ true
          → ltb 20 p.ihl ≡ false
          → (is_broadcast p.src || (is_multicast p.src || not (p.dst == core.unicast_ip))) ≡ false
          → Outcome p (if b then (icmp_about 11 0 p ∷ [], c) else accept core p frame c)
      timed true e s l a = inr (refl, tt)
      timed false e s l a =
          let (x, yz) = both_false _ _ a in
          let (y, z) = both_false _ _ yz in
          inl (
            record {
              summed = equal_of _ _ s;
              short = ltb→le 20 p.ihl l;
              from_one = (x, y);
              to_me = equal_of _ _ (not-false _ z);
              alive = apart_of p.ttl 0 e;
            },
            refl,
          )

      addressed :
          (b : Bool)
          → (is_broadcast p.src || (is_multicast p.src || not (p.dst == core.unicast_ip))) ≡ b
          → (inet_csum_little (take p.ihl frame) 0 == 0) ≡ true
          → ltb 20 p.ihl ≡ false
          → Outcome p (
              if b
              then ([], c)
              else (if p.ttl == 0 then (icmp_about 11 0 p ∷ [], c) else accept core p frame c))
      addressed true e s l = inr (refl, tt)
      addressed false e s l = timed (p.ttl == 0) refl s l e

      optioned :
          (b : Bool)
          → ltb 20 p.ihl ≡ b
          → (inet_csum_little (take p.ihl frame) 0 == 0) ≡ true
          → Outcome p (
              if b
              then ([], c)
              else (if is_broadcast p.src || (is_multicast p.src || not (p.dst == core.unicast_ip))
                  then ([], c)
                  else (if p.ttl == 0 then (icmp_about 11 0 p ∷ [], c) else accept core p frame c)))
      optioned true e s = inr (refl, tt)
      optioned false e s = addressed _ refl s e

      checksum :
          (b : Bool)
          → (inet_csum_little (take p.ihl frame) 0 == 0) ≡ b
          → Outcome p (
              if not b
              then ([], c)
              else (if ltb 20 p.ihl
                  then ([], c)
                  else (if is_broadcast p.src
                        || (is_multicast p.src || not (p.dst == core.unicast_ip))
                      then ([], c)
                      else (if p.ttl == 0
                          then (icmp_about 11 0 p ∷ [], c)
                          else accept core p frame c))))
      checksum true e = optioned (ltb 20 p.ihl) refl e
      checksum false e = inr (refl, tt)

-- The two ways in which a frame may be handled.
Handled : (core : Core) (frame : Bytes) (c : IpCache) → List Delivery × IpCache → Type 0
Handled core frame c r =
    ((p : IpPacket) × (20 ≤ length frame)
      × (ip_parser frame ≡ some p)
      × Passes core p frame
      × (r ≡ accept core p frame c))
    ⊎ ((r.1 ≡ c) × NoneDelivered r.0)

-- Every frame is either a packet for this host that passes all checks and is accepted, or it
-- changes no session and reaches no next layer and no raw socket: at most an ICMP message or an
-- exception comes of it.
pub rx_ip-Passes :
    (core : Core) (frame : Bytes) (c : IpCache)
    → ((p : IpPacket) × (20 ≤ length frame)
        × (ip_parser frame ≡ some p)
        × Passes core p frame
        × (rx_ip core frame c ≡ accept core p frame c))
      ⊎ (((rx_ip core frame c).1 ≡ c) × NoneDelivered (rx_ip core frame c).0)
unfolding rx_ip NoneDelivered Handled Outcome Refused
rx_ip-Passes core frame c = sized (ltb (length frame) 20) refl
  where
    parsed :
        (o : Option IpPacket)
        → ip_parser frame ≡ o
        → 20 ≤ length frame
        → Handled core frame c (elim o as (λ _. List Delivery × IpCache) [
          | none ↦ (raised ∷ [], c)
          | some p ↦ rx_parsed core p frame c
        ])
    parsed none e l = inr (refl, tt)
    parsed (some p) e l = elim (rx_parsed-Outcome core frame c p) [
      | inl (passes, same) ↦ inl (p, l, e, passes, same)
      | inr refused ↦ inr refused
    ]

    sized :
        (b : Bool)
        → ltb (length frame) 20 ≡ b
        → Handled core frame c (
            if b then ([], c) else elim (ip_parser frame) as (λ _. List Delivery × IpCache) [
              | none ↦ (raised ∷ [], c)
              | some p ↦ rx_parsed core p frame c
            ])
    sized true e = inr (refl, tt)
    sized false e = parsed (ip_parser frame) refl (ltb→le (length frame) 20 e)
