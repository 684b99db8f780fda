-- ===== src/Packet/Ether/Wired.antt =====
-- A frame that is sent arrives.
use tipy.Common.{
  ℕ, suc, ◌+◌, ◌/◌, ◌%◌, ◌<◌, ◌≡◌, refl, ap, ◌∙◌, Bool, none, some, [], ◌∷◌, ◌++◌, length,
  replicate, take, drop, lt→ltb, arith,
}
use tipy.Wire.Struct.{Bytes, ◌>>=◌}
use tipy.Packet.Frame.{pack_front}
use tipy.Packet.Arp.{mac_high, mac_low}
use tipy.Packet.Ether.{
  EtherBuilder, payload_build, payload_len, ether_header, ether_build, ether_len, ether_dst,
  ether_src, ether_type, transmit, mtu, EtherInput, raised, ether_protocol, rx_parsed, rx_ether,
}

pub record Fits (b : EtherBuilder) : Type 0 where
  pub dst_fits : b.dst < 281474976710656
  pub src_fits : b.src < 281474976710656
  pub type_fits : b.type_ < 65536

-- The header, in front of what its payload wrote.
unfoldable pub wired : EtherBuilder → Bytes → Bytes
wired b rest =
    mac_high b.dst / 16777216
    ∷ mac_high b.dst / 65536 % 256
    ∷ mac_high b.dst / 256 % 256
    ∷ mac_high b.dst % 256
    ∷ mac_low b.dst / 256
    ∷ mac_low b.dst % 256
    ∷ mac_high b.src / 16777216
    ∷ mac_high b.src / 65536 % 256
    ∷ mac_high b.src / 256 % 256
    ∷ mac_high b.src % 256
    ∷ mac_low b.src / 256
    ∷ mac_low b.src % 256
    ∷ b.type_ / 256
    ∷ b.type_ % 256
    ∷ rest

module _ (b : EtherBuilder) where
  ether_header-wired : Fits b → ether_header b ≡ some (wired b [])
  unfolding ether_header wired
  ether_header-wired f = rw (
    lt→ltb (mac_high b.dst) 4294967296 (omega (arith, f.dst_fits)),
    lt→ltb (mac_low b.dst) 65536 (omega arith),
    lt→ltb (mac_high b.src) 4294967296 (omega (arith, f.src_fits)),
    lt→ltb (mac_low b.src) 65536 (omega arith),
    lt→ltb b.type_ 65536 f.type_fits,
  )

  length-wired : length (wired b []) ≡ 14
  unfolding wired
  length-wired = refl

  -- The payload gets a view of the frame behind the header.
  behind_header :
      (rest : Bytes)
      → (payload_build b.payload (drop 14 (wired b [] ++ rest))
          >>= (λ built. some (take 14 (wired b [] ++ rest) ++ built)))
        ≡ (payload_build b.payload rest >>= (λ built. some (wired b built)))
  unfolding wired
  behind_header rest = refl

  ether_build-wired :
      (slack : ℕ) (built : Bytes)
      → Fits b
      → payload_build b.payload (replicate slack 0) ≡ some built
      → ether_build b (replicate (14 + slack) 0) ≡ some (wired b built)
  unfolding ether_build
  ether_build-wired slack built f e =
      rw (ether_header-wired f, pack_front 14 slack (wired b []) length-wired)
        (behind_header (replicate slack 0) ∙ ap (λ o. o >>= (λ built. some (wired b built))) e)

  take-wired :
      (built : Bytes) (slack : ℕ)
      → take (14 + length built) (wired b (built ++ replicate slack 0)) ≡ wired b built
  unfolding wired
  take-wired built slack =
      ap (λ n. take n (wired b (built ++ replicate slack 0))) (unary (length built))
      ∙ ap (λ ws. wired b ws) (exact built slack)
    where
      unary :
          (n : ℕ)
          → 14 + n
            ≡ suc (suc (suc (suc (suc (suc (suc (suc (suc (suc (suc (suc (suc (suc n)))))))))))))
      unary n = omega arith

      exact : (built : Bytes) (slack : ℕ) → take (length built) (built ++ replicate slack 0) ≡ built
      exact [] slack = refl
      exact (x ∷ xs) slack = ap (λ ys. x ∷ ys) (exact xs slack)

  -- A payload that fits the MTU goes on the wire behind its header, without the unused bytes.
  pub transmit-wired :
      (built : Bytes) (slack : ℕ)
      → Fits b
      → payload_len b.payload ≡ some (length built)
      → payload_build b.payload (replicate mtu 0) ≡ some (built ++ replicate slack 0)
      → transmit b ≡ some (wired b built)
  unfolding transmit ether_len
  transmit-wired built slack f l e =
      rw (ether_build-wired mtu (built ++ replicate slack 0) f e, l)
        (ap some (take-wired built slack))

  module _ (rest : Bytes) where
    dst_read : ether_dst (wired b rest) ≡ some b.dst
    unfolding wired
    dst_read = ap some (omega arith)

    src_read : ether_src (wired b rest) ≡ some b.src
    unfolding wired
    src_read = ap some (omega arith)

    type_read : ether_type (wired b rest) ≡ some b.type_
    unfolding wired
    type_read = ap some (omega arith)

    behind : drop 14 (wired b rest) ≡ rest
    unfolding wired
    behind = refl

    rx_parsed-wired :
        (has_ip : Bool)
        → rx_parsed has_ip (wired b rest) ≡ some (ether_protocol has_ip b.dst b.src b.type_ rest)
    unfolding rx_parsed
    rx_parsed-wired has_ip = rw (dst_read, src_read, type_read, behind)

    -- The receiver hands it to the protocol of its type, with the addresses of the header.
    pub rx_ether-wired :
        (has_ip : Bool)
        → rx_ether has_ip (wired b rest) ≡ ether_protocol has_ip b.dst b.src b.type_ rest
    unfolding rx_ether
    rx_ether-wired has_ip =
        ap (λ o. elim o as (λ _. EtherInput) [ none ↦ raised | some input ↦ input ])
          (rx_parsed-wired has_ip)
