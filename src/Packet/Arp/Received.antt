-- ===== src/Packet/Arp/Received.antt =====
-- An ARP packet that is built is received with the addresses that it was built with.
use tipy.Common.{
  ℕ, ◌+◌, ◌/◌, ◌%◌, ◌≤◌, ◌<◌, ◌≡◌, refl, ap, ◌∙◌, some, [], ◌∷◌, ◌++◌, length, replicate, lt→ltb,
  le→ltb, if◌then◌else◌, arith,
}
use tipy.Wire.Struct.{Bytes}
use tipy.Arp.{ArpState, Host}
use tipy.Packet.Frame.{pack_front}
use tipy.Packet.Arp.{
  mac_high, mac_low, ArpBuilder, arp_packed, arp_build, arp_op, arp_sha, arp_spa, arp_tpa,
  rx_arp_op, rx_arp_parsed, rx_arp,
}

pub record Fits (b : ArpBuilder) : Type 0 where
  pub op_fits : b.op < 65536
  pub sha_fits : b.sha < 281474976710656
  pub tha_fits : b.tha < 281474976710656
  pub spa_fits : b.spa < 4294967296
  pub tpa_fits : b.tpa < 4294967296

-- The packet of RFC 826, with what comes behind it.
unfoldable pub arp_image : ArpBuilder → Bytes → Bytes
arp_image b rest =
    0
    ∷ 1
    ∷ 8
    ∷ 0
    ∷ 6
    ∷ 4
    ∷ b.op / 256
    ∷ b.op % 256
    ∷ mac_high b.sha / 16777216
    ∷ mac_high b.sha / 65536 % 256
    ∷ mac_high b.sha / 256 % 256
    ∷ mac_high b.sha % 256
    ∷ mac_low b.sha / 256
    ∷ mac_low b.sha % 256
    ∷ b.spa / 16777216
    ∷ b.spa / 65536 % 256
    ∷ b.spa / 256 % 256
    ∷ b.spa % 256
    ∷ mac_high b.tha / 16777216
    ∷ mac_high b.tha / 65536 % 256
    ∷ mac_high b.tha / 256 % 256
    ∷ mac_high b.tha % 256
    ∷ mac_low b.tha / 256
    ∷ mac_low b.tha % 256
    ∷ b.tpa / 16777216
    ∷ b.tpa / 65536 % 256
    ∷ b.tpa / 256 % 256
    ∷ b.tpa % 256
    ∷ rest

module _ (b : ArpBuilder) where
  arp_packed-image : Fits b → arp_packed b ≡ some (arp_image b [])
  unfolding arp_packed arp_image
  arp_packed-image f = rw (
    lt→ltb b.op 65536 f.op_fits,
    lt→ltb (mac_high b.sha) 4294967296 (omega (arith, f.sha_fits)),
    lt→ltb (mac_low b.sha) 65536 (omega arith),
    lt→ltb b.spa 4294967296 f.spa_fits,
    lt→ltb (mac_high b.tha) 4294967296 (omega (arith, f.tha_fits)),
    lt→ltb (mac_low b.tha) 65536 (omega arith),
    lt→ltb b.tpa 4294967296 f.tpa_fits,
  )

  length-image : length (arp_image b []) ≡ 28
  unfolding arp_image
  length-image = refl

  append-image : (rest : Bytes) → arp_image b [] ++ rest ≡ arp_image b rest
  unfolding arp_image
  append-image rest = refl

  pub arp_build-image :
      (slack : ℕ)
      → Fits b
      → arp_build b (replicate (28 + slack) 0) ≡ some (arp_image b (replicate slack 0))
  unfolding arp_build
  arp_build-image slack f =
      rw (arp_packed-image f, pack_front 28 slack (arp_image b []) length-image)
        (ap some (append-image (replicate slack 0)))

  module _ (rest : Bytes) where
    long : 28 ≤ length (arp_image b rest)
    unfolding arp_image
    long = omega arith

    pub op_read : arp_op (arp_image b rest) ≡ some b.op
    unfolding arp_image
    op_read = ap some (omega arith)

    pub sha_read : arp_sha (arp_image b rest) ≡ some b.sha
    unfolding arp_image
    sha_read = ap some (omega arith)

    pub spa_read : arp_spa (arp_image b rest) ≡ some b.spa
    unfolding arp_image
    spa_read = ap some (omega arith)

    pub tpa_read : arp_tpa (arp_image b rest) ≡ some b.tpa
    unfolding arp_image
    tpa_read = ap some (omega arith)

    -- The receiver, which may find padding behind the packet, reads what was written.
    pub rx_arp-image :
        {D : Type 0} (host : Host) (dst src : ℕ) (s : ArpState D)
        → rx_arp host dst src (arp_image b rest) s
          ≡ some (rx_arp_op host dst src b.op b.sha b.spa b.tpa s)
    unfolding rx_arp rx_arp_parsed
    rx_arp-image host dst src s =
        ap (λ t. if t then some s else rx_arp_parsed host dst src (arp_image b rest) s)
          (le→ltb (length (arp_image b rest)) 28 long)
        ∙ rw (op_read, sha_read, spa_read, tpa_read)

  -- An ARP packet whose fields fit, built into a frame with any room behind it, is received with the
  -- operation and the addresses that it was built with.
  pub arp_build-rx_arp :
      {D : Type 0} (slack : ℕ) (host : Host) (dst src : ℕ) (s : ArpState D)
      → Fits b
      → (frame : Bytes) × (arp_build b (replicate (28 + slack) 0) ≡ some frame)
        × (rx_arp host dst src frame s ≡ some (rx_arp_op host dst src b.op b.sha b.spa b.tpa s))
  arp_build-rx_arp slack host dst src s f = (
    arp_image b (replicate slack 0),
    arp_build-image slack f,
    rx_arp-image (replicate slack 0) host dst src s,
  )
