-- ===== src/Packet/Icmp/Received.antt =====
-- What tipy/protocols/icmp/rx.py does with the messages that builder.py writes.
use tipy.Common.{
  ℕ, ◌+◌, ◌<◌, ◌≡◌, ◌⊎◌, inl, inr, refl, ap, ◌∙◌, Option, none, some, ◌∷◌, ◌++◌, append-nil, length,
  replicate, if◌then◌else◌, le→ltb, ◌==◌, arith,
}
use tipy.Wire.Struct.{Bytes}
use tipy.Wire.Csum.{inet_csum_little}
use tipy.Ip.Rx.{Core}
use tipy.Packet.Icmp.{
  IcmpBuilder, icmp_build, IcmpInput, dropped, no_socket, raises, index_error, name_error, tx_icmp,
  raw_data, h_icmp_dest_unreach, h_icmp_echo_req, h_icmp_echo_rep, handle_icmp, dispatch, rx_icmp,
}
use tipy.Packet.Icmp.Built.{
  summed, unsummed, filled-summed, echo_id-summed, echo_seq-summed, data-summed, icmp_build-error,
}

unfoldable pub returned : Option IcmpInput → IcmpInput
returned o = elim o as (λ _. IcmpInput) [ none ↦ raises index_error | some input ↦ input ]

module _ (core : Core) (src dst protocol type_ code first second : ℕ) (payload : Bytes) where
  -- A message that was built passes the checks, and its handler is called.
  pub rx_icmp-summed :
      rx_icmp core src dst protocol (summed type_ code first second payload)
      ≡ returned
          (handle_icmp core src dst protocol type_ code (summed type_ code first second payload))
  unfolding rx_icmp dispatch returned summed unsummed
  rx_icmp-summed =
      let frame = summed type_ code first second payload in
      ap
        (λ t.
          if t
          then dropped
          else (if inet_csum_little frame 0 == 0
              then returned (dispatch core src dst protocol frame)
              else dropped))
        (le→ltb (length frame) 8 (omega arith))
      ∙ ap (λ c. if c == 0 then returned (dispatch core src dst protocol frame) else dropped)
          (filled-summed type_ code first second payload)

-- `tx_icmp` about an unreachable protocol or port
abbrev pub unreachable : ℕ → Bytes → IcmpBuilder
unreachable code about = record {
  type_ = 3;
  code = code;
  payload = some about;
  echo_id = none;
  echo_seq = none;
}

-- An echo request or reply.
abbrev pub echo : ℕ → ℕ → ℕ → Bytes → IcmpBuilder
echo type_ id seq payload = record {
  type_ = type_;
  code = 0;
  payload = some payload;
  echo_id = some id;
  echo_seq = some seq;
}

exact_frame :
    (b : IcmpBuilder) (n : ℕ) (frame : Bytes)
    → icmp_build b (replicate (n + 8 + 0) 0) ≡ some (frame ++ replicate 0 0)
    → icmp_build b (replicate (n + 8) 0) ≡ some frame
exact_frame b n frame e =
    ap (λ k. icmp_build b (replicate k 0)) (plus_zero n) ∙ e ∙ ap some (append-nil frame)
  where
    plus_zero : (n : ℕ) → n + 8 ≡ n + 8 + 0
    plus_zero n = omega arith

-- Every message about an unreachable port or protocol that the builder writes for a packet ends in
-- its receiver with NameError.
pub unreachable-raises :
    (core : Core) (src dst protocol code first : ℕ) (about : Bytes)
    → (code ≡ 3) ⊎ (code ≡ 2)
    → (frame : Bytes) × (icmp_build
          (unreachable code (first ∷ about))
          (replicate (length (first ∷ about) + 8) 0)
        ≡ some frame)
      × (rx_icmp core src dst protocol frame ≡ raises name_error)
unfolding returned handle_icmp h_icmp_dest_unreach summed unsummed
unreachable-raises core src dst protocol code first about k =
    let payload = first ∷ about in
    let frame = summed 3 code 0 0 payload in
    (
      frame,
      exact_frame (unreachable code payload) (length payload) frame
          (icmp_build-error (unreachable code payload) payload 0 refl (small k) refl),
      rx_icmp-summed core src dst protocol 3 code 0 0 payload ∙ handled k,
    )
  where
    small : (code ≡ 3) ⊎ (code ≡ 2) → code < 256
    small (inl e) = omega arith
    small (inr e) = omega arith

    handled :
        (code ≡ 3) ⊎ (code ≡ 2)
        → returned (handle_icmp core src dst protocol 3 code (summed 3 code 0 0 (first ∷ about)))
          ≡ raises name_error
    handled (inl e) = rw e
    handled (inr e) = rw e

module _ (core : Core) (src dst protocol id seq : ℕ) (payload : Bytes) where
  -- A request is answered to its source with what it holds.
  pub request_answered :
      rx_icmp core src dst protocol (summed 8 0 id seq payload)
      ≡ tx_icmp dst src (echo 0 id seq payload)
  unfolding returned handle_icmp h_icmp_echo_req
  request_answered =
      rx_icmp-summed core src dst protocol 8 0 id seq payload
      ∙ rw (
        echo_id-summed 8 0 id seq payload,
        echo_seq-summed 8 0 id seq payload,
        data-summed 8 0 id seq payload,
      )

  -- A reply goes to the raw socket of its addresses.
  pub reply_received : rx_icmp core src dst protocol (summed 0 0 id seq payload) ≡ (
      if core.rip_socket dst protocol src then raw_data (summed 0 0 id seq payload) else no_socket)
  unfolding returned handle_icmp h_icmp_echo_rep
  reply_received = rx_icmp-summed core src dst protocol 0 0 id seq payload
