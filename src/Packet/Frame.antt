-- ===== src/Packet/Frame.antt =====
-- What the builders of tipy/protocols share: a header is packed into the front of a frame of zeros.
use tipy.Common.{
  ℕ, ◌+◌, ◌≡◌, refl, sym, ap, ◌∙◌, some, [], ◌++◌, length, length-replicate, replicate, arith,
}
use tipy.Wire.Struct.{Bytes, pack_into}
use tipy.Packet.Tcp.Options.{pack_into-append}
use tipy.Packet.Tcp.Header.{zeros_behind}

pub pack_front :
    (n slack : ℕ) (packed : Bytes)
    → length packed ≡ n
    → pack_into (replicate (n + slack) 0) 0 packed ≡ some (packed ++ replicate slack 0)
pack_front n slack packed e =
    ap (λ k. pack_into (replicate (k + slack) 0) 0 packed) (sym e)
    ∙ pack_into-append [] packed (replicate (length packed + slack) 0) 0 refl
        (omega (arith, length-replicate {A = ℕ} (length packed + slack) 0))
    ∙ ap (λ zs. some (packed ++ zs)) (zeros_behind (length packed) slack)
