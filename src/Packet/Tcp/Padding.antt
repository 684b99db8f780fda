-- ===== src/Packet/Tcp/Padding.antt =====
-- The padding of tipy/protocols/tcp/builder.py, where it is wider than a byte.
use tipy.Common.{
  ℕ, ◌+◌, ◌-◌, ◌%◌, ◌<◌, ◌≡◌, refl, ◌∙◌, Option, none, some, List, [], ◌∷◌, ◌++◌, replicate, arith,
}
use tipy.Wire.Struct.{Bytes, ◌>>=◌, pack_into}
use tipy.Packet.Tcp.{
  TcpBuilder, TcpOpt, opt_eol, opt_len, opt_bytes, opts_len, tcp_opt_padding, build_opts, build,
  header, to_bytes, tcp_len,
}

-- An action that fails whatever comes in makes the whole fail.
pub fails {ℓ} :
    {A B : Type ℓ} (o : Option A) (f : A → Option B) → ((a : A) → f a ≡ none) → (o >>= f) ≡ none
fails none f h = refl
fails (some a) f h = h a

wide-none : (pad : ℕ) → 1 < pad → opt_bytes (opt_eol pad) ≡ none
wide-none pad h = ground arith

build_opts-wide :
    (os : List TcpOpt) (pad : ℕ) (frame : Bytes) (i : ℕ)
    → 1 < pad
    → build_opts (os ++ (opt_eol pad ∷ [])) frame i ≡ none
unfolding build_opts
build_opts-wide [] pad frame i h = rw (wide-none pad h)
build_opts-wide (o ∷ os) pad frame i h = fails (opt_bytes o) _ (λ packed.
    fails (pack_into frame i packed) _ (λ frame'. build_opts-wide os pad frame' (i + opt_len o) h))

padding-wide :
    (os : List TcpOpt)
    → 0 < opts_len os % 4
    → opts_len os % 4 < 3
    → tcp_opt_padding os ≡ os ++ (opt_eol (4 - opts_len os % 4) ∷ [])
unfolding tcp_opt_padding
padding-wide os h l = ground arith

-- Options that leave two or three bytes to pad cannot be built: the format of the padding has
-- two or three values, one is given, and `to_bytes` ends with struct.error.
pub to_bytes-padding :
    (b : TcpBuilder) (given : List TcpOpt) (phsum : ℕ)
    → b.options ≡ tcp_opt_padding given
    → 0 < opts_len given % 4
    → opts_len given % 4 < 3
    → to_bytes b phsum ≡ none
unfolding to_bytes build
to_bytes-padding b given phsum e h l =
    let pad = 4 - opts_len given % 4 in
    fails (header b) _ (λ packed.
      fails (pack_into (replicate (tcp_len b) 0) 0 packed) _ (λ frame.
        rw (e ∙ padding-wide given h l, build_opts-wide given pad frame 20 (omega arith))))
