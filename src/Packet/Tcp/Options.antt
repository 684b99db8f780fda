-- ===== src/Packet/Tcp/Options.antt =====
-- What the options of a segment look like on the wire, and what the parser finds there.
use tipy.Common.{
  ℕ, zero, suc, ◌+◌, ◌≤◌, ◌<◌, ◌≡◌, refl, sym, ap, ◌∙◌, Option, none, some, List, [], ◌∷◌, ◌++◌,
  append_assoc, length, length-append, drop, length-drop, drop-drop, replicate, get_elem?, write,
  if◌then◌else◌, le→leb, lt→ltb, arith,
}
use mathlib.Core.Path.{subst}
use tipy.Common.Places.{write-append_length, get_elem?-append_length}
use tipy.Wire.Struct.{Bytes, ◌>>=◌, pack_into, unpack_h}
use tipy.Packet.Tcp.{TcpOpt, opt_eol, opt_nop, opt_mss, opt_len, opt_bytes, opts_len, build_opts}
use tipy.Packet.Tcp.Parse.{options_from}

-- The wire form of RFC 9293, section 3.1.
unfoldable pub opt_image : TcpOpt → Bytes
opt_image (opt_eol count) = replicate count 0
opt_image opt_nop = 1 ∷ []
opt_image opt_mss = 2 ∷ 4 ∷ 5 ∷ 180 ∷ []

unfoldable pub opts_image : List TcpOpt → Bytes
unfolding opt_image
opts_image [] = []
opts_image (o ∷ os) = opt_image o ++ opts_image os

-- Every TCPOptEOL stands for one byte.
unfoldable pub IsBuildable : List TcpOpt → Type 0
IsBuildable [] = Unit
IsBuildable (opt_eol count ∷ os) = (count ≡ 1) × IsBuildable os
IsBuildable (opt_nop ∷ os) = IsBuildable os
IsBuildable (opt_mss ∷ os) = IsBuildable os

-- The MSS that the receiver takes from the options: the last one before the end of the list.
unfoldable pub mss_of : List TcpOpt → Option ℕ → Option ℕ
mss_of [] m = m
mss_of (opt_eol count ∷ os) m = m
mss_of (opt_nop ∷ os) m = mss_of os m
mss_of (opt_mss ∷ os) m = mss_of os (some 1460)

pack_option :
    (o : TcpOpt) (os : List TcpOpt)
    → IsBuildable (o ∷ os)
    → (opt_bytes o ≡ some (opt_image o)) × ((length (opt_image o) ≡ opt_len o) × IsBuildable os)
unfolding IsBuildable opt_image
pack_option (opt_eol count) os (one, h) =
    subst
      (λ c.
        (opt_bytes (opt_eol c) ≡ some (opt_image (opt_eol c)))
        × ((length (opt_image (opt_eol c)) ≡ c) × IsBuildable os))
      (sym one) (refl, (refl, h))
pack_option opt_nop os h = (refl, (refl, h))
pack_option opt_mss os h = (refl, (refl, h))

pub length-opts_image : (os : List TcpOpt) → IsBuildable os → length (opts_image os) ≡ opts_len os
unfolding opts_image opts_len
length-opts_image [] h = refl
length-opts_image (o ∷ os) h =
    let (b, (l, h')) = pack_option o os h in
    omega (arith, length-append (opt_image o) (opts_image os), length-opts_image os h', l)

-- Bytes packed over the zeros behind what is there.
pub pack_into-append :
    (xs ys zs : Bytes) (i : ℕ)
    → i ≡ length xs
    → length ys ≤ length zs
    → pack_into (xs ++ zs) i ys ≡ some ((xs ++ ys) ++ drop (length ys) zs)
pack_into-append xs ys zs i e h =
    ap (λ k. pack_into (xs ++ zs) k ys) e
    ∙ ap (λ b. if b then some (write (xs ++ zs) (length xs) ys) else none)
        (le→leb (length xs + length ys) (length (xs ++ zs)) (omega (arith, length-append xs zs)))
    ∙ ap some (write-append_length xs ys zs h ∙ sym (append_assoc xs ys (drop (length ys) zs)))

join_parts :
    (xs ys ws zs : Bytes) (n m : ℕ)
    → length ys ≡ n
    → (xs ++ ys) ++ (ws ++ drop m (drop (length ys) zs)) ≡ xs ++ ((ys ++ ws) ++ drop (n + m) zs)
join_parts xs ys ws zs n m e =
    append_assoc xs ys _
    ∙ ap (λ t. xs ++ t)
        (ap (λ t. ys ++ (ws ++ t)) (drop-drop m (length ys) zs ∙ ap (λ k. drop (k + m) zs) e)
          ∙ sym (append_assoc ys ws _))

pub build_opts-opts_image :
    (os : List TcpOpt) (xs zs : Bytes) (i : ℕ)
    → i ≡ length xs
    → IsBuildable os
    → opts_len os ≤ length zs
    → build_opts os (xs ++ zs) i ≡ some (xs ++ (opts_image os ++ drop (opts_len os) zs))
unfolding build_opts opts_image opts_len
build_opts-opts_image [] xs zs i e h l = refl
build_opts-opts_image (o ∷ os) xs zs i e h l =
    let (b, (k, h')) = pack_option o os h in
    let ys = opt_image o in
    let rest : Bytes → Option Bytes = λ frame. build_opts os frame (i + opt_len o) in
    ap (λ p. p >>= (λ packed. pack_into (xs ++ zs) i packed >>= rest)) b
    ∙ ap (λ p. p >>= rest) (pack_into-append xs ys zs i e (omega arith))
    ∙ build_opts-opts_image os (xs ++ ys) (drop (length ys) zs) (i + opt_len o)
        (omega (arith, length-append xs ys)) h' (omega (arith, length-drop (length ys) zs))
    ∙ ap some (join_parts xs ys (opts_image os) zs (opt_len o) (opts_len os) k)

-- The byte at the end of what is known.
byte_at :
    (xs ys : Bytes) (i j k : ℕ)
    → i ≡ length xs + j
    → get_elem? ys j ≡ some k
    → get_elem? (xs ++ ys) i ≡ some k
byte_at xs ys i j k e h = ap (get_elem? (xs ++ ys)) e ∙ get_elem?-append_length xs ys j ∙ h

options_from_nop :
    (fuel d i : ℕ) (frame : Bytes) (m : Option ℕ)
    → i < d
    → get_elem? frame i ≡ some 1
    → options_from (suc fuel) frame d i m ≡ options_from fuel frame d (i + 1) m
unfolding options_from
options_from_nop fuel d i frame m h b = rw (lt→ltb i d h, options_from, b)

options_from_eol :
    (fuel d i : ℕ) (frame : Bytes) (m : Option ℕ)
    → i < d
    → get_elem? frame i ≡ some 0
    → options_from (suc fuel) frame d i m ≡ some m
unfolding options_from
options_from_eol fuel d i frame m h b = rw (lt→ltb i d h, options_from, b)

options_from_mss :
    (fuel d i : ℕ) (frame : Bytes) (m : Option ℕ)
    → i < d
    → get_elem? frame i ≡ some 2
    → unpack_h frame (i + 2) ≡ some 1460
    → options_from (suc fuel) frame d i m ≡ options_from fuel frame d (i + 4) (some 1460)
unfolding options_from
options_from_mss fuel d i frame m h b v = ground arith

options_from_end :
    (fuel d i : ℕ) (frame : Bytes) (m : Option ℕ) → d ≤ i → options_from fuel frame d i m ≡ some m
unfolding options_from
options_from_end zero d i frame m h = refl
options_from_end (suc fuel) d i frame m h = ground arith

pub options_from-opts_image :
    (os : List TcpOpt) (xs rest : Bytes) (fuel i d : ℕ) (m : Option ℕ)
    → i ≡ length xs
    → d ≡ i + opts_len os
    → opts_len os ≤ fuel
    → IsBuildable os
    → options_from fuel (xs ++ (opts_image os ++ rest)) d i m ≡ some (mss_of os m)
unfolding opts_image opt_image opts_len IsBuildable mss_of
options_from-opts_image [] xs rest fuel i d m e f l h =
    options_from_end fuel d i (xs ++ rest) m (omega arith)
options_from-opts_image (opt_eol count ∷ os) xs rest zero i d m e f l (one, h) =
    absurd (omega arith)
options_from-opts_image (opt_eol count ∷ os) xs rest (suc fuel) i d m e f l (one, h) =
    options_from_eol fuel d i _ m (omega arith)
      (byte_at xs _ i 0 0 (omega arith) (zero_first count _ one))
  where
    zero_first :
        (count : ℕ) (ws : Bytes)
        → count ≡ 1
        → get_elem? ((replicate count 0 ++ opts_image os) ++ ws) 0 ≡ some 0
    zero_first zero ws e = absurd (omega arith)
    zero_first (suc count) ws e = refl
options_from-opts_image (opt_nop ∷ os) xs rest zero i d m e f l h = absurd (omega arith)
options_from-opts_image (opt_nop ∷ os) xs rest (suc fuel) i d m e f l h =
    options_from_nop fuel d i _ m (omega arith) (byte_at xs _ i 0 1 (omega arith) refl)
    ∙ ap (λ frame. options_from fuel frame d (i + 1) m)
        (sym (append_assoc xs (1 ∷ []) (opts_image os ++ rest)))
    ∙ options_from-opts_image os (xs ++ (1 ∷ [])) rest fuel (i + 1) d m
        (omega (arith, length-append xs (1 ∷ []))) (omega arith) (omega arith) h
options_from-opts_image (opt_mss ∷ os) xs rest zero i d m e f l h = absurd (omega arith)
options_from-opts_image (opt_mss ∷ os) xs rest (suc fuel) i d m e f l h =
    options_from_mss fuel d i _ m (omega arith) (byte_at xs _ i 0 2 (omega arith) refl)
      (value xs _ i e)
    ∙ ap (λ frame. options_from fuel frame d (i + 4) (some 1460))
        (sym (append_assoc xs (2 ∷ 4 ∷ 5 ∷ 180 ∷ []) (opts_image os ++ rest)))
    ∙ options_from-opts_image os (xs ++ (2 ∷ 4 ∷ 5 ∷ 180 ∷ [])) rest fuel (i + 4) d (some 1460)
        (omega (arith, length-append xs (2 ∷ 4 ∷ 5 ∷ 180 ∷ []))) (omega arith) (omega arith) h
  where
    value :
        (xs ws : Bytes) (i : ℕ)
        → i ≡ length xs
        → unpack_h (xs ++ (2 ∷ 4 ∷ 5 ∷ 180 ∷ ws)) (i + 2) ≡ some 1460
    value xs ws i e = rw (
      byte_at xs (2 ∷ 4 ∷ 5 ∷ 180 ∷ ws) (i + 2) 2 5 (omega arith) refl,
      byte_at xs (2 ∷ 4 ∷ 5 ∷ 180 ∷ ws) (suc (i + 2)) 3 180 (omega arith) refl,
    )
