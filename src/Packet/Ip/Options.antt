-- ===== src/Packet/Ip/Options.antt =====
-- The options of tipy/protocols/ip/builder.py. An option's class is given what its caller passes,
-- an integer or, by `IPOptBuilder`, the buffer of all options.
pub mod Parsing
use tipy.Common.{
  ℕ, zero, suc, ◌+◌, ◌-◌, ◌*◌, ◌/◌, ◌%◌, Bool, true, false, Option, none, some, List, [], ◌∷◌, ◌++◌,
  length, take, drop, replicate, if◌then◌else◌, ltb, leb, get_elem?, ◌==◌,
}
use tipy.Wire.Struct.{Bytes, ◌>>=◌, pack_b, pack_into}

pub data Argument : Type 0 where
  int : ℕ → Argument
  buffer : Bytes → Argument

-- `IPOptEOL(padd_count)`, `IPOptNOP(opt)`, `IPOptLSRR(opt, start, end)` and
-- `IPOptUnknown(opt, start, end)`
pub data IpOpt : Type 0 where
  opt_eol opt_nop : Argument → IpOpt
  opt_lsrr opt_unknown : Bytes → ℕ → ℕ → IpOpt

-- `len(opt)`: a buffer is no length.
unfoldable pub opt_len : IpOpt → Option ℕ
opt_len (opt_eol (int padd_count)) = some padd_count
opt_len (opt_eol (buffer opt)) = none
opt_len (opt_nop opt) = some 1
opt_len (opt_lsrr opt start end) = some (length opt)
opt_len (opt_unknown opt start end) = some (length (drop start opt))

-- sum(len(opt) for opt in opts)
unfoldable pub opts_len : List IpOpt → Option ℕ
unfolding opt_len
opts_len [] = some 0
opts_len (o ∷ os) = do n ← opt_len o; m ← opts_len os; some (n + m)

-- `build` of an option. '{n}s' pads the empty bytes to n zeros; a buffer is no part of a format
-- and no value of 'B'; '{n}s' takes the first n bytes of the buffer.
unfoldable pub opt_build : IpOpt → Bytes → ℕ → Option Bytes
opt_build (opt_eol (int padd_count)) frame offset = pack_into frame offset (replicate padd_count 0)
opt_build (opt_eol (buffer opt)) frame offset = none
opt_build (opt_nop (int opt)) frame offset = do packed ← pack_b opt; pack_into frame offset packed
opt_build (opt_nop (buffer opt)) frame offset = none
opt_build (opt_lsrr opt start end) frame offset =
    pack_into frame offset (take (length (take end (drop start opt))) opt)
opt_build (opt_unknown opt start end) frame offset = some frame

-- The options' loop in `IPBuilder.build`
unfoldable pub build_opts : List IpOpt → Bytes → ℕ → Option Bytes
unfolding opt_build opt_len
build_opts [] frame offset = some frame
build_opts (o ∷ os) frame offset = do
  frame1 ← opt_build o frame offset
  n ← opt_len o
  build_opts os frame1 (offset + n)

-- `_ip_opt_padding`
unfoldable pub ip_opt_padding : List IpOpt → Option (List IpOpt)
unfolding opts_len
ip_opt_padding opts = do
  l ← opts_len opts
  some (if l % 4 == 0 then opts else (opts ++ (opt_eol (int (4 - l % 4)) ∷ [])))

-- A loop that goes on, IPBadOptionError, another exception, and what was parsed.
pub data Parsed : Type 0 where
  looping bad_option type_error : Parsed
  parsed : List IpOpt → Parsed

-- The loop of `IPOptBuilder._parse` from `ptr` on, with the options before it. `fuel` bounds the
-- number of rounds.
unfoldable pub parse_from : ℕ → Bytes → ℕ → List IpOpt → Parsed
parse_from zero raw ptr opts = looping
parse_from (suc fuel) raw ptr opts = elim (get_elem? raw ptr) [
  | none ↦ parsed opts
  | some kind ↦ elim (kind == 0) [
    | true ↦ parse_from fuel raw (ptr + 1) (opts ++ (opt_eol (buffer raw) ∷ []))
    | false ↦ elim (kind == 1) [
      | true ↦ parse_from fuel raw (ptr + 1) (opts ++ (opt_nop (buffer raw) ∷ []))
      | false ↦ elim (kind == 131) [
        | true ↦ elim (get_elem? raw (suc ptr)) [
          | none ↦ bad_option
          | some len_fld ↦
              parse_from fuel raw (ptr + len_fld) (opts ++ (opt_lsrr raw ptr len_fld ∷ []))
        ]
        | false ↦ parsed (opts ++ (opt_unknown (drop ptr raw) ptr (length raw) ∷ []))
      ]
    ]
  ]
]

-- The padding at the end of `_parse`.
unfoldable pub pad_parsed : Parsed → Parsed
unfolding ip_opt_padding
pad_parsed looping = looping
pad_parsed bad_option = bad_option
pad_parsed type_error = type_error
pad_parsed (parsed opts) = elim (ip_opt_padding opts) [
  | none ↦ type_error
  | some padded ↦ parsed padded
]

-- `IPOptBuilder(raw).build()`, where None is the empty list. A round that goes on moves `ptr`
-- forward or, at a length of 0, repeats; so one round more than there are bytes is enough to tell.
unfoldable pub ip_opt_builder : Bytes → Parsed
unfolding parse_from pad_parsed
ip_opt_builder [] = parsed []
ip_opt_builder (first ∷ rest) =
    if ltb 40 (length (first ∷ rest))
    then parsed []
    else pad_parsed (parse_from (suc (length (first ∷ rest))) (first ∷ rest) 0 [])
