-- ===== src/Packet/Ip/Options/Parsing.antt =====
-- When `IPOptBuilder._parse` of tipy/protocols/ip/builder.py ends, and what it makes of a NOP.
use tipy.Common.{
  ℕ, zero, suc, ◌+◌, ◌-◌, ◌<◌, ◌≡◌, ◌≢◌, refl, sym, ap, ◌∙◌, Bool, true, false, Option, none, some,
  List, [], ◌∷◌, ◌++◌, length, drop, get_elem?, replicate, if◌then◌else◌, ltb, ◌==◌, arith,
}
use mathlib.Core.Path.{subst}
use tipy.Wire.Struct.{Bytes}
use tipy.Packet.Ip.Options.{
  IpOpt, opt_eol, opt_nop, opt_lsrr, opt_unknown, buffer, ip_opt_padding, Parsed, looping,
  bad_option, type_error, parsed, parse_from, pad_parsed, ip_opt_builder,
}

-- The four ways of a round, by the tests of the byte.
pick : Bool → Bool → Bool → Parsed → Parsed → Parsed → Parsed → Parsed
pick eol nop lsrr w x y z = elim eol as (λ _. Parsed) [
  | true ↦ w
  | false ↦ elim nop as (λ _. Parsed) [
    | true ↦ x
    | false ↦ elim lsrr as (λ _. Parsed) [ true ↦ y | false ↦ z ]
  ]
]

-- One round of the loop, by the byte at `ptr` and the one behind it.
route : ℕ → Bytes → ℕ → List IpOpt → Option ℕ → Parsed
route fuel raw ptr opts len_fld = elim len_fld as (λ _. Parsed) [
  | none ↦ bad_option
  | some n ↦ parse_from fuel raw (ptr + n) (opts ++ (opt_lsrr raw ptr n ∷ []))
]

round : ℕ → Bytes → ℕ → List IpOpt → Option ℕ → Option ℕ → Parsed
round fuel raw ptr opts kind len_fld = elim kind as (λ _. Parsed) [
  | none ↦ parsed opts
  | some k ↦
      pick (k == 0) (k == 1) (k == 131)
        (parse_from fuel raw (ptr + 1) (opts ++ (opt_eol (buffer raw) ∷ [])))
        (parse_from fuel raw (ptr + 1) (opts ++ (opt_nop (buffer raw) ∷ [])))
        (route fuel raw ptr opts len_fld)
        (parsed (opts ++ (opt_unknown (drop ptr raw) ptr (length raw) ∷ [])))
]

parse_from-round :
    (fuel : ℕ) (raw : Bytes) (ptr : ℕ) (opts : List IpOpt)
    → parse_from (suc fuel) raw ptr opts
      ≡ round fuel raw ptr opts (get_elem? raw ptr) (get_elem? raw (suc ptr))
unfolding parse_from round route pick
parse_from-round fuel raw ptr opts = refl

-- An LSRR option with the length 0 is at no place.
abbrev pub NoEmptyRoute : Bytes → Type 0
NoEmptyRoute raw = (i : ℕ) → get_elem? raw i ≡ some 131 → get_elem? raw (suc i) ≢ some 0

within : (raw : Bytes) (i x : ℕ) → get_elem? raw i ≡ some x → i < length raw
within [] i x e = cc
within (y ∷ raw) zero x e = omega arith
within (y ∷ raw) (suc i) x e = omega (arith, within raw i x e)

equal_of : (a b : ℕ) → (a == b) ≡ true → a ≡ b
equal_of a b e = ground arith

module _ (raw : Bytes) (h : NoEmptyRoute raw) where
  parse_from-ends :
      (fuel ptr : ℕ) (opts : List IpOpt)
      → length raw - ptr < fuel
      → parse_from fuel raw ptr opts ≢ looping
  unfolding round route pick
  parse_from-ends zero ptr opts lt = absurd (omega arith)
  parse_from-ends (suc fuel) ptr opts lt =
      subst (λ r. r ≢ looping) (sym (parse_from-round fuel raw ptr opts))
        (go (get_elem? raw ptr) (get_elem? raw (suc ptr)) refl refl (parse_from-ends fuel (ptr + 1))
          (λ n. parse_from-ends fuel (ptr + n)))
    where
      go :
          (kind len_fld : Option ℕ)
          → get_elem? raw ptr ≡ kind
          → get_elem? raw (suc ptr) ≡ len_fld
          → ((os : List IpOpt)
              → length raw - (ptr + 1) < fuel
              → parse_from fuel raw (ptr + 1) os ≢ looping)
          → ((n : ℕ) (os : List IpOpt)
              → length raw - (ptr + n) < fuel
              → parse_from fuel raw (ptr + n) os ≢ looping)
          → round fuel raw ptr opts kind len_fld ≢ looping
      go none len_fld e e' next skip = λ x. cc
      go (some k) len_fld e e' next skip =
          picked (k == 0) (k == 1) (k == 131) refl (next _ closer) (next _ closer)
        where
          inside : ptr < length raw
          inside = within raw ptr k e

          closer : length raw - (ptr + 1) < fuel
          closer = omega (arith, inside)

          routed :
              (len_fld : Option ℕ)
              → get_elem? raw (suc ptr) ≡ len_fld
              → k ≡ 131
              → route fuel raw ptr opts len_fld ≢ looping
          routed none e' k' = λ x. cc
          routed (some zero) e' k' = absurd (h ptr (e ∙ ap some k') e')
          routed (some (suc n)) e' k' = skip (suc n) _ (omega (arith, inside))

          picked :
              (eol nop lsrr : Bool)
              → (k == 131) ≡ lsrr
              → {w x : Parsed} → w ≢ looping
              → x ≢ looping
              → pick eol nop lsrr w x
                  (route fuel raw ptr opts len_fld)
                  (parsed (opts ++ (opt_unknown (drop ptr raw) ptr (length raw) ∷ [])))
                ≢ looping
          picked true nop lsrr e0 hw hx = hw
          picked false true lsrr e0 hw hx = hx
          picked false false true e0 hw hx = routed len_fld e' (equal_of k 131 e0)
          picked false false false e0 hw hx = λ x. cc

pad_parsed-ends : (p : Parsed) → p ≢ looping → pad_parsed p ≢ looping
unfolding pad_parsed
pad_parsed-ends looping h = absurd (h refl)
pad_parsed-ends bad_option h = λ x. cc
pad_parsed-ends type_error h = λ x. cc
pad_parsed-ends (parsed opts) h = go (ip_opt_padding opts)
  where
    go :
        (o : Option (List IpOpt))
        → (elim o as (λ _. Parsed) [ none ↦ type_error | some padded ↦ parsed padded ]) ≢ looping
    go none = λ x. cc
    go (some padded) = λ x. cc

-- Options in which no byte 131 is followed by a byte 0 are parsed, or refused, in at most as many
-- rounds as there are bytes and one.
pub ip_opt_builder-ends : (raw : Bytes) → NoEmptyRoute raw → ip_opt_builder raw ≢ looping
unfolding ip_opt_builder
ip_opt_builder-ends [] h = λ x. cc
ip_opt_builder-ends (first ∷ rest) h = go (ltb 40 (length (first ∷ rest)))
  where
    p : Parsed
    p = parse_from (suc (length (first ∷ rest))) (first ∷ rest) 0 []

    go : (b : Bool) → (if b then parsed [] else pad_parsed p) ≢ looping
    go true = λ x. cc
    go false =
        pad_parsed-ends p
          (parse_from-ends (first ∷ rest) h (suc (length (first ∷ rest))) 0 [] (omega arith))

-- A round at an LSRR option of the length 0 repeats itself.
stuck :
    (fuel : ℕ) (raw : Bytes) (ptr : ℕ) (opts : List IpOpt)
    → get_elem? raw ptr ≡ some 131
    → get_elem? raw (suc ptr) ≡ some 0
    → parse_from fuel raw ptr opts ≡ looping
unfolding parse_from round route pick
stuck zero raw ptr opts e e' = refl
stuck (suc fuel) raw ptr opts e e' =
    parse_from-round fuel raw ptr opts
    ∙ ap (λ k. round fuel raw ptr opts k (get_elem? raw (suc ptr))) e
    ∙ ap (route fuel raw ptr opts) e'
    ∙ ap (λ n. parse_from fuel raw n (opts ++ (opt_lsrr raw ptr 0 ∷ []))) (plus_zero ptr)
    ∙ stuck fuel raw ptr (opts ++ (opt_lsrr raw ptr 0 ∷ [])) e e'
  where
    plus_zero : (n : ℕ) → n + 0 ≡ n
    plus_zero n = omega arith

-- A byte behind NOPs.
behind_nops :
    (k i : ℕ) (rest : Bytes) → get_elem? (replicate k 1 ++ rest) (k + i) ≡ get_elem? rest i
behind_nops zero i rest = ap (get_elem? rest) (omega arith)
behind_nops (suc k) i rest =
    ap (get_elem? (1 ∷ (replicate k 1 ++ rest))) (suc_sum k i) ∙ behind_nops k i rest
  where
    suc_sum : (k i : ℕ) → suc k + i ≡ suc (k + i)
    suc_sum k i = omega arith

before : (k i : ℕ) (rest : Bytes) → i < k → get_elem? (replicate k 1 ++ rest) i ≡ some 1
before zero i rest h = absurd (omega arith)
before (suc k) zero rest h = refl
before (suc k) (suc i) rest h = before k i rest (omega arith)

-- NOPs, then an LSRR option whose length field is 0: the loop of `_parse` goes on for any number of
-- rounds.
pub parse_from-looping :
    (k : ℕ) (rest : Bytes) (fuel : ℕ)
    → parse_from fuel (replicate k 1 ++ (131 ∷ 0 ∷ rest)) 0 [] ≡ looping
unfolding parse_from round route pick
parse_from-looping k rest fuel = go fuel k 0 [] (omega arith)
  where
    raw : Bytes
    raw = replicate k 1 ++ (131 ∷ 0 ∷ rest)

    go : (fuel m ptr : ℕ) (opts : List IpOpt) → ptr + m ≡ k → parse_from fuel raw ptr opts ≡ looping
    go zero m ptr opts e = refl
    go (suc fuel) zero ptr opts e =
        stuck (suc fuel) raw ptr opts
          (ap (get_elem? raw) (sum_zero ptr k e) ∙ behind_nops k 0 (131 ∷ 0 ∷ rest))
          (ap (get_elem? raw) (sum_one ptr k e) ∙ behind_nops k 1 (131 ∷ 0 ∷ rest))
      where
        sum_zero : (ptr k : ℕ) → ptr + 0 ≡ k → ptr ≡ k + 0
        sum_zero ptr k e = omega arith

        sum_one : (ptr k : ℕ) → ptr + 0 ≡ k → suc ptr ≡ k + 1
        sum_one ptr k e = omega arith
    go (suc fuel) (suc m) ptr opts e =
        parse_from-round fuel raw ptr opts
        ∙ ap (λ x. round fuel raw ptr opts x (get_elem? raw (suc ptr)))
            (before k ptr (131 ∷ 0 ∷ rest) (omega arith))
        ∙ go fuel m (ptr + 1) (opts ++ (opt_nop (buffer raw) ∷ [])) (omega arith)
