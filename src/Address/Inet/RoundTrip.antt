-- ===== src/Address/Inet/RoundTrip.antt =====
-- The text of an address is read back as the address.
use tipy.Common.{
  ℕ, zero, suc, ◌+◌, ◌*◌, ◌/◌, ◌%◌, ◌<◌, ◌≡◌, refl, ap, ◌∙◌, Bool, true, false, not, ◌&&◌, ◌||◌,
  Option, none, some, [], ◌∷◌, ◌++◌, if◌then◌else◌, ◌==◌, arith,
}
use tipy.Address.Text.{Text, contains, split, split-join, split_field, join}
use tipy.Address.Inet.{octet_of, of_octets, ip_address, print_octet, str_ip}

-- What is checked of the text of every octet.
good_octet : ℕ → Bool
good_octet n =
    elim (octet_of (print_octet n)) as (λ _. Bool) [ none ↦ false | some m ↦ m == n ]
    && not (contains b'.' (print_octet n))

-- All octets below a bound are checked.
good_up_to : ℕ → Bool
good_up_to zero = true
good_up_to (suc k) = if good_octet k then good_up_to k else false

good_below : (n k : ℕ) → n < k → good_up_to k ≡ true → good_octet n ≡ true
unfolding good_up_to
good_below n zero below e = absurd (omega arith)
good_below n (suc k) below e = ground (arith, good_below n k)

octets_good : good_up_to 256 ≡ true
unfolding good_up_to good_octet octet_of print_octet contains
octets_good = refl

octet_read : (n : ℕ) → n < 256 → octet_of (print_octet n) ≡ some n
unfolding good_octet
octet_read n h = go (octet_of (print_octet n)) _ (good_below n 256 h octets_good)
  where
    go :
        (o : Option ℕ) (b : Bool)
        → (elim o as (λ _. Bool) [ none ↦ false | some m ↦ m == n ] && b) ≡ true
        → o ≡ some n
    go none b e = absurd (cc e)
    go (some m) b e = ground arith

no_dot : (n : ℕ) → n < 256 → contains b'.' (print_octet n) ≡ false
unfolding good_octet
no_dot n h = go _ (contains b'.' (print_octet n)) (good_below n 256 h octets_good)
  where
    go : (a b : Bool) → (a && not b) ≡ true → b ≡ false
    go true true e = absurd (cc e)
    go true false e = refl
    go false b e = absurd (cc e)

has_dot : (xs ys : Text) → contains b'.' (xs ++ (b'.' ∷ ys)) ≡ true
unfolding contains
has_dot [] ys = refl
has_dot (x ∷ xs) ys = go (x == b'.') (has_dot xs ys)
  where
    go : (a : Bool) {b : Bool} → b ≡ true → (a || b) ≡ true
    go true e = refl
    go false e = e

dotted : (ip : ℕ) → contains b'.' (str_ip ip) ≡ true
unfolding str_ip join
dotted ip = has_dot (print_octet (ip / 16777216 % 256)) _

split_four :
    (w x y z : Text)
    → contains b'.' w ≡ false
    → contains b'.' x ≡ false
    → contains b'.' y ≡ false
    → contains b'.' z ≡ false
    → split b'.' (w ++ (b'.' ∷ (x ++ (b'.' ∷ (y ++ (b'.' ∷ z)))))) ≡ w ∷ x ∷ y ∷ z ∷ []
split_four w x y z hw hx hy hz =
    split-join b'.' w _ hw
    ∙ ap (λ fs. w ∷ fs)
        (split-join b'.' x _ hx
          ∙ ap (λ fs. x ∷ fs) (split-join b'.' y _ hy ∙ ap (λ fs. y ∷ fs) (split_field b'.' z hz)))

fields :
    (ip : ℕ)
    → split b'.' (str_ip ip)
      ≡ print_octet (ip / 16777216 % 256)
        ∷ print_octet (ip / 65536 % 256)
        ∷ print_octet (ip / 256 % 256)
        ∷ print_octet (ip % 256)
        ∷ []
unfolding str_ip join
fields ip =
    split_four (print_octet (ip / 16777216 % 256)) (print_octet (ip / 65536 % 256))
      (print_octet (ip / 256 % 256)) (print_octet (ip % 256))
      (no_dot (ip / 16777216 % 256) (omega arith)) (no_dot (ip / 65536 % 256) (omega arith))
      (no_dot (ip / 256 % 256) (omega arith)) (no_dot (ip % 256) (omega arith))

-- The text of every address of 32 bits is accepted and read as that address.
pub str_ip-ip_address : (ip : ℕ) → ip < 4294967296 → ip_address (str_ip ip) ≡ some ip
unfolding ip_address of_octets
str_ip-ip_address ip h =
    ap (λ b. if b then of_octets (split b'.' (str_ip ip)) else none) (dotted ip)
    ∙ ap of_octets (fields ip)
    ∙ rw
        (
          octet_read (ip / 16777216 % 256) (omega arith),
          octet_read (ip / 65536 % 256) (omega arith),
          octet_read (ip / 256 % 256) (omega arith),
          octet_read (ip % 256) (omega arith),
        )
        (ap some (whole ip h))
  where
    whole :
        (ip : ℕ)
        → ip < 4294967296
        → ip / 16777216 % 256 * 16777216
            + ip / 65536 % 256 * 65536
            + ip / 256 % 256 * 256
            + ip % 256
          ≡ ip
    whole ip h = omega arith
