-- ===== src/Address/Ethernet/RoundTrip.antt =====
-- The text of a MAC address is read back as the address.
use tipy.Common.{
  ℕ, suc, ◌+◌, ◌-◌, ◌*◌, ◌/◌, ◌%◌, ◌<◌, ◌≡◌, refl, ap, ◌∙◌, Bool, true, false, ◌&&◌, Option, some,
  List, [], ◌∷◌, length, if◌then◌else◌, ltb, ◌==◌, arith,
}
use tipy.Wire.Struct.{Bytes}
use tipy.Wire.Csum.Rfc.{IsBytes}
use tipy.Address.Text.{Text, contains, split, split-join, split_field, replace, erase, join}
use tipy.Address.Ethernet.{mac_address, print_digit, print_byte, mac_str}

-- The value of hexadecimal digits in lower case.
unfoldable pub digit_value : ℕ → ℕ
digit_value c = if ltb c b'a' then c - b'0' else c - b'a' + 10

unfoldable pub hex_from : ℕ → Text → ℕ
unfolding digit_value
hex_from acc [] = acc
hex_from acc (c ∷ cs) = hex_from (acc * 16 + digit_value c) cs

unfoldable pub IsHex : Text → Type 0
IsHex [] = Unit
IsHex (c ∷ cs) = ((n : ℕ) × (n < 16) × (c ≡ print_digit n)) × IsHex cs

-- `int(text, 16)` gives the value of a text of hexadecimal digits.
abbrev pub ReadsHex : (Text → Option ℕ) → Type 0
ReadsHex int16 = (c : ℕ) (cs : Text) → IsHex (c ∷ cs) → int16 (c ∷ cs) ≡ some (hex_from 0 (c ∷ cs))

digit_apart :
    (n : ℕ) → n < 16 → ((print_digit n == b':') ≡ false) × ((print_digit n == b'-') ≡ false)
unfolding print_digit
digit_apart n h = (ground arith, ground arith)

digit_value_lem : (n : ℕ) → n < 16 → digit_value (print_digit n) ≡ n
unfolding print_digit digit_value
digit_value_lem n h = ground arith

texts : Bytes → List Text
texts [] = []
texts (b ∷ bs) = print_byte b ∷ texts bs

-- The digits of some bytes, with and without the colons between them.
with_colons : Bytes → Text
unfolding join texts
with_colons bs = join b':' (texts bs)

digits : Bytes → Text
digits [] = []
digits (b ∷ bs) = print_digit (b / 16) ∷ print_digit (b % 16) ∷ digits bs

value_from : ℕ → Bytes → ℕ
value_from acc [] = acc
value_from acc (b ∷ bs) = value_from (acc * 256 + b) bs

no_dash : (bs : Bytes) → IsBytes bs → contains b'-' (with_colons bs) ≡ false
unfolding with_colons texts join print_byte contains IsBytes
no_dash [] h = refl
no_dash (b ∷ []) h =
    let (p, q) = digit_apart (b / 16) (omega arith) in
    let (p', q') = digit_apart (b % 16) (omega arith) in rw (q, q')
no_dash (b ∷ c ∷ bs) h =
    let (p, q) = digit_apart (b / 16) (omega arith) in
    let (p', q') = digit_apart (b % 16) (omega arith) in rw (q, q') (no_dash (c ∷ bs) h.1)

replace-dash : (bs : Bytes) → IsBytes bs → replace b'-' b':' (with_colons bs) ≡ with_colons bs
unfolding with_colons texts join print_byte replace IsBytes
replace-dash [] h = refl
replace-dash (b ∷ []) h =
    let (p, q) = digit_apart (b / 16) (omega arith) in
    let (p', q') = digit_apart (b % 16) (omega arith) in rw (q, q')
replace-dash (b ∷ c ∷ bs) h =
    let (p, q) = digit_apart (b / 16) (omega arith) in
    let (p', q') = digit_apart (b % 16) (omega arith) in
    rw (q, q')
      (ap (λ t. print_digit (b / 16) ∷ print_digit (b % 16) ∷ b':' ∷ t) (replace-dash (c ∷ bs) h.1))

erase-colon : (bs : Bytes) → IsBytes bs → erase b':' (with_colons bs) ≡ digits bs
unfolding with_colons texts join print_byte erase digits IsBytes
erase-colon [] h = refl
erase-colon (b ∷ []) h =
    let (p, q) = digit_apart (b / 16) (omega arith) in
    let (p', q') = digit_apart (b % 16) (omega arith) in rw (p, p')
erase-colon (b ∷ c ∷ bs) h =
    let (p, q) = digit_apart (b / 16) (omega arith) in
    let (p', q') = digit_apart (b % 16) (omega arith) in
    rw (p, p')
      (ap (λ t. print_digit (b / 16) ∷ print_digit (b % 16) ∷ t) (erase-colon (c ∷ bs) h.1))

no_colon : (b : ℕ) → b < 256 → contains b':' (print_byte b) ≡ false
unfolding contains print_byte
no_colon b h =
    let (p, q) = digit_apart (b / 16) (omega arith) in
    let (p', q') = digit_apart (b % 16) (omega arith) in rw (p, p')

split-colon :
    (b : ℕ) (bs : Bytes) → IsBytes (b ∷ bs) → split b':' (with_colons (b ∷ bs)) ≡ texts (b ∷ bs)
unfolding with_colons texts join IsBytes
split-colon b [] h = split_field b':' (print_byte b) (no_colon b h.0)
split-colon b (c ∷ bs) h =
    split-join b':' (print_byte b) (with_colons (c ∷ bs)) (no_colon b h.0)
    ∙ ap (λ fs. print_byte b ∷ fs) (split-colon c bs h.1)

length-texts : (bs : Bytes) → length (texts bs) ≡ length bs
unfolding texts
length-texts [] = refl
length-texts (b ∷ bs) = ap suc (length-texts bs)

digits-IsHex : (bs : Bytes) → IsBytes bs → IsHex (digits bs)
unfolding digits IsHex IsBytes
digits-IsHex [] h = tt
digits-IsHex (b ∷ bs) (hb, h) =
    ((b / 16, omega arith, refl), ((b % 16, omega arith, refl), digits-IsHex bs h))

hex_from-digits : (bs : Bytes) (acc : ℕ) → IsBytes bs → hex_from acc (digits bs) ≡ value_from acc bs
unfolding digits hex_from value_from IsBytes
hex_from-digits [] acc h = refl
hex_from-digits (b ∷ bs) acc (hb, h) =
    ap (λ n. hex_from n (digits bs))
      (joined acc b (digit_value (print_digit (b / 16))) (digit_value (print_digit (b % 16)))
        (digit_value_lem (b / 16) (omega arith)) (digit_value_lem (b % 16) (omega arith)))
    ∙ hex_from-digits bs (acc * 256 + b) h
  where
    joined : (acc b x y : ℕ) → x ≡ b / 16 → y ≡ b % 16 → (acc * 16 + x) * 16 + y ≡ acc * 256 + b
    joined acc b x y e e' = omega arith

bytes_of : ℕ → Bytes
bytes_of mac =
    mac / 65536 / 16777216
    ∷ mac / 65536 / 65536 % 256
    ∷ mac / 65536 / 256 % 256
    ∷ mac / 65536 % 256
    ∷ mac % 65536 / 256
    ∷ mac % 65536 % 256
    ∷ []

bytes_of-IsBytes : (mac : ℕ) → mac < 281474976710656 → IsBytes (bytes_of mac)
unfolding bytes_of IsBytes
bytes_of-IsBytes mac h =
    (omega arith, (omega arith, (omega arith, (omega arith, (omega arith, (omega arith, tt))))))

value_of_bytes : (mac : ℕ) → value_from 0 (bytes_of mac) ≡ mac
unfolding bytes_of value_from
value_of_bytes mac = omega arith

mac_str-with_colons : (mac : ℕ) → mac_str mac ≡ with_colons (bytes_of mac)
unfolding mac_str with_colons texts bytes_of
mac_str-with_colons mac = refl

six_fields :
    (mac : ℕ) → mac < 281474976710656 → length (split b':' (with_colons (bytes_of mac))) ≡ 6
unfolding bytes_of texts
six_fields mac h = ap length (split-colon (mac / 65536 / 16777216) _ (bytes_of-IsBytes mac h))

twelve_digits : (mac : ℕ) → length (digits (bytes_of mac)) ≡ 12
unfolding digits bytes_of
twelve_digits mac = refl

read_back :
    (int16 : Text → Option ℕ) (mac : ℕ)
    → ReadsHex int16
    → mac < 281474976710656
    → int16 (digits (bytes_of mac)) ≡ some mac
unfolding digits bytes_of
read_back int16 mac reads h =
    reads _ _ (digits-IsHex (bytes_of mac) (bytes_of-IsBytes mac h))
    ∙ ap some (hex_from-digits (bytes_of mac) 0 (bytes_of-IsBytes mac h) ∙ value_of_bytes mac)

and_false : (a : Bool) → (a && false) ≡ false
and_false true = refl
and_false false = refl

-- The text of every address of 48 bits is accepted and read as that address.
pub mac_str-mac_address :
    (int16 : Text → Option ℕ) (mac : ℕ)
    → ReadsHex int16
    → mac < 281474976710656
    → mac_address int16 (mac_str mac) ≡ some mac
unfolding mac_address
mac_str-mac_address int16 mac reads h =
    let bs = bytes_of mac in
    let ok = bytes_of-IsBytes mac h in
    rw
      (
        mac_str-with_colons mac,
        no_dash bs ok,
        replace-dash bs ok,
        erase-colon bs ok,
        and_false (contains b':' (with_colons bs)),
        six_fields mac h,
        twelve_digits mac,
      )
      (read_back int16 mac reads h)
