-- ===== src/Address/Inet.antt =====
-- tipy/lib/inet.py: IPAddress from a text and as a text, and the tests on addresses.
pub mod RoundTrip
use Prim.Native.Nat.{bit_and}
use tipy.Common.{
  ℕ, suc, ◌+◌, ◌*◌, ◌/◌, ◌%◌, ◌^◌, Bool, true, false, not, ◌&&◌, ◌||◌, Option, none, some, List, [],
  ◌∷◌, ◌++◌, length, if◌then◌else◌, leb, ltb, ◌==◌,
}
use tipy.Wire.Struct.{◌>>=◌}
use tipy.Ip.Rx.{is_broadcast, is_multicast}
use tipy.Address.Text.{Text, contains, split, is_digits, decimal_from, join}

-- len(octet) > 1 and octet.startswith("0")
unfoldable pub has_leading_zero : Text → Bool
has_leading_zero [] = false
has_leading_zero (x ∷ []) = false
has_leading_zero (x ∷ y ∷ xs) = x == b'0'

-- The round of the loop for one octet; `none` is IPFormatError.
unfoldable pub octet_of : Text → Option ℕ
unfolding is_digits has_leading_zero decimal_from
octet_of text =
    if is_digits text
    then (if has_leading_zero text
        then none
        else (if leb (decimal_from 0 text) 255 then some (decimal_from 0 text) else none))
    else none

-- The four rounds: `octet << (24 - i * 8)` sets bits that are not set before.
unfoldable pub of_octets : List Text → Option ℕ
unfolding octet_of
of_octets (a ∷ b ∷ c ∷ d ∷ []) = do
  w ← octet_of a
  x ← octet_of b
  y ← octet_of c
  z ← octet_of d
  some (w * 16777216 + x * 65536 + y * 256 + z)
of_octets fields = none

-- `IPAddress(text).ip`
unfoldable pub ip_address : Text → Option ℕ
unfolding contains split of_octets
ip_address text = if contains b'.' text then of_octets (split b'.' text) else none

-- f"{n}", for an octet
unfoldable pub print_octet : ℕ → Text
print_octet n =
    if ltb n 10
    then (b'0' + n) ∷ []
    else (if ltb n 100
        then (b'0' + n / 10) ∷ (b'0' + n % 10) ∷ []
        else (b'0' + n / 100) ∷ (b'0' + n / 10 % 10) ∷ (b'0' + n % 10) ∷ [])

-- `str_ip`, for an address that was made of an integer
unfoldable pub str_ip : ℕ → Text
unfolding print_octet join
str_ip ip = join b'.' (
    print_octet (ip / 16777216 % 256)
    ∷ print_octet (ip / 65536 % 256)
    ∷ print_octet (ip / 256 % 256)
    ∷ print_octet (ip % 256)
    ∷ [])

unfoldable pub is_private : ℕ → Bool
is_private ip =
    (bit_and ip 0xFF000000 == 0x0A000000)
    || ((bit_and ip 0xFFF00000 == 0xAC100000) || (bit_and ip 0xFFFF0000 == 0xC0A80000))

unfoldable pub is_public : ℕ → Bool
unfolding is_private
is_public ip = not (is_private ip)

unfoldable pub is_loopback : ℕ → Bool
is_loopback ip = bit_and ip 0xFF000000 == 0x7F000000

unfoldable pub is_unicast : ℕ → Bool
unfolding is_multicast is_broadcast
is_unicast ip = not (is_multicast ip) && not (ip == 0xFFFFFFFF)
