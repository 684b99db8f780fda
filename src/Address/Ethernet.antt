-- ===== src/Address/Ethernet.antt =====
-- tipy/lib/ethernet.py: MACAddress from a text and as a text, and the tests on addresses. What
-- Python's `int(text, 16)` gives is a parameter, `int16`; `none` is MACFormatError.
pub mod RoundTrip
use tipy.Common.{
  ℕ, suc, ◌+◌, ◌-◌, ◌*◌, ◌/◌, ◌%◌, Bool, true, false, ◌&&◌, Option, none, some, List, [], ◌∷◌, ◌++◌,
  length, if◌then◌else◌, ltb, ◌==◌,
}
use tipy.Address.Text.{Text, contains, split, replace, erase, join}

module _ (int16 : Text → Option ℕ) where
  -- `MACAddress(text).mac`
  unfoldable pub mac_address : Text → Option ℕ
  unfolding contains split replace erase
  mac_address macadd =
      if contains b':' macadd && contains b'-' macadd
      then none
      else (if length (split b':' (replace b'-' b':' macadd)) == 6
          then (if length (erase b':' (replace b'-' b':' macadd)) == 12
              then int16 (erase b':' (replace b'-' b':' macadd))
              else none)
          else none)

-- A hexadecimal digit, and f"{b:02x}"
unfoldable pub print_digit : ℕ → ℕ
print_digit n = if ltb n 10 then b'0' + n else b'a' + (n - 10)

unfoldable pub print_byte : ℕ → Text
unfolding print_digit
print_byte b = print_digit (b / 16) ∷ print_digit (b % 16) ∷ []

-- `mac_str`, for an address that was made of an integer
unfoldable pub mac_str : ℕ → Text
unfolding print_byte join
mac_str mac = join b':' (
    print_byte (mac / 65536 / 16777216)
    ∷ print_byte (mac / 65536 / 65536 % 256)
    ∷ print_byte (mac / 65536 / 256 % 256)
    ∷ print_byte (mac / 65536 % 256)
    ∷ print_byte (mac % 65536 / 256)
    ∷ print_byte (mac % 65536 % 256)
    ∷ [])

-- The tests: bit 40 says that the address is of a group, bit 41 that it is a local one.
unfoldable pub mac_is_broadcast : ℕ → Bool
mac_is_broadcast mac = mac == 0xFFFFFFFFFFFF

unfoldable pub mac_is_multicast : ℕ → Bool
mac_is_multicast mac = mac / 1099511627776 % 2 == 1

unfoldable pub mac_is_unicast : ℕ → Bool
mac_is_unicast mac = mac / 1099511627776 % 2 == 0

unfoldable pub mac_is_global : ℕ → Bool
mac_is_global mac = mac / 2199023255552 % 2 == 0

unfoldable pub mac_is_local : ℕ → Bool
mac_is_local mac = mac / 2199023255552 % 2 == 1
