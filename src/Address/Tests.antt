-- ===== src/Address/Tests.antt =====
-- Addresses printed and read.
use tipy.Common.{◌≡◌, refl, some, arith}
use tipy.Address.Inet.{str_ip, ip_address}
use tipy.Address.Inet.RoundTrip.{str_ip-ip_address}
use tipy.Address.Ethernet.{mac_str, mac_address}
use tipy.Address.Ethernet.RoundTrip.{hex_from, mac_str-mac_address}

-- 192.168.2.200
str_ip-ip_address_example : ip_address (str_ip 3232236232) ≡ some 3232236232
str_ip-ip_address_example = str_ip-ip_address 3232236232 (omega arith)

-- 02:00:00:00:00:11, with a reader of hexadecimal digits
mac_str-mac_address_example :
    mac_address (λ text. some (hex_from 0 text)) (mac_str 2199023255569) ≡ some 2199023255569
mac_str-mac_address_example =
    mac_str-mac_address (λ text. some (hex_from 0 text)) 2199023255569 (λ c cs h. refl)
      (omega arith)
