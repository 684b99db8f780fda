-- ===== src/Wire/Tests.antt =====
-- tipy/lib/csum.py on concrete bytes.
use tipy.Common.{◌≡◌, refl, [], ◌∷◌, ◌++◌, arith}
use tipy.Wire.Struct.{Bytes}
use tipy.Wire.Csum.{inet_csum_little, inet_csum_big}
use tipy.Wire.Csum.Rfc.{IsBytes, pseudo_sum, rfc1071, inet_csum_little-rfc1071}

-- 192.168.2.1 to 192.168.2.200, protocol 17, 11 bytes
abbrev pseudo : Bytes
pseudo = 192 ∷ 168 ∷ 2 ∷ 1 ∷ 192 ∷ 168 ∷ 2 ∷ 200 ∷ 0 ∷ 17 ∷ 0 ∷ 11 ∷ []

abbrev packet : Bytes
packet = 0 ∷ 53 ∷ 128 ∷ 1 ∷ 0 ∷ 11 ∷ 0 ∷ 0 ∷ 97 ∷ 98 ∷ 255 ∷ []

pseudo-IsBytes : IsBytes pseudo
unfolding IsBytes
pseudo-IsBytes = (
  omega arith,
  (
    omega arith,
    (
      omega arith,
      (
        omega arith,
        (
          omega arith,
          (
            omega arith,
            (
              omega arith,
              (omega arith, (omega arith, (omega arith, (omega arith, (omega arith, tt))))),
            ),
          ),
        ),
      ),
    ),
  ),
)

packet-IsBytes : IsBytes packet
unfolding IsBytes
packet-IsBytes = (
  omega arith,
  (
    omega arith,
    (
      omega arith,
      (
        omega arith,
        (
          omega arith,
          (
            omega arith,
            (omega arith, (omega arith, (omega arith, (omega arith, (omega arith, tt))))),
          ),
        ),
      ),
    ),
  ),
)

inet_csum_little-rfc1071_example :
    inet_csum_little packet (pseudo_sum 3 pseudo) ≡ rfc1071 (pseudo ++ packet)
inet_csum_little-rfc1071_example =
    inet_csum_little-rfc1071 3 pseudo packet refl pseudo-IsBytes packet-IsBytes

-- A header of IP whose checksum is at byte 10.
abbrev frame : Bytes
frame =
    69 ∷ 0 ∷ 0 ∷ 20 ∷ 18 ∷ 52 ∷ 0 ∷ 0 ∷ 64 ∷ 6 ∷ 0 ∷ 0 ∷ 192 ∷ 168 ∷ 2 ∷ 1 ∷ 192 ∷ 168 ∷ 2 ∷ 200
    ∷ []

csum_hosts : inet_csum_little frame 0 ≡ inet_csum_big frame 0
unfolding inet_csum_little inet_csum_big tipy.Wire.Csum.fold_carries tipy.Wire.Csum.swap_bytes
    tipy.Wire.Csum.fold_from tipy.Wire.Csum.sum_cast tipy.Wire.Csum.big_word
    tipy.Wire.Csum.little_word
csum_hosts = refl
