-- ===== src/Ip/Tests.antt =====
-- Fragments of a datagram of twenty bytes, which arrive in the order middle, last, first.
use tipy.Common.{
  ℕ, ◌+◌, ◌*◌, ◌/◌, ◌≤◌, ◌<◌, ◌≡◌, ◌⊎◌, inl, inr, refl, Bool, true, false, none, some, List, [],
  ◌∷◌, ◌++◌, length, take, drop, leb, leb→le, leb→lt, Bool-cases, arith,
}
use tipy.Wire.Struct.{Bytes}
use tipy.Ip.Reass.{Fragment, waiting, key_error, defragmented, allocated, reass}
use tipy.Ip.Reass.Late.{
  arrivals, IsFragment, AllFragments, AllMore, CoveredBy, blocks_of, header_late,
}
use tipy.Ip.Reass.Early.{header_early, header_last, AllDistinct, arrivals-defragmented}
use tipy.Ip.Reass.Errors.{reass-last_twice}
use tipy.Ip.Cache.{BufferId, buffer_id, IpCache, ip_reass, reass_timer_exceeded}
use tipy.Ip.Cache.Timed.{IsTimed, HasFreed, ip_reass-IsTimed, reass_timer_exceeded-frees}
use tipy.Ip.Rx.{Core, IpPacket, next_layer, ip_parser, accept, rx_ip}
use tipy.Ip.Rx.Checks.{Passes, NoneDelivered, rx_ip-Passes}
use tipy.Ip.Cache.Mixed.{
  ip_results, results_alone, fragments_of, results_of, ip_results-results_alone,
}
use tipy.Ip.Cache.Runs.{resources_of}

abbrev datagram : Bytes
datagram =
    1 ∷ 2 ∷ 3 ∷ 4 ∷ 5 ∷ 6 ∷ 7 ∷ 8 ∷ 9 ∷ 10 ∷ 11 ∷ 12 ∷ 13 ∷ 14 ∷ 15 ∷ 16 ∷ 17 ∷ 18 ∷ 19 ∷ 20 ∷ []

abbrev header_bytes : Bytes
header_bytes =
    69 ∷ 0 ∷ 0 ∷ 28 ∷ 18 ∷ 52 ∷ 32 ∷ 0 ∷ 64 ∷ 17 ∷ 0 ∷ 0 ∷ 192 ∷ 168 ∷ 2 ∷ 1 ∷ 192 ∷ 168 ∷ 2 ∷ 200
    ∷ []

abbrev fragment : ℕ → ℕ → Bool → Fragment
fragment offset dlen flag_mf = record {
  src = 3232236033;
  dst = 3232236232;
  id = 4660;
  protocol = 17;
  ihl = 20;
  dlen = dlen;
  offset = offset;
  flag_mf = flag_mf;
  payload = take dlen (drop (offset * 8) datagram);
  header = header_bytes;
}

abbrev first_part : Fragment
first_part = fragment 0 8 true

abbrev middle_part : Fragment
middle_part = fragment 1 8 true

abbrev last_part : Fragment
last_part = fragment 2 4 false

is_part : (o n : ℕ) (mf : Bool) → 1 ≤ n → o * 8 + n ≤ 20 → IsFragment datagram (fragment o n mf)
is_part o n mf h l = record {
  nonempty = h;
  within = l;
  copied = refl;
  header_len = refl;
  header_min = omega arith;
  header_room = omega arith;
}

all_parts : AllFragments datagram (middle_part ∷ last_part ∷ first_part ∷ [])
unfolding AllFragments
all_parts = (
  is_part 1 8 true (omega arith) (omega arith),
  (
    is_part 2 4 false (omega arith) (omega arith),
    (is_part 0 8 true (omega arith) (omega arith), tt),
  ),
)

middle_more : AllMore (middle_part ∷ [])
unfolding AllMore
middle_more = (refl, tt)

first_more : AllMore (first_part ∷ [])
unfolding AllMore
first_more = (refl, tt)

middle_distinct : AllDistinct (middle_part ∷ [])
unfolding AllDistinct
middle_distinct = (tt, tt)

all_blocks : blocks_of (middle_part ∷ last_part ∷ first_part ∷ []) ≡ (length datagram + 7) / 8
unfolding blocks_of
all_blocks = refl

all_covered : (k : ℕ) → k < 20 → CoveredBy (middle_part ∷ last_part ∷ first_part ∷ []) k
unfolding CoveredBy
all_covered k h = elim (Bool-cases (leb 8 k)) [
  | inr below ↦ inr (inr (inl (omega arith, omega (arith, leb→lt 8 k below))))
  | inl above ↦ elim (Bool-cases (leb 16 k)) [
    | inr between ↦ inl (omega (arith, leb→le 8 k above), omega (arith, leb→lt 16 k between))
    | inl high ↦ inr (inl (omega (arith, leb→le 16 k high), omega arith))
  ]
]

arrivals-defragmented_example : arrivals (middle_part ∷ last_part ∷ first_part ∷ []) allocated ≡ (
  defragmented (
      header_late (first_part ∷ []) 20 (header_last 20 (header_early (middle_part ∷ []) []))
      ++ datagram),
  [],
)
arrivals-defragmented_example =
    arrivals-defragmented datagram (middle_part ∷ []) (first_part ∷ []) last_part all_parts
      middle_more first_more refl refl middle_distinct all_blocks all_covered (omega arith)

-- The header that comes back has the first fragment's length, 28, and the datagram's, 40, in the
-- place of the identification.
header_late_example :
    header_late (first_part ∷ []) 20 (header_last 20 (header_early (middle_part ∷ []) []))
    ≡ 69 ∷ 0 ∷ 0 ∷ 28 ∷ 0 ∷ 40 ∷ drop 6 header_bytes
unfolding header_late header_last header_early
header_late_example = refl

waits_for_parts : (reass last_part allocated).0 ≡ waiting
unfolding reass
waits_for_parts = refl

reass-last_twice_example : (reass last_part (reass last_part allocated).1).0 ≡ key_error
reass-last_twice_example =
    reass-last_twice last_part last_part allocated refl refl (omega arith) waits_for_parts

abbrev empty_cache : IpCache
empty_cache = record { fragments_cache = λ b. none; pending = λ n. none; next_task = 0 }

empty-IsTimed : IsTimed empty_cache
empty-IsTimed = record {
  timed = λ k s h. absurd cc;
  owned = λ n k f h. absurd cc;
  bounded = λ n k f h. absurd cc;
}

ip_reass-IsTimed_example : IsTimed (ip_reass middle_part empty_cache).1
ip_reass-IsTimed_example = ip_reass-IsTimed middle_part empty_cache empty-IsTimed

-- Task 0 was started with the session and replaced by task 1.
pending_task :
    (ip_reass middle_part empty_cache).1.pending 1 ≡ some (buffer_id middle_part, middle_part)
unfolding ip_reass reass
pending_task = refl

abbrev other_id : BufferId
other_id = record { src = 1; dst = 2; id = 3; protocol = 17 }

reass_timer_exceeded-frees_example :
    HasFreed
      (buffer_id middle_part)
      other_id
      middle_part
      (ip_reass middle_part empty_cache).1
      (reass_timer_exceeded 1 (ip_reass middle_part empty_cache).1)
reass_timer_exceeded-frees_example =
    reass_timer_exceeded-frees 1 (buffer_id middle_part) other_id middle_part
      (ip_reass middle_part empty_cache).1 (ip_reass-IsTimed middle_part empty_cache empty-IsTimed)
      pending_task

-- Two parts of one datagram, and between them a part of one with another identification
abbrev mixed : List Fragment
mixed = middle_part ∷ record last_part { id = 9 } ∷ first_part ∷ []

ip_results-results_alone_example :
    results_of middle_part.src middle_part.dst middle_part.id middle_part.protocol mixed
      (ip_results mixed empty_cache)
    ≡ results_alone
        (fragments_of middle_part.src middle_part.dst middle_part.id middle_part.protocol mixed)
        (resources_of (buffer_id middle_part) empty_cache)
ip_results-results_alone_example =
    ip_results-results_alone middle_part.src middle_part.dst middle_part.id middle_part.protocol
      mixed empty_cache

abbrev core : Core
core = record { unicast_ip = 3232236232; rip_socket = λ local protocol remote. false }

-- A datagram of UDP for the host, whose header has the right checksum.
abbrev udp_frame : Bytes
udp_frame =
    69 ∷ 0 ∷ 0 ∷ 24 ∷ 18 ∷ 52 ∷ 0 ∷ 0 ∷ 64 ∷ 17 ∷ 226 ∷ 135 ∷ 192 ∷ 168 ∷ 2 ∷ 1 ∷ 192 ∷ 168 ∷ 2
    ∷ 200 ∷ 1 ∷ 2 ∷ 3 ∷ 4 ∷ []

delivered : (rx_ip core udp_frame empty_cache).0 ≡ next_layer 17 (1 ∷ 2 ∷ 3 ∷ 4 ∷ []) ∷ []
unfolding rx_ip tipy.Wire.Csum.inet_csum_little tipy.Wire.Csum.fold_carries
    tipy.Wire.Csum.swap_bytes tipy.Wire.Csum.fold_from tipy.Wire.Csum.sum_cast
    tipy.Wire.Csum.little_word tipy.Wire.Csum.complement
delivered = refl

rx_ip-Passes_example :
    ((p : IpPacket) × (20 ≤ length udp_frame)
      × (ip_parser udp_frame ≡ some p)
      × Passes core p udp_frame
      × (rx_ip core udp_frame empty_cache ≡ accept core p udp_frame empty_cache))
    ⊎ (((rx_ip core udp_frame empty_cache).1 ≡ empty_cache)
        × NoneDelivered (rx_ip core udp_frame empty_cache).0)
rx_ip-Passes_example = rx_ip-Passes core udp_frame empty_cache
