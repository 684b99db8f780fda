-- ===== src/Ip/Reass/Late.antt =====
-- The fragments that come behind the last one of their datagram, in any order.
use tipy.Common.{
  ℕ, ◌+◌, ◌*◌, ◌/◌, ◌%◌, ◌≤◌, ◌<◌, ◌≡◌, sym, ap, ◌∙◌, ◌⊎◌, inl, inr, Bool, true, false, List, [],
  ◌∷◌, ◌++◌, length, length-take, length-drop, take, drop, write, if◌then◌else◌, le→leb, lt→ltb,
  ◌==◌, Bool-cases, arith,
}
use tipy.Common.Writes.{length-write}
use tipy.Wire.Struct.{Bytes}
use tipy.Ip.Reass.{
  Fragment, Resources, Result, waiting, defragmented, reass, blocks, finish, is_reassembled,
  take_late, place_late,
}
use tipy.Ip.Reass.Slices.{Agree, Agree-everywhere}
use tipy.Ip.Reass.Placed.{IsSlice, Covers, pack_into-slice, write-slice}

-- Fragments that arrive one after the other, up to the first that does not leave the datagram
-- waiting: what came of it, and the fragments that are left.
unfoldable pub arrivals : List Fragment → Resources → Result × List Fragment
arrivals [] r = (waiting, [])
arrivals (f ∷ fs) r =
    let (result, r') = reass f r in elim result [ waiting ↦ arrivals fs r' | ended ↦ (ended, fs) ]

unfoldable pub resume : List Fragment → Result × Resources → Result × List Fragment
unfolding arrivals
resume fs (result, r) = elim result [ waiting ↦ arrivals fs r | ended ↦ (ended, fs) ]

-- A fragment of a datagram's data: a slice of it that is not empty, behind a header that leaves
-- room for the data in 16 bits of length.
pub record IsFragment (datagram : Bytes) (f : Fragment) : Type 0 where
  pub nonempty : 1 ≤ f.dlen
  pub within : f.offset * 8 + f.dlen ≤ length datagram
  pub copied : f.payload ≡ take f.dlen (drop (f.offset * 8) datagram)
  pub header_len : f.ihl ≡ length f.header
  pub header_min : 20 ≤ f.ihl
  pub header_room : f.ihl + length datagram < 65536

unfoldable pub AllFragments : Bytes → List Fragment → Type 0
AllFragments datagram [] = Unit
AllFragments datagram (f ∷ fs) = IsFragment datagram f × AllFragments datagram fs

unfoldable pub AllMore : List Fragment → Type 0
AllMore [] = Unit
AllMore (f ∷ fs) = (f.flag_mf ≡ true) × AllMore fs

unfoldable pub CoveredBy : List Fragment → ℕ → Type 0
CoveredBy [] k = ⊥
CoveredBy (f ∷ fs) k = Covers f.offset f.dlen k ⊎ CoveredBy fs k

unfoldable pub blocks_of : List Fragment → ℕ
unfolding blocks
blocks_of [] = 0
blocks_of (f ∷ fs) = blocks f + blocks_of fs

-- A first fragment that comes late brings the header; the datagram's length goes to its bytes 4
-- and 5.
unfoldable pub header_late : List Fragment → ℕ → Bytes → Bytes
header_late [] total header = header
header_late (f ∷ fs) total header = header_late fs total (
    if f.offset == 0
    then write f.header 4 ((f.ihl + total) / 256 ∷ (f.ihl + total) % 256 ∷ [])
    else header)

pub blocks-nonempty : (datagram : Bytes) (f : Fragment) → IsFragment datagram f → 1 ≤ blocks f
unfolding blocks
blocks-nonempty datagram f i = omega (arith, i.nonempty)

pub length-payload :
    (datagram : Bytes) (f : Fragment) → IsFragment datagram f → length f.payload ≡ f.dlen
length-payload datagram f i =
    ap length i.copied
    ∙ length-take f.dlen (drop (f.offset * 8) datagram)
    ∙ omega (arith, length-drop (f.offset * 8) datagram, i.within)

pub payload-IsSlice :
    (datagram : Bytes) (f : Fragment) → IsFragment datagram f → IsSlice datagram f.offset f.payload
payload-IsSlice datagram f i =
    let l = length-payload datagram f i in
    record {
      within = omega (arith, i.within);
      copied = i.copied ∙ ap (λ n. take n (drop (f.offset * 8) datagram)) (sym l);
    }

-- The resources once the last fragment has come, and the fragments `rest` are still to come.
pub record Late (datagram : Bytes) (r : Resources) (rest : List Fragment) : Type 0 where
  pub last : r.last ≡ true
  pub total : r.total_data_len ≡ length datagram
  pub sized : length r.data_buffer ≡ length datagram
  pub counted : r.block_count + blocks_of rest ≡ (length datagram + 7) / 8
  pub known : (k : ℕ) → k < length datagram → Agree r.data_buffer datagram k ⊎ CoveredBy rest k

equal : (a b : ℕ) → a ≡ b → (a == b) ≡ true
equal a b e = ground arith

below : (a b : ℕ) → a < b → (a == b) ≡ false
below a b h = ground arith

finish-end :
    (datagram : Bytes) (r : Resources)
    → Late datagram r []
    → finish r ≡ (defragmented (r.header_buffer ++ datagram), r)
unfolding finish is_reassembled blocks_of CoveredBy
finish-end datagram r l =
    ap (λ b. if b then (defragmented (r.header_buffer ++ r.data_buffer), r) else (waiting, r))
      (equal r.block_count _ (omega (arith, l.counted, l.total)))
    ∙ ap (λ bs. (defragmented (r.header_buffer ++ bs), r))
        (Agree-everywhere r.data_buffer datagram l.sized
          (λ k h. elim (l.known k h) [ inl a ↦ a | inr uncovered ↦ absurd uncovered ]))

finish-waiting :
    (datagram : Bytes) (r : Resources) (f : Fragment) (fs : List Fragment)
    → Late datagram r (f ∷ fs)
    → IsFragment datagram f
    → finish r ≡ (waiting, r)
unfolding finish is_reassembled blocks_of
finish-waiting datagram r f fs l i =
    ap (λ b. if b then (defragmented (r.header_buffer ++ r.data_buffer), r) else (waiting, r))
      (below r.block_count _ (omega (arith, l.counted, l.total, blocks-nonempty datagram f i)))

-- The resources before `finish`, behind a late fragment.
after_late : Fragment → Resources → Resources
after_late f r = record r {
  header_buffer = header_late (f ∷ []) r.total_data_len r.header_buffer;
  block_count = r.block_count + blocks f;
  data_buffer = write r.data_buffer (f.offset * 8) f.payload;
}

place_late-finish :
    (datagram : Bytes) (f : Fragment) (r : Resources)
    → length r.data_buffer ≡ length datagram
    → IsFragment datagram f
    → place_late f r
      ≡ finish (record r {
        block_count = r.block_count + blocks f;
        data_buffer = write r.data_buffer (f.offset * 8) f.payload;
      })
unfolding place_late
place_late-finish datagram f r e i = rw (
  place_late,
  pack_into-slice datagram r.data_buffer f.payload f.offset e (payload-IsSlice datagram f i),
)

patched : Fragment → ℕ → Bytes
patched f total = write f.header 4 ((f.ihl + total) / 256 ∷ (f.ihl + total) % 256 ∷ [])

take_late-first :
    (f : Fragment) (r : Resources)
    → (f.offset == 0) ≡ true
    → f.ihl + r.total_data_len < 65536
    → 6 ≤ length f.header
    → take_late f r ≡ place_late f (record r { header_buffer = patched f r.total_data_len })
unfolding take_late patched
take_late-first f r first h l =
    rw (take_late, first, lt→ltb (f.ihl + r.total_data_len) 65536 h, le→leb 6 (length f.header) l)

take_late-other :
    (f : Fragment) (r : Resources) → (f.offset == 0) ≡ false → take_late f r ≡ place_late f r
unfolding take_late
take_late-other f r other = rw (take_late, other)

-- `header_late` of one fragment, as it is decided whether the fragment is the first.
after_late-decided :
    (f : Fragment) (r : Resources) (b : Bool)
    → (f.offset == 0) ≡ b
    → record r {
      header_buffer = if b then patched f r.total_data_len else r.header_buffer;
      block_count = r.block_count + blocks f;
      data_buffer = write r.data_buffer (f.offset * 8) f.payload;
    }
      ≡ after_late f r
unfolding after_late header_late patched
after_late-decided f r b e =
    ap
      (λ b.
        (let q : Resources = record r {
          header_buffer = if b then patched f r.total_data_len else r.header_buffer;
          block_count = r.block_count + blocks f;
          data_buffer = write r.data_buffer (f.offset * 8) f.payload;
        } in
          q))
      (sym e)

take_late-finish :
    (datagram : Bytes) (f : Fragment) (r : Resources)
    → r.total_data_len ≡ length datagram
    → length r.data_buffer ≡ length datagram
    → IsFragment datagram f
    → take_late f r ≡ finish (after_late f r)
take_late-finish datagram f r t e i = elim (Bool-cases (f.offset == 0)) [
  | inl first ↦
      take_late-first f r first (omega (arith, i.header_room))
        (omega (arith, i.header_min, i.header_len))
      ∙ place_late-finish datagram f (record r { header_buffer = patched f r.total_data_len }) e i
      ∙ ap finish (after_late-decided f r true first)
  | inr other ↦
      take_late-other f r other
      ∙ place_late-finish datagram f r e i
      ∙ ap finish (after_late-decided f r false other)
]

reass-late :
    (f : Fragment) (r : Resources) → f.flag_mf ≡ true → r.last ≡ true → reass f r ≡ take_late f r
unfolding reass
reass-late f r m l = rw (m, l)

after_late-Late :
    (datagram : Bytes) (f : Fragment) (fs : List Fragment) (r : Resources)
    → Late datagram r (f ∷ fs)
    → IsFragment datagram f
    → Late datagram (after_late f r) fs
unfolding after_late blocks_of CoveredBy
after_late-Late datagram f fs r l i =
    let s = payload-IsSlice datagram f i in
    let n = length-payload datagram f i in
    record {
      last = l.last;
      total = l.total;
      sized = length-write r.data_buffer (f.offset * 8) f.payload ∙ l.sized;
      counted = omega (arith, l.counted);
      known = λ k h. elim (l.known k h) [
        | inl a ↦ inl (write-slice datagram r.data_buffer f.payload f.offset k l.sized s (inl a))
        | inr (inl here) ↦ inl (
            write-slice datagram r.data_buffer f.payload f.offset k l.sized s
              (inr (here.0, omega (arith, here.1, n))))
        | inr (inr later) ↦ inr later
      ];
    }

pub finish-Late :
    (datagram : Bytes) (fs : List Fragment) (r : Resources)
    → Late datagram r fs
    → AllFragments datagram fs
    → AllMore fs
    → resume fs (finish r)
      ≡ (defragmented (header_late fs (length datagram) r.header_buffer ++ datagram), [])
unfolding resume AllFragments AllMore header_late arrivals after_late
finish-Late datagram [] r l i m = ap (resume []) (finish-end datagram r l)
finish-Late datagram (f ∷ fs) r l (i, is) (m, ms) =
    ap (resume (f ∷ fs)) (finish-waiting datagram r f fs l i)
    ∙ ap (resume fs) (reass-late f r m l.last ∙ take_late-finish datagram f r l.total l.sized i)
    ∙ finish-Late datagram fs (after_late f r) (after_late-Late datagram f fs r l i) is ms
    ∙ ap
        (λ t. (
          defragmented (
              header_late fs (length datagram) (header_late (f ∷ []) t r.header_buffer)
              ++ datagram),
          [],
        ))
        l.total
