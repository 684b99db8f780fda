-- ===== src/Ip/Reass/Early.antt =====
-- The fragments that come before the last one of their datagram, and the whole datagram.
use tipy.Common.{
  ℕ, ◌+◌, ◌*◌, ◌/◌, ◌%◌, ◌<◌, ◌≡◌, refl, ap, ◌∙◌, ◌⊎◌, inl, inr, Bool, true, false, some, none,
  List, [], ◌∷◌, ◌++◌, length, length-replicate, replicate, write, if◌then◌else◌, lt→ltb, ◌==◌,
  arith,
}
use tipy.Common.Writes.{length-write}
use tipy.Wire.Struct.{Bytes}
use tipy.Ip.Reass.{
  Fragment, Resources, Result, struct_error, waiting, defragmented, reass, blocks, finish,
  finish_last, place_earlier, take_last, take_early, place_all, allocated,
}
use tipy.Ip.Reass.Placed.{
  AllSlices, SomeCovers, has_key, pack_into-slice, write-slice, Placed, place_all-Placed,
  dict_set-fresh, AllSlices-added, SomeCovers-added, has_key-added,
}
use tipy.Ip.Reass.Late.{
  arrivals, resume, IsFragment, AllFragments, AllMore, CoveredBy, blocks_of, header_late, Late,
  finish-Late, payload-IsSlice, length-payload,
}

-- The header of the first fragment among those that come before the last.
unfoldable pub header_early : List Fragment → Bytes → Bytes
header_early [] header = header
header_early (f ∷ fs) header = header_early fs (if f.offset == 0 then f.header else header)

-- The last fragment puts the datagram's length into the bytes 2 and 3 of a header that is there.
unfoldable pub header_last : ℕ → Bytes → Bytes
header_last total [] = []
header_last total (h ∷ hs) =
    let size = length (h ∷ hs) + total in write (h ∷ hs) 2 (size / 256 ∷ size % 256 ∷ [])

-- No two of the fragments, and no entry of the dictionary, are at the same offset.
unfoldable pub FreshFor : ℕ → List Fragment → Type 0
FreshFor o [] = Unit
FreshFor o (f ∷ fs) = ((o == f.offset) ≡ false) × FreshFor o fs

unfoldable pub AllDistinct : List Fragment → Type 0
unfolding FreshFor
AllDistinct [] = Unit
AllDistinct (f ∷ fs) = FreshFor f.offset fs × AllDistinct fs

unfoldable AllFresh : List (ℕ × Bytes) → List Fragment → Type 0
AllFresh d [] = Unit
AllFresh d (f ∷ fs) = (has_key d f.offset ≡ false) × AllFresh d fs

-- The resources while the last fragment is still among those to come.
record Early (datagram : Bytes) (r : Resources) (frags : List (ℕ × Bytes)) (rest : List Fragment)
    : Type 0 where
  pub waits : r.last ≡ false
  pub kept : r.temporary_data_buffer ≡ some frags
  pub slices : AllSlices datagram frags
  pub counted : r.block_count + blocks_of rest ≡ (length datagram + 7) / 8
  pub known : (k : ℕ) → k < length datagram → SomeCovers frags k ⊎ CoveredBy rest k
  pub header_room : length r.header_buffer + length datagram < 65536

AllFresh-added :
    (d : List (ℕ × Bytes)) (o : ℕ) (chunk : Bytes) (fs : List Fragment)
    → AllFresh d fs
    → FreshFor o fs
    → AllFresh (d ++ ((o, chunk) ∷ [])) fs
unfolding AllFresh FreshFor
AllFresh-added d o chunk [] h p = tt
AllFresh-added d o chunk (f ∷ fs) (h, hs) (p, ps) =
    (has_key-added d o f.offset chunk h p, AllFresh-added d o chunk fs hs ps)

-- One of the early fragments.
after_early : Fragment → Resources → List (ℕ × Bytes) → Resources
after_early f r frags = record r {
  header_buffer = if f.offset == 0 then f.header else r.header_buffer;
  block_count = r.block_count + blocks f;
  temporary_data_buffer = some (frags ++ ((f.offset, f.payload) ∷ []));
}

reass-waiting :
    (datagram : Bytes) (f : Fragment) (rest : List Fragment) (r : Resources)
    (frags : List (ℕ × Bytes))
    → Early datagram r frags rest
    → f.flag_mf ≡ true
    → has_key frags f.offset ≡ false
    → reass f r ≡ (waiting, after_early f r frags)
unfolding reass take_early after_early
reass-waiting datagram f rest r frags e m fresh =
    rw (m, e.waits, e.kept, dict_set-fresh frags f.offset f.payload fresh)

after_early-Early :
    (datagram : Bytes) (f : Fragment) (rest : List Fragment) (r : Resources)
    (frags : List (ℕ × Bytes))
    → Early datagram r frags (f ∷ rest)
    → IsFragment datagram f
    → Early datagram (after_early f r frags) (frags ++ ((f.offset, f.payload) ∷ [])) rest
unfolding after_early blocks_of CoveredBy
after_early-Early datagram f rest r frags e i =
    let n = length-payload datagram f i in
    record {
      waits = e.waits;
      kept = refl;
      slices =
          AllSlices-added datagram frags f.offset f.payload e.slices (payload-IsSlice datagram f i);
      counted = omega (arith, e.counted);
      known = λ k h. elim (e.known k h) [
        | inl old ↦ inl (SomeCovers-added frags f.offset k f.payload (inl old))
        | inr (inl here) ↦
            inl
              (SomeCovers-added frags f.offset k f.payload (inr (here.0, omega (arith, here.1, n))))
        | inr (inr later) ↦ inr later
      ];
      header_room = room (f.offset == 0) f i r e.header_room;
    }
  where
    room :
        (b : Bool) (f : Fragment)
        → IsFragment datagram f
        → (r : Resources) → length r.header_buffer + length datagram < 65536
        → length (if b then f.header else r.header_buffer) + length datagram < 65536
    room true f i r h = omega (arith, i.header_room, i.header_len)
    room false f i r h = h

-- The last fragment.
after_last : Bytes → Fragment → Resources → Bytes → Resources
after_last header f r buffer = record r {
  total_data_len = f.dlen + f.offset * 8;
  last = true;
  data_buffer = buffer;
  temporary_data_buffer = none;
  block_count = r.block_count + blocks f;
  header_buffer = header;
}

finish_last-finish :
    (header : Bytes) (r : Resources)
    → length header + r.total_data_len < 65536
    → finish_last (record r { header_buffer = header })
      ≡ finish (record r { header_buffer = header_last r.total_data_len header })
unfolding finish_last header_last
finish_last-finish [] r h = refl
finish_last-finish (b ∷ bs) r h =
    rw (finish_last, lt→ltb (length (b ∷ bs) + r.total_data_len) 65536 h)

place_earlier-placed :
    (f : Fragment) (r : Resources) (frags : List (ℕ × Bytes)) (buffer : Bytes)
    → r.temporary_data_buffer ≡ some frags
    → place_all frags r.data_buffer ≡ (true, buffer)
    → place_earlier f r
      ≡ finish_last (record r {
        data_buffer = buffer;
        temporary_data_buffer = none;
        block_count = r.block_count + blocks f;
      })
unfolding place_earlier
place_earlier-placed f r frags buffer kept placed =
    rw (place_earlier, kept)
      (ap
        (λ p. elim p.0 as (λ _. Result × Resources) [
          | false ↦ (struct_error, record r { data_buffer = p.1 })
          | true ↦ finish_last (record r {
            data_buffer = p.1;
            temporary_data_buffer = none;
            block_count = r.block_count + blocks f;
          })
        ])
        placed)

-- `take_last` up to its end, with the buffer that it has put together.
take_last-finish :
    (datagram : Bytes) (f : Fragment) (r : Resources) (frags : List (ℕ × Bytes))
    (rest : List Fragment)
    → f.offset * 8 + f.dlen ≡ length datagram
    → IsFragment datagram f
    → r.temporary_data_buffer ≡ some frags
    → (p : Placed datagram frags
        (write (replicate (f.dlen + f.offset * 8) 0) (f.offset * 8) f.payload))
    → length r.header_buffer + length datagram < 65536
    → take_last f r
      ≡ finish (after_last (header_last (f.dlen + f.offset * 8) r.header_buffer) f r p.result)
unfolding take_last place_earlier after_last
take_last-finish datagram f r frags rest ends i kept p room =
    let total = f.dlen + f.offset * 8 in
    let buffer : Bytes = replicate total 0 in
    let sized = length-replicate {A = ℕ} total 0 in
    rw
      (
        take_last,
        pack_into-slice datagram buffer f.payload f.offset (omega arith)
            (payload-IsSlice datagram f i),
      )
      (place_earlier-placed f
          (record r {
            total_data_len = total;
            last = true;
            data_buffer = write buffer (f.offset * 8) f.payload;
          })
          frags p.result kept p.placed
        ∙ finish_last-finish r.header_buffer (after_last r.header_buffer f r p.result)
            (omega arith))

after_last-Late :
    (datagram : Bytes) (f : Fragment) (rest : List Fragment) (r : Resources)
    (frags : List (ℕ × Bytes)) (header : Bytes)
    → Early datagram r frags (f ∷ rest)
    → IsFragment datagram f
    → f.offset * 8 + f.dlen ≡ length datagram
    → (p : Placed datagram frags
        (write (replicate (f.dlen + f.offset * 8) 0) (f.offset * 8) f.payload))
    → Late datagram (after_last header f r p.result) rest
unfolding after_last blocks_of CoveredBy
after_last-Late datagram f rest r frags header e i ends p =
    let total = f.dlen + f.offset * 8 in
    let buffer : Bytes = replicate total 0 in
    let sized = length-replicate {A = ℕ} total 0 in
    let n = length-payload datagram f i in
    let s = payload-IsSlice datagram f i in
    record {
      last = refl;
      total = omega arith;
      sized = p.same_length;
      counted = omega (arith, e.counted);
      known = λ k h. elim (e.known k h) [
        | inl old ↦ inl (p.agrees k (inr old))
        | inr (inl here) ↦ inl (
            p.agrees k (
              inl (
                write-slice datagram buffer f.payload f.offset k (omega arith) s
                  (inr (here.0, omega (arith, here.1, n))))))
        | inr (inr later) ↦ inr later
      ];
    }

reass-last : (f : Fragment) (r : Resources) → f.flag_mf ≡ false → reass f r ≡ take_last f r
unfolding reass
reass-last f r m = rw m

AllFragments-tail :
    (datagram : Bytes) (f : Fragment) (fs : List Fragment)
    → AllFragments datagram (f ∷ fs)
    → IsFragment datagram f × AllFragments datagram fs
unfolding AllFragments
AllFragments-tail datagram f fs i = i

arrivals-Early :
    (datagram : Bytes) (before after : List Fragment) (l : Fragment) (r : Resources)
    (frags : List (ℕ × Bytes))
    → Early datagram r frags (before ++ (l ∷ after))
    → AllFragments datagram (before ++ (l ∷ after))
    → AllMore before
    → AllMore after
    → l.flag_mf ≡ false
    → l.offset * 8 + l.dlen ≡ length datagram
    → AllDistinct before
    → AllFresh frags before
    → arrivals (before ++ (l ∷ after)) r ≡ (
      defragmented (
          header_late after
            (length datagram)
            (header_last (length datagram) (header_early before r.header_buffer))
          ++ datagram),
      [],
    )
unfolding arrivals resume AllMore AllDistinct AllFresh header_early after_last after_early
arrivals-Early datagram [] after l r frags e i mb ma ml ends d fresh =
    let (il, is) = AllFragments-tail datagram l after i in
    let total = l.dlen + l.offset * 8 in
    let sized = length-replicate {A = ℕ} total 0 in
    let wide = length-write (replicate {A = ℕ} total 0) (l.offset * 8) l.payload in
    let p =
      place_all-Placed datagram frags (write (replicate total 0) (l.offset * 8) l.payload)
        (omega (arith, wide, sized, ends)) e.slices in
    let header = header_last total r.header_buffer in
    ap (resume after)
      (reass-last l r ml ∙ take_last-finish datagram l r frags after ends il e.kept p e.header_room)
    ∙ finish-Late datagram after (after_last header l r p.result)
        (after_last-Late datagram l after r frags header e il ends p) is ma
    ∙ ap
        (λ t. (
          defragmented
              (header_late after (length datagram) (header_last t r.header_buffer) ++ datagram),
          [],
        ))
        (omega arith)
arrivals-Early datagram (f ∷ fs) after l r frags e i (mf, mb) ma ml ends (df, d) (ff, fresh) =
    let (if', is) = AllFragments-tail datagram f (fs ++ (l ∷ after)) i in
    let e' = after_early-Early datagram f (fs ++ (l ∷ after)) r frags e if' in
    ap (resume (fs ++ (l ∷ after)))
      (reass-waiting datagram f (f ∷ (fs ++ (l ∷ after))) r frags e mf ff)
    ∙ arrivals-Early datagram fs after l (after_early f r frags)
        (frags ++ ((f.offset, f.payload) ∷ [])) e' is mb ma ml ends d
        (AllFresh-added frags f.offset f.payload fs fresh df)

AllFresh-nil : (fs : List Fragment) → AllFresh [] fs
unfolding AllFresh has_key
AllFresh-nil [] = tt
AllFresh-nil (f ∷ fs) = (refl, AllFresh-nil fs)

allocated-Early :
    (datagram : Bytes) (rest : List Fragment)
    → blocks_of rest ≡ (length datagram + 7) / 8
    → ((k : ℕ) → k < length datagram → CoveredBy rest k)
    → length datagram < 65536
    → Early datagram allocated [] rest
unfolding AllSlices
allocated-Early datagram rest counted covered room = record {
  waits = refl;
  kept = refl;
  slices = tt;
  counted = omega (arith, counted);
  known = λ k h. inr (covered k h);
  header_room = omega arith;
}

-- The fragments of a datagram's data, in any order of arrival: those before the last fragment, it,
-- and those behind it. If they cover the data, have as many blocks of 8 bytes as it has, and no two
-- that come before the last one start at the same place, then each of them but the final one leaves
-- the datagram waiting, and the final one returns the data, whole and in order, behind a header:
-- the first fragment's, with the datagram's length in the bytes 2 and 3 if it came before the last,
-- and in the bytes 4 and 5 if it came behind it.
pub arrivals-defragmented :
    (datagram : Bytes) (before after : List Fragment) (l : Fragment)
    → AllFragments datagram (before ++ (l ∷ after))
    → AllMore before
    → AllMore after
    → l.flag_mf ≡ false
    → l.offset * 8 + l.dlen ≡ length datagram
    → AllDistinct before
    → blocks_of (before ++ (l ∷ after)) ≡ (length datagram + 7) / 8
    → ((k : ℕ) → k < length datagram → CoveredBy (before ++ (l ∷ after)) k)
    → length datagram < 65536
    → arrivals (before ++ (l ∷ after)) allocated ≡ (
      defragmented (
          header_late after
            (length datagram)
            (header_last (length datagram) (header_early before []))
          ++ datagram),
      [],
    )
arrivals-defragmented datagram before after l i mb ma ml ends d counted covered room =
    arrivals-Early datagram before after l allocated []
      (allocated-Early datagram (before ++ (l ∷ after)) counted covered room) i mb ma ml ends d
      (AllFresh-nil before)
