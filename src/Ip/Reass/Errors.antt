-- ===== src/Ip/Reass/Errors.antt =====
-- The exceptions that a last fragment meets in `_ip_reass`.
use tipy.Common.{
  ℕ, ◌+◌, ◌*◌, ◌≤◌, ◌<◌, ◌≡◌, refl, sym, ap, ◌∙◌, Bool, true, false, Option, some, none, List, [],
  ◌∷◌, ◌++◌, length, length-replicate, replicate, write, if◌then◌else◌, le→leb, lt→leb, arith,
}
use tipy.Wire.Struct.{Bytes, pack_into, pack_h}
use tipy.Ip.Reass.{
  Fragment, Resources, Result, waiting, key_error, struct_error, defragmented, reass, blocks,
  finish, finish_last, is_reassembled, place_earlier, place_all, take_last,
}

-- What a step leaves in `temporary_data_buffer` if it leaves the datagram waiting.
Deleted : Result × Resources → Type 0
Deleted p = p.0 ≡ waiting → p.1.temporary_data_buffer ≡ none

finish-Deleted : (r : Resources) → r.temporary_data_buffer ≡ none → Deleted (finish r)
unfolding Deleted finish
finish-Deleted r k = go (is_reassembled true r.block_count r.total_data_len)
  where
    go :
        (b : Bool)
        → Deleted (if b then (defragmented (r.header_buffer ++ r.data_buffer), r) else (waiting, r))
    go true = λ e. k
    go false = λ e. k

finish_last-Deleted :
    (header : Bytes) (r : Resources)
    → r.temporary_data_buffer ≡ none
    → Deleted (finish_last (record r { header_buffer = header }))
unfolding Deleted finish_last
finish_last-Deleted [] r k = finish-Deleted (record r { header_buffer = [] }) k
finish_last-Deleted (b ∷ bs) r k = go (pack_h (length (b ∷ bs) + r.total_data_len))
  where
    go :
        (o : Option Bytes)
        → Deleted (elim o as (λ _. Result × Resources) [
          | none ↦ (struct_error, record r { header_buffer = b ∷ bs })
          | some packed ↦ finish (record r { header_buffer = write (b ∷ bs) 2 packed })
        ])
    go none = λ e. absurd cc
    go (some packed) = finish-Deleted (record r { header_buffer = write (b ∷ bs) 2 packed }) k

place_earlier-Deleted : (f : Fragment) (r : Resources) → Deleted (place_earlier f r)
unfolding Deleted place_earlier
place_earlier-Deleted f r = go r.temporary_data_buffer
  where
    placed :
        (p : Bool × Bytes)
        → Deleted (elim p.0 as (λ _. Result × Resources) [
          | false ↦ (struct_error, record r { data_buffer = p.1 })
          | true ↦ finish_last (record r {
            data_buffer = p.1;
            temporary_data_buffer = none;
            block_count = r.block_count + blocks f;
          })
        ])
    placed (false, buffer) = λ e. absurd cc
    placed (true, buffer) =
        finish_last-Deleted r.header_buffer
          (record r {
            data_buffer = buffer;
            temporary_data_buffer = none;
            block_count = r.block_count + blocks f;
          })
          refl

    go :
        (o : Option (List (ℕ × Bytes)))
        → Deleted (elim o as (λ _. Result × Resources) [
          | none ↦ (key_error, r)
          | some frags ↦
              let (placed, buffer) = place_all frags r.data_buffer in
              elim placed as (λ _. Result × Resources) [
                | false ↦ (struct_error, record r { data_buffer = buffer })
                | true ↦ finish_last (record r {
                  data_buffer = buffer;
                  temporary_data_buffer = none;
                  block_count = r.block_count + blocks f;
                })
              ]
        ])
    go none = λ e. absurd cc
    go (some frags) = placed (place_all frags r.data_buffer)

take_last-Deleted : (f : Fragment) (r : Resources) → Deleted (take_last f r)
unfolding Deleted take_last
take_last-Deleted f r = go (pack_into buffer (f.offset * 8) f.payload)
  where
    buffer : Bytes
    buffer = replicate (f.dlen + f.offset * 8) 0

    started : Resources
    started = record r { total_data_len = f.dlen + f.offset * 8; last = true; data_buffer = buffer }

    go :
        (o : Option Bytes)
        → Deleted (elim o as (λ _. Result × Resources) [
          | none ↦ (struct_error, started)
          | some b ↦ place_earlier f (record started { data_buffer = b })
        ])
    go none = λ e. absurd cc
    go (some b) = place_earlier-Deleted f (record started { data_buffer = b })

reass-take_last : (f : Fragment) (r : Resources) → f.flag_mf ≡ false → reass f r ≡ take_last f r
unfolding reass
reass-take_last f r m = rw m

take_last-deleted :
    (f : Fragment) (r : Resources)
    → length f.payload ≤ f.dlen
    → r.temporary_data_buffer ≡ none
    → (take_last f r).0 ≡ key_error
unfolding take_last place_earlier
take_last-deleted f r h k =
    let n = f.dlen + f.offset * 8 in
    let sized = length-replicate {A = ℕ} n 0 in
    rw (
      take_last,
      le→leb (f.offset * 8 + length f.payload) (length (replicate {A = ℕ} n 0)) (omega arith),
      place_earlier,
      k,
    )

-- A last fragment that leaves its datagram waiting and comes again, as a duplicate or in a
-- retransmission, ends with KeyError: `temporary_data_buffer` was deleted the first time.
pub reass-last_twice :
    (f again : Fragment) (r : Resources)
    → f.flag_mf ≡ false
    → again.flag_mf ≡ false
    → length again.payload ≤ again.dlen
    → (reass f r).0 ≡ waiting
    → (reass again (reass f r).1).0 ≡ key_error
unfolding Deleted
reass-last_twice f again r m m' h e =
    let same = reass-take_last f r m in
    ap (λ p. p.0) (reass-take_last again (reass f r).1 m')
    ∙ take_last-deleted again (reass f r).1 h (
        ap (λ p. p.1.temporary_data_buffer) same
        ∙ take_last-Deleted f r (sym (ap (λ p. p.0) same) ∙ e))

-- A last fragment that fills its frame with more bytes than its length says, as a frame that
-- Ethernet has padded does, ends with struct.error: its buffer has no room for the padding.
pub reass-padded :
    (f : Fragment) (r : Resources)
    → f.flag_mf ≡ false
    → f.dlen < length f.payload
    → (reass f r).0 ≡ struct_error
unfolding take_last
reass-padded f r m h =
    let n = f.dlen + f.offset * 8 in
    let sized = length-replicate {A = ℕ} n 0 in
    ap (λ p. p.0) (reass-take_last f r m)
    ∙ rw (
      take_last,
      lt→leb (f.offset * 8 + length f.payload) (length (replicate {A = ℕ} n 0)) (omega arith),
    )
