-- ===== src/Ip/Reass.antt =====
-- `_ip_reass` of tipy/protocols/ip/rx.py, without its timer: what a fragment does to the
-- resources of its datagram.
pub mod Slices
pub mod Placed
pub mod Early
pub mod Late
pub mod Errors
use tipy.Common.{
  ℕ, zero, suc, ◌+◌, ◌-◌, ◌*◌, ◌/◌, Bool, true, false, Option, none, some, List, [], ◌∷◌, ◌++◌,
  length, replicate, write, if◌then◌else◌, ◌==◌,
}
use tipy.Wire.Struct.{Bytes, pack_h, pack_into}

-- What is read of a fragment's `IPParser`. `dlen` is `total_len - ihl`, in a packet whose total
-- length is not below its header's length.
pub record Fragment : Type 0 where
  pub src : ℕ
  pub dst : ℕ
  pub id : ℕ
  pub protocol : ℕ
  pub ihl : ℕ
  pub dlen : ℕ
  pub offset : ℕ
  pub flag_mf : Bool
  pub payload : Bytes
  pub header : Bytes

-- A session's resources. `temporary_data_buffer` is `none` once it has been deleted.
pub record Resources : Type 0 where
  pub data_buffer : Bytes
  pub header_buffer : Bytes
  pub block_count : ℕ
  pub total_data_len : ℕ
  pub temporary_data_buffer : Option (List (ℕ × Bytes))
  pub last : Bool

-- `_ip_reass` returns False, returns a datagram, or raises KeyError or struct.error.
pub data Result : Type 0 where
  waiting key_error struct_error : Result
  defragmented : Bytes → Result

-- The resources that `_alloc_ip_reass_mem` allocates.
abbrev pub allocated : Resources
allocated = record {
  data_buffer = [];
  header_buffer = [];
  block_count = 0;
  total_data_len = 0;
  temporary_data_buffer = some [];
  last = false;
}

unfoldable pub is_reassembled : Bool → ℕ → ℕ → Bool
is_reassembled false block_count total_data_len = false
is_reassembled true block_count total_data_len = block_count == (total_data_len + 7) / 8

-- The blocks of 8 bytes that a fragment adds.
unfoldable pub blocks : Fragment → ℕ
blocks f = (f.offset * 8 + f.dlen + 7) / 8 - f.offset

-- d[key] = value
unfoldable pub dict_set : List (ℕ × Bytes) → ℕ → Bytes → List (ℕ × Bytes)
dict_set [] k v = (k, v) ∷ []
dict_set ((k', v') ∷ rest) k v = if k' == k then ((k, v) ∷ rest) else ((k', v') ∷ dict_set rest k v)

-- The earlier fragments are copied in turn, up to one that does not fit.
unfoldable pub place_all : List (ℕ × Bytes) → Bytes → Bool × Bytes
place_all [] buffer = (true, buffer)
place_all ((frag, chunk) ∷ rest) buffer = elim (pack_into buffer (frag * 8) chunk) [
  | none ↦ (false, buffer)
  | some buffer' ↦ place_all rest buffer'
]

-- The end of the first two branches.
unfoldable pub finish : Resources → Result × Resources
unfolding is_reassembled
finish r =
    if is_reassembled true r.block_count r.total_data_len
    then (defragmented (r.header_buffer ++ r.data_buffer), r)
    else (waiting, r)

-- The total length in the first header, if there is one, and the end of the branch.
unfoldable pub finish_last : Resources → Result × Resources
unfolding finish
finish_last r = elim r.header_buffer [
  | [] ↦ finish r
  | _ ∷ _ ↦ elim (pack_h (length r.header_buffer + r.total_data_len)) [
    | none ↦ (struct_error, r)
    | some packed ↦ finish (record r { header_buffer = write r.header_buffer 2 packed })
  ]
]

-- The earlier fragments and the block count of the last fragment.
unfoldable pub place_earlier : Fragment → Resources → Result × Resources
unfolding place_all blocks finish_last
place_earlier f r = elim r.temporary_data_buffer [
  | none ↦ (key_error, r)
  | some frags ↦
      let (placed, buffer) = place_all frags r.data_buffer in
      elim placed [
        | false ↦ (struct_error, record r { data_buffer = buffer })
        | true ↦ finish_last (record r {
          data_buffer = buffer;
          temporary_data_buffer = none;
          block_count = r.block_count + blocks f;
        })
      ]
]

-- if not flag_mf
unfoldable pub take_last : Fragment → Resources → Result × Resources
unfolding place_earlier
take_last f r =
    let total = f.dlen + f.offset * 8 in
    let r' : Resources = record r {
      total_data_len = total;
      last = true;
      data_buffer = replicate total 0;
    } in
    elim (pack_into (replicate total 0) (f.offset * 8) f.payload) [
      | none ↦ (struct_error, r')
      | some buffer ↦ place_earlier f (record r' { data_buffer = buffer })
    ]

-- The block count and the data of a fragment that comes behind the last one.
unfoldable pub place_late : Fragment → Resources → Result × Resources
unfolding blocks finish
place_late f r =
    let r' : Resources = record r { block_count = r.block_count + blocks f } in
    elim (pack_into r.data_buffer (f.offset * 8) f.payload) [
      | none ↦ (struct_error, r')
      | some buffer ↦ finish (record r' { data_buffer = buffer })
    ]

-- elif flag_mf and reass_resources['last']
unfoldable pub take_late : Fragment → Resources → Result × Resources
unfolding place_late
take_late f r =
    let r' : Resources = record r { header_buffer = f.header } in
    elim (f.offset == 0) [
      | false ↦ place_late f r
      | true ↦ elim (pack_h (f.ihl + r.total_data_len)) [
        | none ↦ (struct_error, r')
        | some packed ↦ elim (pack_into f.header 4 packed) [
          | none ↦ (struct_error, r')
          | some header ↦ place_late f (record r { header_buffer = header })
        ]
      ]
    ]

-- elif flag_mf and not reass_resources['last']
unfoldable pub take_early : Fragment → Resources → Result × Resources
unfolding blocks dict_set
take_early f r =
    let r' : Resources = record r {
      header_buffer = if f.offset == 0 then f.header else r.header_buffer;
      block_count = r.block_count + blocks f;
    } in
    elim r.temporary_data_buffer [
      | none ↦ (key_error, r')
      | some frags ↦
          (waiting, record r' { temporary_data_buffer = some (dict_set frags f.offset f.payload) })
    ]

unfoldable pub reass : Fragment → Resources → Result × Resources
unfolding take_last take_late take_early
reass f r = if f.flag_mf then (if r.last then take_late f r else take_early f r) else take_last f r
