-- ===== src/Wire/Struct.antt =====
-- The reads and writes of Python's struct module that tipy's builders and parsers make, in
-- network byte order. A byte is a number below 256; `none` is struct.error or an index that is
-- out of range.
use tipy.Common.{
  ℕ, suc, ◌+◌, ◌*◌, ◌/◌, ◌%◌, Option, none, some, List, [], ◌∷◌, length, get_elem?, write, ◌++◌,
  if◌then◌else◌, leb, ltb,
}

abbrev pub Bytes : Type 0
Bytes = List ℕ

infixl 30 ◌>>=◌
abbrev pub ◌>>=◌ {ℓ} : {A B : Type ℓ} → Option A → (A → Option B) → Option B
none >>= f = none
some a >>= f = f a

-- '! B'
abbrev pub pack_b : ℕ → Option Bytes
pack_b v = if ltb v 256 then some (v ∷ []) else none

-- '! H'
abbrev pub pack_h : ℕ → Option Bytes
pack_h v = if ltb v 65536 then some (v / 256 ∷ v % 256 ∷ []) else none

-- '! L' and '! I'
abbrev pub pack_l : ℕ → Option Bytes
pack_l v =
    if ltb v 4294967296
    then some (v / 16777216 ∷ v / 65536 % 256 ∷ v / 256 % 256 ∷ v % 256 ∷ [])
    else none

-- Several formats in a row.
abbrev pub pack_all : List (Option Bytes) → Option Bytes
pack_all [] = some []
pack_all (p ∷ ps) = do a ← p; b ← pack_all ps; some (a ++ b)

-- struct.pack_into(…, frame, offset, …) for a value that is packed already
abbrev pub pack_into : Bytes → ℕ → Bytes → Option Bytes
pack_into frame offset packed =
    if leb (offset + length packed) (length frame) then some (write frame offset packed) else none

-- frame[offset]
abbrev pub unpack_b : Bytes → ℕ → Option ℕ
unpack_b frame offset = get_elem? frame offset

abbrev pub unpack_h : Bytes → ℕ → Option ℕ
unpack_h frame offset = do
  a ← get_elem? frame offset
  b ← get_elem? frame (suc offset)
  some (a * 256 + b)

abbrev pub unpack_l : Bytes → ℕ → Option ℕ
unpack_l frame offset = do
  a ← unpack_h frame offset
  b ← unpack_h frame (suc (suc offset))
  some (a * 65536 + b)
