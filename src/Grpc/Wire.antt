-- ===== src/Grpc/Wire.antt =====
-- The protobuf wire codec of core/src/grpc.rs: `ProtoWriter` as the bytes it has written, `ProtoReader`
-- as the bytes that are left. A `usize` has 64 bits.
pub mod RoundTrip
use nft_gate.Base.{
  ℕ, zero, suc, ◌+◌, ◌*◌, ◌/◌, ◌%◌, ◌^◌, Bool, true, false, Option, none, some, List, [], ◌∷◌, ◌++◌,
  ltb, leb, ◌==◌, if◌then◌else◌, length, take, drop,
}
use nft_gate.Base.Options.{◌>>=◌}
use nft_gate.Text.{Text}
use nft_gate.Text.Utf8.{as_bytes, from_utf8}
use nft_gate.Sig.{uleb128, uleb128_rounds}

abbrev pub Bytes : Type 0
Bytes = List ℕ

-- `ProtoWriter::varint`, the same loop as in core/src/sig.rs
unfoldable pub varint : ℕ → Bytes
varint n = uleb128 uleb128_rounds n

-- `(field << 3) | wire`, with a wire type below 8
unfoldable pub tag : ℕ → ℕ → Bytes
tag field wire = varint (field * 8 + wire)

unfoldable pub bytes_field : ℕ → Bytes → Bytes
bytes_field field val = tag field 2 ++ (varint (length val) ++ val)

unfoldable pub string_field : ℕ → Text → Bytes
string_field field val = bytes_field field (as_bytes val)

unfoldable pub uint_field : ℕ → ℕ → Bytes
uint_field field val = tag field 0 ++ varint val

pub data Field : Type 0 where
  varint_of : ℕ → ℕ → Field
  len_of : ℕ → Bytes → Field
  fixed64 fixed32 : Field

-- The bits of a group stand above all the bits of `out`, so that `|=` adds.
unfoldable pub read_groups : ℕ → ℕ → Bytes → Option (ℕ × Bytes)
read_groups shift out [] = none
read_groups shift out (b ∷ s) =
    let out' = out + b % 128 * 2 ^ shift % 2 ^ 64 in
    let rest = read_groups (shift + 7) out' s in
    if ltb b 128 then some (out', s) else if leb 64 (shift + 7) then none else rest

unfoldable pub read_varint : Bytes → Option (ℕ × Bytes)
read_varint s = read_groups 0 0 s

abbrev skip : ℕ → Field → Bytes → Option (Field × Bytes)
skip n f s = if leb n (length s) then some (f, drop n s) else none

unfoldable pub read_payload : ℕ → ℕ → Bytes → Option (Field × Bytes)
read_payload field wire s =
    if wire == 0
    then (read_varint s >>= λ r. some (varint_of field r.0, r.1))
    else if wire == 2
    then (read_varint s >>= λ r.
        if leb r.0 (length r.1) then some (len_of field (take r.0 r.1), drop r.0 r.1) else none)
    else if wire == 1
    then skip 8 fixed64 s
    else if wire == 5
    then skip 4 fixed32 s
    else none

-- `ProtoReader::next`: a field and the bytes after it. The field number is cut to a `u32`.
unfoldable pub next : Bytes → Option (Field × Bytes)
next s = read_varint s >>= λ r. read_payload (r.0 / 8 % 2 ^ 32) (r.0 % 8) r.1

-- What the iterator yields until it first ends. Each round takes at least one byte.
unfoldable pub fields_within : ℕ → Bytes → List Field
fields_within zero s = []
fields_within (suc rounds) s = elim (next s) [ none ↦ [] | some r ↦ r.0 ∷ fields_within rounds r.1 ]

unfoldable pub fields : Bytes → List Field
fields s = fields_within (length s) s

-- `find_map`
unfoldable pub find_map {ℓ κ} : {A : Type ℓ} {B : Type κ} → (A → Option B) → List A → Option B
find_map f [] = none
find_map f (x ∷ xs) = let rest = find_map f xs in elim (f x) [ none ↦ rest | some b ↦ some b ]

abbrev pub bytes_of : ℕ → Field → Option Bytes
bytes_of field (len_of n b) = if n == field then some b else none
bytes_of field other = none

unfoldable pub field_bytes : Bytes → ℕ → Option Bytes
field_bytes msg field = find_map (bytes_of field) (fields msg)

unfoldable pub field_str : Bytes → ℕ → Option Text
field_str msg field = field_bytes msg field >>= from_utf8
