-- ===== src/Grpc/Values.antt =====
-- The lookups in a `google.protobuf.Value` of core/src/grpc.rs.
use nft_gate.Base.{ℕ, zero, suc, Bool, true, false, not, Option, none, some, ◌==◌, if◌then◌else◌}
use nft_gate.Base.Options.{◌>>=◌}
use nft_gate.Text.{Text, text_eq}
use nft_gate.Grpc.Wire.{Bytes, Field, varint_of, len_of, fields, find_map, field_bytes, field_str}

abbrev pub max_value_depth : ℕ
max_value_depth = 32

abbrev pub value_string : ℕ
value_string = 3

abbrev pub value_bool : ℕ
value_bool = 4

abbrev pub value_struct : ℕ
value_struct = 5

abbrev pub value_list : ℕ
value_list = 6

abbrev pub struct_fields : ℕ
struct_fields = 1

abbrev pub entry_key : ℕ
entry_key = 1

abbrev pub entry_value : ℕ
entry_value = 2

abbrev pub list_values : ℕ
list_values = 1

-- The search in one field of a value, a struct or a list, by what it finds in the parts.
abbrev or_else : Option Text → Option Text → Option Text
or_else none d = d
or_else (some v) d = some v

abbrev when {ℓ} : {A : Type ℓ} → Bool → Option A → Option A
when true o = o
when false o = none

-- `if k == key { if let Some(sv) = … }`, then the recursion
unfoldable pub in_entry : (Bytes → Option Text) → Text → Bytes → Option Text
in_entry deeper key entry = do
  k ← field_str entry entry_key
  v ← field_bytes entry entry_value
  or_else (when (text_eq k key) (field_str v value_string)) (deeper v)

abbrev in_struct_field : (Bytes → Option Text) → Text → Field → Option Text
in_struct_field deeper key (len_of n entry) = when (n == struct_fields) (in_entry deeper key entry)
in_struct_field deeper key other = none

unfoldable pub struct_find_string : (Bytes → Option Text) → Text → Bytes → Option Text
struct_find_string deeper key s = find_map (in_struct_field deeper key) (fields s)

abbrev in_list_field : (Bytes → Option Text) → Field → Option Text
in_list_field deeper (len_of n item) = when (n == list_values) (deeper item)
in_list_field deeper other = none

abbrev in_value_field : (Bytes → Option Text) → Text → Field → Option Text
in_value_field deeper key (len_of n b) =
    if n == value_struct
    then struct_find_string deeper key b
    else when (n == value_list) (find_map (in_list_field deeper) (fields b))
in_value_field deeper key other = none

-- The number is how many levels are left of `max_value_depth`.
unfoldable pub value_find_string_at : ℕ → Text → Bytes → Option Text
value_find_string_at zero key value = none
value_find_string_at (suc left) key value =
    find_map (in_value_field (value_find_string_at left key) key) (fields value)

unfoldable pub value_find_string : Bytes → Text → Option Text
value_find_string value key = value_find_string_at max_value_depth key value

abbrev pub is_text : Option Text → Text → Bool
is_text none key = false
is_text (some k) key = text_eq k key

abbrev own_value : Text → Field → Option Bytes
own_value key (len_of n entry) =
    when (n == struct_fields)
      (when (is_text (field_str entry entry_key) key) (field_bytes entry entry_value))
own_value key other = none

unfoldable pub value_field : Bytes → Text → Option Bytes
value_field value key = do s ← field_bytes value value_struct; find_map (own_value key) (fields s)

abbrev bool_of : Field → Option Bool
bool_of (varint_of n v) = when (n == value_bool) (some (not (v == 0)))
bool_of other = none

unfoldable pub value_as_bool : Bytes → Option Bool
value_as_bool value = find_map bool_of (fields value)
