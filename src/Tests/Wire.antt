-- ===== src/Tests/Wire.antt =====
-- The protobuf codec, the gRPC-web frames, the calendar and the client key at concrete inputs.
use nft_gate.Base.{ℕ, ◌≡◌, refl, none, some, List, [], ◌∷◌, ◌++◌, arith}
use nft_gate.Base.Ints.{pos, negsuc}
use nft_gate.Text.{codes, len, strip_prefix, is_whitespace, text_eq}
use nft_gate.Text.Split.{push_first, trim, trim_start_by, trim_end_by, split_by}
use nft_gate.Text.Utf8.{
  utf8_char, as_bytes, lead, feed, decode, all_valid, replaced, from_utf8, from_utf8_lossy,
}
use nft_gate.Forward.{decimal}
use nft_gate.Sig.{uleb128}
use nft_gate.Ports.{stop, pass}
use nft_gate.Grpc.Wire.{
  Bytes, varint, tag, bytes_field, string_field, uint_field, varint_of, len_of, read_groups,
  read_varint, read_payload, next, fields_within, fields, find_map, field_bytes, field_str,
}
use nft_gate.Grpc.Wire.RoundTrip.{Item, uint, bytes, write, fields-write, fields_within-enough}
use nft_gate.Grpc.Values.{
  in_entry, struct_find_string, value_find_string_at, value_find_string, value_field, value_as_bool,
}
use nft_gate.Grpc.Frames.{
  be_bytes, frame, failed, panicked, grpc_status, parse_i64, parse_status, split_crlf, split_bytes,
  status_of_line, status_of_lines, status_of_trailer, take_frame, take_frames, unframe,
}
use nft_gate.Grpc.Frames.Laws.{encode, judge, unframe-encode}
use nft_gate.Quota.{
  paid, civil_from_days, days_from_civil, window_start_ms, parse_workers_plan, as_str,
}
use nft_gate.Quota.Calendar.{days_from_civil-civil_from_days}
use nft_gate.Net.{entries, client_ip_raw, rate_key, client_ip, Addresses}
use nft_gate.Net.Laws.{client_ip_raw-appended}

wires : Unit {0}
unfolding len strip_prefix is_whitespace text_eq push_first trim trim_start_by trim_end_by split_by
    utf8_char as_bytes lead feed decode all_valid replaced from_utf8 from_utf8_lossy decimal uleb128
    varint tag bytes_field string_field uint_field read_groups read_varint read_payload next
    fields_within fields find_map field_bytes field_str write in_entry struct_find_string
    value_find_string_at value_find_string value_field value_as_bool be_bytes frame parse_i64
    parse_status split_crlf split_bytes status_of_line status_of_lines status_of_trailer take_frame
    take_frames unframe encode judge civil_from_days days_from_civil window_start_ms
    parse_workers_plan as_str entries client_ip_raw rate_key client_ip
wires = tt

abbrev message : List Item
message = uint 1 300 ∷ bytes 2 (1 ∷ 2 ∷ 3 ∷ []) ∷ []

fields-write_example : fields (write message) ≡ varint_of 1 300 ∷ len_of 2 (1 ∷ 2 ∷ 3 ∷ []) ∷ []
fields-write_example =
    fields-write message ((omega arith, omega arith), ((omega arith, omega arith), tt))

fields_within-enough_example : fields_within 99 (0x08 ∷ 0xac ∷ 2 ∷ []) ≡ varint_of 1 300 ∷ []
unfolding wires
fields_within-enough_example = fields_within-enough 99 (0x08 ∷ 0xac ∷ 2 ∷ []) (omega arith)

field_tests :
    (fields (0x08 ∷ 0xff ∷ []) ≡ [])
    × (fields (0x0d ∷ 1 ∷ 2 ∷ 3 ∷ 4 ∷ 0x0a ∷ 5 ∷ 1 ∷ []) ≡ nft_gate.Grpc.Wire.Field.fixed32 ∷ [])
    × (field_str (0x0a ∷ 2 ∷ 0xc3 ∷ 0xa9 ∷ []) 1 ≡ some (codes "é"))
    × (field_str (0x0a ∷ 2 ∷ 0xc3 ∷ 0x29 ∷ []) 1 ≡ none)
unfolding wires
field_tests = (refl, refl, refl, refl)

-- The Value `{ "n": { "gate_id": "0x1" } }`
abbrev nested_value : Bytes
nested_value =
    write (bytes 5 (write (bytes 1 (write (bytes 1 (codes "n") ∷ bytes 2 inner ∷ [])) ∷ [])) ∷ [])
  where
    inner : Bytes
    inner = write (
        bytes 5 (
          write (
            bytes 1 (
              write (bytes 1 (codes "gate_id") ∷ bytes 2 (write (bytes 3 (codes "0x1") ∷ [])) ∷ []))
            ∷ []))
        ∷ [])

value_tests :
    (value_find_string nested_value (codes "gate_id") ≡ some (codes "0x1"))
    × (value_find_string nested_value (codes "n") ≡ none)
    × (value_field nested_value (codes "gate_id") ≡ none)
unfolding wires
value_tests = (refl, refl, refl)

abbrev trailer : Bytes
trailer = codes "grpc-status: 0"

abbrev frames : List (ℕ × Bytes)
frames = (0, 7 ∷ 8 ∷ []) ∷ (0, 9 ∷ []) ∷ (0x80, trailer) ∷ []

abbrev received : Bytes
received = 7 ∷ 8 ∷ 9 ∷ []

unframe-encode_example : unframe none (encode frames) ≡ pass received
unfolding wires
unframe-encode_example = unframe-encode none frames (omega arith, (omega arith, (omega arith, tt)))

-- A trailer line of thirteen bytes whose twelfth and thirteenth are one character.
abbrev split_line : Bytes
split_line = codes "grpc-status" ++ (0xc3 ∷ 0xa9 ∷ [])

frame_tests :
    (unframe none (frame (7 ∷ [])) ≡ stop failed)
    × (unframe (some (codes "0")) (frame (7 ∷ [])) ≡ pass (7 ∷ []))
    × (unframe (some (codes "5")) [] ≡ stop (grpc_status (pos 5)))
    × (unframe (some (codes "-1")) [] ≡ stop (grpc_status (negsuc 0)))
    × (unframe (some (codes "0")) (0 ∷ 0 ∷ 0 ∷ []) ≡ stop failed)
    × (unframe (some (codes "0")) (1 ∷ 0 ∷ 0 ∷ 0 ∷ 0 ∷ []) ≡ stop failed)
    × (unframe none (encode ((0x80, split_line) ∷ [])) ≡ stop panicked)
unfolding wires
frame_tests = (refl, refl, refl, refl, refl, refl, refl)

days_from_civil-civil_from_days_example : days_from_civil 2026 10 19 ≡ 20_745
unfolding wires
days_from_civil-civil_from_days_example = days_from_civil-civil_from_days 20_745

client_ip_raw-appended_example :
    (client_ip_raw (codes "6.6.6.6" ∷ codes "203.0.113.9, 172.16.0.1" ∷ []) none 2
      ≡ codes "203.0.113.9")
    × (client_ip_raw (codes "6.6.6.6,203.0.113.9, 172.16.0.1" ∷ []) none 2 ≡ codes "203.0.113.9")
unfolding wires
client_ip_raw-appended_example = (
  (client_ip_raw-appended (codes "6.6.6.6" ∷ []) (codes "1.1.1.1") (codes "203.0.113.9, 172.16.0.1")
      [] (codes "203.0.113.9") (codes "172.16.0.1" ∷ []) none refl).0,
  (client_ip_raw-appended [] (codes "6.6.6.6") (codes "203.0.113.9, 172.16.0.1") []
      (codes "203.0.113.9") (codes "172.16.0.1" ∷ []) none refl).1,
)

abbrev plain_addresses : Addresses
plain_addresses = record { parse_ipv6 = λ s. none; hex = λ n. codes "0" }

net_tests :
    (client_ip plain_addresses (codes "203.0.113.9" ∷ []) (some (codes "10.0.0.2")) 2
      ≡ codes "10.0.0.2")
    × (client_ip plain_addresses (codes "1.2.3.4" ∷ []) none 0 ≡ codes "unknown")
    × (parse_workers_plan (some (codes "Free")) ≡ none)
    × (parse_workers_plan (some (as_str paid)) ≡ some paid)
unfolding wires
net_tests = (refl, refl, refl, refl)
