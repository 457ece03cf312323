-- ===== src/Tests/Chain.antt =====
-- The queries of the node at concrete inputs: a node that answers from a script.
use nft_gate.Base.{
  ℕ, suc, ◌+◌, ◌≤◌, ◌<◌, ◌≡◌, refl, ◌⊎◌, ◌&&◌, Bool, true, false, Option, none, some, List, [], ◌∷◌,
  arith, Any,
}
use nft_gate.Base.Ints.{pos}
use nft_gate.Text.{Text, codes, len, strip_prefix, is_whitespace, text_eq}
use nft_gate.Text.Split.{push_first, trim, trim_start_by, trim_end_by}
use nft_gate.Text.Utf8.{
  utf8_char, as_bytes, lead, feed, decode, all_valid, replaced, from_utf8, from_utf8_lossy,
}
use nft_gate.Assoc.{lookup, insert, remove, retain, min_by_key}
use nft_gate.Forward.{decimal}
use nft_gate.Sig.{uleb128, trim_0x, pad_64, split_path, normalize_address, normalize_move_type}
use nft_gate.Ports.{Exit, stop, pass}
use nft_gate.Grpc.{Transport, call, base_of}
use nft_gate.Grpc.Wire.{
  Bytes, varint, tag, bytes_field, string_field, uint_field, read_groups, read_varint, read_payload,
  next, fields_within, fields, find_map, field_bytes, field_str,
}
use nft_gate.Grpc.Wire.RoundTrip.{Item, uint, bytes, write}
use nft_gate.Grpc.Values.{
  in_entry, struct_find_string, value_find_string_at, value_find_string, value_field, value_as_bool,
}
use nft_gate.Grpc.Frames.{
  Fault, grpc_status, be_bytes, frame, parse_i64, parse_status, split_crlf, split_bytes,
  status_of_line, status_of_lines, status_of_trailer, take_frame, take_frames, unframe,
}
use nft_gate.Chain.{
  build_list_owned, build_get_transaction, build_get_object, max_owned_pages, ledger_get_object,
  ledger_get_transaction, loo_objects,
}
use nft_gate.Chain.Responses.{
  gate_blocks_access, response_gate_blocks_access, digits_u64, event_is_recent, pass_is_usable,
  effects_succeeded, json_of, same_address, is_for_gate, has_type, is_consume, response_has_consume,
  is_owned, response_has_owned,
}
use nft_gate.Chain.Responses.Laws.{
  HasConsume, IsOwned, response_has_consume_iff, response_has_owned_iff,
}
use nft_gate.Chain.Responses.Fields.{InField}
use nft_gate.Chain.Responses.Gate.{GateShows}
use nft_gate.Chain.Client.{
  Cache, Settings, cache_key, cached, evict_entry, store, next_page, is_not_found, on_page,
  scan_pages, scan_owned, owns_nft, gate_access_blocked, fetch_tx, consume_tx_valid,
}
use nft_gate.Chain.Client.Laws.{PageOwns, owns_nft-true, gate_access_blocked-shows}
use nft_gate.Chain.Client.Polls.{FoundAfter, consume_tx_valid-FoundAfter, consume_tx_valid-true}
use nft_gate.Chain.Client.Bounds.{owns_nft_posts}
use nft_gate.Chain.Client.Reach.{Reaches}
use nft_gate.Tests.Requests.{crates}

unfoldable pub chains : Unit {0}
unfolding len strip_prefix is_whitespace text_eq push_first trim trim_start_by trim_end_by utf8_char
    as_bytes lead feed decode all_valid replaced from_utf8 from_utf8_lossy lookup insert remove
    retain min_by_key decimal uleb128 trim_0x pad_64 split_path normalize_address
    normalize_move_type call base_of varint tag bytes_field string_field uint_field read_groups
    read_varint read_payload next fields_within fields find_map field_bytes field_str write in_entry
    struct_find_string value_find_string_at value_find_string value_field value_as_bool be_bytes
    frame parse_i64 parse_status split_crlf split_bytes status_of_line status_of_lines
    status_of_trailer take_frame take_frames unframe build_list_owned build_get_transaction
    build_get_object gate_blocks_access response_gate_blocks_access digits_u64 event_is_recent
    pass_is_usable effects_succeeded json_of same_address is_for_gate has_type is_consume
    response_has_consume is_owned response_has_owned cache_key cached evict_entry store next_page
    is_not_found on_page scan_pages scan_owned owns_nft gate_access_blocked fetch_tx
    consume_tx_valid
chains = tt

-- `{ key: text, … }` as a `google.protobuf.Value`
abbrev string_struct : List (Text × Text) → Bytes
string_struct es = write (bytes 5 (write (entries es)) ∷ [])
  where
    entries : List (Text × Text) → List Item
    entries [] = []
    entries ((k, v) ∷ es) =
        bytes 1 (write (bytes 1 k ∷ bytes 2 (write (bytes 3 v ∷ [])) ∷ [])) ∷ entries es

abbrev consumed : Text
consumed = codes "0xabc::access_gate::AccessConsumedEvent"

abbrev owner : Text
owner = codes "0xa11ce"

abbrev pub gate : Text
gate = codes "0x6a7e"

abbrev event : Bytes
event = write (
    bytes 3 owner
    ∷ bytes 4 consumed
    ∷ bytes 6 (string_struct ((codes "gate_id", gate) ∷ (codes "timestamp_ms", codes "5000") ∷ []))
    ∷ [])

abbrev transaction_of : ℕ → Bytes
transaction_of success = write (
    bytes 1 (
      write (
        bytes 4 (write (bytes 4 (write (uint 1 success ∷ [])) ∷ []))
        ∷ bytes 5 (write (bytes 3 event ∷ []))
        ∷ []))
    ∷ [])

abbrev pub owned_page : Bytes
owned_page = write (
    bytes 1 (
      write (
        bytes 100 (
          string_struct (
            (codes "@variant", codes "SingleUse")
            ∷ (codes "uses_remaining", codes "1")
            ∷ (codes "gate_id", gate)
            ∷ []))
        ∷ []))
    ∷ [])

response_tests :
    (response_has_consume crates (transaction_of 1) owner consumed (some gate) 6000 60 ≡ true)
    × (response_has_consume crates (transaction_of 0) owner consumed (some gate) 6000 60 ≡ false)
    × (response_has_consume crates (transaction_of 1) owner consumed (some gate) 65_001 60 ≡ false)
    × (response_has_consume crates (transaction_of 1) gate consumed none 6000 60 ≡ false)
    × (response_has_owned crates owned_page (some gate) ≡ true)
    × (response_has_owned crates owned_page (some owner) ≡ false)
unfolding chains
response_tests = (refl, refl, refl, refl, refl, refl)

-- The answers that are left, the clock, and the requests so far.
record Script : Type 0 where
  answers : List (Option Text × Bytes)
  clock : ℕ
  asked : ℕ

abbrev first_answer : List (Option Text × Bytes) → Exit Fault (Option Text × Bytes)
first_answer [] = stop Fault.failed
first_answer (a ∷ rest) = pass a

abbrev other_answers : List (Option Text × Bytes) → List (Option Text × Bytes)
other_answers [] = []
other_answers (a ∷ rest) = rest

abbrev answer : Cache × Script → Exit Fault (Option Text × Bytes) × (Cache × Script)
answer (c, s) = (
  first_answer s.answers,
  (c, record { answers = other_answers s.answers; clock = s.clock; asked = suc s.asked }),
)

abbrev node : Transport (Cache × Script)
node = record {
  post_grpc_web = λ url body s. answer s;
  sleep_ms =
      λ ms s. (s.0, record { answers = s.1.answers; clock = s.1.clock + ms; asked = s.1.asked });
  now_ms = λ s. (s.1.clock, s);
}

abbrev settings : Settings
settings = record { base_url = codes "https://rpc.example"; timeout_ms = 5000; cache_ttl_ms = 1000 }

abbrev answers_with : List Bytes → List (Option Text × Bytes)
answers_with [] = []
answers_with (b ∷ bs) = (some (codes "0"), frame b) ∷ answers_with bs

abbrev script : List (Option Text × Bytes) → Cache × Script
script list = ([], record { answers = list; clock = 6000; asked = 0 })

abbrev done : ℕ → ℕ → Cache × Script
done clock asked = ([], record { answers = []; clock = clock; asked = asked })

abbrev remembered : Cache × Script
remembered = (
  (cache_key owner consumed (some gate), record { owns = true; expiry_ms = 7000 }) ∷ [],
  record { answers = []; clock = 6000; asked = 2 },
)

-- A first page without a pass that grants, and a second one with it.
abbrev pages : List (Option Text × Bytes)
pages = answers_with (write (bytes 2 (7 ∷ []) ∷ []) ∷ owned_page ∷ [])

client_tests :
    (owns_nft crates node settings owner consumed (some gate) (script pages)
      ≡ (pass true, remembered))
    × (owns_nft crates node settings owner consumed (some gate) remembered
        ≡ (pass true, remembered))
    × ((consume_tx_valid crates node settings
          (codes "D")
          owner
          consumed
          (some gate)
          60
          (script ((some (codes "5"), []) ∷ answers_with (transaction_of 1 ∷ [])))).0
        ≡ pass true)
    × ((consume_tx_valid crates node settings (codes "D") owner consumed (some gate) 60 (
          script (
            (some (codes "5"), [])
            ∷ (some (codes "5"), [])
            ∷ (some (codes "5"), [])
            ∷ (some (codes "5"), [])
            ∷ []))).0
        ≡ pass false)
    × ((consume_tx_valid crates node settings
          (codes "D")
          owner
          consumed
          (some gate)
          60
          (script ((some (codes "7"), []) ∷ []))).0
        ≡ stop (grpc_status (pos 7)))
unfolding chains
client_tests = (refl, refl, refl, refl, refl)

owns_nft-true_example :
    PageOwns crates node settings (script pages) owner consumed (some gate)
    ⊎ ((0 < 1000) × (cached (cache_key owner consumed (some gate)) 6000 [] ≡ some true))
unfolding chains
owns_nft-true_example =
    owns_nft-true crates node settings owner consumed (some gate) (script pages) remembered refl

owns_nft_posts_example : 2 ≤ 0 + max_owned_pages
unfolding chains
owns_nft_posts_example =
    owns_nft_posts crates node settings (λ s. s.asked) (λ url body s. refl) (λ s. refl)
      (λ ms s. refl) owner consumed (some gate) (script pages)

found_late :
    FoundAfter crates node settings 1
      (codes "D")
      (script ((some (codes "5"), []) ∷ answers_with (transaction_of 1 ∷ [])))
      (transaction_of 1)
      (done 6500 2)
unfolding chains
found_late = (grpc_status (pos 5), _, refl, refl, refl)

consume_tx_valid-FoundAfter_example :
    consume_tx_valid crates node settings
      (codes "D")
      owner
      consumed
      (some gate)
      60
      (script ((some (codes "5"), []) ∷ answers_with (transaction_of 1 ∷ [])))
    ≡ (pass true, done 6500 2)
unfolding chains
consume_tx_valid-FoundAfter_example =
    consume_tx_valid-FoundAfter crates node settings 1 (codes "D") owner consumed (some gate) 60
      (script ((some (codes "5"), []) ∷ answers_with (transaction_of 1 ∷ []))) (done 6500 2)
      (transaction_of 1) (omega arith) found_late

consume_tx_valid-true_example :
    (resp : Bytes) × (s₁ : Cache × Script) × (s₂ : Cache × Script) × Reaches node settings
      (script (answers_with (transaction_of 1 ∷ [])))
      s₁
    × (call node settings.base_url ledger_get_transaction (build_get_transaction (codes "D")) s₁
        ≡ (pass resp, s₂))
    × (response_has_consume crates resp owner consumed (some gate) s₂.1.clock 60 ≡ true)
unfolding chains
consume_tx_valid-true_example =
    consume_tx_valid-true crates node settings (codes "D") owner consumed (some gate) 60
      (script (answers_with (transaction_of 1 ∷ []))) (done 6000 1) refl

-- A gate whose two switches are as given.
abbrev switch : Text → Bytes → Item
switch name value = bytes 1 (write (bytes 1 name ∷ bytes 2 value ∷ []))

abbrev pub gate_object : Bytes
gate_object = write (
    bytes 1 (
      write (
        bytes 100 (
          write (
            bytes 5 (
              write (
                switch (codes "paused") (write (uint 4 1 ∷ []))
                ∷ switch (codes "policy") (
                    write (
                      bytes 5
                        (write (switch (codes "pause_blocks_access") (write (uint 4 0 ∷ [])) ∷ []))
                      ∷ []))
                ∷ []))
            ∷ []))
        ∷ []))
    ∷ [])

gate_access_blocked-shows_example :
    (resp : Bytes) × (paused : Bool) × (blocks : Bool) × (call node settings.base_url
        ledger_get_object
        (build_get_object gate)
        (script (answers_with (gate_object ∷ [])))
      ≡ (pass resp, done 6000 1))
    × GateShows resp paused blocks
    × (false ≡ paused && blocks)
unfolding chains
gate_access_blocked-shows_example =
    gate_access_blocked-shows crates node settings gate false
      (script (answers_with (gate_object ∷ []))) (done 6000 1) refl

response_has_consume_iff_example :
    HasConsume crates (transaction_of 1) owner consumed (some gate) 6000 60
unfolding chains
response_has_consume_iff_example =
    (response_has_consume_iff crates (transaction_of 1) owner consumed (some gate) 6000 60).0 refl

response_has_owned_iff_example :
    Any (InField loo_objects (IsOwned crates (some gate))) (fields owned_page)
unfolding chains
response_has_owned_iff_example = (response_has_owned_iff crates owned_page (some gate)).0 refl
