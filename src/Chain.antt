-- ===== src/Chain.antt =====
-- core/src/chain.rs: the pinned names and field numbers of `sui.rpc.v2` and the request builders.
pub mod Requests
pub mod Responses
pub mod Client
use nft_gate.Base.{ℕ, Option, none, some, List, [], ◌++◌, ◌∷◌}
use nft_gate.Text.{Text, codes}
use nft_gate.Grpc.Wire.{Bytes, string_field, uint_field, bytes_field}

abbrev pub ledger_get_transaction : Text
ledger_get_transaction = codes "sui.rpc.v2.LedgerService/GetTransaction"

abbrev pub state_list_owned_objects : Text
state_list_owned_objects = codes "sui.rpc.v2.StateService/ListOwnedObjects"

abbrev pub ledger_get_object : Text
ledger_get_object = codes "sui.rpc.v2.LedgerService/GetObject"

abbrev pub go_object_id : ℕ
go_object_id = 1

abbrev pub go_read_mask : ℕ
go_read_mask = 3

abbrev pub go_object : ℕ
go_object = 1

abbrev pub req_digest : ℕ
req_digest = 1

abbrev pub req_read_mask : ℕ
req_read_mask = 2

abbrev pub fieldmask_paths : ℕ
fieldmask_paths = 1

abbrev pub resp_transaction : ℕ
resp_transaction = 1

abbrev pub executed_effects : ℕ
executed_effects = 4

abbrev pub executed_events : ℕ
executed_events = 5

abbrev pub effects_status : ℕ
effects_status = 4

abbrev pub status_success : ℕ
status_success = 1

abbrev pub events_events : ℕ
events_events = 3

abbrev pub event_sender : ℕ
event_sender = 3

abbrev pub event_type : ℕ
event_type = 4

abbrev pub event_json : ℕ
event_json = 6

abbrev pub loo_owner : ℕ
loo_owner = 1

abbrev pub loo_page_size : ℕ
loo_page_size = 2

abbrev pub loo_page_token : ℕ
loo_page_token = 3

abbrev pub loo_read_mask : ℕ
loo_read_mask = 4

abbrev pub loo_object_type : ℕ
loo_object_type = 5

abbrev pub loo_objects : ℕ
loo_objects = 1

abbrev pub loo_next_page_token : ℕ
loo_next_page_token = 2

abbrev pub object_json : ℕ
object_json = 100

abbrev pub owned_page_size : ℕ
owned_page_size = 50

abbrev pub max_owned_pages : ℕ
max_owned_pages = 100

abbrev pub tx_fetch_attempts : ℕ
tx_fetch_attempts = 4

abbrev pub max_cache_entries : ℕ
max_cache_entries = 10_000

abbrev pub clock_skew_ms : ℕ
clock_skew_ms = 60_000

abbrev pub tx_fetch_retry_ms : ℕ
tx_fetch_retry_ms = 500

-- `if let Some(token) = page_token`
abbrev pub token_field : Option Bytes → Bytes
token_field none = []
token_field (some token) = bytes_field loo_page_token token

unfoldable pub build_list_owned : Text → Text → Option Bytes → Bytes
build_list_owned address nft_type page_token =
    let mask =
      string_field fieldmask_paths (codes "object_type")
      ++ string_field fieldmask_paths (codes "json") in
    string_field loo_owner address
    ++ (uint_field loo_page_size owned_page_size
        ++ (token_field page_token
            ++ (bytes_field loo_read_mask mask ++ string_field loo_object_type nft_type)))

unfoldable pub build_get_transaction : Text → Bytes
build_get_transaction digest =
    let mask =
      string_field fieldmask_paths (codes "effects.status")
      ++ string_field fieldmask_paths (codes "events") in
    string_field req_digest digest ++ bytes_field req_read_mask mask

-- The request of `gate_access_blocked`
unfoldable pub build_get_object : Text → Bytes
build_get_object gate_id =
    string_field go_object_id gate_id
    ++ bytes_field go_read_mask (string_field fieldmask_paths (codes "json"))
