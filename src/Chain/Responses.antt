-- ===== src/Chain/Responses.antt =====
-- core/src/chain.rs: what the answers of the node say of an event, a pass and a gate. An error is
-- `none`: each of these functions has one kind of error, which denies.
pub mod Fields
pub mod Gate
pub mod Passes
pub mod Laws
use nft_gate.Base.{
  ℕ, ◌-◌, Bool, true, false, not, ◌&&◌, Option, none, some, List, [], ◌∷◌, ltb, leb, ◌==◌,
  if◌then◌else◌, all, any,
}
use nft_gate.Base.Options.{◌>>=◌}
use nft_gate.Base.Words.{u64_max, saturating_add, saturating_mul}
use nft_gate.Text.{Text, codes, text_eq, is_nil, is_digit, len}
use nft_gate.Forward.{decimal}
use nft_gate.External.{Crates}
use nft_gate.Sig.{normalize_address, normalize_move_type}
use nft_gate.Grpc.Wire.{Bytes, Field, varint_of, len_of, fields, field_bytes, field_str}
use nft_gate.Grpc.Values.{value_find_string, value_field, value_as_bool}
use nft_gate.Chain.{
  go_object, object_json, resp_transaction, executed_effects, executed_events, effects_status,
  status_success, events_events, event_sender, event_type, event_json, loo_objects, clock_skew_ms,
}

-- The conjunction is of two values: both fields are read, whatever the first holds.
unfoldable pub gate_blocks_access : Bytes → Option Bool
gate_blocks_access json = do
  paused ← value_field json (codes "paused") >>= value_as_bool
  policy ← value_field json (codes "policy")
  blocks ← value_field policy (codes "pause_blocks_access") >>= value_as_bool
  some (paused && blocks)

unfoldable pub response_gate_blocks_access : Bytes → Option Bool
response_gate_blocks_access resp = do
  object ← field_bytes resp go_object
  json ← field_bytes object object_json
  gate_blocks_access json

-- A string of at most so many digits, then `parse::<u64>()`
unfoldable pub digits_u64 : ℕ → Text → Option ℕ
digits_u64 most t =
    let n = decimal 0 t in
    if not (is_nil t) && leb (len t) most && all is_digit t && leb n u64_max then some n else none

unfoldable pub event_is_recent : Bytes → ℕ → ℕ → Bool
event_is_recent json now max_age_secs =
    elim (value_find_string json (codes "timestamp_ms") >>= digits_u64 16) [
      | none ↦ false
      | some ts ↦
          leb ts (saturating_add now clock_skew_ms)
          && leb (now - ts) (saturating_mul max_age_secs 1000)
    ]

unfoldable pub pass_is_usable : Bytes → Bool
pass_is_usable json = elim (value_find_string json (codes "@variant")) [
  | none ↦ false
  | some variant ↦
      if text_eq variant (codes "UnlimitedPass")
      then true
      else if text_eq variant (codes "SingleUse")
      then elim (value_find_string json (codes "uses_remaining") >>= digits_u64 20) [
        | none ↦ false
        | some n ↦ ltb 0 n
      ]
      else false
]

abbrev pub is_success : Field → Bool
is_success (varint_of n v) = n == status_success && v == 1
is_success other = false

unfoldable pub effects_succeeded : Bytes → Bool
effects_succeeded tx =
    elim (field_bytes tx executed_effects >>= λ effects. field_bytes effects effects_status) [
      | none ↦ false
      | some status ↦ any is_success (fields status)
    ]

abbrev or_empty : Option Bytes → Bytes
or_empty none = []
or_empty (some b) = b

-- The json of an event or an object; `unwrap_or(&[])`
unfoldable pub json_of : ℕ → Bytes → Bytes
json_of field msg = or_empty (field_bytes msg field)

-- `let Field::Len(…) = f else { continue }`
abbrev pub in_field : ℕ → (Bytes → Bool) → Field → Bool
in_field field p (len_of n b) = if n == field then p b else false
in_field field p other = false

module _ (crates : Crates) where
  unfoldable pub same_address : Option Text → Text → Bool
  same_address none b = false
  same_address (some a) b = text_eq (normalize_address crates a) (normalize_address crates b)

  -- `match gate_id`, of an event and of a pass
  unfoldable pub is_for_gate : Option Text → Bytes → Bool
  is_for_gate none json = true
  is_for_gate (some g) json = same_address (value_find_string json (codes "gate_id")) g

  unfoldable pub has_type : Text → Option Text → Bool
  has_type want none = false
  has_type want (some t) = text_eq (normalize_move_type crates t) want

  -- One round of the loop: whether it returns
  unfoldable pub is_consume : Text → Text → Option Text → ℕ → ℕ → Bytes → Bool
  is_consume address want_type gate_id now max_age_secs ev =
      if not (has_type want_type (field_str ev event_type))
      then false
      else if not (same_address (field_str ev event_sender) address)
      then false
      else if not (event_is_recent (json_of event_json ev) now max_age_secs)
      then false
      else is_for_gate gate_id (json_of event_json ev)

  unfoldable pub response_has_consume : Bytes → Text → Text → Option Text → ℕ → ℕ → Bool
  response_has_consume resp address consumed_type gate_id now max_age_secs =
      let want_type = normalize_move_type crates consumed_type in
      elim (field_bytes resp resp_transaction) [
        | none ↦ false
        | some tx ↦
            if not (effects_succeeded tx) then false else elim (field_bytes tx executed_events) [
              | none ↦ false
              | some events ↦
                  any
                    (in_field events_events (is_consume address want_type gate_id now max_age_secs))
                    (fields events)
            ]
      ]

  unfoldable pub is_owned : Option Text → Bytes → Bool
  is_owned gate_id obj =
      if not (pass_is_usable (json_of object_json obj))
      then false
      else is_for_gate gate_id (json_of object_json obj)

  unfoldable pub response_has_owned : Bytes → Option Text → Bool
  response_has_owned resp gate_id = any (in_field loo_objects (is_owned gate_id)) (fields resp)
