-- ===== src/Chain/Responses/Gate.antt =====
-- The reading of a gate in core/src/chain.rs.
use nft_gate.Base.{◌≡◌, sym, Bool, ◌&&◌, some}
use nft_gate.Base.Options.{◌>>=◌, >>=-some, some-injective}
use nft_gate.Text.{codes}
use nft_gate.Grpc.Wire.{Bytes, field_bytes}
use nft_gate.Grpc.Values.{value_field, value_as_bool}
use nft_gate.Chain.{go_object, object_json}
use nft_gate.Chain.Responses.{gate_blocks_access, response_gate_blocks_access}

-- The gate as an answer holds it: both switches are read as Booleans.
abbrev pub GateShows : Bytes → Bool → Bool → Type 0
GateShows resp paused blocks =
    (object : Bytes) × (json : Bytes) × (policy : Bytes) × (field_bytes resp go_object
      ≡ some object)
    × (field_bytes object object_json ≡ some json)
    × (value_field json (codes "paused") >>= value_as_bool ≡ some paused)
    × (value_field json (codes "policy") ≡ some policy)
    × (value_field policy (codes "pause_blocks_access") >>= value_as_bool ≡ some blocks)

pub response_gate_blocks_access-shows :
    (resp : Bytes) (b : Bool)
    → response_gate_blocks_access resp ≡ some b
    → (paused : Bool) × (blocks : Bool) × GateShows resp paused blocks × (b ≡ paused && blocks)
unfolding response_gate_blocks_access gate_blocks_access
response_gate_blocks_access-shows resp b h =
    let (object, o, h₁) = >>=-some (field_bytes resp go_object) _ h in
    let (json, j, h₂) = >>=-some (field_bytes object object_json) _ h₁ in
    let (paused, p, h₃) = >>=-some (value_field json (codes "paused") >>= value_as_bool) _ h₂ in
    let (policy, y, h₄) = >>=-some (value_field json (codes "policy")) _ h₃ in
    let (blocks, k, h₅) =
      >>=-some (value_field policy (codes "pause_blocks_access") >>= value_as_bool) _ h₄ in
    (paused, blocks, (object, json, policy, o, j, p, y, k), sym (some-injective h₅))
