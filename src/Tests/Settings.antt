-- ===== src/Tests/Settings.antt =====
-- The configuration, the message and the addresses at concrete inputs.
use nft_gate.Base.{◌≡◌, refl, true, false, none, some, [], ◌∷◌, ◌++◌, if◌then◌else◌}
use nft_gate.Text.{Text, codes, text_eq, len, strip_prefix, starts_with, contains, is_whitespace}
use nft_gate.Text.Split.{
  split_by, push_first, drop_empty, map_text, split_once, trim_start_by, trim_end_by, trim,
  rsplit_once, split_once_str, strip_suffix, starts_by, ends_by, first_piece,
}
use nft_gate.External.{get}
use nft_gate.Forward.{decimal}
use nft_gate.Headers.{is_safe_path}
use nft_gate.Origin.{
  host_ok, port_ok, host_and_port, origin_parts_ok, is_canonical_origin, normalized_origin,
}
use nft_gate.Proof.{
  AccessProof, MessageContext, is_nonce, is_address, is_canonical_id, is_signature, join_lines,
  message_lines, origin_ok, personal_message, text_field, digest_field, proof_of_object,
  decode_access_proof,
}
use nft_gate.Proof.Base58.{
  position, leading_ones, skip_ones, spill, mul_add, magnitude_of, base58_decoded_len, is_tx_digest,
}
use nft_gate.Proof.Decoded.{IsWellFormed, decode_access_proof-IsWellFormed}
use nft_gate.Proof.Message.{personal_message-injective}
use nft_gate.Sig.{trim_0x, pad_64, normalize_address}
use nft_gate.Config.{GatewayConfig}
use nft_gate.Config.Values.{
  Env, is_header_name, is_header_value, auth_header_of, auth_headers_of,
  parse_upstream_auth_headers, parse_rpc_auth_header, check_scheme, required, int, boolean,
  all_plain, is_plain_path, parse_public_paths, parse_allowed_origins, allow_insecure_http,
  is_object_id, is_access_gate_pass_type,
}
use nft_gate.Config.Load.{
  load_origin, load_network, load_urls, load_nft_type, load_gate_id, load_lease, load_max_age,
  load_identity, load_timing, load_limits, from_env,
}
use nft_gate.Config.Bounds.{IsConsistent, from_env-IsConsistent}
use nft_gate.Native.Config.{ServerConfig, from_lookup}
use nft_gate.Native.Config.Laws.{IsServerConfig, from_lookup-IsServerConfig}
use nft_gate.Tests.Requests.{crates, consume, repeat}

settings : Unit {0}
unfolding text_eq len strip_prefix starts_with is_whitespace split_by push_first drop_empty map_text
    split_once trim_start_by trim_end_by trim rsplit_once split_once_str strip_suffix starts_by
    ends_by first_piece get decimal host_ok port_ok host_and_port origin_parts_ok
    is_canonical_origin normalized_origin is_nonce is_address is_canonical_id is_signature
    join_lines message_lines origin_ok personal_message text_field digest_field proof_of_object
    decode_access_proof position leading_ones skip_ones spill mul_add magnitude_of
    base58_decoded_len is_tx_digest trim_0x pad_64 normalize_address is_header_name is_header_value
    auth_header_of auth_headers_of parse_upstream_auth_headers parse_rpc_auth_header check_scheme
    required int boolean all_plain is_plain_path parse_public_paths parse_allowed_origins
    allow_insecure_http is_object_id is_access_gate_pass_type load_origin load_network load_urls
    load_nft_type load_gate_id load_lease load_max_age load_identity load_timing load_limits
    from_env
settings = tt

-- The variables that are required, and one that is not.
abbrev variables : Env
variables key =
    if text_eq key (codes "GATEWAY_ORIGIN")
    then some (codes "https://gate.example:8443")
    else if text_eq key (codes "NETWORK")
    then some (codes "testnet")
    else if text_eq key (codes "UPSTREAM_URL")
    then some (codes " https://up.example/ ")
    else if text_eq key (codes "SUI_RPC_URL")
    then some (codes "https://rpc.example")
    else if text_eq key (codes "NFT_TYPE")
    then some (codes "0x2::access_gate::AccessNFT")
    else if text_eq key (codes "GATE_ID")
    then some (codes "0x7")
    else if text_eq key (codes "REDEMPTION_LEASE_TTL_SECS")
    then some (codes "1200")
    else none

-- A lease that the request could outlive.
abbrev short_lease : Env
short_lease key =
    if text_eq key (codes "REDEMPTION_LEASE_TTL_SECS") then some (codes "630") else variables key

abbrev loaded_config : GatewayConfig
loaded_config = record {
  gateway_origin = codes "https://gate.example:8443";
  network = codes "testnet";
  upstream_url = codes "https://up.example";
  sui_rpc_url = codes "https://rpc.example";
  nft_type = codes "0x2::access_gate::AccessNFT";
  gate_id = codes "0x7";
  challenge_ttl_secs = 300;
  single_use = false;
  public_paths = codes "/v1/tip-config" ∷ [];
  allowed_origins = [];
  rate_limit_per_min = 30;
  challenge_rate_limit_per_min = 30;
  gated_preauth_rate_limit_per_min = 120;
  max_body_bytes = 262_144;
  nonce_max_entries = 1_000_000;
  ownership_cache_ttl_ms = 0;
  redemption_lease_ttl_secs = 1200;
  redemption_retention_secs = 2_592_000;
  consume_max_age_secs = 432_000;
  rpc_timeout_secs = 15;
  body_read_timeout_secs = 30;
  upstream_timeout_secs = 600;
  max_response_bytes = 16_777_216;
  allow_insecure_http = false;
  upstream_auth_headers = [];
  sui_rpc_auth_header = none;
}

loaded : from_env variables crates ≡ some loaded_config
unfolding settings
loaded = refl

config_tests :
    (from_env short_lease crates ≡ none)
    × (is_canonical_origin (codes "https://a.example:443") ≡ false)
    × (is_canonical_origin (codes "http://localhost:8787") ≡ true)
    × (normalized_origin (codes "HTTPS://a.Example:443/x") ≡ codes "https://a.example")
    × (check_scheme (codes "https://u@a.example/x") false ≡ false)
    × (parse_public_paths (codes "/a, /b/../c") ≡ none)
unfolding settings
config_tests = (refl, refl, refl, refl, refl, refl)

from_env-IsConsistent_example : IsConsistent loaded_config
from_env-IsConsistent_example = from_env-IsConsistent variables crates loaded_config loaded

-- The native server, with a store in Redis
abbrev server_variables : Env
server_variables key =
    if text_eq key (codes "REDIS_URL")
    then some (codes "redis://cache.example")
    else if text_eq key (codes "MAX_CONNECTIONS")
    then some (codes "512")
    else variables key

abbrev server_config : ServerConfig Text
server_config = record {
  gateway = loaded_config;
  bind_addr = codes "0.0.0.0:8080";
  redis_url = some (codes "redis://cache.example");
  nonce_prune_interval_secs = 60;
  allow_volatile_redemptions = false;
  header_read_timeout_secs = 10;
  max_connections = 512;
  shutdown_grace_secs = 30;
  max_concurrent_requests = 64;
  trusted_proxy_hops = 0;
}

server_loaded : from_lookup crates some server_variables ≡ some server_config
unfolding settings from_lookup
server_loaded = refl

from_lookup-IsServerConfig_example : IsServerConfig server_config
from_lookup-IsServerConfig_example =
    from_lookup-IsServerConfig crates some server_variables server_config server_loaded

abbrev proof : AccessProof
proof = record {
  address = codes "0x0";
  nonce = codes "n1";
  signature = repeat 97 b'A';
  consume_digest = some consume;
}

decoded_ok : decode_access_proof crates (codes "TOKEN") ≡ some proof
unfolding settings
decoded_ok = refl

decode_access_proof-IsWellFormed_example : IsWellFormed (codes "TOKEN") proof
decode_access_proof-IsWellFormed_example =
    decode_access_proof-IsWellFormed crates (codes "TOKEN") proof decoded_ok

abbrev context : MessageContext
context = record {
  origin = codes "https://gate.example";
  gate_id = codes "0x" ++ repeat 64 b'7';
  network = codes "testnet";
  nonce = codes "n1";
  consume_digest = some consume;
}

built : personal_message context ≡ some (join_lines (message_lines context))
unfolding settings
built = refl

personal_message-injective_example : context ≡ context
personal_message-injective_example =
    personal_message-injective context context (join_lines (message_lines context)) built built

-- The second path has a segment that URL parsers read as `..`.
path_tests :
    (is_safe_path (codes "/a/%2E%2e/b") ≡ false) × (is_safe_path (codes "/a/.%2e/b") ≡ true)
unfolding settings is_safe_path contains
path_tests = (refl, refl)
