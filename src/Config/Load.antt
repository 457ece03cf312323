-- ===== src/Config/Load.antt =====
-- `GatewayConfig::from_env` of core/src/config.rs. The checks that follow one variable stand with it; an error is
-- `none` whichever check fails first.
use nft_gate.Base.{ℕ, Bool, false, not, ◌&&◌, ◌||◌, Option, none, some, ltb, leb, ◌==◌}
use nft_gate.Base.Options.{◌>>=◌, ensure}
use nft_gate.Base.Words.{saturating_add}
use nft_gate.Text.{Text, codes, text_eq, member, starts_with}
use nft_gate.Text.Split.{trim_end_by}
use nft_gate.External.{Crates}
use nft_gate.Proof.{networks}
use nft_gate.Origin.{is_canonical_origin, normalized_origin}
use nft_gate.Config.{GatewayConfig}
use nft_gate.Config.Values.{
  Env, required, int, boolean, check_scheme, allow_insecure_http, is_object_id,
  is_access_gate_pass_type, parse_upstream_auth_headers, parse_rpc_auth_header, parse_public_paths,
  parse_allowed_origins,
}

-- What a gateway is and where it forwards to.
pub record Identity : Type 0 where
  pub allow_http : Bool
  pub gateway_origin : Text
  pub network : Text
  pub urls : Text × Text
  pub nft_type : Text
  pub gate_id : Text

pub record Timing : Type 0 where
  pub upstream_timeout_secs : ℕ
  pub body_read_timeout_secs : ℕ
  pub redemption_lease_ttl_secs : ℕ
  pub redemption_retention_secs : ℕ
  pub consume_max_age_secs : ℕ

pub record Limits : Type 0 where
  pub rate_limit_per_min : ℕ
  pub challenge_rate_limit_per_min : ℕ
  pub gated_preauth_rate_limit_per_min : ℕ
  pub max_body_bytes : ℕ
  pub nonce_max_entries : ℕ
  pub ownership_cache_ttl_ms : ℕ
  pub rpc_timeout_secs : ℕ
  pub max_response_bytes : ℕ

module _ (env : Env) where
  unfoldable pub load_origin : Bool → Option Text
  load_origin allow_http = do
    origin ← required env (codes "GATEWAY_ORIGIN")
    _ ← ensure (is_canonical_origin origin && (allow_http || starts_with (codes "https://") origin))
    some origin

  unfoldable pub load_network : Option Text
  load_network = do
    network ← required env (codes "NETWORK")
    _ ← ensure (member network networks)
    some network

  -- The upstream and the RPC URL.
  unfoldable pub load_urls : Bool → Text → Option (Text × Text)
  unfolding trim_end_by
  load_urls allow_http gateway_origin = do
    given ← required env (codes "UPSTREAM_URL")
    let upstream = trim_end_by (λ c. c == b'/') given in
        do
          sui_rpc ← required env (codes "SUI_RPC_URL")
          _ ← ensure (check_scheme upstream allow_http)
          _ ← ensure (check_scheme sui_rpc allow_http)
          _ ← ensure (not (text_eq (normalized_origin upstream) gateway_origin))
          some (upstream, sui_rpc)

  unfoldable pub load_nft_type : Option Text
  load_nft_type = do
    nft_type ← required env (codes "NFT_TYPE")
    _ ← ensure (is_access_gate_pass_type nft_type)
    some nft_type

  unfoldable pub load_gate_id : Option Text
  load_gate_id = do
    gate_id ← required env (codes "GATE_ID")
    _ ← ensure (is_object_id gate_id)
    some gate_id

  unfoldable pub load_lease : ℕ → ℕ → Option ℕ
  load_lease upstream_timeout_secs body_read_timeout_secs = do
    ttl ← int env (codes "REDEMPTION_LEASE_TTL_SECS") 900 30 86_400
    _ ← ensure (ltb (saturating_add upstream_timeout_secs body_read_timeout_secs) ttl)
    some ttl

  unfoldable pub load_max_age : ℕ → Option ℕ
  load_max_age redemption_retention_secs = do
    age ← int env (codes "CONSUME_MAX_AGE_SECS") 432_000 60 31_536_000
    _ ← ensure (leb age redemption_retention_secs)
    some age

  abbrev or_else : Option Text → Text → Text
  or_else none d = d
  or_else (some v) d = v

  unfoldable pub load_identity : Option Identity
  load_identity = do
    allow_http ← allow_insecure_http env
    gateway_origin ← load_origin allow_http
    network ← load_network
    urls ← load_urls allow_http gateway_origin
    nft_type ← load_nft_type
    gate_id ← load_gate_id
    some (record {
      allow_http = allow_http;
      gateway_origin = gateway_origin;
      network = network;
      urls = urls;
      nft_type = nft_type;
      gate_id = gate_id;
    })

  unfoldable pub load_timing : Option Timing
  load_timing = do
    upstream ← int env (codes "UPSTREAM_TIMEOUT_SECS") 600 1 3600
    body ← int env (codes "BODY_READ_TIMEOUT_SECS") 30 1 3600
    lease ← load_lease upstream body
    retention ← int env (codes "REDEMPTION_RETENTION_SECS") 2_592_000 3600 31_536_000
    age ← load_max_age retention
    some (record {
      upstream_timeout_secs = upstream;
      body_read_timeout_secs = body;
      redemption_lease_ttl_secs = lease;
      redemption_retention_secs = retention;
      consume_max_age_secs = age;
    })

  unfoldable pub load_limits : Option Limits
  load_limits = do
    rate ← int env (codes "RATE_LIMIT_PER_MIN") 30 0 1_000_000
    challenge ← int env (codes "CHALLENGE_RATE_LIMIT_PER_MIN") 30 0 1_000_000
    preauth ← int env (codes "GATED_PREAUTH_RATE_LIMIT_PER_MIN") 120 0 1_000_000
    max_body ← int env (codes "MAX_BODY_BYTES") 262_144 1 1_073_741_824
    nonce_max ← int env (codes "NONCE_MAX_ENTRIES") 1_000_000 1 100_000_000
    cache_ttl ← int env (codes "OWNERSHIP_CACHE_TTL_MS") 0 0 3_600_000
    rpc_timeout ← int env (codes "RPC_TIMEOUT_SECS") 15 1 120
    max_response ← int env (codes "MAX_RESPONSE_BYTES") 16_777_216 1 1_073_741_824
    some (record {
      rate_limit_per_min = rate;
      challenge_rate_limit_per_min = challenge;
      gated_preauth_rate_limit_per_min = preauth;
      max_body_bytes = max_body;
      nonce_max_entries = nonce_max;
      ownership_cache_ttl_ms = cache_ttl;
      rpc_timeout_secs = rpc_timeout;
      max_response_bytes = max_response;
    })

  unfoldable pub from_env : Crates → Option GatewayConfig
  from_env crates = do
    who ← load_identity
    single_use ← boolean env (codes "SINGLE_USE") false
    timing ← load_timing
    upstream_auth_headers ← parse_upstream_auth_headers crates (env (codes "UPSTREAM_AUTH_HEADERS"))
    sui_rpc_auth_header ← parse_rpc_auth_header (env (codes "SUI_RPC_AUTH_HEADER"))
    challenge_ttl_secs ← int env (codes "CHALLENGE_TTL_SECS") 300 10 3600
    public_paths ←
        parse_public_paths (or_else (env (codes "PUBLIC_PATHS")) (codes "/v1/tip-config"))
    allowed_origins ←
        parse_allowed_origins (or_else (env (codes "ALLOWED_ORIGINS")) (codes "")) who.allow_http
    limits ← load_limits
    some (record {
      gateway_origin = who.gateway_origin;
      network = who.network;
      upstream_url = who.urls.0;
      sui_rpc_url = who.urls.1;
      nft_type = who.nft_type;
      gate_id = who.gate_id;
      challenge_ttl_secs = challenge_ttl_secs;
      single_use = single_use;
      public_paths = public_paths;
      allowed_origins = allowed_origins;
      rate_limit_per_min = limits.rate_limit_per_min;
      challenge_rate_limit_per_min = limits.challenge_rate_limit_per_min;
      gated_preauth_rate_limit_per_min = limits.gated_preauth_rate_limit_per_min;
      max_body_bytes = limits.max_body_bytes;
      nonce_max_entries = limits.nonce_max_entries;
      ownership_cache_ttl_ms = limits.ownership_cache_ttl_ms;
      redemption_lease_ttl_secs = timing.redemption_lease_ttl_secs;
      redemption_retention_secs = timing.redemption_retention_secs;
      consume_max_age_secs = timing.consume_max_age_secs;
      rpc_timeout_secs = limits.rpc_timeout_secs;
      body_read_timeout_secs = timing.body_read_timeout_secs;
      upstream_timeout_secs = timing.upstream_timeout_secs;
      max_response_bytes = limits.max_response_bytes;
      allow_insecure_http = who.allow_http;
      upstream_auth_headers = upstream_auth_headers;
      sui_rpc_auth_header = sui_rpc_auth_header;
    })
