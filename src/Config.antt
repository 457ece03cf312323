-- ===== src/Config.antt =====
-- core/src/config.rs: the configuration that every platform shares. The redacting `Debug` instance is not
-- modelled.
pub mod Values
pub mod Load
pub mod Bounds
use nft_gate.Base.{ℕ, Bool, Option, List, any}
use nft_gate.Text.{Text, text_eq}

pub record AuthHeader : Type 0 where
  pub name : Text
  pub value : Text

pub record GatewayConfig : Type 0 where
  pub gateway_origin : Text
  pub network : Text
  pub upstream_url : Text
  pub sui_rpc_url : Text
  pub nft_type : Text
  pub gate_id : Text
  pub challenge_ttl_secs : ℕ
  pub single_use : Bool
  pub public_paths : List Text
  pub allowed_origins : List Text
  pub rate_limit_per_min : ℕ
  pub challenge_rate_limit_per_min : ℕ
  pub gated_preauth_rate_limit_per_min : ℕ
  pub max_body_bytes : ℕ
  pub nonce_max_entries : ℕ
  pub ownership_cache_ttl_ms : ℕ
  pub redemption_lease_ttl_secs : ℕ
  pub redemption_retention_secs : ℕ
  pub consume_max_age_secs : ℕ
  pub rpc_timeout_secs : ℕ
  pub body_read_timeout_secs : ℕ
  pub upstream_timeout_secs : ℕ
  pub max_response_bytes : ℕ
  pub allow_insecure_http : Bool
  pub upstream_auth_headers : List AuthHeader
  pub sui_rpc_auth_header : Option AuthHeader

unfoldable pub is_public_path : GatewayConfig → Text → Bool
is_public_path cfg path = any (λ p. text_eq p path) cfg.public_paths
