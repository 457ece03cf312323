-- ===== src/Native/Config.antt =====
-- gateway-rust/src/config.rs: the configuration of the native server. The parser of socket addresses is a
-- parameter; the wording of errors and the redacting `Debug` instance are not modelled.
pub mod Laws
use nft_gate.Base.{ℕ, Bool, false, not, ◌&&◌, Option, none, some}
use nft_gate.Base.Options.{◌>>=◌, ensure}
use nft_gate.Text.{Text, codes, is_nil, is_some}
use nft_gate.External.{Crates}
use nft_gate.Config.{GatewayConfig}
use nft_gate.Config.Values.{Env, int, boolean, only}
use nft_gate.Config.Load.{from_env}

pub record ServerConfig (A : Type 0) : Type 0 where
  pub gateway : GatewayConfig
  pub bind_addr : A
  pub redis_url : Option Text
  pub nonce_prune_interval_secs : ℕ
  pub allow_volatile_redemptions : Bool
  pub header_read_timeout_secs : ℕ
  pub max_connections : ℕ
  pub shutdown_grace_secs : ℕ
  pub max_concurrent_requests : ℕ
  pub trusted_proxy_hops : ℕ

abbrev pub or_default : Text → Option Text → Text
or_default default none = default
or_default default (some s) = s

unfoldable pub from_lookup :
    {A : Type 0} → Crates → (Text → Option A) → Env → Option (ServerConfig A)
from_lookup crates parse_addr env = do
  gateway ← from_env env crates
  bind_addr ← parse_addr (or_default (codes "0.0.0.0:8080") (env (codes "BIND_ADDR")))
  let redis_url = only (λ s. not (is_nil s)) (env (codes "REDIS_URL")) in
      do
        volatile ← boolean env (codes "ALLOW_VOLATILE_REDEMPTIONS") false
        _ ← ensure (not (gateway.single_use && (not (is_some redis_url) && not volatile)))
        prune ← int env (codes "NONCE_PRUNE_INTERVAL_SECS") 60 1 86_400
        header_read ← int env (codes "HEADER_READ_TIMEOUT_SECS") 10 1 300
        connections ← int env (codes "MAX_CONNECTIONS") 1024 1 1_000_000
        grace ← int env (codes "SHUTDOWN_GRACE_SECS") 30 1 3600
        requests ← int env (codes "MAX_CONCURRENT_REQUESTS") 64 1 100_000
        hops ← int env (codes "TRUSTED_PROXY_HOPS") 0 0 16
        some (record {
          gateway = gateway;
          bind_addr = bind_addr;
          redis_url = redis_url;
          nonce_prune_interval_secs = prune;
          allow_volatile_redemptions = volatile;
          header_read_timeout_secs = header_read;
          max_connections = connections;
          shutdown_grace_secs = grace;
          max_concurrent_requests = requests;
          trusted_proxy_hops = hops;
        })
