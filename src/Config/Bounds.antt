-- ===== src/Config/Bounds.antt =====
-- What a configuration that loads is sure to satisfy.
use nft_gate.Base.{ℕ, ◌+◌, ◌<◌, ◌≤◌, ◌≡◌, ◌⊎◌, Bool, true, false, some, arith}
use nft_gate.Text.{Text, codes, text_eq, member, starts_with}
use nft_gate.External.{Crates}
use nft_gate.Proof.{networks}
use nft_gate.Origin.{is_canonical_origin, normalized_origin}
use nft_gate.Config.{GatewayConfig}
use nft_gate.Config.Values.{Env, int, check_scheme, is_object_id, is_access_gate_pass_type}
use nft_gate.Config.Load.{
  load_origin, load_network, load_urls, load_nft_type, load_gate_id, load_lease, load_max_age,
  from_env, load_identity, load_timing, load_limits, Identity, Timing, Limits,
}

pub int-within :
    (env : Env) (key : Text) (d min max : ℕ) (n : ℕ)
    → int env key d min max ≡ some n
    → min ≤ d
    → d ≤ max
    → (min ≤ n) × (n ≤ max)
unfolding int
int-within env key d min max n h lo hi = ground arith

-- The checks across variables, and the ranges that the operations rely on.
pub record IsConsistent (cfg : GatewayConfig) : Type 0 where
  pub lease_outlives_request :
      cfg.upstream_timeout_secs + cfg.body_read_timeout_secs < cfg.redemption_lease_ttl_secs
  pub consume_is_remembered : cfg.consume_max_age_secs ≤ cfg.redemption_retention_secs
  pub nonces_have_room : 0 < cfg.nonce_max_entries
  pub challenge_lasts : (10 ≤ cfg.challenge_ttl_secs) × (cfg.challenge_ttl_secs ≤ 3600)
  pub canonical : is_canonical_origin cfg.gateway_origin ≡ true
  pub secure :
      (cfg.allow_insecure_http ≡ true) ⊎ (starts_with (codes "https://") cfg.gateway_origin ≡ true)
  pub known_network : member cfg.network networks ≡ true
  pub urls :
      (check_scheme cfg.upstream_url cfg.allow_insecure_http ≡ true)
      × (check_scheme cfg.sui_rpc_url cfg.allow_insecure_http ≡ true)
  pub no_loop : text_eq (normalized_origin cfg.upstream_url) cfg.gateway_origin ≡ false
  pub gate : is_object_id cfg.gate_id ≡ true
  pub pass_type : is_access_gate_pass_type cfg.nft_type ≡ true

module _ (env : Env) where
  load_lease-outlives :
      (up body : ℕ) (ttl : ℕ)
      → up ≤ 3600
      → body ≤ 3600
      → load_lease env up body ≡ some ttl
      → up + body < ttl
  unfolding load_lease
  load_lease-outlives up body ttl u b h =
      ground (arith, int-within env (codes "REDEMPTION_LEASE_TTL_SECS") 900 30 86_400 ttl)

  load_max_age-le :
      (retention : ℕ) (age : ℕ) → load_max_age env retention ≡ some age → age ≤ retention
  unfolding load_max_age
  load_max_age-le retention age h = ground arith

  load_origin-canonical :
      (allow : Bool) (o : Text)
      → load_origin env allow ≡ some o
      → (is_canonical_origin o ≡ true)
        × ((allow ≡ true) ⊎ (starts_with (codes "https://") o ≡ true))
  unfolding load_origin
  load_origin-canonical allow o h = ground arith

  load_network-listed : (n : Text) → load_network env ≡ some n → member n networks ≡ true
  unfolding load_network
  load_network-listed n h = ground arith

  load_gate_id-id : (g : Text) → load_gate_id env ≡ some g → is_object_id g ≡ true
  unfolding load_gate_id
  load_gate_id-id g h = ground arith

  load_nft_type-pass : (t : Text) → load_nft_type env ≡ some t → is_access_gate_pass_type t ≡ true
  unfolding load_nft_type
  load_nft_type-pass t h = ground arith

  load_urls-checked :
      (allow : Bool) (origin : Text) (urls : Text × Text)
      → load_urls env allow origin ≡ some urls
      → (check_scheme urls.0 allow ≡ true)
        × (check_scheme urls.1 allow ≡ true)
        × (text_eq (normalized_origin urls.0) origin ≡ false)
  unfolding load_urls
  load_urls-checked allow origin urls h = ground arith

  -- `load_identity` and `load_timing`: what each has checked.
  abbrev IsIdentity : Identity → Type 0
  IsIdentity who =
      (is_canonical_origin who.gateway_origin ≡ true)
      × ((who.allow_http ≡ true) ⊎ (starts_with (codes "https://") who.gateway_origin ≡ true))
      × (member who.network networks ≡ true)
      × (check_scheme who.urls.0 who.allow_http ≡ true)
      × (check_scheme who.urls.1 who.allow_http ≡ true)
      × (text_eq (normalized_origin who.urls.0) who.gateway_origin ≡ false)
      × (is_access_gate_pass_type who.nft_type ≡ true)
      × (is_object_id who.gate_id ≡ true)

  load_identity-IsIdentity : (who : Identity) → load_identity env ≡ some who → IsIdentity who
  unfolding load_identity
  load_identity-IsIdentity who h = ground (
    arith,
    load_origin-canonical who.allow_http who.gateway_origin,
    load_network-listed who.network,
    load_urls-checked who.allow_http who.gateway_origin who.urls,
    load_nft_type-pass who.nft_type,
    load_gate_id-id who.gate_id,
  )

  abbrev IsTiming : Timing → Type 0
  IsTiming t =
      (t.upstream_timeout_secs + t.body_read_timeout_secs < t.redemption_lease_ttl_secs)
      × (t.consume_max_age_secs ≤ t.redemption_retention_secs)

  load_timing-IsTiming : (t : Timing) → load_timing env ≡ some t → IsTiming t
  unfolding load_timing
  load_timing-IsTiming t h = ground (
    arith,
    int-within env (codes "UPSTREAM_TIMEOUT_SECS") 600 1 3600 t.upstream_timeout_secs,
    int-within env (codes "BODY_READ_TIMEOUT_SECS") 30 1 3600 t.body_read_timeout_secs,
    load_lease-outlives t.upstream_timeout_secs t.body_read_timeout_secs
        t.redemption_lease_ttl_secs,
    load_max_age-le t.redemption_retention_secs t.consume_max_age_secs,
  )

  load_limits-nonces : (l : Limits) → load_limits env ≡ some l → 0 < l.nonce_max_entries
  unfolding load_limits
  load_limits-nonces l h = ground (
    arith,
    int-within env (codes "NONCE_MAX_ENTRIES") 1_000_000 1 100_000_000 l.nonce_max_entries,
  )

  abbrev who_of : GatewayConfig → Identity
  who_of cfg = record {
    allow_http = cfg.allow_insecure_http;
    gateway_origin = cfg.gateway_origin;
    network = cfg.network;
    urls = (cfg.upstream_url, cfg.sui_rpc_url);
    nft_type = cfg.nft_type;
    gate_id = cfg.gate_id;
  }

  abbrev timing_of : GatewayConfig → Timing
  timing_of cfg = record {
    upstream_timeout_secs = cfg.upstream_timeout_secs;
    body_read_timeout_secs = cfg.body_read_timeout_secs;
    redemption_lease_ttl_secs = cfg.redemption_lease_ttl_secs;
    redemption_retention_secs = cfg.redemption_retention_secs;
    consume_max_age_secs = cfg.consume_max_age_secs;
  }

  abbrev limits_of : GatewayConfig → Limits
  limits_of cfg = record {
    rate_limit_per_min = cfg.rate_limit_per_min;
    challenge_rate_limit_per_min = cfg.challenge_rate_limit_per_min;
    gated_preauth_rate_limit_per_min = cfg.gated_preauth_rate_limit_per_min;
    max_body_bytes = cfg.max_body_bytes;
    nonce_max_entries = cfg.nonce_max_entries;
    ownership_cache_ttl_ms = cfg.ownership_cache_ttl_ms;
    rpc_timeout_secs = cfg.rpc_timeout_secs;
    max_response_bytes = cfg.max_response_bytes;
  }

  -- A configuration that loads is put together from the parts.
  parts_of :
      (crates : Crates) (cfg : GatewayConfig)
      → from_env env crates ≡ some cfg
      → (load_identity env ≡ some (who_of cfg))
        × (load_timing env ≡ some (timing_of cfg))
        × (load_limits env ≡ some (limits_of cfg))
        × (int env (codes "CHALLENGE_TTL_SECS") 300 10 3600 ≡ some cfg.challenge_ttl_secs)
  unfolding from_env
  parts_of crates cfg h = ground arith

  -- A configuration that loads is consistent: a lease outlives the body read and the upstream call together, a
  -- spent consume is remembered for at least as long as it can be presented, the nonce table has room, a
  -- challenge lasts 10 to 3600 seconds, the origin is canonical and https unless insecure HTTP is allowed, the network is known, both URLs pass the
  -- scheme check, the upstream is not the gateway itself, and the gate and the NFT type are well formed.
  pub from_env-IsConsistent :
      (crates : Crates) (cfg : GatewayConfig) → from_env env crates ≡ some cfg → IsConsistent cfg
  from_env-IsConsistent crates cfg h =
      let (e_who, e_timing, e_limits, e_ttl) = parts_of crates cfg h in
      let who = load_identity-IsIdentity (who_of cfg) e_who in
      let timing = load_timing-IsTiming (timing_of cfg) e_timing in
      record {
        lease_outlives_request = timing.0;
        consume_is_remembered = timing.1;
        nonces_have_room = load_limits-nonces (limits_of cfg) e_limits;
        challenge_lasts = int-within env _ _ _ _ _ e_ttl (omega arith) (omega arith);
        canonical = who.0;
        secure = who.1;
        known_network = who.2;
        urls = (who.3, who.4);
        no_loop = who.5;
        pass_type = who.6;
        gate = who.7;
      }
