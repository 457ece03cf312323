-- ===== src/Native/Config/Laws.antt =====
-- What a configuration of the native server that loads is sure to satisfy.
use mathlib.Core.Path.{subst}
use nft_gate.Base.{
  ◌≤◌, ◌≡◌, refl, ◌⊎◌, inl, inr, Bool, true, false, not, ◌&&◌, Option, none, some, arith,
}
use nft_gate.Base.Options.{ensure, >>=-some, ensure-some, some-injective}
use nft_gate.Text.{Text, codes, is_nil, is_some}
use nft_gate.External.{Crates}
use nft_gate.Config.Values.{Env, int, boolean, only}
use nft_gate.Config.Load.{from_env}
use nft_gate.Config.Bounds.{IsConsistent, int-within, from_env-IsConsistent}
use nft_gate.Native.Config.{ServerConfig, or_default, from_lookup}

-- Spent consumes are kept where a restart does not forget them, unless the operator accepts that.
abbrev pub IsDurable : {A : Type 0} → ServerConfig A → Type 0
IsDurable cfg =
    (cfg.gateway.single_use ≡ false)
    ⊎ ((url : Text) × (cfg.redis_url ≡ some url) × (is_nil url ≡ false))
    ⊎ (cfg.allow_volatile_redemptions ≡ true)

pub record IsServerConfig {A : Type 0} (cfg : ServerConfig A) : Type 0 where
  pub shared : IsConsistent cfg.gateway
  pub durable : IsDurable cfg
  pub prune : (1 ≤ cfg.nonce_prune_interval_secs) × (cfg.nonce_prune_interval_secs ≤ 86_400)
  pub header_read : (1 ≤ cfg.header_read_timeout_secs) × (cfg.header_read_timeout_secs ≤ 300)
  pub connections : (1 ≤ cfg.max_connections) × (cfg.max_connections ≤ 1_000_000)
  pub grace : (1 ≤ cfg.shutdown_grace_secs) × (cfg.shutdown_grace_secs ≤ 3600)
  pub requests : (1 ≤ cfg.max_concurrent_requests) × (cfg.max_concurrent_requests ≤ 100_000)
  pub hops : cfg.trusted_proxy_hops ≤ 16

durable_of :
    (single_use volatile : Bool) (given : Option Text)
    → not (single_use && (not (is_some (only (λ s. not (is_nil s)) given)) && not volatile)) ≡ true
    → (single_use ≡ false)
      ⊎ ((url : Text) × (only (λ s. not (is_nil s)) given ≡ some url) × (is_nil url ≡ false))
      ⊎ (volatile ≡ true)
durable_of false volatile given h = inl refl
durable_of true true given h = inr (inr refl)
durable_of true false none h = absurd (ground arith)
durable_of true false (some u) h = inr (inl (u, ground arith, ground arith))

-- A configuration of the native server that loads has a consistent shared part, keeps spent
-- consumes in Redis if it is single-use, unless the operator allows volatile ones, and has every
-- limit within its range.
pub from_lookup-IsServerConfig :
    {A : Type 0} (crates : Crates) (parse_addr : Text → Option A) (env : Env) (cfg : ServerConfig A)
    → from_lookup crates parse_addr env ≡ some cfg
    → IsServerConfig cfg
unfolding from_lookup
from_lookup-IsServerConfig crates parse_addr env cfg h =
    let (gateway, e, h₁) = >>=-some (from_env env crates) _ h in
    let (addr, _, h₂) =
      >>=-some (parse_addr (or_default (codes "0.0.0.0:8080") (env (codes "BIND_ADDR")))) _ h₁ in
    let (volatile, _, h₃) =
      >>=-some (boolean env (codes "ALLOW_VOLATILE_REDEMPTIONS") false) _ h₂ in
    let url = only (λ s. not (is_nil s)) (env (codes "REDIS_URL")) in
    let (_, d, h₄) =
      >>=-some (ensure (not (gateway.single_use && (not (is_some url) && not volatile)))) _ h₃ in
    let (prune, p, h₅) = >>=-some (int env (codes "NONCE_PRUNE_INTERVAL_SECS") 60 1 86_400) _ h₄ in
    let (head, q, h₆) = >>=-some (int env (codes "HEADER_READ_TIMEOUT_SECS") 10 1 300) _ h₅ in
    let (conns, c, h₇) = >>=-some (int env (codes "MAX_CONNECTIONS") 1024 1 1_000_000) _ h₆ in
    let (grace, g, h₈) = >>=-some (int env (codes "SHUTDOWN_GRACE_SECS") 30 1 3600) _ h₇ in
    let (reqs, r, h₉) = >>=-some (int env (codes "MAX_CONCURRENT_REQUESTS") 64 1 100_000) _ h₈ in
    let (hops, t, made) = >>=-some (int env (codes "TRUSTED_PROXY_HOPS") 0 0 16) _ h₉ in
    subst IsServerConfig (some-injective made) (record {
      shared = from_env-IsConsistent env crates gateway e;
      durable = durable_of gateway.single_use volatile (env (codes "REDIS_URL")) (ensure-some _ d);
      prune = int-within env _ _ _ _ prune p (omega arith) (omega arith);
      header_read = int-within env _ _ _ _ head q (omega arith) (omega arith);
      connections = int-within env _ _ _ _ conns c (omega arith) (omega arith);
      grace = int-within env _ _ _ _ grace g (omega arith) (omega arith);
      requests = int-within env _ _ _ _ reqs r (omega arith) (omega arith);
      hops = (int-within env _ _ _ _ hops t (omega arith) (omega arith)).1;
    })
