-- ===== src/Worker/Config.antt =====
-- worker/src/config.rs: the configuration of the Cloudflare worker. The wording of errors is not modelled.
use mathlib.Core.Path.{subst}
use nft_gate.Base.{ℕ, ◌≤◌, ◌≡◌, Bool, true, false, Option, none, some, if◌then◌else◌, arith}
use nft_gate.Base.Options.{◌>>=◌, ensure, >>=-some, some-injective}
use nft_gate.Text.{Text, codes, text_eq}
use nft_gate.External.{Crates}
use nft_gate.Quota.{WorkersPlan, parse_workers_plan}
use nft_gate.Config.{GatewayConfig}
use nft_gate.Config.Values.{Env, int, boolean}
use nft_gate.Config.Load.{from_env}
use nft_gate.Config.Bounds.{IsConsistent, int-within, from_env-IsConsistent}

pub record WorkerConfig : Type 0 where
  pub core : GatewayConfig
  pub shard_global : Bool
  pub public_rate_limit_per_min : ℕ
  pub public_cache_ttl_secs : ℕ
  pub quota_guard_enabled : Bool
  pub workers_plan : WorkersPlan

-- `NONCE_BACKEND`
unfoldable pub backend_ok : Option Text → Bool
backend_ok none = true
backend_ok (some s) = text_eq s (codes "durable-object")

-- `NONCE_SHARD`
unfoldable pub shard_of : Option Text → Option Bool
shard_of none = some false
shard_of (some s) =
    if text_eq s (codes "region")
    then some false
    else if text_eq s (codes "global")
    then some true
    else none

unfoldable pub load : Crates → Env → Option WorkerConfig
load crates env = do
  core ← from_env env crates
  _ ← ensure (backend_ok (env (codes "NONCE_BACKEND")))
  shard_global ← shard_of (env (codes "NONCE_SHARD"))
  limit ← int env (codes "PUBLIC_RATE_LIMIT_PER_MIN") 120 0 1_000_000
  ttl ← int env (codes "PUBLIC_CACHE_TTL_SECS") 60 0 86_400
  guard ← boolean env (codes "QUOTA_GUARD_ENABLED") false
  plan ← parse_workers_plan (env (codes "WORKERS_PLAN"))
  some (record {
    core = core;
    shard_global = shard_global;
    public_rate_limit_per_min = limit;
    public_cache_ttl_secs = ttl;
    quota_guard_enabled = guard;
    workers_plan = plan;
  })

pub record IsWorkerConfig (cfg : WorkerConfig) : Type 0 where
  pub shared : IsConsistent cfg.core
  pub limit : cfg.public_rate_limit_per_min ≤ 1_000_000
  pub ttl : cfg.public_cache_ttl_secs ≤ 86_400

-- What a configuration of the worker that loads is sure to satisfy.
load-IsWorkerConfig :
    (crates : Crates) (env : Env) (cfg : WorkerConfig)
    → load crates env ≡ some cfg
    → IsWorkerConfig cfg
unfolding load
load-IsWorkerConfig crates env cfg h =
    let (core, e, h₁) = >>=-some (from_env env crates) _ h in
    let (_, _, h₂) = >>=-some (ensure (backend_ok (env (codes "NONCE_BACKEND")))) _ h₁ in
    let (_, _, h₃) = >>=-some (shard_of (env (codes "NONCE_SHARD"))) _ h₂ in
    let (limit, l, h₄) =
      >>=-some (int env (codes "PUBLIC_RATE_LIMIT_PER_MIN") 120 0 1_000_000) _ h₃ in
    let (ttl, t, h₅) = >>=-some (int env (codes "PUBLIC_CACHE_TTL_SECS") 60 0 86_400) _ h₄ in
    let (_, _, h₆) = >>=-some (boolean env (codes "QUOTA_GUARD_ENABLED") false) _ h₅ in
    let (_, _, made) = >>=-some (parse_workers_plan (env (codes "WORKERS_PLAN"))) _ h₆ in
    subst IsWorkerConfig (some-injective made) (record {
      shared = from_env-IsConsistent env crates core e;
      limit = (int-within env _ _ _ _ limit l (omega arith) (omega arith)).1;
      ttl = (int-within env _ _ _ _ ttl t (omega arith) (omega arith)).1;
    })
