-- ===== src/Native/State.antt =====
-- gateway-rust/src/state.rs and the `NonceStore` of gateway-rust/src/challenge.rs: the state behind a
-- request of the native server. Other requests of the process change the tables in its memory between
-- two calls in any way.
pub mod Net
use nft_gate.Base.{ℕ, suc, Bool, List}
use nft_gate.Base.Words.{saturating_mul}
use nft_gate.Text.{Text}
use nft_gate.External.{Crates}
use nft_gate.State.{MemoryStore, MemoryRates, RateScope, new_store}
use nft_gate.State
use nft_gate.Redemption.Leases.{Lease, Commit}
use nft_gate.Ports.{Result}
use nft_gate.Native.Clock.{SystemClock, now_ms}
use nft_gate.Native.Redis.{Redis, Turn}
use nft_gate.Native.Redis

-- `NonceStore`
pub data NonceStore (D : Type 0) : Type 0 where
  in_memory : MemoryStore → NonceStore D
  redis : Redis.World D → NonceStore D

-- What `NonceStore::in_memory` makes
unfoldable pub in_memory_store : {D : Type 0} → ℕ → ℕ → NonceStore D
in_memory_store ttl_secs max_entries = in_memory (new_store ttl_secs max_entries)

-- `N` is the network's part of the world.
pub record Server (D N : Type 0) : Type 0 where
  pub store : NonceStore D
  pub rates : MemoryRates
  pub ticks : ℕ
  pub net : N

-- What a call meets, by its number: the monotonic time since the start of the clock of the nonce store
-- and of that of the rates, the random bytes, and what the other requests of the process did to the
-- tables before it; by the number of the command to Redis, its turn.
pub record Ambient : Type 0 where
  pub store_clock : SystemClock
  pub store_elapsed : ℕ → ℕ
  pub rates_clock : SystemClock
  pub rates_elapsed : ℕ → ℕ
  pub random : ℕ → List ℕ
  pub store_meanwhile : ℕ → MemoryStore → MemoryStore
  pub rates_meanwhile : ℕ → MemoryRates → MemoryRates
  pub turn : ℕ → Turn

module _ {D N : Type 0} (crates : Crates) (r : Redis D) (ambient : Ambient) (ttl_secs : ℕ) where
  abbrev pub now_of : Server D N → ℕ
  now_of s = now_ms ambient.store_clock (ambient.store_elapsed s.ticks)

  abbrev pub rates_now_of : Server D N → ℕ
  rates_now_of s = now_ms ambient.rates_clock (ambient.rates_elapsed s.ticks)

  abbrev with_memory : {A : Type 0} → Server D N → A × MemoryStore → Result A × Server D N
  with_memory s done =
      (Result.ok done.0, record s { store = in_memory done.1; ticks = suc s.ticks })

  abbrev with_redis : {A : Type 0} → Server D N → Result A × Redis.World D → Result A × Server D N
  with_redis s done = (done.0, record s { store = redis done.1; ticks = suc s.ticks })

  -- The arms of the `match` on the store
  abbrev pub on_store :
      {A : Type 0}
      → (MemoryStore → A × MemoryStore)
      → (Redis.World D → Result A × Redis.World D)
      → Server D N
      → Result A × Server D N
  on_store memory shared s = elim s.store [
    | in_memory m ↦ with_memory s (memory (ambient.store_meanwhile s.ticks m))
    | redis w ↦ with_redis s (shared w)
  ]

  unfoldable pub issue_nonce : Server D N → Result (Text × ℕ) × Server D N
  issue_nonce s =
      on_store (State.issue_nonce crates (now_of s) (ambient.random s.ticks))
        (Redis.issue crates r ambient.turn (saturating_mul ttl_secs 1000)) s

  unfoldable pub take_nonce : Text → Server D N → Result Bool × Server D N
  take_nonce nonce s =
      on_store (State.take_nonce (now_of s) nonce) (Redis.take_if_valid crates r ambient.turn nonce)
        s

  unfoldable pub rate_check : RateScope → Text → Server D N → Result Bool × Server D N
  rate_check scope key s =
      let done = State.check (rates_now_of s) scope key (ambient.rates_meanwhile s.ticks s.rates) in
      (Result.ok done.0, record s { rates = done.1; ticks = suc s.ticks })

  unfoldable pub try_lease_redemption : Text → ℕ → Server D N → Result Lease × Server D N
  try_lease_redemption key lease_ttl_secs s =
      on_store
        (State.try_lease_redemption crates (now_of s) (ambient.random s.ticks) key lease_ttl_secs)
        (Redis.try_lease_redemption crates r ambient.turn key lease_ttl_secs) s

  unfoldable pub commit_redemption : Text → Text → ℕ → Server D N → Result Commit × Server D N
  commit_redemption key token retention_secs s =
      on_store (State.commit_redemption (now_of s) key token retention_secs)
        (Redis.commit_redemption crates r ambient.turn key token retention_secs) s

  unfoldable pub release_redemption : Text → Text → Server D N → Server D N
  release_redemption key token s = elim s.store [
    | in_memory m ↦ record s {
      store = in_memory (State.release_redemption key token (ambient.store_meanwhile s.ticks m));
      ticks = suc s.ticks;
    }
    | redis w ↦ record s {
      store = redis (Redis.release_redemption crates r ambient.turn key token w);
      ticks = suc s.ticks;
    }
  ]

  -- The sweep of `AppState`: expired nonces, where they are in memory, and ended rate windows.
  unfoldable pub sweep : Server D N → Server D N
  sweep s =
      let rates = State.prune_rates (rates_now_of s) s.rates in
      elim s.store [
        | in_memory m ↦ record s {
          store = in_memory (State.prune_nonces (now_of s) m);
          rates = rates;
        }
        | redis w ↦ record s { rates = rates }
      ]
