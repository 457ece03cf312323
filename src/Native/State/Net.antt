-- ===== src/Native/State/Net.antt =====
-- The calls on the store leave the network's part of the world alone.
use nft_gate.Base.{ℕ, ◌≡◌, refl}
use nft_gate.Text.{Text}
use nft_gate.External.{Crates}
use nft_gate.Ports.{Result}
use nft_gate.State.{MemoryStore}
use nft_gate.State
use nft_gate.Native.Redis
use nft_gate.Native.Redis.{Redis, World}
use nft_gate.Native.State.{
  NonceStore, in_memory, redis, Server, Ambient, on_store, now_of, take_nonce, try_lease_redemption,
  commit_redemption, release_redemption,
}

module _ {D N : Type 0} (crates : Crates) (r : Redis D) (ambient : Ambient) (ttl_secs : ℕ) where
  -- The calls on the store and on the rates leave the network alone.
  on_store_net :
      {A : Type 0} (memory : MemoryStore → A × MemoryStore) (shared : World D → Result A × World D)
      (s : Server D N)
      → (on_store crates r ambient ttl_secs memory shared s).1.net ≡ s.net
  on_store_net {A} memory shared s = go s.store refl
    where
      go :
          (x : NonceStore D)
          → s.store ≡ x
          → (on_store crates r ambient ttl_secs memory shared s).1.net ≡ s.net
      go (in_memory t) e = rw (on_store, e) refl
      go (redis w) e = rw (on_store, e) refl

  pub take_net :
      (nonce : Text) (s : Server D N) → (take_nonce crates r ambient ttl_secs nonce s).1.net ≡ s.net
  unfolding take_nonce
  take_net nonce s =
      on_store_net (State.take_nonce (now_of crates r ambient ttl_secs s) nonce)
        (Redis.take_if_valid crates r ambient.turn nonce) s

  pub lease_net :
      (key : Text) (ttl : ℕ) (s : Server D N)
      → (try_lease_redemption crates r ambient ttl_secs key ttl s).1.net ≡ s.net
  unfolding try_lease_redemption
  lease_net key ttl s =
      on_store_net
        (State.try_lease_redemption crates (now_of crates r ambient ttl_secs s)
          (ambient.random s.ticks) key ttl)
        (Redis.try_lease_redemption crates r ambient.turn key ttl) s

  pub commit_net :
      (key token : Text) (retention : ℕ) (s : Server D N)
      → (commit_redemption crates r ambient ttl_secs key token retention s).1.net ≡ s.net
  unfolding commit_redemption
  commit_net key token retention s =
      on_store_net
        (State.commit_redemption (now_of crates r ambient ttl_secs s) key token retention)
        (Redis.commit_redemption crates r ambient.turn key token retention) s

  pub release_net :
      (key token : Text) (s : Server D N)
      → (release_redemption crates r ambient ttl_secs key token s).net ≡ s.net
  unfolding release_redemption
  release_net key token s = go s.store refl
    where
      go :
          (x : NonceStore D)
          → s.store ≡ x
          → (release_redemption crates r ambient ttl_secs key token s).net ≡ s.net
      go (in_memory t) e = rw (release_redemption, e) refl
      go (redis w) e = rw (release_redemption, e) refl
