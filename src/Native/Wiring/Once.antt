-- ===== src/Native/Wiring/Once.antt =====
-- `redeem_and_forward` of the native servers over one Redis: a consume is spent once, whichever process
-- the requests come to.
use mathlib.Core.Path.{subst}
use nft_gate.Base.{
  ℕ, suc, ◌+◌, ◌≡◌, ◌≢◌, refl, ◌⊎◌, inl, inr, ap, sym, ◌∙◌, true, Option, none, some, arith,
}
use nft_gate.Base.Options.{some-injective}
use nft_gate.Base.Words.{saturating_mul}
use nft_gate.Text.{Text}
use nft_gate.External.{Crates}
use nft_gate.Config.{GatewayConfig}
use nft_gate.Redemption.Leases.{Lease, Commit, redeemed}
use nft_gate.Grpc.Frames.{Fault}
use nft_gate.Chain.Client.{Cache}
use nft_gate.Gateway.{JsonReply, coded, unavailable, is_success, redeem_and_forward}
use nft_gate.Gateway.Served.{redeem_and_forward-eq-pass}
use nft_gate.State.{MemoryStore}
use nft_gate.State
use nft_gate.Ports.{Result, Ports, Exit, stop, pass}
use nft_gate.Native.HeaderMap.{HeaderMap}
use nft_gate.Native.HttpClient.{Stack}
use nft_gate.Native.Proxy.{Request, Response, status_of}
use nft_gate.Native.Redis.{Redis, IsRedis, IsTtl, World}
use nft_gate.Native.Redis
use nft_gate.Native.Redis.Steps.{InOrder}
use nft_gate.Native.Redis.Spent.{
  IsSpent, commit_redemption-IsSpent, try_lease_redemption-IsSpent, try_lease_redemption-granted,
}
use nft_gate.Native.State.{
  NonceStore, in_memory, redis, Server, Ambient, on_store, now_of, try_lease_redemption,
  commit_redemption,
}
use nft_gate.Native.Wiring.{native_ports}

-- The refusal of a consume that is spent.
abbrev pub already_redeemed : JsonReply
already_redeemed = coded 409 "this consume has already been redeemed for an upload" "redeemed"

-- The data of the Redis server behind a store
abbrev pub redis_of : {D : Type 0} → NonceStore D → Option D
redis_of (in_memory m) = none
redis_of (redis w) = some w.db

-- What redeem_and_forward answers where the lease was refused as redeemed, or was not answered.
module _ {W Resp : Type 0} (crates : Crates) (ports : Ports W Resp) (cfg : GatewayConfig)
    (key : Text) (w : W) where
  redeemed_reply :
      (ports.try_lease_redemption key cfg.redemption_lease_ttl_secs w).0 ≡ Result.ok redeemed
      → (redeem_and_forward crates ports cfg key w).0 ≡ stop already_redeemed
  unfolding redeem_and_forward
  redeemed_reply h = ground arith

  failed_reply :
      {e : Text}
      → (ports.try_lease_redemption key cfg.redemption_lease_ttl_secs w).0 ≡ Result.err e
      → (redeem_and_forward crates ports cfg key w).0
        ≡ stop (unavailable "redemption store failed" e)
  unfolding redeem_and_forward
  failed_reply h = ground arith

module _ {H V B D N : Type 0} (crates : Crates) (m : HeaderMap H V) (stack : Stack H B (Cache × N))
    (r : Redis D) (laws : IsRedis r) (ambient : Ambient) (message : Fault → Text)
    (cfg : GatewayConfig) where
  -- A call on the store, where it is Redis
  on_redis :
      {A : Type 0} (memory : MemoryStore → A × MemoryStore) (shared : World D → Result A × World D)
      (s : Server D (Cache × N)) (w : World D) {a : A} {s' : Server D (Cache × N)}
      → s.store ≡ redis w
      → on_store crates r ambient cfg.challenge_ttl_secs memory shared s ≡ (Result.ok a, s')
      → (w' : World D) × (shared w ≡ (Result.ok a, w')) × (s'.store ≡ redis w')
  on_redis memory shared s w e h =
      let h' = rw (on_store, e) at h in
      let same : (shared w).0 ≡ Result.ok _ = ap (λ p. p.0) h' in
      ((shared w).1, (λ i. (same i, (shared w).1)), sym (ap (λ p. p.1.store) h'))

  after_lease :
      (key : Text) (s : Server D (Cache × N)) (w : World D) {token : Text}
      {s₁ : Server D (Cache × N)}
      → s.store ≡ redis w
      → try_lease_redemption crates r ambient cfg.challenge_ttl_secs key
          cfg.redemption_lease_ttl_secs s
        ≡ (Result.ok (Lease.ok token), s₁)
      → (w₁ : World D) × (s₁.store ≡ redis w₁) × (w₁.calls ≡ suc w.calls)
  unfolding try_lease_redemption
  after_lease key s w {token} {s₁} e h =
      let (w₁, done, store) =
        on_redis
          (State.try_lease_redemption crates (now_of crates r ambient cfg.challenge_ttl_secs s)
            (ambient.random s.ticks) key cfg.redemption_lease_ttl_secs)
          (Redis.try_lease_redemption crates r ambient.turn key cfg.redemption_lease_ttl_secs) s w e
          h in
      (
        w₁,
        store,
        (try_lease_redemption-granted crates r laws ambient.turn key cfg.redemption_lease_ttl_secs w
            done).0,
      )

  after_commit :
      (key token : Text) (s : Server D (Cache × N)) (w : World D) {s' : Server D (Cache × N)}
      → s.store ≡ redis w
      → IsTtl (saturating_mul cfg.redemption_retention_secs 1000) (ambient.turn w.calls).now
      → commit_redemption crates r ambient cfg.challenge_ttl_secs key token
          cfg.redemption_retention_secs s
        ≡ (Result.ok Commit.ok, s')
      → (w' : World D) × (s'.store ≡ redis w')
        × IsSpent crates r laws ambient.turn key
            (ambient.turn w.calls).now
            ((ambient.turn w.calls).now + saturating_mul cfg.redemption_retention_secs 1000)
            w'.db
  unfolding commit_redemption
  after_commit key token s w {s'} e ok h =
      let (w', done, store) =
        on_redis
          (State.commit_redemption (now_of crates r ambient cfg.challenge_ttl_secs s) key token
            cfg.redemption_retention_secs)
          (Redis.commit_redemption crates r ambient.turn key token cfg.redemption_retention_secs) s
          w e h in
      (
        w',
        store,
        (commit_redemption-IsSpent crates r laws ambient.turn key token
            cfg.redemption_retention_secs w w' ok done).1,
      )

  -- A success leaves the consume spent on the server.
  spends :
      (key : Text) (req : Request H B) (s : Server D (Cache × N)) (w : World D) (resp : Response H)
      (s' : Server D (Cache × N))
      → s.store ≡ redis w
      → IsTtl (saturating_mul cfg.redemption_retention_secs 1000) (ambient.turn (suc w.calls)).now
      → redeem_and_forward crates (native_ports crates m stack r ambient message cfg req) cfg key s
        ≡ (pass resp, s')
      → is_success (status_of resp) ≡ true
      → (w' : World D) × (s'.store ≡ redis w')
        × IsSpent crates r laws ambient.turn key
            (ambient.turn (suc w.calls)).now
            ((ambient.turn (suc w.calls)).now + saturating_mul cfg.redemption_retention_secs 1000)
            w'.db
  spends key req s w resp s' e ok h good =
      let done =
        redeem_and_forward-eq-pass crates (native_ports crates m stack r ambient message cfg req)
          cfg key s h in
      let (w₁, e₁, calls) = after_lease key s w e done.claimed in
      let e₂ : done.w₂.store ≡ redis w₁ = sym (ap (λ p. p.1.store) done.forwarded) ∙ e₁ in
      elim done.settled [
        | inr (bad, _) ↦ absurd (ground arith)
        | inl (_, c) ↦
            subst
              (λ n.
                (w' : World D) × (s'.store ≡ redis w')
                × IsSpent crates r laws ambient.turn key (ambient.turn n).now
                    ((ambient.turn n).now + saturating_mul cfg.redemption_retention_secs 1000)
                    w'.db)
              calls
              (after_commit key done.token done.w₂ w₁ e₂
                (subst
                  (λ n.
                    IsTtl (saturating_mul cfg.redemption_retention_secs 1000) (ambient.turn n).now)
                  (sym calls) ok)
                c)
      ]

  abbrev pub IsRefused : Exit JsonReply (Response H) → (before : ℕ) → Type 0
  IsRefused reply n =
      (reply ≡ stop already_redeemed)
      ⊎ (((e : Text) × (reply ≡ stop (unavailable "redemption store failed" e)))
          × (((ambient.turn n).failure ≢ none) ⊎ ((ambient.turn (suc n)).failure ≢ none)))

  lease_answer :
      (key : Text) (s : Server D (Cache × N)) (w : World D)
      → s.store ≡ redis w
      → (try_lease_redemption crates r ambient cfg.challenge_ttl_secs key
          cfg.redemption_lease_ttl_secs s).0
        ≡ (Redis.try_lease_redemption crates r ambient.turn key cfg.redemption_lease_ttl_secs w).0
  unfolding try_lease_redemption
  lease_answer key s w e = rw (try_lease_redemption, e) refl

  -- A spent consume is refused.
  IsRefused-spent :
      (key : Text) (lo hi : ℕ) (req : Request H B) (s : Server D (Cache × N)) (w : World D)
      → s.store ≡ redis w
      → IsSpent crates r laws ambient.turn key lo hi w.db
      → InOrder lo hi (ambient.turn w.calls).now (ambient.turn w.calls).others
      → InOrder
          (ambient.turn w.calls).now
          hi
          (ambient.turn (suc w.calls)).now
          (ambient.turn (suc w.calls)).others
      → IsRefused
          (redeem_and_forward crates
            (native_ports crates m stack r ambient message cfg req)
            cfg
            key
            s).0
          w.calls
  IsRefused-spent key lo hi req s w e spent o o' =
      let ports = native_ports crates m stack r ambient message cfg req in
      let same = lease_answer key s w e in
      elim (try_lease_redemption-IsSpent crates r laws ambient.turn key
        cfg.redemption_lease_ttl_secs lo hi w spent o o') [
          | inl again ↦ inl (redeemed_reply crates ports cfg key s (same ∙ again))
          | inr ((x, failed), why) ↦
              inr ((x, failed_reply crates ports cfg key s (same ∙ failed)), why)
        ]

  -- No consume is spent twice on one Redis: where the data of the server satisfies the laws of
  -- Redis, the retention of the commit is a time to live that the server takes, and the second
  -- server finds the data that the first left, once redeem_and_forward of one native server has
  -- passed a consume with a 2xx answer, then while the commit is retained, and whatever commands
  -- any processes send in the order of the server's clock before the two commands of the second
  -- call, its redeem_and_forward is answered 409 `redeemed`, or 503 where a command of its own
  -- failed.
  pub redeem_once_shared :
      (key : Text) (req req' : Request H B) (s s' t : Server D (Cache × N)) (w v : World D)
      (resp : Response H)
      → s.store ≡ redis w
      → IsTtl (saturating_mul cfg.redemption_retention_secs 1000) (ambient.turn (suc w.calls)).now
      → redeem_and_forward crates (native_ports crates m stack r ambient message cfg req) cfg key s
        ≡ (pass resp, s')
      → is_success (status_of resp) ≡ true
      → t.store ≡ redis v
      → redis_of s'.store ≡ some v.db
      → InOrder
          (ambient.turn (suc w.calls)).now
          ((ambient.turn (suc w.calls)).now + saturating_mul cfg.redemption_retention_secs 1000)
          (ambient.turn v.calls).now
          (ambient.turn v.calls).others
      → InOrder
          (ambient.turn v.calls).now
          ((ambient.turn (suc w.calls)).now + saturating_mul cfg.redemption_retention_secs 1000)
          (ambient.turn (suc v.calls)).now
          (ambient.turn (suc v.calls)).others
      → IsRefused
          (redeem_and_forward crates
            (native_ports crates m stack r ambient message cfg req')
            cfg
            key
            t).0
          v.calls
  redeem_once_shared key req req' s s' t w v resp e ok h good e' same o o' =
      let (w', stored, spent) = spends key req s w resp s' e ok h good in
      let now = (ambient.turn (suc w.calls)).now in
      let until = now + saturating_mul cfg.redemption_retention_secs 1000 in
      let alike : w'.db ≡ v.db = some-injective (sym (ap redis_of stored) ∙ same) in
      IsRefused-spent key now until req' t v e'
        (subst (IsSpent crates r laws ambient.turn key now until) alike spent) o o'
