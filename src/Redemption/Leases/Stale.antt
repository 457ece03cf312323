-- ===== src/Redemption/Leases/Stale.antt =====
-- The redemption table of core/src/redemption.rs as a holder finds it whose lease was lost.
use nft_gate.Base.{
  ℕ, ◌≡◌, refl, ◌⊎◌, ◌≢◌, Bool, true, false, Option, none, some, List, [], ◌∷◌, arith, ltb, All,
}
use nft_gate.Base.Words.{after_secs}
use nft_gate.Text.{Text, text_eq_iff, text_eq_refl}
use nft_gate.Assoc.{lookup, IsMap, retain}
use nft_gate.Assoc.Laws.{filter_some, lookup-insert, lookup-remove, lookup-retain, retain-IsMap}
use nft_gate.Redemption.Leases.{
  Lease, lost, Row, RedemptionTable, evict_lease, grant, lease_live, try_lease, commit, release,
}
use nft_gate.Redemption.Leases.Status.{lookup-evict_lease}
use nft_gate.Redemption.Leases.Owner.{try_lease-IsMap}
use nft_gate.Redemption.Leases.History.{Call, leases, commits, releases, step, run, step-IsMap}

-- The row is no lease of the token.
abbrev pub Apart : Text → Option Row → Type 0
Apart token none = Unit {0}
Apart token (some r) = (r.committed ≡ true) ⊎ (r.token ≢ token)

-- The call hands the digest to no one under the token.
abbrev pub Avoids : Text → Text → Call → Type 0
Avoids k token (leases j ttl n token') = (j ≢ k) ⊎ (token' ≢ token)
Avoids k token c = Unit {0}

module _ (k stale : Text) where
  filter_some-Apart :
      (p : Row → Bool) (o : Option Row) → Apart stale o → Apart stale (filter_some p o)
  filter_some-Apart p none a = tt
  filter_some-Apart p (some r) a = ground arith

  lease_live-Apart :
      (j : Text) (now ttl n : ℕ) (token : Text) (rows : RedemptionTable)
      → IsMap rows
      → Apart stale (lookup k rows)
      → (j ≢ k) ⊎ (token ≢ stale)
      → Apart stale (lookup k (lease_live j now ttl n token rows).1)
  unfolding lease_live grant
  lease_live-Apart j now ttl n token rows d a h = ground (
    arith,
    text_eq_iff j k,
    lookup-evict_lease n k rows d,
    lookup-insert j k (record { committed = false; expiry_ms = after_secs now ttl; token = token })
        (evict_lease n rows),
  )

  step-Apart :
      (c : ℕ × Call) (t : RedemptionTable)
      → IsMap t
      → Avoids k stale c.1
      → Apart stale (lookup k t)
      → Apart stale (lookup k (step c t))
  unfolding step try_lease commit release
  step-Apart (now, leases j ttl n token) t d h a =
      let live = λ (x : Row). ltb now x.expiry_ms in
      lease_live-Apart j now ttl n token (retain live t) (retain-IsMap live t d)
        (rw (lookup-retain live k t d) (filter_some-Apart live (lookup k t) a)) h
  step-Apart (now, commits j token retention) t d h a = ground (
    arith,
    text_eq_iff j k,
    lookup-insert j k
        (record { committed = true; expiry_ms = after_secs now retention; token = [] }) t,
  )
  step-Apart (now, releases j token) t d h a = ground (arith, text_eq_iff j k, lookup-remove j k t)

  run-Apart :
      (cs : List (ℕ × Call)) (t : RedemptionTable)
      → IsMap t
      → All (λ c. Avoids k stale c.1) cs
      → Apart stale (lookup k t)
      → Apart stale (lookup k (run cs t))
  unfolding run
  run-Apart [] t d h a = a
  run-Apart (c ∷ cs) t d h a =
      run-Apart cs (step c t) (step-IsMap c t d) h.1 (step-Apart c t d h.0 a)

  powerless :
      (now retention : ℕ) (t : RedemptionTable)
      → Apart stale (lookup k t)
      → (commit k stale now retention t ≡ (lost, t)) × (release k stale t ≡ t)
  unfolding commit release
  powerless now retention t a = (here (lookup k t) refl, there (lookup k t) refl)
    where
      here : (o : Option Row) → lookup k t ≡ o → commit k stale now retention t ≡ (lost, t)
      here none x = ground arith
      here (some r) x = ground (arith, text_eq_iff r.token stale)

      there : (o : Option Row) → lookup k t ≡ o → release k stale t ≡ t
      there none x = ground arith
      there (some r) x = ground (arith, text_eq_iff r.token stale)

  granted-Apart :
      (now ttl n : ℕ) (token : Text) (t : RedemptionTable)
      → (try_lease k now ttl n token t).0 ≡ Lease.ok token
      → token ≢ stale
      → Apart stale (lookup k (try_lease k now ttl n token t).1)
  unfolding try_lease lease_live grant
  granted-Apart now ttl n token t h ne =
      let rows = retain (λ x. ltb now x.expiry_ms) t in
      ground (
        arith,
        text_eq_refl k,
        lookup-insert k k
            (record { committed = false; expiry_ms = after_secs now ttl; token = token })
            (evict_lease n rows),
      )

  -- On a table without double keys: once the digest is leased under another token, the stale token neither commits nor releases it,
  -- after any history in which no one leases the digest under the stale token again.
  pub superseded_token_is_powerless :
      (now ttl n : ℕ) (token : Text) (t : RedemptionTable) (cs : List (ℕ × Call))
      (later retention : ℕ)
      → IsMap t
      → (try_lease k now ttl n token t).0 ≡ Lease.ok token
      → token ≢ stale
      → All (λ c. Avoids k stale c.1) cs
      → let t' = run cs (try_lease k now ttl n token t).1 in
        (commit k stale later retention t' ≡ (lost, t')) × (release k stale t' ≡ t')
  superseded_token_is_powerless now ttl n token t cs later retention d h ne av =
      let t₁ = (try_lease k now ttl n token t).1 in
      powerless later retention (run cs t₁) (
        run-Apart cs t₁ (try_lease-IsMap k now ttl n token t d) av
          (granted-Apart now ttl n token t h ne))
