-- ===== src/Native/Redis/Owner.antt =====
-- A lease on the server: its holder keeps it until it ends, whatever the other processes send.
use mathlib.Core.Path.{subst}
use nft_gate.Base.{ℕ, ◌+◌, ◌≡◌, ◌≢◌, none, All, arith}
use nft_gate.Base.Words.{saturating_mul}
use nft_gate.Text.{Text, text_eq_refl}
use nft_gate.External.{Crates}
use nft_gate.Redemption.Leases.{Lease, Commit}
use nft_gate.Ports.{Result}
use nft_gate.Native.Redis.{
  Redis, IsTtl, IsRedis, redeem_key, lease_value, set_lease, commit_lease, commit_script, Turn,
  World, db_of, try_lease_redemption, commit_redemption,
}
use nft_gate.Native.Redis.Steps.{InOrder, IsForeign, Reads, run_keeps, now-InOrder}
use nft_gate.Native.Redis.Spent.{try_lease_redemption-granted}

module _ {D : Type 0} (crates : Crates) (r : Redis D) (laws : IsRedis r) (turn : ℕ → Turn) where
  -- The key holds the token's lease from `lo` until `hi`.
  abbrev pub IsHeld : (key token : Text) (lo hi : ℕ) → D → Type 0
  IsHeld key token lo hi d = Reads r laws (redeem_key key) (lease_value token) lo hi d

  granted-IsHeld :
      (key : Text) (ttl : ℕ) (w : World D) {token : Text} {w' : World D}
      → IsTtl (saturating_mul ttl 1000) (turn w.calls).now
      → try_lease_redemption crates r turn key ttl w ≡ (Result.ok (Lease.ok token), w')
      → IsHeld key token (turn w.calls).now ((turn w.calls).now + saturating_mul ttl 1000) w'.db
  unfolding set_lease
  granted-IsHeld key ttl w {token} {w'} ok h =
      let (calls, made, db) = try_lease_redemption-granted crates r laws turn key ttl w h in
      let now = (turn w.calls).now in
      let px = saturating_mul ttl 1000 in
      let k = redeem_key key in
      let v = lease_value token in
      let d = db_of crates r turn w in
      λ t le lt. ground (
        arith,
        db,
        made,
        laws.set_nx_px_made k v px now d,
        laws.get-set_nx_px k k v px now t d le,
        laws.get-set_px k k v px now t d ok le,
        text_eq_refl k,
      )

  still-IsHeld :
      (key token : Text) (lo hi : ℕ) (w : World D)
      → IsHeld key token lo hi w.db
      → InOrder lo hi (turn w.calls).now (turn w.calls).others
      → All (λ c. IsForeign key (lease_value token) c.1) (turn w.calls).others
      → IsHeld key token (turn w.calls).now hi (db_of crates r turn w)
  unfolding db_of
  still-IsHeld key token lo hi w held o foreign =
      run_keeps r laws lo hi (turn w.calls).now (turn w.calls).others key (lease_value token) w.db o
        foreign held

  -- A lease that Redis granted can be committed: while it lasts, whatever commands other
  -- processes send in the order of the server's clock, as long as none of them presents the
  -- holder's token for the digest, a commit under its token that does not fail on the way is
  -- answered Ok.
  pub holder_commits :
      (key token : Text) (ttl retention : ℕ) (w v v' : World D)
      → IsTtl (saturating_mul ttl 1000) (turn w.calls).now
      → try_lease_redemption crates r turn key ttl w ≡ (Result.ok (Lease.ok token), v')
      → v'.db ≡ v.db
      → InOrder
          (turn w.calls).now
          ((turn w.calls).now + saturating_mul ttl 1000)
          (turn v.calls).now
          (turn v.calls).others
      → All (λ c. IsForeign key (lease_value token) c.1) (turn v.calls).others
      → (turn v.calls).failure ≡ none
      → (commit_redemption crates r turn key token retention v).0 ≡ Result.ok Commit.ok
  unfolding commit_redemption commit_lease commit_script
  holder_commits key token ttl retention w v v' ok h same o foreign fine =
      let until = (turn w.calls).now + saturating_mul ttl 1000 in
      let now = (turn v.calls).now in
      let held =
        still-IsHeld key token (turn w.calls).now until v
          (subst (IsHeld key token (turn w.calls).now until) same (granted-IsHeld key ttl w ok h)) o
          foreign in
      let (_, lt) = now-InOrder (turn w.calls).now until now (turn v.calls).others o in
      ground (arith, held now (omega arith) lt, fine, text_eq_refl (lease_value token))

  -- Once try_lease_redemption has granted a lease over Redis, no further one for the digest is
  -- granted, under any token, while the lease lasts, whatever commands other processes send in
  -- the order of the server's clock, as long as none of them presents the holder's token for the
  -- digest.
  pub lease_exclusive :
      (key token token' : Text) (ttl ttl' : ℕ) (w v v' : World D)
      → IsTtl (saturating_mul ttl 1000) (turn w.calls).now
      → try_lease_redemption crates r turn key ttl w ≡ (Result.ok (Lease.ok token), v')
      → v'.db ≡ v.db
      → InOrder
          (turn w.calls).now
          ((turn w.calls).now + saturating_mul ttl 1000)
          (turn v.calls).now
          (turn v.calls).others
      → All (λ c. IsForeign key (lease_value token) c.1) (turn v.calls).others
      → (try_lease_redemption crates r turn key ttl' v).0 ≢ Result.ok (Lease.ok token')
  unfolding set_lease
  lease_exclusive key token token' ttl ttl' w v v' ok h same o foreign won =
      let until = (turn w.calls).now + saturating_mul ttl 1000 in
      let now = (turn v.calls).now in
      let held =
        still-IsHeld key token (turn w.calls).now until v
          (subst (IsHeld key token (turn w.calls).now until) same (granted-IsHeld key ttl w ok h)) o
          foreign in
      let (_, lt) = now-InOrder (turn w.calls).now until now (turn v.calls).others o in
      let d = db_of crates r turn v in
      let (_, made, _) =
        try_lease_redemption-granted crates r laws turn key ttl' v {token = token'}
          (λ i. (won i, (try_lease_redemption crates r turn key ttl' v).1)) in
      ground (
        arith,
        held now (omega arith) lt,
        laws.set_nx_px_made (redeem_key key) (lease_value token') (saturating_mul ttl' 1000) now d,
        made,
      )
