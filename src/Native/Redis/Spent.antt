-- ===== src/Native/Redis/Spent.antt =====
-- A consume that was committed on the server: nothing undoes it while the commit is retained.
use mathlib.Core.Path.{subst}
use nft_gate.Base.{
  ap, sym, ◌∙◌, ℕ, suc, ◌+◌, ◌<◌, ◌≡◌, refl, ◌⊎◌, inl, inr, Bool, true, false, Option, none, some,
  List, [], All, ◌∷◌, ◌++◌, arith, Option-cases, ◌≢◌,
}
use nft_gate.Base.Words.{saturating_mul}
use nft_gate.Text.{Text, codes, text_eq, text_eq_refl}
use nft_gate.External.{Crates}
use nft_gate.State.{random_hex24}
use nft_gate.Redemption.Leases.{Lease, Commit, redeemed}
use nft_gate.Ports.{Result}
use nft_gate.Native.Redis.{
  Redis, IsTtl, IsRedis, redeem_key, lease_value, committed_value, commit_script, set_lease,
  read_lease, commit_lease, Command, leases, commits, releases, inserts, takes, Failure, Turn,
  World, db_of, sent, found, lease_of, query, try_lease_redemption, commit_redemption, committed_or,
}
use nft_gate.Native.Redis.Steps.{InOrder, IsForeign, Reads, run_keeps, now-InOrder}

lease_value-committed : (token : Text) → text_eq committed_value (lease_value token) ≡ false
unfolding lease_value text_eq
lease_value-committed token = refl

-- Nothing that a gateway sends presents `committed`.
committed-IsForeign : (k : Text) (c : Command) → IsForeign k committed_value c
committed-IsForeign k (leases key token ttl) = tt
committed-IsForeign k (commits key token retention) = inr (lease_value-committed token)
committed-IsForeign k (releases key token) = inr (lease_value-committed token)
committed-IsForeign k (inserts nonce ttl_ms) = tt
committed-IsForeign k (takes nonce) = tt

All-IsForeign : (k : Text) (cs : List (ℕ × Command)) → All (λ c. IsForeign k committed_value c.1) cs
All-IsForeign k [] = tt
All-IsForeign k (c ∷ cs) = (committed-IsForeign k c.1, All-IsForeign k cs)

module _ {D : Type 0} where
  -- A command that was answered was run once.
  pub sent-eq-ok :
      {A : Type 0} (what : Text) (f : Option Failure) (done : A × D) (d : D) (n : ℕ) {a : A}
      {w' : World D}
      → sent what f done d n ≡ (Result.ok a, w')
      → (done.0 ≡ a) × (w'.db ≡ done.1) × (w'.calls ≡ suc n)
  sent-eq-ok what none done d n h = (ground arith, ground arith, ground arith)
  sent-eq-ok what (some f) done d n h = absurd (ground arith)

  committed_or-eq-ok :
      (q : Result Bool × World D) {w' : World D}
      → committed_or q ≡ (Result.ok Commit.ok, w')
      → q ≡ (Result.ok true, w')
  committed_or-eq-ok (Result.ok true, w) h = ground arith
  committed_or-eq-ok (Result.ok false, w) h = absurd (ground arith)
  committed_or-eq-ok (Result.err e, w) h = absurd (ground arith)

module _ {D : Type 0} (crates : Crates) (r : Redis D) (laws : IsRedis r) (turn : ℕ → Turn) where
  -- The redemption reads `committed` from `lo` until `hi`.
  abbrev pub IsSpent : Text → (lo hi : ℕ) → D → Type 0
  IsSpent key lo hi d = Reads r laws (redeem_key key) committed_value lo hi d

  -- A commit that succeeds leaves the redemption spent for its retention.
  pub commit_redemption-IsSpent :
      (key token : Text) (retention : ℕ) (w w' : World D)
      → IsTtl (saturating_mul retention 1000) (turn w.calls).now
      → commit_redemption crates r turn key token retention w ≡ (Result.ok Commit.ok, w')
      → (w'.calls ≡ suc w.calls)
        × IsSpent key (turn w.calls).now ((turn w.calls).now + saturating_mul retention 1000) w'.db
  unfolding commit_redemption commit_lease commit_script
  commit_redemption-IsSpent key token retention w w' ok h =
      let now = (turn w.calls).now in
      let px = saturating_mul retention 1000 in
      let d = db_of crates r turn w in
      let (done, db, calls) =
        sent-eq-ok (codes "redis redemption commit failed: ") (turn w.calls).failure
          (commit_lease r key token retention now d) d w.calls
          (committed_or-eq-ok
            (query crates r turn (codes "redis redemption commit failed: ")
              (commit_lease r key token retention) w)
            h) in
      (
        calls,
        λ t le lt. ground (
          arith,
          db,
          done,
          laws.get-set_px (redeem_key key) (redeem_key key) committed_value px now t d ok le,
          text_eq_refl (redeem_key key),
        ),
      )

  -- The digest stays spent for the next command, whatever the other processes send before it.
  pub db_of-IsSpent :
      (key : Text) (lo hi : ℕ) (w : World D)
      → IsSpent key lo hi w.db
      → InOrder lo hi (turn w.calls).now (turn w.calls).others
      → IsSpent key (turn w.calls).now hi (db_of crates r turn w)
  unfolding db_of
  db_of-IsSpent key lo hi w spent o =
      run_keeps r laws lo hi (turn w.calls).now (turn w.calls).others key committed_value w.db o
        (All-IsForeign key (turn w.calls).others) spent

  -- A lease that is refused changes no read of the key.
  set_lease_refused :
      (key token : Text) (ttl now hi : ℕ) (d : D)
      → now < hi
      → IsSpent key now hi d
      → ((set_lease r key token ttl now d).0 ≡ false)
        × IsSpent key now hi (set_lease r key token ttl now d).1
  unfolding set_lease
  set_lease_refused key token ttl now hi d lt spent =
      let k = redeem_key key in
      let v = lease_value token in
      let px = saturating_mul ttl 1000 in
      let there = spent now (omega arith) lt in
      (
        ground (arith, laws.set_nx_px_made k v px now d),
        λ t le before. ground (arith, laws.get-set_nx_px k k v px now t d le, spent t le before),
      )

  -- The `GET` that follows finds the commit, unless it fails.
  found_spent :
      (key : Text) (lo hi : ℕ) (w : World D)
      → IsSpent key lo hi w.db
      → InOrder lo hi (turn w.calls).now (turn w.calls).others
      → ((found
            (query crates r turn (codes "redis redemption GET failed: ") (read_lease r key) w)).0
          ≡ Result.ok redeemed)
        ⊎ (((e : Text) × ((found (
                  query crates r turn
                    (codes "redis redemption GET failed: ")
                    (read_lease r key)
                    w)).0
                ≡ Result.err e))
            × ((turn w.calls).failure ≢ none))
  unfolding read_lease lease_of
  found_spent key lo hi w spent o =
      let now = (turn w.calls).now in
      let (after, lt) = now-InOrder lo hi now (turn w.calls).others o in
      let there = db_of-IsSpent key lo hi w spent o now (omega arith) lt in
      elim (Option-cases (turn w.calls).failure) [
        | inl fine ↦ inl (ground (arith, there, fine, text_eq_refl committed_value))
        | inr (f, failed) ↦ inr (
          (codes "redis redemption GET failed: " ++ f.error, ground (arith, failed)),
          ground arith,
        )
      ]

  -- A lease on a spent digest is answered `redeemed`, or not at all where one of its commands failed.
  pub try_lease_redemption-IsSpent :
      (key : Text) (ttl lo hi : ℕ) (w : World D)
      → IsSpent key lo hi w.db
      → InOrder lo hi (turn w.calls).now (turn w.calls).others
      → InOrder (turn w.calls).now hi (turn (suc w.calls)).now (turn (suc w.calls)).others
      → ((try_lease_redemption crates r turn key ttl w).0 ≡ Result.ok redeemed)
        ⊎ (((e : Text) × ((try_lease_redemption crates r turn key ttl w).0 ≡ Result.err e))
            × (((turn w.calls).failure ≢ none) ⊎ ((turn (suc w.calls)).failure ≢ none)))
  unfolding try_lease_redemption
  try_lease_redemption-IsSpent key ttl lo hi w spent o o' =
      let now = (turn w.calls).now in
      let token = random_hex24 crates (turn w.calls).random in
      let d = db_of crates r turn w in
      let (after, lt) = now-InOrder lo hi now (turn w.calls).others o in
      let (no_lease, still) =
        set_lease_refused key token ttl now hi d lt (db_of-IsSpent key lo hi w spent o) in
      let w₁ : World D = record { db = (set_lease r key token ttl now d).1; calls = suc w.calls } in
      elim (Option-cases (turn w.calls).failure) [
        | inr (f, failed) ↦ inr (
          (codes "redis redemption SET failed: " ++ f.error, ground (arith, failed)),
          inl (ground arith),
        )
        | inl fine ↦ elim (found_spent key now hi w₁ still o') [
          | inl e ↦ inl (ground (arith, no_lease, fine, e))
          | inr ((e, p), q) ↦ inr ((e, ground (arith, no_lease, fine, p)), inr q)
        ]
      ]

  found-ne-ok :
      (q : Result (Option Text) × World D) (token : Text) {w' : World D}
      → found q ≢ (Result.ok (Lease.ok token), w')
  unfolding lease_of
  found-ne-ok (Result.ok none, w) token h = ground arith
  found-ne-ok (Result.ok (some v), w) token h = ground arith
  found-ne-ok (Result.err e, w) token h = cc

  -- A lease that is granted has sent one command, which set the key to the call's own token.
  pub try_lease_redemption-granted :
      (key : Text) (ttl : ℕ) (w : World D) {token : Text} {w' : World D}
      → try_lease_redemption crates r turn key ttl w ≡ (Result.ok (Lease.ok token), w')
      → let set = set_lease r key token ttl (turn w.calls).now (db_of crates r turn w) in
        (w'.calls ≡ suc w.calls) × (set.0 ≡ true) × (w'.db ≡ set.1)
  unfolding try_lease_redemption
  try_lease_redemption-granted key ttl w {token} {w'} h =
      go (query crates r turn what (set_lease r key own ttl) w) refl
    where
      what : Text
      what = codes "redis redemption SET failed: "

      own : Text
      own = random_hex24 crates (turn w.calls).random

      go :
          (q : Result Bool × World D)
          → query crates r turn what (set_lease r key own ttl) w ≡ q
          → let set = set_lease r key token ttl (turn w.calls).now (db_of crates r turn w) in
            (w'.calls ≡ suc w.calls) × (set.0 ≡ true) × (w'.db ≡ set.1)
      go (Result.err e, w₁) x = absurd (ground (arith, x, h))
      go (Result.ok true, w₁) x =
          let (made, db, calls) =
            sent-eq-ok what (turn w.calls).failure
              (set_lease r key own ttl (turn w.calls).now (db_of crates r turn w))
              (db_of crates r turn w) w.calls x in
          let mine : own ≡ token = ground (arith, x, h) in
          let same : w₁ ≡ w' = ground (arith, x, h) in
          subst
            (λ t.
              let set = set_lease r key t ttl (turn w.calls).now (db_of crates r turn w) in
              (w'.calls ≡ suc w.calls) × (set.0 ≡ true) × (w'.db ≡ set.1))
            mine (ap (λ v. v.calls) (sym same) ∙ calls, made, ap (λ v. v.db) (sym same) ∙ db)
      go (Result.ok false, w₁) x = absurd (
          found-ne-ok
            (query crates r turn (codes "redis redemption GET failed: ") (read_lease r key) w₁)
            token (rw (try_lease_redemption, x) at h))
