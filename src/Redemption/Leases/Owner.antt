-- ===== src/Redemption/Leases/Owner.antt =====
-- `commit` and `release`: compare-and-set transitions on the owner token, and the invariants that
-- every operation of the table keeps.
use nft_gate.Base.{
  ℕ, ◌+◌, ◌≤◌, ◌≡◌, refl, ◌⊎◌, inl, inr, ◌≢◌, true, false, not, ◌&&◌, Option, none, some, [], arith,
  ltb, if◌then◌else◌, length, max, Bool-cases,
}
use nft_gate.Base.Words.{after_secs}
use nft_gate.Text.{Text, text_eq, text_eq_iff, text_eq_refl}
use nft_gate.Assoc.{lookup, retain, IsMap}
use nft_gate.Assoc.Laws.{
  lookup-insert, lookup-remove, retain-IsMap, remove-IsMap, insert-IsMap, length-insert-le,
  length-retain-le,
}
use nft_gate.Redemption.Leases.{
  Commit, lost, Row, RedemptionTable, evict_lease, grant, lease_live, try_lease, commit, release,
}
use nft_gate.Redemption.Leases.Status.{
  Status, free, held, spent, status, length-evict_lease, evict_lease-IsMap,
}

-- The retained commit, or nothing if the retention is over at once.
abbrev pub kept : ℕ → ℕ → Status
kept now expiry = if ltb now expiry then spent expiry else free

module _ (k token : Text) (now : ℕ) where
  -- `commit` succeeds exactly on a digest that the token holds, and then spends it for the retention
  -- time; otherwise it is lost and changes nothing. No other digest changes.
  pub commit-status :
      (retention : ℕ) (t : RedemptionTable) (j : Text)
      → j ≢ k
      → let r = commit k token now retention t in
        (((e : ℕ) × (status now k t ≡ held token e)
            × (r.0 ≡ Commit.ok)
            × (status now k r.1 ≡ kept now (after_secs now retention)))
          ⊎ (((e : ℕ) → status now k t ≢ held token e) × (r ≡ (lost, t))))
        × (lookup j r.1 ≡ lookup j t)
  unfolding commit status
  commit-status retention t j other = (here (lookup k t) refl, there j other)
    where
      spent_row : Row
      spent_row = record { committed = true; expiry_ms = after_secs now retention; token = [] }

      there : (j : Text) → j ≢ k → lookup j (commit k token now retention t).1 ≡ lookup j t
      there j h = ground (arith, text_eq_iff k j, lookup-insert k j spent_row t)

      here :
          (o : Option Row)
          → lookup k t ≡ o
          → let r = commit k token now retention t in
            ((e : ℕ) × (status now k t ≡ held token e)
              × (r.0 ≡ Commit.ok)
              × (status now k r.1 ≡ kept now (after_secs now retention)))
            ⊎ (((e : ℕ) → status now k t ≢ held token e) × (r ≡ (lost, t)))
      here none x = inr (λ e y. ground arith, ground arith)
      here (some row) x =
          elim (Bool-cases
            (not row.committed && (text_eq row.token token && ltb now row.expiry_ms))) [
              | inl can ↦ inl (
                row.expiry_ms,
                ground (arith, text_eq_iff row.token token),
                ground arith,
                ground (arith, text_eq_refl k, lookup-insert k k spent_row t),
              )
              | inr cannot ↦ inr (
                λ e y. ground (arith, text_eq_iff row.token token, text_eq_refl token),
                ground arith,
              )
            ]

  -- `release` frees a digest that the token holds and does nothing else: a commit, another holder's
  -- lease and every other digest stay.
  release-status :
      (t : RedemptionTable) (j : Text)
      → j ≢ k
      → (((e : ℕ) × (status now k t ≡ held token e) × (status now k (release k token t) ≡ free))
          ⊎ (((e : ℕ) → status now k t ≢ held token e)
              × (status now k (release k token t) ≡ status now k t)))
        × (lookup j (release k token t) ≡ lookup j t)
  unfolding release status
  release-status t j other =
      (here (lookup k t) refl, ground (arith, text_eq_iff k j, lookup-remove k j t))
    where
      here :
          (o : Option Row)
          → lookup k t ≡ o
          → ((e : ℕ) × (status now k t ≡ held token e) × (status now k (release k token t) ≡ free))
            ⊎ (((e : ℕ) → status now k t ≢ held token e)
                × (status now k (release k token t) ≡ status now k t))
      here none x = inr (λ e y. ground arith, ground arith)
      here (some row) x =
          elim (Bool-cases
            (not row.committed && (text_eq row.token token && ltb now row.expiry_ms))) [
              | inl can ↦ inl (
                row.expiry_ms,
                ground (arith, text_eq_iff row.token token),
                ground (arith, text_eq_refl k, lookup-remove k k t),
              )
              | inr cannot ↦ inr (
                λ e y. ground (arith, text_eq_iff row.token token, text_eq_refl token),
                ground (arith, text_eq_refl k, lookup-remove k k t),
              )
            ]

pub try_lease-IsMap :
    (k : Text) (now ttl max_entries : ℕ) (token : Text) (t : RedemptionTable)
    → IsMap t
    → IsMap (try_lease k now ttl max_entries token t).1
unfolding try_lease lease_live grant
try_lease-IsMap k now ttl max_entries token t d =
    let live = λ (r : Row). ltb now r.expiry_ms in
    let rows = retain live t in
    ground (
      arith,
      retain-IsMap live t d,
      evict_lease-IsMap max_entries rows (retain-IsMap live t d),
      insert-IsMap k (record { committed = false; expiry_ms = after_secs now ttl; token = token })
          (evict_lease max_entries rows),
    )

pub commit-IsMap :
    (k token : Text) (now retention : ℕ) (t : RedemptionTable)
    → IsMap t
    → IsMap (commit k token now retention t).1
unfolding commit
commit-IsMap k token now retention t d = ground (
  arith,
  insert-IsMap k (record { committed = true; expiry_ms = after_secs now retention; token = [] }) t
      d,
)

pub release-IsMap : (k token : Text) (t : RedemptionTable) → IsMap t → IsMap (release k token t)
unfolding release
release-IsMap k token t d = ground (arith, remove-IsMap k t d)

-- After a `try_lease` on a table without double keys the table is within the max_entries, no longer than before, or one row longer than its
-- live rows were, each of which is a commit.
length-try_lease :
    (k : Text) (now ttl max_entries : ℕ) (token : Text) (t : RedemptionTable)
    → IsMap t
    → let rows = retain (λ r. ltb now r.expiry_ms) t in
      let after = (try_lease k now ttl max_entries token t).1 in
      (length after ≤ max max_entries 1)
      ⊎ (length after ≤ length t)
      ⊎ ((retain (λ r. not r.committed) rows ≡ []) × (length after ≤ length rows + 1))
unfolding try_lease lease_live grant
length-try_lease k now ttl max_entries token t d =
    let live = λ (r : Row). ltb now r.expiry_ms in
    let rows = retain live t in
    ground (
      arith,
      length-retain-le live t,
      length-evict_lease max_entries rows (retain-IsMap live t d),
      length-insert-le k
          (record { committed = false; expiry_ms = after_secs now ttl; token = token })
          (evict_lease max_entries rows),
    )
