-- ===== src/Redemption/Leases/Laws.antt =====
-- The table's three operations against the abstract view of `Status`: every branch, and what each
-- leaves alone.
use nft_gate.Base.{
  ℕ, ◌≤◌, ◌≡◌, ◌∙◌, ap, ◌⊎◌, inl, inr, ◌≢◌, true, false, none, some, arith, ltb, length, max,
  Option-cases,
}
use nft_gate.Base.Words.{after_secs}
use nft_gate.Text.{Text, text_eq_iff, text_eq_refl}
use nft_gate.Assoc.{lookup, retain, IsMap}
use nft_gate.Assoc.Laws.{lookup-insert, lookup-retain, retain-IsMap, retain_all}
use nft_gate.Redemption.Leases.{
  Lease, leased, redeemed, Row, RedemptionTable, evict_lease, grant, lease_live, try_lease,
}
use nft_gate.Redemption.Leases.Status.{
  Status, free, held, spent, status, fresh, status-retain, Evicts, lookup-evict_lease,
}

-- The answer that a status calls for.
abbrev pub answer : Status → Text → Lease
answer free token = Lease.ok token
answer (held owner e) token = leased
answer (spent e) token = redeemed

-- The status of the claimed digest afterwards.
abbrev pub claimed : Status → Status → Status
claimed free new = new
claimed s new = s

abbrev pub IsHeld : Status → Type 0
IsHeld (held owner e) = Unit {0}
IsHeld s = ⊥

module _ (k : Text) (now ttl max_entries : ℕ) (token : Text) where
  lease_live_self :
      (rows : RedemptionTable)
      → ((r : Row) → lookup k rows ≡ some r → ltb now r.expiry_ms ≡ true)
      → let s = status now k rows in
        let r = lease_live k now ttl max_entries token rows in
        (r.0 ≡ answer s token)
        × (status now k r.1 ≡ claimed s (fresh now token (after_secs now ttl)))
  unfolding lease_live grant status
  lease_live_self rows live = elim (Option-cases (lookup k rows)) [
    | inl e ↦ ground (
      arith,
      text_eq_refl k,
      lookup-insert k k
          (record { committed = false; expiry_ms = after_secs now ttl; token = token })
          (evict_lease max_entries rows),
    )
    | inr (r, e) ↦ ground (arith, live r e)
  ]

  lease_live_other :
      (rows : RedemptionTable) (j : Text)
      → IsMap rows
      → j ≢ k
      → let r = lease_live k now ttl max_entries token rows in
        (lookup j r.1 ≡ lookup j rows) ⊎ (Evicts max_entries j rows × (lookup j r.1 ≡ none))
  unfolding lease_live grant
  lease_live_other rows j d h = ground (
    arith,
    text_eq_iff k j,
    lookup-evict_lease max_entries j rows d,
    lookup-insert k j (record { committed = false; expiry_ms = after_secs now ttl; token = token })
        (evict_lease max_entries rows),
  )

  others :
      (t : RedemptionTable) (j : Text)
      → IsMap t
      → j ≢ k
      → let r = try_lease k now ttl max_entries token t in
        (status now j r.1 ≡ status now j t)
        ⊎ (IsHeld (status now j t)
            × (status now j r.1 ≡ free)
            × (max max_entries 1 ≤ length (retain (λ r. ltb now r.expiry_ms) t)))
  unfolding try_lease status
  others t j d h =
      let rows = retain (λ r. ltb now r.expiry_ms) t in
      elim (lease_live_other rows j (retain-IsMap (λ r. ltb now r.expiry_ms) t d) h) [
        | inl same ↦ inl (ground (arith, same, lookup-retain (λ r. ltb now r.expiry_ms) j t d))
        | inr ((r, there, lease, gone, full), absent) ↦
            inr (ground (arith, lookup-retain (λ r. ltb now r.expiry_ms) j t d), ground arith, full)
      ]

  -- On a table without double keys `try_lease` answers by the digest's status alone: a free digest is leased to the caller's token
  -- until its time runs out, a held or spent one is refused and keeps its status. Any other digest
  -- keeps its status, or, where the table was full, it was held and is free now; a spent one always
  -- stays spent.
  pub try_lease-status :
      (t : RedemptionTable) (j : Text)
      → IsMap t
      → j ≢ k
      → let s = status now k t in
        let r = try_lease k now ttl max_entries token t in
        (r.0 ≡ answer s token)
        × (status now k r.1 ≡ claimed s (fresh now token (after_secs now ttl)))
        × ((status now j r.1 ≡ status now j t)
            ⊎ (IsHeld (status now j t)
                × (status now j r.1 ≡ free)
                × (max max_entries 1 ≤ length (retain (λ r. ltb now r.expiry_ms) t))))
  unfolding try_lease
  try_lease-status t j d h =
      let rows = retain (λ r. ltb now r.expiry_ms) t in
      let (here, then_here) =
        lease_live_self rows (λ r e. retain_all (λ r. ltb now r.expiry_ms) k r t e) in
      (
        here ∙ ap (λ s. answer s token) (status-retain now k t d),
        then_here
            ∙ ap (λ s. claimed s (fresh now token (after_secs now ttl))) (status-retain now k t d),
        others t j d h,
      )
