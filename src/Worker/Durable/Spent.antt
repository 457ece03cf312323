-- ===== src/Worker/Durable/Spent.antt =====
-- A lease leaves what is committed, whichever row the engine evicts.
use mathlib.Core.Path.{subst}
use nft_gate.Base.{
  ℕ, ◌<◌, ◌≡◌, refl, sym, ◌∙◌, inl, inr, max, Bool, true, false, not, some, [], ◌∷◌, Any, ltb, leb,
  length, arith, Bool-cases, Option-cases,
}
use nft_gate.Text.{Text, text_eq, text_eq_iff, text_eq_refl}
use nft_gate.Assoc.{lookup, retain, IsMap}
use nft_gate.Assoc.Laws.{
  lookup-insert, lookup-remove, lookup-retain, retain-IsMap, remove-IsMap, insert-IsMap,
}
use nft_gate.Worker.Durable.{
  Sql, IsSql, leases_of, is_leased, RedRow, Redemptions, LeaseOutcome, lapsed_lease, lapsed_commit,
  drop_lapsed, evict_leased, lease_new, lease_rows, lease,
}

-- The digest is committed until `e`.
abbrev pub IsSpent : Text → ℕ → Redemptions → Type 0
IsSpent key e t =
    (r : RedRow) × (lookup key t ≡ some r) × (is_leased r.state ≡ false) × (r.expiry ≡ e)

drop_lapsed-IsMap : (now : ℕ) (t : Redemptions) → IsMap t → IsMap (drop_lapsed now t)
unfolding drop_lapsed
drop_lapsed-IsMap now t d = retain-IsMap _ _ (retain-IsMap _ t d)

kept_row :
    (p : RedRow → Bool) (k : Text) (t : Redemptions) (r : RedRow)
    → IsMap t
    → p r ≡ true
    → lookup k t ≡ some r
    → lookup k (retain p t) ≡ some r
kept_row p k t r d q h = lookup-retain p k t d ∙ rw (h, q) refl

drop_lapsed-IsSpent :
    (key : Text) (e now : ℕ) (t : Redemptions)
    → IsMap t
    → now < e
    → IsSpent key e t
    → IsSpent key e (drop_lapsed now t)
unfolding drop_lapsed
drop_lapsed-IsSpent key e now t d lt (r, h, c, x) =
    let leases = λ (y : RedRow). not (lapsed_lease now y) in
    let commits = λ (y : RedRow). not (lapsed_commit now y) in
    let first = kept_row leases key t r d (ground (arith, c)) h in
    (
      r,
      kept_row commits key (retain leases t) r (retain-IsMap leases t d) (ground (arith, c, x))
          first,
      c,
      x,
    )

member-lookup :
    (t : Redemptions) (e : Text × RedRow) → IsMap t → Any (λ x. x ≡ e) t → lookup e.0 t ≡ some e.1
unfolding lookup
member-lookup [] e d i = absurd i
member-lookup (x ∷ t) e d (inl same) =
    subst (λ y. lookup y.0 (x ∷ t) ≡ some y.1) same (rw (text_eq_refl x.0) refl)
member-lookup (x ∷ t) e (absent, d) (inr i) =
    let found = member-lookup t e d i in
    elim (Bool-cases (text_eq x.0 e.0)) [
      | inl same ↦ absurd (ground (arith, found, absent, text_eq_iff x.0 e.0, same))
      | inr other ↦ rw other found
    ]

module _ (sql : Sql) (laws : IsSql sql) where
  evict_leased-IsMap : (n : ℕ) (t : Redemptions) → IsMap t → IsMap (evict_leased sql n t)
  unfolding evict_leased
  evict_leased-IsMap n t d = elim (Bool-cases (leb (max n 1) (length t))) [
    | inr room ↦ rw (evict_leased, room) d
    | inl full ↦ elim (Option-cases (sql.oldest (leases_of t))) [
      | inl o ↦ rw (evict_leased, full, o) d
      | inr (b, o) ↦ rw (evict_leased, full, o) (remove-IsMap b.0 t d)
    ]
  ]

  -- The row that is evicted is a lease.
  oldest_leased :
      (t : Redemptions) (b : Text × RedRow)
      → IsMap t
      → sql.oldest (leases_of t) ≡ some b
      → (lookup b.0 t ≡ some b.1) × (is_leased b.1.state ≡ true)
  oldest_leased t b d o =
      let (i, _) = laws.oldest_found (leases_of t) b o in
      let found = member-lookup (leases_of t) b (retain-IsMap _ t d) i in
      let before = sym (lookup-retain (λ r. is_leased r.state) b.0 t d) ∙ found in
      elim (Option-cases (lookup b.0 t)) [
        | inl absent ↦ absurd (ground (arith, before, absent))
        | inr (r, l) ↦ elim (Bool-cases (is_leased r.state)) [
          | inl live ↦ ground (arith, before, l, live)
          | inr dead ↦ absurd (ground (arith, before, l, dead))
        ]
      ]

  evict_leased-IsSpent :
      (key : Text) (e n : ℕ) (t : Redemptions)
      → IsMap t
      → IsSpent key e t
      → IsSpent key e (evict_leased sql n t)
  unfolding evict_leased
  evict_leased-IsSpent key e n t d (r, h, c, x) = elim (Bool-cases (leb (max n 1) (length t))) [
    | inr room ↦ rw (evict_leased, room) (r, h, c, x)
    | inl full ↦ elim (Option-cases (sql.oldest (leases_of t))) [
      | inl o ↦ rw (evict_leased, full, o) (r, h, c, x)
      | inr (b, o) ↦
          let (found, live) = oldest_leased t b d o in
          rw (evict_leased, full, o)
            (
              r,
              ground (arith, lookup-remove b.0 key t, text_eq_iff b.0 key, found, live, h, c),
              c,
              x,
            )
    ]
  ]

  lease_new-IsSpent :
      (key k token : Text) (e now ttl n : ℕ) (t : Redemptions)
      → IsMap t
      → text_eq k key ≡ false
      → IsSpent key e t
      → IsSpent key e (lease_new sql k now ttl n token t).1
  lease_new-IsSpent key k token e now ttl n t d other s =
      let (r, h, c, x) = evict_leased-IsSpent key e n t d s in
      (r, lookup-insert k key _ (evict_leased sql n t) ∙ rw other h, c, x)

  pub lease-IsSpent :
      (key k token : Text) (e now ttl n : ℕ) (t : Redemptions)
      → IsMap t
      → now < e
      → IsSpent key e t
      → IsSpent key e (lease sql k now ttl n token t).1
  unfolding lease lease_rows
  lease-IsSpent key k token e now ttl n t d lt s =
      let d' = drop_lapsed-IsMap now t d in
      let kept = drop_lapsed-IsSpent key e now t d lt s in
      let (r', h', c', x') = kept in
      elim (Option-cases (lookup k (drop_lapsed now t))) [
        | inl o ↦
            rw (lease, lease_rows, o)
              (lease_new-IsSpent key k token e now ttl n (drop_lapsed now t) d'
                (ground (arith, text_eq_iff k key, o, h')) kept)
        | inr (r, o) ↦ elim (Bool-cases (is_leased r.state)) [
          | inr dead ↦ rw (lease, lease_rows, o, dead) kept
          | inl live ↦ elim (Bool-cases (ltb now (sql.read r.expiry))) [
            | inl more ↦ rw (lease, lease_rows, o, live, more) kept
            | inr less ↦
                rw (lease, lease_rows, o, live, less)
                  (lease_new-IsSpent key k token e now ttl n (drop_lapsed now t) d'
                    (ground (arith, text_eq_iff k key, o, h', live, c')) kept)
          ]
        ]
      ]

  lease_new-IsMap :
      (k token : Text) (now ttl n : ℕ) (t : Redemptions)
      → IsMap t
      → IsMap (lease_new sql k now ttl n token t).1
  lease_new-IsMap k token now ttl n t d = insert-IsMap k _ _ (evict_leased-IsMap n t d)

  pub lease-IsMap :
      (k token : Text) (now ttl n : ℕ) (t : Redemptions)
      → IsMap t
      → IsMap (lease sql k now ttl n token t).1
  unfolding lease lease_rows
  lease-IsMap k token now ttl n t d =
      let d' = drop_lapsed-IsMap now t d in
      elim (Option-cases (lookup k (drop_lapsed now t))) [
        | inl o ↦ rw (lease, lease_rows, o) (lease_new-IsMap k token now ttl n _ d')
        | inr (r, o) ↦ elim (Bool-cases (is_leased r.state)) [
          | inr dead ↦ rw (lease, lease_rows, o, dead) d'
          | inl live ↦ elim (Bool-cases (ltb now (sql.read r.expiry))) [
            | inl more ↦ rw (lease, lease_rows, o, live, more) d'
            | inr less ↦
                rw (lease, lease_rows, o, live, less) (lease_new-IsMap k token now ttl n _ d')
          ]
        ]
      ]

  pub lease-redeemed :
      (key token : Text) (e now ttl n : ℕ) (t : Redemptions)
      → IsMap t
      → now < e
      → IsSpent key e t
      → (lease sql key now ttl n token t).0 ≡ LeaseOutcome.redeemed
  unfolding lease lease_rows
  lease-redeemed key token e now ttl n t d lt s =
      let (r, h, c, x) = drop_lapsed-IsSpent key e now t d lt s in rw (lease, lease_rows, h, c) refl
