-- ===== src/Redemption/Leases/Status.antt =====
-- What a caller at time `now` can tell of a digest: the abstract view that the table implements.
use nft_gate.Base.{
  ℕ, ◌<◌, ◌≤◌, ◌≡◌, ◌⊎◌, inl, inr, false, not, Option, none, some, [], arith, ltb, leb,
  if◌then◌else◌, length, max, Option-cases, Bool-cases,
}
use nft_gate.Text.{Text, text_eq, text_eq_iff}
use nft_gate.Assoc.{lookup, retain, min_by_key, IsMap}
use nft_gate.Assoc.Laws.{
  lookup-remove, lookup-retain, retain-IsMap, remove-IsMap, min_by_key-lookup, retain_all,
  min_by_key-ne-none, length-remove-lt,
}
use nft_gate.Redemption.Leases.{Row, RedemptionTable, evict_lease}

-- `held` names the owner token and the expiry of the lease, `spent` the end of the retention.
pub data Status : Type 0 where
  free : Status
  held : Text → ℕ → Status
  spent : ℕ → Status

abbrev pub status_of : ℕ → Option Row → Status
status_of now none = free
status_of now (some r) =
    if ltb now r.expiry_ms
    then if r.committed then spent r.expiry_ms else held r.token r.expiry_ms
    else free

unfoldable pub status : ℕ → Text → RedemptionTable → Status
status now k t = status_of now (lookup k t)

-- A new lease, or nothing if it would lapse at once.
abbrev pub fresh : ℕ → Text → ℕ → Status
fresh now token expiry = if ltb now expiry then held token expiry else free

-- The expired rows change no status.
pub status-retain :
    (now : ℕ) (k : Text) (t : RedemptionTable)
    → IsMap t
    → status now k (retain (λ r. ltb now r.expiry_ms) t) ≡ status now k t
unfolding status
status-retain now k t d = ground (arith, lookup-retain (λ r. ltb now r.expiry_ms) k t d)

-- The row that an eviction drops is a lease of the table.
evicted_is_lease :
    (rows : RedemptionTable) (b : Text × Row)
    → IsMap rows
    → min_by_key (λ r. r.expiry_ms) (retain (λ r. not r.committed) rows) ≡ some b
    → (lookup b.0 rows ≡ some b.1) × (b.1.committed ≡ false)
evicted_is_lease rows b d e =
    let live = retain (λ r. not r.committed) rows in
    let found =
      min_by_key-lookup (λ r. r.expiry_ms) live b (retain-IsMap (λ r. not r.committed) rows d) e in
    ground (
      arith,
      found,
      lookup-retain (λ r. not r.committed) b.0 rows d,
      retain_all (λ r. not r.committed) b.0 b.1 rows,
    )

-- What an eviction does to a digest: nothing, or it drops the lease of a full table.
abbrev pub Evicts : ℕ → Text → RedemptionTable → Type 0
Evicts n j rows =
    (r : Row) × (lookup j rows ≡ some r)
    × (r.committed ≡ false)
    × (lookup j (evict_lease n rows) ≡ none)
    × (max n 1 ≤ length rows)

pub lookup-evict_lease :
    (n : ℕ) (j : Text) (rows : RedemptionTable)
    → IsMap rows
    → (lookup j (evict_lease n rows) ≡ lookup j rows) ⊎ Evicts n j rows
unfolding evict_lease
lookup-evict_lease n j rows d =
    elim (Option-cases (min_by_key (λ r. r.expiry_ms) (retain (λ r. not r.committed) rows))) [
      | inl e ↦ inl (ground arith)
      | inr (b, e) ↦ elim (Bool-cases (text_eq b.0 j)) [
        | inl same ↦ elim (Bool-cases (leb (max n 1) (length rows))) [
          | inl full ↦ inr (
            b.1,
            ground (arith, evicted_is_lease rows b d e, text_eq_iff b.0 j),
            (evicted_is_lease rows b d e).1,
            ground (arith, lookup-remove b.0 j rows),
            ground arith,
          )
          | inr room ↦ inl (ground arith)
        ]
        | inr other ↦ inl (ground (arith, lookup-remove b.0 j rows))
      ]
    ]

pub evict_lease-IsMap : (n : ℕ) (rows : RedemptionTable) → IsMap rows → IsMap (evict_lease n rows)
unfolding evict_lease
evict_lease-IsMap n rows d =
    elim (Option-cases (min_by_key (λ r. r.expiry_ms) (retain (λ r. not r.committed) rows))) [
      | inl e ↦ ground arith
      | inr (b, e) ↦ ground (arith, remove-IsMap b.0 rows d)
    ]

-- An eviction makes room, unless every row is a commit.
pub length-evict_lease :
    (n : ℕ) (rows : RedemptionTable)
    → IsMap rows
    → (length (evict_lease n rows) < max n 1)
      ⊎ (length (evict_lease n rows) < length rows)
      ⊎ ((retain (λ r. not r.committed) rows ≡ []) × (length (evict_lease n rows) ≡ length rows))
unfolding evict_lease
length-evict_lease n rows d =
    elim (Option-cases (min_by_key (λ r. r.expiry_ms) (retain (λ r. not r.committed) rows))) [
      | inl e ↦
          ground (arith, min_by_key-ne-none (λ r. r.expiry_ms) (retain (λ r. not r.committed) rows))
      | inr (b, e) ↦ ground (arith, length-remove-lt b.0 b.1 rows, evicted_is_lease rows b d e)
    ]
