-- ===== src/Redemption/Leases.antt =====
-- `RedemptionTable` of core/src/redemption.rs: lease, commit and release of a consume digest.
pub mod Status
pub mod Laws
pub mod Owner
pub mod History
pub mod Stale
use nft_gate.Base.{
  ℕ, max, Bool, true, false, not, ◌&&◌, Option, none, some, List, [], ltb, leb, if◌then◌else◌,
  length,
}
use nft_gate.Base.Words.{after_secs}
use nft_gate.Text.{Text, text_eq}
use nft_gate.Assoc.{lookup, insert, remove, retain, min_by_key}

pub data Lease : Type 0 where
  ok : Text → Lease
  leased redeemed : Lease

pub data Commit : Type 0 where
  ok lost : Commit

pub record Row : Type 0 where
  pub committed : Bool
  pub expiry_ms : ℕ
  pub token : Text

abbrev pub RedemptionTable : Type 0
RedemptionTable = List (Text × Row)

unfoldable pub evict_lease : ℕ → RedemptionTable → RedemptionTable
evict_lease max_entries rows =
    if leb (max max_entries 1) (length rows)
    then elim (min_by_key (λ r. r.expiry_ms) (retain (λ r. not r.committed) rows)) [
      | none ↦ rows
      | some oldest ↦ remove oldest.0 rows
    ]
    else rows

unfoldable pub grant : Text → ℕ → ℕ → ℕ → Text → RedemptionTable → Lease × RedemptionTable
grant key now lease_ttl_secs max_entries new_token rows = (
  Lease.ok new_token,
  insert key
      (record { committed = false; expiry_ms = after_secs now lease_ttl_secs; token = new_token })
      (evict_lease max_entries rows),
)

-- The part of `try_lease` that follows the dropping of expired rows.
unfoldable pub lease_live : Text → ℕ → ℕ → ℕ → Text → RedemptionTable → Lease × RedemptionTable
lease_live key now lease_ttl_secs max_entries new_token rows = elim (lookup key rows) [
  | none ↦ grant key now lease_ttl_secs max_entries new_token rows
  | some r ↦
      if r.committed
      then (redeemed, rows)
      else if ltb now r.expiry_ms
      then (leased, rows)
      else grant key now lease_ttl_secs max_entries new_token rows
]

unfoldable pub try_lease : Text → ℕ → ℕ → ℕ → Text → RedemptionTable → Lease × RedemptionTable
try_lease key now lease_ttl_secs max_entries new_token t =
    lease_live key now lease_ttl_secs max_entries new_token (retain (λ r. ltb now r.expiry_ms) t)

unfoldable pub commit : Text → Text → ℕ → ℕ → RedemptionTable → Commit × RedemptionTable
commit key token now retention_secs t = elim (lookup key t) [
  | none ↦ (lost, t)
  | some r ↦
      if not r.committed && (text_eq r.token token && ltb now r.expiry_ms)
      then (
        Commit.ok,
        insert key
            (record { committed = true; expiry_ms = after_secs now retention_secs; token = [] }) t,
      )
      else (lost, t)
]

unfoldable pub release : Text → Text → RedemptionTable → RedemptionTable
release key token t = elim (lookup key t) [
  | none ↦ t
  | some r ↦ if not r.committed && text_eq r.token token then remove key t else t
]
