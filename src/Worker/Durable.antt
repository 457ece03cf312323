-- ===== src/Worker/Durable.antt =====
-- The redemptions and nonces of worker/src/do_state.rs. A table is the list of its rows by their
-- primary key, and each SQL statement is what it asks of the rows; an error of the database, which
-- ends an operation, is not modelled. What the engine leaves open is a parameter of a lease; the column
-- `state` holds one of the two texts that the statements write.
pub mod Oldest
pub mod Spent
pub mod Rows
pub mod Owned
pub mod Laws
pub mod Limits
use nft_gate.Base.{
  ℕ, ◌≤◌, ◌<◌, ◌≡◌, Any, All, ◌+◌, ◌*◌, ◌-◌, ◌^◌, min, max, Bool, true, false, not, ◌&&◌, Option,
  none, some, List, [], ◌∷◌, ltb, leb, if◌then◌else◌, length,
}
use nft_gate.Text.{Text, text_eq}
use nft_gate.Assoc.{lookup, insert, remove, retain}

-- `now.saturating_add(secs.saturating_mul(1000))` of `i64`, of numbers that are not negative
abbrev pub expires : ℕ → ℕ → ℕ
expires now secs = min (now + min (secs * 1000) (2 ^ 63 - 1)) (2 ^ 63 - 1)

pub data RowState : Type 0 where
  leased committed : RowState

abbrev pub is_leased : RowState → Bool
is_leased leased = true
is_leased committed = false

-- A missing token is NULL.
pub record RedRow : Type 0 where
  pub state : RowState
  pub expiry : ℕ
  pub token : Option Text

abbrev pub Redemptions : Type 0
Redemptions = List (Text × RedRow)

pub data LeaseOutcome : Type 0 where
  ok : Text → LeaseOutcome
  leased redeemed : LeaseOutcome

-- `token = ?`
abbrev pub owned_by : Text → Option Text → Bool
owned_by t none = false
owned_by t (some owner) = text_eq owner t

-- `DELETE … WHERE state = … AND expiry <= ?`
abbrev lapsed_lease : ℕ → RedRow → Bool
lapsed_lease now r = is_leased r.state && leb r.expiry now

abbrev lapsed_commit : ℕ → RedRow → Bool
lapsed_commit now r = not (is_leased r.state) && leb r.expiry now

unfoldable pub drop_lapsed : ℕ → Redemptions → Redemptions
drop_lapsed now t =
    retain (λ r. not (lapsed_commit now r)) (retain (λ r. not (lapsed_lease now r)) t)

-- What the SQL engine does that a statement leaves open: which row `ORDER BY expiry ASC LIMIT 1` gives,
-- where several expire first, and what number a column reads back as.
pub record Sql : Type 0 where
  pub oldest : Redemptions → Option (Text × RedRow)
  pub read : ℕ → ℕ

-- What the engine documents: the row is one of those that expire first, and a number of 53 bits is read
-- back as it was written.
pub record IsSql (sql : Sql) : Type 0 where
  pub oldest_none : (t : Redemptions) → sql.oldest t ≡ none → t ≡ []
  pub oldest_found :
      (t : Redemptions) (e : Text × RedRow)
      → sql.oldest t ≡ some e
      → Any (λ x. x ≡ e) t × All (λ x. e.1.expiry ≤ x.1.expiry) t
  pub read_exact : (n : ℕ) → n < 2 ^ 53 → sql.read n ≡ n

-- `SELECT … WHERE state = 'leased'`
abbrev pub leases_of : Redemptions → Redemptions
leases_of = retain (λ r. is_leased r.state)

module _ (sql : Sql) where
  unfoldable pub evict_leased : ℕ → Redemptions → Redemptions
  evict_leased max_entries t =
      if leb (max max_entries 1) (length t)
      then elim (sql.oldest (leases_of t)) [ none ↦ t | some oldest ↦ remove oldest.0 t ]
      else t

  abbrev pub lease_new : Text → ℕ → ℕ → ℕ → Text → Redemptions → LeaseOutcome × Redemptions
  lease_new key now ttl_secs max_entries token t = (
    LeaseOutcome.ok token,
    insert key
        (record { state = RowState.leased; expiry = expires now ttl_secs; token = some token })
        (evict_leased max_entries t),
  )

  unfoldable pub lease_rows : Text → ℕ → ℕ → ℕ → Text → Redemptions → LeaseOutcome × Redemptions
  lease_rows key now ttl_secs max_entries token t = elim (lookup key t) [
    | none ↦ lease_new key now ttl_secs max_entries token t
    | some r ↦
        if not (is_leased r.state)
        then (LeaseOutcome.redeemed, t)
        else if ltb now (sql.read r.expiry)
        then (LeaseOutcome.leased, t)
        else lease_new key now ttl_secs max_entries token t
  ]

  unfoldable pub lease : Text → ℕ → ℕ → ℕ → Text → Redemptions → LeaseOutcome × Redemptions
  lease key now ttl_secs max_entries token t =
      lease_rows key now ttl_secs max_entries token (drop_lapsed now t)

-- `WHERE key = ? AND state = 'leased' AND token = ?`
abbrev pub is_own_lease : Text → Text → Text × RedRow → Bool
is_own_lease key token e = text_eq e.0 key && (is_leased e.1.state && owned_by token e.1.token)

-- The rows that the `SELECT` of `commit` counts
unfoldable pub live_leases : Text → Text → ℕ → Redemptions → ℕ
live_leases key token now [] = 0
live_leases key token now (e ∷ t) =
    let rest = live_leases key token now t in
    if is_own_lease key token e && ltb now e.1.expiry then rest + 1 else rest

-- The `UPDATE`
unfoldable pub set_committed : Text → Text → ℕ → Redemptions → Redemptions
set_committed key token expiry [] = []
set_committed key token expiry (e ∷ t) =
    let rest = set_committed key token expiry t in
    if is_own_lease key token e
    then (e.0, record { state = committed; expiry = expiry; token = none }) ∷ rest
    else e ∷ rest

unfoldable pub commit : Text → Text → ℕ → ℕ → Redemptions → Bool × Redemptions
commit key token now retention_secs t =
    if leb (live_leases key token now t) 0
    then (false, t)
    else (true, set_committed key token (expires now retention_secs) t)

unfoldable pub release : Text → Text → Redemptions → Redemptions
release key token [] = []
release key token (e ∷ t) =
    let rest = release key token t in if is_own_lease key token e then rest else e ∷ rest
