-- ===== src/Redemption/Leases/History.antt =====
-- Histories of one redemption table: the calls of any number of requests, interleaved in any order,
-- each under the table's lock and with the clock's reading.
use nft_gate.Base.{ℕ, ◌<◌, ◌≡◌, refl, true, false, some, List, [], ◌∷◌, arith, ltb, All}
use nft_gate.Base.Words.{after_secs}
use nft_gate.Text.{Text, text_eq_iff, text_eq_refl}
use nft_gate.Assoc.{lookup, IsMap, retain}
use nft_gate.Assoc.Laws.{lookup-insert, lookup-remove, lookup-retain}
use nft_gate.Redemption.Leases.{
  Commit, lost, redeemed, Row, RedemptionTable, evict_lease, grant, lease_live, try_lease, commit,
  release,
}
use nft_gate.Redemption.Leases.Status.{lookup-evict_lease}
use nft_gate.Redemption.Leases.Owner.{try_lease-IsMap, commit-IsMap, release-IsMap}
use nft_gate.Assoc.Laws.{retain-IsMap}

pub data Call : Type 0 where
  leases : (key : Text) (ttl max_entries : ℕ) (token : Text) → Call
  commits : (key token : Text) (retention : ℕ) → Call
  releases : (key token : Text) → Call

unfoldable pub step : ℕ × Call → RedemptionTable → RedemptionTable
step (now, leases k ttl n token) t = (try_lease k now ttl n token t).1
step (now, commits k token retention) t = (commit k token now retention t).1
step (now, releases k token) t = release k token t

unfoldable pub run : List (ℕ × Call) → RedemptionTable → RedemptionTable
run [] t = t
run (c ∷ cs) t = run cs (step c t)

abbrev pub Before : ℕ → List (ℕ × Call) → Type 0
Before e = All (λ c. c.0 < e)

pub step-IsMap : (c : ℕ × Call) (t : RedemptionTable) → IsMap t → IsMap (step c t)
unfolding step
step-IsMap (now, leases k ttl n token) t d = try_lease-IsMap k now ttl n token t d
step-IsMap (now, commits k token retention) t d = commit-IsMap k token now retention t d
step-IsMap (now, releases k token) t d = release-IsMap k token t d

pub run-IsMap : (cs : List (ℕ × Call)) (t : RedemptionTable) → IsMap t → IsMap (run cs t)
unfolding run
run-IsMap [] t d = d
run-IsMap (c ∷ cs) t d = run-IsMap cs (step c t) (step-IsMap c t d)

-- The digest is committed until `e`.
abbrev pub IsSpent : Text → ℕ → RedemptionTable → Type 0
IsSpent k e t = (r : Row) × (lookup k t ≡ some r) × (r.committed ≡ true) × (r.expiry_ms ≡ e)

try_lease_keeps_spent :
    (k j : Text) (now ttl n : ℕ) (token : Text) (t : RedemptionTable) (r : Row)
    → IsMap t
    → lookup k t ≡ some r
    → r.committed ≡ true
    → now < r.expiry_ms
    → lookup k (try_lease j now ttl n token t).1 ≡ some r
unfolding try_lease lease_live grant
try_lease_keeps_spent k j now ttl n token t r d h c lt =
    let live = λ (x : Row). ltb now x.expiry_ms in
    let rows = retain live t in
    ground (
      arith,
      lookup-retain live k t d,
      text_eq_iff j k,
      lookup-evict_lease n k rows (retain-IsMap live t d),
      lookup-insert j k
          (record { committed = false; expiry_ms = after_secs now ttl; token = token })
          (evict_lease n rows),
    )

pub step-IsSpent :
    (k : Text) (e : ℕ) (c : ℕ × Call) (t : RedemptionTable)
    → IsMap t
    → c.0 < e
    → IsSpent k e t
    → IsSpent k e (step c t)
unfolding step
step-IsSpent k e (now, leases j ttl n token) t d lt (r, h, c, x) =
    (r, try_lease_keeps_spent k j now ttl n token t r d h c (omega arith), c, x)
step-IsSpent k e (now, commits j token retention) t d lt (r, h, c, x) = (r, stays, c, x)
  where
    stays : lookup k (commit j token now retention t).1 ≡ some r
    stays =
        unfold commit in
        ground (
          arith,
          text_eq_iff j k,
          lookup-insert j k
              (record { committed = true; expiry_ms = after_secs now retention; token = [] }) t,
        )
step-IsSpent k e (now, releases j token) t d lt (r, h, c, x) = (r, stays, c, x)
  where
    stays : lookup k (release j token t) ≡ some r
    stays = unfold release in ground (arith, text_eq_iff j k, lookup-remove j k t)

-- Whatever is called before the retention ends, a spent digest stays spent.
pub run-IsSpent :
    (k : Text) (e : ℕ) (cs : List (ℕ × Call)) (t : RedemptionTable)
    → IsMap t
    → Before e cs
    → IsSpent k e t
    → IsSpent k e (run cs t)
unfolding run
run-IsSpent k e [] t d b s = s
run-IsSpent k e (c ∷ cs) t d b s =
    run-IsSpent k e cs (step c t) (step-IsMap c t d) b.1 (step-IsSpent k e c t d b.0 s)

-- A successful commit spends the digest.
pub commit-IsSpent :
    (k token : Text) (now retention : ℕ) (t : RedemptionTable)
    → (commit k token now retention t).0 ≡ Commit.ok
    → IsSpent k (after_secs now retention) (commit k token now retention t).1
unfolding commit
commit-IsSpent k token now retention t h = (
  record { committed = true; expiry_ms = after_secs now retention; token = [] },
  ground (
    arith,
    text_eq_refl k,
    lookup-insert k k
        (record { committed = true; expiry_ms = after_secs now retention; token = [] }) t,
  ),
  refl,
  refl,
)

spent_refuses :
    (k : Text) (e now ttl n retention : ℕ) (token : Text) (t : RedemptionTable)
    → IsMap t
    → now < e
    → IsSpent k e t
    → ((try_lease k now ttl n token t).0 ≡ redeemed) × ((commit k token now retention t).0 ≡ lost)
unfolding try_lease lease_live commit
spent_refuses k e now ttl n retention token t d lt (r, h, c, x) =
    (ground (arith, lookup-retain (λ y. ltb now y.expiry_ms) k t d), ground arith)

-- No double spend, on a table without double keys: after a commit that succeeded, and any history of calls that all come before the
-- retention ends, a further lease of the digest is answered `redeemed` and a further commit `lost`,
-- whatever token it presents.
pub commit_once :
    (k token : Text) (now retention : ℕ) (t : RedemptionTable) (cs : List (ℕ × Call))
    (later ttl n again : ℕ) (token' : Text)
    → IsMap t
    → (commit k token now retention t).0 ≡ Commit.ok
    → Before (after_secs now retention) cs
    → later < after_secs now retention
    → let t' = run cs (commit k token now retention t).1 in
      ((try_lease k later ttl n token' t').0 ≡ redeemed)
      × ((commit k token' later again t').0 ≡ lost)
commit_once k token now retention t cs later ttl n again token' d h b lt =
    let t₁ = (commit k token now retention t).1 in
    let d₁ = commit-IsMap k token now retention t d in
    spent_refuses k (after_secs now retention) later ttl n again token' (run cs t₁)
      (run-IsMap cs t₁ d₁) lt
      (run-IsSpent k (after_secs now retention) cs t₁ d₁ b
        (commit-IsSpent k token now retention t h))
