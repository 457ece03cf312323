-- ===== src/Tests/Store.antt =====
-- The redemption, nonce and rate tables at concrete inputs.
use nft_gate.Base.{
  ℕ, ◌+◌, ◌≤◌, ◌≡◌, refl, ◌≢◌, ◌⊎◌, inr, true, false, none, some, List, [], ◌∷◌, arith, ltb, length,
  max,
}
use nft_gate.Base.Words.{after_secs}
use nft_gate.Text.{Text, codes, text_eq}
use nft_gate.Assoc.{lookup, insert, remove, retain, min_by_key, IsMap}
use nft_gate.Redemption.Leases.{
  Lease, Commit, lost, leased, redeemed, Row, RedemptionTable, evict_lease, grant, lease_live,
  try_lease, commit, release,
}
use nft_gate.Redemption.Leases.Status.{free, held, status, fresh}
use nft_gate.Redemption.Leases.Laws.{answer, claimed, IsHeld, try_lease-status}
use nft_gate.Redemption.Leases.Owner.{kept, commit-status}
use nft_gate.Redemption.Leases.History.{leases, commits, releases, step, run, commit_once}
use nft_gate.Redemption.Leases.Stale.{superseded_token_is_powerless}
use nft_gate.Redemption.Nonces.{
  evict_nonce, issue, take_if_valid, issues, takes, prunes, take_once, take_if_valid-issue,
}
use nft_gate.Redemption.Nonces
use nft_gate.Redemption.Rates.{Window, check_capped, current, make_room, evict_window}
use nft_gate.Redemption.Rates
use nft_gate.Redemption.Rates.Budget.{used, check_capped-prune, allowed, allowed-le}

tables : Unit {0}
unfolding text_eq lookup insert remove retain min_by_key evict_lease grant lease_live try_lease
    commit release status step run evict_nonce issue take_if_valid Nonces.prune Nonces.step
    Nonces.run check_capped current make_room evict_window Rates.prune used allowed
tables = tt

abbrev digest : Text
digest = codes "D"

abbrev other : Text
other = codes "E"

abbrev lease_row : Row
lease_row = record { committed = false; expiry_ms = 900; token = codes "u" }

-- Another digest is leased; the table is full at one entry.
abbrev one_lease : RedemptionTable
one_lease = (other, lease_row) ∷ []

abbrev leased_here : RedemptionTable
leased_here =
    (digest, record { committed = false; expiry_ms = 5000; token = codes "t" }) ∷ one_lease

lease_tests :
    ((try_lease digest 100 60 1 (codes "t") one_lease).0 ≡ Lease.ok (codes "t"))
    × (lookup other (try_lease digest 100 60 1 (codes "t") one_lease).1 ≡ none)
    × ((try_lease other 100 60 1 (codes "t") one_lease).0 ≡ leased)
    × ((try_lease other 900 60 1 (codes "t") one_lease).0 ≡ Lease.ok (codes "t"))
    × ((commit digest (codes "t") 100 60 leased_here).0 ≡ Commit.ok)
    × ((commit digest (codes "t") 5000 60 leased_here).0 ≡ lost)
    × (release digest (codes "t") leased_here ≡ one_lease)
    × (release digest (codes "u") leased_here ≡ leased_here)
unfolding tables
lease_tests = (refl, refl, refl, refl, refl, refl, refl, refl)

apart : other ≢ digest
apart h = ground arith

one_lease-IsMap : IsMap one_lease
unfolding tables
one_lease-IsMap = (refl, tt)

leased_here-IsMap : IsMap leased_here
unfolding tables
leased_here-IsMap = (refl, one_lease-IsMap)

try_lease-status_example :
    let s = status 100 digest one_lease in
    let r = try_lease digest 100 60 1 (codes "t") one_lease in
    (r.0 ≡ answer s (codes "t"))
    × (status 100 digest r.1 ≡ claimed s (fresh 100 (codes "t") (after_secs 100 60)))
    × ((status 100 other r.1 ≡ status 100 other one_lease)
        ⊎ (IsHeld (status 100 other one_lease)
            × (status 100 other r.1 ≡ free)
            × (max 1 1 ≤ length (retain (λ r. ltb 100 r.expiry_ms) one_lease))))
try_lease-status_example =
    try_lease-status digest 100 60 1 (codes "t") one_lease other one_lease-IsMap apart

commit-status_example :
    let r = commit digest (codes "t") 100 60 leased_here in
    (((e : ℕ) × (status 100 digest leased_here ≡ held (codes "t") e)
        × (r.0 ≡ Commit.ok)
        × (status 100 digest r.1 ≡ kept 100 (after_secs 100 60)))
      ⊎ (((e : ℕ) → status 100 digest leased_here ≢ held (codes "t") e)
          × (r ≡ (lost, leased_here))))
    × (lookup other r.1 ≡ lookup other leased_here)
commit-status_example = commit-status digest (codes "t") 100 60 leased_here other apart

committed_now : (commit digest (codes "t") 100 60 leased_here).0 ≡ Commit.ok
unfolding tables
committed_now = refl

-- After the commit: the same digest asked for again, released and pushed at by another lease.
commit_once_example :
    let t' =
      run
        ((200, leases digest 60 1 (codes "x"))
          ∷ (300, releases digest (codes "t"))
          ∷ (400, leases other 60 1 (codes "y"))
          ∷ [])
        (commit digest (codes "t") 100 60 leased_here).1 in
    ((try_lease digest 50_000 60 1 (codes "z") t').0 ≡ redeemed)
    × ((commit digest (codes "z") 50_000 60 t').0 ≡ lost)
commit_once_example =
    commit_once digest (codes "t") 100 60 leased_here
      ((200, leases digest 60 1 (codes "x"))
        ∷ (300, releases digest (codes "t"))
        ∷ (400, leases other 60 1 (codes "y"))
        ∷ [])
      50_000 60 1 60 (codes "z") leased_here-IsMap committed_now
      (omega arith, (omega arith, (omega arith, tt))) (omega arith)

leased_anew : (try_lease other 900 60 1 (codes "v") one_lease).0 ≡ Lease.ok (codes "v")
unfolding tables
leased_anew = refl

not_the_stale : codes "v" ≢ codes "u"
not_the_stale h = ground arith

not_the_stale' : codes "w" ≢ codes "u"
not_the_stale' h = ground arith

-- The lease of `u` ran out and the digest is leased to `v`, then, later, to `w`.
superseded_token_is_powerless_example :
    let t' =
      run
        ((1000, commits other (codes "u") 60) ∷ (70_000, leases other 60 1 (codes "w")) ∷ [])
        (try_lease other 900 60 1 (codes "v") one_lease).1 in
    (commit other (codes "u") 71_000 60 t' ≡ (lost, t')) × (release other (codes "u") t' ≡ t')
superseded_token_is_powerless_example =
    superseded_token_is_powerless other (codes "u") 900 60 1 (codes "v") one_lease
      ((1000, commits other (codes "u") 60) ∷ (70_000, leases other 60 1 (codes "w")) ∷ []) 71_000
      60 one_lease-IsMap leased_anew not_the_stale (tt, (inr not_the_stale', tt))

nonce_tests :
    ((take_if_valid (codes "n") 200 (issue (codes "n") 100 1 2 []).1).0 ≡ true)
    × ((take_if_valid (codes "n") 1100 (issue (codes "n") 100 1 2 []).1).0 ≡ false)
    × (lookup (codes "a") (issue (codes "n") 100 1 1 ((codes "a", 900) ∷ [])).1 ≡ none)
unfolding tables
nonce_tests = (refl, refl, refl)

take_once_example :
    (take_if_valid (codes "n") 300 (
      Nonces.run
        ((200, issues (codes "m") 60 2) ∷ (250, prunes) ∷ [])
        (take_if_valid (codes "n") 100 ((codes "n", 900) ∷ [])).1)).0
    ≡ false
take_once_example =
    take_once (codes "n") 100 300 ((codes "n", 900) ∷ [])
      ((200, issues (codes "m") 60 2) ∷ (250, prunes) ∷ []) ((λ h. ground arith), ((λ h. h), tt))

take_if_valid-issue_example :
    let r = issue (codes "n") 100 1 2 ((codes "m", 900) ∷ []) in
    (r.0 ≡ after_secs 100 1) × ((take_if_valid (codes "n") 200 r.1).0 ≡ ltb 200 r.0)
take_if_valid-issue_example = take_if_valid-issue (codes "n") 100 1 2 200 ((codes "m", 900) ∷ [])

abbrev window : Window
window = record { start = 100; count = 1 }

abbrev one_window : List (Text × Window)
one_window = (codes "ip", window) ∷ []

one_window-IsMap : IsMap one_window
unfolding tables
one_window-IsMap = (refl, tt)

rate_tests :
    ((check_capped (codes "ip") 200 2 5 one_window).0 ≡ true)
    × ((check_capped (codes "ip") 200 1 5 one_window).0 ≡ false)
    × ((check_capped (codes "ip") 60_100 1 5 one_window).0 ≡ true)
    × ((check_capped (codes "ip") 200 0 5 one_window).0 ≡ true)
unfolding tables
rate_tests = (refl, refl, refl, refl)

check_capped-prune_example :
    (check_capped (codes "ip") 300 1 5 (Rates.prune 200 one_window)).0
    ≡ (check_capped (codes "ip") 300 1 5 one_window).0
check_capped-prune_example =
    check_capped-prune (codes "ip") 200 300 1 5 one_window one_window-IsMap (omega arith)

window_of_ip : lookup (codes "ip") one_window ≡ some window
unfolding tables
window_of_ip = refl

allowed-le_example :
    window.count
      + allowed
          (codes "ip")
          2
          5
          ((200, codes "ip") ∷ (300, codes "x") ∷ (400, codes "ip") ∷ [])
          one_window
    ≤ 2
allowed-le_example =
    allowed-le (codes "ip") 2 5 ((200, codes "ip") ∷ (300, codes "x") ∷ (400, codes "ip") ∷ [])
      one_window window (omega arith) (omega arith) window_of_ip (omega arith)
      (omega arith, (omega arith, (omega arith, tt)))

-- A table that a commit fills takes a lease beyond its cap of one.
cap_test :
    length
      (try_lease digest 100 60 1
        (codes "t")
        ((other, record { committed = true; expiry_ms = 900; token = [] }) ∷ [])).1
    ≡ 2
unfolding tables
cap_test = refl
