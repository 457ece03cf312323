-- ===== src/State/Invariant.antt =====
-- The invariant of the whole in-memory state, over every call of it.
use nft_gate.Base.{ℕ, ◌≤◌, refl, max, List, [], ◌∷◌, arith, length}
use nft_gate.Text.{Text}
use nft_gate.External.{Crates}
use nft_gate.Assoc.{IsMap}
use nft_gate.Assoc.Laws.{retain-IsMap, length-retain-le}
use nft_gate.Redemption.Nonces.{NonceTable, issues, takes, prunes, length-step-le}
use nft_gate.Redemption.Nonces
use nft_gate.Redemption.Leases.Owner.{try_lease-IsMap, commit-IsMap, release-IsMap}
use nft_gate.Redemption.Rates.{RateTable, is_running}
use nft_gate.Redemption.Rates
use nft_gate.Redemption.Rates.Bounds.{check_capped-IsMap, length-check_capped-le}
use nft_gate.State.{
  RateScope, challenge, public, gated_preauth, address, RateBudgets, MemoryState, new_store,
  new_rates, with_max_keys, new_state, random_hex24, issue_nonce, take_nonce, try_lease_redemption,
  commit_redemption, release_redemption, prune_nonces, check, prune_rates,
}

pub data Op : Type 0 where
  issue_op : (buf : List ℕ) → Op
  take_op : (nonce : Text) → Op
  lease_op : (buf : List ℕ) (key : Text) (ttl : ℕ) → Op
  commit_op : (key token : Text) (retention : ℕ) → Op
  release_op : (key token : Text) → Op
  check_op : (scope : RateScope) (key : Text) → Op
  prune_op sweep_op : Op

-- A table without double keys, within its bound.
abbrev pub Fits : {V : Type 0} → ℕ → List (Text × V) → Type 0
Fits n t = IsMap t × (length t ≤ max n 1)

pub record IsSound (s : MemoryState) : Type 0 where
  pub nonces : Fits s.store.max_entries s.store.nonces
  pub redemptions : IsMap s.store.redemptions
  pub ip : Fits s.rates.max_keys s.rates.ip
  pub preauth : Fits s.rates.max_keys s.rates.preauth
  pub by_address : Fits s.rates.max_keys s.rates.address

module _ (crates : Crates) where
  unfoldable pub apply : ℕ × Op → MemoryState → MemoryState
  apply (now, issue_op buf) s = record s { store = (issue_nonce crates now buf s.store).1 }
  apply (now, take_op nonce) s = record s { store = (take_nonce now nonce s.store).1 }
  apply (now, lease_op buf key ttl) s = record s {
    store = (try_lease_redemption crates now buf key ttl s.store).1;
  }
  apply (now, commit_op key token retention) s = record s {
    store = (commit_redemption now key token retention s.store).1;
  }
  apply (now, release_op key token) s = record s { store = release_redemption key token s.store }
  apply (now, check_op scope key) s = record s { rates = (check now scope key s.rates).1 }
  apply (now, prune_op) s = record s { store = prune_nonces now s.store }
  apply (now, sweep_op) s = record s { rates = prune_rates now s.rates }

  nonce_step-Fits :
      (n : ℕ) (c : ℕ × Nonces.Call) (t : NonceTable)
      → Nonces.Caps n c.1
      → Fits n t
      → Fits n (Nonces.step c t)
  nonce_step-Fits n c t cap (m, l) = (Nonces.step-IsMap c t m, length-step-le n c t m cap l)

  check-Fits :
      (k : Text) (now budget n : ℕ) (t : RateTable)
      → Fits n t
      → Fits n (Rates.check_capped k now budget n t).1
  check-Fits k now budget n t (m, l) =
      (check_capped-IsMap k now budget n t m, length-check_capped-le k now budget n t m l)

  sweep-Fits : (now n : ℕ) (t : RateTable) → Fits n t → Fits n (Rates.prune now t)
  unfolding Rates.prune
  sweep-Fits now n t (m, l) =
      (retain-IsMap (is_running now) t m, omega (arith, length-retain-le (is_running now) t))

  new_state-IsSound :
      (ttl max_entries : ℕ) (budgets : RateBudgets) → IsSound (new_state ttl max_entries budgets)
  unfolding new_state new_store new_rates with_max_keys
  new_state-IsSound ttl max_entries budgets = record {
    nonces = (tt, omega arith);
    redemptions = tt;
    ip = (tt, omega arith);
    preauth = (tt, omega arith);
    by_address = (tt, omega arith);
  }

  apply-IsSound : (c : ℕ × Op) (s : MemoryState) → IsSound s → IsSound (apply c s)
  unfolding apply issue_nonce take_nonce try_lease_redemption commit_redemption release_redemption
      check prune_nonces prune_rates Nonces.step
  apply-IsSound (now, issue_op buf) s h = record {
    nonces =
        nonce_step-Fits s.store.max_entries
          (now, issues (random_hex24 crates buf) s.store.challenge_ttl_secs s.store.max_entries)
          s.store.nonces refl h.nonces;
    redemptions = h.redemptions;
    ip = h.ip;
    preauth = h.preauth;
    by_address = h.by_address;
  }
  apply-IsSound (now, take_op nonce) s h = record {
    nonces = nonce_step-Fits s.store.max_entries (now, takes nonce) s.store.nonces tt h.nonces;
    redemptions = h.redemptions;
    ip = h.ip;
    preauth = h.preauth;
    by_address = h.by_address;
  }
  apply-IsSound (now, lease_op buf key ttl) s h = record {
    redemptions =
        try_lease-IsMap key now ttl s.store.max_entries (random_hex24 crates buf)
          s.store.redemptions h.redemptions;
    nonces = h.nonces;
    ip = h.ip;
    preauth = h.preauth;
    by_address = h.by_address;
  }
  apply-IsSound (now, commit_op key token retention) s h = record {
    redemptions = commit-IsMap key token now retention s.store.redemptions h.redemptions;
    nonces = h.nonces;
    ip = h.ip;
    preauth = h.preauth;
    by_address = h.by_address;
  }
  apply-IsSound (now, release_op key token) s h = record {
    redemptions = release-IsMap key token s.store.redemptions h.redemptions;
    nonces = h.nonces;
    ip = h.ip;
    preauth = h.preauth;
    by_address = h.by_address;
  }
  apply-IsSound (now, check_op challenge key) s h = record {
    ip = check-Fits key now s.rates.budgets.ip s.rates.max_keys s.rates.ip h.ip;
    nonces = h.nonces;
    redemptions = h.redemptions;
    preauth = h.preauth;
    by_address = h.by_address;
  }
  apply-IsSound (now, check_op public key) s h = record {
    ip = check-Fits key now s.rates.budgets.ip s.rates.max_keys s.rates.ip h.ip;
    nonces = h.nonces;
    redemptions = h.redemptions;
    preauth = h.preauth;
    by_address = h.by_address;
  }
  apply-IsSound (now, check_op gated_preauth key) s h = record {
    preauth =
        check-Fits key now s.rates.budgets.gated_preauth s.rates.max_keys s.rates.preauth h.preauth;
    nonces = h.nonces;
    redemptions = h.redemptions;
    ip = h.ip;
    by_address = h.by_address;
  }
  apply-IsSound (now, check_op address key) s h = record {
    by_address =
        check-Fits key now s.rates.budgets.address s.rates.max_keys s.rates.address h.by_address;
    nonces = h.nonces;
    redemptions = h.redemptions;
    ip = h.ip;
    preauth = h.preauth;
  }
  apply-IsSound (now, prune_op) s h = record {
    nonces = nonce_step-Fits s.store.max_entries (now, prunes) s.store.nonces tt h.nonces;
    redemptions = h.redemptions;
    ip = h.ip;
    preauth = h.preauth;
    by_address = h.by_address;
  }
  apply-IsSound (now, sweep_op) s h = record {
    ip = sweep-Fits now s.rates.max_keys s.rates.ip h.ip;
    preauth = sweep-Fits now s.rates.max_keys s.rates.preauth h.preauth;
    by_address = sweep-Fits now s.rates.max_keys s.rates.address h.by_address;
    nonces = h.nonces;
    redemptions = h.redemptions;
  }

  unfoldable pub apply_all : List (ℕ × Op) → MemoryState → MemoryState
  apply_all [] s = s
  apply_all (c ∷ cs) s = apply_all cs (apply c s)

  apply_all-keeps : (cs : List (ℕ × Op)) (s : MemoryState) → IsSound s → IsSound (apply_all cs s)
  unfolding apply_all
  apply_all-keeps [] s h = h
  apply_all-keeps (c ∷ cs) s h = apply_all-keeps cs (apply c s) (apply-IsSound c s h)

  -- Every state that calls can reach from a fresh one is sound: no table has a key twice, the nonces
  -- stay within their cap and each rate table within its own.
  pub apply_all-IsSound :
      (ttl max_entries : ℕ) (budgets : RateBudgets) (cs : List (ℕ × Op))
      → IsSound (apply_all cs (new_state ttl max_entries budgets))
  apply_all-IsSound ttl max_entries budgets cs =
      apply_all-keeps cs (new_state ttl max_entries budgets)
        (new_state-IsSound ttl max_entries budgets)
