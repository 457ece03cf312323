-- ===== src/State.antt =====
-- core/src/state.rs: the in-memory state store. The clock's reading and the random bytes of a call
-- are its arguments; a method takes the store and returns the new one beside its result. Each method
-- holds the table's lock for the one call of the table.
pub mod Invariant
use nft_gate.Base.{ℕ, ◌+◌, max, Bool, List, [], length}
use nft_gate.Text.{Text}
use nft_gate.External.{Crates}
use nft_gate.Redemption.Leases.{RedemptionTable, Lease, Commit, try_lease, commit, release}
use nft_gate.Redemption.Nonces.{NonceTable, issue, take_if_valid}
use nft_gate.Redemption.Nonces
use nft_gate.Redemption.Rates.{RateTable, check_capped}
use nft_gate.Redemption.Rates

pub data RateScope : Type 0 where
  challenge public gated_preauth address : RateScope

pub record MemoryStore : Type 0 where
  pub challenge_ttl_secs : ℕ
  pub max_entries : ℕ
  pub nonces : NonceTable
  pub redemptions : RedemptionTable

unfoldable pub new_store : ℕ → ℕ → MemoryStore
new_store challenge_ttl_secs max_entries = record {
  challenge_ttl_secs = challenge_ttl_secs;
  max_entries = max max_entries 1;
  nonces = [];
  redemptions = [];
}

unfoldable pub take_nonce : ℕ → Text → MemoryStore → Bool × MemoryStore
take_nonce now nonce s =
    let r = take_if_valid nonce now s.nonces in (r.0, record s { nonces = r.1 })

module _ (crates : Crates) where
  -- `buf` is what the random source fills in.
  abbrev pub random_hex24 : List ℕ → Text
  random_hex24 buf = crates.hex_encode buf

  unfoldable pub issue_nonce : ℕ → List ℕ → MemoryStore → (Text × ℕ) × MemoryStore
  issue_nonce now buf s =
      let nonce = random_hex24 buf in
      let r = issue nonce now s.challenge_ttl_secs s.max_entries s.nonces in
      ((nonce, r.0), record s { nonces = r.1 })

  unfoldable pub try_lease_redemption : ℕ → List ℕ → Text → ℕ → MemoryStore → Lease × MemoryStore
  try_lease_redemption now buf key lease_ttl_secs s =
      let r = try_lease key now lease_ttl_secs s.max_entries (random_hex24 buf) s.redemptions in
      (r.0, record s { redemptions = r.1 })

unfoldable pub commit_redemption : ℕ → Text → Text → ℕ → MemoryStore → Commit × MemoryStore
commit_redemption now key token retention_secs s =
    let r = commit key token now retention_secs s.redemptions in
    (r.0, record s { redemptions = r.1 })

unfoldable pub release_redemption : Text → Text → MemoryStore → MemoryStore
release_redemption key token s = record s { redemptions = release key token s.redemptions }

unfoldable pub prune_nonces : ℕ → MemoryStore → MemoryStore
prune_nonces now s = record s { nonces = Nonces.prune now s.nonces }

abbrev pub nonce_count : MemoryStore → ℕ
nonce_count s = length s.nonces

pub record RateBudgets : Type 0 where
  pub ip : ℕ
  pub gated_preauth : ℕ
  pub address : ℕ

abbrev pub default_rate_max_keys : ℕ
default_rate_max_keys = 100_000

pub record MemoryRates : Type 0 where
  pub budgets : RateBudgets
  pub max_keys : ℕ
  pub ip : RateTable
  pub preauth : RateTable
  pub address : RateTable

unfoldable pub with_max_keys : RateBudgets → ℕ → MemoryRates
with_max_keys budgets max_keys = record {
  budgets = budgets;
  max_keys = max max_keys 1;
  ip = [];
  preauth = [];
  address = [];
}

unfoldable pub new_rates : RateBudgets → MemoryRates
unfolding with_max_keys
new_rates budgets = with_max_keys budgets default_rate_max_keys

charge_ip : ℕ → Text → MemoryRates → Bool × MemoryRates
charge_ip now key m =
    let r = check_capped key now m.budgets.ip m.max_keys m.ip in (r.0, record m { ip = r.1 })

unfoldable pub check : ℕ → RateScope → Text → MemoryRates → Bool × MemoryRates
unfolding charge_ip
check now challenge key m = charge_ip now key m
check now public key m = charge_ip now key m
check now gated_preauth key m =
    let r = check_capped key now m.budgets.gated_preauth m.max_keys m.preauth in
    (r.0, record m { preauth = r.1 })
check now address key m =
    let r = check_capped key now m.budgets.address m.max_keys m.address in
    (r.0, record m { address = r.1 })

unfoldable pub prune_rates : ℕ → MemoryRates → MemoryRates
prune_rates now m = record m {
  ip = Rates.prune now m.ip;
  preauth = Rates.prune now m.preauth;
  address = Rates.prune now m.address;
}

abbrev pub key_count : MemoryRates → ℕ
key_count m = length m.ip + length m.preauth + length m.address

pub record MemoryState : Type 0 where
  pub store : MemoryStore
  pub rates : MemoryRates

unfoldable pub new_state : ℕ → ℕ → RateBudgets → MemoryState
unfolding new_store new_rates
new_state challenge_ttl_secs max_entries budgets = record {
  store = new_store challenge_ttl_secs max_entries;
  rates = new_rates budgets;
}
