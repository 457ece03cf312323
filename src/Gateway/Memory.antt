-- ===== src/Gateway/Memory.antt =====
-- The gateway over the in-memory store (`MemoryState` of core/src/state.rs), shared with any number
-- of other requests. Time passes and others use the store between any two calls of a request: the
-- environment says, for each call, what came before it and what the outside answers.
use nft_gate.Base.{ℕ, suc, Bool, Option, List}
use nft_gate.Text.{Text}
use nft_gate.External.{Crates}
use nft_gate.State.{
  MemoryStore, MemoryState, issue_nonce, take_nonce, try_lease_redemption, commit_redemption,
  release_redemption, check,
}
use nft_gate.Redemption.Leases.History
use nft_gate.Redemption.Leases.History.{Call}
use nft_gate.Ports.{Result, ForwardKind, Ports}

-- What precedes a call: the redemption calls of other requests, then the clock's reading and the
-- random bytes that the call gets.
pub record Turn : Type 0 where
  pub others : List (ℕ × Call)
  pub now : ℕ
  pub random : List ℕ

-- The answers of the outside to the call with the given number.
pub record Environment (Resp : Type 0) : Type 0 where
  pub turn : ℕ → Turn
  pub owns : Text → Text → Option Text → ℕ → Result Bool
  pub consume : Text → Text → Text → Option Text → ℕ → ℕ → Result Bool
  pub blocked : Text → ℕ → Result Bool
  pub respond : ForwardKind → ℕ → Resp
  pub status : Resp → ℕ

pub record World : Type 0 where
  pub state : MemoryState
  pub calls : ℕ

module _ {Resp : Type 0} (crates : Crates) (env : Environment Resp) where
  -- The store when the next call comes to it.
  unfoldable pub store_of : World → MemoryStore
  store_of w =
      let s = w.state.store in
      record s { redemptions = History.run (env.turn w.calls).others s.redemptions }

  abbrev keep : World → MemoryStore → World
  keep w s = record { state = record (w.state) { store = s }; calls = suc w.calls }

  abbrev now_of : World → ℕ
  now_of w = (env.turn w.calls).now

  abbrev random_of : World → List ℕ
  random_of w = (env.turn w.calls).random

  abbrev on_store : {A : Type 0} → (MemoryStore → A × MemoryStore) → World → Result A × World
  on_store op w = let r = op (store_of w) in (Result.ok r.0, keep w r.1)

  abbrev outside : {A : Type 0} → (ℕ → A) → World → A × World
  outside answer w = (answer w.calls, keep w (store_of w))

  abbrev pub memory_ports : Ports World Resp
  memory_ports = record {
    issue_nonce = λ w. on_store (issue_nonce crates (now_of w) (random_of w)) w;
    take_nonce = λ nonce w. on_store (take_nonce (now_of w) nonce) w;
    rate_check = λ scope key w.
        let r = check (now_of w) scope key w.state.rates in
        (
          Result.ok r.0,
          record { state = record { store = store_of w; rates = r.1 }; calls = suc w.calls },
        );
    try_lease_redemption =
        λ key ttl w. on_store (try_lease_redemption crates (now_of w) (random_of w) key ttl) w;
    commit_redemption =
        λ key token retention w. on_store (commit_redemption (now_of w) key token retention) w;
    release_redemption = λ key token w. keep w (release_redemption key token (store_of w));
    owns_nft = λ a t g. outside (env.owns a t g);
    consume_tx_valid = λ d a t g age. outside (env.consume d a t g age);
    gate_access_blocked = λ g. outside (env.blocked g);
    forward = λ kind. outside (env.respond kind);
    status = env.status;
  }
