-- ===== src/Worker/Store.antt =====
-- worker/src/state.rs: `StateStore` over the Durable Objects of the shards. The platform carries a query to
-- the object and its JSON back; a call may fail before or after the object ran it, and before each call
-- the objects may change in any way.
pub mod Routed
pub mod Once
use nft_gate.Base.{
  ℕ, suc, ◌+◌, ◌-◌, ◌/◌, ◌%◌, Bool, true, false, Option, none, some, List, [], ◌∷◌, ◌++◌,
  if◌then◌else◌, ltb,
}
use nft_gate.Text.{Text, codes, text_eq}
use nft_gate.Ports.{Result}
use nft_gate.Redemption.Leases.{Lease, Commit}
use nft_gate.Redemption.Leases
use nft_gate.State.{RateScope, challenge, public, gated_preauth, address}
use nft_gate.Worker.Region.{redeem_shard, shard_of_nonce, instance_name, issued_nonce, rate_key}
use nft_gate.Worker.Numbers.{to_string}
use nft_gate.Worker.Durable.{Sql}
use nft_gate.Worker.Dispatch.{
  Tables, Json, expires_at, ok_is, status_is, result_is, Chance, Query, dispatch,
}

pub record Budgets : Type 0 where
  pub challenge : ℕ
  pub public : ℕ
  pub gated_preauth : ℕ
  pub address : ℕ

pub record DoState : Type 0 where
  pub region : Text
  pub challenge_ttl_secs : ℕ
  pub max_entries : ℕ
  pub budgets : Budgets

-- A call that failed: whether the object ran it before, and the error.
pub record Failure : Type 0 where
  pub executed : Bool
  pub error : Text

abbrev pub Objects : Type 0
Objects = Text → Tables

pub record Turn : Type 0 where
  pub meanwhile : Objects → Objects
  pub chance : Chance
  -- The 24 bytes, if there is entropy
  pub random : Option (List ℕ)
  pub failure : Option Failure

pub record World : Type 0 where
  pub objects : Objects
  pub calls : ℕ

abbrev hex_digit : ℕ → ℕ
hex_digit n = if ltb n 10 then b'0' + n else b'a' + (n - 10)

unfoldable pub hex : List ℕ → Text
hex [] = []
hex (b ∷ bs) = hex_digit (b / 16) ∷ hex_digit (b % 16) ∷ hex bs

abbrev pub put : Text → Tables → Objects → Objects
put name t o other = if text_eq name other then t else o other

-- What the call makes of the answer of the object
abbrev pub delivered : Option Failure → Option Json → Result Json
delivered (some f) answer = Result.err f.error
delivered none none = Result.err (codes "HTTP 500")
delivered none (some json) = Result.ok json

abbrev pub ran : Option Failure → Bool
ran none = true
ran (some f) = f.executed

abbrev bad_body : {A : Type 0} → Result A
bad_body = Result.err (codes "unexpected answer")

abbrev pub issued : Text → Result Json → Result (Text × ℕ)
issued nonce (Result.ok (expires_at e)) = Result.ok (nonce, e)
issued nonce (Result.ok other) = bad_body
issued nonce (Result.err e) = Result.err e

abbrev pub ok_field : Result Json → Result Bool
ok_field (Result.ok (ok_is b)) = Result.ok b
ok_field (Result.ok other) = bad_body
ok_field (Result.err e) = Result.err e

abbrev pub status_lease : Text → Option Text → Result Lease
status_lease status token = elim token [
  | some t ↦
      if text_eq status (codes "ok")
      then Result.ok (Lease.ok t)
      else if text_eq status (codes "leased")
      then Result.ok Lease.leased
      else if text_eq status (codes "redeemed")
      then Result.ok Lease.redeemed
      else bad_body
  | none ↦
      if text_eq status (codes "leased")
      then Result.ok Lease.leased
      else if text_eq status (codes "redeemed")
      then Result.ok Lease.redeemed
      else bad_body
]

abbrev pub lease_field : Result Json → Result Lease
lease_field (Result.ok (status_is status token)) = status_lease status token
lease_field (Result.ok other) = bad_body
lease_field (Result.err e) = Result.err e

abbrev pub commit_field : Result Json → Result Commit
commit_field (Result.ok (result_is r)) =
    if text_eq r (codes "ok")
    then Result.ok Commit.ok
    else if text_eq r (codes "lost")
    then Result.ok Commit.lost
    else bad_body
commit_field (Result.ok other) = bad_body
commit_field (Result.err e) = Result.err e

module _ (sql : Sql) (turn : ℕ → Turn) (state : DoState) where
  -- The objects when the next call comes to them.
  abbrev pub objects_of : World → Objects
  objects_of w = (turn w.calls).meanwhile w.objects

  unfoldable pub call : Text → Text → Query → World → Result Json × World
  call shard op params w =
      let t = turn w.calls in
      let name = instance_name shard in
      let done = dispatch sql op params t.chance (objects_of w name) in
      (
        delivered t.failure done.0,
        record {
          objects = if ran t.failure then put name done.1 (objects_of w) else objects_of w;
          calls = suc w.calls;
        },
      )

  abbrev budget : RateScope → ℕ
  budget challenge = state.budgets.challenge
  budget public = state.budgets.public
  budget gated_preauth = state.budgets.gated_preauth
  budget address = state.budgets.address

  unfoldable pub issue_nonce : World → Result (Text × ℕ) × World
  issue_nonce w = elim (turn w.calls).random [
    | none ↦ (Result.err (codes "entropy unavailable"), w)
    | some bytes ↦
        let nonce = issued_nonce state.region (hex bytes) in
        let done =
          call state.region (codes "issue")
            ((codes "nonce", nonce)
              ∷ (codes "ttl", to_string state.challenge_ttl_secs)
              ∷ (codes "max", to_string state.max_entries)
              ∷ [])
            w in
        (issued nonce done.0, done.1)
  ]

  unfoldable pub take_nonce : Text → World → Result Bool × World
  take_nonce nonce w = elim (shard_of_nonce nonce) [
    | none ↦ (Result.ok false, w)
    | some shard ↦
        let done = call shard (codes "take") ((codes "nonce", nonce) ∷ []) w in
        (ok_field done.0, done.1)
  ]

  unfoldable pub rate_check : RateScope → Text → World → Result Bool × World
  rate_check scope key w =
      let done =
        call state.region (codes "rate")
          ((codes "addr", rate_key scope key) ∷ (codes "max", to_string (budget scope)) ∷ []) w in
      (ok_field done.0, done.1)

  unfoldable pub try_lease_redemption : Text → ℕ → World → Result Lease × World
  try_lease_redemption key lease_ttl_secs w =
      let done =
        call redeem_shard (codes "lease")
          ((codes "key", key)
            ∷ (codes "ttl", to_string lease_ttl_secs)
            ∷ (codes "max", to_string state.max_entries)
            ∷ [])
          w in
      (lease_field done.0, done.1)

  unfoldable pub commit_redemption : Text → Text → ℕ → World → Result Commit × World
  commit_redemption key token retention_secs w =
      let done =
        call redeem_shard (codes "commit")
          ((codes "key", key)
            ∷ (codes "token", token)
            ∷ (codes "retention", to_string retention_secs)
            ∷ [])
          w in
      (commit_field done.0, done.1)

  -- A failure is logged only.
  unfoldable pub release_redemption : Text → Text → World → World
  release_redemption key token w =
      (call redeem_shard (codes "release") ((codes "key", key) ∷ (codes "token", token) ∷ []) w).1
