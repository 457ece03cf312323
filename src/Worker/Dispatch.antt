-- ===== src/Worker/Dispatch.antt =====
-- `dispatch` of worker/src/do_state.rs: one call of the Durable Object, by its query. The test hooks are left
-- out, and so is a number with a minus sign, which the worker never sends.
use nft_gate.Base.{ℕ, Bool, true, Option, none, some, List, if◌then◌else◌}
use nft_gate.Text.{Text, codes, text_eq}
use nft_gate.Assoc.{lookup}
use nft_gate.Redemption.Rates.{RateTable}
use nft_gate.Worker.Numbers.{parse_i64}
use nft_gate.Worker.Durable.{Sql, Redemptions, LeaseOutcome, lease, commit, release}
use nft_gate.Worker.Durable.Limits.{Nonces, issue, take_if_valid, rate_check}

pub record Tables : Type 0 where
  pub nonces : Nonces
  pub rates : RateTable
  pub redemptions : Redemptions

-- The JSON of the answers, by their fields
pub data Json : Type 0 where
  expires_at : ℕ → Json
  ok_is : Bool → Json
  status_is : Text → Option Text → Json
  result_is : Text → Json

-- What a call meets: the platform's clock, the random owner token, and the draw that sweeps.
pub record Chance : Type 0 where
  pub now : ℕ
  pub token : Text
  pub sweep : Bool

abbrev pub Query : Type 0
Query = List (Text × Text)

unfoldable pub get : Query → Text → Text
get q k = elim (lookup k q) [ none ↦ codes "" | some v ↦ v ]

unfoldable pub int_of : Query → Text → ℕ → ℕ
int_of q k d = elim (lookup k q) [
  | none ↦ d
  | some v ↦ elim (parse_i64 v) [ none ↦ d | some n ↦ n ]
]

abbrev pub lease_json : LeaseOutcome → Json
lease_json (LeaseOutcome.ok t) = status_is (codes "ok") (some t)
lease_json LeaseOutcome.leased = status_is (codes "leased") none
lease_json LeaseOutcome.redeemed = status_is (codes "redeemed") none

abbrev with_nonces : {A : Type 0} → (A → Json) → A × Nonces → Tables → Option Json × Tables
with_nonces json done t = (some (json done.0), record t { nonces = done.1 })

abbrev with_rates : {A : Type 0} → (A → Json) → A × RateTable → Tables → Option Json × Tables
with_rates json done t = (some (json done.0), record t { rates = done.1 })

abbrev with_redemptions :
    {A : Type 0} → (A → Json) → A × Redemptions → Tables → Option Json × Tables
with_redemptions json done t = (some (json done.0), record t { redemptions = done.1 })

-- `none` is the error of an operation that is not known.
unfoldable pub dispatch : Sql → Text → Query → Chance → Tables → Option Json × Tables
dispatch sql op q chance t =
    if text_eq op (codes "issue")
    then with_nonces expires_at
        (issue (get q (codes "nonce")) chance.now (int_of q (codes "ttl") 300)
          (int_of q (codes "max") 1_000_000) t.nonces)
        t
    else if text_eq op (codes "take")
    then with_nonces ok_is (take_if_valid (get q (codes "nonce")) chance.now t.nonces) t
    else if text_eq op (codes "rate")
    then with_rates ok_is
        (rate_check chance.sweep (get q (codes "addr")) (int_of q (codes "max") 30) chance.now
          t.rates)
        t
    else if text_eq op (codes "lease")
    then with_redemptions lease_json
        (lease sql (get q (codes "key")) chance.now (int_of q (codes "ttl") 900)
          (int_of q (codes "max") 1_000_000) chance.token t.redemptions)
        t
    else if text_eq op (codes "commit")
    then with_redemptions (λ b. result_is (if b then codes "ok" else codes "lost"))
        (commit (get q (codes "key")) (get q (codes "token")) chance.now
          (int_of q (codes "retention") 2_592_000) t.redemptions)
        t
    else if text_eq op (codes "release")
    then (
      some (ok_is true),
      record t {
        redemptions = release (get q (codes "key")) (get q (codes "token")) t.redemptions;
      },
    )
    else (none, t)
