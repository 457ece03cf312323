-- ===== src/Chain/Client/Polls.antt =====
-- The polling of `consume_tx_valid` for a transaction that the node may not know yet.
use nft_gate.Base.{
  ℕ, zero, suc, ◌-◌, ◌≤◌, ◌<◌, ◌≡◌, refl, ◌∙◌, inl, inr, true, Option, none, some, arith,
  Bool-cases,
}
use nft_gate.Text.{Text}
use nft_gate.External.{Crates}
use nft_gate.Ports.{Exit, stop, pass, Run}
use nft_gate.Ports.Laws.{Run-cases, passed_with}
use nft_gate.Chain.Client.Reach.{Reaches, here, slept, called}
use nft_gate.Grpc.{Transport, call}
use nft_gate.Grpc.Wire.{Bytes}
use nft_gate.Grpc.Frames.{Fault}
use nft_gate.Chain.{
  build_get_transaction, ledger_get_transaction, tx_fetch_attempts, tx_fetch_retry_ms,
}
use nft_gate.Chain.Responses.{response_has_consume}
use nft_gate.Chain.Client.{Cache, Settings, is_not_found, fetch_tx, consume_tx_valid}

passed_some :
    {S : Type 0} {r resp : Bytes} {s s' : S}
    → ◌≡◌ {A = Exit Fault (Option Bytes) × S} (pass (some r), s) (pass (some resp), s')
    → ◌≡◌ {A = Exit Fault Bytes × S} (pass r, s) (pass resp, s')
passed_some h = cc

module _ (crates : Crates) {W : Type 0} (transport : Transport (Cache × W)) (rpc : Settings) where
  abbrev ask_for : Text → Run (Cache × W) Fault Bytes
  ask_for digest = call transport rpc.base_url ledger_get_transaction (build_get_transaction digest)

  -- The node answers after so many times that it does not know the transaction.
  abbrev pub FoundAfter : ℕ → Text → Cache × W → Bytes → Cache × W → Type 0
  FoundAfter zero digest s resp s' = ask_for digest s ≡ (pass resp, s')
  FoundAfter (suc n) digest s resp s' =
      (e : Fault) × (s₁ : Cache × W) × (ask_for digest s ≡ (stop e, s₁))
      × (is_not_found e ≡ true)
      × FoundAfter n digest (transport.sleep_ms tx_fetch_retry_ms s₁) resp s'

  fetch_tx-FoundAfter :
      (left n : ℕ) (digest : Text) (s s' : Cache × W) (resp : Bytes)
      → n ≤ left
      → FoundAfter n digest s resp s'
      → fetch_tx crates transport rpc left digest s ≡ (pass (some resp), s')
  unfolding fetch_tx
  fetch_tx-FoundAfter zero zero digest s s' resp h f = rw f refl
  fetch_tx-FoundAfter (suc left) zero digest s s' resp h f = rw f refl
  fetch_tx-FoundAfter zero (suc n) digest s s' resp h f = absurd (omega arith)
  fetch_tx-FoundAfter (suc left) (suc n) digest s s' resp h (e, s₁, a, k, f) =
      rw (a, k) (fetch_tx-FoundAfter left n digest _ s' resp (omega arith) f)

  -- If the node does not know the transaction at fewer than four requests and then answers with
  -- a message, consume_tx_valid gives the verdict of response_has_consume on that message.
  pub consume_tx_valid-FoundAfter :
      (n : ℕ) (digest address consumed_type : Text) (g : Option Text) (max_age : ℕ)
      (s s' : Cache × W) (resp : Bytes)
      → n < tx_fetch_attempts
      → FoundAfter n digest s resp s'
      → consume_tx_valid crates transport rpc digest address consumed_type g max_age s ≡ (
        pass (
            response_has_consume crates resp address consumed_type g
              (transport.now_ms s').0
              max_age),
        (transport.now_ms s').1,
      )
  unfolding consume_tx_valid
  consume_tx_valid-FoundAfter n digest address ct g age s s' resp h f =
      rw (fetch_tx-FoundAfter (tx_fetch_attempts - 1) n digest s s' resp (omega arith) f) refl

  fetch_tx-some :
      (left : ℕ) (digest : Text) (s₀ s s' : Cache × W) (resp : Bytes)
      → Reaches transport rpc s₀ s
      → fetch_tx crates transport rpc left digest s ≡ (pass (some resp), s')
      → (s₁ : Cache × W) × Reaches transport rpc s₀ s₁ × (ask_for digest s₁ ≡ (pass resp, s'))
  unfolding fetch_tx
  fetch_tx-some zero digest s₀ s s' resp x h = elim (Run-cases (ask_for digest s)) [
    | inr (r, s₁, q) ↦ (s, x, q ∙ passed_some (rw (fetch_tx, q) at h))
    | inl (e, s₁, q) ↦ elim (Bool-cases (is_not_found e)) [
      | inl k ↦ let h' = rw (fetch_tx, q, k) at h in absurd (cc)
      | inr k ↦ let h' = rw (fetch_tx, q, k) at h in absurd (cc)
    ]
  ]
  fetch_tx-some (suc left) digest s₀ s s' resp x h = elim (Run-cases (ask_for digest s)) [
    | inr (r, s₁, q) ↦ (s, x, q ∙ passed_some (rw (fetch_tx, q) at h))
    | inl (e, s₁, q) ↦ elim (Bool-cases (is_not_found e)) [
      | inl k ↦
          fetch_tx-some left digest s₀ _ s' resp (slept tx_fetch_retry_ms (called _ _ x q))
            (rw (fetch_tx, q, k) at h)
      | inr k ↦ let h' = rw (fetch_tx, q, k) at h in absurd (cc)
    ]
  ]

  -- consume_tx_valid accepts a consume only if, in a state that this run went through, the node
  -- answered the request for the digest with a message in which response_has_consume sees the
  -- consume by the clock as it is read after that answer.
  pub consume_tx_valid-true :
      (digest address consumed_type : Text) (g : Option Text) (max_age : ℕ) (s s' : Cache × W)
      → consume_tx_valid crates transport rpc digest address consumed_type g max_age s
        ≡ (pass true, s')
      → (resp : Bytes) × (s₁ : Cache × W) × (s₂ : Cache × W) × Reaches transport rpc s s₁
        × (ask_for digest s₁ ≡ (pass resp, s₂))
        × (response_has_consume crates resp address consumed_type g (transport.now_ms s₂).0 max_age
            ≡ true)
  unfolding consume_tx_valid
  consume_tx_valid-true digest address ct g age s s' h =
      elim (Run-cases (fetch_tx crates transport rpc (tx_fetch_attempts - 1) digest s)) [
        | inl (e, s₁, q) ↦ let h' = rw (consume_tx_valid, q) at h in absurd (cc)
        | inr (none, s₂, q) ↦ let h' = rw (consume_tx_valid, q) at h in absurd (cc)
        | inr (some resp, s₂, q) ↦
            let (s₁, x, a) = fetch_tx-some (tx_fetch_attempts - 1) digest s s s₂ resp here q in
            (resp, s₁, s₂, x, a, passed_with (rw (consume_tx_valid, q) at h))
      ]
