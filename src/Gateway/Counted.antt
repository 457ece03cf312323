-- ===== src/Gateway/Counted.antt =====
-- How often a request is forwarded: the ports with a counter of forwards beside the world.
use nft_gate.Base.{suc, ◌≡◌, refl, ◌⊎◌, inl, inr, Option, none, some, ℕ, arith, Option-cases}
use nft_gate.Text.{Text}
use nft_gate.External.{Crates}
use nft_gate.Config.{GatewayConfig}
use nft_gate.State.{RateScope, gated_preauth, address}
use nft_gate.Headers.{extract_proof_token}
use nft_gate.Decision.{
  Denied, Verified, verify_params, verify_access_request, authenticate, verify_consume,
  verify_ownership,
}
use nft_gate.Proof.{AccessProof}
use nft_gate.Sig.{normalize_address}
use nft_gate.Ports.{Ports, Exit, stop, pass, Run}
use nft_gate.Gateway.{
  RequestHead, JsonReply, Reply, json, upstream, charge, issue_challenge, serve_public,
  redeem_and_forward, verify, serve_gated, handle, forward_as, spend,
}

-- The call leaves the counter alone.
abbrev pub quiet : {W A : Type 0} → (W → A × W) → W × ℕ → A × (W × ℕ)
quiet call (w, n) = ((call w).0, ((call w).1, n))

abbrev pub counted : {W Resp : Type 0} → Ports W Resp → Ports (W × ℕ) Resp
counted p = record {
  issue_nonce = quiet p.issue_nonce;
  take_nonce = λ nonce. quiet (p.take_nonce nonce);
  rate_check = λ scope key. quiet (p.rate_check scope key);
  try_lease_redemption = λ key ttl. quiet (p.try_lease_redemption key ttl);
  commit_redemption = λ key token retention. quiet (p.commit_redemption key token retention);
  release_redemption = λ key token s. (p.release_redemption key token s.0, s.1);
  owns_nft = λ a t g. quiet (p.owns_nft a t g);
  consume_tx_valid = λ d a t g age. quiet (p.consume_tx_valid d a t g age);
  gate_access_blocked = λ g. quiet (p.gate_access_blocked g);
  forward = λ kind s. ((p.forward kind s.0).0, ((p.forward kind s.0).1, suc s.1));
  status = p.status;
}

module _ {W Resp : Type 0} (crates : Crates) (ports : Ports W Resp) (cfg : GatewayConfig) where
  -- The run makes no forward.
  abbrev Silent : {E A : Type 0} → Run (W × ℕ) E A → Type 0
  Silent m = (s : W × ℕ) → (m s).1.1 ≡ s.1

  authenticate-Silent :
      (token : Text) → Silent (authenticate crates (counted ports) (verify_params cfg) token)
  unfolding authenticate
  authenticate-Silent token s = ground arith

  verify_consume-Silent :
      (a : Text) (d : Option Text)
      → Silent (verify_consume crates (counted ports) (verify_params cfg) a d)
  unfolding verify_consume
  verify_consume-Silent a d s = ground arith

  verify_ownership-Silent :
      (a : Text) → Silent (verify_ownership crates (counted ports) (verify_params cfg) a)
  unfolding verify_ownership
  verify_ownership-Silent a s = ground arith

  verify-Silent : (token : Text) → Silent (verify crates (counted ports) cfg token)
  unfolding verify verify_access_request
  verify-Silent token s =
      go (authenticate crates (counted ports) (verify_params cfg) token s) refl
        (authenticate-Silent token s)
    where
      go :
          (r : Exit Denied AccessProof × (W × ℕ))
          → authenticate crates (counted ports) (verify_params cfg) token s ≡ r
          → (authenticate crates (counted ports) (verify_params cfg) token s).1.1 ≡ s.1
          → (verify crates (counted ports) cfg token s).1.1 ≡ s.1
      go (stop d, s₁) x same = ground arith
      go (pass p, (w₁, n)) x same =
          let a = normalize_address crates p.address in
          let w₂ = (ports.take_nonce p.nonce w₁).1 in
          let s₃ : W × ℕ = ((ports.gate_access_blocked cfg.gate_id w₂).1, n) in
          ground (
            arith,
            x,
            same,
            verify_consume-Silent a p.consume_digest s₃,
            verify_ownership-Silent a s₃,
          )

  -- What a route may have done to the counter.
  abbrev pub Counts : ℕ → Exit JsonReply Resp × (W × ℕ) → Type 0
  Counts n (stop j, (w, m)) = (m ≡ n) ⊎ ((j.status ≡ 502) × (m ≡ suc n))
  Counts n (pass resp, (w, m)) = m ≡ suc n

  abbrev pub Forwards : ℕ → Reply Resp × (W × ℕ) → Type 0
  Forwards n (json j, (w, m)) = (m ≡ n) ⊎ ((j.status ≡ 502) × (m ≡ suc n))
  Forwards n (upstream resp, (w, m)) = m ≡ suc n

  redeem-Counts :
      (key : Text) (w : W) (n : ℕ)
      → Counts n (redeem_and_forward crates (counted ports) cfg key (w, n))
  unfolding redeem_and_forward
  redeem-Counts key w n = ground arith

  spend-Counts :
      (k : Option Text) (w : W) (n : ℕ) → Counts n (spend crates (counted ports) cfg k (w, n))
  unfolding forward_as
  spend-Counts none w n = ground arith
  spend-Counts (some key) w n = redeem-Counts key w n

  charge-Silent :
      (scope : RateScope) (key : Text) → Silent (charge crates (counted ports) cfg scope key)
  unfolding charge
  charge-Silent scope key s = ground arith

  serve_gated-Counts :
      (head : RequestHead) (w : W) (n : ℕ)
      → Counts n (serve_gated crates (counted ports) cfg head (w, n))
  unfolding serve_gated
  serve_gated-Counts head w n =
      elim (Option-cases (extract_proof_token head.authorization head.x_access_proof)) [
        | inl e ↦ ground arith
        | inr (token, e) ↦
            let s₁ : W × ℕ = ((ports.rate_check gated_preauth head.client_ip w).1, n) in
            go token e (verify crates (counted ports) cfg token s₁) refl (verify-Silent token s₁)
      ]
    where
      go :
          (token : Text)
          → extract_proof_token head.authorization head.x_access_proof ≡ some token
          → let s₁ : W × ℕ = ((ports.rate_check gated_preauth head.client_ip w).1, n) in
            (r : Exit JsonReply Verified × (W × ℕ))
            → verify crates (counted ports) cfg token s₁ ≡ r
            → (verify crates (counted ports) cfg token s₁).1.1 ≡ n
            → Counts n (serve_gated crates (counted ports) cfg head (w, n))
      go token e (stop j, s₂) x same = ground (arith, x, same)
      go token e (pass v, (w₂, m)) x same = ground (
        arith,
        x,
        same,
        spend-Counts v.redemption_key (ports.rate_check address v.address w₂).1 m,
      )

  -- A request is forwarded at most once. One that the upstream answers was forwarded exactly once,
  -- and one that the gateway answers itself was not forwarded, unless the answer is a 502.
  pub handle-Forwards :
      (head : RequestHead) (w : W) (n : ℕ)
      → Forwards n (handle crates (counted ports) cfg head (w, n))
  unfolding handle issue_challenge serve_public
  handle-Forwards head w n = ground (arith, serve_gated-Counts head w n)
