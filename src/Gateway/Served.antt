-- ===== src/Gateway/Served.antt =====
-- When a request is answered by the upstream: the calls that the gateway made, in order.
use nft_gate.Base.{
  ◌≡◌, refl, ◌⊎◌, inl, inr, true, false, ◌||◌, Option, none, some, arith, Bool-cases, Option-cases,
}
use nft_gate.Text.{Text, codes, text_eq}
use nft_gate.External.{Crates}
use nft_gate.Config.{GatewayConfig, is_public_path}
use nft_gate.State.{RateScope, challenge, gated_preauth, address}
use nft_gate.State
use nft_gate.Redemption.Leases.{Lease, Commit, leased, redeemed}
use nft_gate.Headers.{via_is_looped, extract_proof_token}
use nft_gate.Forward.{is_forwarded_method}
use nft_gate.Decision.{Denied, Verified, verify_params, verify_access_request}
use nft_gate.Decision.Allowed.{IsAllowed, verify_access_request-IsAllowed}
use nft_gate.Ports.{Result, ForwardKind, Ports, Exit, stop, pass}
use nft_gate.Gateway.{
  RequestHead, JsonReply, upstream, or_empty, is_success, charge, issue_challenge, serve_public,
  forward_leased, redeem_and_forward, verify, serve_gated, route, handle, forward_as, spend,
}

module _ {W Resp : Type 0} (crates : Crates) (ports : Ports W Resp) (cfg : GatewayConfig) where
  -- One lease, one forward, then the commit of a success or the release of a failure.
  pub record IsRedeemed (key : Text) (resp : Resp) (w w' : W) : Type 0 where
    pub token : Text
    pub w₁ : W
    pub claimed :
        ports.try_lease_redemption key cfg.redemption_lease_ttl_secs w
        ≡ (Result.ok (Lease.ok token), w₁)
    pub w₂ : W
    pub forwarded : ports.forward ForwardKind.gated w₁ ≡ (resp, w₂)
    pub settled :
        ((is_success (ports.status resp) ≡ true)
          × (ports.commit_redemption key token cfg.redemption_retention_secs w₂
              ≡ (Result.ok Commit.ok, w')))
        ⊎ ((is_success (ports.status resp) ≡ false) × (w' ≡ ports.release_redemption key token w₂))

  abbrev pub Spends : Option Text → Resp → W → W → Type 0
  Spends none resp w w' = ports.forward ForwardKind.gated w ≡ (resp, w')
  Spends (some key) resp w w' = IsRedeemed key resp w w'

  pub record IsGated (head : RequestHead) (resp : Resp) (w w' : W) : Type 0 where
    pub method : is_forwarded_method head.method ≡ true
    pub token : Text
    pub found : extract_proof_token head.authorization head.x_access_proof ≡ some token
    pub w₁ : W
    pub preauth : ports.rate_check gated_preauth head.client_ip w ≡ (Result.ok true, w₁)
    pub verified : Verified
    pub w₂ : W
    pub allowed : IsAllowed crates ports (verify_params cfg) token verified w₁ w₂
    pub w₃ : W
    pub charged : ports.rate_check address verified.address w₂ ≡ (Result.ok true, w₃)
    pub spends : Spends verified.redemption_key resp w₃ w'

  pub record IsPublic (head : RequestHead) (resp : Resp) (w w' : W) : Type 0 where
    pub listed : is_public_path cfg head.path ≡ true
    pub method : (text_eq head.method (codes "GET") || text_eq head.method (codes "HEAD")) ≡ true
    pub w₁ : W
    pub charged : ports.rate_check State.public head.client_ip w ≡ (Result.ok true, w₁)
    pub forwarded : ports.forward ForwardKind.public w₁ ≡ (resp, w')

  at_call :
      {A : Type 0} (call : W → A × W) (w : W) (a : A) → (call w).0 ≡ a → call w ≡ (a, (call w).1)
  at_call call w a h = λ i. (h i, (call w).1)

  charge-eq-pass :
      (scope : RateScope) (key : Text) (w : W) {w' : W}
      → charge crates ports cfg scope key w ≡ (pass tt, w')
      → ports.rate_check scope key w ≡ (Result.ok true, w')
  unfolding charge
  charge-eq-pass scope key w h =
      let within : (ports.rate_check scope key w).0 ≡ Result.ok true = ground arith in
      ground (arith, at_call (ports.rate_check scope key) w (Result.ok true) within)

  verify-eq-pass :
      (token : Text) (w : W) {v : Verified} {w' : W}
      → verify crates ports cfg token w ≡ (pass v, w')
      → verify_access_request crates ports (verify_params cfg) token w ≡ (pass v, w')
  unfolding verify
  verify-eq-pass token w {v} h =
      let good : (verify_access_request crates ports (verify_params cfg) token w).0 ≡ pass v =
        ground arith in
      ground (
        arith,
        at_call (verify_access_request crates ports (verify_params cfg) token) w (pass v) good,
      )

  forward_leased-eq-pass :
      (key token : Text) (w : W) {resp : Resp} {w' : W}
      → forward_leased crates ports cfg key token w ≡ (pass resp, w')
      → (w₂ : W) × (ports.forward ForwardKind.gated w ≡ (resp, w₂))
        × (((is_success (ports.status resp) ≡ true)
              × (ports.commit_redemption key token cfg.redemption_retention_secs w₂
                  ≡ (Result.ok Commit.ok, w')))
            ⊎ ((is_success (ports.status resp) ≡ false)
                × (w' ≡ ports.release_redemption key token w₂)))
  unfolding forward_leased
  forward_leased-eq-pass key token w {resp} h =
      let r = ports.forward ForwardKind.gated w in
      let same : r.0 ≡ resp = ground arith in
      let made = at_call (ports.forward ForwardKind.gated) w resp same in
      elim (Bool-cases (is_success (ports.status r.0))) [
        | inl good ↦
            let call = ports.commit_redemption key token cfg.redemption_retention_secs in
            let done : (call r.1).0 ≡ Result.ok Commit.ok = ground arith in
            (
              r.1,
              made,
              inl (ground arith, ground (arith, at_call call r.1 (Result.ok Commit.ok) done)),
            )
        | inr bad ↦ (r.1, made, inr (ground arith, ground arith))
      ]

  pub redeem_and_forward-eq-pass :
      (key : Text) (w : W) {resp : Resp} {w' : W}
      → redeem_and_forward crates ports cfg key w ≡ (pass resp, w')
      → IsRedeemed key resp w w'
  unfolding redeem_and_forward
  redeem_and_forward-eq-pass key w {resp} {w'} h =
      go (ports.try_lease_redemption key cfg.redemption_lease_ttl_secs w) refl
    where
      go :
          (r : Result Lease × W)
          → ports.try_lease_redemption key cfg.redemption_lease_ttl_secs w ≡ r
          → IsRedeemed key resp w w'
      go (Result.err e, w₁) x = absurd (ground arith)
      go (Result.ok redeemed, w₁) x = absurd (ground arith)
      go (Result.ok leased, w₁) x = absurd (ground arith)
      go (Result.ok (Lease.ok token), w₁) x =
          let (w₂, forwarded, settled) = forward_leased-eq-pass key token w₁ (ground arith) in
          record {
            token = token;
            w₁ = w₁;
            claimed = x;
            w₂ = w₂;
            forwarded = forwarded;
            settled = settled;
          }

  serve_public-eq-pass :
      (head : RequestHead) (w : W) {resp : Resp} {w' : W}
      → is_public_path cfg head.path ≡ true
      → serve_public crates ports cfg head w ≡ (pass resp, w')
      → IsPublic head resp w w'
  unfolding serve_public
  serve_public-eq-pass head w {resp} {w'} listed h =
      let rate = ports.rate_check State.public head.client_ip in
      let within : (rate w).0 ≡ Result.ok true = ground arith in
      let send = ports.forward ForwardKind.public in
      let same : (send (rate w).1).0 ≡ resp = ground arith in
      record {
        listed = listed;
        method = ground arith;
        w₁ = (rate w).1;
        charged = at_call rate w (Result.ok true) within;
        forwarded = ground (arith, at_call send (rate w).1 resp same);
      }

  spend-eq-pass :
      (k : Option Text) (w : W) {resp : Resp} {w' : W}
      → spend crates ports cfg k w ≡ (pass resp, w')
      → Spends k resp w w'
  unfolding forward_as
  spend-eq-pass none w {resp} h =
      let send = ports.forward ForwardKind.gated in
      let same : (send w).0 ≡ resp = ground arith in ground (arith, at_call send w resp same)
  spend-eq-pass (some key) w h = redeem_and_forward-eq-pass key w h

  serve_gated-eq-pass :
      (head : RequestHead) (w : W) {resp : Resp} {w' : W}
      → serve_gated crates ports cfg head w ≡ (pass resp, w')
      → IsGated head resp w w'
  unfolding serve_gated
  serve_gated-eq-pass head w {resp} {w'} h =
      elim (Option-cases (extract_proof_token head.authorization head.x_access_proof)) [
        | inl e ↦ absurd (ground arith)
        | inr (token, e) ↦
            let rate = ports.rate_check gated_preauth head.client_ip in
            let within : (rate w).0 ≡ Result.ok true = ground arith in
            let w₁ = (rate w).1 in
            let decide = verify_access_request crates ports (verify_params cfg) token in
            go token e (rate w).1 (at_call rate w (Result.ok true) within) (decide w₁) refl
      ]
    where
      go :
          (token : Text)
          → extract_proof_token head.authorization head.x_access_proof ≡ some token
          → (w₁ : W) → ports.rate_check gated_preauth head.client_ip w ≡ (Result.ok true, w₁)
          → (r : Exit Denied Verified × W)
          → verify_access_request crates ports (verify_params cfg) token w₁ ≡ r
          → IsGated head resp w w'
      go token e w₁ p (stop d, w₂) x = absurd (ground arith)
      go token e w₁ p (pass v, w₂) x =
          let meter = ports.rate_check address v.address in
          let within : (meter w₂).0 ≡ Result.ok true = ground arith in
          record {
            method = ground arith;
            token = token;
            found = e;
            w₁ = w₁;
            preauth = p;
            verified = v;
            w₂ = w₂;
            allowed =
                verify_access_request-IsAllowed crates ports (verify_params cfg) token w₁ v w₂ x;
            w₃ = (meter w₂).1;
            charged = at_call meter w₂ (Result.ok true) within;
            spends = spend-eq-pass v.redemption_key (meter w₂).1 (ground arith);
          }

  -- The upstream answers a request only if it has not looped, and then either as a public one (a
  -- listed path, read-only, within the client's budget) or as a gated one: within the client's
  -- budget, allowed by the decision, within the address's budget, and in single-use mode under a
  -- lease that is committed on success and released otherwise. The worlds thread the calls in this
  -- order, with no other call between them.
  pub handle-upstream :
      (head : RequestHead) (w : W) (resp : Resp) (w' : W)
      → handle crates ports cfg head w ≡ (upstream resp, w')
      → (via_is_looped (or_empty head.via) ≡ false)
        × (IsPublic head resp w w' ⊎ IsGated head resp w w')
  unfolding handle issue_challenge
  handle-upstream head w resp w' h = go (route crates ports cfg head w) refl
    where
      go :
          (r : Exit JsonReply Resp × W)
          → route crates ports cfg head w ≡ r
          → (via_is_looped (or_empty head.via) ≡ false)
            × (IsPublic head resp w w' ⊎ IsGated head resp w w')
      go (stop j, w₁) x = absurd (ground arith)
      go (pass a, w₁) x = elim (Bool-cases (is_public_path cfg head.path)) [
        | inl listed ↦ (ground arith, inl (serve_public-eq-pass head w listed (ground arith)))
        | inr other ↦ (ground arith, inr (serve_gated-eq-pass head w (ground arith)))
      ]
