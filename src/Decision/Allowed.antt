-- ===== src/Decision/Allowed.antt =====
-- When the decision allows a request: the calls it must have made, in order, and their answers.
use nft_gate.Base.{
  ◌≡◌, refl, ◌⊎◌, inl, inr, Bool, true, false, not, ◌&&◌, none, some, arith, if◌then◌else◌,
  Option-cases,
}
use nft_gate.Text.{Text, is_some}
use nft_gate.External.{Crates}
use nft_gate.Proof.{AccessProof, personal_message, decode_access_proof}
use nft_gate.Proof.Base58.{is_tx_digest}
use nft_gate.Sig.{normalize_address, consumed_event_type, verify_personal_message_signature}
use nft_gate.Ports.{Ports, Result, Exit, stop, pass}
use nft_gate.Decision.{
  VerifyParams, Denied, Verified, context_of, authenticate, verify_consume, verify_ownership,
  verify_access_request,
}

module _ {W Resp : Type 0} (crates : Crates) (ports : Ports W Resp) (cfg : VerifyParams) where
  -- The token is a proof whose signature is over this gateway's own message for it.
  pub record IsAuthentic (token : Text) (proof : AccessProof) : Type 0 where
    pub decoded : decode_access_proof crates token ≡ some proof
    pub digest_given : (cfg.single_use && not (is_some proof.consume_digest)) ≡ false
    pub message : Text
    pub built : personal_message (context_of crates ports cfg proof) ≡ some message
    pub signed :
        verify_personal_message_signature crates proof.address message proof.signature ≡ true

  -- The last question to the chain, by mode, and what the caller gets to spend.
  abbrev pub Entitled : AccessProof → Verified → W → W → Type 0
  Entitled proof v w w' =
      ((cfg.single_use ≡ false)
        × (ports.owns_nft v.address cfg.nft_type (some cfg.gate_id) w ≡ (Result.ok true, w'))
        × (v.redemption_key ≡ none))
      ⊎ ((d : Text) × (cfg.single_use ≡ true)
          × (proof.consume_digest ≡ some d)
          × (is_tx_digest d ≡ true)
          × (ports.consume_tx_valid d v.address (consumed_event_type crates cfg.nft_type)
                (some cfg.gate_id) cfg.consume_max_age_secs w
              ≡ (Result.ok true, w'))
          × (v.redemption_key ≡ some d))

  pub record IsAllowed (token : Text) (v : Verified) (w w' : W) : Type 0 where
    pub proof : AccessProof
    pub authentic : IsAuthentic token proof
    pub address : v.address ≡ normalize_address crates proof.address
    pub w₁ : W
    pub fresh : ports.take_nonce proof.nonce w ≡ (Result.ok true, w₁)
    pub w₂ : W
    pub open_gate : ports.gate_access_blocked cfg.gate_id w₁ ≡ (Result.ok false, w₂)
    pub entitled : Entitled proof v w₂ w'

  authenticate-eq-pass :
      (token : Text) (w : W) {proof : AccessProof} {w' : W}
      → authenticate crates ports cfg token w ≡ (pass proof, w')
      → IsAuthentic token proof × (w ≡ w')
  unfolding authenticate
  authenticate-eq-pass token w {proof} h = elim (Option-cases (decode_access_proof crates token)) [
    | inl e ↦ absurd (ground arith)
    | inr (p, e) ↦ elim (Option-cases (personal_message (context_of crates ports cfg p))) [
      | inl x ↦ absurd (ground arith)
      | inr (m, x) ↦ (
        record {
          decoded = ground arith;
          digest_given = ground arith;
          message = m;
          built = ground arith;
          signed = ground arith;
        },
        ground arith,
      )
    ]
  ]

  answered :
      {A : Type 0} (call : W → Result A × W) (w : W) (a : A)
      → (call w).0 ≡ Result.ok a
      → call w ≡ (Result.ok a, (call w).1)
  answered call w a h = λ i. (h i, (call w).1)

  verify_ownership-eq-pass :
      (proof : AccessProof) (address : Text) (w : W) {v : Verified} {w' : W}
      → cfg.single_use ≡ false
      → verify_ownership crates ports cfg address w ≡ (pass v, w')
      → (v.address ≡ address) × Entitled proof v w w'
  unfolding verify_ownership
  verify_ownership-eq-pass proof address w {v} {w'} m h =
      let call = ports.owns_nft address cfg.nft_type (some cfg.gate_id) in
      let yes_owns : (call w).0 ≡ Result.ok true = ground arith in
      (ground arith, inl (m, ground (arith, answered call w true yes_owns), ground arith))

  verify_consume-eq-pass :
      (proof : AccessProof) (address : Text) (w : W) {v : Verified} {w' : W}
      → cfg.single_use ≡ true
      → verify_consume crates ports cfg address proof.consume_digest w ≡ (pass v, w')
      → (v.address ≡ address) × Entitled proof v w w'
  unfolding verify_consume
  verify_consume-eq-pass proof address w {v} {w'} m h = elim (Option-cases proof.consume_digest) [
    | inl e ↦ absurd (ground arith)
    | inr (d, e) ↦
        let call =
          ports.consume_tx_valid d address (consumed_event_type crates cfg.nft_type)
            (some cfg.gate_id) cfg.consume_max_age_secs in
        let valid : (call w).0 ≡ Result.ok true = ground arith in
        (
          ground arith,
          inr (d, m, e, ground arith, ground (arith, answered call w true valid), ground arith),
        )
  ]

  -- A request is allowed only for an authentic proof, after its nonce was taken, after the gate was
  -- found open, and after the chain confirmed the pass or the consume, by the gateway's mode: these
  -- calls in this order, each on the world that the one before left. The address is the proof's in
  -- canonical form, and a digest to redeem is handed out in single-use mode alone.
  pub verify_access_request-IsAllowed :
      (token : Text) (w : W) (v : Verified) (w' : W)
      → verify_access_request crates ports cfg token w ≡ (pass v, w')
      → IsAllowed token v w w'
  unfolding verify_access_request
  verify_access_request-IsAllowed token w v w' h = go (authenticate crates ports cfg token w) refl
    where
      open_then :
          (proof : AccessProof) (w₂ : W)
          → (b : Bool) → cfg.single_use ≡ b
          → (if b
              then verify_consume crates ports cfg
                  (normalize_address crates proof.address)
                  proof.consume_digest
                  w₂
              else verify_ownership crates ports cfg (normalize_address crates proof.address) w₂)
            ≡ (pass v, w')
          → (v.address ≡ normalize_address crates proof.address) × Entitled proof v w₂ w'
      open_then proof w₂ true m r = verify_consume-eq-pass proof _ w₂ m r
      open_then proof w₂ false m r = verify_ownership-eq-pass proof _ w₂ m r

      go :
          (r : Exit Denied AccessProof × W)
          → authenticate crates ports cfg token w ≡ r
          → IsAllowed token v w w'
      go (stop d, w₀) x = absurd (ground arith)
      go (pass p, w₀) x =
          let auth = authenticate-eq-pass token w x in
          let take = ports.take_nonce p.nonce in
          let taken : (take w).0 ≡ Result.ok true = ground arith in
          let look = ports.gate_access_blocked cfg.gate_id in
          let w₁ = (take w).1 in
          let unblocked : (look w₁).0 ≡ Result.ok false = ground arith in
          let last = open_then p (look w₁).1 cfg.single_use refl (ground arith) in
          record {
            proof = p;
            authentic = auth.0;
            address = last.0;
            w₁ = w₁;
            fresh = answered take w true taken;
            w₂ = (look w₁).1;
            open_gate = answered look w₁ false unblocked;
            entitled = last.1;
          }
