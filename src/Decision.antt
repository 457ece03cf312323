-- ===== src/Decision.antt =====
-- core/src/decision.rs: the allow or deny decision, over the platform's ports.
pub mod Allowed
pub mod Ready
use Prim.Native.String.{String}
use nft_gate.Base.{ℕ, Bool, true, false, not, ◌&&◌, Option, none, some, if◌then◌else◌}
use nft_gate.Text.{Text, is_some}
use nft_gate.External.{Crates}
use nft_gate.Config.{GatewayConfig}
use nft_gate.Proof.{AccessProof, MessageContext, personal_message, decode_access_proof}
use nft_gate.Proof.Base58.{is_tx_digest}
use nft_gate.Sig.{normalize_address, consumed_event_type, verify_personal_message_signature}
use nft_gate.Ports.{Ports, Run, pure, throw, ◌>>=◌, ◌>>◌, call_or, some_or, check_that}

pub record VerifyParams : Type 0 where
  pub single_use : Bool
  pub gateway_origin : Text
  pub gate_id : Text
  pub network : Text
  pub nft_type : Text
  pub consume_max_age_secs : ℕ

abbrev pub verify_params : GatewayConfig → VerifyParams
verify_params cfg = record {
  single_use = cfg.single_use;
  gateway_origin = cfg.gateway_origin;
  gate_id = cfg.gate_id;
  network = cfg.network;
  nft_type = cfg.nft_type;
  consume_max_age_secs = cfg.consume_max_age_secs;
}

pub data Denied : Type 0 where
  bad_proof bad_signature nonce_invalid not_owner consume_missing : Denied
  gate_paused chain_error state_unavailable : Denied

unfoldable pub reason : Denied → String
reason bad_proof = "malformed access proof"
reason bad_signature = "signature does not recover address"
reason nonce_invalid = "challenge nonce invalid, expired, or already used"
reason not_owner = "address does not hold the required access NFT"
reason consume_missing = "no matching single-use consume for this address"
reason gate_paused = "the gate is paused"
reason chain_error = "on-chain verification failed"
reason state_unavailable = "gateway state unavailable"

pub record Verified : Type 0 where
  pub address : Text
  pub redemption_key : Option Text

-- `as_deref().filter(|d| is_tx_digest(d))`
abbrev pub valid_digest : Option Text → Option Text
valid_digest none = none
valid_digest (some d) = if is_tx_digest d then some d else none

module _ {W Resp : Type 0} (crates : Crates) (ports : Ports W Resp) (cfg : VerifyParams) where
  -- The message that the client must have signed, from the gateway's own configuration.
  abbrev pub context_of : AccessProof → MessageContext
  context_of proof = record {
    origin = cfg.gateway_origin;
    gate_id = normalize_address crates cfg.gate_id;
    network = cfg.network;
    nonce = proof.nonce;
    consume_digest = if cfg.single_use then proof.consume_digest else none;
  }

  -- What precedes the nonce: decoding and the signature, which touch no state.
  unfoldable pub authenticate : Text → Run W Denied AccessProof
  authenticate token = do
    proof ← some_or (decode_access_proof crates token) bad_proof
    check_that (not (cfg.single_use && not (is_some proof.consume_digest))) consume_missing
    message ← some_or (personal_message (context_of proof)) bad_proof
    check_that (verify_personal_message_signature crates proof.address message proof.signature)
        bad_signature
    pure proof

  -- The single-use branch.
  unfoldable pub verify_consume : Text → Option Text → Run W Denied Verified
  verify_consume address consume_digest = do
    digest ← some_or (valid_digest consume_digest) consume_missing
    ok ←
        call_or
          (ports.consume_tx_valid digest address (consumed_event_type crates cfg.nft_type)
            (some cfg.gate_id) cfg.consume_max_age_secs)
          chain_error
    check_that ok consume_missing
    pure (record { address = address; redemption_key = some digest })

  -- The ownership branch.
  unfoldable pub verify_ownership : Text → Run W Denied Verified
  verify_ownership address = do
    ok ← call_or (ports.owns_nft address cfg.nft_type (some cfg.gate_id)) chain_error
    check_that ok not_owner
    pure (record { address = address; redemption_key = none })

  unfoldable pub verify_access_request : Text → Run W Denied Verified
  verify_access_request token = do
    proof ← authenticate token
    fresh ← call_or (ports.take_nonce proof.nonce) state_unavailable
    check_that fresh nonce_invalid
    blocked ← call_or (ports.gate_access_blocked cfg.gate_id) chain_error
    check_that (not blocked) gate_paused
    if cfg.single_use
        then verify_consume (normalize_address crates proof.address) proof.consume_digest
        else verify_ownership (normalize_address crates proof.address)
