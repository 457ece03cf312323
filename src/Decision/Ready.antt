-- ===== src/Decision/Ready.antt =====
-- The message that a client must sign (core/src/proof.rs), as core/src/decision.rs builds it from a
-- configuration that `from_env` of core/src/config.rs loaded.
use nft_gate.Base.{◌≡◌, refl, Bool, true, false, none, some, arith, if◌then◌else◌}
use nft_gate.Text.{Text, len, member}
use nft_gate.External.{Crates}
use nft_gate.Proof.{
  AccessProof, MessageContext, is_address, is_canonical_id, is_nonce, digest_ok, origin_ok,
  networks, join_lines, message_lines, personal_message, decode_access_proof,
}
use nft_gate.Proof.Decoded.{decode_access_proof-IsWellFormed}
use nft_gate.Origin.Laws.{is_canonical_origin-origin_ok}
use nft_gate.Sig.Address.{is_canonical_id-normalize_address}
use nft_gate.Config.{GatewayConfig}
use nft_gate.Config.Values.{Env, is_object_id}
use nft_gate.Config.Load.{from_env}
use nft_gate.Config.Bounds.{from_env-IsConsistent}
use nft_gate.Ports.{Ports}
use nft_gate.Decision.{verify_params, context_of}

is_object_id-is_address : (s : Text) → is_object_id s ≡ true → is_address s ≡ true
unfolding is_object_id is_address len
is_object_id-is_address s h = ground arith

personal_message-some :
    (ctx : MessageContext)
    → is_canonical_id ctx.gate_id ≡ true
    → member ctx.network networks ≡ true
    → is_nonce ctx.nonce ≡ true
    → digest_ok ctx.consume_digest ≡ true
    → origin_ok ctx.origin ≡ true
    → personal_message ctx ≡ some (join_lines (message_lines ctx))
unfolding personal_message
personal_message-some ctx g n c d o = ground arith

-- Under a configuration that loaded, the message for a proof that decoded always exists, and is the
-- joined lines of its context.
personal_message-loaded :
    {W Resp : Type 0} (crates : Crates) (ports : Ports W Resp) (env : Env) (cfg : GatewayConfig)
    (token : Text) (proof : AccessProof)
    → from_env env crates ≡ some cfg
    → decode_access_proof crates token ≡ some proof
    → let ctx = context_of crates ports (verify_params cfg) proof in
      personal_message ctx ≡ some (join_lines (message_lines ctx))
personal_message-loaded crates ports env cfg token proof loaded decoded =
    let good = from_env-IsConsistent env crates cfg loaded in
    let fields = decode_access_proof-IsWellFormed crates token proof decoded in
    personal_message-some (context_of crates ports (verify_params cfg) proof)
      (is_canonical_id-normalize_address crates cfg.gate_id
        (is_object_id-is_address cfg.gate_id good.gate)).0
      good.known_network fields.nonce (digest_signed cfg.single_use fields.digest)
      (is_canonical_origin-origin_ok cfg.gateway_origin good.canonical)
  where
    digest_signed :
        (b : Bool)
        → digest_ok proof.consume_digest ≡ true
        → digest_ok (if b then proof.consume_digest else none) ≡ true
    digest_signed true h = h
    digest_signed false h = refl
