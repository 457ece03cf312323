-- ===== src/Proof/Decoded.antt =====
-- What the fields of a decoded access proof are sure to satisfy.
use nft_gate.Base.{◌≤◌, ◌≡◌, true, ◌&&◌, Option, none, some, arith, Option-cases, inl, inr}
use nft_gate.Text.{Text, codes, len, is_ascii}
use nft_gate.Text.Split.{trim}
use nft_gate.External.{Crates, Json, Fields, as_object, get}
use nft_gate.Proof.{
  AccessProof, is_address, is_nonce, is_signature, digest_ok, max_token_bytes, digest_field,
  proof_of_object, decode_access_proof,
}

pub record IsWellFormed (token : Text) (proof : AccessProof) : Type 0 where
  pub short : len token ≤ max_token_bytes
  pub ascii : (is_ascii proof.address && (is_ascii proof.nonce && is_ascii proof.signature)) ≡ true
  pub address : is_address proof.address ≡ true
  pub nonce : is_nonce proof.nonce ≡ true
  pub signature : is_signature proof.signature ≡ true
  pub digest : digest_ok proof.consume_digest ≡ true

digest_field-ok : (v : Option Json) (d : Option Text) → digest_field v ≡ some d → digest_ok d ≡ true
unfolding digest_field
digest_field-ok none d h = ground arith
digest_field-ok (some v) d h = ground arith

-- The checks that the fields of an object passed.
abbrev HasFields : AccessProof → Type 0
HasFields proof =
    ((is_ascii proof.address && (is_ascii proof.nonce && is_ascii proof.signature)) ≡ true)
    × (is_address proof.address ≡ true)
    × (is_nonce proof.nonce ≡ true)
    × (is_signature proof.signature ≡ true)
    × (digest_ok proof.consume_digest ≡ true)

proof_of_object-HasFields :
    (obj : Fields) (proof : AccessProof) → proof_of_object obj ≡ some proof → HasFields proof
unfolding proof_of_object
proof_of_object-HasFields obj proof h =
    ground (arith, digest_field-ok (get (codes "consumeDigest") obj) proof.consume_digest)

-- A token that decodes is within the size limit, and each field of the proof is in its grammar.
pub decode_access_proof-IsWellFormed :
    (crates : Crates) (token : Text) (proof : AccessProof)
    → decode_access_proof crates token ≡ some proof
    → IsWellFormed token proof
unfolding decode_access_proof
decode_access_proof-IsWellFormed crates token proof h =
    elim (Option-cases (crates.base64_decode (trim token))) [
      | inl e ↦ absurd (ground arith)
      | inr (json, e) ↦ elim (Option-cases (crates.parse_json json)) [
        | inl e' ↦ absurd (ground arith)
        | inr (value, e') ↦ elim (Option-cases (as_object value)) [
          | inl e'' ↦ absurd (ground arith)
          | inr (obj, e'') ↦
              let fields = proof_of_object-HasFields obj proof (ground arith) in
              record {
                short = ground arith;
                ascii = fields.0;
                address = fields.1;
                nonce = fields.2;
                signature = fields.3;
                digest = fields.4;
              }
        ]
      ]
    ]
