-- ===== src/Proof.antt =====
-- core/src/proof.rs: the access-proof wire format. An error is `none`: its wording is not modelled.
pub mod Base58
pub mod Decoded
pub mod Message
use nft_gate.Base.{
  ℕ, ◌+◌, ◌-◌, ◌*◌, Bool, true, false, not, ◌&&◌, ◌||◌, Option, none, some, List, [], ◌∷◌, ◌++◌,
  ltb, leb, ◌==◌, if◌then◌else◌, all, any, length,
}
use nft_gate.Base.Options.{◌>>=◌, ensure}
use nft_gate.Text.{
  Text, codes, text_eq, is_nil, len, is_ascii, is_digit, is_alphanumeric, is_hex, is_hex_lower,
  member, strip_prefix,
}
use nft_gate.Text.Split.{trim, trim_end_by}
use nft_gate.External.{Crates, Json, Fields, as_object, as_str, get}
use Base58.{is_tx_digest}

abbrev pub access_message_version : Text
access_message_version = codes "nft-gate:access:v2"

abbrev pub networks : List Text
networks = codes "localnet" ∷ codes "devnet" ∷ codes "testnet" ∷ codes "mainnet" ∷ []

pub record AccessProof : Type 0 where
  pub address : Text
  pub nonce : Text
  pub signature : Text
  pub consume_digest : Option Text

pub record MessageContext : Type 0 where
  pub origin : Text
  pub gate_id : Text
  pub network : Text
  pub nonce : Text
  pub consume_digest : Option Text

abbrev pub is_nonce_char : ℕ → Bool
is_nonce_char b = is_alphanumeric b || (b == b'.' || (b == b'_' || (b == b'~' || b == b'-')))

unfoldable pub is_nonce : Text → Bool
unfolding len
is_nonce s = (leb 1 (len s) && leb (len s) 128) && all is_nonce_char s

abbrev pub hex_body : Option Text → Bool
hex_body none = false
hex_body (some h) = (leb 1 (len h) && leb (len h) 64) && all is_hex h

unfoldable pub is_address : Text → Bool
unfolding len strip_prefix
is_address s = hex_body (strip_prefix (codes "0x") s)

abbrev pub id_body : Option Text → Bool
id_body none = false
id_body (some h) = len h == 64 && all is_hex_lower h

unfoldable pub is_canonical_id : Text → Bool
unfolding len strip_prefix
is_canonical_id s = id_body (strip_prefix (codes "0x") s)

unfoldable pub is_signature : Text → Bool
unfolding len trim_end_by
is_signature s =
    let body = trim_end_by (λ c. c == b'=') s in
    let pad = len s - len body in
    (leb 1 (len s) && leb (len s) (1024 + 2))
    && (leb pad 2
        && (not (is_nil body)
            && (leb (len body) 1024
                && all (λ b. is_alphanumeric b || (b == b'+' || b == b'/')) body)))

-- `join("\n")`
unfoldable pub join_lines : List Text → Text
join_lines [] = []
join_lines (l ∷ []) = l
join_lines (l ∷ m ∷ ls) = l ++ (10 ∷ join_lines (m ∷ ls))

abbrev pub digest_line : Option Text → List Text
digest_line none = []
digest_line (some d) = (codes "consume:" ++ d) ∷ []

unfoldable pub message_lines : MessageContext → List Text
message_lines ctx =
    access_message_version
    ∷ (codes "origin:" ++ ctx.origin)
    ∷ (codes "gate:" ++ ctx.gate_id)
    ∷ (codes "network:" ++ ctx.network)
    ∷ (codes "nonce:" ++ ctx.nonce)
    ∷ digest_line ctx.consume_digest

abbrev pub digest_ok : Option Text → Bool
digest_ok none = true
digest_ok (some d) = is_tx_digest d

unfoldable pub origin_ok : Text → Bool
origin_ok origin = not (is_nil origin || (not (is_ascii origin) || any (λ b. leb b 0x20) origin))

unfoldable pub personal_message : MessageContext → Option Text
personal_message ctx =
    if not (is_canonical_id ctx.gate_id)
    then none
    else if not (member ctx.network networks)
    then none
    else if not (is_nonce ctx.nonce)
    then none
    else if not (digest_ok ctx.consume_digest)
    then none
    else if not (origin_ok ctx.origin)
    then none
    else some (join_lines (message_lines ctx))

abbrev pub max_token_bytes : ℕ
max_token_bytes = 4096

-- `text(key)`: a field that must be a string
unfoldable pub text_field : Fields → Text → Option Text
unfolding get
text_field obj key = do v ← get key obj; as_str v

-- `consumeDigest`: absent, or a transaction digest
unfoldable pub digest_field : Option Json → Option (Option Text)
digest_field none = some none
digest_field (some v) = do d ← as_str v; if is_tx_digest d then some (some d) else none

-- The fields of a parsed token.
unfoldable pub proof_of_object : Fields → Option AccessProof
unfolding text_field digest_field
proof_of_object obj = do
  address ← text_field obj (codes "address")
  nonce ← text_field obj (codes "nonce")
  signature ← text_field obj (codes "signature")
  _ ← ensure (is_ascii address && (is_ascii nonce && is_ascii signature))
  _ ← ensure (is_address address)
  _ ← ensure (is_nonce nonce)
  _ ← ensure (is_signature signature)
  consume_digest ← digest_field (get (codes "consumeDigest") obj)
  some (record {
    address = address;
    nonce = nonce;
    signature = signature;
    consume_digest = consume_digest;
  })

module _ (crates : Crates) where
  unfoldable pub decode_access_proof : Text → Option AccessProof
  unfolding proof_of_object
  decode_access_proof token = do
    _ ← ensure (leb (len token) max_token_bytes)
    json ← crates.base64_decode (trim token)
    value ← crates.parse_json json
    obj ← as_object value
    proof_of_object obj
