-- ===== src/Tests/Requests.antt =====
-- A whole request at concrete inputs: an upload that redeems a consume, over the in-memory store.
use nft_gate.Base.{
  ℕ, zero, suc, ◌+◌, ◌≡◌, refl, ◌⊎◌, true, false, none, some, List, [], ◌∷◌, ◌++◌, ◌-◌, arith,
}
use nft_gate.Text.{Text, codes, text_eq, len, strip_prefix, starts_with, contains, is_whitespace}
use nft_gate.Text.Split.{
  split_by, push_first, drop_empty, split_whitespace, split_once, trim_start_by, trim_end_by, trim,
}
use nft_gate.Assoc.{lookup, insert, remove, retain, min_by_key}
use nft_gate.External.{string, object, Fields, end, field, get, Curve, Crates}
use nft_gate.State.{
  MemoryStore, MemoryRates, MemoryState, with_max_keys, new_state, new_store, new_rates,
  issue_nonce, take_nonce, try_lease_redemption, commit_redemption, release_redemption, check,
}
use nft_gate.State.{RateScope, RateBudgets}
use nft_gate.State.Invariant.{
  Op, issue_op, lease_op, check_op, sweep_op, IsSound, apply_all, apply_all-IsSound,
}
use nft_gate.State
use nft_gate.Redemption.Leases.{evict_lease, grant, lease_live, try_lease, commit, release}
use nft_gate.Redemption.Leases.History.{run, step, leases}
use nft_gate.Redemption.Nonces.{take_if_valid}
use nft_gate.Redemption.Rates.{check_capped, current, make_room, evict_window, prune}
use nft_gate.Headers.{via_is_looped, names_gateway, extract_proof_token, bearer_token}
use nft_gate.Forward.{is_forwarded_method}
use nft_gate.Proof.{
  is_nonce, is_address, is_canonical_id, is_signature, join_lines, message_lines, origin_ok,
  personal_message, text_field, digest_field, proof_of_object, decode_access_proof,
}
use nft_gate.Proof.Base58.{
  position, leading_ones, skip_ones, spill, mul_add, magnitude_of, base58_decoded_len, is_tx_digest,
}
use nft_gate.Sig.{
  trim_0x, pad_64, split_path, derive_address, signing_digest, uleb128, write_uleb128,
  normalize_address, consumed_event_type, verify_ed25519, verify_personal_message_signature,
}
use nft_gate.Config.{GatewayConfig, is_public_path}
use nft_gate.Ports.{Result, Exit, stop, pass}
use nft_gate.Decision
use nft_gate.Gateway
use nft_gate.Decision.{
  Verified, verify_params, authenticate, verify_consume, verify_ownership, verify_access_request,
}
use nft_gate.Decision.Allowed.{IsAllowed, verify_access_request-IsAllowed}
use nft_gate.Gateway.{
  RequestHead, Reply, json, upstream, or_empty, coded, is_success, charge, issue_challenge,
  forward_as, serve_public, forward_leased, redeem_and_forward, verify, serve_gated, route, handle,
}
use nft_gate.Gateway.Served.{IsPublic, IsGated, handle-upstream}
use nft_gate.Gateway.Counted.{counted, Forwards, handle-Forwards}
use nft_gate.Gateway.Memory.{Environment, World, store_of, memory_ports}
use nft_gate.Gateway.DoubleSpend.{already_redeemed, redeem_once}

unfoldable pub requests : Unit {0}
unfolding text_eq len strip_prefix starts_with contains is_whitespace split_by push_first drop_empty
    split_whitespace split_once trim_start_by trim_end_by trim lookup insert remove retain
    min_by_key get with_max_keys new_state new_store new_rates issue_nonce take_nonce
    try_lease_redemption commit_redemption release_redemption State.check evict_lease grant
    lease_live try_lease commit release run step take_if_valid check_capped current make_room
    evict_window prune via_is_looped names_gateway extract_proof_token bearer_token
    is_forwarded_method is_nonce is_address is_canonical_id is_signature join_lines message_lines
    origin_ok personal_message text_field digest_field proof_of_object decode_access_proof position
    leading_ones skip_ones spill mul_add magnitude_of base58_decoded_len is_tx_digest trim_0x pad_64
    split_path derive_address signing_digest uleb128 write_uleb128 normalize_address
    consumed_event_type verify_ed25519 verify_personal_message_signature is_public_path authenticate
    verify_consume verify_ownership verify_access_request charge issue_challenge forward_as
    serve_public forward_leased redeem_and_forward verify serve_gated route handle store_of
requests = tt

abbrev pub repeat : ℕ → ℕ → List ℕ
repeat zero x = []
repeat (suc n) x = x ∷ repeat n x

abbrev less_by : ℕ → List ℕ → List ℕ
less_by n [] = []
less_by n (x ∷ xs) = (x - n) ∷ less_by n xs

abbrev pub consume : Text
consume = repeat 32 b'1'

-- The proof that every token stands for.
abbrev fields : Fields
fields = field (codes "address") (string (codes "0x0")) (
    field (codes "nonce") (string (codes "n1")) (
      field (codes "signature") (string (repeat 97 b'A'))
        (field (codes "consumeDigest") (string consume) end)))

abbrev no_curve : Curve
no_curve = record {
  signature = λ s. none;
  normalize_s = λ s. s;
  verifying_key = λ k. none;
  verify = λ k d s. false;
}

-- A code in place of base64, a hash that is constant, and a key that signs everything.
abbrev pub crates : Crates
crates = record {
  base64_decode = λ s. some (less_by b'A' s);
  parse_json = λ b. some (object fields);
  parse_json_text = λ s. none;
  unicode_lower = λ s. s;
  blake2b256 = λ b. repeat 64 b'0';
  hex_encode = λ b. b;
  ed25519_key = λ k. some k;
  ed25519_verify = λ k s d. true;
  secp256k1 = no_curve;
  secp256r1 = no_curve;
}

abbrev pub config : GatewayConfig
config = record {
  gateway_origin = codes "https://gate.example";
  network = codes "testnet";
  upstream_url = codes "https://up.example";
  sui_rpc_url = codes "https://rpc.example";
  nft_type = codes "0x2::access_gate::Pass";
  gate_id = codes "0x7";
  challenge_ttl_secs = 60;
  single_use = true;
  public_paths = codes "/health" ∷ [];
  allowed_origins = [];
  rate_limit_per_min = 2;
  challenge_rate_limit_per_min = 2;
  gated_preauth_rate_limit_per_min = 2;
  max_body_bytes = 1000;
  nonce_max_entries = 10;
  ownership_cache_ttl_ms = 0;
  redemption_lease_ttl_secs = 60;
  redemption_retention_secs = 3600;
  consume_max_age_secs = 60;
  rpc_timeout_secs = 5;
  body_read_timeout_secs = 5;
  upstream_timeout_secs = 5;
  max_response_bytes = 1000;
  allow_insecure_http = false;
  upstream_auth_headers = [];
  sui_rpc_auth_header = none;
}

-- Another request asks for the same consume before every call, a second apart.
abbrev pub environment : Environment ℕ
environment = record {
  turn = λ n. record {
    others = (1000 + n, leases (codes "other") 60 10 (codes "x")) ∷ [];
    now = 1000 + n;
    random = n ∷ [];
  };
  owns = λ a t g n. Result.ok true;
  consume = λ d a t g age n. Result.ok true;
  blocked = λ g n. Result.ok false;
  respond = λ kind n. 201;
  status = λ resp. resp;
}

abbrev start_store : MemoryStore
start_store = record {
  challenge_ttl_secs = 60;
  max_entries = 10;
  nonces = (codes "n1", 50_000) ∷ [];
  redemptions = [];
}

abbrev pub start_rates : MemoryRates
start_rates = record {
  budgets = record { ip = 5; gated_preauth = 5; address = 5 };
  max_keys = 10;
  ip = [];
  preauth = [];
  address = [];
}

abbrev start : World
start = record { state = record { store = start_store; rates = start_rates }; calls = 0 }

abbrev pub upload : RequestHead
upload = record {
  method = codes "POST";
  path = codes "/files";
  authorization = some (codes "Bearer TOKEN");
  x_access_proof = none;
  via = none;
  client_ip = codes "10.0.0.1";
}

abbrev served : Reply ℕ × World
served = handle crates (memory_ports crates environment) config upload start

served_ok : served ≡ (upstream 201, served.1)
unfolding requests
served_ok = refl

handle-upstream_example :
    (via_is_looped (or_empty upload.via) ≡ false)
    × (IsPublic crates (memory_ports crates environment) config upload 201 start served.1
        ⊎ IsGated crates (memory_ports crates environment) config upload 201 start served.1)
handle-upstream_example =
    handle-upstream crates (memory_ports crates environment) config upload start 201 served.1
      served_ok

abbrev decided : Exit Decision.Denied Verified × World
decided =
    verify_access_request crates (memory_ports crates environment) (verify_params config)
      (codes "TOKEN") start

abbrev spender : Verified
spender = record { address = codes "0x" ++ repeat 64 b'0'; redemption_key = some consume }

decided_ok : decided ≡ (pass spender, decided.1)
unfolding requests
decided_ok = refl

verify_access_request-IsAllowed_example :
    IsAllowed crates
      (memory_ports crates environment)
      (verify_params config)
      (codes "TOKEN")
      spender
      start
      decided.1
verify_access_request-IsAllowed_example =
    verify_access_request-IsAllowed crates (memory_ports crates environment) (verify_params config)
      (codes "TOKEN") start spender decided.1 decided_ok

handle-Forwards_example :
    Forwards crates
      (memory_ports crates environment)
      config
      7
      (handle crates (counted (memory_ports crates environment)) config upload (start, 7))
handle-Forwards_example =
    handle-Forwards crates (memory_ports crates environment) config upload start 7

abbrev redeemed_upload : Exit Gateway.JsonReply ℕ × World
redeemed_upload = redeem_and_forward crates (memory_ports crates environment) config consume start

redeemed_ok : redeemed_upload ≡ (pass 201, redeemed_upload.1)
unfolding requests
redeemed_ok = refl

redeem_once_example :
    (redeem_and_forward crates (memory_ports crates environment) config consume redeemed_upload.1).0
    ≡ stop (already_redeemed crates environment config)
redeem_once_example =
    redeem_once crates environment config consume start 201 redeemed_upload.1 tt redeemed_ok refl
      (omega arith, tt) (omega arith)

abbrev budgets : RateBudgets
budgets = record { ip = 1; gated_preauth = 2; address = 3 }

abbrev calls : List (ℕ × Op)
calls =
    (100, issue_op (7 ∷ []))
    ∷ (200, lease_op (8 ∷ []) consume 60)
    ∷ (300, check_op RateScope.public (codes "10.0.0.1"))
    ∷ (400, sweep_op)
    ∷ []

apply_all-IsSound_example : IsSound (apply_all crates calls (new_state 60 10 budgets))
apply_all-IsSound_example = apply_all-IsSound crates 60 10 budgets calls
