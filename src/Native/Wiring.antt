-- ===== src/Native/Wiring.antt =====
-- gateway-rust/src/main.rs, state.rs, proxy.rs and sui_rpc.rs: the ports of the core as the native server
-- fills them.
pub mod Once
pub mod Granted
use nft_gate.Base.{◌*◌}
use nft_gate.Text.{Text}
use nft_gate.External.{Crates}
use nft_gate.Config.{GatewayConfig}
use nft_gate.Grpc.{base_of, Transport}
use nft_gate.Grpc.Frames.{Fault}
use nft_gate.Chain.Client.{Cache, Settings}
use nft_gate.Chain.Client
use nft_gate.Gateway.{RequestHead, Reply, json, upstream, handle}
use nft_gate.Ports.{Result, Exit, stop, pass, Ports}
use nft_gate.Native.HeaderMap.{HeaderMap}
use nft_gate.Native.HttpClient.{Stack, hyper_transport}
use nft_gate.Native.Proxy.{Request, Response, refused, relayed, status_of}
use nft_gate.Native.Proxy
use nft_gate.Native.Redis.{Redis}
use nft_gate.Native.State.{
  Server, Ambient, issue_nonce, take_nonce, rate_check, try_lease_redemption, commit_redemption,
  release_redemption,
}
use nft_gate.Native.Router.{HttpReply, render, into_reply}

-- An error of the chain as the message that an `anyhow::Error` carries; nothing looks into it.
abbrev pub or_message : {A : Type 0} → (Fault → Text) → Exit Fault A → Result A
or_message message (stop e) = Result.err (message e)
or_message message (pass a) = Result.ok a

-- The server: the shared state, the chain client over the HTTP client, and the proxy as the upstream.
module _ {H V B D N : Type 0} (crates : Crates) (m : HeaderMap H V) (stack : Stack H B (Cache × N))
    (r : Redis D) (ambient : Ambient) (message : Fault → Text) (cfg : GatewayConfig) where
  -- `sui_rpc::new_sui_rpc`
  abbrev pub chain_settings : Settings
  chain_settings = record {
    base_url = base_of cfg.sui_rpc_url;
    timeout_ms = cfg.rpc_timeout_secs * 1000;
    cache_ttl_ms = cfg.ownership_cache_ttl_ms;
  }

  abbrev pub chain_transport : Transport (Cache × N)
  chain_transport = hyper_transport m stack cfg.sui_rpc_auth_header (cfg.rpc_timeout_secs * 1000)

  abbrev pub on_net :
      {A : Type 0} → (Cache × N → A × (Cache × N)) → Server D (Cache × N) → A × Server D (Cache × N)
  on_net call s = let done = call s.net in (done.0, record s { net = done.1 })

  abbrev pub on_chain :
      {A : Type 0}
      → (Cache × N → Exit Fault A × (Cache × N))
      → Server D (Cache × N)
      → Result A × Server D (Cache × N)
  on_chain call = on_net (λ n. (or_message message (call n).0, (call n).1))

  abbrev pub native_ports : Request H B → Ports (Server D (Cache × N)) (Response H)
  native_ports req = record {
    issue_nonce = issue_nonce crates r ambient cfg.challenge_ttl_secs;
    take_nonce = take_nonce crates r ambient cfg.challenge_ttl_secs;
    rate_check = rate_check crates r ambient cfg.challenge_ttl_secs;
    try_lease_redemption = try_lease_redemption crates r ambient cfg.challenge_ttl_secs;
    commit_redemption = commit_redemption crates r ambient cfg.challenge_ttl_secs;
    release_redemption = release_redemption crates r ambient cfg.challenge_ttl_secs;
    owns_nft = λ a t g. on_chain (Client.owns_nft crates chain_transport chain_settings a t g);
    consume_tx_valid = λ d a t g age.
        on_chain (Client.consume_tx_valid crates chain_transport chain_settings d a t g age);
    gate_access_blocked =
        λ g. on_chain (Client.gate_access_blocked crates chain_transport chain_settings g);
    forward = λ kind. on_net (Proxy.forward m stack cfg req);
    status = status_of;
  }

  abbrev as_http : Reply (Response H) → HttpReply H
  as_http (json reply) = render m reply
  as_http (upstream resp) = into_reply m resp

  unfoldable pub handle_request :
      RequestHead → Request H B → Server D (Cache × N) → HttpReply H × Server D (Cache × N)
  handle_request head req s =
      let done = handle crates (native_ports req) cfg head s in (as_http done.0, done.1)
