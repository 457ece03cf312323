-- ===== src/Native/Proxy.antt =====
-- gateway-rust/src/proxy.rs: the forwarding of a request to the upstream.
pub mod Sent
pub mod Relayed
use nft_gate.Base.{ℕ, ◌*◌, Option, none, some, ◌++◌, if◌then◌else◌}
use nft_gate.Text.{Text, codes}
use nft_gate.Config.{GatewayConfig}
use nft_gate.Forward.{
  Refusal, Preflight, preflight, is_redirect, body_too_large, body_timed_out, upstream_timed_out,
  upstream_error,
}
use nft_gate.Forward
use nft_gate.Grpc.Wire.{Bytes}
use nft_gate.Ports.{Result, Exit, stop, pass}
use nft_gate.Native.HeaderMap.{HeaderMap, first}
use nft_gate.Native.Headers.{upstream_request_headers, client_response_headers}
use nft_gate.Native.HttpClient.{HttpResponse, Stack, HttpError, timed_out, broken}
use nft_gate.Native.HttpClient

-- A request of the server, its body not yet read.
pub record Request (H B : Type 0) : Type 0 where
  pub method : Text
  pub path : Text
  pub path_and_query : Option Text
  pub headers : H
  pub body : B

-- What the client gets: a refusal as `{"error": reason}`, or the upstream's answer.
pub data Response (H : Type 0) : Type 0 where
  refused : Refusal → Response H
  relayed : HttpResponse H Bytes → Response H

abbrev pub status_of : {H : Type 0} → Response H → ℕ
status_of (refused r) = r.status
status_of (relayed resp) = resp.status

abbrev secs : ℕ → ℕ
secs n = n * 1000

module _ {H V B W : Type 0} (m : HeaderMap H V) (stack : Stack H B W) (cfg : GatewayConfig) where
  abbrev pub declared_length : H → Option Text
  declared_length headers = elim (first (m.get_all (codes "content-length") headers)) [
    | none ↦ none
    | some v ↦ m.to_str v
  ]

  abbrev pub target : Request H B → Text
  target req = elim req.path_and_query [
    | none ↦ cfg.upstream_url ++ req.path
    | some pq ↦ cfg.upstream_url ++ pq
  ]

  unfoldable pub answered : Exit HttpError (HttpResponse H Bytes) × W → Response H × W
  answered (pass resp, w) =
      if is_redirect resp.status
      then (refused upstream_error, w)
      else (relayed (record resp { headers = client_response_headers m resp.headers }), w)
  answered (stop timed_out, w) = (refused upstream_timed_out, w)
  answered (stop (broken e), w) = (refused upstream_error, w)

  -- The call of the client, once the body is read
  abbrev pub send_upstream : Request H B → Bytes → W → Exit HttpError (HttpResponse H Bytes) × W
  send_upstream req bytes =
      HttpClient.forward m stack req.method (target req) (upstream_request_headers m req.headers)
        bytes cfg.upstream_auth_headers (secs cfg.upstream_timeout_secs) cfg.max_response_bytes

  unfoldable pub relay : Request H B → Result Bytes × W → Response H × W
  relay req (Result.err e, w) = (refused body_too_large, w)
  relay req (Result.ok bytes, w) = answered (send_upstream req bytes w)

  unfoldable pub read_and_relay : Request H B → W → Response H × W
  unfolding relay
  read_and_relay req w =
      let read = stack.to_bytes cfg.max_body_bytes req.body w in
      elim (stack.cancelled (secs cfg.body_read_timeout_secs) w read.1) [
        | some w' ↦ (refused body_timed_out, w')
        | none ↦ relay req read
      ]

  unfoldable pub forward : Request H B → W → Response H × W
  forward req w =
      elim (preflight req.method req.path (declared_length req.headers) cfg.max_body_bytes) [
        | Preflight.refuse r ↦ (refused r, w)
        | Preflight.pass ↦ read_and_relay req w
      ]
