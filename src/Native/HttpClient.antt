-- ===== src/Native/HttpClient.antt =====
-- gateway-rust/src/http_client.rs and the transport of gateway-rust/src/grpc.rs, over the HTTP stack
-- (hyper, axum, tokio), which is not part of the repository.
use nft_gate.Base.{ℕ, ◌*◌, ◌≡◌, ◌≤◌, Bool, Option, none, some, List, [], ◌∷◌, if◌then◌else◌, length}
use nft_gate.Text.{Text, codes}
use nft_gate.Config.{AuthHeader}
use nft_gate.Gateway.{is_success}
use nft_gate.Grpc.{Transport}
use nft_gate.Grpc.Wire.{Bytes}
use nft_gate.Grpc.Frames.{Fault, failed}
use nft_gate.Ports.{Result, Exit, stop, pass, Run, pure, ◌>>=◌, ◌>>◌, check_that, some_or}
use nft_gate.Native.HeaderMap.{HeaderMap, first}

pub record HttpRequest (H : Type 0) : Type 0 where
  pub method : Text
  pub uri : Text
  pub headers : H
  pub body : Bytes

-- `C` is `Bytes` once the body is read; before that it is the stack's own type.
pub record HttpResponse (H C : Type 0) : Type 0 where
  pub status : ℕ
  pub headers : H
  pub body : C

-- Over a world `W` of all that is outside. `cancelled` says, of a future that began and would end in
-- the given worlds, whether its deadline in milliseconds passes before, and what world that leaves.
pub record Stack (H B W : Type 0) : Type 0 where
  -- `Request::builder().uri(…).body(…)` succeeds
  pub is_uri : Text → Bool
  pub request : HttpRequest H → W → Result (HttpResponse H B) × W
  -- `Limited::new(body, max).collect()` and `axum::body::to_bytes`
  pub collect : ℕ → B → W → Result Bytes × W
  pub to_bytes : ℕ → B → W → Result Bytes × W
  pub cancelled : ℕ → W → W → Option W
  pub sleep_ms : ℕ → W → W
  pub wall_ms : W → ℕ × W

-- What is documented of the two readers: a body beyond the limit is an error.
pub record IsBounded {H B W : Type 0} (stack : Stack H B W) : Type 0 where
  pub length-collect :
      (max : ℕ) (body : B) (w : W) {bytes : Bytes}
      → (stack.collect max body w).0 ≡ Result.ok bytes
      → length bytes ≤ max
  pub length-to_bytes :
      (max : ℕ) (body : B) (w : W) {bytes : Bytes}
      → (stack.to_bytes max body w).0 ≡ Result.ok bytes
      → length bytes ≤ max

-- An `anyhow::Error`, by whether it downcasts to `TimedOut`
pub data HttpError : Type 0 where
  timed_out : HttpError
  broken : Text → HttpError

abbrev pub max_rpc_response_bytes : ℕ
max_rpc_response_bytes = 4 * 1024 * 1024

abbrev pub broken_or : {A : Type 0} → Result A → Exit HttpError A
broken_or (Result.ok a) = pass a
broken_or (Result.err e) = stop (broken e)

module _ {H V : Type 0} (m : HeaderMap H V) where
  unfoldable pub insert_auth : H → AuthHeader → Option H
  insert_auth headers h = elim (m.name_of h.name) [
    | none ↦ none
    | some name ↦ elim (m.from_str h.value) [
      | none ↦ none
      | some value ↦ some (m.insert name value headers)
    ]
  ]

  unfoldable pub insert_auths : H → List AuthHeader → Option H
  insert_auths headers [] = some headers
  insert_auths headers (h ∷ auth) = elim (insert_auth headers h) [
    | none ↦ none
    | some headers' ↦ insert_auths headers' auth
  ]

  -- `builder.header(name, value)` for each pair
  unfoldable pub append_all : H → List (Text × V) → H
  append_all h [] = h
  append_all h (p ∷ ps) = append_all (m.append p.0 p.1 h) ps

  module _ {B W : Type 0} (stack : Stack H B W) where
    unfoldable pub exchange : HttpRequest H → ℕ → Run W HttpError (HttpResponse H Bytes)
    exchange req max_body = do
      resp ← λ w. (broken_or (stack.request req w).0, (stack.request req w).1)
      body ← λ w.
          (broken_or (stack.collect max_body resp.body w).0, (stack.collect max_body resp.body w).1)
      pure (record { status = resp.status; headers = resp.headers; body = body })

    unfoldable pub send : HttpRequest H → ℕ → ℕ → Run W HttpError (HttpResponse H Bytes)
    send req timeout_ms max_body w =
        let done = exchange req max_body w in
        elim (stack.cancelled timeout_ms w done.1) [ some w' ↦ (stop timed_out, w') | none ↦ done ]

    abbrev auth_list : Option AuthHeader → List AuthHeader
    auth_list none = []
    auth_list (some h) = h ∷ []

    abbrev grpc_headers : H
    grpc_headers = m.append (codes "accept") (m.from_static (codes "application/grpc-web+proto")) (
        m.append (codes "content-type") (m.from_static (codes "application/grpc-web+proto"))
          m.empty)

    unfoldable pub post_grpc_web :
        Text → Bytes → Option AuthHeader → ℕ → Run W HttpError (H × Bytes)
    post_grpc_web url body auth timeout_ms = do
      check_that (stack.is_uri url) (broken (codes "failed to build gRPC-web request"))
      headers ←
          some_or (insert_auths grpc_headers (auth_list auth))
            (broken (codes "invalid auth header"))
      resp ←
          send (record { method = codes "POST"; uri = url; headers = headers; body = body })
            timeout_ms max_rpc_response_bytes
      check_that (is_success resp.status) (broken (codes "gRPC-web HTTP"))
      pure (resp.headers, resp.body)

    -- The request that goes upstream: a copy of the headers, then the credentials.
    unfoldable pub proxy_request :
        Text → Text → H → Bytes → List AuthHeader → Option (HttpRequest H)
    proxy_request method url headers body auth =
        if stack.is_uri url
        then elim (insert_auths (append_all m.empty (m.pairs headers)) auth) [
          | none ↦ none
          | some sent ↦ some (record { method = method; uri = url; headers = sent; body = body })
        ]
        else none

    unfoldable pub forward :
        Text → Text → H → Bytes → List AuthHeader → ℕ → ℕ → Run W HttpError (HttpResponse H Bytes)
    forward method url headers body auth timeout_ms max_response = do
      req ←
          some_or (proxy_request method url headers body auth)
            (broken (codes "failed to build proxy request"))
      send req timeout_ms max_response

    abbrev status_header : H → Option Text
    status_header headers = elim (first (m.get_all (codes "grpc-status") headers)) [
      | none ↦ none
      | some v ↦ m.to_str v
    ]

    abbrev fault_or : Exit HttpError (H × Bytes) → Exit Fault (Option Text × Bytes)
    fault_or (stop e) = stop failed
    fault_or (pass r) = pass (status_header r.0, r.1)

    -- `HyperTransport`
    abbrev pub hyper_transport : Option AuthHeader → ℕ → Transport W
    hyper_transport auth timeout_ms = record {
      post_grpc_web =
          λ url body w. let r = post_grpc_web url body auth timeout_ms w in (fault_or r.0, r.1);
      sleep_ms = stack.sleep_ms;
      now_ms = stack.wall_ms;
    }
