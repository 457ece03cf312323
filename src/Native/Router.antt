-- ===== src/Native/Router.antt =====
-- gateway-rust/src/main.rs: what the server does with one request, around `Gateway::handle` of the core.
-- The routing of `/healthz` and the shedding of load are axum's and tower's.
pub mod Cors
use nft_gate.Base.{ℕ, Bool, ◌&&◌, Option, none, some, List, [], ◌∷◌, ltb, leb, if◌then◌else◌}
use nft_gate.Text.{Text, codes, text_eq, starts_with}
use nft_gate.Headers.{cors_grants, cors_allowed_origin}
use nft_gate.Net.{Addresses, client_ip}
use nft_gate.Grpc.Wire.{Bytes}
use nft_gate.Gateway.{RequestHead, Body, JsonReply}
use nft_gate.Native.HeaderMap.{HeaderMap, first}
use nft_gate.Native.Headers.{texts, filter_text, joined, remove_all}
use nft_gate.Native.HttpClient.{HttpResponse}
use nft_gate.Native.Proxy.{Request, Response, refused, relayed}

-- A body as the server writes it: JSON, the bytes of the upstream, or nothing.
pub data Content : Type 0 where
  json_body : Body → Content
  bytes_body : Bytes → Content
  no_body : Content

abbrev pub HttpReply : Type 0 → Type 0
HttpReply H = HttpResponse H Content

-- `StatusCode::from_u16(…).unwrap_or(BAD_GATEWAY)`
unfoldable pub status_code : ℕ → ℕ
status_code n = if leb 100 n && ltb n 1000 then n else 502

module _ {H V : Type 0} (m : HeaderMap H V) where
  -- The headers that axum sets beside a JSON body
  abbrev pub json_headers : H
  json_headers = m.insert (codes "content-type") (m.from_static (codes "application/json")) m.empty

  abbrev pub with_allow : Option Text → H → H
  with_allow none h = h
  with_allow (some allow) h = m.insert (codes "allow") (m.from_static allow) h

  abbrev allow_text : JsonReply → Option Text
  allow_text reply = elim reply.allow [ none ↦ none | some a ↦ some (codes a) ]

  unfoldable pub render : JsonReply → HttpReply H
  render reply = record {
    status = status_code reply.status;
    headers = with_allow (allow_text reply) json_headers;
    body = json_body reply.body;
  }

  -- The answer of proxy.rs as axum writes it
  unfoldable pub into_reply : Response H → HttpReply H
  into_reply (refused r) = record {
    status = status_code r.status;
    headers = json_headers;
    body = json_body (Body.error_body r.reason);
  }
  into_reply (relayed resp) = record {
    status = resp.status;
    headers = resp.headers;
    body = bytes_body resp.body;
  }

  abbrev pub text_of : H → Text → Option Text
  text_of headers name = elim (first (m.get_all name headers)) [ none ↦ none | some v ↦ m.to_str v ]

  module _ (addresses : Addresses) {B : Type 0} where
    -- `peer` is the address of the TCP connection, as it prints.
    unfoldable pub request_head : ℕ → Option Text → Request H B → RequestHead
    request_head trusted_proxy_hops peer req = record {
      method = req.method;
      path = req.path;
      authorization = text_of req.headers (codes "authorization");
      x_access_proof = text_of req.headers (codes "x-access-proof");
      via = joined m req.headers (codes "via");
      client_ip =
          client_ip addresses (texts m.to_str (m.get_all (codes "x-forwarded-for") req.headers))
            peer trusted_proxy_hops;
    }

  -- The middleware, around what the inner handler does
  abbrev pub allowed_origin : List Text → H → Option V
  allowed_origin allowed_origins headers = elim (first (m.get_all (codes "origin") headers)) [
    | none ↦ none
    | some v ↦ elim (cors_allowed_origin (m.to_str v) allowed_origins) [
      | none ↦ none
      | some o ↦ m.from_str o
    ]
  ]

  unfoldable pub insert_grants : List (Text × Text) → H → H
  insert_grants [] h = h
  insert_grants (g ∷ gs) h = insert_grants gs (m.insert g.0 (m.from_static g.1) h)

  abbrev pub is_cors_field : Text → Bool
  is_cors_field = starts_with (codes "access-control-")

  abbrev insert_origin : Option V → H → H
  insert_origin none h = h
  insert_origin (some o) h = m.insert (codes "access-control-allow-origin") o h

  unfoldable pub cors_headers : Option V → H → H
  cors_headers allowed headers = insert_origin allowed (
      m.append (codes "vary") (m.from_static (codes "Origin")) (
        insert_grants cors_grants
          (remove_all m (filter_text is_cors_field (m.keys headers)) headers)))

  unfoldable pub cors :
      {W : Type 0} → List Text → Text → H → (W → HttpReply H × W) → W → HttpReply H × W
  cors allowed_origins method headers next w =
      let done =
        if text_eq method (codes "OPTIONS")
        then (record { status = 204; headers = m.empty; body = no_body }, w)
        else next w in
      (
        record (done.0) {
          headers = cors_headers (allowed_origin allowed_origins headers) done.0.headers;
        },
        done.1,
      )
