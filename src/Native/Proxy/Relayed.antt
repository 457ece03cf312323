-- ===== src/Native/Proxy/Relayed.antt =====
-- What an answer that comes from the upstream went through.
use nft_gate.Base.{
  ℕ, ◌*◌, ◌≤◌, ◌≡◌, refl, ◌⊎◌, inl, inr, false, none, arith, Bool-cases, Option-cases, length,
}
use nft_gate.Text.{Text, codes}
use nft_gate.Config.{GatewayConfig}
use nft_gate.Forward.{Preflight, preflight, is_redirect}
use nft_gate.Grpc.Wire.{Bytes}
use nft_gate.Ports.{Result, Exit, stop, pass, some_or}
use nft_gate.Ports.Laws.{>>=-eq-pass}
use nft_gate.Native.HeaderMap.{HeaderMap}
use nft_gate.Native.Headers.{upstream_request_headers, client_response_headers}
use nft_gate.Native.HttpClient.{
  HttpRequest, HttpResponse, Stack, IsBounded, HttpError, timed_out, broken, insert_auth,
  insert_auths, append_all, exchange, send, proxy_request,
}
use nft_gate.Native.HttpClient
use nft_gate.Native.Proxy.{
  Request, Response, relayed, declared_length, target, answered, send_upstream, relay,
  read_and_relay, forward,
}

Result-cases :
    {A : Type 0} (r : Result A) → ((a : A) × (r ≡ Result.ok a)) ⊎ ((e : Text) × (r ≡ Result.err e))
Result-cases (Result.ok a) = inl (a, refl)
Result-cases (Result.err e) = inr (e, refl)

relayed-injective :
    {H W : Type 0} {a b : HttpResponse H Bytes} {w w' : W}
    → ◌≡◌ {A = Response H × W} (relayed a, w) (relayed b, w')
    → b ≡ a
relayed-injective h = cc

-- The answer to the client comes from the upstream.
module _ {H V B W : Type 0} (m : HeaderMap H V) (stack : Stack H B W) (bounded : IsBounded stack)
    (cfg : GatewayConfig) where
  exchange-length :
      (req : HttpRequest H) (max : ℕ) (w : W) {resp : HttpResponse H Bytes} {w' : W}
      → exchange m stack req max w ≡ (pass resp, w')
      → length resp.body ≤ max
  unfolding exchange
  exchange-length req max w {resp} h = elim (Result-cases (stack.request req w).0) [
    | inr (e, failed) ↦ absurd (ground (arith, failed))
    | inl (got, good) ↦
        let w₁ = (stack.request req w).1 in
        elim (Result-cases (stack.collect max got.body w₁).0) [
          | inr (e, failed) ↦ absurd (ground (arith, good, failed))
          | inl (bytes, read) ↦
              ground (arith, good, read, bounded.length-collect max got.body w₁ read)
        ]
  ]

  send-length :
      (req : HttpRequest H) (timeout_ms max : ℕ) (w : W) {resp : HttpResponse H Bytes} {w' : W}
      → send m stack req timeout_ms max w ≡ (pass resp, w')
      → length resp.body ≤ max
  unfolding send
  send-length req timeout_ms max w {resp} {w'} h =
      elim (Option-cases (stack.cancelled timeout_ms w (exchange m stack req max w).1)) [
        | inr (v, late) ↦ absurd (ground (arith, late))
        | inl fine ↦ exchange-length req max w (rw (send, fine) at h)
      ]

  send_upstream-length :
      (req : Request H B) (bytes : Bytes) (w : W) {resp : HttpResponse H Bytes} {w' : W}
      → send_upstream m stack cfg req bytes w ≡ (pass resp, w')
      → length resp.body ≤ cfg.max_response_bytes
  unfolding HttpClient.forward
  send_upstream-length req bytes w {resp} {w'} h =
      let (made, w₁, built, run) =
        >>=-eq-pass
          (some_or
            (proxy_request m stack req.method (target m stack cfg req)
              (upstream_request_headers m req.headers) bytes cfg.upstream_auth_headers)
            (broken (codes "failed to build proxy request")))
          (λ r. send m stack r (cfg.upstream_timeout_secs * 1000) cfg.max_response_bytes) w h in
      send-length made (cfg.upstream_timeout_secs * 1000) cfg.max_response_bytes w₁ run

  pub record IsRelayed (req : Request H B) (resp : HttpResponse H Bytes) (w w' : W) : Type 0 where
    pub preflight :
        preflight req.method req.path (declared_length m stack cfg req.headers) cfg.max_body_bytes
        ≡ Preflight.pass
    pub bytes : Bytes
    pub w₁ : W
    pub read : stack.to_bytes cfg.max_body_bytes req.body w ≡ (Result.ok bytes, w₁)
    pub in_time : stack.cancelled (cfg.body_read_timeout_secs * 1000) w w₁ ≡ none
    pub size : length bytes ≤ cfg.max_body_bytes
    pub answer : HttpResponse H Bytes
    pub sent : send_upstream m stack cfg req bytes w₁ ≡ (pass answer, w')
    pub direct : is_redirect resp.status ≡ false
    pub same : resp ≡ record answer { headers = client_response_headers m answer.headers }
    pub small : length resp.body ≤ cfg.max_response_bytes

  answered-relayed :
      (r : Exit HttpError (HttpResponse H Bytes) × W) {resp : HttpResponse H Bytes} {w' : W}
      → answered m stack cfg r ≡ (relayed resp, w')
      → (answer : HttpResponse H Bytes) × (r ≡ (pass answer, w'))
        × (is_redirect answer.status ≡ false)
        × (resp ≡ record answer { headers = client_response_headers m answer.headers })
  unfolding answered
  answered-relayed (pass answer, w) {resp} h = elim (Bool-cases (is_redirect answer.status)) [
    | inl moved ↦ absurd (ground (arith, moved))
    | inr stays ↦
        let h' = rw (answered, stays) at h in (answer, ground arith, stays, relayed-injective h')
  ]
  answered-relayed (stop timed_out, w) h = absurd (ground arith)
  answered-relayed (stop (broken e), w) h = absurd (ground arith)

  -- Where a limited read gives no more bytes than its limit, the proxy relays an answer only to
  -- a request that passes the preflight and whose body was read in time and within the limit,
  -- after one call of the client that succeeded, and then it is the answer of that call with the
  -- fields that the policy keeps, within the limit, and no redirect.
  pub forward-IsRelayed :
      (req : Request H B) (w : W) (resp : HttpResponse H Bytes) (w' : W)
      → forward m stack cfg req w ≡ (relayed resp, w')
      → IsRelayed req resp w w'
  unfolding forward read_and_relay relay
  forward-IsRelayed req w resp w' h =
      go
        (preflight req.method req.path (declared_length m stack cfg req.headers) cfg.max_body_bytes)
        refl
    where
      go :
          (p : Preflight)
          → preflight req.method req.path
              (declared_length m stack cfg req.headers)
              cfg.max_body_bytes
            ≡ p
          → IsRelayed req resp w w'
      go (Preflight.refuse r) e = absurd (ground (arith, e))
      go Preflight.pass e =
          let read = stack.to_bytes cfg.max_body_bytes req.body w in
          elim (Option-cases (stack.cancelled (cfg.body_read_timeout_secs * 1000) w read.1)) [
            | inr (v, late) ↦ absurd (ground (arith, e, late))
            | inl fine ↦ elim (Result-cases read.0) [
              | inr (m', failed) ↦ absurd (ground (arith, e, fine, failed))
              | inl (bytes, got) ↦
                  let (answer, sent, direct, same) =
                    answered-relayed (send_upstream m stack cfg req bytes read.1) {resp = resp}
                      {w' = w'} (ground (arith, e, fine, got)) in
                  record {
                    preflight = e;
                    bytes = bytes;
                    w₁ = read.1;
                    read = ground (arith, got);
                    in_time = fine;
                    size = bounded.length-to_bytes cfg.max_body_bytes req.body w got;
                    answer = answer;
                    sent = sent;
                    direct = ground (arith, direct, same);
                    same = same;
                    small = ground (arith, same, send_upstream-length req bytes read.1 sent);
                  }
            ]
          ]
