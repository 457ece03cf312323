-- ===== src/Gateway.antt =====
-- core/src/gateway.rs: what the gateway does with one request.
pub mod Served
pub mod Counted
pub mod Memory
pub mod DoubleSpend
use Prim.Native.String.{String}
use nft_gate.Base.{
  ℕ, Bool, true, false, not, ◌&&◌, ◌||◌, Option, none, some, List, ◌++◌, ltb, leb, if◌then◌else◌,
}
use nft_gate.Text.{Text, codes, text_eq}
use nft_gate.External.{Crates}
use nft_gate.Config.{GatewayConfig, is_public_path}
use nft_gate.State.{RateScope, challenge, gated_preauth, address}
use nft_gate.State
use nft_gate.Redemption.Leases.{Lease, Commit, leased, redeemed, lost}
use nft_gate.Headers.{via_is_looped, extract_proof_token}
use nft_gate.Forward.{is_forwarded_method}
use nft_gate.Decision.{
  Denied, chain_error, state_unavailable, reason, Verified, verify_params, verify_access_request,
}
use nft_gate.Ports.{
  Result, ForwardKind, Ports, Exit, stop, pass, Run, pure, throw, bind, ◌>>=◌, ◌>>◌, some_or,
  check_that,
}

pub record RequestHead : Type 0 where
  pub method : Text
  pub path : Text
  pub authorization : Option Text
  pub x_access_proof : Option Text
  pub via : Option Text
  pub client_ip : Text

-- The JSON bodies that the gateway sends: `{"error"}`, `{"error", "code"}`, `{"nonce", "expiresAt"}`.
pub data Body : Type 0 where
  error_body : String → Body
  coded_body : (error code : String) → Body
  nonce_body : Text → ℕ → Body

pub record JsonReply : Type 0 where
  pub status : ℕ
  pub body : Body
  pub allow : Option String
  pub diag : Option Text

abbrev pub new_reply : ℕ → Body → JsonReply
new_reply status body = record { status = status; body = body; allow = none; diag = none }

abbrev pub error : ℕ → String → JsonReply
error status reason = new_reply status (error_body reason)

abbrev pub coded : ℕ → String → String → JsonReply
coded status reason code = new_reply status (coded_body reason code)

abbrev pub with_diag : JsonReply → Text → JsonReply
with_diag r diag = record r { diag = some diag }

pub data Reply (R : Type 0) : Type 0 where
  json : JsonReply → Reply R
  upstream : R → Reply R

unfoldable pub denied_status : Denied → ℕ
denied_status chain_error = 502
denied_status state_unavailable = 503
denied_status d = 403

abbrev pub denied_reply : Denied → JsonReply
denied_reply d = error (denied_status d) (reason d)

abbrev pub rate_limited : JsonReply
rate_limited = error 429 "rate limit exceeded"

abbrev pub unavailable : String → Text → JsonReply
unavailable what e =
    with_diag (error 503 "gateway state unavailable") (codes what ++ (codes ": " ++ e))

abbrev pub or_empty : Option Text → Text
or_empty none = codes ""
or_empty (some s) = s

abbrev pub as_reply : {W R : Type 0} → Exit JsonReply R × W → Reply R × W
as_reply (stop r, w) = (json r, w)
as_reply (pass resp, w) = (upstream resp, w)

abbrev pub is_success : ℕ → Bool
is_success status = leb 200 status && ltb status 300

module _ {W Resp : Type 0} (crates : Crates) (ports : Ports W Resp) (cfg : GatewayConfig) where
  abbrev charged : Result Bool → Exit JsonReply (Unit {0})
  charged (Result.ok true) = pass tt
  charged (Result.ok false) = stop rate_limited
  charged (Result.err e) = stop (unavailable "rate check failed" e)

  unfoldable pub charge : RateScope → Text → Run W JsonReply (Unit {0})
  charge scope key w = let r = ports.rate_check scope key w in (charged r.0, r.1)

  abbrev challenge_reply : Result (Text × ℕ) → JsonReply
  challenge_reply (Result.ok (nonce, expires_at)) = new_reply 200 (nonce_body nonce expires_at)
  challenge_reply (Result.err e) = unavailable "nonce issue failed" e

  -- `GET /v1/challenge`
  unfoldable pub issue_challenge : RequestHead → Run W JsonReply Resp
  unfolding charge
  issue_challenge head = do
    charge challenge head.client_ip
    λ w. let r = ports.issue_nonce w in (stop (challenge_reply r.0), r.1)

  unfoldable pub forward_as : ForwardKind → Run W JsonReply Resp
  forward_as kind w = let r = ports.forward kind w in (pass r.0, r.1)

  -- The public passthrough, read-only.
  unfoldable pub serve_public : RequestHead → Run W JsonReply Resp
  unfolding charge forward_as
  serve_public head = do
    check_that (text_eq head.method (codes "GET") || text_eq head.method (codes "HEAD"))
        (record (error 405 "method not allowed") { allow = some "GET, HEAD" })
    charge State.public head.client_ip
    forward_as ForwardKind.public

  -- After a lease and a successful forward: commit, or release where the commit fails.
  abbrev settled : Text → Text → Resp → Result Commit × W → Exit JsonReply Resp × W
  settled key token resp (Result.ok Commit.ok, w) = (pass resp, w)
  settled key token resp (Result.ok lost, w) = (
    stop (
        with_diag (error 502 "redemption lease lost")
          (codes "redemption lease lost before commit")),
    w,
  )
  settled key token resp (Result.err e, w) = (
    stop (
        with_diag (error 502 "redemption commit failed") (codes "commit_redemption failed: " ++ e)),
    ports.release_redemption key token w,
  )

  -- The upload under a lease.
  unfoldable pub forward_leased : Text → Text → Run W JsonReply Resp
  forward_leased key token w =
      let r = ports.forward ForwardKind.gated w in
      if not (is_success (ports.status r.0))
      then (pass r.0, ports.release_redemption key token r.1)
      else settled key token r.0
          (ports.commit_redemption key token cfg.redemption_retention_secs r.1)

  abbrev leased_or : Text → Result Lease × W → Exit JsonReply Resp × W
  leased_or key (Result.err e, w) = (stop (unavailable "redemption store failed" e), w)
  leased_or key (Result.ok redeemed, w) =
      (stop (coded 409 "this consume has already been redeemed for an upload" "redeemed"), w)
  leased_or key (Result.ok leased, w) =
      (stop (coded 409 "an upload for this consume is already in progress" "leased"), w)
  leased_or key (Result.ok (Lease.ok token), w) = forward_leased key token w

  unfoldable pub redeem_and_forward : Text → Run W JsonReply Resp
  unfolding forward_leased
  redeem_and_forward key w =
      leased_or key (ports.try_lease_redemption key cfg.redemption_lease_ttl_secs w)

  -- `verify_access_request(…)`, a denial as its reply
  abbrev verified_or : Exit Denied Verified → Exit JsonReply Verified
  verified_or (stop d) = stop (denied_reply d)
  verified_or (pass v) = pass v

  unfoldable pub verify : Text → Run W JsonReply Verified
  verify token w =
      let r = verify_access_request crates ports (verify_params cfg) token w in
      (verified_or r.0, r.1)

  abbrev pub spend : Option Text → Run W JsonReply Resp
  spend none = forward_as ForwardKind.gated
  spend (some key) = redeem_and_forward key

  -- The gated path, from the method check on.
  unfoldable pub serve_gated : RequestHead → Run W JsonReply Resp
  unfolding charge verify forward_as
  serve_gated head = do
    check_that (is_forwarded_method head.method) (error 405 "method not allowed")
    token ←
        some_or (extract_proof_token head.authorization head.x_access_proof)
          (error 401 "missing access proof")
    charge gated_preauth head.client_ip
    verified ← verify token
    charge address verified.address
    spend verified.redemption_key

  unfoldable pub route : RequestHead → Run W JsonReply Resp
  route head =
      if via_is_looped (or_empty head.via)
      then throw (error 508 "loop detected")
      else if text_eq head.method (codes "GET") && text_eq head.path (codes "/v1/challenge")
      then issue_challenge head
      else if is_public_path cfg head.path
      then serve_public head
      else serve_gated head

  unfoldable pub handle : RequestHead → W → Reply Resp × W
  unfolding route
  handle head w = as_reply (route head w)
