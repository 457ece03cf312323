-- ===== src/Headers.antt =====
-- core/src/headers.rs: the header and path policy. A header map is not modelled here: each platform
-- applies these predicates to its own.
pub mod Via
use nft_gate.Base.{
  Bool, false, not, ◌&&◌, ◌||◌, Option, none, some, List, [], ◌∷◌, ltb, ◌==◌, if◌then◌else◌, any,
}
use nft_gate.Text.{
  Text, codes, text_eq, is_nil, to_ascii_lowercase, eq_ignore_ascii_case, member, starts_with,
  contains, is_whitespace,
}
use nft_gate.Text.Split.{split_on, split_once, split_whitespace, drop_empty, trim, map_text}

abbrev pub hop_by_hop : List Text
hop_by_hop =
    codes "connection"
    ∷ codes "keep-alive"
    ∷ codes "proxy-authenticate"
    ∷ codes "proxy-authorization"
    ∷ codes "proxy-connection"
    ∷ codes "te"
    ∷ codes "trailer"
    ∷ codes "transfer-encoding"
    ∷ codes "upgrade"
    ∷ []

abbrev pub via_token : Text
via_token = codes "1.1 nft-gate"

-- `nth(1)`
abbrev pub second : List Text → Option Text
second (a ∷ b ∷ rest) = some b
second other = none

abbrev pub own_name : Text
own_name = codes "nft-gate"

-- One entry of a `Via` list: `protocol received-by [comment]`.
unfoldable pub names_gateway : Text → Bool
names_gateway entry = elim (second (split_whitespace entry)) [
  | none ↦ false
  | some by ↦ eq_ignore_ascii_case by own_name
]

unfoldable pub via_is_looped : Text → Bool
via_is_looped via = any names_gateway (split_on b',' via)

abbrev pub request_strip : List Text
request_strip =
    codes "host"
    ∷ codes "authorization"
    ∷ codes "x-access-proof"
    ∷ codes "content-length"
    ∷ codes "cookie"
    ∷ codes "forwarded"
    ∷ codes "via"
    ∷ codes "x-forwarded-for"
    ∷ codes "x-forwarded-host"
    ∷ codes "x-forwarded-proto"
    ∷ codes "x-real-ip"
    ∷ []

abbrev pub response_strip : List Text
response_strip =
    codes "content-length" ∷ codes "set-cookie" ∷ codes "set-cookie2" ∷ codes "alt-svc" ∷ []

unfoldable pub connection_named : Text → List Text
connection_named connection =
    drop_empty (map_text (λ t. to_ascii_lowercase (trim t)) (split_on b',' connection))

unfoldable pub is_safe_path : Text → Bool
is_safe_path path =
    let lower = to_ascii_lowercase path in
    not (
      contains (codes "%2f") lower
      || (contains (codes "%5c") lower
          || (contains (codes "%00") lower
              || (contains (codes "%2e%2e") lower
                  || (contains (codes "\\") path
                      || (contains (codes "//") path
                          || (any (λ seg. text_eq seg (codes "..")) (split_on b'/' path)
                              || any (λ b. ltb b 0x20 || b == 0x7f) path)))))))

unfoldable pub drop_request_header : Text → List Text → Bool
drop_request_header name named =
    member name hop_by_hop
    || (any (λ n. text_eq n name) named
        || (member name request_strip || starts_with (codes "cf-access-") name))

unfoldable pub drop_response_header : Text → List Text → Bool
drop_response_header name named =
    member name hop_by_hop
    || (any (λ n. text_eq n name) named
        || (member name response_strip || starts_with (codes "access-control-") name))

abbrev pub fallback_token : Option Text → Option Text
fallback_token none = none
fallback_token (some s) = some (trim s)

unfoldable pub bearer_token : Text × Text → Option Text → Option Text
bearer_token (scheme, rest) x_access_proof =
    let token = trim rest in
    if eq_ignore_ascii_case scheme (codes "bearer") && not (is_nil token)
    then some token
    else fallback_token x_access_proof

abbrev split_authorization : Option Text → Option (Text × Text)
split_authorization none = none
split_authorization (some s) = split_once is_whitespace s

unfoldable pub extract_proof_token : Option Text → Option Text → Option Text
unfolding bearer_token
extract_proof_token authorization x_access_proof = elim (split_authorization authorization) [
  | none ↦ fallback_token x_access_proof
  | some parts ↦ bearer_token parts x_access_proof
]

abbrev pub cors_grants : List (Text × Text)
cors_grants =
    (codes "access-control-allow-methods", codes "GET, POST, PUT, HEAD, OPTIONS")
    ∷ (codes "access-control-allow-headers", codes "authorization, content-type, x-access-proof")
    ∷ (codes "access-control-expose-headers", codes "location, upload-offset")
    ∷ (codes "access-control-max-age", codes "86400")
    ∷ []

unfoldable pub cors_allowed_origin : Option Text → List Text → Option Text
cors_allowed_origin none allowed = none
cors_allowed_origin (some o) allowed = if any (λ a. text_eq a o) allowed then some o else none
