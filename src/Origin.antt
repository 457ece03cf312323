-- ===== src/Origin.antt =====
-- core/src/origin.rs: canonical origins, and the comparison for the request-loop guard.
pub mod Laws
use nft_gate.Base.{
  ℕ, zero, suc, Bool, true, false, not, ◌&&◌, ◌||◌, Option, none, some, List, [], ◌∷◌, ◌++◌, ltb,
  leb, ◌==◌, if◌then◌else◌, all, any, length,
}
use nft_gate.Text.{
  Text, codes, text_eq, is_nil, len, is_digit, is_lower, strip_prefix, to_ascii_lowercase,
}
use nft_gate.Text.Split.{
  split_by, split_once, rsplit_once, split_once_str, strip_suffix, ends_by, starts_by, first_piece,
}
use nft_gate.Forward.{decimal}

abbrev pub is_host_char : ℕ → Bool
is_host_char b = is_digit b || (is_lower b || (b == b'.' || b == b'-'))

abbrev is_edge : ℕ → Bool
is_edge c = c == b'.' || c == b'-'

unfoldable pub host_ok : Text → Bool
unfolding starts_by ends_by
host_ok host =
    not (is_nil host)
    && (all is_host_char host && (not (starts_by is_edge host) && not (ends_by is_edge host)))

abbrev pub is_loopback : Text → Bool
is_loopback host = text_eq host (codes "localhost") || text_eq host (codes "127.0.0.1")

-- A port of at most five digits is within `u32`.
unfoldable pub port_ok : Text → Option Text → Bool
unfolding len decimal starts_by
port_ok default_port none = true
port_ok default_port (some p) =
    let n = decimal 0 p in
    not (text_eq p default_port)
    && (not (starts_by (λ c. c == b'0') p)
        && (leb (len p) 5 && (all is_digit p && (not (is_nil p) && (leb 1 n && leb n 65535)))))

-- `rsplit_once(':')`, but for a colon within brackets
unfoldable pub host_and_port : Text → Text × Option Text
unfolding starts_by ends_by
host_and_port rest = elim (rsplit_once b':' rest) [
  | none ↦ (rest, none)
  | some (h, p) ↦
      if not (ends_by (λ c. c == b']') h) || starts_by (λ c. c == b'[') h
      then (h, some p)
      else (rest, none)
]

unfoldable pub origin_parts_ok : Text → Bool → Text × Option Text → Bool
unfolding host_ok port_ok
origin_parts_ok default_port http (host, port) =
    host_ok host && (port_ok default_port port && (not http || is_loopback host))

unfoldable pub is_canonical_origin : Text → Bool
unfolding host_and_port origin_parts_ok
is_canonical_origin o = elim (strip_prefix (codes "https://") o) [
  | some r ↦ origin_parts_ok (codes "443") false (host_and_port r)
  | none ↦ elim (strip_prefix (codes "http://") o) [
    | some r ↦ origin_parts_ok (codes "80") true (host_and_port r)
    | none ↦ false
  ]
]

abbrev is_authority_end : ℕ → Bool
is_authority_end c = c == b'/' || (c == b'?' || c == b'#')

abbrev pub default_port_of : Text → Text
default_port_of scheme =
    if text_eq scheme (codes "https")
    then codes ":443"
    else if text_eq scheme (codes "http")
    then codes ":80"
    else codes ""

-- The part of a URL before the path, query and fragment.
abbrev pub authority_of : Text → Text
authority_of rest = first_piece (split_by is_authority_end rest)

abbrev without_port : Text → Text → Text
without_port default_port authority = elim (strip_suffix default_port authority) [
  | none ↦ authority
  | some host ↦ if not (is_nil default_port) then host else authority
]

abbrev scheme_and_rest : Text → Text × Text
scheme_and_rest url = elim (split_once_str (codes "://") url) [
  | none ↦ (codes "", url)
  | some parts ↦ parts
]

unfoldable pub normalized_origin : Text → Text
normalized_origin url =
    let parts = scheme_and_rest url in
    let scheme = to_ascii_lowercase parts.0 in
    scheme
    ++ (codes "://"
        ++ without_port (default_port_of scheme) (to_ascii_lowercase (authority_of parts.1)))
