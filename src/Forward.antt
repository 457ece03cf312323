-- ===== src/Forward.antt =====
-- core/src/forward.rs: which requests may be forwarded, and how a failed forward is answered.
pub mod Decimal
use Prim.Native.String.{String}
use nft_gate.Base.{
  ℕ, ◌+◌, ◌*◌, ◌-◌, Bool, false, not, ◌&&◌, Option, none, some, List, [], ◌∷◌, ltb, leb,
  if◌then◌else◌, all,
}
use nft_gate.Base.Words.{u64_max}
use nft_gate.Text.{Text, codes, is_nil, is_digit, member, strip_prefix}
use nft_gate.Text.Split.{trim}
use nft_gate.Headers.{is_safe_path}

abbrev pub forwarded_methods : List Text
forwarded_methods = codes "GET" ∷ codes "HEAD" ∷ codes "POST" ∷ codes "PUT" ∷ []

unfoldable pub is_forwarded_method : Text → Bool
is_forwarded_method method = member method forwarded_methods

pub record Refusal : Type 0 where
  pub status : ℕ
  pub reason : String

abbrev pub method_not_allowed : Refusal
method_not_allowed = record { status = 405; reason = "method not allowed" }

abbrev pub invalid_path : Refusal
invalid_path = record { status = 400; reason = "invalid path" }

abbrev pub body_too_large : Refusal
body_too_large = record { status = 413; reason = "request body too large" }

abbrev pub body_timed_out : Refusal
body_timed_out = record { status = 408; reason = "request body timed out" }

abbrev pub upstream_timed_out : Refusal
upstream_timed_out = record { status = 504; reason = "upstream timed out" }

abbrev pub upstream_error : Refusal
upstream_error = record { status = 502; reason = "upstream error" }

unfoldable pub decimal : ℕ → Text → ℕ
decimal acc [] = acc
decimal acc (c ∷ s) = decimal (acc * 10 + (c - b'0')) s

-- `parse::<u64>()`: an optional `+`, at least one digit, and no overflow.
abbrev pub unsigned : Text → Text
unsigned s = elim (strip_prefix (codes "+") s) [ none ↦ s | some rest ↦ rest ]

unfoldable pub parse_u64 : Text → Option ℕ
unfolding decimal strip_prefix
parse_u64 s =
    let digits = unsigned s in
    let n = decimal 0 digits in
    if not (is_nil digits) && (all is_digit digits && leb n u64_max) then some n else none

unfoldable pub declared_too_large : Option Text → ℕ → Bool
declared_too_large none max_bytes = false
declared_too_large (some v) max_bytes = elim (parse_u64 (trim v)) [
  | none ↦ false
  | some n ↦ ltb max_bytes n
]

pub data Preflight : Type 0 where
  pass : Preflight
  refuse : Refusal → Preflight

unfoldable pub preflight : Text → Text → Option Text → ℕ → Preflight
preflight method path content_length max_body_bytes =
    if not (is_forwarded_method method)
    then refuse method_not_allowed
    else if not (is_safe_path path)
    then refuse invalid_path
    else if declared_too_large content_length max_body_bytes
    then refuse body_too_large
    else pass

unfoldable pub is_redirect : ℕ → Bool
is_redirect status = leb 300 status && ltb status 400
