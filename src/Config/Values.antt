-- ===== src/Config/Values.antt =====
-- core/src/config.rs: the parsers of single variables. An error is `none`: its wording is not
-- modelled.
use nft_gate.Base.{
  ℕ, Bool, true, false, not, ◌&&◌, ◌||◌, Option, none, some, List, [], ◌∷◌, ltb, leb, ◌==◌,
  if◌then◌else◌, all, any,
}
use nft_gate.Base.Options.{◌>>=◌}
use nft_gate.Text.{
  Text, codes, text_eq, is_nil, len, is_digit, is_alphanumeric, is_hex, strip_prefix, starts_with,
}
use nft_gate.Text.Split.{
  split_on, split_once, split_once_str, drop_empty, map_text, trim, first_piece,
}
use nft_gate.External.{Crates, Json, Items, nil, cons, as_object, as_array, as_str, get}
use nft_gate.Forward.{decimal}
use nft_gate.Origin.{is_canonical_origin, authority_of}
use nft_gate.Config.{AuthHeader}

-- `&dyn Env`
abbrev pub Env : Type 0
Env = Text → Option Text

-- `contains(c)` for a character
abbrev has : ℕ → Text → Bool
has d = any (λ c. c == d)

abbrev is_line_break : ℕ → Bool
is_line_break c = c == 13 || c == 10

unfoldable pub is_header_name : Text → Bool
is_header_name name =
    not (is_nil name) && all (λ b. is_alphanumeric b || has b (codes "!#$%&'*+-.^_`|~")) name

unfoldable pub is_header_value : Text → Bool
is_header_value v = not (any is_line_break v)

-- `filter(p)` on an optional text
abbrev pub only : (Text → Bool) → Option Text → Option Text
only p none = none
only p (some v) = if p v then some v else none

-- `h[key].as_str()`
abbrev text_at : Text → Json → Option Text
text_at key h = do obj ← as_object h; v ← get key obj; as_str v

unfoldable pub auth_header_of : Json → Option AuthHeader
unfolding is_header_name is_header_value get
auth_header_of h = do
  name ← only is_header_name (text_at (codes "name") h)
  value ← only is_header_value (text_at (codes "value") h)
  some (record { name = name; value = value })

unfoldable pub auth_headers_of : Items → Option (List AuthHeader)
unfolding auth_header_of
auth_headers_of nil = some []
auth_headers_of (cons h hs) =
    let rest = auth_headers_of hs in do a ← auth_header_of h; others ← rest; some (a ∷ others)

unfoldable pub parse_upstream_auth_headers : Crates → Option Text → Option (List AuthHeader)
unfolding auth_headers_of trim
parse_upstream_auth_headers crates raw = elim (only (λ s. not (is_nil (trim s))) raw) [
  | none ↦ some []
  | some text ↦ do v ← crates.parse_json_text text; items ← as_array v; auth_headers_of items
]

unfoldable pub parse_rpc_auth_header : Option Text → Option (Option AuthHeader)
unfolding is_header_name is_header_value trim split_once
parse_rpc_auth_header none = some none
parse_rpc_auth_header (some raw) =
    if is_nil (trim raw) then some none else elim (split_once (λ c. c == b':') (trim raw)) [
      | none ↦ none
      | some (n, v) ↦
          if is_header_name (trim n) && (not (is_nil (trim v)) && is_header_value v)
          then some (some (record { name = trim n; value = trim v }))
          else none
    ]

-- What follows the first `://`.
abbrev after_scheme : Text → Text
after_scheme url = elim (split_once_str (codes "://") url) [ none ↦ url | some (a, b) ↦ b ]

unfoldable pub check_scheme : Text → Bool → Bool
unfolding starts_with split_once_str first_piece
check_scheme url allow_http =
    let authority = authority_of (after_scheme url) in
    (starts_with (codes "https://") url || (allow_http && starts_with (codes "http://") url))
    && (not (has b'@' authority)
        && (not (is_nil authority) && not (any (λ b. leb b 0x20 || (b == 0x7f || b == b'\\')) url)))

unfoldable pub required : Env → Text → Option Text
unfolding trim
required env key = elim (env key) [
  | none ↦ none
  | some v ↦ if is_nil (trim v) then none else some (trim v)
]

-- The type that the digits are parsed as holds every number up to `max`, so that what it cannot hold
-- is out of range.
unfoldable pub int : Env → Text → ℕ → ℕ → ℕ → Option ℕ
unfolding trim decimal
int env key default min max = elim (env key) [
  | none ↦ some default
  | some raw ↦
      let n = decimal 0 (trim raw) in
      if is_nil (trim raw) || not (all is_digit (trim raw))
      then none
      else if ltb n min || ltb max n
      then none
      else some n
]

unfoldable pub boolean : Env → Text → Bool → Option Bool
boolean env key default = elim (env key) [
  | none ↦ some default
  | some v ↦
      if text_eq v (codes "true")
      then some true
      else if text_eq v (codes "false")
      then some false
      else none
]

-- `map(…).collect()` into a result: every entry must pass.
unfoldable pub all_plain : (Text → Bool) → List Text → Option (List Text)
all_plain p ws = if all p ws then some ws else none

-- `split(',').map(str::trim).filter(|s| !s.is_empty())`
abbrev pub entries : Text → List Text
entries raw = drop_empty (map_text trim (split_on b',' raw))

unfoldable pub is_plain_path : Text → Bool
unfolding starts_with
is_plain_path p =
    starts_with (codes "/") p
    && (all
          (λ b.
            is_alphanumeric b
            || (b == b'.' || (b == b'_' || (b == b'~' || (b == b'-' || b == b'/')))))
          p
        && not (any (λ seg. text_eq seg (codes "..") || text_eq seg (codes ".")) (split_on b'/' p)))

unfoldable pub parse_public_paths : Text → Option (List Text)
unfolding all_plain
parse_public_paths raw = all_plain is_plain_path (entries raw)

unfoldable pub parse_allowed_origins : Text → Bool → Option (List Text)
unfolding all_plain
parse_allowed_origins raw allow_http =
    all_plain (λ o. is_canonical_origin o && (allow_http || starts_with (codes "https://") o))
      (entries raw)

unfoldable pub allow_insecure_http : Env → Option Bool
allow_insecure_http env = elim (env (codes "ALLOW_INSECURE_HTTP")) [
  | none ↦ some false
  | some v ↦
      if is_nil v || text_eq v (codes "0")
      then some false
      else if text_eq v (codes "1")
      then some true
      else none
]

abbrev object_id_body : Option Text → Bool
object_id_body none = false
object_id_body (some h) = not (is_nil h) && (leb (len h) 64 && all is_hex h)

unfoldable pub is_object_id : Text → Bool
unfolding len strip_prefix
is_object_id s = object_id_body (strip_prefix (codes "0x") s)

-- The second and third part of `split("::")`.
abbrev pass_name : Option (Text × Text) → Bool
pass_name none = false
pass_name (some (mod_name, name)) =
    text_eq mod_name (codes "access_gate")
    && (text_eq name (codes "AccessNFT") || text_eq name (codes "SoulboundAccessNFT"))

unfoldable pub is_access_gate_pass_type : Text → Bool
unfolding split_once_str
is_access_gate_pass_type s = elim (split_once_str (codes "::") s) [
  | none ↦ false
  | some (pkg, rest) ↦ is_object_id pkg && pass_name (split_once_str (codes "::") rest)
]
