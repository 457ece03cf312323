-- ===== src/Native/Headers.antt =====
-- gateway-rust/src/headers.rs: the header policy of the core, applied to header maps.
pub mod Laws
use nft_gate.Base.{Bool, Option, none, some, List, [], ◌∷◌, ◌++◌, if◌then◌else◌}
use nft_gate.Text.{Text, codes}
use nft_gate.Headers.{connection_named, drop_request_header, drop_response_header, via_token}
use nft_gate.Native.HeaderMap.{HeaderMap}

-- `filter_map(|v| v.to_str().ok())`
abbrev pub texts : {V : Type 0} → (V → Option Text) → List V → List Text
texts to_str [] = []
texts to_str (v ∷ vs) = elim (to_str v) [ none ↦ texts to_str vs | some s ↦ s ∷ texts to_str vs ]

-- `flat_map(connection_named)`
abbrev all_named : List Text → List Text
all_named [] = []
all_named (s ∷ ss) = connection_named s ++ all_named ss

abbrev pub filter_text : (Text → Bool) → List Text → List Text
filter_text p [] = []
filter_text p (k ∷ ks) = let rest = filter_text p ks in if p k then k ∷ rest else rest

unfoldable pub join_comma : List Text → Text
join_comma [] = []
join_comma (s ∷ []) = s
join_comma (s ∷ t ∷ ss) = s ++ (codes "," ++ join_comma (t ∷ ss))

module _ {H V : Type 0} (m : HeaderMap H V) where
  unfoldable pub named_by_connection : H → List Text
  named_by_connection headers = all_named (texts m.to_str (m.get_all (codes "connection") headers))

  unfoldable pub remove_all : List Text → H → H
  remove_all [] out = out
  remove_all (k ∷ doomed) out = remove_all doomed (m.remove k out)

  unfoldable pub retain : H → (Text → List Text → Bool) → H
  retain headers dropped =
      remove_all (filter_text (λ k. dropped k (named_by_connection headers)) (m.keys headers))
        headers

  unfoldable pub upstream_request_headers : H → H
  upstream_request_headers incoming =
      m.insert (codes "via") (m.from_static via_token) (retain incoming drop_request_header)

  unfoldable pub client_response_headers : H → H
  client_response_headers upstream = retain upstream drop_response_header

  abbrev joined_some : List Text → Option Text
  joined_some [] = none
  joined_some (s ∷ ss) = some (join_comma (s ∷ ss))

  unfoldable pub joined : H → Text → Option Text
  joined headers name = joined_some (texts m.to_str (m.get_all name headers))
