-- ===== src/Native/Proxy/Sent.antt =====
-- What the upstream is sent under each header name.
use mathlib.Core.Path.{subst, subst₂}
use nft_gate.Base.{
  sym, ◌≡◌, refl, ◌∙◌, inl, inr, Bool, true, false, Option, none, some, List, [], ◌∷◌, ◌++◌, arith,
  if◌then◌else◌, Bool-cases, Option-cases,
}
use mathlib.Core.List.{append-nil, append_assoc}
use nft_gate.Text.{Text, codes, text_eq}
use nft_gate.Config.{AuthHeader}
use nft_gate.Headers.{via_token, drop_request_header}
use nft_gate.Grpc.Wire.{Bytes}
use nft_gate.Native.HeaderMap.{HeaderMap, IsHeaderMap, under}
use nft_gate.Native.Headers.{named_by_connection, upstream_request_headers}
use nft_gate.Native.Headers.Laws.{get_all-upstream_request_headers}
use nft_gate.Native.HttpClient.{
  HttpRequest, Stack, insert_auth, insert_auths, append_all, proxy_request,
}

module _ {H V : Type 0} (m : HeaderMap H V) (laws : IsHeaderMap m) where
  -- The value of a credential, if it is for the name
  abbrev value_for : Text → AuthHeader → Option Text
  value_for n h = elim (m.name_of h.name) [
    | none ↦ none
    | some k ↦ if text_eq k n then some h.value else none
  ]

  -- The last credential that is configured under the name
  abbrev pub credential : Text → List AuthHeader → Option Text
  credential n [] = none
  credential n (h ∷ auth) = elim (credential n auth) [ some v ↦ some v | none ↦ value_for n h ]

  -- The values that go upstream under a name, by the value that is configured for it, if any.
  abbrev pub WithCredential : Option Text → List V → List V → Type 0
  WithCredential none own sent = sent ≡ own
  WithCredential (some v) own sent = (x : V) × (m.from_str v ≡ some x) × (sent ≡ x ∷ [])

  -- A credential that is inserted first is what goes, unless a later one replaces it.
  inserted_first :
      (c d : Option Text) (b : Bool) (value : Text) (v : V) (own own' sent : List V)
      → d ≡ (if b then some value else none)
      → own' ≡ (if b then v ∷ [] else own)
      → m.from_str value ≡ some v
      → WithCredential c own' sent
      → WithCredential (elim c [ some x ↦ some x | none ↦ d ]) own sent
  inserted_first (some x) d b value v own own' sent g e f h = h
  inserted_first none d true value v own own' sent g e f h =
      subst (λ o. WithCredential o own sent) (sym g) (v, f, h ∙ e)
  inserted_first none d false value v own own' sent g e f h =
      subst (λ o. WithCredential o own sent) (sym g) (h ∙ e)

  get_all-insert_auths :
      (n : Text) (auth : List AuthHeader) (h : H) {sent : H}
      → insert_auths m h auth ≡ some sent
      → WithCredential (credential n auth) (m.get_all n h) (m.get_all n sent)
  unfolding insert_auths insert_auth
  get_all-insert_auths n [] h e = ground arith
  get_all-insert_auths n (a ∷ auth) h {sent} e = elim (Option-cases (m.name_of a.name)) [
    | inl no_name ↦ absurd (ground arith)
    | inr (k, named) ↦ elim (Option-cases (m.from_str a.value)) [
      | inl no_value ↦ absurd (ground arith)
      | inr (v, valued) ↦
          inserted_first (credential n auth) (value_for n a) (text_eq k n) a.value v (m.get_all n h)
            (m.get_all n (m.insert k v h)) (m.get_all n sent) (ground (arith, named))
            (laws.get_all-insert n k v h) valued
            (get_all-insert_auths n auth (m.insert k v h) (ground (arith, named, valued, e)))
    ]
  ]

  get_all-append_all :
      (n : Text) (ps : List (Text × V)) (h : H)
      → m.get_all n (append_all m h ps) ≡ m.get_all n h ++ under n ps
  unfolding append_all
  get_all-append_all n [] h = simp append-nil
  get_all-append_all n (p ∷ ps) h = elim (Bool-cases (text_eq p.0 n)) [
    | inl same ↦
        get_all-append_all n ps (m.append p.0 p.1 h)
        ∙ rw (laws.get_all-append n p.0 p.1 h, same)
            (append_assoc (m.get_all n h) (p.1 ∷ []) (under n ps))
    | inr other ↦
        get_all-append_all n ps (m.append p.0 p.1 h)
        ∙ rw (laws.get_all-append n p.0 p.1 h, other) refl
  ]

  copied : (n : Text) (h : H) → m.get_all n (append_all m m.empty (m.pairs h)) ≡ m.get_all n h
  copied n h =
      get_all-append_all n (m.pairs h) m.empty ∙ rw (laws.get_all-empty n) (laws.pairs_all n h)

  module _ {B W : Type 0} (stack : Stack H B W) where
    -- If a request for the upstream can be built, what it has under each name is the credential
    -- that is configured for it alone, and where there is none, the gateway's entry under Via,
    -- nothing under a name that the policy drops, and else the client's values, all of them in
    -- order.
    pub get_all-proxy_request :
        (n method url : Text) (h : H) (body : Bytes) (auth : List AuthHeader) {req : HttpRequest H}
        → proxy_request m stack method url (upstream_request_headers m h) body auth ≡ some req
        → WithCredential
            (credential n auth)
            (if text_eq (codes "via") n
              then m.from_static via_token ∷ []
              else if drop_request_header n (named_by_connection m h)
              then []
              else m.get_all n h)
            (m.get_all n req.headers)
    unfolding proxy_request
    get_all-proxy_request n method url h body auth {req} e =
        let own = upstream_request_headers m h in
        let base = append_all m m.empty (m.pairs own) in
        elim (Option-cases (insert_auths m base auth)) [
          | inl no_headers ↦ absurd (ground (arith, no_headers))
          | inr (sent, made) ↦
              let same : req.headers ≡ sent = ground (arith, made) in
              subst₂ (λ hs out. WithCredential (credential n auth) hs (m.get_all n out))
                (copied n own ∙ get_all-upstream_request_headers m laws n h) (sym same)
                (get_all-insert_auths n auth base made)
        ]
