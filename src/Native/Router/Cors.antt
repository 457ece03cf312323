-- ===== src/Native/Router/Cors.antt =====
-- Which CORS fields a response of the server has, whatever the inner handler set.
use mathlib.Core.Path.{subst}
use nft_gate.Base.{
  sym, ◌≡◌, inl, inr, refl, ◌∙◌, true, Option, none, some, List, [], ◌∷◌, ◌++◌, arith,
  if◌then◌else◌, Bool-cases, Option-cases, ◌⊎◌, any, Any, any-true, true-any, Any-map,
}
use nft_gate.Text.{Text, codes, text_eq, text_eq_iff, text_eq_refl, strip_prefix, starts_with}
use nft_gate.Headers.{cors_grants, cors_allowed_origin}
use nft_gate.Native.HeaderMap.{HeaderMap, IsHeaderMap, first}
use nft_gate.Native.Headers.{filter_text, remove_all}
use nft_gate.Native.Headers.Laws.{get_all-filtered}
use nft_gate.Native.Router.{
  HttpReply, allowed_origin, insert_grants, is_cors_field, cors_headers, cors,
}

-- The value of a grant
abbrev pub grant_of : Text → List (Text × Text) → Option Text
grant_of n [] = none
grant_of n (g ∷ gs) = elim (grant_of n gs) [
  | some v ↦ some v
  | none ↦ if text_eq g.0 n then some g.1 else none
]

any-Any : (o : Text) (os : List Text) → any (λ a. text_eq a o) os ≡ true → Any (λ a. a ≡ o) os
any-Any o os h = Any-map os (λ a. (text_eq_iff a o).0) (any-true (λ a. text_eq a o) os h)

Any-any : (o : Text) (os : List Text) → Any (λ a. a ≡ o) os → any (λ a. text_eq a o) os ≡ true
Any-any o os h = true-any (λ a. text_eq a o) os (Any-map os (λ a. (text_eq_iff a o).1) h)

module _ {H V : Type 0} (m : HeaderMap H V) (laws : IsHeaderMap m) where
  abbrev pub granted : Option Text → List V → List V
  granted none own = own
  granted (some v) own = m.from_static v ∷ []

  abbrev pub origin_values : Option V → List V
  origin_values none = []
  origin_values (some o) = o ∷ []

  get_all-insert_grants :
      (n : Text) (gs : List (Text × Text)) (h : H)
      → m.get_all n (insert_grants m gs h) ≡ granted (grant_of n gs) (m.get_all n h)
  unfolding insert_grants
  get_all-insert_grants n [] h = refl
  get_all-insert_grants n (g ∷ gs) h = ground (
    arith,
    get_all-insert_grants n gs (m.insert g.0 (m.from_static g.1) h),
    laws.get_all-insert n g.0 (m.from_static g.1) h,
  )

  -- What the policy makes of the values that the inner handler set under a name, before the origin.
  abbrev pub kept : Text → List V → List V
  kept n inner =
      let policy =
        granted (grant_of n cors_grants)
          (if starts_with (codes "access-control-") n then [] else inner) in
      if text_eq (codes "vary") n then policy ++ (m.from_static (codes "Origin") ∷ []) else policy

  before_origin :
      (n : Text) (h : H)
      → m.get_all n (
          m.append (codes "vary") (m.from_static (codes "Origin")) (
            insert_grants m cors_grants
              (remove_all m (filter_text (is_cors_field m) (m.keys h)) h)))
        ≡ kept n (m.get_all n h)
  before_origin n h =
      let clean = remove_all m (filter_text (is_cors_field m) (m.keys h)) h in
      let grants = get_all-insert_grants n cors_grants clean in
      laws.get_all-append n (codes "vary") (m.from_static (codes "Origin"))
        (insert_grants m cors_grants clean)
      ∙ rw (grants, get_all-filtered m laws n (is_cors_field m) h) refl

  no_origin : (inner : List V) → kept (codes "access-control-allow-origin") inner ≡ []
  unfolding text_eq starts_with strip_prefix
  no_origin inner = refl

  -- The fields of a response: under Access-Control-Allow-Origin the allowed origin or nothing, and under
  -- any other name the values that `kept` gives.
  abbrev pub FieldsOf : Option V → H → Text → Type 0
  FieldsOf allowed inner n = m.get_all n (cors_headers m allowed inner) ≡ (
      if text_eq (codes "access-control-allow-origin") n
      then origin_values allowed
      else kept n (m.get_all n inner))

  get_all-cors_headers : (allowed : Option V) (h : H) (n : Text) → FieldsOf allowed h n
  unfolding cors_headers
  get_all-cors_headers none h n =
      elim (Bool-cases (text_eq (codes "access-control-allow-origin") n)) [
        | inr other ↦ rw other (before_origin n h)
        | inl same ↦
            before_origin n h
            ∙ rw (same, ← (text_eq_iff (codes "access-control-allow-origin") n).0 same)
                (no_origin (m.get_all (codes "access-control-allow-origin") h))
      ]
  get_all-cors_headers (some o) h n =
      laws.get_all-insert n (codes "access-control-allow-origin") o _ ∙ λ i.
      if text_eq (codes "access-control-allow-origin") n then o ∷ [] else before_origin n h i

  -- The request's origin as a header value, where it is listed.
  abbrev pub IsListed : List Text → H → V → Type 0
  IsListed origins headers x =
      (v : V) × (o : Text) × (first (m.get_all (codes "origin") headers) ≡ some v)
      × (m.to_str v ≡ some o)
      × Any (λ a. a ≡ o) origins
      × (m.from_str o ≡ some x)

  -- The listed origin alone, or no value where there is none.
  abbrev pub Reflects : List Text → H → List V → Type 0
  Reflects origins headers values =
      ((x : V) × IsListed origins headers x × (values ≡ x ∷ []))
      ⊎ (((x : V) → ¬ IsListed origins headers x) × (values ≡ []))

  allowed_origin-Reflects :
      (origins : List Text) (headers : H)
      → Reflects origins headers (origin_values (allowed_origin m origins headers))
  unfolding cors_allowed_origin
  allowed_origin-Reflects origins headers =
      elim (Option-cases (first (m.get_all (codes "origin") headers))) [
        | inl e ↦
            inr ((λ x (v', o', e', t', a, f). absurd (ground (arith, e, e'))), ground (arith, e))
        | inr (v, e) ↦ elim (Option-cases (m.to_str v)) [
          | inl t ↦ inr (
            (λ x (v', o', e', t', a, f). absurd (ground (arith, e, e', t, t'))),
            ground (arith, e, t),
          )
          | inr (o, t) ↦ elim (Bool-cases (any (λ a. text_eq a o) origins)) [
            | inr other ↦ inr (
              (λ x (v', o', e', t', a, f).
                  absurd (ground (arith, e, e', t, t', other, Any-any o' origins a))),
              ground (arith, e, t, other),
            )
            | inl listed ↦ elim (Option-cases (m.from_str o)) [
              | inl bad ↦ inr (
                (λ x (v', o', e', t', a, f). absurd (ground (arith, e, e', t, t', f, bad))),
                ground (arith, e, t, listed, bad),
              )
              | inr (x, f) ↦
                  inl
                    (x, (v, o, e, t, any-Any o origins listed, f), ground (arith, e, t, listed, f))
            ]
          ]
        ]
      ]

  -- The values under a name that `cors` leaves, in both branches.
  cors_values :
      {W : Type 0} (origins : List Text) (method : Text) (headers : H) (next : W → HttpReply H × W)
      (w : W) (n : Text)
      → m.get_all n (cors m origins method headers next w).0.headers ≡ (
          if text_eq (codes "access-control-allow-origin") n
          then origin_values (allowed_origin m origins headers)
          else kept n
              (if text_eq method (codes "OPTIONS") then [] else m.get_all n (next w).0.headers))
  unfolding cors
  cors_values origins method headers next w n =
      elim (Bool-cases (text_eq method (codes "OPTIONS"))) [
        | inl preflight ↦ rw preflight (
            get_all-cors_headers (allowed_origin m origins headers) m.empty n
            ∙ rw (laws.get_all-empty n) refl)
        | inr other ↦
            rw other (get_all-cors_headers (allowed_origin m origins headers) (next w).0.headers n)
      ]

  -- A response has under Access-Control-Allow-Origin the request's first origin alone if that is
  -- listed and can be a header value, and no value exactly where it is not; under the names of
  -- the grants the grants; nothing under another Access-Control name; one more Origin under
  -- Vary; and any other field as the inner handler set it, or none of them in the answer to
  -- OPTIONS.
  pub cors-fields :
      {W : Type 0} (origins : List Text) (method : Text) (headers : H) (next : W → HttpReply H × W)
      (w : W) (n : Text)
      → let sent = (cors m origins method headers next w).0.headers in
        Reflects origins headers (m.get_all (codes "access-control-allow-origin") sent)
        × ((text_eq (codes "access-control-allow-origin") n ≡ true)
            ⊎ (m.get_all n sent
                ≡ kept n (
                    if text_eq method (codes "OPTIONS")
                    then []
                    else m.get_all n (next w).0.headers)))
  cors-fields origins method headers next w n = (
    subst (Reflects origins headers)
        (sym (
          cors_values origins method headers next w (codes "access-control-allow-origin")
          ∙ rw (text_eq_refl (codes "access-control-allow-origin")) refl))
        (allowed_origin-Reflects origins headers),
    elim (Bool-cases (text_eq (codes "access-control-allow-origin") n)) [
      | inl same ↦ inl same
      | inr other ↦ inr (cors_values origins method headers next w n ∙ rw other refl)
    ],
  )
