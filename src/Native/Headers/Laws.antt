-- ===== src/Native/Headers/Laws.antt =====
-- What becomes of every field: of a request on its way upstream, of a response on its way back.
use nft_gate.Base.{
  ◌≡◌, refl, ◌≢◌, ◌⊎◌, inl, inr, Bool, false, List, [], ◌∷◌, arith, if◌then◌else◌, Bool-cases,
}
use nft_gate.Text.{Text, codes, text_eq, text_eq_iff, text_eq_refl, member}
use nft_gate.Headers.{drop_request_header, drop_response_header, via_token}
use nft_gate.Native.HeaderMap.{HeaderMap, IsHeaderMap}
use nft_gate.Native.Headers.{
  filter_text, named_by_connection, remove_all, retain, upstream_request_headers,
  client_response_headers,
}

member-filter_text :
    (p : Text → Bool) (n : Text) (ks : List Text)
    → member n (filter_text p ks) ≡ (if p n then member n ks else false)
member-filter_text p n [] = ground arith
member-filter_text p n (k ∷ ks) = elim (Bool-cases (text_eq n k)) [
  | inl same ↦
      let e = (text_eq_iff n k).0 same in
      rw e (ground (arith, member-filter_text p k ks, text_eq_refl k))
  | inr other ↦ ground (arith, member-filter_text p n ks)
]

text_eq_sym : (s t : Text) → text_eq s t ≡ text_eq t s
text_eq_sym s t = ground (arith, text_eq_iff s t, text_eq_iff t s)

List-cases : {A : Type 0} (xs : List A) → (xs ≡ []) ⊎ (xs ≢ [])
List-cases [] = inl refl
List-cases (x ∷ xs) = inr (λ h. cc)

module _ {H V : Type 0} (m : HeaderMap H V) (laws : IsHeaderMap m) where
  get_all-remove_all :
      (n : Text) (doomed : List Text) (h : H)
      → m.get_all n (remove_all m doomed h) ≡ (if member n doomed then [] else m.get_all n h)
  unfolding remove_all
  get_all-remove_all n [] h = refl
  get_all-remove_all n (k ∷ doomed) h = ground (
    arith,
    get_all-remove_all n doomed (m.remove k h),
    laws.get_all-remove n k h,
    text_eq_sym n k,
  )

  -- To remove the keys that a test picks is to remove the fields that it picks.
  pub get_all-filtered :
      (n : Text) (p : Text → Bool) (h : H)
      → m.get_all n (remove_all m (filter_text p (m.keys h)) h)
        ≡ (if p n then [] else m.get_all n h)
  get_all-filtered n p h = elim (List-cases (m.get_all n h)) [
    | inl e ↦ ground (arith, get_all-remove_all n (filter_text p (m.keys h)) h)
    | inr e ↦ ground (
      arith,
      get_all-remove_all n (filter_text p (m.keys h)) h,
      member-filter_text p n (m.keys h),
      laws.keys_all n h e,
    )
  ]

  -- Exactly the dropped fields are gone.
  pub get_all-retain :
      (n : Text) (h : H) (dropped : Text → List Text → Bool)
      → m.get_all n (retain m h dropped)
        ≡ (if dropped n (named_by_connection m h) then [] else m.get_all n h)
  unfolding retain
  get_all-retain n h dropped = get_all-filtered n (λ k. dropped k (named_by_connection m h)) h

  -- Upstream goes one Via field with the gateway's own entry, and of the other fields of the request
  -- exactly those that the policy keeps, each with all its values in order.
  pub get_all-upstream_request_headers :
      (n : Text) (h : H)
      → m.get_all n (upstream_request_headers m h) ≡ (
          if text_eq (codes "via") n
          then m.from_static via_token ∷ []
          else if drop_request_header n (named_by_connection m h)
          then []
          else m.get_all n h)
  unfolding upstream_request_headers
  get_all-upstream_request_headers n h = ground (
    arith,
    laws.get_all-insert n (codes "via") (m.from_static via_token) (retain m h drop_request_header),
    get_all-retain n h drop_request_header,
  )

  pub get_all-client_response_headers :
      (n : Text) (h : H)
      → m.get_all n (client_response_headers m h)
        ≡ (if drop_response_header n (named_by_connection m h) then [] else m.get_all n h)
  unfolding client_response_headers
  get_all-client_response_headers n h = get_all-retain n h drop_response_header
