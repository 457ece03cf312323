-- ===== src/Chain/Requests.antt =====
-- core/src/chain.rs: the requests as the reader of core/src/grpc.rs decodes them.
use nft_gate.Base.{
  ℕ, ◌<◌, ◌^◌, ◌≡◌, refl, ap, ◌∙◌, Option, none, some, List, [], ◌∷◌, ◌++◌, length, arith, All,
}
use mathlib.Core.List.{append-nil}
use nft_gate.Text.{Text, codes}
use nft_gate.Text.Utf8.{as_bytes, utf8_char}
use nft_gate.Text.Utf8.Laws.{IsScalar, from_utf8-as_bytes}
use nft_gate.Sig.{uleb128}
use nft_gate.Grpc.Wire.{
  Bytes, Field, tag, varint, string_field, bytes_field, fields, field_bytes, field_str, find_map,
  bytes_of,
}
use nft_gate.Grpc.Wire.RoundTrip.{Item, uint, bytes, write, read_as, Fits, fields-write}
use nft_gate.Chain.{
  build_list_owned, build_get_transaction, loo_owner, loo_page_size, loo_page_token, loo_read_mask,
  loo_object_type, owned_page_size, req_digest, req_read_mask, fieldmask_paths,
}

-- The two masks are names of fields, a few bytes each.
abbrev paths : Text → Text → Bytes
paths a b = string_field fieldmask_paths a ++ string_field fieldmask_paths b

owned_mask_short : length (paths (codes "object_type") (codes "json")) < 2 ^ 64
unfolding string_field bytes_field tag varint as_bytes uleb128 utf8_char
owned_mask_short = omega arith

abbrev token_items : Option Bytes → List Item
token_items none = []
token_items (some token) = bytes loo_page_token token ∷ []

abbrev owned_items : Text → Text → Option Bytes → List Item
owned_items address nft_type token =
    bytes loo_owner (as_bytes address)
    ∷ uint loo_page_size owned_page_size
    ∷ (token_items token
        ++ (bytes loo_read_mask (paths (codes "object_type") (codes "json"))
            ∷ bytes loo_object_type (as_bytes nft_type)
            ∷ []))

write-owned_items :
    (address nft_type : Text) (token : Option Bytes)
    → build_list_owned address nft_type token ≡ write (owned_items address nft_type token)
unfolding build_list_owned write string_field
write-owned_items address nft_type none =
    rw (append-nil (bytes_field loo_object_type (as_bytes nft_type))) refl
write-owned_items address nft_type (some token) =
    rw (append-nil (bytes_field loo_object_type (as_bytes nft_type))) refl

-- A page token is short enough for its length to be a `u64`.
abbrev pub IsShort : Option Bytes → Type 0
IsShort none = Unit
IsShort (some token) = length token < 2 ^ 64

owned_items_fit :
    (address nft_type : Text) (token : Option Bytes)
    → length (as_bytes address) < 2 ^ 64
    → length (as_bytes nft_type) < 2 ^ 64
    → IsShort token
    → All Fits (owned_items address nft_type token)
owned_items_fit address nft_type none a t k = (
  (omega arith, a),
  ((omega arith, omega arith), ((omega arith, owned_mask_short), ((omega arith, t), tt))),
)
owned_items_fit address nft_type (some token) a t k = (
  (omega arith, a),
  (
    (omega arith, omega arith),
    ((omega arith, k), ((omega arith, owned_mask_short), ((omega arith, t), tt))),
  ),
)

fields-build_list_owned :
    (address nft_type : Text) (token : Option Bytes)
    → length (as_bytes address) < 2 ^ 64
    → length (as_bytes nft_type) < 2 ^ 64
    → IsShort token
    → fields (build_list_owned address nft_type token)
      ≡ read_as (owned_items address nft_type token)
fields-build_list_owned address nft_type token a t k =
    ap fields (write-owned_items address nft_type token)
    ∙ fields-write (owned_items address nft_type token)
        (owned_items_fit address nft_type token a t k)

-- What a reader that looks a text up finds, by the fields of the message.
field_str_of :
    (msg : Bytes) (n : ℕ) (t : Text) (fs : List Field)
    → All IsScalar t
    → fields msg ≡ fs
    → find_map (bytes_of n) fs ≡ some (as_bytes t)
    → field_str msg n ≡ some t
unfolding field_str field_bytes
field_str_of msg n t fs s e h = rw (field_str, field_bytes, e, h) (from_utf8-as_bytes t s)

-- From the request for a page of objects the reader gets the owner, the page token and the
-- object type back, if the texts are Unicode scalars and they and the token are shorter than
-- 2^64 bytes.
field-build_list_owned :
    (address nft_type : Text) (token : Option Bytes)
    → All IsScalar address
    → All IsScalar nft_type
    → length (as_bytes address) < 2 ^ 64
    → length (as_bytes nft_type) < 2 ^ 64
    → IsShort token
    → (field_str (build_list_owned address nft_type token) loo_owner ≡ some address)
      × (field_bytes (build_list_owned address nft_type token) loo_page_token ≡ token)
      × (field_str (build_list_owned address nft_type token) loo_object_type ≡ some nft_type)
unfolding find_map field_bytes
field-build_list_owned address nft_type none sa st a t k =
    let e = fields-build_list_owned address nft_type none a t k in
    (
      field_str_of _ loo_owner address _ sa e refl,
      (rw (field_bytes, e) refl),
      field_str_of _ loo_object_type nft_type _ st e refl,
    )
field-build_list_owned address nft_type (some token) sa st a t k =
    let e = fields-build_list_owned address nft_type (some token) a t k in
    (
      field_str_of _ loo_owner address _ sa e refl,
      (rw (field_bytes, e) refl),
      field_str_of _ loo_object_type nft_type _ st e refl,
    )

abbrev transaction_items : Text → List Item
transaction_items digest =
    bytes req_digest (as_bytes digest)
    ∷ bytes req_read_mask (paths (codes "effects.status") (codes "events"))
    ∷ []

write-transaction_items :
    (digest : Text) → build_get_transaction digest ≡ write (transaction_items digest)
unfolding build_get_transaction write string_field
write-transaction_items digest = rw (append-nil (bytes_field req_read_mask _)) refl

transaction_mask_short : length (paths (codes "effects.status") (codes "events")) < 2 ^ 64
unfolding string_field bytes_field tag varint as_bytes uleb128 utf8_char
transaction_mask_short = omega arith

-- The node reads the digest that is asked for.
pub field_str-build_get_transaction :
    (digest : Text)
    → All IsScalar digest
    → length (as_bytes digest) < 2 ^ 64
    → field_str (build_get_transaction digest) req_digest ≡ some digest
unfolding find_map
field_str-build_get_transaction digest s h =
    field_str_of _ req_digest digest _ s
      (ap fields (write-transaction_items digest)
        ∙ fields-write (transaction_items digest)
            ((omega arith, h), ((omega arith, transaction_mask_short), tt)))
      refl
