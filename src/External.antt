-- ===== src/External.antt =====
-- What the code takes from other crates: a record of functions that the definitions are given. No
-- law of them is assumed.
use nft_gate.Base.{ℕ, Bool, Option, none, some, List, if◌then◌else◌}
use nft_gate.Text.{Text, text_eq}

-- `serde_json::Value`, as far as the code looks into it. Numbers keep no more than their text.
mutual
  pub data Json : Type 0 where
    null : Json
    boolean : Bool → Json
    number : Text → Json
    string : Text → Json
    array : Items → Json
    object : Fields → Json

  pub data Items : Type 0 where
    nil : Items
    cons : Json → Items → Items

  pub data Fields : Type 0 where
    end : Fields
    field : Text → Json → Fields → Fields

-- `Map::get`, `Value::as_object`, `Value::as_array` and `Value::as_str`
unfoldable pub get : Text → Fields → Option Json
get key end = none
get key (field k v fs) = if text_eq k key then some v else get key fs

abbrev pub as_object : Json → Option Fields
as_object (object fs) = some fs
as_object other = none

abbrev pub as_array : Json → Option Items
as_array (array xs) = some xs
as_array other = none

abbrev pub as_str : Json → Option Text
as_str (string s) = some s
as_str other = none

-- An ECDSA crate (`k256`, `p256`): parsing of a compact signature and of a SEC1 key, the low-S form
-- of a signature, and the check of a signature over a digest.
pub record Curve : Type 0 where
  pub signature : List ℕ → Option (List ℕ)
  pub normalize_s : List ℕ → List ℕ
  pub verifying_key : List ℕ → Option (List ℕ)
  pub verify : (key digest signature : List ℕ) → Bool

pub record Crates : Type 0 where
  -- `BASE64_STANDARD.decode`
  pub base64_decode : Text → Option (List ℕ)
  -- `serde_json::from_slice`
  pub parse_json : List ℕ → Option Json
  -- `serde_json::from_str`
  pub parse_json_text : Text → Option Json
  -- `str::to_lowercase` on text that is not all ASCII
  pub unicode_lower : Text → Text
  pub blake2b256 : List ℕ → List ℕ
  -- `hex::encode`
  pub hex_encode : List ℕ → Text
  -- `ed25519_consensus::VerificationKey::try_from` and its `verify`
  pub ed25519_key : List ℕ → Option (List ℕ)
  pub ed25519_verify : (key signature digest : List ℕ) → Bool
  pub secp256k1 : Curve
  pub secp256r1 : Curve
