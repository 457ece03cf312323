-- ===== src/Sig.antt =====
-- core/src/sig.rs: personal-message signatures and addresses. The curves and the hash are other
-- crates' (`External`); what is modelled is the dispatch, the layout and the address check.
pub mod Address
use nft_gate.Base.{
  ℕ, zero, suc, ◌+◌, ◌-◌, ◌/◌, ◌%◌, Bool, false, not, ◌&&◌, ◌||◌, Option, none, some, List, [], ◌∷◌,
  ◌++◌, ◌==◌, if◌then◌else◌, length, take, drop,
}
use nft_gate.Text.{Text, codes, text_eq, is_nil, is_ascii, to_ascii_lowercase}
use nft_gate.Text.Split.{trim}
use nft_gate.External.{Crates, Curve}

abbrev pub flag_ed25519 : ℕ
flag_ed25519 = 0x00

abbrev pub flag_secp256k1 : ℕ
flag_secp256k1 = 0x01

abbrev pub flag_secp256r1 : ℕ
flag_secp256r1 = 0x02

abbrev pub flag_multisig : ℕ
flag_multisig = 0x03

abbrev pub flag_zklogin : ℕ
flag_zklogin = 0x05

-- A `u64` has at most ten groups of seven bits.
abbrev pub uleb128_rounds : ℕ
uleb128_rounds = 10

unfoldable pub uleb128 : ℕ → ℕ → List ℕ
uleb128 zero v = []
uleb128 (suc rounds) v =
    let rest = uleb128 rounds (v / 128) in
    if v / 128 == 0 then v % 128 ∷ [] else (v % 128 + 128) ∷ rest

unfoldable pub write_uleb128 : List ℕ → ℕ → List ℕ
unfolding uleb128
write_uleb128 out v = out ++ uleb128 uleb128_rounds v

-- `trim_start_matches("0x")`: every leading `0x`.
unfoldable pub trim_0x : Text → Text
trim_0x [] = []
trim_0x (c ∷ []) = c ∷ []
trim_0x (c ∷ d ∷ s) = let rest = trim_0x s in if c == b'0' && d == b'x' then rest else c ∷ d ∷ s

abbrev pub zeros : ℕ → Text
zeros zero = []
zeros (suc n) = b'0' ∷ zeros n

-- `{s:0>64}`
unfoldable pub pad_64 : Text → Text
pad_64 s = zeros (64 - length s) ++ s

-- `split_once("::")`
unfoldable pub split_path : Text → Option (Text × Text)
split_path [] = none
split_path (c ∷ []) = none
split_path (c ∷ d ∷ s) =
    let rest = split_path (d ∷ s) in
    if c == b':' && d == b':'
    then some ([], s)
    else elim rest [ none ↦ none | some (a, b) ↦ some (c ∷ a, b) ]

module _ (crates : Crates) where
  unfoldable pub signing_digest : List ℕ → List ℕ
  unfolding write_uleb128
  signing_digest message =
      crates.blake2b256 (write_uleb128 (3 ∷ 0 ∷ 0 ∷ []) (length message) ++ message)

  unfoldable pub derive_address : ℕ → List ℕ → Text
  derive_address flag pk = codes "0x" ++ crates.hex_encode (crates.blake2b256 (flag ∷ pk))

  abbrev pub to_lowercase : Text → Text
  to_lowercase s = if is_ascii s then to_ascii_lowercase s else crates.unicode_lower s

  unfoldable pub normalize_address : Text → Text
  unfolding trim_0x pad_64
  normalize_address a = codes "0x" ++ pad_64 (to_lowercase (trim_0x (trim a)))

  unfoldable pub normalize_move_type : Text → Text
  normalize_move_type t = elim (split_path t) [
    | none ↦ t
    | some (pkg, rest) ↦
        if not (is_nil pkg) then normalize_address pkg ++ (codes "::" ++ rest) else t
  ]

  -- `split("::").next()`
  abbrev pub package_of : Text → Text
  package_of t = elim (split_path t) [ none ↦ t | some (pkg, rest) ↦ pkg ]

  unfoldable pub consumed_event_type : Text → Text
  consumed_event_type nft_type =
      normalize_address (package_of nft_type) ++ codes "::access_gate::AccessConsumedEvent"

  unfoldable pub verify_ed25519 : Text → List ℕ → List ℕ → Bool
  verify_ed25519 address message body =
      if not (length body == 96)
      then false
      else elim (crates.ed25519_key (take 32 (drop 64 body))) [
        | none ↦ false
        | some vk ↦
            if not (crates.ed25519_verify vk (take 64 body) (signing_digest message))
            then false
            else text_eq (normalize_address address)
                (derive_address flag_ed25519 (take 32 (drop 64 body)))
      ]

  -- `verify_secp256k1` and `verify_secp256r1` are the same text over two curves and flags.
  unfoldable pub verify_ecdsa : Curve → ℕ → Text → List ℕ → List ℕ → Bool
  verify_ecdsa curve flag address message body =
      if not (length body == 97) then false else elim (curve.signature (take 64 body)) [
        | none ↦ false
        | some sig ↦
            if not (text_eq (curve.normalize_s sig) sig)
            then false
            else elim (curve.verifying_key (drop 64 body)) [
              | none ↦ false
              | some vk ↦
                  if not (curve.verify vk (signing_digest message) sig)
                  then false
                  else text_eq (normalize_address address) (derive_address flag (drop 64 body))
            ]
      ]

  abbrev pub verify_secp256k1 : Text → List ℕ → List ℕ → Bool
  verify_secp256k1 = verify_ecdsa crates.secp256k1 flag_secp256k1

  abbrev pub verify_secp256r1 : Text → List ℕ → List ℕ → Bool
  verify_secp256r1 = verify_ecdsa crates.secp256r1 flag_secp256r1

  abbrev pub dispatch : Text → List ℕ → List ℕ → Bool
  dispatch address message [] = false
  dispatch address message (flag ∷ body) =
      if flag == flag_ed25519
      then verify_ed25519 address message body
      else if flag == flag_secp256k1
      then verify_secp256k1 address message body
      else if flag == flag_secp256r1
      then verify_secp256r1 address message body
      else false

  unfoldable pub verify_personal_message_signature : Text → List ℕ → Text → Bool
  verify_personal_message_signature address message signature_b64 =
      elim (crates.base64_decode (trim signature_b64)) [
        | none ↦ false
        | some raw ↦ dispatch address message raw
      ]

  abbrev is_unsupported : List ℕ → Bool
  is_unsupported [] = false
  is_unsupported (flag ∷ body) = flag == flag_multisig || flag == flag_zklogin

  unfoldable pub unsupported_flag : Text → Bool
  unsupported_flag signature_b64 = elim (crates.base64_decode (trim signature_b64)) [
    | none ↦ false
    | some raw ↦ is_unsupported raw
  ]
