-- ===== src/Native/HeaderMap.antt =====
-- The header maps of the crate `http`, which is not part of the repository: their operations, and
-- what is documented of them. A name is in lower case; under a name stand any number of values.
use nft_gate.Base.{◌≡◌, ◌≢◌, true, Option, List, [], ◌∷◌, ◌++◌, if◌then◌else◌}
use nft_gate.Text.{Text, text_eq, member}

pub record HeaderMap (H V : Type 0) : Type 0 where
  pub get_all : Text → H → List V
  -- Each name that has a value
  pub keys : H → List Text
  -- The pairs that the iterator gives
  pub pairs : H → List (Text × V)
  pub empty : H
  -- Replaces all values
  pub insert : Text → V → H → H
  -- Adds a value after the others
  pub append : Text → V → H → H
  pub remove : Text → H → H
  -- `HeaderName::from_bytes`
  pub name_of : Text → Option Text
  -- `HeaderValue::to_str`, of which the failures are values that are not visible ASCII
  pub to_str : V → Option Text
  -- `HeaderValue::from_str` and `from_static`
  pub from_str : Text → Option V
  pub from_static : Text → V

-- The values under a name among pairs
abbrev pub under : {V : Type 0} → Text → List (Text × V) → List V
under n [] = []
under n (p ∷ ps) = let rest = under n ps in if text_eq p.0 n then p.1 ∷ rest else rest

-- What is documented
pub record IsHeaderMap {H V : Type 0} (m : HeaderMap H V) : Type 0 where
  pub keys_all : (n : Text) (h : H) → m.get_all n h ≢ [] → member n (m.keys h) ≡ true
  pub pairs_all : (n : Text) (h : H) → under n (m.pairs h) ≡ m.get_all n h
  pub get_all-empty : (n : Text) → m.get_all n m.empty ≡ []
  pub get_all-insert :
      (n k : Text) (v : V) (h : H)
      → m.get_all n (m.insert k v h) ≡ (if text_eq k n then v ∷ [] else m.get_all n h)
  pub get_all-append :
      (n k : Text) (v : V) (h : H)
      → m.get_all n (m.append k v h)
        ≡ (if text_eq k n then m.get_all n h ++ (v ∷ []) else m.get_all n h)
  pub get_all-remove :
      (n k : Text) (h : H)
      → m.get_all n (m.remove k h) ≡ (if text_eq k n then [] else m.get_all n h)

-- `get`
abbrev pub first {ℓ} : {A : Type ℓ} → List A → Option A
first [] = Option.none
first (x ∷ xs) = Option.some x
