-- ===== src/Assoc.antt =====
-- `HashMap<String, V>` as an association list: the list's order is the iteration order, and the
-- theorems hold for every list, so for every iteration order.
pub mod Laws
use nft_gate.Base.{
  ℕ, suc, ◌+◌, ◌≤◌, ◌<◌, ◌≡◌, refl, ◌⊎◌, inl, inr, ap, Bool, true, false, Option, none, some, List,
  [], ◌∷◌, arith, ltb, if◌then◌else◌, length,
}
use nft_gate.Text.{Text, text_eq, text_eq_iff, text_eq_refl}

module _ {ℓ} {V : Type ℓ} where
  -- `get`
  unfoldable pub lookup : Text → List (Text × V) → Option V
  lookup k [] = none
  lookup k (e ∷ m) = if text_eq e.0 k then some e.1 else lookup k m

  unfoldable pub insert : Text → V → List (Text × V) → List (Text × V)
  insert k v [] = (k, v) ∷ []
  insert k v (e ∷ m) = if text_eq e.0 k then (k, v) ∷ m else e ∷ insert k v m

  unfoldable pub remove : Text → List (Text × V) → List (Text × V)
  remove k [] = []
  remove k (e ∷ m) = let rest = remove k m in if text_eq e.0 k then rest else e ∷ rest

  -- `retain(|_, v| p v)`, and `iter().filter(|(_, v)| p v)`
  unfoldable pub retain : (V → Bool) → List (Text × V) → List (Text × V)
  retain p [] = []
  retain p (e ∷ m) = let rest = retain p m in if p e.1 then e ∷ rest else rest

  -- `iter().min_by_key(|(_, v)| f v)`: the first entry with the least key
  unfoldable pub min_by_key : (V → ℕ) → List (Text × V) → Option (Text × V)
  min_by_key f [] = none
  min_by_key f (e ∷ m) = elim (min_by_key f m) [
    | none ↦ some e
    | some b ↦ if ltb (f b.1) (f e.1) then some b else some e
  ]

  -- No key stands twice.
  abbrev pub IsMap : List (Text × V) → Type ℓ
  IsMap [] = Unit {ℓ}
  IsMap (e ∷ m) = (lookup e.0 m ≡ none) × IsMap m
