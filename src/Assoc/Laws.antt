-- ===== src/Assoc/Laws.antt =====
-- The laws of the association lists: what each operation does to `lookup`, to the distinctness of
-- the keys and to the number of entries.
use nft_gate.Base.{
  ℕ, ◌+◌, ◌≤◌, ◌<◌, ◌≡◌, refl, ◌≢◌, inl, inr, Bool, true, Option, none, some, List, [], ◌∷◌, arith,
  if◌then◌else◌, length, Option-cases,
}
use nft_gate.Text.{Text, text_eq, text_eq_iff, text_eq_refl}
use nft_gate.Assoc.{lookup, insert, remove, retain, min_by_key, IsMap}

module _ {ℓ} {V : Type ℓ} where
  -- An entry that fails the test is as good as none.
  abbrev pub filter_some : (V → Bool) → Option V → Option V
  filter_some p none = none
  filter_some p (some v) = if p v then some v else none

  pub lookup-insert :
      (k j : Text) (v : V) (m : List (Text × V))
      → lookup j (insert k v m) ≡ (if text_eq k j then some v else lookup j m)
  unfolding lookup insert
  lookup-insert k j v [] = refl
  lookup-insert k j v (e ∷ m) =
      ground (arith, text_eq_iff k j, text_eq_iff e.0 k, text_eq_iff e.0 j, lookup-insert k j v m)

  pub lookup-remove :
      (k j : Text) (m : List (Text × V))
      → lookup j (remove k m) ≡ (if text_eq k j then none else lookup j m)
  unfolding lookup remove
  lookup-remove k j [] = ground arith
  lookup-remove k j (e ∷ m) =
      ground (arith, text_eq_iff k j, text_eq_iff e.0 k, text_eq_iff e.0 j, lookup-remove k j m)

  pub lookup-retain-none :
      (p : V → Bool) (k : Text) (m : List (Text × V))
      → lookup k m ≡ none
      → lookup k (retain p m) ≡ none
  unfolding lookup retain
  lookup-retain-none p k [] h = refl
  lookup-retain-none p k (e ∷ m) h = ground (arith, lookup-retain-none p k m)

  pub lookup-retain :
      (p : V → Bool) (k : Text) (m : List (Text × V))
      → IsMap m
      → lookup k (retain p m) ≡ filter_some p (lookup k m)
  unfolding lookup retain
  lookup-retain p k [] d = refl
  lookup-retain p k (e ∷ m) d =
      ground (arith, text_eq_iff e.0 k, lookup-retain p k m d.1, lookup-retain-none p k m)

  pub retain-IsMap : (p : V → Bool) (m : List (Text × V)) → IsMap m → IsMap (retain p m)
  unfolding retain
  retain-IsMap p [] d = tt
  retain-IsMap p (e ∷ m) d = ground (arith, retain-IsMap p m d.1, lookup-retain-none p e.0 m d.0)

  pub remove-IsMap : (k : Text) (m : List (Text × V)) → IsMap m → IsMap (remove k m)
  unfolding remove
  remove-IsMap k [] d = tt
  remove-IsMap k (e ∷ m) d = ground (arith, remove-IsMap k m d.1, lookup-remove k e.0 m)

  pub insert-IsMap : (k : Text) (v : V) (m : List (Text × V)) → IsMap m → IsMap (insert k v m)
  unfolding insert lookup
  insert-IsMap k v [] d = (refl, tt)
  insert-IsMap k v (e ∷ m) d =
      ground (
        arith,
        text_eq_iff e.0 k,
        text_eq_iff k e.0,
        insert-IsMap k v m d.1,
        lookup-insert k e.0 v m,
      )

  pub length-retain-le : (p : V → Bool) (m : List (Text × V)) → length (retain p m) ≤ length m
  unfolding retain
  length-retain-le p [] = omega arith
  length-retain-le p (e ∷ m) = ground (arith, length-retain-le p m)

  pub length-remove-le : (k : Text) (m : List (Text × V)) → length (remove k m) ≤ length m
  unfolding remove
  length-remove-le k [] = omega arith
  length-remove-le k (e ∷ m) = ground (arith, length-remove-le k m)

  -- Removing a key that is there makes room.
  pub length-remove-lt :
      (k : Text) (v : V) (m : List (Text × V))
      → lookup k m ≡ some v
      → length (remove k m) < length m
  unfolding lookup remove
  length-remove-lt k v [] h = cc
  length-remove-lt k v (e ∷ m) h = ground (arith, length-remove-le k m, length-remove-lt k v m)

  pub length-insert-le :
      (k : Text) (v : V) (m : List (Text × V)) → length (insert k v m) ≤ length m + 1
  unfolding insert
  length-insert-le k v [] = omega arith
  length-insert-le k v (e ∷ m) = ground (arith, length-insert-le k v m)

  pub length-insert_of_some :
      (k : Text) (v w : V) (m : List (Text × V))
      → lookup k m ≡ some w
      → length (insert k v m) ≡ length m
  unfolding lookup insert
  length-insert_of_some k v w [] h = cc
  length-insert_of_some k v w (e ∷ m) h = ground (arith, length-insert_of_some k v w m)

  -- The least entry is an entry of the map.
  pub min_by_key-lookup :
      (f : V → ℕ) (m : List (Text × V)) (b : Text × V)
      → IsMap m
      → min_by_key f m ≡ some b
      → lookup b.0 m ≡ some b.1
  unfolding lookup min_by_key
  min_by_key-lookup f [] b d h = cc
  min_by_key-lookup f (e ∷ m) b d h = elim (Option-cases (min_by_key f m)) [
    | inl x ↦ ground (arith, text_eq_refl e.0)
    | inr (c, x) ↦
        ground (arith, text_eq_refl e.0, text_eq_iff e.0 c.0, min_by_key-lookup f m c d.1 x)
  ]

  lookup_of_no_min :
      (f : V → ℕ) (m : List (Text × V)) (k : Text) → min_by_key f m ≡ none → lookup k m ≡ none
  unfolding lookup min_by_key
  lookup_of_no_min f [] k h = refl
  lookup_of_no_min f (e ∷ m) k h = ground arith

  -- No entry has a smaller key than the least one.
  pub min_by_key-le :
      (f : V → ℕ) (m : List (Text × V)) (b : Text × V) (k : Text) (v : V)
      → min_by_key f m ≡ some b
      → lookup k m ≡ some v
      → f b.1 ≤ f v
  unfolding lookup min_by_key
  min_by_key-le f [] b k v h l = cc
  min_by_key-le f (e ∷ m) b k v h l = elim (Option-cases (min_by_key f m)) [
    | inl x ↦ ground (arith, lookup_of_no_min f m k x)
    | inr (c, x) ↦ ground (arith, min_by_key-le f m c k v x)
  ]

  pub min_by_key-ne-none : (f : V → ℕ) (m : List (Text × V)) → 0 < length m → min_by_key f m ≢ none
  unfolding min_by_key
  min_by_key-ne-none f [] h = absurd (omega arith)
  min_by_key-ne-none f (e ∷ m) h = ground arith

  -- What passes a test passes it still after an eviction by that test.
  pub retain_all :
      (p : V → Bool) (k : Text) (v : V) (m : List (Text × V))
      → lookup k (retain p m) ≡ some v
      → p v ≡ true
  unfolding lookup retain
  retain_all p k v [] h = cc
  retain_all p k v (e ∷ m) h = ground (arith, retain_all p k v m)
