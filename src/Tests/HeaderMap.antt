-- ===== src/Tests/HeaderMap.antt =====
-- A header map in a list of pairs, with the laws that the theorems ask for, and what they say of it.
use mathlib.Core.List.{append-nil}
use nft_gate.Base.{
  ◌≡◌, ◌≢◌, refl, ◌∙◌, true, some, List, [], ◌∷◌, ◌++◌, arith, if◌then◌else◌, Bool-cases, inl, inr,
}
use nft_gate.Text.{Text, text_eq, text_eq_iff, text_eq_refl, member}
use nft_gate.Native.HeaderMap.{HeaderMap, IsHeaderMap, under}

abbrev pub Pairs : Type 0
Pairs = List (Text × Text)

abbrev names : Pairs → List Text
names [] = []
names (p ∷ ps) = p.0 ∷ names ps

pub without : Text → Pairs → Pairs
without k [] = []
without k (p ∷ ps) = let rest = without k ps in if text_eq p.0 k then rest else p ∷ rest

unfoldable pub list_map : HeaderMap Pairs Text
unfolding without
list_map = record {
  get_all = under;
  keys = names;
  pairs = λ h. h;
  empty = [];
  insert = λ k v h. without k h ++ ((k, v) ∷ []);
  append = λ k v h. h ++ ((k, v) ∷ []);
  remove = without;
  name_of = λ n. some n;
  to_str = λ v. some v;
  from_str = λ v. some v;
  from_static = λ v. v;
}

under-append : (n : Text) (ps qs : Pairs) → under n (ps ++ qs) ≡ under n ps ++ under n qs
under-append n [] qs = refl
under-append n (p ∷ ps) qs = ground (arith, under-append n ps qs)

under-without :
    (n k : Text) (ps : Pairs) → under n (without k ps) ≡ (if text_eq k n then [] else under n ps)
unfolding without
under-without n k [] = ground arith
under-without n k (p ∷ ps) =
    ground (arith, under-without n k ps, text_eq_iff p.0 k, text_eq_iff p.0 n, text_eq_iff k n)

under-names : (n : Text) (ps : Pairs) → under n ps ≢ [] → member n (names ps) ≡ true
under-names n [] h = absurd (h refl)
under-names n (p ∷ ps) h = elim (Bool-cases (text_eq p.0 n)) [
  | inl same ↦ ground (arith, text_eq_iff p.0 n, text_eq_refl n)
  | inr other ↦ ground (arith, under-names n ps (λ e. h (rw other e)))
]

under-inserted :
    (n k v : Text) (h : Pairs)
    → under n (without k h ++ ((k, v) ∷ [])) ≡ (if text_eq k n then v ∷ [] else under n h)
under-inserted n k v h = elim (Bool-cases (text_eq k n)) [
  | inl same ↦ under-append n (without k h) _ ∙ rw (under-without n k h, same) refl
  | inr other ↦
      under-append n (without k h) _ ∙ rw (under-without n k h, other) (append-nil (under n h))
]

under-appended :
    (n k v : Text) (h : Pairs)
    → under n (h ++ ((k, v) ∷ [])) ≡ (if text_eq k n then under n h ++ (v ∷ []) else under n h)
under-appended n k v h = elim (Bool-cases (text_eq k n)) [
  | inl same ↦ under-append n h _ ∙ rw same refl
  | inr other ↦ under-append n h _ ∙ rw other (append-nil (under n h))
]

pub list_map-IsHeaderMap : IsHeaderMap list_map
unfolding list_map
list_map-IsHeaderMap = record {
  keys_all = under-names;
  pairs_all = λ n h. refl;
  get_all-empty = λ n. refl;
  get_all-insert = under-inserted;
  get_all-append = under-appended;
  get_all-remove = λ n k h. under-without n k h;
}
