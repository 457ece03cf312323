-- ===== src/Worker/Durable/Oldest.antt =====
-- The row that expires first, where no two leases expire at the same time: the engine's choice is that of
-- `min_by_key`.
use mathlib.Core.Path.{subst}
use nft_gate.Base.Options.{some-injective}
use nft_gate.Base.{
  ◌≤◌, ◌≡◌, ◌≢◌, refl, sym, ap, ◌∙◌, inl, inr, none, some, [], ◌∷◌, All, Any, arith, ltb,
  Option-cases, Bool-cases,
}
use nft_gate.Text.{Text, text_eq}
use nft_gate.Assoc.{lookup, min_by_key}
use nft_gate.Worker.Durable.{RedRow, Redemptions, Sql, IsSql}

-- No two rows expire at the same time.
abbrev pub Unique : Redemptions → Type 0
Unique [] = Unit {0}
Unique (e ∷ t) = All (λ x. x.1.expiry ≢ e.1.expiry) t × Unique t

abbrev pub IsFirst : Redemptions → Text × RedRow → Type 0
IsFirst t e = Any (λ x. x ≡ e) t × All (λ x. e.1.expiry ≤ x.1.expiry) t

All-at :
    (P : Text × RedRow → Type 0) (t : Redemptions) (e : Text × RedRow)
    → All P t
    → Any (λ x. x ≡ e) t
    → P e
All-at P [] e a i = absurd i
All-at P (x ∷ t) e (p, a) (inl same) = subst P same p
All-at P (x ∷ t) e (p, a) (inr i) = All-at P t e a i

All-map :
    (P Q : Text × RedRow → Type 0) (t : Redemptions)
    → ((x : Text × RedRow) → P x → Q x)
    → All P t
    → All Q t
All-map P Q [] f a = tt
All-map P Q (x ∷ t) f (p, a) = (f x p, All-map P Q t f a)

pub lookup-All :
    (P : RedRow → Type 0) (k : Text) (t : Redemptions) {r : RedRow}
    → All (λ x. P x.1) t
    → lookup k t ≡ some r
    → P r
unfolding lookup
lookup-All P k [] a h = absurd (cc)
lookup-All P k (e ∷ t) (p, a) h = elim (Bool-cases (text_eq e.0 k)) [
  | inl same ↦ subst P (some-injective (rw same at h)) p
  | inr other ↦ lookup-All P k t a (rw other at h)
]

IsFirst-Unique :
    (t : Redemptions) (e f : Text × RedRow) → Unique t → IsFirst t e → IsFirst t f → e ≡ f
IsFirst-Unique [] e f u (i, a) g = absurd i
IsFirst-Unique (x ∷ t) e f u (inl p, a) (inl q, b) = sym p ∙ q
IsFirst-Unique (x ∷ t) e f (ne, u) (inl p, a) (inr j, b) =
    let differ = All-at _ t f ne j in
    let le = All-at _ t f a.1 j in absurd (differ (omega (arith, le, b.0, ap (λ y. y.1.expiry) p)))
IsFirst-Unique (x ∷ t) e f (ne, u) (inr i, a) (inl q, b) =
    let differ = All-at _ t e ne i in
    let le = All-at _ t e b.1 i in absurd (differ (omega (arith, le, a.0, ap (λ y. y.1.expiry) q)))
IsFirst-Unique (x ∷ t) e f (ne, u) (inr i, a) (inr j, b) = IsFirst-Unique t e f u (i, a.1) (j, b.1)

pub min_by_key-none : (t : Redemptions) → min_by_key (λ r. r.expiry) t ≡ none → t ≡ []
unfolding min_by_key
min_by_key-none [] h = refl
min_by_key-none (e ∷ t) h = absurd (ground (arith, h, Option-cases (min_by_key (λ r. r.expiry) t)))

pub min_by_key-IsFirst :
    (t : Redemptions) (e : Text × RedRow) → min_by_key (λ r. r.expiry) t ≡ some e → IsFirst t e
unfolding min_by_key
min_by_key-IsFirst [] e h = absurd (cc)
min_by_key-IsFirst (x ∷ t) e h = elim (Option-cases (min_by_key (λ r. r.expiry) t)) [
  | inl m ↦
      let same : x ≡ e = some-injective (rw (min_by_key, m) at h) in
      subst (λ u. IsFirst (x ∷ u) e) (sym (min_by_key-none t m))
        (inl same, (omega (arith, ap (λ y. y.1.expiry) same), tt))
  | inr (b, m) ↦ elim (Bool-cases (ltb b.1.expiry x.1.expiry)) [
    | inl less ↦
        let (i, a) = min_by_key-IsFirst t b m in
        let same : b ≡ e = some-injective (rw (min_by_key, m, less) at h) in
        subst (IsFirst (x ∷ t)) same (inr i, (ground (arith, less), a))
    | inr more ↦
        let (i, a) = min_by_key-IsFirst t b m in
        let same : x ≡ e = some-injective (rw (min_by_key, m, more) at h) in
        subst (IsFirst (x ∷ t)) same
          (inl refl, (omega arith, All-map _ _ t (λ y le. ground (arith, le, more)) a))
  ]
]

pub oldest-min_by_key :
    (sql : Sql) (laws : IsSql sql) (t : Redemptions)
    → Unique t
    → sql.oldest t ≡ min_by_key (λ r. r.expiry) t
unfolding min_by_key
oldest-min_by_key sql laws t u = elim (Option-cases (sql.oldest t)) [
  | inl e ↦ rw (e, laws.oldest_none t e) refl
  | inr (a, e) ↦ elim (Option-cases (min_by_key (λ r. r.expiry) t)) [
    | inl m ↦ absurd (subst (Any (λ x. x ≡ a)) (min_by_key-none t m) (laws.oldest_found t a e).0)
    | inr (b, m) ↦
        e
        ∙ ap some (IsFirst-Unique t a b u (laws.oldest_found t a e) (min_by_key-IsFirst t b m))
        ∙ sym m
  ]
]
