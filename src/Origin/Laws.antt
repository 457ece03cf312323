-- ===== src/Origin/Laws.antt =====
-- The characters of a canonical origin.
use nft_gate.Base.{
  ℕ, ◌≡◌, refl, Bool, true, false, ◌&&◌, some, [], ◌∷◌, ◌++◌, arith, ltb, leb, all, any, inl, inr,
  Option-cases,
}
use nft_gate.Text.{Text, codes, is_ascii, is_digit, strip_prefix}
use nft_gate.Text.Laws.{strip_prefix-some}
use nft_gate.Text.Split.{rsplit_once}
use nft_gate.Proof.{origin_ok}
use nft_gate.Origin.{
  is_host_char, host_ok, port_ok, host_and_port, origin_parts_ok, is_canonical_origin,
}

-- Printable ASCII.
abbrev is_visible : ℕ → Bool
is_visible c = ltb 0x20 c && ltb c 0x80

all_host-visible : (s : Text) → all is_host_char s ≡ true → all is_visible s ≡ true
all_host-visible [] h = refl
all_host-visible (c ∷ s) h = ground (arith, all_host-visible s)

all_digit-visible : (s : Text) → all is_digit s ≡ true → all is_visible s ≡ true
all_digit-visible [] h = refl
all_digit-visible (c ∷ s) h = ground (arith, all_digit-visible s)

all_visible-append :
    (s t : Text)
    → all is_visible s ≡ true
    → all is_visible t ≡ true
    → all is_visible (s ++ t) ≡ true
all_visible-append [] t h k = k
all_visible-append (c ∷ s) t h k = ground (arith, all_visible-append s t)

rsplit_once-some : (d : ℕ) (s a b : Text) → rsplit_once d s ≡ some (a, b) → s ≡ a ++ (d ∷ b)
unfolding rsplit_once
rsplit_once-some d [] a b h = absurd (ground arith)
rsplit_once-some d (c ∷ s) a b h = elim (Option-cases (rsplit_once d s)) [
  | inl e ↦ ground arith
  | inr ((x, y), e) ↦ ground (arith, rsplit_once-some d s x y e)
]

all_visible-origin_ok :
    (s : Text) → all is_visible s ≡ true → (is_ascii s ≡ true) × (any (λ b. leb b 0x20) s ≡ false)
all_visible-origin_ok [] h = (refl, refl)
all_visible-origin_ok (c ∷ s) h = ground (arith, all_visible-origin_ok s)

rest_visible :
    (default_port rest : Text) (http : Bool)
    → origin_parts_ok default_port http (host_and_port rest) ≡ true
    → all is_visible rest ≡ true
unfolding origin_parts_ok host_and_port host_ok port_ok
rest_visible d rest http h = elim (Option-cases (rsplit_once b':' rest)) [
  | inl e ↦ ground (arith, all_host-visible rest)
  | inr ((a, p), e) ↦ ground (
    arith,
    rsplit_once-some b':' rest a p e,
    all_host-visible rest,
    all_host-visible a,
    all_digit-visible p,
    all_visible-append a (b':' ∷ p),
  )
]

-- A canonical origin is fit for the signed message.
pub is_canonical_origin-origin_ok : (o : Text) → is_canonical_origin o ≡ true → origin_ok o ≡ true
unfolding is_canonical_origin origin_ok
is_canonical_origin-origin_ok o h = elim (Option-cases (strip_prefix (codes "https://") o)) [
  | inr (r, e) ↦ ground (
    arith,
    strip_prefix-some (codes "https://") o r e,
    rest_visible (codes "443") r false,
    all_visible-origin_ok r,
  )
  | inl e ↦ elim (Option-cases (strip_prefix (codes "http://") o)) [
    | inl e' ↦ absurd (ground arith)
    | inr (r, e') ↦ ground (
      arith,
      strip_prefix-some (codes "http://") o r e',
      rest_visible (codes "80") r true,
      all_visible-origin_ok r,
    )
  ]
]
