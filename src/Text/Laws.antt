-- ===== src/Text/Laws.antt =====
-- Facts about texts that the components share.
use nft_gate.Base.{◌≢◌, List, Bool, ℕ, ◌≡◌, refl, true, some, [], ◌∷◌, ◌++◌, arith, length}
use nft_gate.Text.Split.{split_by, push_first}
use nft_gate.Text.{Text, strip_prefix, len, is_ascii, to_ascii_lowercase}

-- On ASCII the length in bytes is the number of characters.
pub len_of_ascii : (s : Text) → is_ascii s ≡ true → len s ≡ length s
unfolding len
len_of_ascii [] h = refl
len_of_ascii (c ∷ s) h = ground (arith, len_of_ascii s)

pub strip_prefix-append : (p s : Text) → strip_prefix p (p ++ s) ≡ some s
unfolding strip_prefix
strip_prefix-append [] s = refl
strip_prefix-append (c ∷ p) s = ground (arith, strip_prefix-append p s)

-- What is left after a prefix was stripped.
pub strip_prefix-some : (p s r : Text) → strip_prefix p s ≡ some r → s ≡ p ++ r
unfolding strip_prefix
strip_prefix-some [] s r h = ground arith
strip_prefix-some (c ∷ p) [] r h = cc
strip_prefix-some (c ∷ p) (d ∷ s) r h = ground (arith, strip_prefix-some p s r)

pub to_ascii_lowercase_idem :
    (s : Text) → to_ascii_lowercase (to_ascii_lowercase s) ≡ to_ascii_lowercase s
to_ascii_lowercase_idem [] = refl
to_ascii_lowercase_idem (c ∷ s) = ground (arith, to_ascii_lowercase_idem s)

split_by-ne-nil : (p : ℕ → Bool) (s : Text) → split_by p s ≢ []
unfolding split_by push_first
split_by-ne-nil p [] h = absurd (ground arith)
split_by-ne-nil p (c ∷ s) h = ground arith

push_first-append :
    (c : ℕ) (ws vs : List Text) → ws ≢ [] → push_first c (ws ++ vs) ≡ push_first c ws ++ vs
unfolding push_first
push_first-append c [] vs h = absurd (h refl)
push_first-append c (w ∷ ws) vs h = refl

-- A separator splits the text in two.
pub split_by-append :
    (p : ℕ → Bool) (s : Text) (d : ℕ) (t : Text)
    → p d ≡ true
    → split_by p (s ++ (d ∷ t)) ≡ split_by p s ++ split_by p t
unfolding split_by
split_by-append p [] d t h = ground arith
split_by-append p (c ∷ s) d t h = ground (
  arith,
  split_by-append p s d t h,
  push_first-append c (split_by p s) (split_by p t) (split_by-ne-nil p s),
)
