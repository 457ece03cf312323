-- ===== src/Forward/Decimal.antt =====
-- Numbers as texts of decimal digits: what such a text says, apart from the loops that read it.
use mathlib.Core.Path.{subst}
use mathlib.Core.List.{append-nil, append_assoc}
use nft_gate.Base.{
  ap, ℕ, ◌+◌, ◌-◌, ◌*◌, ◌<◌, ◌≡◌, refl, ◌∙◌, sym, true, [], ◌∷◌, ◌++◌, all, arith, length,
}
use nft_gate.Text.{Text, is_digit, len}
use nft_gate.Forward.{decimal}

-- A digit at the end of a text makes ten of what stood before it.
pub data IsDecimal : Text → ℕ → Type 0 where
  start : IsDecimal [] 0
  digit :
      {s : Text} {n : ℕ}
      → IsDecimal s n
      → (d : ℕ) → d < 10
      → IsDecimal (s ++ ((b'0' + d) ∷ [])) (n * 10 + d)

pub decimal-append :
    (acc c : ℕ) (s : Text) → decimal acc (s ++ (c ∷ [])) ≡ decimal acc s * 10 + (c - b'0')
unfolding decimal
decimal-append acc c [] = refl
decimal-append acc c (d ∷ s) = decimal-append (acc * 10 + (d - b'0')) c s

pub all-append :
    (c : ℕ) (s : Text)
    → all is_digit s ≡ true
    → is_digit c ≡ true
    → all is_digit (s ++ (c ∷ [])) ≡ true
all-append c [] h d = ground arith
all-append c (e ∷ s) h d = ground (arith, all-append c s)

pub is_digit_of : (n : ℕ) → n < 10 → is_digit (b'0' + n) ≡ true
is_digit_of n h = ground arith

pub all-IsDecimal : {t : Text} {n : ℕ} → IsDecimal t n → all is_digit t ≡ true
all-IsDecimal start = refl
all-IsDecimal (digit {s} h d lt) = all-append (b'0' + d) s (all-IsDecimal h) (is_digit_of d lt)

pub decimal-IsDecimal : {t : Text} {n : ℕ} → IsDecimal t n → decimal 0 t ≡ n
unfolding decimal
decimal-IsDecimal start = refl
decimal-IsDecimal (digit {s} {n} h d lt) =
    decimal-append 0 (b'0' + d) s ∙ rw (decimal-IsDecimal h) (omega arith)

from_there :
    (s t : Text) {n : ℕ} → IsDecimal s n → all is_digit t ≡ true → IsDecimal (s ++ t) (decimal n t)
unfolding decimal
from_there s [] {n} h d = subst (λ t. IsDecimal t n) (sym (append-nil s)) h
from_there s (c ∷ t) {n} h d =
    let v = c - b'0' in
    let same : b'0' + v ≡ c = ground (arith, d) in
    let next = digit h v (ground (arith, d)) in
    subst (λ u. IsDecimal u (decimal (n * 10 + v) t))
      (ap (λ e. (s ++ (e ∷ [])) ++ t) same ∙ append_assoc s (c ∷ []) t)
      (from_there (s ++ ((b'0' + v) ∷ [])) t next (ground (arith, d)))

pub IsDecimal-decimal : (t : Text) → all is_digit t ≡ true → IsDecimal t (decimal 0 t)
IsDecimal-decimal t d = from_there [] t start d

pub len-digits : (t : Text) → all is_digit t ≡ true → len t ≡ length t
unfolding len
len-digits [] h = refl
len-digits (c ∷ t) h = ground (arith, len-digits t)
