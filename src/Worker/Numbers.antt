-- ===== src/Worker/Numbers.antt =====
-- The numbers in the queries to a Durable Object: `to_string` of an unsigned number, and `parse::<i64>()` of
-- a text without a minus sign.
use nft_gate.Base.{
  ℕ, zero, suc, ◌+◌, ◌-◌, ◌/◌, ◌%◌, ◌^◌, ◌≤◌, ◌<◌, ◌≡◌, refl, sym, ap, true, not, ◌&&◌, Option,
  none, some, [], ◌∷◌, ◌++◌, ltb, leb, if◌then◌else◌, all, arith, Bool-cases, inl, inr, ◌∙◌,
}
use nft_gate.Text.{Text, is_nil, is_digit, strip_prefix}
use nft_gate.Forward.{decimal, unsigned}
use nft_gate.Forward.Decimal.{decimal-append, all-append, is_digit_of}

-- The last digit of a number is the last character; 20 digits are enough for a `u64`.
unfoldable pub digits : (rounds : ℕ) → ℕ → Text
digits zero n = []
digits (suc r) n =
    let before = digits r (n / 10) in
    if ltb n 10 then (b'0' + n) ∷ [] else before ++ ((b'0' + n % 10) ∷ [])

abbrev pub to_string : ℕ → Text
to_string = digits 20

abbrev pub i64_max : ℕ
i64_max = 2 ^ 63 - 1

unfoldable pub parse_i64 : Text → Option ℕ
parse_i64 s =
    let n = decimal 0 (unsigned s) in
    if not (is_nil (unsigned s)) && (all is_digit (unsigned s) && leb n i64_max)
    then some n
    else none

digits_step :
    (r n : ℕ)
    → digits (suc r) n
      ≡ (if ltb n 10 then (b'0' + n) ∷ [] else digits r (n / 10) ++ ((b'0' + n % 10) ∷ []))
unfolding digits
digits_step r n = refl

no_digits : (n : ℕ) → digits zero n ≡ []
unfolding digits
no_digits n = refl

tenth : (r n : ℕ) → n < 10 ^ suc r → n / 10 < 10 ^ r
tenth r n h = omega arith

decimal-digits : (r n : ℕ) → n < 10 ^ r → decimal 0 (digits r n) ≡ n
unfolding decimal
decimal-digits zero n h = rw (no_digits n) (omega arith)
decimal-digits (suc r) n h = elim (Bool-cases (ltb n 10)) [
  | inl e ↦ rw (digits_step, e) (ground arith)
  | inr e ↦
      let ih = decimal-digits r (n / 10) (tenth r n h) in
      rw (digits_step, e, decimal-append, ih) (ground arith)
]

digits-digits : (r n : ℕ) → all is_digit (digits r n) ≡ true
unfolding digits
digits-digits zero n = refl
digits-digits (suc r) n = elim (Bool-cases (ltb n 10)) [
  | inl e ↦ rw e (ground arith)
  | inr e ↦ rw e (
      all-append (b'0' + n % 10) (digits r (n / 10)) (digits-digits r (n / 10))
        (is_digit_of (n % 10) (omega arith)))
]

-- A print starts with a digit.
StartsByDigit : Text → Type 0
StartsByDigit t = (c : ℕ) × (s : Text) × (t ≡ c ∷ s) × (is_digit c ≡ true)

digits-StartsByDigit : (r n : ℕ) → StartsByDigit (digits (suc r) n)
unfolding StartsByDigit digits
digits-StartsByDigit zero n = elim (Bool-cases (ltb n 10)) [
  | inl e ↦ rw e (b'0' + n, [], refl, is_digit_of n (ground (arith, e)))
  | inr e ↦ rw e (b'0' + n % 10, [], refl, is_digit_of (n % 10) (omega arith))
]
digits-StartsByDigit (suc r) n = elim (Bool-cases (ltb n 10)) [
  | inl e ↦ rw e (b'0' + n, [], refl, is_digit_of n (ground (arith, e)))
  | inr e ↦
      let (c, s, more, d) = digits-StartsByDigit r (n / 10) in
      rw e (c, s ++ ((b'0' + n % 10) ∷ []), ap (λ t. t ++ ((b'0' + n % 10) ∷ [])) more, d)
]

unsigned-digit : (c : ℕ) (s : Text) → is_digit c ≡ true → unsigned (c ∷ s) ≡ c ∷ s
unfolding strip_prefix
unsigned-digit c s h = ground arith

-- A number of an `i64` is read back from its print.
pub parse_i64-to_string : (n : ℕ) → n ≤ i64_max → parse_i64 (to_string n) ≡ some n
unfolding parse_i64 StartsByDigit
parse_i64-to_string n h =
    let (c, s, e, d) = digits-StartsByDigit 19 n in
    let plain : unsigned (to_string n) ≡ to_string n =
      ap unsigned e ∙ unsigned-digit c s d ∙ sym e in
    rw (plain) (ground (arith, e, digits-digits 20 n, decimal-digits 20 n (omega arith)))
