-- ===== src/Text/Utf8/Laws.antt =====
-- Text that is encoded decodes to itself.
use nft_gate.Base.{
  ℕ, ◌+◌, ◌*◌, ◌/◌, ◌%◌, ◌≤◌, ◌<◌, ◌≡◌, refl, ap, ◌∙◌, ◌⊎◌, inl, inr, some, List, [], ◌∷◌, ◌++◌,
  ltb, ◌==◌, if◌then◌else◌, arith, All, Bool-cases,
}
use nft_gate.Text.{Text}
use nft_gate.Text.Utf8.{
  utf8_char, as_bytes, idle, more, Pending, Fed, continued, lead, feed, decode, all_valid,
  from_utf8,
}

-- `char`: a Unicode scalar value.
abbrev pub IsScalar : ℕ → Type 0
IsScalar c = (c < 0xd800) ⊎ ((0xe000 ≤ c) × (c < 0x11_0000))

feed_more :
    (left acc lo hi x : ℕ)
    → x < 64
    → lo ≤ 0x80 + x
    → 0x80 + x ≤ hi
    → feed (more left acc lo hi) (0x80 + x) ≡ continued left (acc * 64 + x)
unfolding feed
feed_more left acc lo hi x small low high = ground arith

lead_of_four :
    (q : ℕ)
    → q < 5
    → lead (0xf0 + q)
      ≡ ([], more 2 q (if q == 0 then 0x90 else 0x80) (if q == 4 then 0x8f else 0xbf))
unfolding lead
lead_of_four q h = ground arith

-- The four digits of a large scalar value in base 64, and the range of the second.
four_digits :
    (c : ℕ)
    → 0x1_0000 ≤ c
    → c < 0x11_0000
    → let q = c / 26_2144 in
      let r = c / 4096 % 64 in
      (q < 5)
      × ((if q == 0 then 0x90 else 0x80) ≤ 0x80 + r)
      × (0x80 + r ≤ (if q == 4 then 0x8f else 0xbf))
      × (((q * 64 + r) * 64 + c / 64 % 64) * 64 + c % 64 ≡ c)
four_digits c lo hi = (omega arith, ground arith, ground arith, omega arith)

decode_step :
    (st : Pending) (b : ℕ) (s : List ℕ) {r : Fed}
    → feed st b ≡ r
    → decode st (b ∷ s) ≡ r.0 ++ decode r.1 s
unfolding decode
decode_step st b s h = rw h refl

feed_idle : (b : ℕ) → feed idle b ≡ lead b
unfolding feed
feed_idle b = refl

decode_four :
    (c : ℕ) (s : List ℕ)
    → 0x1_0000 ≤ c
    → c < 0x11_0000
    → decode idle
        ((0xf0 + c / 26_2144) ∷ (0x80 + c / 4096 % 64) ∷ (0x80 + c / 64 % 64) ∷ (0x80 + c % 64) ∷ s)
      ≡ some c ∷ decode idle s
decode_four c s lo hi =
    let q = c / 26_2144 in
    let r = c / 4096 % 64 in
    let (q_small, low, high, whole) = four_digits c lo hi in
    decode_step idle (0xf0 + q) _ (feed_idle (0xf0 + q) ∙ lead_of_four q q_small)
    ∙ decode_step (more 2 q _ _) (0x80 + r) _ (feed_more 2 q _ _ r (omega arith) low high)
    ∙ decode_step (more 1 (q * 64 + r) 0x80 0xbf) (0x80 + c / 64 % 64) _
        (feed_more 1 (q * 64 + r) 0x80 0xbf (c / 64 % 64) (omega arith) (omega arith) (omega arith))
    ∙ decode_step (more 0 ((q * 64 + r) * 64 + c / 64 % 64) 0x80 0xbf) (0x80 + c % 64) s (
        feed_more 0 ((q * 64 + r) * 64 + c / 64 % 64) 0x80 0xbf (c % 64) (omega arith) (omega arith)
          (omega arith))
    ∙ ap (λ n. some n ∷ decode idle s) whole

decode-utf8_char :
    (c : ℕ) (s : List ℕ) → IsScalar c → decode idle (utf8_char c ++ s) ≡ some c ∷ decode idle s
unfolding decode feed lead utf8_char
decode-utf8_char c s h = elim (Bool-cases (ltb c 0x80)) [
  | inl a ↦ ground arith
  | inr a ↦ elim (Bool-cases (ltb c 0x800)) [
    | inl b ↦ ground arith
    | inr b ↦ elim (Bool-cases (ltb c 0x1_0000)) [
      | inl d ↦ ground arith
      | inr d ↦ rw (d, b, a) (decode_four c s (ground arith) (ground arith))
    ]
  ]
]

-- Text that is encoded decodes to itself, strictly.
pub from_utf8-as_bytes : (s : Text) → All IsScalar s → from_utf8 (as_bytes s) ≡ some s
unfolding from_utf8 as_bytes all_valid
from_utf8-as_bytes [] h = ground (arith)
from_utf8-as_bytes (c ∷ s) h =
    rw (decode-utf8_char c (as_bytes s) h.0) (ground (arith, from_utf8-as_bytes s h.1))
