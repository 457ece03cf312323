-- ===== src/Sig/Address.antt =====
-- Canonical addresses: what `normalize_address` makes of the addresses that the grammar admits.
use nft_gate.Base.{
  ℕ, zero, suc, ◌-◌, ◌≤◌, ◌≡◌, refl, Bool, true, false, not, [], ◌∷◌, ◌++◌, arith, ◌<◌, inl, inr,
  all, length, length-append, Option-cases,
}
use nft_gate.Text.{
  Text, codes, is_ascii, is_hex, is_hex_lower, is_whitespace, strip_prefix, to_ascii_lowercase,
}
use nft_gate.Text.Laws.{len_of_ascii, strip_prefix-append, strip_prefix-some}
use nft_gate.Text.Split.{trim, trim_start_by, trim_end_by}
use nft_gate.External.{Crates}
use nft_gate.Proof.{is_address, is_canonical_id}
use nft_gate.Sig.{trim_0x, zeros, pad_64, normalize_address}

trim_start_by-none :
    (p : ℕ → Bool) (s : Text) → all (λ c. not (p c)) s ≡ true → trim_start_by p s ≡ s
unfolding trim_start_by
trim_start_by-none p [] h = refl
trim_start_by-none p (c ∷ s) h = ground arith

trim_end_by-none : (p : ℕ → Bool) (s : Text) → all (λ c. not (p c)) s ≡ true → trim_end_by p s ≡ s
unfolding trim_end_by
trim_end_by-none p [] h = refl
trim_end_by-none p (c ∷ s) h = ground (arith, trim_end_by-none p s)

-- Text without white space is left alone.
pub trim-none : (s : Text) → all (λ c. not (is_whitespace c)) s ≡ true → trim s ≡ s
unfolding trim
trim-none s h = rw (trim_start_by-none is_whitespace s h) (trim_end_by-none is_whitespace s h)

is_hex-visible : (c : ℕ) → is_hex c ≡ true → (0x20 < c) × (c < 0x80)
is_hex-visible c h = ground arith

visible-no_space : (c : ℕ) → 0x20 < c → c < 0x80 → is_whitespace c ≡ false
unfolding is_whitespace
visible-no_space c lo hi = ground arith

all_hex-no_space : (h : Text) → all is_hex h ≡ true → all (λ c. not (is_whitespace c)) h ≡ true
all_hex-no_space [] x = refl
all_hex-no_space (c ∷ s) x =
    ground (arith, all_hex-no_space s, visible-no_space c, is_hex-visible c)

all_hex-is_ascii : (h : Text) → all is_hex h ≡ true → is_ascii h ≡ true
all_hex-is_ascii [] x = refl
all_hex-is_ascii (c ∷ s) x = ground (arith, all_hex-is_ascii s)

trim_0x-hex : (h : Text) → all is_hex h ≡ true → trim_0x h ≡ h
unfolding trim_0x
trim_0x-hex [] x = refl
trim_0x-hex (c ∷ []) x = refl
trim_0x-hex (c ∷ d ∷ s) x = ground arith

all_hex-lower : (h : Text) → all is_hex h ≡ true → all is_hex_lower (to_ascii_lowercase h) ≡ true
all_hex-lower [] x = refl
all_hex-lower (c ∷ s) x = ground (arith, all_hex-lower s)

length-lower : (h : Text) → length (to_ascii_lowercase h) ≡ length h
length-lower [] = refl
length-lower (c ∷ s) = ground (arith, length-lower s)

length-zeros : (n : ℕ) → length (zeros n) ≡ n
length-zeros zero = refl
length-zeros (suc n) = ground (arith, length-zeros n)

all_lower-zeros :
    (n : ℕ) (s : Text) → all is_hex_lower s ≡ true → all is_hex_lower (zeros n ++ s) ≡ true
all_lower-zeros zero s x = x
all_lower-zeros (suc n) s x = ground (arith, all_lower-zeros n s x)

all_lower-is_hex : (s : Text) → all is_hex_lower s ≡ true → all is_hex s ≡ true
all_lower-is_hex [] x = refl
all_lower-is_hex (c ∷ s) x = ground (arith, all_lower-is_hex s)

lower-none : (s : Text) → all is_hex_lower s ≡ true → to_ascii_lowercase s ≡ s
lower-none [] x = refl
lower-none (c ∷ s) x = ground (arith, lower-none s)

canonical_of_body :
    (s : Text)
    → all is_hex_lower s ≡ true
    → length s ≡ 64
    → is_canonical_id (codes "0x" ++ s) ≡ true
unfolding is_canonical_id
canonical_of_body s x n = ground (
  arith,
  strip_prefix-append (codes "0x") s,
  len_of_ascii s,
  all_hex-is_ascii s,
  all_lower-is_hex s,
)

module _ (crates : Crates) where
  -- On a hex body the normal form is the lower-case body, padded.
  pub normalize_hex :
      (h : Text)
      → all is_hex h ≡ true
      → normalize_address crates (codes "0x" ++ h) ≡ codes "0x" ++ pad_64 (to_ascii_lowercase h)
  unfolding normalize_address trim_0x is_whitespace
  normalize_hex h x = ground (
    arith,
    trim-none (codes "0x" ++ h),
    all_hex-no_space h x,
    trim_0x-hex h x,
    all_hex-is_ascii h x,
  )

  body_of :
      (a : Text)
      → is_address a ≡ true
      → (h : Text) × (a ≡ codes "0x" ++ h)
        × (all is_hex h ≡ true)
        × (1 ≤ length h)
        × (length h ≤ 64)
  unfolding is_address
  body_of a x = elim (Option-cases (strip_prefix (codes "0x") a)) [
    | inl e ↦ absurd (ground arith)
    | inr (h, e) ↦
        let hex : all is_hex h ≡ true = ground arith in
        let same = len_of_ascii h (all_hex-is_ascii h hex) in
        (h, strip_prefix-some (codes "0x") a h e, hex, ground (arith, same), ground (arith, same))
  ]

  of_address :
      (a : Text) → is_address a ≡ true → is_canonical_id (normalize_address crates a) ≡ true
  unfolding pad_64
  of_address a x =
      let (h, e, hex, lo, hi) = body_of a x in
      let low = to_ascii_lowercase h in
      ground (
        arith,
        e,
        normalize_hex h hex,
        canonical_of_body (zeros (64 - length low) ++ low)
            (all_lower-zeros (64 - length low) low (all_hex-lower h hex)),
        length-append (zeros (64 - length low)) low,
        length-zeros (64 - length low),
        length-lower h,
      )

  of_canonical : (a : Text) → is_canonical_id a ≡ true → normalize_address crates a ≡ a
  unfolding pad_64 is_canonical_id
  of_canonical a x = elim (Option-cases (strip_prefix (codes "0x") a)) [
    | inl e ↦ absurd (ground arith)
    | inr (h, e) ↦
        let low : all is_hex_lower h ≡ true = ground arith in
        let hex = all_lower-is_hex h low in
        let full : length h ≡ 64 = ground (arith, len_of_ascii h (all_hex-is_ascii h hex)) in
        let none_to_add : zeros (64 - length h) ≡ [] = rw full refl in
        ground (
          arith,
          strip_prefix-some (codes "0x") a h e,
          normalize_hex h hex,
          lower-none h low,
          none_to_add,
        )
  ]

  -- Every address that the grammar admits normalises to a canonical id, which is its own normal form.
  pub is_canonical_id-normalize_address :
      (a : Text)
      → is_address a ≡ true
      → (is_canonical_id (normalize_address crates a) ≡ true)
        × (normalize_address crates (normalize_address crates a) ≡ normalize_address crates a)
  is_canonical_id-normalize_address a x =
      let canonical = of_address a x in
      (canonical, of_canonical (normalize_address crates a) canonical)
