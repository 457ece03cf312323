-- ===== src/Chain/Responses/Passes.antt =====
-- The reading of a pass and of the time of an event in core/src/chain.rs, by what stands in the texts.
use mathlib.Core.Path.{subst}
use nft_gate.Base.{
  ℕ, ◌+◌, ◌-◌, ◌*◌, ◌^◌, min, ◌≤◌, ◌<◌, ◌≡◌, ◌≢◌, refl, ap, ◌∙◌, ◌⊎◌, ◌↔◌, inl, inr, true, some, [],
  ◌∷◌, arith, lt→ltb, all, length, Option-cases, Bool-cases,
}
use nft_gate.Base.Options.{◌>>=◌}
use nft_gate.Text.{Text, codes, text_eq, text_eq_iff, is_digit}
use nft_gate.Forward.{decimal}
use nft_gate.Forward.Decimal.{
  IsDecimal, all-IsDecimal, decimal-IsDecimal, IsDecimal-decimal, len-digits,
}
use nft_gate.Grpc.Wire.{Bytes}
use nft_gate.Grpc.Values.{value_find_string}
use nft_gate.Chain.{clock_skew_ms}
use nft_gate.Chain.Responses.{digits_u64, event_is_recent, pass_is_usable}

-- A text of one to so many decimal digits that says a `u64`
abbrev pub Says : ℕ → Text → ℕ → Type 0
Says most t n = (t ≢ []) × (length t ≤ most) × IsDecimal t n × (n < 2 ^ 64)

digits_u64-Says : (most : ℕ) (t : Text) (n : ℕ) → digits_u64 most t ≡ some n → Says most t n
unfolding digits_u64
digits_u64-Says most [] n h = absurd (ground (arith, h))
digits_u64-Says most (c ∷ t) n h = elim (Bool-cases (all is_digit (c ∷ t))) [
  | inr other ↦ absurd (ground (arith, h, other))
  | inl d ↦
      let same : decimal 0 (c ∷ t) ≡ n = ground (arith, h, d) in
      (
        (λ e. cc),
        ground (arith, h, d, len-digits (c ∷ t) d),
        subst (IsDecimal (c ∷ t)) same (IsDecimal-decimal (c ∷ t) d),
        ground (arith, h, d),
      )
]

Says-digits_u64 : (most : ℕ) (t : Text) (n : ℕ) → Says most t n → digits_u64 most t ≡ some n
unfolding digits_u64
Says-digits_u64 most [] n (some_digit, short, d, fits) = absurd (some_digit refl)
Says-digits_u64 most (c ∷ t) n (_, short, d, fits) =
    ground (arith, all-IsDecimal d, decimal-IsDecimal d, len-digits (c ∷ t) (all-IsDecimal d))

-- The string under a key is such a text.
abbrev pub Number : ℕ → Bytes → Text → ℕ → Type 0
Number most json key n = (t : Text) × (value_find_string json key ≡ some t) × Says most t n

number_lem :
    (most : ℕ) (json : Bytes) (key : Text) (n : ℕ)
    → (value_find_string json key >>= digits_u64 most ≡ some n) ↔ Number most json key n
number_lem most json key n = (there, back)
  where
    there : value_find_string json key >>= digits_u64 most ≡ some n → Number most json key n
    there h = elim (Option-cases (value_find_string json key)) [
      | inl e ↦ absurd (ground (arith, h, e))
      | inr (t, e) ↦ (t, e, digits_u64-Says most t n (rw e at h))
    ]

    back : Number most json key n → value_find_string json key >>= digits_u64 most ≡ some n
    back (t, e, s) = rw e (Says-digits_u64 most t n s)

-- The timestamp of the event is no further ahead of the clock than the skew, and no older than the age,
-- in the arithmetic of `u64`, which saturates.
abbrev pub IsRecent : Bytes → ℕ → ℕ → Type 0
IsRecent json now max_age_secs =
    (ts : ℕ) × Number 16 json (codes "timestamp_ms") ts
    × (ts ≤ now + clock_skew_ms)
    × (now ≤ ts + min (max_age_secs * 1000) (2 ^ 64 - 1))

pub event_is_recent_lem :
    (json : Bytes) (now max_age_secs : ℕ)
    → (event_is_recent json now max_age_secs ≡ true) ↔ IsRecent json now max_age_secs
unfolding event_is_recent
event_is_recent_lem json now age = (there, back)
  where
    there : event_is_recent json now age ≡ true → IsRecent json now age
    there h =
        elim (Option-cases (value_find_string json (codes "timestamp_ms") >>= digits_u64 16)) [
          | inl e ↦ absurd (cc)
          | inr (ts, e) ↦
              (ts, (number_lem 16 json (codes "timestamp_ms") ts).0 e, ground arith, ground arith)
        ]

    back : IsRecent json now age → event_is_recent json now age ≡ true
    back (ts, s, a, b) =
        let e = (number_lem 16 json (codes "timestamp_ms") ts).1 s in
        rw (event_is_recent, e) (ground (arith, s.2.3, a, b))

-- An unlimited pass, or a single-use pass with uses left.
abbrev pub IsUsable : Bytes → Type 0
IsUsable json =
    (value_find_string json (codes "@variant") ≡ some (codes "UnlimitedPass"))
    ⊎ ((value_find_string json (codes "@variant") ≡ some (codes "SingleUse"))
        × ((n : ℕ) × Number 20 json (codes "uses_remaining") n × (0 < n)))

pass_is_usable-IsUsable : (json : Bytes) → pass_is_usable json ≡ true → IsUsable json
unfolding pass_is_usable
pass_is_usable-IsUsable json h = elim (Option-cases (value_find_string json (codes "@variant"))) [
  | inl e ↦ absurd (cc)
  | inr (v, e) ↦ elim (Bool-cases (text_eq v (codes "UnlimitedPass"))) [
    | inl u ↦ inl (e ∙ ap some ((text_eq_iff _ _).0 u))
    | inr u ↦ elim (Bool-cases (text_eq v (codes "SingleUse"))) [
      | inr k ↦ absurd (cc)
      | inl k ↦
          elim (Option-cases (value_find_string json (codes "uses_remaining") >>= digits_u64 20)) [
            | inl o ↦ absurd (cc)
            | inr (n, o) ↦ inr (
              e ∙ ap some ((text_eq_iff _ _).0 k),
              (n, (number_lem 20 json (codes "uses_remaining") n).0 o, ground arith),
            )
          ]
    ]
  ]
]

IsUsable-pass_is_usable : (json : Bytes) → IsUsable json → pass_is_usable json ≡ true
unfolding pass_is_usable text_eq
IsUsable-pass_is_usable json (inl e) = rw (pass_is_usable, e) refl
IsUsable-pass_is_usable json (inr (e, (n, k, p))) =
    rw (pass_is_usable, e, (number_lem 20 json (codes "uses_remaining") n).1 k) (lt→ltb 0 n p)

pub pass_is_usable_lem : (json : Bytes) → (pass_is_usable json ≡ true) ↔ IsUsable json
pass_is_usable_lem json = (pass_is_usable-IsUsable json, IsUsable-pass_is_usable json)
