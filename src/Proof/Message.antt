-- ===== src/Proof/Message.antt =====
-- core/src/proof.rs: reading the signed message back.
use nft_gate.Base.{
  ℕ, ◌≡◌, refl, sym, ap, ◌∙◌, Bool, true, false, not, Option, none, some, List, [], ◌∷◌, ◌++◌,
  arith, leb, ◌==◌, Option-cases, inl, inr, all, any, All,
}
use nft_gate.Base.Options.{some-injective}
use nft_gate.Text.{Text, codes, text_eq_iff, is_hex_lower, member, strip_prefix}
use nft_gate.Text.Laws.{strip_prefix-some}
use nft_gate.Text.Split.{split_once}
use nft_gate.Proof.Base58.{
  base58, position, skip_ones, mul_add, magnitude_of, base58_decoded_len, is_tx_digest,
}
use nft_gate.Proof.{
  MessageContext, networks, is_nonce_char, is_nonce, is_canonical_id, digest_ok, digest_line,
  origin_ok, message_lines, join_lines, personal_message,
}

-- No line break stands in the text.
abbrev pub IsLine : Text → Type 0
IsLine s = all (λ c. not (c == 10)) s ≡ true

abbrev is_break : ℕ → Bool
is_break c = c == 10

split_once-line : (s t : Text) → IsLine s → split_once is_break (s ++ (10 ∷ t)) ≡ some (s, t)
unfolding split_once
split_once-line [] t h = refl
split_once-line (c ∷ s) t h = ground (arith, split_once-line s t)

split_once-last : (s : Text) → IsLine s → split_once is_break s ≡ none
unfolding split_once
split_once-last [] h = refl
split_once-last (c ∷ s) h = ground (arith, split_once-last s)

-- Lines without breaks can be read back from the joined text.
pub join_lines-injective :
    (l m : Text) (ls ms : List Text)
    → All IsLine (l ∷ ls)
    → All IsLine (m ∷ ms)
    → join_lines (l ∷ ls) ≡ join_lines (m ∷ ms)
    → (l ≡ m) × (ls ≡ ms)
unfolding join_lines
join_lines-injective l m [] [] h k e = (e, refl)
join_lines-injective l m [] (m' ∷ ms) h k e = absurd (
    ground (
      arith,
      split_once-last l h.0,
      split_once-line m (join_lines (m' ∷ ms)) k.0,
      ap (split_once is_break) e,
    ))
join_lines-injective l m (l' ∷ ls) [] h k e = absurd (
    ground (
      arith,
      split_once-last m k.0,
      split_once-line l (join_lines (l' ∷ ls)) h.0,
      ap (split_once is_break) e,
    ))
join_lines-injective l m (l' ∷ ls) (m' ∷ ms) h k e =
    let cut = some-injective (
      sym (split_once-line l (join_lines (l' ∷ ls)) h.0)
      ∙ ap (split_once is_break) e
      ∙ split_once-line m (join_lines (m' ∷ ms)) k.0) in
    let (a, b) = join_lines-injective l' m' ls ms h.1 k.1 (ap (λ p. p.1) cut) in
    (ap (λ p. p.0) cut, ground (arith, a, b))

IsLine-append : (s t : Text) → IsLine s → IsLine t → IsLine (s ++ t)
IsLine-append [] t h k = k
IsLine-append (c ∷ s) t h k = ground (arith, IsLine-append s t)

all_hex-IsLine : (s : Text) → all is_hex_lower s ≡ true → IsLine s
all_hex-IsLine [] h = refl
all_hex-IsLine (c ∷ s) h = ground (arith, all_hex-IsLine s)

all_nonce-IsLine : (s : Text) → all is_nonce_char s ≡ true → IsLine s
all_nonce-IsLine [] h = refl
all_nonce-IsLine (c ∷ s) h = ground (arith, all_nonce-IsLine s)

visible-IsLine : (s : Text) → any (λ b. leb b 0x20) s ≡ false → IsLine s
visible-IsLine [] h = refl
visible-IsLine (c ∷ s) h = ground (arith, visible-IsLine s)

break_not_base58 : (b : ℕ) → (b == 10) ≡ true → position 0 b base58 ≡ none
unfolding position
break_not_base58 b h = ground arith

magnitude_of-IsLine : (m : List ℕ) (s : Text) (r : List ℕ) → magnitude_of m s ≡ some r → IsLine s
unfolding magnitude_of
magnitude_of-IsLine m [] r h = refl
magnitude_of-IsLine m (c ∷ s) r h = elim (Option-cases (position 0 c base58)) [
  | inl e ↦ absurd (ground arith)
  | inr (digit, e) ↦ ground (arith, break_not_base58 c, magnitude_of-IsLine (mul_add digit m) s r)
]

skip_ones-IsLine : (s : Text) → IsLine (skip_ones s) → IsLine s
unfolding skip_ones
skip_ones-IsLine [] h = refl
skip_ones-IsLine (c ∷ s) h = ground (arith, skip_ones-IsLine s)

is_tx_digest-IsLine : (s : Text) → is_tx_digest s ≡ true → IsLine s
unfolding is_tx_digest base58_decoded_len
is_tx_digest-IsLine s h = elim (Option-cases (magnitude_of [] (skip_ones s))) [
  | inl e ↦ absurd (ground arith)
  | inr (r, e) ↦ skip_ones-IsLine s (magnitude_of-IsLine [] (skip_ones s) r e)
]

is_canonical_id-IsLine : (s : Text) → is_canonical_id s ≡ true → IsLine s
unfolding is_canonical_id
is_canonical_id-IsLine s h = elim (Option-cases (strip_prefix (codes "0x") s)) [
  | inl e ↦ absurd (ground arith)
  | inr (r, e) ↦ ground (arith, strip_prefix-some (codes "0x") s r e, all_hex-IsLine r)
]

network-IsLine : (s : Text) → member s networks ≡ true → IsLine s
network-IsLine s h = ground (
  arith,
  text_eq_iff s (codes "localnet"),
  text_eq_iff s (codes "devnet"),
  text_eq_iff s (codes "testnet"),
  text_eq_iff s (codes "mainnet"),
)

-- What a context passed for its message to be built.
abbrev IsCanonical : MessageContext → Type 0
IsCanonical ctx =
    (is_canonical_id ctx.gate_id ≡ true)
    × (member ctx.network networks ≡ true)
    × (is_nonce ctx.nonce ≡ true)
    × (digest_ok ctx.consume_digest ≡ true)
    × (origin_ok ctx.origin ≡ true)

personal_message-IsCanonical :
    (ctx : MessageContext) (m : Text)
    → personal_message ctx ≡ some m
    → IsCanonical ctx × (m ≡ join_lines (message_lines ctx))
unfolding personal_message
personal_message-IsCanonical ctx m h = ground arith

digest_line-IsLine : (d : Option Text) → digest_ok d ≡ true → All IsLine (digest_line d)
digest_line-IsLine none h = tt
digest_line-IsLine (some d) h = (is_tx_digest-IsLine d h, tt)

message_lines-IsLine : (ctx : MessageContext) → IsCanonical ctx → All IsLine (message_lines ctx)
unfolding message_lines is_nonce origin_ok
message_lines-IsLine ctx (gate, network, nonce, digest, origin) = (
  refl,
  (
    visible-IsLine ctx.origin (ground arith),
    (
      is_canonical_id-IsLine ctx.gate_id gate,
      (
        network-IsLine ctx.network network,
        (all_nonce-IsLine ctx.nonce (ground arith), digest_line-IsLine ctx.consume_digest digest),
      ),
    ),
  ),
)

digest_line-injective : (d e : Option Text) → digest_line d ≡ digest_line e → d ≡ e
digest_line-injective none none h = refl
digest_line-injective none (some e) h = absurd (ground arith)
digest_line-injective (some d) none h = absurd (ground arith)
digest_line-injective (some d) (some e) h = ground arith

-- Two contexts for which the same message is built are the same: the signed text determines the
-- origin, the gate, the network, the nonce and the consume digest.
pub personal_message-injective :
    (c d : MessageContext) (m : Text)
    → personal_message c ≡ some m
    → personal_message d ≡ some m
    → c ≡ d
unfolding message_lines
personal_message-injective c d m h k =
    let (c_ok, c_is) = personal_message-IsCanonical c m h in
    let (d_ok, d_is) = personal_message-IsCanonical d m k in
    let c_lines = message_lines-IsLine c c_ok in
    let d_lines = message_lines-IsLine d d_ok in
    let same = join_lines-injective _ _ _ _ c_lines d_lines (sym c_is ∙ d_is) in
    ground (arith, same, digest_line-injective c.consume_digest d.consume_digest)
