-- ===== src/Headers/Via.antt =====
-- The loop guard of core/src/headers.rs on whole `Via` values.
use nft_gate.Base.{ℕ, ◌≡◌, refl, Bool, true, ◌||◌, List, [], ◌∷◌, ◌++◌, arith, ◌==◌, any}
use nft_gate.Text.{Text, text_eq, is_whitespace}
use nft_gate.Text.Split.{split_by, push_first, drop_empty, split_whitespace}
use nft_gate.Text.Laws.{split_by-append}
use nft_gate.Headers.{via_token, names_gateway, via_is_looped}

any-append : (f : Text → Bool) (ws vs : List Text) → any f (ws ++ vs) ≡ (any f ws || any f vs)
any-append f [] vs = refl
any-append f (w ∷ ws) vs = ground (arith, any-append f ws vs)

looped-append :
    (before after : Text)
    → via_is_looped (before ++ (b',' ∷ after)) ≡ (via_is_looped before || via_is_looped after)
unfolding via_is_looped
looped-append before after =
    let is_comma = λ (c : ℕ). c == b',' in
    ground (
      arith,
      split_by-append is_comma before b',' after,
      any-append names_gateway (split_by is_comma before) (split_by is_comma after),
    )

mark-looped : via_is_looped (32 ∷ via_token) ≡ true
unfolding via_is_looped names_gateway split_whitespace split_by push_first drop_empty is_whitespace
    text_eq
mark-looped = refl

-- A `Via` value is looped exactly if one of the two parts around a comma is, and a value that has the
-- gateway's own entry between commas is looped, whatever stands before and after.
via_is_looped-append :
    (before after : Text)
    → (via_is_looped (before ++ (b',' ∷ after)) ≡ (via_is_looped before || via_is_looped after))
      × (via_is_looped (before ++ (b',' ∷ ((32 ∷ via_token) ++ (b',' ∷ after)))) ≡ true)
via_is_looped-append before after = (
  looped-append before after,
  ground (
    arith,
    mark-looped,
    looped-append before ((32 ∷ via_token) ++ (b',' ∷ after)),
    looped-append (32 ∷ via_token) after,
  ),
)
