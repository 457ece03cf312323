-- ===== src/Net/Laws.antt =====
-- Which entry of `X-Forwarded-For` names the client.
use mathlib.Core.List.{append_assoc}
use nft_gate.Base.{
  ℕ, suc, ◌+◌, ◌-◌, ◌≡◌, refl, sym, ap, ◌∙◌, inl, inr, false, Option, some, List, [], ◌∷◌, ◌++◌,
  ltb, ◌==◌, length, arith, length-append, Bool-cases,
}
use nft_gate.Text.{Text, is_nil}
use nft_gate.Text.Split.{split_on, trim}
use nft_gate.Text.Laws.{split_by-append}
use nft_gate.Net.{trimmed, entries, nth, from_right, client_ip_raw}

entries-append : (xs ys : List Text) → entries (xs ++ ys) ≡ entries xs ++ entries ys
unfolding entries
entries-append [] ys = refl
entries-append (x ∷ xs) ys =
    ap (◌++◌ (trimmed (split_on b',' x))) (entries-append xs ys)
    ∙ sym (append_assoc (trimmed (split_on b',' x)) (entries xs) (entries ys))

nth-append : (xs ys : List Text) (y : Text) → nth (length xs) (xs ++ (y ∷ ys)) ≡ some y
nth-append [] ys y = refl
nth-append (x ∷ xs) ys y = nth-append xs ys y

from_right-append :
    (xs ys : List Text) (y : Text) → from_right (suc (length ys)) (xs ++ (y ∷ ys)) ≡ some y
from_right-append xs ys y =
    let l = length-append xs (y ∷ ys) in
    rw (enough (length xs) (length ys) _ l, index (length xs) (length ys) _ l) (nth-append xs ys y)
  where
    enough : (a b n : ℕ) → n ≡ a + suc b → ltb n (suc b) ≡ false
    enough a b n h = ground arith

    index : (a b n : ℕ) → n ≡ a + suc b → n - suc b ≡ a
    index a b n h = omega arith

trimmed-append : (xs ys : List Text) → trimmed (xs ++ ys) ≡ trimmed xs ++ trimmed ys
trimmed-append [] ys = refl
trimmed-append (x ∷ xs) ys = elim (Bool-cases (is_nil (trim x))) [
  | inl h ↦ rw (h, trimmed-append xs ys) refl
  | inr h ↦ rw (h, trimmed-append xs ys) refl
]

entries-comma :
    (v w : Text) (xff : List Text) → entries ((v ++ (b',' ∷ w)) ∷ xff) ≡ entries (v ∷ w ∷ xff)
unfolding entries
entries-comma v w xff =
    ap (λ es. trimmed es ++ entries xff) (split_by-append (λ c. c == b',') v b',' w refl)
    ∙ ap (λ es. es ++ entries xff) (trimmed-append (split_on b',' v) (split_on b',' w))
    ∙ append_assoc (trimmed (split_on b',' v)) (trimmed (split_on b',' w)) (entries xff)

-- Behind as many proxies as the last X-Forwarded-For entries are, the client address is the
-- first of these entries, whatever the client had sent before them and whatever the peer is,
-- both where the proxies add header fields and where the first of them adds to the client's last
-- field after a comma.
pub client_ip_raw-appended :
    (spoofed : List Text) (v w : Text) (added : List Text) (e : Text) (rest : List Text)
    (peer : Option Text)
    → entries (w ∷ added) ≡ e ∷ rest
    → (client_ip_raw (spoofed ++ (w ∷ added)) peer (suc (length rest)) ≡ e)
      × (client_ip_raw (spoofed ++ ((v ++ (b',' ∷ w)) ∷ added)) peer (suc (length rest)) ≡ e)
unfolding client_ip_raw entries
client_ip_raw-appended spoofed v w added e rest peer h = (
  named _ (entries spoofed) e rest peer
      (entries-append spoofed (w ∷ added) ∙ ap (◌++◌ (entries spoofed)) h),
  named _ (entries spoofed ++ trimmed (split_on b',' v)) e rest peer (
      entries-append spoofed ((v ++ (b',' ∷ w)) ∷ added)
      ∙ ap (◌++◌ (entries spoofed))
          (entries-comma v w added ∙ ap (◌++◌ (trimmed (split_on b',' v))) h)
      ∙ sym (append_assoc (entries spoofed) (trimmed (split_on b',' v)) (e ∷ rest))),
)
  where
    named :
        (xff es : List Text) (e : Text) (rest : List Text) (peer : Option Text)
        → entries xff ≡ es ++ (e ∷ rest)
        → client_ip_raw xff peer (suc (length rest)) ≡ e
    named xff es e rest peer h = rw (client_ip_raw, h, from_right-append es rest e) (ground arith)
