-- ===== src/Worker/Region.antt =====
-- worker/src/region.rs, and the nonces and keys of worker/src/state.rs.
use mathlib.Core.Path.{subst}
use nft_gate.Base.{
  ◌≡◌, refl, sym, inl, inr, Bool, true, false, Option, none, some, List, [], ◌∷◌, ◌++◌, ◌==◌,
  if◌then◌else◌, All, arith, Bool-cases,
}
use nft_gate.Text.{Text, codes, text_eq, text_eq_iff, is_nil, member, to_ascii_lowercase}
use nft_gate.Text.Split.{split_once}
use nft_gate.State.{RateScope, challenge, public, gated_preauth, address}

abbrev pub nonce_shards : List Text
nonce_shards =
    codes "af"
    ∷ codes "an"
    ∷ codes "as"
    ∷ codes "eu"
    ∷ codes "na"
    ∷ codes "oc"
    ∷ codes "sa"
    ∷ codes "g"
    ∷ []

abbrev pub redeem_shard : Text
redeem_shard = codes "redeem"

unfoldable pub shard_of_nonce : Text → Option Text
shard_of_nonce nonce = elim (split_once (λ c. c == b'.') nonce) [
  | none ↦ some (codes "g")
  | some (shard, rest) ↦
      if is_nil shard
      then some (codes "g")
      else if member shard nonce_shards
      then some shard
      else none
]

abbrev known : Text → Text
known c = if member c nonce_shards then c else codes "g"

unfoldable pub region_of : Bool → Option Text → Text
region_of true continent = codes "g"
region_of false none = codes "g"
region_of false (some c) = known (to_ascii_lowercase c)

unfoldable pub instance_name : Text → Text
instance_name shard = codes "nonce:" ++ shard

-- The nonce that `issue_nonce` makes, by the random part
unfoldable pub issued_nonce : Text → Text → Text
issued_nonce region hex = region ++ (codes "." ++ hex)

unfoldable pub rate_key : RateScope → Text → Text
rate_key challenge key = codes "chal:" ++ key
rate_key public key = codes "ip:" ++ key
rate_key gated_preauth key = codes "pre:" ++ key
rate_key address key = key

IsRouted : Text → Type 0
IsRouted shard = (hex : Text) → shard_of_nonce (issued_nonce shard hex) ≡ some shard

shards-IsRouted : All IsRouted nonce_shards
unfolding IsRouted shard_of_nonce issued_nonce split_once text_eq
shards-IsRouted = (
  (λ hex. refl),
  (
    (λ hex. refl),
    (
      (λ hex. refl),
      ((λ hex. refl), ((λ hex. refl), ((λ hex. refl), ((λ hex. refl), ((λ hex. refl), tt))))),
    ),
  ),
)

member-All : (P : Text → Type 0) (x : Text) (xs : List Text) → All P xs → member x xs ≡ true → P x
member-All P x [] a h = absurd (cc)
member-All P x (y ∷ xs) (p, a) h = elim (Bool-cases (text_eq x y)) [
  | inl e ↦ subst P (sym ((text_eq_iff x y).0 e)) p
  | inr e ↦ member-All P x xs a (ground arith)
]

known-IsRouted : (c : Text) → IsRouted (known c)
known-IsRouted c = elim (Bool-cases (member c nonce_shards)) [
  | inl e ↦ rw e (member-All IsRouted c nonce_shards shards-IsRouted e)
  | inr e ↦ rw e shards-IsRouted.1.1.1.1.1.1.1.0
]

region_of-IsRouted :
    (global : Bool) (continent : Option Text) → IsRouted (region_of global continent)
unfolding region_of
region_of-IsRouted true continent = shards-IsRouted.1.1.1.1.1.1.1.0
region_of-IsRouted false none = shards-IsRouted.1.1.1.1.1.1.1.0
region_of-IsRouted false (some c) = known-IsRouted (to_ascii_lowercase c)

-- A nonce that is issued in the region of a request names that region's shard, for every
-- continent and in global mode, so that it is looked up where it was stored.
pub shard_of_nonce-issued_nonce :
    (global : Bool) (continent : Option Text) (hex : Text)
    → shard_of_nonce (issued_nonce (region_of global continent) hex)
      ≡ some (region_of global continent)
unfolding IsRouted
shard_of_nonce-issued_nonce global continent hex = region_of-IsRouted global continent hex
