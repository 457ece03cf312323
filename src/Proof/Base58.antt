-- ===== src/Proof/Base58.antt =====
-- The base58 decoder of core/src/proof.rs, which counts the bytes of a digest.
use nft_gate.Base.{
  ℕ, zero, suc, ◌+◌, ◌*◌, ◌/◌, ◌%◌, Bool, false, ◌&&◌, Option, none, some, List, [], ◌∷◌, leb, ◌==◌,
  if◌then◌else◌, length,
}
use nft_gate.Text.{Text, codes, len}

abbrev pub base58 : Text
base58 = codes "123456789ABCDEFGHJKLMNPQRSTUVWXYZabcdefghijkmnopqrstuvwxyz"

abbrev pub tx_digest_bytes : ℕ
tx_digest_bytes = 32

-- `iter().position(|&a| a == b)`, counted from `i`
unfoldable pub position : ℕ → ℕ → Text → Option ℕ
position i b [] = none
position i b (a ∷ rest) = let later = position (i + 1) b rest in if a == b then some i else later

-- `take_while(|&b| b == b'1').count()` and `skip(zeros)`
unfoldable pub leading_ones : Text → ℕ
leading_ones [] = 0
leading_ones (b ∷ s) = let rest = leading_ones s in if b == b'1' then rest + 1 else 0

unfoldable pub skip_ones : Text → Text
skip_ones [] = []
skip_ones (b ∷ s) = let rest = skip_ones s in if b == b'1' then rest else b ∷ s

-- `while carry > 0 { push(carry & 0xff); carry >>= 8 }`: a `u32` has four bytes, so that four rounds
-- are all that the loop can make.
unfoldable pub spill : ℕ → ℕ → List ℕ
spill zero carry = []
spill (suc rounds) carry =
    let rest = spill rounds (carry / 256) in if carry == 0 then [] else carry % 256 ∷ rest

-- One round of the loop: the magnitude, least byte first, times 58 plus the carry.
unfoldable pub mul_add : ℕ → List ℕ → List ℕ
unfolding spill
mul_add carry [] = spill 4 carry
mul_add carry (byte ∷ magnitude) =
    (carry + byte * 58) % 256 ∷ mul_add ((carry + byte * 58) / 256) magnitude

unfoldable pub magnitude_of : List ℕ → Text → Option (List ℕ)
unfolding position mul_add
magnitude_of magnitude [] = some magnitude
magnitude_of magnitude (b ∷ s) = elim (position 0 b base58) [
  | none ↦ none
  | some digit ↦ magnitude_of (mul_add digit magnitude) s
]

unfoldable pub base58_decoded_len : Text → Option ℕ
unfolding leading_ones skip_ones magnitude_of
base58_decoded_len s = elim (magnitude_of [] (skip_ones s)) [
  | none ↦ none
  | some magnitude ↦ some (leading_ones s + length magnitude)
]

abbrev is_count : Option ℕ → ℕ → Bool
is_count none n = false
is_count (some m) n = m == n

unfoldable pub is_tx_digest : Text → Bool
unfolding len base58_decoded_len
is_tx_digest s =
    (leb 32 (len s) && leb (len s) 44) && is_count (base58_decoded_len s) tx_digest_bytes
