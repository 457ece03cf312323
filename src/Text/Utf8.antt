-- ===== src/Text/Utf8.antt =====
-- UTF-8: `as_bytes`, `str::from_utf8` and `String::from_utf8_lossy` of the standard library. A decoder
-- reads byte by byte; a byte that cannot continue a character ends the malformed part before it and
-- is read again as the start of the next.
pub mod Laws
use nft_gate.Base.{
  ℕ, zero, suc, ◌+◌, ◌-◌, ◌*◌, ◌/◌, ◌%◌, Bool, true, false, ◌&&◌, Option, none, some, List, [], ◌∷◌,
  ◌++◌, ltb, leb, ◌==◌, if◌then◌else◌,
}
use nft_gate.Text.{Text}

unfoldable pub utf8_char : ℕ → List ℕ
utf8_char c =
    if ltb c 0x80
    then c ∷ []
    else if ltb c 0x800
    then (0xc0 + c / 64) ∷ (0x80 + c % 64) ∷ []
    else if ltb c 0x1_0000
    then (0xe0 + c / 4096) ∷ (0x80 + c / 64 % 64) ∷ (0x80 + c % 64) ∷ []
    else (0xf0 + c / 26_2144) ∷ (0x80 + c / 4096 % 64) ∷ (0x80 + c / 64 % 64) ∷ (0x80 + c % 64) ∷ []

-- `as_bytes()`
unfoldable pub as_bytes : Text → List ℕ
unfolding utf8_char
as_bytes [] = []
as_bytes (c ∷ s) = utf8_char c ++ as_bytes s

-- Between two characters, or within one: how many bytes are to come after the next, the bits so far,
-- and the range of the next byte.
pub data Pending : Type 0 where
  idle : Pending
  more : (left acc lo hi : ℕ) → Pending

-- What a byte completes (`none` stands for a malformed part), and the state after it.
abbrev pub Fed : Type 0
Fed = List (Option ℕ) × Pending

unfoldable pub lead : ℕ → Fed
lead b =
    if ltb b 0x80
    then (some b ∷ [], idle)
    else if ltb b 0xc2
    then (none ∷ [], idle)
    else if ltb b 0xe0
    then ([], more 0 (b - 0xc0) 0x80 0xbf)
    else if ltb b 0xf0
    then (
      [],
      more 1 (b - 0xe0) (if b == 0xe0 then 0xa0 else 0x80) (if b == 0xed then 0x9f else 0xbf),
    )
    else if ltb b 0xf5
    then (
      [],
      more 2 (b - 0xf0) (if b == 0xf0 then 0x90 else 0x80) (if b == 0xf4 then 0x8f else 0xbf),
    )
    else (none ∷ [], idle)

abbrev pub continued : ℕ → ℕ → Fed
continued zero acc = (some acc ∷ [], idle)
continued (suc left) acc = ([], more left acc 0x80 0xbf)

unfoldable pub feed : Pending → ℕ → Fed
unfolding lead
feed idle b = lead b
feed (more left acc lo hi) b =
    if leb lo b && leb b hi
    then continued left (acc * 64 + (b - 0x80))
    else (none ∷ (lead b).0, (lead b).1)

abbrev pub at_end : Pending → List (Option ℕ)
at_end idle = []
at_end (more left acc lo hi) = none ∷ []

unfoldable pub decode : Pending → List ℕ → List (Option ℕ)
unfolding feed
decode st [] = at_end st
decode st (b ∷ s) = let r = feed st b in r.0 ++ decode r.1 s

unfoldable pub all_valid : List (Option ℕ) → Option Text
all_valid [] = some []
all_valid (none ∷ cs) = none
all_valid (some c ∷ cs) = elim (all_valid cs) [ none ↦ none | some s ↦ some (c ∷ s) ]

-- U+FFFD for each malformed part
unfoldable pub replaced : List (Option ℕ) → Text
replaced [] = []
replaced (none ∷ cs) = 0xfffd ∷ replaced cs
replaced (some c ∷ cs) = c ∷ replaced cs

unfoldable pub from_utf8 : List ℕ → Option Text
unfolding all_valid decode
from_utf8 bytes = all_valid (decode idle bytes)

unfoldable pub from_utf8_lossy : List ℕ → Text
unfolding replaced decode
from_utf8_lossy bytes = replaced (decode idle bytes)
