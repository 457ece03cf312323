-- ===== src/Text/Split.antt =====
-- The splitting and trimming of strings.
use nft_gate.Base.{
  ℕ, Bool, true, false, ◌&&◌, Option, none, some, List, [], ◌∷◌, ◌==◌, if◌then◌else◌,
}
use nft_gate.Text.{Text, text_eq, is_nil, is_whitespace, strip_prefix}

-- Puts a character in front of the first piece.
unfoldable pub push_first : ℕ → List Text → List Text
push_first c [] = (c ∷ []) ∷ []
push_first c (w ∷ ws) = (c ∷ w) ∷ ws

-- `split(p)` for a test of one character
unfoldable pub split_by : (ℕ → Bool) → Text → List Text
unfolding push_first
split_by p [] = [] ∷ []
split_by p (c ∷ s) = let rest = split_by p s in if p c then [] ∷ rest else push_first c rest

abbrev pub split_on : ℕ → Text → List Text
split_on d = split_by (λ c. c == d)

unfoldable pub drop_empty : List Text → List Text
drop_empty [] = []
drop_empty (w ∷ ws) = let rest = drop_empty ws in if is_nil w then rest else w ∷ rest

-- `split_whitespace()`
unfoldable pub split_whitespace : Text → List Text
unfolding split_by drop_empty is_whitespace
split_whitespace s = drop_empty (split_by is_whitespace s)

-- `split_once(p)` for a test of one character
unfoldable pub split_once : (ℕ → Bool) → Text → Option (Text × Text)
split_once p [] = none
split_once p (c ∷ s) = elim (p c) [
  | true ↦ some ([], s)
  | false ↦ elim (split_once p s) [ none ↦ none | some (a, b) ↦ some (c ∷ a, b) ]
]

-- `trim_start_matches(p)` and `trim_end_matches(p)` for a test of one character
unfoldable pub trim_start_by : (ℕ → Bool) → Text → Text
trim_start_by p [] = []
trim_start_by p (c ∷ s) = let rest = trim_start_by p s in if p c then rest else c ∷ s

unfoldable pub trim_end_by : (ℕ → Bool) → Text → Text
trim_end_by p [] = []
trim_end_by p (c ∷ s) = let rest = trim_end_by p s in if is_nil rest && p c then [] else c ∷ rest

unfoldable pub trim : Text → Text
unfolding trim_start_by trim_end_by is_whitespace
trim s = trim_end_by is_whitespace (trim_start_by is_whitespace s)

-- `map(f)` over pieces
unfoldable pub map_text : (Text → Text) → List Text → List Text
map_text f [] = []
map_text f (w ∷ ws) = f w ∷ map_text f ws

-- `rsplit_once(d)` for a character
unfoldable pub rsplit_once : ℕ → Text → Option (Text × Text)
rsplit_once d [] = none
rsplit_once d (c ∷ s) = elim (rsplit_once d s) [
  | some (a, b) ↦ some (c ∷ a, b)
  | none ↦ if c == d then some ([], s) else none
]

-- `split_once(p)` for a string
unfoldable pub split_once_str : Text → Text → Option (Text × Text)
split_once_str p [] = if is_nil p then some ([], []) else none
split_once_str p (c ∷ s) =
    let rest = split_once_str p s in
    elim (strip_prefix p (c ∷ s)) [
      | some after ↦ some ([], after)
      | none ↦ elim rest [ none ↦ none | some (a, b) ↦ some (c ∷ a, b) ]
    ]

-- `strip_suffix(p)`
unfoldable pub strip_suffix : Text → Text → Option Text
strip_suffix p [] = if is_nil p then some [] else none
strip_suffix p (c ∷ s) =
    let rest = strip_suffix p s in
    if text_eq p (c ∷ s) then some [] else elim rest [ none ↦ none | some a ↦ some (c ∷ a) ]

-- `starts_with(p)` and `ends_with(p)` for a test of one character
unfoldable pub starts_by : (ℕ → Bool) → Text → Bool
starts_by p [] = false
starts_by p (c ∷ s) = p c

unfoldable pub ends_by : (ℕ → Bool) → Text → Bool
ends_by p [] = false
ends_by p (c ∷ s) = let rest = ends_by p s in if is_nil s then p c else rest

-- `next().unwrap_or("")`
unfoldable pub first_piece : List Text → Text
first_piece [] = []
first_piece (w ∷ ws) = w
