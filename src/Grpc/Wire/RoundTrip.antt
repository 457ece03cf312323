-- ===== src/Grpc/Wire/RoundTrip.antt =====
-- Reading back what was written, and the rounds that reading takes.
use native.Mathlib.Nat.{div-add-mod}
use native.Mathlib.Numerals.{towards_suc}
use mathlib.Core.List.{append_assoc}
use nft_gate.Base.{
  ℕ, zero, suc, ◌+◌, ◌*◌, ◌/◌, ◌%◌, ◌^◌, ◌≤◌, ◌<◌, ◌≡◌, refl, sym, ap, ◌∙◌, inl, inr, none, some,
  List, [], ◌∷◌, ◌++◌, length, take, drop, arith, All, length-append, length-drop, take-append,
  drop-append, Option-cases,
}
use nft_gate.Sig.{uleb128}
use nft_gate.Grpc.Wire.{
  Bytes, varint, tag, bytes_field, uint_field, Field, varint_of, len_of, read_groups, read_varint,
  read_payload, next, fields_within, fields,
}

shift_seven : (s : ℕ) → 2 ^ (s + 7) ≡ 128 * 2 ^ s
shift_seven s = simp towards_suc (omega arith)

-- The lowest group of `v` and the rest, both shifted by `s`.
split_group : (v s : ℕ) → v * 2 ^ s ≡ v % 128 * 2 ^ s + v / 128 * 2 ^ (s + 7)
split_group v s = omega (
  arith,
  ap (λ (t : ℕ). t * 2 ^ s) (div-add-mod v 128),
  ap (λ (t : ℕ). v / 128 * t) (shift_seven s),
)

read_groups-uleb128 :
    (k v out shift : ℕ) (s : Bytes)
    → v < 128 ^ suc k
    → shift + 7 * k ≤ 63
    → out + v * 2 ^ shift < 2 ^ 64
    → read_groups shift out (uleb128 (suc k) v ++ s) ≡ some (out + v * 2 ^ shift, s)
unfolding read_groups uleb128
read_groups-uleb128 zero v out shift s small room fits = ground (arith, split_group v shift)
read_groups-uleb128 (suc k) v out shift s small room fits = ground (
  arith,
  split_group v shift,
  read_groups-uleb128 k (v / 128) (out + v % 128 * 2 ^ shift) (shift + 7) s (omega arith)
      (omega arith),
)

-- A `u64` is read back, and what follows it is left.
pub read_varint-varint :
    (v : ℕ) (s : Bytes) → v < 2 ^ 64 → read_varint (varint v ++ s) ≡ some (v, s)
unfolding read_varint varint
read_varint-varint v s h = ground (arith, read_groups-uleb128 9 v 0 0 s)

abbrev pub IsField : ℕ → Type 0
IsField n = n < 2 ^ 29

next_of :
    (s : Bytes) (k : ℕ) (r : Bytes)
    → read_varint s ≡ some (k, r)
    → next s ≡ read_payload (k / 8 % 2 ^ 32) (k % 8) r
unfolding next
next_of s k r h = cc

payload_of_len :
    (n : ℕ) (s : Bytes) (len : ℕ) (r : Bytes)
    → read_varint s ≡ some (len, r)
    → len ≤ length r
    → read_payload n 2 s ≡ some (len_of n (take len r), drop len r)
unfolding read_payload
payload_of_len n s len r h le = ground (arith, h)

payload_of_uint :
    (n : ℕ) (s : Bytes) (v : ℕ) (r : Bytes)
    → read_varint s ≡ some (v, r)
    → read_payload n 0 s ≡ some (varint_of n v, r)
unfolding read_payload
payload_of_uint n s v r h = ground (arith, h)

-- The field number and the wire type of a tag.
key_parts :
    (n wire : ℕ)
    → IsField n
    → wire < 8
    → (n * 8 + wire < 2 ^ 64) × ((n * 8 + wire) / 8 % 2 ^ 32 ≡ n) × ((n * 8 + wire) % 8 ≡ wire)
key_parts n wire h w = (omega arith, omega arith, omega arith)

next_tagged :
    (n wire : ℕ) (s : Bytes) → IsField n → wire < 8 → next (tag n wire ++ s) ≡ read_payload n wire s
unfolding tag
next_tagged n wire s h w =
    let (fits, field, kind) = key_parts n wire h w in
    next_of _ _ s (read_varint-varint (n * 8 + wire) s fits)
    ∙ ap (λ f. read_payload f ((n * 8 + wire) % 8) s) field
    ∙ ap (λ k. read_payload n k s) kind

next-bytes_field :
    (n : ℕ) (b s : Bytes)
    → IsField n
    → length b < 2 ^ 64
    → next (bytes_field n b ++ s) ≡ some (len_of n b, s)
unfolding bytes_field
next-bytes_field n b s h fits =
    ap next (append_assoc (tag n 2) (varint (length b) ++ b) s)
    ∙ next_tagged n 2 ((varint (length b) ++ b) ++ s) h (omega arith)
    ∙ ap (read_payload n 2) (append_assoc (varint (length b)) b s)
    ∙ payload_of_len n (varint (length b) ++ (b ++ s)) (length b) (b ++ s)
        (read_varint-varint (length b) (b ++ s) fits) (omega (arith, length-append b s))
    ∙ rw (take-append b s, drop-append b s) refl

next-uint_field :
    (n v : ℕ) (s : Bytes)
    → IsField n
    → v < 2 ^ 64
    → next (uint_field n v ++ s) ≡ some (varint_of n v, s)
unfolding uint_field
next-uint_field n v s h fits =
    ap next (append_assoc (tag n 0) (varint v) s)
    ∙ next_tagged n 0 (varint v ++ s) h (omega arith)
    ∙ payload_of_uint n (varint v ++ s) v s (read_varint-varint v s fits)

read_groups-shrinks :
    (shift out : ℕ) (s : Bytes) (v : ℕ) (r : Bytes)
    → read_groups shift out s ≡ some (v, r)
    → length r < length s
unfolding read_groups
read_groups-shrinks shift out [] v r h = absurd (ground arith)
read_groups-shrinks shift out (b ∷ s) v r h =
    ground (arith, read_groups-shrinks (shift + 7) (out + b % 128 * 2 ^ shift % 2 ^ 64) s v r)

read_payload-shrinks :
    (field wire : ℕ) (s : Bytes) (f : Field) (r : Bytes)
    → read_payload field wire s ≡ some (f, r)
    → length r ≤ length s
unfolding read_payload read_varint
read_payload-shrinks field wire s f r h = elim (Option-cases (read_groups 0 0 s)) [
  | inl e ↦ ground (arith, length-drop 8 s, length-drop 4 s)
  | inr ((v, t), e) ↦
      ground
        (arith, length-drop 8 s, length-drop 4 s, length-drop v t, read_groups-shrinks 0 0 s v t e)
]

pub next-shrinks : (s : Bytes) (f : Field) (r : Bytes) → next s ≡ some (f, r) → length r < length s
unfolding next read_varint
next-shrinks s f r h = elim (Option-cases (read_groups 0 0 s)) [
  | inl e ↦ absurd (ground arith)
  | inr ((k, t), e) ↦
      ground (
        arith,
        read_groups-shrinks 0 0 s k t e,
        read_payload-shrinks (k / 8 % 2 ^ 32) (k % 8) t f r,
      )
]

no_bytes : (rounds : ℕ) → fields_within rounds [] ≡ []
unfolding fields_within next read_varint read_groups
no_bytes zero = refl
no_bytes (suc rounds) = refl

step_end : (rounds : ℕ) (s : Bytes) → next s ≡ none → fields_within (suc rounds) s ≡ []
unfolding fields_within
step_end rounds s h = cc

step_next :
    (rounds : ℕ) (s : Bytes) (f : Field) (r : Bytes)
    → next s ≡ some (f, r)
    → fields_within (suc rounds) s ≡ f ∷ fields_within rounds r
unfolding fields_within
step_next rounds s f r h = cc

-- Rounds beyond the number of bytes change nothing.
pub fields_within-enough :
    (rounds : ℕ) (s : Bytes) → length s ≤ rounds → fields_within rounds s ≡ fields s
unfolding fields
fields_within-enough rounds s h = go rounds (length s) s h (omega arith)
  where
    go : (n m : ℕ) (s : Bytes) → length s ≤ n → length s ≤ m → fields_within n s ≡ fields_within m s
    go n m [] p q = no_bytes n ∙ sym (no_bytes m)
    go zero m (b ∷ s) p q = absurd (omega arith)
    go (suc n) zero (b ∷ s) p q = absurd (omega arith)
    go (suc n) (suc m) (b ∷ s) p q = elim (Option-cases (next (b ∷ s))) [
      | inl e ↦ step_end n (b ∷ s) e ∙ sym (step_end m (b ∷ s) e)
      | inr ((f, r), e) ↦
          step_next n (b ∷ s) f r e
          ∙ ap (◌∷◌ f) (
              go n m r (omega (arith, next-shrinks (b ∷ s) f r e))
                (omega (arith, next-shrinks (b ∷ s) f r e)))
          ∙ sym (step_next m (b ∷ s) f r e)
    ]

-- A message by the fields that the writer is given.
pub data Item : Type 0 where
  uint : ℕ → ℕ → Item
  bytes : ℕ → Bytes → Item

unfoldable pub write : List Item → Bytes
write [] = []
write (uint n v ∷ is) = uint_field n v ++ write is
write (bytes n b ∷ is) = bytes_field n b ++ write is

abbrev pub read_as : List Item → List Field
read_as [] = []
read_as (uint n v ∷ is) = varint_of n v ∷ read_as is
read_as (bytes n b ∷ is) = len_of n b ∷ read_as is

abbrev pub Fits : Item → Type 0
Fits (uint n v) = IsField n × (v < 2 ^ 64)
Fits (bytes n b) = IsField n × (length b < 2 ^ 64)

-- One field that `next` reads is the first that the iterator yields.
pub fields-next :
    (s : Bytes) (f : Field) (r : Bytes) → next s ≡ some (f, r) → fields s ≡ f ∷ fields r
fields-next s f r h =
    sym (fields_within-enough (suc (length s)) s (omega arith))
    ∙ step_next (length s) s f r h
    ∙ ap (◌∷◌ f) (fields_within-enough (length s) r (omega (arith, next-shrinks s f r h)))

-- The reader yields exactly the fields that the writer wrote, in order, if each field number is
-- below 2^29, each number below 2^64 and each byte string shorter than 2^64 bytes.
pub fields-write : (is : List Item) → All Fits is → fields (write is) ≡ read_as is
unfolding write fields
fields-write [] h = no_bytes 0
fields-write (uint n v ∷ is) h =
    fields-next (uint_field n v ++ write is) (varint_of n v) (write is)
      (next-uint_field n v (write is) h.0.0 h.0.1)
    ∙ ap (◌∷◌ (varint_of n v)) (fields-write is h.1)
fields-write (bytes n b ∷ is) h =
    fields-next (bytes_field n b ++ write is) (len_of n b) (write is)
      (next-bytes_field n b (write is) h.0.0 h.0.1)
    ∙ ap (◌∷◌ (len_of n b)) (fields-write is h.1)
