-- ===== src/Chain/Responses/Fields.antt =====
-- The loops over the fields of a message in core/src/chain.rs: what makes one of them return.
use nft_gate.Base.{
  ℕ, ◌≡◌, refl, ◌↔◌, Bool, true, false, not, List, if◌then◌else◌, any, arith, Any, any-true,
  true-any, Any-map,
}
use nft_gate.Grpc.Wire.{Bytes, Field, varint_of, len_of, fixed64, fixed32}
use nft_gate.Chain.Responses.{in_field}

-- A guard of the loop that did not `continue`
pub passed : (a : Bool) {b : Bool} → (if not a then false else b) ≡ true → (a ≡ true) × (b ≡ true)
passed true h = (refl, h)
passed false h = absurd (cc)

-- A field with the number `n` whose bytes are as `P` says.
abbrev pub InField : ℕ → (Bytes → Type 0) → Field → Type 0
InField n P (len_of k b) = (k ≡ n) × P b
InField n P other = ⊥

in_field-InField :
    (n : ℕ) (p : Bytes → Bool) (P : Bytes → Type 0)
    → ((b : Bytes) → p b ≡ true → P b)
    → (f : Field) → in_field n p f ≡ true
    → InField n P f
in_field-InField n p P q (len_of k b) h = (ground arith, q b (ground arith))
in_field-InField n p P q (varint_of k b) h = absurd (cc)
in_field-InField n p P q fixed64 h = absurd (cc)
in_field-InField n p P q fixed32 h = absurd (cc)

InField-in_field :
    (n : ℕ) (p : Bytes → Bool) (P : Bytes → Type 0)
    → ((b : Bytes) → P b → p b ≡ true)
    → (f : Field) → InField n P f
    → in_field n p f ≡ true
InField-in_field n p P q (len_of k b) (e, h) = ground (arith, q b h)
InField-in_field n p P q (varint_of k b) h = absurd h
InField-in_field n p P q fixed64 h = absurd h
InField-in_field n p P q fixed32 h = absurd h

pub any_field-lem :
    (n : ℕ) (p : Bytes → Bool) (P : Bytes → Type 0)
    → ((b : Bytes) → (p b ≡ true) ↔ P b)
    → (fs : List Field) → (any (in_field n p) fs ≡ true) ↔ Any (InField n P) fs
any_field-lem n p P q fs = (
  (λ h. Any-map fs (in_field-InField n p P (λ b. (q b).0)) (any-true _ fs h)),
  λ h. true-any _ fs (Any-map fs (InField-in_field n p P (λ b. (q b).1)) h),
)
