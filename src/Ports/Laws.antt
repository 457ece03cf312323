-- ===== src/Ports/Laws.antt =====
-- Inversion of a run that passes: what each kind of step must have answered.
use nft_gate.Base.{◌≡◌, ◌⊎◌, inl, inr, refl, Bool, true, false, Option, none, some, arith}
use nft_gate.Ports.{Result, Exit, stop, pass, Run, bind, ◌>>=◌, call_or, some_or, check_that}

module _ {W E A : Type 0} where
  pub >>=-eq-pass :
      {B : Type 0} (m : Run W E A) (f : A → Run W E B) (w : W) {b : B} {w' : W}
      → (m >>= f) w ≡ (pass b, w')
      → (a : A) × (w₁ : W) × (m w ≡ (pass a, w₁)) × (f a w₁ ≡ (pass b, w'))
  >>=-eq-pass {B} m f w {b} {w'} h = go (m w) refl h
    where
      go :
          (r : Exit E A × W)
          → m w ≡ r
          → bind r.0 f r.1 ≡ (pass b, w')
          → (a : A) × (w₁ : W) × (m w ≡ (pass a, w₁)) × (f a w₁ ≡ (pass b, w'))
      go (stop e, w₁) x y = cc
      go (pass a, w₁) x y = (a, w₁, x, y)

  pub call_or-eq-pass :
      (call : W → Result A × W) (e : E) (w : W) {a : A} {w' : W}
      → call_or call e w ≡ (pass a, w')
      → call w ≡ (Result.ok a, w')
  call_or-eq-pass call e w {a} {w'} h = go (call w) refl h
    where
      go :
          (r : Result A × W)
          → call w ≡ r
          → call_or call e w ≡ (pass a, w')
          → call w ≡ (Result.ok a, w')
      go (Result.ok b, w₁) x y = ground (arith, x, y)
      go (Result.err m, w₁) x y = ground (arith, x, y)

  pub some_or-eq-pass :
      (o : Option A) (e : E) (w : W) {a : A} {w' : W}
      → some_or o e w ≡ (pass a, w')
      → (o ≡ some a) × (w ≡ w')
  some_or-eq-pass none e w h = cc
  some_or-eq-pass (some b) e w h = ground arith

-- What a call ends with, and the world after it.
pub Run-cases :
    {W E A : Type 0} (r : Exit E A × W)
    → ((e : E) × (w : W) × (r ≡ (stop e, w))) ⊎ ((a : A) × (w : W) × (r ≡ (pass a, w)))
Run-cases (stop e, w) = inl (e, w, refl)
Run-cases (pass a, w) = inr (a, w, refl)

pub passed_with :
    {E S : Type 0} {b c : Bool} {s s' : S}
    → ◌≡◌ {A = Exit E Bool × S} (pass b, s) (pass c, s')
    → b ≡ c
passed_with h = cc

module _ {W E : Type 0} where
  pub check_that-eq-pass :
      (b : Bool) (e : E) (w : W) {w' : W} → check_that b e w ≡ (pass tt, w') → (b ≡ true) × (w ≡ w')
  check_that-eq-pass true e w h = ground arith
  check_that-eq-pass false e w h = cc
