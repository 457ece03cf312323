-- ===== src/Ports.antt =====
-- The traits through which the core reaches the platform (`StateStore` of core/src/state.rs,
-- `ChainQuery` of core/src/decision.rs, `Upstream` of core/src/gateway.rs), over a world `W` that
-- stands for everything outside the request, other requests included: between two calls it may
-- change in any way, since the next call's answer is any function of it.
pub mod Laws
use nft_gate.Base.{ℕ, Bool, Option}
use nft_gate.Text.{Text}
use nft_gate.State.{RateScope}
use nft_gate.Redemption.Leases.{Lease, Commit}

-- `anyhow::Result`: an error is its message.
pub data Result {ℓ} (A : Type ℓ) : Type ℓ where
  ok : A → Result A
  err : Text → Result A

pub data ForwardKind : Type 0 where
  public gated : ForwardKind

pub record Ports (W Resp : Type 0) : Type 0 where
  pub issue_nonce : W → Result (Text × ℕ) × W
  pub take_nonce : Text → W → Result Bool × W
  pub rate_check : RateScope → Text → W → Result Bool × W
  pub try_lease_redemption : Text → ℕ → W → Result Lease × W
  pub commit_redemption : Text → Text → ℕ → W → Result Commit × W
  pub release_redemption : Text → Text → W → W
  pub owns_nft : Text → Text → Option Text → W → Result Bool × W
  pub consume_tx_valid : Text → Text → Text → Option Text → ℕ → W → Result Bool × W
  pub gate_access_blocked : Text → W → Result Bool × W
  pub forward : ForwardKind → W → Resp × W
  pub status : Resp → ℕ

-- What a computation that may stop early ends with: `?` and `return` of the source.
pub data Exit {ℓ} (E A : Type ℓ) : Type ℓ where
  stop : E → Exit E A
  pass : A → Exit E A

-- A computation over the world that may stop early.
abbrev pub Run : Type 0 → Type 0 → Type 0 → Type 0
Run W E A = W → Exit E A × W

-- `map_err(|_| e)?`
abbrev map_err_to : {E A : Type 0} → E → Result A → Exit E A
map_err_to e (Result.ok a) = pass a
map_err_to e (Result.err m) = stop e

module _ {W : Type 0} where
  abbrev pub pure : {E A : Type 0} → A → Run W E A
  pure a w = (pass a, w)

  abbrev pub throw : {E A : Type 0} → E → Run W E A
  throw e w = (stop e, w)

  abbrev pub bind : {E A B : Type 0} → Exit E A → (A → Run W E B) → Run W E B
  bind (stop e) f w = (stop e, w)
  bind (pass a) f w = f a w

  infixl 5 ◌>>=◌ ◌>>◌
  abbrev pub ◌>>=◌ : {E A B : Type 0} → Run W E A → (A → Run W E B) → Run W E B
  ◌>>=◌ m f w = bind (m w).0 f (m w).1

  abbrev pub ◌>>◌ : {E B : Type 0} → Run W E (Unit {0}) → Run W E B → Run W E B
  m >> k = m >>= λ _. k

  -- `call.await.map_err(|_| e)?`
  abbrev pub call_or : {E A : Type 0} → (W → Result A × W) → E → Run W E A
  call_or call e w = (map_err_to e (call w).0, (call w).1)

  abbrev pub some_or : {E A : Type 0} → Option A → E → Run W E A
  some_or (Option.some a) e = pure a
  some_or Option.none e = throw e

  abbrev pub check_that : {E : Type 0} → Bool → E → Run W E (Unit {0})
  check_that Bool.true e = pure tt
  check_that Bool.false e = throw e
