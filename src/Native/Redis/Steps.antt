-- ===== src/Native/Redis/Steps.antt =====
-- What the commands of other processes leave alone: a value of a redemption key that no commit and no
-- release presents.
use nft_gate.Base.{
  ℕ, ◌≤◌, ◌<◌, ◌≡◌, refl, ◌⊎◌, inl, inr, false, some, List, [], All, ◌∷◌, arith, Bool-cases,
}
use nft_gate.Base.Words.{saturating_mul}
use nft_gate.Text.{Text, codes, text_eq, text_eq_iff}
use nft_gate.Native.Redis.{
  Redis, IsTtl, IsRedis, nonce_key, redeem_key, lease_value, committed_value, commit_script,
  release_script, set_lease, commit_lease, release_lease, set_nonce, get_del_nonce, Command, leases,
  commits, releases, inserts, takes, step, run,
}

-- The times to live of a command, where it has one, are such as the server takes.
abbrev pub IsSendable : ℕ → Command → Type 0
IsSendable now (leases key token ttl) = IsTtl (saturating_mul ttl 1000) now
IsSendable now (commits key token retention) = IsTtl (saturating_mul retention 1000) now
IsSendable now (releases key token) = Unit {0}
IsSendable now (inserts nonce ttl_ms) = IsTtl ttl_ms now
IsSendable now (takes nonce) = Unit {0}

-- Commands that come in the order of the server's clock, from `lo` on, before a command at `now`, all
-- before `hi`.
abbrev pub InOrder : (lo hi now : ℕ) → List (ℕ × Command) → Type 0
InOrder lo hi now [] = (lo ≤ now) × (now < hi)
InOrder lo hi now (c ∷ cs) = (lo ≤ c.0) × (c.0 < hi) × IsSendable c.0 c.1 × InOrder c.0 hi now cs

nonce_key-redeem_key : (n k : Text) → text_eq (nonce_key n) (redeem_key k) ≡ false
unfolding nonce_key redeem_key text_eq
nonce_key-redeem_key n k = refl

-- The command does not present the value `x` for the redemption `k`.
abbrev pub IsForeign : (k x : Text) → Command → Type 0
IsForeign k x (leases key token ttl) = Unit {0}
IsForeign k x (commits key token retention) =
    (text_eq (redeem_key key) (redeem_key k) ≡ false) ⊎ (text_eq x (lease_value token) ≡ false)
IsForeign k x (releases key token) =
    (text_eq (redeem_key key) (redeem_key k) ≡ false) ⊎ (text_eq x (lease_value token) ≡ false)
IsForeign k x (inserts nonce ttl_ms) = Unit {0}
IsForeign k x (takes nonce) = Unit {0}

module _ {D : Type 0} (r : Redis D) (laws : IsRedis r) where
  open laws use {get-set_px, get-set_nx_px, get-del, get-getdel}

  -- The key reads `v` from `lo` until `hi`.
  abbrev pub Reads : Text → Text → (lo hi : ℕ) → D → Type 0
  Reads k v lo hi d = (t : ℕ) → lo ≤ t → t < hi → r.get k t d ≡ some v

  set_nx_keeps :
      (j v : Text) (px now t : ℕ) (k x : Text) (d : D)
      → IsTtl px now
      → now ≤ t
      → r.get k now d ≡ some x
      → r.get k t d ≡ some x
      → r.get k t (r.set_nx_px j v px now d).1 ≡ some x
  set_nx_keeps j v px now t k x d ok le here later = elim (Bool-cases (text_eq j k)) [
    | inl same ↦ ground (arith, text_eq_iff j k, get-set_nx_px k j v px now t d le)
    | inr other ↦
        ground (arith, get-set_nx_px k j v px now t d le, get-set_px k j v px now t d ok le)
  ]

  commit_script_keeps :
      (j arg : Text) (px now t : ℕ) (k x : Text) (d : D)
      → IsTtl px now
      → now ≤ t
      → (text_eq j k ≡ false) ⊎ (text_eq x arg ≡ false)
      → r.get k now d ≡ some x
      → r.get k t d ≡ some x
      → r.get k t (commit_script r j arg px now d).1 ≡ some x
  unfolding commit_script
  commit_script_keeps j arg px now t k x d ok le ne here later = elim (Bool-cases (text_eq j k)) [
    | inl same ↦ ground (arith, text_eq_iff j k)
    | inr other ↦ ground (arith, get-set_px k j committed_value px now t d ok le)
  ]

  release_script_keeps :
      (j arg : Text) (now t : ℕ) (k x : Text) (d : D)
      → now ≤ t
      → (text_eq j k ≡ false) ⊎ (text_eq x arg ≡ false)
      → r.get k now d ≡ some x
      → r.get k t d ≡ some x
      → r.get k t (release_script r j arg now d).1 ≡ some x
  unfolding release_script
  release_script_keeps j arg now t k x d le ne here later = elim (Bool-cases (text_eq j k)) [
    | inl same ↦ ground (arith, text_eq_iff j k)
    | inr other ↦ ground (arith, get-del k j now t d le)
  ]

  -- A command that does not present the value leaves it.
  pub step_keeps :
      (c : ℕ × Command) (k x : Text) (t : ℕ) (d : D)
      → IsSendable c.0 c.1
      → IsForeign k x c.1
      → c.0 ≤ t
      → r.get (redeem_key k) c.0 d ≡ some x
      → r.get (redeem_key k) t d ≡ some x
      → r.get (redeem_key k) t (step r c d) ≡ some x
  unfolding step set_lease commit_lease release_lease set_nonce get_del_nonce
  step_keeps (now, leases key token ttl) k x t d ok fo le here later =
      set_nx_keeps (redeem_key key) (lease_value token) _ now t (redeem_key k) x d ok le here later
  step_keeps (now, commits key token retention) k x t d ok fo le here later =
      commit_script_keeps (redeem_key key) (lease_value token) _ now t (redeem_key k) x d ok le fo
        here later
  step_keeps (now, releases key token) k x t d ok fo le here later =
      release_script_keeps (redeem_key key) (lease_value token) now t (redeem_key k) x d le fo here
        later
  step_keeps (now, inserts nonce ttl_ms) k x t d ok fo le here later = ground (
    arith,
    get-set_px (redeem_key k) (nonce_key nonce) (codes "1") ttl_ms now t d ok le,
    nonce_key-redeem_key nonce k,
  )
  step_keeps (now, takes nonce) k x t d ok fo le here later = ground (
    arith,
    get-getdel (redeem_key k) (nonce_key nonce) now t d le,
    get-del (redeem_key k) (nonce_key nonce) now t d le,
    nonce_key-redeem_key nonce k,
  )

  pub run_keeps :
      (lo hi now : ℕ) (cs : List (ℕ × Command)) (k x : Text) (d : D)
      → InOrder lo hi now cs
      → All (λ c. IsForeign k x c.1) cs
      → Reads (redeem_key k) x lo hi d
      → Reads (redeem_key k) x now hi (run r cs d)
  unfolding run
  run_keeps lo hi now [] k x d o fo h = λ t le lt. h t (omega arith) lt
  run_keeps lo hi now (c ∷ cs) k x d (after, before, ok, rest) (f, fo) h =
      run_keeps c.0 hi now cs k x (step r c d) rest fo
        (λ t le lt. step_keeps c k x t d ok f le (h c.0 after before) (h t (omega arith) lt))

pub now-InOrder :
    (lo hi now : ℕ) (cs : List (ℕ × Command)) → InOrder lo hi now cs → (lo ≤ now) × (now < hi)
now-InOrder lo hi now [] o = o
now-InOrder lo hi now (c ∷ cs) (after, before, ok, rest) =
    omega (arith, now-InOrder c.0 hi now cs rest)
