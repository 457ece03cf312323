-- ===== src/Worker/Durable/Owned.antt =====
-- The statements of worker/src/do_state.rs on the lease of an owner, and commit and release against
-- those of core/src/redemption.rs.
use mathlib.Core.Path.{subst}
use nft_gate.Base.{
  ℕ, ◌+◌, ◌*◌, ◌^◌, ◌<◌, ◌≡◌, refl, sym, ap, ◌∙◌, inl, inr, Bool, true, false, not, ◌&&◌, Option,
  none, some, [], ◌∷◌, ltb, leb, if◌then◌else◌, arith, Bool-cases, Option-cases,
}
use nft_gate.Base.Words.{after_secs}
use nft_gate.Text.{Text, text_eq, text_eq_iff, is_nil}
use nft_gate.Assoc.{lookup, insert, remove, IsMap}
use nft_gate.Redemption.Leases
use nft_gate.Redemption.Leases.{
  Row, RedemptionTable, Lease, Commit, try_lease, lease_live, evict_lease, grant,
}
use nft_gate.Worker.Durable.{
  expires, RowState, leased, committed, is_leased, RedRow, Redemptions, owned_by, is_own_lease,
  live_leases, set_committed, commit, release,
}
use nft_gate.Worker.Durable.Rows.{
  token_text, rows_of, lookup-rows_of, insert-rows_of, remove-rows_of, expires_lem,
}

-- A row with another key is in no statement on `key`.
other_key :
    (key token : Text) (e : Text × RedRow)
    → text_eq e.0 key ≡ false
    → is_own_lease key token e ≡ false
other_key key token e h = rw (h) refl

absent-live_leases :
    (key token : Text) (now : ℕ) (t : Redemptions)
    → lookup key t ≡ none
    → live_leases key token now t ≡ 0
unfolding lookup live_leases
absent-live_leases key token now [] h = refl
absent-live_leases key token now (e ∷ t) h = elim (Bool-cases (text_eq e.0 key)) [
  | inl k ↦ absurd (ground arith)
  | inr k ↦ ground (arith, absent-live_leases key token now t)
]

absent-set_committed :
    (key token : Text) (x : ℕ) (t : Redemptions)
    → lookup key t ≡ none
    → set_committed key token x t ≡ t
unfolding lookup set_committed
absent-set_committed key token x [] h = refl
absent-set_committed key token x (e ∷ t) h = elim (Bool-cases (text_eq e.0 key)) [
  | inl k ↦ absurd (ground arith)
  | inr k ↦ ground (arith, absent-set_committed key token x t)
]

absent-remove : (key : Text) (t : Redemptions) → lookup key t ≡ none → remove key t ≡ t
unfolding lookup remove
absent-remove key [] h = refl
absent-remove key (e ∷ t) h = elim (Bool-cases (text_eq e.0 key)) [
  | inl k ↦ absurd (ground arith)
  | inr k ↦ ground (arith, absent-remove key t)
]

absent-release :
    (key token : Text) (t : Redemptions) → lookup key t ≡ none → release key token t ≡ t
unfolding lookup release
absent-release key token [] h = refl
absent-release key token (e ∷ t) h = elim (Bool-cases (text_eq e.0 key)) [
  | inl k ↦ absurd (ground arith)
  | inr k ↦ ground (arith, absent-release key token t)
]

-- The row of a key: whether the token owns its lease
abbrev owns : Text → RedRow → Bool
owns token r = is_leased r.state && owned_by token r.token

abbrev of_row {ℓ} : {A : Type ℓ} → Option RedRow → A → (RedRow → A) → A
of_row none a f = a
of_row (some r) a f = f r

-- In a map the rest of the table has no other row of the key.
rest_lem :
    (key : Text) (e : Text × RedRow) (t : Redemptions)
    → IsMap (e ∷ t)
    → text_eq e.0 key ≡ true
    → (e.0 ≡ key) × (lookup key t ≡ none)
rest_lem key e t d k =
    let q = (text_eq_iff e.0 key).0 k in (q, subst (λ x. lookup x t ≡ none) q d.0)

live_leases_lem :
    (key token : Text) (now : ℕ) (t : Redemptions)
    → IsMap t
    → leb (live_leases key token now t) 0
      ≡ of_row (lookup key t) true (λ r. not (owns token r && ltb now r.expiry))
unfolding lookup live_leases
live_leases_lem key token now [] d = refl
live_leases_lem key token now (e ∷ t) d = elim (Bool-cases (text_eq e.0 key)) [
  | inl k ↦ ground (arith, absent-live_leases key token now t (rest_lem key e t d k).1)
  | inr k ↦ rw (k) (live_leases_lem key token now t d.1)
]

set_committed_lem :
    (key token : Text) (x : ℕ) (t : Redemptions)
    → IsMap t
    → set_committed key token x t
      ≡ of_row (lookup key t) t (λ r.
        if owns token r
        then insert key (record { state = committed; expiry = x; token = none }) t
        else t)
unfolding lookup insert set_committed
set_committed_lem key token x [] d = refl
set_committed_lem key token x (e ∷ t) d = elim (Bool-cases (text_eq e.0 key)) [
  | inl k ↦
      let (q, a) = rest_lem key e t d k in
      elim (Bool-cases (owns token e.1)) [
        | inl o ↦ rw (is_own_lease, k, o, absent-set_committed key token x t a, q) refl
        | inr o ↦ rw (is_own_lease, k, o, absent-set_committed key token x t a) refl
      ]
  | inr k ↦ elim (Option-cases (lookup key t)) [
    | inl o ↦ rw (is_own_lease, k, set_committed_lem key token x t d.1, o) refl
    | inr (r, o) ↦ elim (Bool-cases (owns token r)) [
      | inl w ↦ rw (is_own_lease, k, set_committed_lem key token x t d.1, o, w) refl
      | inr w ↦ rw (is_own_lease, k, set_committed_lem key token x t d.1, o, w) refl
    ]
  ]
]

release_lem :
    (key token : Text) (t : Redemptions)
    → IsMap t
    → release key token t ≡ of_row (lookup key t) t (λ r. if owns token r then remove key t else t)
unfolding lookup remove release
release_lem key token [] d = refl
release_lem key token (e ∷ t) d = elim (Bool-cases (text_eq e.0 key)) [
  | inl k ↦
      let a = (rest_lem key e t d k).1 in
      elim (Bool-cases (owns token e.1)) [
        | inl o ↦
            rw (is_own_lease, k, o) (absent-release key token t a ∙ sym (absent-remove key t a))
        | inr o ↦ rw (is_own_lease, k, o, absent-release key token t a) refl
      ]
  | inr k ↦ elim (Option-cases (lookup key t)) [
    | inl o ↦ rw (is_own_lease, k, release_lem key token t d.1, o) refl
    | inr (r, o) ↦ elim (Bool-cases (owns token r)) [
      | inl w ↦ rw (is_own_lease, k, release_lem key token t d.1, o, w) refl
      | inr w ↦ rw (is_own_lease, k, release_lem key token t d.1, o, w) refl
    ]
  ]
]

-- The core's tests of an owner, for a token that is not empty
same_owner :
    (token : Text) (s : RowState) (o : Option Text)
    → is_nil token ≡ false
    → (not (not (is_leased s)) && text_eq (token_text o) token) ≡ (is_leased s && owned_by token o)
unfolding text_eq
same_owner [] s o n = absurd (cc)
same_owner (c ∷ token) committed o n = refl
same_owner (c ∷ token) leased none n = refl
same_owner (c ∷ token) leased (some owner) n = refl

same_live :
    (token : Text) (s : RowState) (o : Option Text) (b : Bool)
    → is_nil token ≡ false
    → (not (not (is_leased s)) && (text_eq (token_text o) token && b))
      ≡ ((is_leased s && owned_by token o) && b)
unfolding text_eq
same_live [] s o b n = absurd (cc)
same_live (c ∷ token) committed o b n = refl
same_live (c ∷ token) leased none b n = refl
same_live (c ∷ token) leased (some owner) b n = refl

pub release-release :
    (key token : Text) (t : Redemptions)
    → IsMap t
    → is_nil token ≡ false
    → rows_of (release key token t) ≡ Leases.release key token (rows_of t)
unfolding Leases.release
release-release key token t d n = elim (Option-cases (lookup key t)) [
  | inl k ↦ rw (release_lem key token t d, Leases.release, lookup-rows_of key t, k) refl
  | inr (r, k) ↦ elim (Bool-cases (owns token r)) [
    | inl o ↦
        rw
          (
            release_lem key token t d,
            Leases.release,
            lookup-rows_of key t,
            k,
            same_owner token r.state r.token n,
            o,
          )
          (remove-rows_of key t)
    | inr o ↦
        rw
          (
            release_lem key token t d,
            Leases.release,
            lookup-rows_of key t,
            k,
            same_owner token r.state r.token n,
            o,
          )
          refl
  ]
]

abbrev pub seen_commit : Bool × Redemptions → Commit × RedemptionTable
seen_commit r = ((if r.0 then Commit.ok else Commit.lost), rows_of r.1)

both : (a b : Bool) → (a && b) ≡ true → a ≡ true
both true b h = refl
both false b h = absurd (cc)

set_committed-rows_of :
    (key token : Text) (now retention : ℕ) (t : Redemptions) (r : RedRow)
    → IsMap t
    → now + retention * 1000 < 2 ^ 63
    → lookup key t ≡ some r
    → owns token r ≡ true
    → rows_of (set_committed key token (expires now retention) t)
      ≡ insert key
          (record { committed = true; expiry_ms = after_secs now retention; token = [] })
          (rows_of t)
set_committed-rows_of key token now retention t r d h k o =
    ap rows_of (set_committed_lem key token (expires now retention) t d)
    ∙ rw (k, o)
        (insert-rows_of key
          (record { state = committed; expiry = expires now retention; token = none }) t)
    ∙ ap (λ x. insert key (record { committed = true; expiry_ms = x; token = [] }) (rows_of t))
        (expires_lem now retention h)

pub commit-commit :
    (key token : Text) (now retention : ℕ) (t : Redemptions)
    → IsMap t
    → is_nil token ≡ false
    → now + retention * 1000 < 2 ^ 63
    → seen_commit (commit key token now retention t)
      ≡ Leases.commit key token now retention (rows_of t)
unfolding commit Leases.commit
commit-commit key token now retention t d n h = elim (Option-cases (lookup key t)) [
  | inl k ↦
      rw (commit, Leases.commit, live_leases_lem key token now t d, lookup-rows_of key t, k) refl
  | inr (r, k) ↦ elim (Bool-cases (owns token r && ltb now r.expiry)) [
    | inl o ↦
        rw
          (
            commit,
            Leases.commit,
            live_leases_lem key token now t d,
            lookup-rows_of key t,
            k,
            same_live token r.state r.token (ltb now r.expiry) n,
            o,
          )
          (ap (λ m. (Commit.ok, m))
            (set_committed-rows_of key token now retention t r d h k (both _ _ o)))
    | inr o ↦
        rw
          (
            commit,
            Leases.commit,
            live_leases_lem key token now t d,
            lookup-rows_of key t,
            k,
            same_live token r.state r.token (ltb now r.expiry) n,
            o,
          )
          refl
  ]
]
