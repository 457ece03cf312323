-- ===== src/Worker/Store/Routed.antt =====
-- A nonce is taken where it was issued.
use mathlib.Core.Path.{subst, subst₂}
use nft_gate.Base.{
  ℕ, suc, List, ◌≤◌, ◌≡◌, refl, sym, ap, ◌∙◌, inl, inr, Bool, Option, none, some, [], ◌∷◌, ltb,
  arith, Option-cases,
}
use nft_gate.Text.{Text, codes, text_eq, text_eq_refl}
use nft_gate.Assoc.{lookup, remove}
use nft_gate.Assoc.Laws.{lookup-insert, lookup-remove}
use nft_gate.Ports.{Result}
use nft_gate.Worker.Region.{
  region_of, issued_nonce, shard_of_nonce, instance_name, shard_of_nonce-issued_nonce,
}
use nft_gate.Worker.Numbers.{to_string, i64_max, parse_i64-to_string}
use nft_gate.Worker.Durable.Limits.{Nonces, issue, take_if_valid}
use nft_gate.Worker.Durable.{Sql}
use nft_gate.Worker.Dispatch.{Tables, expires_at, ok_is, Chance, Query, get, int_of, dispatch}
use nft_gate.Worker.Store.{
  DoState, Objects, Turn, World, hex, objects_of, put, call, issue_nonce, take_nonce,
}

pub int_of-to_string :
    (q : Query) (k : Text) (d n : ℕ)
    → lookup k q ≡ some (to_string n)
    → n ≤ i64_max
    → int_of q k d ≡ n
unfolding int_of
int_of-to_string q k d n e h = rw (int_of, e, parse_i64-to_string n h) refl

dispatch-issue :
    (sql : Sql) (nonce : Text) (ttl max : ℕ) (chance : Chance) (t : Tables)
    → ttl ≤ i64_max
    → max ≤ i64_max
    → let done = issue nonce chance.now ttl max t.nonces in
      dispatch sql
        (codes "issue")
        ((codes "nonce", nonce) ∷ (codes "ttl", to_string ttl) ∷ (codes "max", to_string max) ∷ [])
        chance
        t
      ≡ (some (expires_at done.0), record t { nonces = done.1 })
unfolding dispatch get lookup text_eq
dispatch-issue sql nonce ttl max chance t h h' =
    let q : Query =
      (codes "nonce", nonce) ∷ (codes "ttl", to_string ttl) ∷ (codes "max", to_string max) ∷ [] in
    rw
      (
        dispatch,
        int_of-to_string q (codes "ttl") 300 ttl refl h,
        int_of-to_string q (codes "max") 1_000_000 max refl h',
      )
      refl

dispatch-take :
    (sql : Sql) (nonce : Text) (chance : Chance) (t : Tables)
    → let done = take_if_valid nonce chance.now t.nonces in
      dispatch sql (codes "take") ((codes "nonce", nonce) ∷ []) chance t
      ≡ (some (ok_is done.0), record t { nonces = done.1 })
unfolding dispatch get lookup text_eq
dispatch-take sql nonce chance t = refl

lookup-issue :
    (nonce : Text) (now ttl max : ℕ) (t : List (Text × ℕ))
    → lookup nonce (issue nonce now ttl max t).1 ≡ some (issue nonce now ttl max t).0
unfolding issue
lookup-issue nonce now ttl max t = rw (lookup-insert, text_eq_refl nonce) refl

lookup-remove_same : (k : Text) (m : Nonces) → lookup k (remove k m) ≡ none
lookup-remove_same k m = lookup-remove k k m ∙ rw (text_eq_refl k) refl

pub put-same : (name : Text) (t : Tables) (o : Objects) → put name t o name ≡ t
put-same name t o = rw (text_eq_refl name) refl

module _ (sql : Sql) (turn : ℕ → Turn) (state state' : DoState) where
  abbrev pub nonces_of : World → Text → List (Text × ℕ)
  nonces_of w shard = (w.objects (instance_name shard)).nonces

  -- The world after a call that left the shard with such nonces
  abbrev after_nonces : DoState → World → Text → Nonces → World
  after_nonces st w shard nonces = record {
    objects =
        put (instance_name shard)
          (record (objects_of sql turn st w (instance_name shard)) { nonces = nonces })
          (objects_of sql turn st w);
    calls = suc w.calls;
  }

  nonces_of-after :
      (st : DoState) (w : World) (shard : Text) (nonces : Nonces)
      → nonces_of (after_nonces st w shard nonces) shard ≡ nonces
  nonces_of-after st w shard nonces =
      ap (λ t. t.nonces)
        (put-same (instance_name shard)
          (record (objects_of sql turn st w (instance_name shard)) { nonces = nonces })
          (objects_of sql turn st w))

  abbrev made : World → List ℕ → ℕ × Nonces
  made w bytes =
      issue (issued_nonce state.region (hex bytes)) (turn w.calls).chance.now
        state.challenge_ttl_secs state.max_entries
        (objects_of sql turn state w (instance_name state.region)).nonces

  issue_nonce-made :
      (w : World) (bytes : List ℕ)
      → state.challenge_ttl_secs ≤ i64_max
      → state.max_entries ≤ i64_max
      → (turn w.calls).random ≡ some bytes
      → (turn w.calls).failure ≡ none
      → issue_nonce sql turn state w ≡ (
        Result.ok (issued_nonce state.region (hex bytes), (made w bytes).0),
        after_nonces state w state.region (made w bytes).1,
      )
  unfolding issue_nonce call
  issue_nonce-made w bytes h h' got fine =
      let done =
        dispatch-issue sql (issued_nonce state.region (hex bytes)) state.challenge_ttl_secs
          state.max_entries (turn w.calls).chance
          (objects_of sql turn state w (instance_name state.region)) h h' in
      rw (issue_nonce, call, got, fine, done) refl

  -- What a nonce that was issued is, and its row.
  issue_nonce-eq-ok :
      (w w' : World) {nonce : Text} {expiry : ℕ}
      → state.challenge_ttl_secs ≤ i64_max
      → state.max_entries ≤ i64_max
      → issue_nonce sql turn state w ≡ (Result.ok (nonce, expiry), w')
      → ((bytes : List ℕ) × (nonce ≡ issued_nonce state.region (hex bytes)))
        × (lookup nonce (nonces_of w' state.region) ≡ some expiry)
  unfolding issue_nonce call
  issue_nonce-eq-ok w w' {nonce} {expiry} h h' e = elim (Option-cases (turn w.calls).random) [
    | inl dry ↦ absurd (ground (arith, dry))
    | inr (bytes, got) ↦ elim (Option-cases (turn w.calls).failure) [
      | inr (f, bad) ↦ absurd (ground (arith, got, bad))
      | inl fine ↦
          let same = sym (issue_nonce-made w bytes h h' got fine) ∙ e in
          let n = issued_nonce state.region (hex bytes) in
          let row =
            lookup-issue n (turn w.calls).chance.now state.challenge_ttl_secs state.max_entries
              (objects_of sql turn state w (instance_name state.region)).nonces in
          let world : _ ≡ w' = ap (λ p. p.1) same in
          let n_same : n ≡ nonce = ground (arith, ap (λ p. p.0) same) in
          let e_same : (made w bytes).0 ≡ expiry = ground (arith, ap (λ p. p.0) same) in
          let at_n : lookup n
                (nonces_of (after_nonces state w state.region (made w bytes).1) state.region)
              ≡ some (made w bytes).0 =
            ap (lookup n) (nonces_of-after state w state.region (made w bytes).1) ∙ row in
          (
            (bytes, sym n_same),
            subst₂ (λ a b. lookup a (nonces_of w' state.region) ≡ some b) n_same e_same
                (subst (λ u. lookup n (nonces_of u state.region) ≡ some (made w bytes).0) world
                  at_n),
          )
    ]
  ]

  take_nonce-made :
      (nonce shard : Text) (v : World)
      → shard_of_nonce nonce ≡ some shard
      → (turn v.calls).failure ≡ none
      → let done =
          take_if_valid nonce
            (turn v.calls).chance.now
            (objects_of sql turn state' v (instance_name shard)).nonces in
        take_nonce sql turn state' nonce v ≡ (Result.ok done.0, after_nonces state' v shard done.1)
  unfolding take_nonce call
  take_nonce-made nonce shard v e fine =
      rw
        (
          take_nonce,
          call,
          e,
          fine,
          dispatch-take sql nonce (turn v.calls).chance
              (objects_of sql turn state' v (instance_name shard)),
        )
        refl

  take_if_valid-row :
      (nonce : Text) (now expiry : ℕ) (t : Nonces)
      → lookup nonce t ≡ some expiry
      → take_if_valid nonce now t ≡ (ltb now expiry, remove nonce t)
  unfolding take_if_valid
  take_if_valid-row nonce now expiry t e = rw (take_if_valid, e) refl

  -- A nonce that one request was given is taken by a request from anywhere, where the call does
  -- not fail and the shard of the first request still has its row: it is accepted exactly before
  -- the expiry that was given, and its row is gone after, where the region of the first request
  -- is one that region_of gives and its numbers are within i64.
  pub take_nonce-issue_nonce :
      (global : Bool) (continent : Option Text) (w w' v : World) (nonce : Text) (expiry : ℕ)
      → state.region ≡ region_of global continent
      → state.challenge_ttl_secs ≤ i64_max
      → state.max_entries ≤ i64_max
      → issue_nonce sql turn state w ≡ (Result.ok (nonce, expiry), w')
      → lookup nonce (objects_of sql turn state' v (instance_name state.region)).nonces
        ≡ lookup nonce (nonces_of w' state.region)
      → (turn v.calls).failure ≡ none
      → let after = take_nonce sql turn state' nonce v in
        (after.0 ≡ Result.ok (ltb (turn v.calls).chance.now expiry))
        × (lookup nonce (nonces_of after.1 state.region) ≡ none)
  take_nonce-issue_nonce global continent w w' v nonce expiry here h h' issued kept fine =
      let ((bytes, named), row) = issue_nonce-eq-ok w w' h h' issued in
      let routed : shard_of_nonce nonce ≡ some state.region =
        rw (named, here) (shard_of_nonce-issued_nonce global continent (hex bytes)) in
      let now = (turn v.calls).chance.now in
      let rows = (objects_of sql turn state' v (instance_name state.region)).nonces in
      let made = take_nonce-made nonce state.region v routed fine in
      let taken = take_if_valid-row nonce now expiry rows (kept ∙ row) in
      (
        ap (λ p. p.0) made ∙ ap (λ d. Result.ok d.0) taken,
        ap (λ p. lookup nonce (nonces_of p.1 state.region)) made
            ∙ ap (lookup nonce)
                (nonces_of-after state' v state.region (take_if_valid nonce now rows).1)
            ∙ ap (λ d. lookup nonce d.1) taken
            ∙ lookup-remove_same nonce rows,
      )
