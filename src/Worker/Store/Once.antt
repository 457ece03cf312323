-- ===== src/Worker/Store/Once.antt =====
-- A consume that was committed is not leased again.
use mathlib.Core.Path.{subst}
use nft_gate.Base.{
  ℕ, suc, ◌+◌, ◌*◌, ◌^◌, ◌≤◌, ◌<◌, ◌≡◌, refl, sym, ap, ◌∙◌, inl, inr, Bool, true, false, none, some,
  List, [], ◌∷◌, All, arith, if◌then◌else◌, Option-cases,
}
use nft_gate.Base.Words.{after_secs}
use nft_gate.Text.{Text, codes, text_eq, is_nil}
use nft_gate.Assoc.{lookup, IsMap}
use nft_gate.Ports.{Result}
use nft_gate.Redemption.Leases
use nft_gate.Redemption.Leases.{Lease, Commit, try_lease}
use nft_gate.Redemption.Leases.History
use nft_gate.Redemption.Leases.History.{Call, commits, Before, commit-IsSpent}
use nft_gate.Worker.Region.{redeem_shard, instance_name}
use nft_gate.Worker.Numbers.{to_string, i64_max}
use nft_gate.Worker.Durable.{Sql, IsSql, Redemptions, LeaseOutcome, lease, commit}
use nft_gate.Worker.Durable.Rows.{rows_of}
use nft_gate.Worker.Durable.Spent.{IsSpent, lease-redeemed}
use nft_gate.Worker.Durable.Owned.{commit-commit}
use nft_gate.Worker.Durable.Laws.{
  dispatched, IsOrdinary, dispatched-IsMap, dispatched-IsSpent, IsSpent-rows_of,
}
use nft_gate.Worker.Dispatch.{Tables, result_is, Chance, Query, get, dispatch, lease_json}
use nft_gate.Worker.Store.{
  DoState, Turn, World, objects_of, put, commit_field, call, commit_redemption,
  try_lease_redemption,
}
use nft_gate.Worker.Store.Routed.{int_of-to_string, put-same}

dispatch-commit :
    (sql : Sql) (key token : Text) (retention : ℕ) (chance : Chance) (t : Tables)
    → retention ≤ i64_max
    → let done = commit key token chance.now retention t.redemptions in
      dispatch sql
        (codes "commit")
        ((codes "key", key)
          ∷ (codes "token", token)
          ∷ (codes "retention", to_string retention)
          ∷ [])
        chance
        t
      ≡ (
        some (result_is (if done.0 then codes "ok" else codes "lost")),
        record t { redemptions = done.1 },
      )
unfolding dispatch get lookup text_eq
dispatch-commit sql key token retention chance t h =
    let q : Query =
      (codes "key", key) ∷ (codes "token", token) ∷ (codes "retention", to_string retention) ∷ [] in
    rw (dispatch, int_of-to_string q (codes "retention") 2_592_000 retention refl h) refl

dispatch-lease :
    (sql : Sql) (key : Text) (ttl max : ℕ) (chance : Chance) (t : Tables)
    → ttl ≤ i64_max
    → max ≤ i64_max
    → let done = lease sql key chance.now ttl max chance.token t.redemptions in
      dispatch sql
        (codes "lease")
        ((codes "key", key) ∷ (codes "ttl", to_string ttl) ∷ (codes "max", to_string max) ∷ [])
        chance
        t
      ≡ (some (lease_json done.0), record t { redemptions = done.1 })
unfolding dispatch get lookup text_eq
dispatch-lease sql key ttl max chance t h h' =
    let q : Query =
      (codes "key", key) ∷ (codes "ttl", to_string ttl) ∷ (codes "max", to_string max) ∷ [] in
    rw
      (
        dispatch,
        int_of-to_string q (codes "ttl") 900 ttl refl h,
        int_of-to_string q (codes "max") 1_000_000 max refl h',
      )
      refl

-- The redemptions after a history of calls
unfoldable pub durable_run : Sql → List (ℕ × Call) → Redemptions → Redemptions
durable_run sql [] t = t
durable_run sql (c ∷ cs) t = durable_run sql cs (dispatched sql c t).1

durable_run-IsSpent :
    (sql : Sql) (laws : IsSql sql) (key : Text) (e : ℕ) (cs : List (ℕ × Call)) (t : Redemptions)
    → IsMap t
    → All IsOrdinary cs
    → Before e cs
    → IsSpent key e t
    → IsMap (durable_run sql cs t) × IsSpent key e (durable_run sql cs t)
unfolding durable_run
durable_run-IsSpent sql laws key e [] t d o b s = (d, s)
durable_run-IsSpent sql laws key e (c ∷ cs) t d (o, os) (b, bs) s =
    durable_run-IsSpent sql laws key e cs (dispatched sql c t).1 (dispatched-IsMap sql laws c t d o)
      os bs (dispatched-IsSpent sql laws key e c t d o b s)

module _ (sql : Sql) (laws : IsSql sql) (turn : ℕ → Turn) (state state' : DoState) where
  -- The rows that a call on the redemptions finds
  abbrev pub rows_found : DoState → World → Redemptions
  rows_found st w = (objects_of sql turn st w (instance_name redeem_shard)).redemptions

  abbrev pub rows_left : World → Redemptions
  rows_left w = (w.objects (instance_name redeem_shard)).redemptions

  -- The commit on the rows that the call finds, and the answer and the world that it leaves
  abbrev committed_by : Text → Text → ℕ → World → Bool × Redemptions
  committed_by key token retention w =
      commit key token (turn w.calls).chance.now retention (rows_found state w)

  abbrev committed_answer : Bool → Result Commit
  committed_answer b = commit_field (Result.ok (result_is (if b then codes "ok" else codes "lost")))

  abbrev committed_tables : Text → Text → ℕ → World → Tables
  committed_tables key token retention w =
      record (objects_of sql turn state w (instance_name redeem_shard)) {
        redemptions = (committed_by key token retention w).1;
      }

  commit_redemption-made :
      (key token : Text) (retention : ℕ) (w : World)
      → retention ≤ i64_max
      → (turn w.calls).failure ≡ none
      → commit_redemption sql turn state key token retention w ≡ (
        committed_answer (committed_by key token retention w).0,
        record {
          objects =
              put
                (instance_name redeem_shard)
                (committed_tables key token retention w)
                (objects_of sql turn state w);
          calls = suc w.calls;
        },
      )
  unfolding commit_redemption call
  commit_redemption-made key token retention w h fine =
      let t = objects_of sql turn state w (instance_name redeem_shard) in
      rw
        (
          commit_redemption,
          call,
          fine,
          dispatch-commit sql key token retention (turn w.calls).chance t h,
        )
        refl

  committed_answer-ok : (b : Bool) → committed_answer b ≡ Result.ok Commit.ok → b ≡ true
  unfolding text_eq
  committed_answer-ok true h = refl
  committed_answer-ok false h = absurd (ground (arith, h))

  commit_redemption-eq-ok :
      (key token : Text) (retention : ℕ) (w w' : World)
      → retention ≤ i64_max
      → commit_redemption sql turn state key token retention w ≡ (Result.ok Commit.ok, w')
      → let done = committed_by key token retention w in (done.0 ≡ true) × (rows_left w' ≡ done.1)
  unfolding commit_redemption call
  commit_redemption-eq-ok key token retention w w' h e =
      elim (Option-cases (turn w.calls).failure) [
        | inr (f, bad) ↦ absurd (ground (arith, bad))
        | inl fine ↦
            let same = sym (commit_redemption-made key token retention w h fine) ∙ e in
            (
              committed_answer-ok (committed_by key token retention w).0 (ap (λ p. p.0) same),
              sym (ap (λ p. rows_left p.1) same)
                  ∙ ap (λ t. t.redemptions)
                      (put-same (instance_name redeem_shard)
                        (committed_tables key token retention w) (objects_of sql turn state w)),
            )
      ]

  lease_refused :
      (key : Text) (ttl : ℕ) (v : World)
      → ttl ≤ i64_max
      → state'.max_entries ≤ i64_max
      → (turn v.calls).failure ≡ none
      → (lease sql key
          (turn v.calls).chance.now
          ttl
          state'.max_entries
          (turn v.calls).chance.token
          (rows_found state' v)).0
        ≡ LeaseOutcome.redeemed
      → (try_lease_redemption sql turn state' key ttl v).0 ≡ Result.ok Lease.redeemed
  unfolding try_lease_redemption call text_eq
  lease_refused key ttl v h h' fine refused =
      rw
        (
          try_lease_redemption,
          call,
          fine,
          dispatch-lease sql key ttl state'.max_entries (turn v.calls).chance
              (objects_of sql turn state' v (instance_name redeem_shard)) h h',
          refused,
        )
        refl

  -- After a commit over the Durable Object that is answered Ok, on redemptions without double
  -- keys, and any history of leases, commits and releases by any requests that all come before
  -- its retention ends, with times within i64 and tokens that are not empty, a further lease of
  -- the digest by any request that does not fail and comes before that end too is answered
  -- Redeemed, whichever lease the SQL engine evicts where several expire first.
  pub redeem_once_durable :
      (key token : Text) (retention ttl : ℕ) (cs : List (ℕ × Call)) (w w' v : World)
      → IsMap (rows_found state w)
      → is_nil token ≡ false
      → (turn w.calls).chance.now + retention * 1000 < 2 ^ 63
      → commit_redemption sql turn state key token retention w ≡ (Result.ok Commit.ok, w')
      → rows_found state' v ≡ durable_run sql cs (rows_left w')
      → All IsOrdinary cs
      → Before (after_secs (turn w.calls).chance.now retention) cs
      → (turn v.calls).chance.now < after_secs (turn w.calls).chance.now retention
      → (turn v.calls).chance.now + ttl * 1000 < 2 ^ 63
      → state'.max_entries ≤ i64_max
      → (turn v.calls).failure ≡ none
      → (try_lease_redemption sql turn state' key ttl v).0 ≡ Result.ok Lease.redeemed
  unfolding dispatched
  redeem_once_durable key token retention ttl cs w w' v d named fits e kept ordinary before lt fits'
        room fine =
      let now = (turn w.calls).chance.now in
      let later = (turn v.calls).chance.now in
      let t = rows_found state w in
      let done = committed_by key token retention w in
      let (won, left) = commit_redemption-eq-ok key token retention w w' (omega arith) e in
      let core = commit-commit key token now retention t d named fits in
      let core_ok : (Leases.commit key token now retention (rows_of t)).0 ≡ Commit.ok =
        sym (ap (λ r. r.0) core) ∙ rw won refl in
      let until = after_secs now retention in
      let spent : IsSpent key until done.1 = IsSpent-rows_of key until done.1 (
        subst (History.IsSpent key until) (sym (ap (λ r. r.1) core))
          (commit-IsSpent key token now retention (rows_of t) core_ok)) in
      let d' : IsMap done.1 =
        dispatched-IsMap sql laws (now, commits key token retention) t d (named, fits) in
      let (d'', still) =
        durable_run-IsSpent sql laws key until cs done.1 d' ordinary before spent in
      let rows : durable_run sql cs done.1 ≡ rows_found state' v =
        sym (kept ∙ ap (durable_run sql cs) left) in
      lease_refused key ttl v (omega arith) room fine (
        lease-redeemed sql laws key (turn v.calls).chance.token until later ttl state'.max_entries
          (rows_found state' v) (subst IsMap rows d'') lt (subst (IsSpent key until) rows still))
