-- ===== src/Worker/Durable/Rows.antt =====
-- The rows of worker/src/do_state.rs as rows of `RedemptionTable` of core/src/redemption.rs, and the
-- lease of both.
use nft_gate.Worker.Durable.Oldest.{Unique, oldest-min_by_key, lookup-All}
use nft_gate.Base.{
  ℕ, All, suc, ◌+◌, ◌*◌, ◌^◌, ◌<◌, ◌≡◌, refl, sym, ap, ◌∙◌, inl, inr, max, Bool, true, false, not,
  ◌&&◌, Option, none, some, [], ◌∷◌, ltb, leb, length, arith, Bool-cases, Option-cases,
}
use nft_gate.Base.Words.{after_secs}
use nft_gate.Text.{Text, text_eq}
use nft_gate.Assoc.{lookup, insert, remove, retain, min_by_key}
use nft_gate.Redemption.Leases.{
  Row, RedemptionTable, Lease, try_lease, lease_live, evict_lease, grant,
}
use nft_gate.Worker.Durable.{
  Sql, IsSql, leases_of, expires, RowState, leased, committed, is_leased, RedRow, Redemptions,
  LeaseOutcome, drop_lapsed, evict_leased, lease_new, lease_rows, lease,
}

abbrev pub token_text : Option Text → Text
token_text none = []
token_text (some t) = t

-- A row as the core keeps it, and a table.
abbrev pub row_of : RedRow → Row
row_of r = record {
  committed = not (is_leased r.state);
  expiry_ms = r.expiry;
  token = token_text r.token;
}

unfoldable pub rows_of : Redemptions → RedemptionTable
rows_of [] = []
rows_of (e ∷ t) = (e.0, row_of e.1) ∷ rows_of t

abbrev pub answer_of : LeaseOutcome → Lease
answer_of (LeaseOutcome.ok t) = Lease.ok t
answer_of LeaseOutcome.leased = Lease.leased
answer_of LeaseOutcome.redeemed = Lease.redeemed

pub lookup-rows_of :
    (k : Text) (t : Redemptions)
    → lookup k (rows_of t) ≡ (elim (lookup k t) [ none ↦ none | some r ↦ some (row_of r) ])
unfolding lookup rows_of
lookup-rows_of k [] = refl
lookup-rows_of k (e ∷ t) = elim (Bool-cases (text_eq e.0 k)) [
  | inl h ↦ rw (h) refl
  | inr h ↦ rw (h) (lookup-rows_of k t)
]

pub insert-rows_of :
    (k : Text) (r : RedRow) (t : Redemptions)
    → rows_of (insert k r t) ≡ insert k (row_of r) (rows_of t)
unfolding insert rows_of
insert-rows_of k r [] = refl
insert-rows_of k r (e ∷ t) = ground (arith, insert-rows_of k r t)

pub remove-rows_of : (k : Text) (t : Redemptions) → rows_of (remove k t) ≡ remove k (rows_of t)
unfolding remove rows_of
remove-rows_of k [] = refl
remove-rows_of k (e ∷ t) = ground (arith, remove-rows_of k t)

length-rows_of : (t : Redemptions) → length (rows_of t) ≡ length t
unfolding rows_of
length-rows_of [] = refl
length-rows_of (e ∷ t) = ap suc (length-rows_of t)

retain-retain :
    (p q : RedRow → Bool) (t : Redemptions) → retain p (retain q t) ≡ retain (λ r. q r && p r) t
unfolding retain
retain-retain p q [] = refl
retain-retain p q (e ∷ t) = elim (Bool-cases (q e.1)) [
  | inl h ↦ rw (h, retain-retain p q t) refl
  | inr h ↦ rw (h, retain-retain p q t) refl
]

retain-rows_of :
    (p : Row → Bool) (q : RedRow → Bool) (t : Redemptions)
    → ((r : RedRow) → q r ≡ p (row_of r))
    → rows_of (retain q t) ≡ retain p (rows_of t)
unfolding retain rows_of
retain-rows_of p q [] h = refl
retain-rows_of p q (e ∷ t) h = elim (Bool-cases (q e.1)) [
  | inl k ↦ rw (k, sym (h e.1) ∙ k, retain-rows_of p q t h) refl
  | inr k ↦ rw (k, sym (h e.1) ∙ k, retain-rows_of p q t h) refl
]

kept :
    (now : ℕ) (s : RowState) (x : ℕ)
    → (not (is_leased s && leb x now) && not (not (is_leased s) && leb x now)) ≡ ltb now x
kept now leased x = ground arith
kept now committed x = ground arith

drop_lapsed-rows_of :
    (now : ℕ) (t : Redemptions)
    → rows_of (drop_lapsed now t) ≡ retain (λ r. ltb now r.expiry_ms) (rows_of t)
unfolding drop_lapsed
drop_lapsed-rows_of now t =
    ap rows_of (retain-retain _ _ t)
    ∙ retain-rows_of (λ r. ltb now r.expiry_ms) _ t (λ r. kept now r.state r.expiry)

-- The first entry with the least key, as the core keeps it
entry_of : Option (Text × RedRow) → Option (Text × Row)
entry_of none = none
entry_of (some e) = some (e.0, row_of e.1)

min_by_key-rows_of :
    (t : Redemptions)
    → min_by_key (λ r. r.expiry_ms) (rows_of t) ≡ entry_of (min_by_key (λ r. r.expiry) t)
unfolding min_by_key rows_of entry_of
min_by_key-rows_of [] = refl
min_by_key-rows_of (e ∷ t) = elim (Option-cases (min_by_key (λ r. r.expiry) t)) [
  | inl h ↦ rw (min_by_key-rows_of t, h) refl
  | inr (b, h) ↦ elim (Bool-cases (ltb b.1.expiry e.1.expiry)) [
    | inl k ↦ rw (min_by_key-rows_of t, h, k) refl
    | inr k ↦ rw (min_by_key-rows_of t, h, k) refl
  ]
]

leased_rows :
    (t : Redemptions)
    → min_by_key (λ r. r.expiry_ms) (retain (λ r. not r.committed) (rows_of t))
      ≡ entry_of (min_by_key (λ r. r.expiry) (retain (λ r. is_leased r.state) t))
leased_rows t =
    ap (min_by_key (λ r. r.expiry_ms)) (
      sym (
        retain-rows_of (λ r. not r.committed) (λ r. is_leased r.state) t
          (λ r. not_not (is_leased r.state))))
    ∙ min_by_key-rows_of (retain (λ r. is_leased r.state) t)
  where
    not_not : (b : Bool) → b ≡ not (not b)
    not_not true = refl
    not_not false = refl

evict_leased-rows_of :
    (sql : Sql) (laws : IsSql sql) (n : ℕ) (t : Redemptions)
    → Unique (leases_of t)
    → rows_of (evict_leased sql n t) ≡ evict_lease n (rows_of t)
unfolding evict_leased evict_lease entry_of
evict_leased-rows_of sql laws n t u =
    let first = oldest-min_by_key sql laws (leases_of t) u in
    elim (Bool-cases (leb (max n 1) (length t))) [
      | inr h ↦ rw (evict_leased, evict_lease, length-rows_of t, h) refl
      | inl h ↦
          elim (Option-cases (min_by_key (λ r. r.expiry) (retain (λ r. is_leased r.state) t))) [
            | inl k ↦
                rw (evict_leased, evict_lease, length-rows_of t, h, leased_rows t, first, k) refl
            | inr (b, k) ↦
                rw (evict_leased, evict_lease, length-rows_of t, h, leased_rows t, first, k)
                  (remove-rows_of b.0 t)
          ]
    ]

-- Times far enough from the ends of the two integer types
pub expires_lem :
    (now secs : ℕ) → now + secs * 1000 < 2 ^ 63 → expires now secs ≡ after_secs now secs
expires_lem now secs h = ground arith

abbrev pub Outcome : Type 0
Outcome = Lease × RedemptionTable

abbrev pub seen : LeaseOutcome × Redemptions → Outcome
seen r = (answer_of r.0, rows_of r.1)

lease_new-grant :
    (sql : Sql) (laws : IsSql sql) (key token : Text) (now ttl n : ℕ) (t : Redemptions)
    → Unique (leases_of t)
    → now + ttl * 1000 < 2 ^ 63
    → seen (lease_new sql key now ttl n token t) ≡ grant key now ttl n token (rows_of t)
unfolding grant
lease_new-grant sql laws key token now ttl n t u h =
    ap (λ m. (Lease.ok token, m))
      (insert-rows_of key _ (evict_leased sql n t)
        ∙ ap
            (λ x.
              insert key (record { committed = false; expiry_ms = x; token = token })
                (rows_of (evict_leased sql n t)))
            (expires_lem now ttl h)
        ∙ ap (insert key _) (evict_leased-rows_of sql laws n t u))

lease_rows-lease_live :
    (sql : Sql) (laws : IsSql sql) (key token : Text) (now ttl n : ℕ) (t : Redemptions)
    → Unique (leases_of t)
    → All (λ x. x.1.expiry < 2 ^ 53) t
    → now + ttl * 1000 < 2 ^ 63
    → seen (lease_rows sql key now ttl n token t) ≡ lease_live key now ttl n token (rows_of t)
unfolding lease_live lease_rows
lease_rows-lease_live sql laws key token now ttl n t u small h =
    by_row (lookup key t) refl (lookup-rows_of key t)
  where
    by_row :
        (o : Option RedRow)
        → lookup key t ≡ o
        → lookup key (rows_of t) ≡ (elim o [ none ↦ none | some r ↦ some (row_of r) ])
        → seen (lease_rows sql key now ttl n token t) ≡ lease_live key now ttl n token (rows_of t)
    by_row none k l =
        rw (lease_live, lease_rows, l, k) (lease_new-grant sql laws key token now ttl n t u h)
    by_row (some r) k l = elim (Bool-cases (not (is_leased r.state))) [
      | inl c ↦ rw (lease_live, lease_rows, l, k, c) refl
      | inr c ↦
          let exact =
            laws.read_exact r.expiry (lookup-All (λ y. y.expiry < 2 ^ 53) key t small k) in
          elim (Bool-cases (ltb now r.expiry)) [
            | inl x ↦ rw (lease_live, lease_rows, l, k, c, exact, x) refl
            | inr x ↦
                rw (lease_live, lease_rows, l, k, c, exact, x)
                  (lease_new-grant sql laws key token now ttl n t u h)
          ]
    ]

-- Neither a tie nor a number that is read back inexactly matters to a lease at this time.
abbrev pub IsPlain : ℕ → Redemptions → Type 0
IsPlain now t =
    Unique (leases_of (drop_lapsed now t)) × All (λ x. x.1.expiry < 2 ^ 53) (drop_lapsed now t)

pub lease-try_lease :
    (sql : Sql) (laws : IsSql sql) (key token : Text) (now ttl n : ℕ) (t : Redemptions)
    → IsPlain now t
    → now + ttl * 1000 < 2 ^ 63
    → seen (lease sql key now ttl n token t) ≡ try_lease key now ttl n token (rows_of t)
unfolding lease try_lease
lease-try_lease sql laws key token now ttl n t (u, small) h =
    lease_rows-lease_live sql laws key token now ttl n (drop_lapsed now t) u small h
    ∙ ap (lease_live key now ttl n token) (drop_lapsed-rows_of now t)
