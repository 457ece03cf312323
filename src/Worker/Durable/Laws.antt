-- ===== src/Worker/Durable/Laws.antt =====
-- Histories of calls of worker/src/do_state.rs against the same histories of core/src/redemption.rs.
use mathlib.Core.Path.{subst}
use nft_gate.Base.{
  ℕ, ◌+◌, ◌*◌, ◌^◌, ◌<◌, ◌≡◌, refl, sym, ap, ◌∙◌, false, none, some, List, [], ◌∷◌, All,
  if◌then◌else◌, Option, inl, inr, arith, Bool-cases, Option-cases,
}
use nft_gate.Text.{Text, is_nil}
use nft_gate.Assoc.{lookup, IsMap}
use nft_gate.Redemption.Leases
use nft_gate.Redemption.Leases.{RedemptionTable, Lease, Commit, try_lease}
use nft_gate.Redemption.Leases.History
use nft_gate.Redemption.Leases.History.{
  Call, leases, commits, releases, step, step-IsMap, step-IsSpent,
}
use nft_gate.Worker.Durable.{Sql, IsSql, RedRow, Redemptions, is_leased, lease, commit, release}
use nft_gate.Worker.Durable.Spent.{IsSpent, lease-IsSpent, lease-IsMap}
use nft_gate.Worker.Durable.Rows.{
  IsPlain, rows_of, answer_of, row_of, lookup-rows_of, lease-try_lease,
}
use nft_gate.Worker.Durable.Owned.{commit-commit, release-release}

pub data Answer : Type 0 where
  of_lease : Lease → Answer
  of_commit : Commit → Answer
  of_release : Answer

-- One call of the core's table, and of the Durable Object's.
unfoldable pub answered : ℕ × Call → RedemptionTable → Answer × RedemptionTable
answered (now, leases k ttl n token) t =
    let r = try_lease k now ttl n token t in (of_lease r.0, r.1)
answered (now, commits k token retention) t =
    let r = Leases.commit k token now retention t in (of_commit r.0, r.1)
answered (now, releases k token) t = (of_release, Leases.release k token t)

unfoldable pub dispatched : Sql → ℕ × Call → Redemptions → Answer × Redemptions
dispatched sql (now, leases k ttl n token) t =
    let r = lease sql k now ttl n token t in (of_lease (answer_of r.0), r.1)
dispatched sql (now, commits k token retention) t =
    let r = commit k token now retention t in
    (of_commit (if r.0 then Commit.ok else Commit.lost), r.1)
dispatched sql (now, releases k token) t = (of_release, release k token t)

unfoldable pub core_answers : List (ℕ × Call) → RedemptionTable → List Answer
core_answers [] t = []
core_answers (c ∷ cs) t = (answered c t).0 ∷ core_answers cs (answered c t).1

unfoldable pub durable_answers : Sql → List (ℕ × Call) → Redemptions → List Answer
durable_answers sql [] t = []
durable_answers sql (c ∷ cs) t =
    (dispatched sql c t).0 ∷ durable_answers sql cs (dispatched sql c t).1

-- Times within `i64`, and tokens that are not empty.
abbrev pub IsOrdinary : ℕ × Call → Type 0
IsOrdinary (now, leases k ttl n token) = now + ttl * 1000 < 2 ^ 63
IsOrdinary (now, commits k token retention) =
    (is_nil token ≡ false) × (now + retention * 1000 < 2 ^ 63)
IsOrdinary (now, releases k token) = is_nil token ≡ false

-- Neither a tie nor a number that is read back inexactly matters to a lease of the history.
abbrev pub ArePlain : Sql → List (ℕ × Call) → Redemptions → Type 0
ArePlain sql [] t = Unit {0}
ArePlain sql (c ∷ cs) t = IsPlain c.0 t × ArePlain sql cs (dispatched sql c t).1

dispatched-answered :
    (sql : Sql) (laws : IsSql sql) (c : ℕ × Call) (t : Redemptions)
    → IsMap t
    → IsPlain c.0 t
    → IsOrdinary c
    → ((dispatched sql c t).0, rows_of (dispatched sql c t).1) ≡ answered c (rows_of t)
unfolding dispatched answered
dispatched-answered sql laws (now, leases k ttl n token) t d p h =
    ap (λ r. (of_lease r.0, r.1)) (lease-try_lease sql laws k token now ttl n t p h)
dispatched-answered sql laws (now, commits k token retention) t d p (n, h) =
    ap (λ r. (of_commit r.0, r.1)) (commit-commit k token now retention t d n h)
dispatched-answered sql laws (now, releases k token) t d p h =
    ap (λ r. (of_release, r)) (release-release k token t d h)

pub answered-step : (c : ℕ × Call) (t : RedemptionTable) → (answered c t).1 ≡ step c t
unfolding answered step
answered-step (now, leases k ttl n token) t = refl
answered-step (now, commits k token retention) t = refl
answered-step (now, releases k token) t = refl

pub IsMap-rows_of : (t : Redemptions) → IsMap t → IsMap (rows_of t)
unfolding rows_of
IsMap-rows_of [] d = tt
IsMap-rows_of (e ∷ t) (a, d) = (lookup-rows_of e.0 t ∙ rw (a) refl, IsMap-rows_of t d)

rows_of-IsMap : (t : Redemptions) → IsMap (rows_of t) → IsMap t
unfolding rows_of
rows_of-IsMap [] d = tt
rows_of-IsMap (e ∷ t) (a, d) =
    (no_row (lookup e.0 t) (sym (lookup-rows_of e.0 t) ∙ a), rows_of-IsMap t d)
  where
    no_row :
        (o : Option RedRow) → (elim o [ none ↦ none | some r ↦ some (row_of r) ]) ≡ none → o ≡ none
    no_row none h = refl
    no_row (some r) h = absurd (cc)

pub dispatched-IsMap :
    (sql : Sql) (laws : IsSql sql) (c : ℕ × Call) (t : Redemptions)
    → IsMap t
    → IsOrdinary c
    → IsMap (dispatched sql c t).1
unfolding dispatched Leases.commit step
dispatched-IsMap sql laws (now, leases k ttl n token) t d h =
    lease-IsMap sql laws k token now ttl n t d
dispatched-IsMap sql laws (now, commits k token retention) t d (n, h) =
    rows_of-IsMap (commit k token now retention t).1 (
      subst IsMap (sym (ap (λ r. r.1) (commit-commit k token now retention t d n h)))
        (step-IsMap (now, commits k token retention) (rows_of t) (IsMap-rows_of t d)))
dispatched-IsMap sql laws (now, releases k token) t d h = rows_of-IsMap (release k token t) (
    subst IsMap (sym (release-release k token t d h))
      (step-IsMap (now, releases k token) (rows_of t) (IsMap-rows_of t d)))

-- Over any history of leases, commits and releases with times within i64 and tokens that are not
-- empty, the Durable Object, from a redemptions table without double keys, gives the same
-- answers as the RedemptionTable of the core from the same rows, whatever the SQL engine leaves
-- open, if at each call no two leases that still run expire at the same time and the expiries
-- are below 2^53.
pub durable_answers-core_answers :
    (sql : Sql) (laws : IsSql sql) (cs : List (ℕ × Call)) (t : Redemptions)
    → IsMap t
    → All IsOrdinary cs
    → ArePlain sql cs t
    → durable_answers sql cs t ≡ core_answers cs (rows_of t)
unfolding durable_answers core_answers
durable_answers-core_answers sql laws [] t d h p = refl
durable_answers-core_answers sql laws (c ∷ cs) t d (o, h) (p, ps) =
    let same = dispatched-answered sql laws c t d p o in
    ap (◌∷◌ (dispatched sql c t).0) (
      durable_answers-core_answers sql laws cs (dispatched sql c t).1
        (dispatched-IsMap sql laws c t d o) h ps)
    ∙ ap (λ r. r.0 ∷ core_answers cs r.1) same

-- A digest is spent in both tables or in neither.
rows_of-IsSpent :
    (key : Text) (e : ℕ) (t : Redemptions) → IsSpent key e t → History.IsSpent key e (rows_of t)
rows_of-IsSpent key e t (r, h, c, x) = (row_of r, lookup-rows_of key t ∙ rw h refl, rw c refl, x)

pub IsSpent-rows_of :
    (key : Text) (e : ℕ) (t : Redemptions) → History.IsSpent key e (rows_of t) → IsSpent key e t
IsSpent-rows_of key e t (r, h, c, x) =
    let same = sym (lookup-rows_of key t) ∙ h in
    elim (Option-cases (lookup key t)) [
      | inl o ↦ absurd (ground (arith, same, o))
      | inr (s, o) ↦ (
        s,
        o,
        ground (arith, same, o, c, Bool-cases (is_leased s.state)),
        ground (arith, same, o, x),
      )
    ]

-- A spent digest stays spent, whatever call comes before its retention ends.
pub dispatched-IsSpent :
    (sql : Sql) (laws : IsSql sql) (key : Text) (e : ℕ) (c : ℕ × Call) (t : Redemptions)
    → IsMap t
    → IsOrdinary c
    → c.0 < e
    → IsSpent key e t
    → IsSpent key e (dispatched sql c t).1
unfolding dispatched Leases.commit step
dispatched-IsSpent sql laws key e (now, leases k ttl n token) t d o lt s =
    lease-IsSpent sql laws key k token e now ttl n t d lt s
dispatched-IsSpent sql laws key e (now, commits k token retention) t d (n, h) lt s =
    IsSpent-rows_of key e (commit k token now retention t).1 (
      subst (History.IsSpent key e)
        (sym (ap (λ r. r.1) (commit-commit k token now retention t d n h)))
        (step-IsSpent key e (now, commits k token retention) (rows_of t) (IsMap-rows_of t d) lt
          (rows_of-IsSpent key e t s)))
dispatched-IsSpent sql laws key e (now, releases k token) t d h lt s =
    IsSpent-rows_of key e (release k token t) (
      subst (History.IsSpent key e) (sym (release-release k token t d h)) (
        step-IsSpent key e (now, releases k token) (rows_of t) (IsMap-rows_of t d) lt
          (rows_of-IsSpent key e t s)))
