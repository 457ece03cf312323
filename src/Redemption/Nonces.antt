-- ===== src/Redemption/Nonces.antt =====
-- `NonceTable` of core/src/redemption.rs: single-use challenge nonces under a hard cap.
use nft_gate.Base.{
  ℕ, ◌<◌, ◌≤◌, ◌≡◌, refl, inl, inr, max, Bool, false, none, some, List, [], ◌∷◌, arith, ltb, leb,
  if◌then◌else◌, length, All, Option-cases,
}
use nft_gate.Base.Words.{after_secs}
use nft_gate.Text.{Text, text_eq_iff, text_eq_refl}
use nft_gate.Assoc.{lookup, insert, remove, retain, min_by_key, IsMap}
use nft_gate.Assoc.Laws.{
  lookup-insert, lookup-remove, lookup-retain-none, retain-IsMap, remove-IsMap, insert-IsMap,
  length-insert-le, length-retain-le, length-remove-le, length-remove-lt, min_by_key-lookup,
  min_by_key-ne-none,
}

-- Each nonce with its expiry.
abbrev pub NonceTable : Type 0
NonceTable = List (Text × ℕ)

unfoldable pub evict_nonce : ℕ → NonceTable → NonceTable
evict_nonce max_entries rows =
    if leb (max max_entries 1) (length rows)
    then elim (min_by_key (λ e. e) rows) [ none ↦ rows | some oldest ↦ remove oldest.0 rows ]
    else rows

unfoldable pub issue : Text → ℕ → ℕ → ℕ → NonceTable → ℕ × NonceTable
issue nonce now ttl_secs max_entries t =
    let expiry = after_secs now ttl_secs in
    (expiry, insert nonce expiry (evict_nonce max_entries (retain (λ e. ltb now e) t)))

unfoldable pub take_if_valid : Text → ℕ → NonceTable → Bool × NonceTable
take_if_valid nonce now t = elim (lookup nonce t) [
  | some expiry ↦ (ltb now expiry, remove nonce t)
  | none ↦ (false, remove nonce t)
]

unfoldable pub prune : ℕ → NonceTable → NonceTable
prune now t = retain (λ e. ltb now e) t

pub evict_nonce-IsMap : (n : ℕ) (rows : NonceTable) → IsMap rows → IsMap (evict_nonce n rows)
unfolding evict_nonce
evict_nonce-IsMap n rows d = elim (Option-cases (min_by_key (λ e. e) rows)) [
  | inl e ↦ ground arith
  | inr (b, e) ↦ ground (arith, remove-IsMap b.0 rows d)
]

-- An eviction brings nothing back.
lookup-evict_none :
    (n : ℕ) (k : Text) (rows : NonceTable)
    → lookup k rows ≡ none
    → lookup k (evict_nonce n rows) ≡ none
unfolding evict_nonce
lookup-evict_none n k rows h = elim (Option-cases (min_by_key (λ e. e) rows)) [
  | inl e ↦ ground arith
  | inr (b, e) ↦ ground (arith, lookup-remove b.0 k rows)
]

pub issue-IsMap :
    (nonce : Text) (now ttl n : ℕ) (t : NonceTable) → IsMap t → IsMap (issue nonce now ttl n t).1
unfolding issue
issue-IsMap nonce now ttl n t d =
    let rows = retain (λ e. ltb now e) t in
    insert-IsMap nonce (after_secs now ttl) (evict_nonce n rows)
      (evict_nonce-IsMap n rows (retain-IsMap (λ e. ltb now e) t d))

length-evict_nonce :
    (n : ℕ) (rows : NonceTable)
    → IsMap rows
    → length rows ≤ max n 1
    → length (evict_nonce n rows) < max n 1
unfolding evict_nonce
length-evict_nonce n rows d h = elim (Option-cases (min_by_key (λ e. e) rows)) [
  | inl e ↦ ground (arith, min_by_key-ne-none (λ e. e) rows)
  | inr (b, e) ↦
      ground (arith, length-remove-lt b.0 b.1 rows, min_by_key-lookup (λ e. e) rows b d e)
]

-- The calls of any number of requests on one table, each with the clock's reading.
pub data Call : Type 0 where
  issues : (nonce : Text) (ttl max_entries : ℕ) → Call
  takes : (nonce : Text) → Call
  prunes : Call

unfoldable pub step : ℕ × Call → NonceTable → NonceTable
step (now, issues nonce ttl n) t = (issue nonce now ttl n t).1
step (now, takes nonce) t = (take_if_valid nonce now t).1
step (now, prunes) t = prune now t

unfoldable pub run : List (ℕ × Call) → NonceTable → NonceTable
run [] t = t
run (c ∷ cs) t = run cs (step c t)

take_if_valid-IsMap :
    (nonce : Text) (now : ℕ) (t : NonceTable) → IsMap t → IsMap (take_if_valid nonce now t).1
unfolding take_if_valid
take_if_valid-IsMap nonce now t d = ground (arith, remove-IsMap nonce t d)

abbrev pub Mints : Text → Call → Type 0
Mints k (issues nonce ttl n) = nonce ≡ k
Mints k c = ⊥

-- The call issues under the cap `n`, if it issues.
abbrev pub Caps : ℕ → Call → Type 0
Caps n (issues nonce ttl m) = m ≡ n
Caps n c = Unit {0}

step-absent :
    (k : Text) (c : ℕ × Call) (t : NonceTable)
    → ¬ Mints k c.1
    → lookup k t ≡ none
    → lookup k (step c t) ≡ none
unfolding step issue take_if_valid prune
step-absent k (now, issues nonce ttl n) t h a =
    let rows = retain (λ e. ltb now e) t in
    ground (
      arith,
      h,
      text_eq_iff nonce k,
      lookup-insert nonce k (after_secs now ttl) (evict_nonce n rows),
      lookup-evict_none n k rows,
      lookup-retain-none (λ e. ltb now e) k t,
    )
step-absent k (now, takes nonce) t h a = ground (arith, lookup-remove nonce k t)
step-absent k (now, prunes) t h a = lookup-retain-none (λ e. ltb now e) k t a

run-absent :
    (k : Text) (cs : List (ℕ × Call)) (t : NonceTable)
    → All (λ c. ¬ Mints k c.1) cs
    → lookup k t ≡ none
    → lookup k (run cs t) ≡ none
unfolding run
run-absent k [] t h a = a
run-absent k (c ∷ cs) t h a = run-absent k cs (step c t) h.1 (step-absent k c t h.0 a)

-- A nonce is taken at most once: after one attempt to take it, whatever that answered, every later
-- attempt fails, after any calls that do not issue the same nonce again.
pub take_once :
    (nonce : Text) (now later : ℕ) (t : NonceTable) (cs : List (ℕ × Call))
    → All (λ c. ¬ Mints nonce c.1) cs
    → (take_if_valid nonce later (run cs (take_if_valid nonce now t).1)).0 ≡ false
unfolding take_if_valid
take_once nonce now later t cs h =
    let gone : lookup nonce (take_if_valid nonce now t).1 ≡ none =
      ground (arith, text_eq_refl nonce, lookup-remove nonce nonce t) in
    ground (arith, run-absent nonce cs (take_if_valid nonce now t).1 h gone)

-- A nonce issued now is accepted exactly until its expiry, whatever the issue had to evict.
pub take_if_valid-issue :
    (nonce : Text) (now ttl n later : ℕ) (t : NonceTable)
    → let r = issue nonce now ttl n t in
      (r.0 ≡ after_secs now ttl) × ((take_if_valid nonce later r.1).0 ≡ ltb later r.0)
unfolding issue take_if_valid
take_if_valid-issue nonce now ttl n later t = (
  refl,
  ground (
    arith,
    text_eq_refl nonce,
    lookup-insert nonce nonce (after_secs now ttl) (evict_nonce n (retain (λ e. ltb now e) t)),
  ),
)

-- No call takes a table past its cap.
pub length-step-le :
    (n : ℕ) (c : ℕ × Call) (t : NonceTable)
    → IsMap t
    → Caps n c.1
    → length t ≤ max n 1
    → length (step c t) ≤ max n 1
unfolding step issue take_if_valid prune
length-step-le n (now, issues nonce ttl m) t d e h =
    let rows = retain (λ e. ltb now e) t in
    rw e (
      omega (
        arith,
        length-retain-le (λ e. ltb now e) t,
        length-insert-le nonce (after_secs now ttl) (evict_nonce n rows),
        length-evict_nonce n rows (retain-IsMap (λ e. ltb now e) t d),
      ))
length-step-le n (now, takes nonce) t d e h = ground (arith, length-remove-le nonce t)
length-step-le n (now, prunes) t d e h = omega (arith, length-retain-le (λ e. ltb now e) t)

pub step-IsMap : (c : ℕ × Call) (t : NonceTable) → IsMap t → IsMap (step c t)
unfolding step prune
step-IsMap (now, issues nonce ttl n) t d = issue-IsMap nonce now ttl n t d
step-IsMap (now, takes nonce) t d = take_if_valid-IsMap nonce now t d
step-IsMap (now, prunes) t d = retain-IsMap (λ e. ltb now e) t d

-- Under one cap, no history of calls takes a table without double keys past it that starts within it.
length-run-le :
    (n : ℕ) (cs : List (ℕ × Call)) (t : NonceTable)
    → IsMap t
    → All (λ c. Caps n c.1) cs
    → length t ≤ max n 1
    → length (run cs t) ≤ max n 1
unfolding run
length-run-le n [] t d e h = h
length-run-le n (c ∷ cs) t d e h =
    length-run-le n cs (step c t) (step-IsMap c t d) e.1 (length-step-le n c t d e.0 h)
