-- ===== src/Redemption/Rates/Budget.antt =====
-- What a rate check answers: the budget of a key within its window.
use nft_gate.Base.{
  ℕ, ◌+◌, ◌-◌, ◌<◌, ◌≤◌, ◌≡◌, ◌⊎◌, inl, inr, true, false, ◌&&◌, some, List, [], ◌∷◌, arith,
  if◌then◌else◌, length, All,
}
use nft_gate.Text.{Text, text_eq, text_eq_iff, text_eq_refl}
use nft_gate.Assoc.{lookup, IsMap}
use nft_gate.Assoc.Laws.{lookup-insert, lookup-retain, length-insert-le}
use nft_gate.Redemption.Rates.{
  rate_window_ms, Window, RateTable, is_running, prune, current, make_room, check_capped,
}

-- How much of the budget a key has used up in the window that runs at `now`.
unfoldable pub used : ℕ → Text → RateTable → ℕ
used now k t = (current k now t).count

-- A check is allowed exactly where the budget is unlimited or not used up. One allowed under a budget
-- adds one to the key's use; one without a budget, or a refused one, changes nothing.
check_capped-used :
    (k : Text) (now budget max_keys : ℕ) (t : RateTable)
    → let r = check_capped k now budget max_keys t in
      ((budget ≡ 0) × (r ≡ (true, t)))
      ⊎ ((used now k t < budget) × (r.0 ≡ true) × (used now k r.1 ≡ used now k t + 1))
      ⊎ ((0 < budget) × (budget ≤ used now k t) × (r ≡ (false, t)))
unfolding check_capped used current
check_capped-used k now budget max_keys t =
    let w = current k now t in
    ground (
      arith,
      text_eq_refl k,
      lookup-insert k k (record w { count = w.count + 1 }) (make_room k now max_keys t),
    )

used-prune :
    (k : Text) (now later : ℕ) (t : RateTable)
    → IsMap t
    → now ≤ later
    → current k later (prune now t) ≡ current k later t
unfolding prune current
used-prune k now later t d h = ground (arith, lookup-retain (is_running now) k t d)

-- The periodic sweep of a table without double keys changes no verdict at its time or later.
pub check_capped-prune :
    (k : Text) (now later budget max_keys : ℕ) (t : RateTable)
    → IsMap t
    → now ≤ later
    → (check_capped k later budget max_keys (prune now t)).0
      ≡ (check_capped k later budget max_keys t).0
unfolding check_capped
check_capped-prune k now later budget max_keys t d h = ground (arith, used-prune k now later t d h)

-- How many of the checks, each a time and a key, are allowed for the key `k`.
unfoldable pub allowed : Text → ℕ → ℕ → List (ℕ × Text) → RateTable → ℕ
allowed k budget max_keys [] t = 0
allowed k budget max_keys (c ∷ cs) t =
    let r = check_capped c.1 c.0 budget max_keys t in
    let rest = allowed k budget max_keys cs r.1 in if text_eq c.1 k && r.0 then rest + 1 else rest

-- The time falls into the window that starts at `start`.
abbrev pub Within : ℕ → ℕ → Type 0
Within start now = now - start < rate_window_ms

roomy_check :
    (k j : Text) (now budget max_keys : ℕ) (t : RateTable) (w : Window)
    → 0 < budget
    → length t < max_keys
    → lookup k t ≡ some w
    → Within w.start now
    → let r = check_capped j now budget max_keys t in
      (length r.1 ≤ length t + 1)
      × (((text_eq j k && r.0 ≡ true)
            × (w.count < budget)
            × (lookup k r.1 ≡ some (record w { count = w.count + 1 })))
          ⊎ ((text_eq j k && r.0 ≡ false) × (lookup k r.1 ≡ some w)))
unfolding check_capped current make_room
roomy_check k j now budget max_keys t w pos room h win =
    let v = current j now t in
    ground (
      arith,
      text_eq_iff j k,
      lookup-insert j k (record v { count = v.count + 1 }) t,
      length-insert-le j (record v { count = v.count + 1 }) t,
    )

-- Within one running window, under a budget that is not unlimited and not exceeded, a key is allowed
-- no more than what is left of its budget, whatever the other
-- keys do, as long as the table has room for all of them.
pub allowed-le :
    (k : Text) (budget max_keys : ℕ) (cs : List (ℕ × Text)) (t : RateTable) (w : Window)
    → 0 < budget
    → length t + length cs ≤ max_keys
    → lookup k t ≡ some w
    → w.count ≤ budget
    → All (λ c. Within w.start c.0) cs
    → w.count + allowed k budget max_keys cs t ≤ budget
unfolding allowed
allowed-le k budget max_keys [] t w pos room h c win = omega arith
allowed-le k budget max_keys (x ∷ cs) t w pos room h c win =
    let r = check_capped x.1 x.0 budget max_keys t in
    let one = roomy_check k x.1 x.0 budget max_keys t w pos (omega arith) h win.0 in
    elim one.1 [
      | inl (yes_k, less, at) ↦ ground (
        arith,
        allowed-le k budget max_keys cs r.1 (record w { count = w.count + 1 }) pos
            (omega (arith, one.0)) at (omega arith) win.1,
      )
      | inr (no_k, at) ↦
          ground
            (arith, allowed-le k budget max_keys cs r.1 w pos (omega (arith, one.0)) at c win.1)
    ]
