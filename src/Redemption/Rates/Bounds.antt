-- ===== src/Redemption/Rates/Bounds.antt =====
-- The number of windows that a rate table holds.
use nft_gate.Base.{ℕ, ◌+◌, ◌<◌, ◌≤◌, inl, inr, max, arith, length, Option-cases}
use nft_gate.Text.{Text}
use nft_gate.Assoc.{lookup, retain, min_by_key, IsMap}
use nft_gate.Assoc.Laws.{
  retain-IsMap, remove-IsMap, insert-IsMap, length-insert-le, length-insert_of_some,
  length-retain-le, length-remove-lt, min_by_key-lookup, min_by_key-ne-none,
}
use nft_gate.Redemption.Rates.{
  RateTable, is_running, prune, current, evict_window, make_room, check_capped,
}

length-evict_window :
    (n : ℕ) (t : RateTable) → IsMap t → length t ≤ max n 1 → length (evict_window n t) < max n 1
unfolding evict_window
length-evict_window n t d h = elim (Option-cases (min_by_key (λ w. w.start) t)) [
  | inl e ↦ ground (arith, min_by_key-ne-none (λ w. w.start) t)
  | inr (b, e) ↦
      ground (arith, length-remove-lt b.0 b.1 t, min_by_key-lookup (λ w. w.start) t b d e)
]

evict_window-IsMap : (n : ℕ) (t : RateTable) → IsMap t → IsMap (evict_window n t)
unfolding evict_window
evict_window-IsMap n t d = elim (Option-cases (min_by_key (λ w. w.start) t)) [
  | inl e ↦ ground arith
  | inr (b, e) ↦ ground (arith, remove-IsMap b.0 t d)
]

pub check_capped-IsMap :
    (k : Text) (now budget n : ℕ) (t : RateTable)
    → IsMap t
    → IsMap (check_capped k now budget n t).1
unfolding check_capped make_room prune
check_capped-IsMap k now budget n t d =
    let w = current k now t in
    let swept = retain (is_running now) t in
    ground (
      arith,
      retain-IsMap (is_running now) t d,
      evict_window-IsMap n swept (retain-IsMap (is_running now) t d),
      insert-IsMap k (record w { count = w.count + 1 }) t d,
      insert-IsMap k (record w { count = w.count + 1 }) (evict_window n swept),
    )

-- A rate check never takes a table without double keys past its bound, if it is within it.
pub length-check_capped-le :
    (k : Text) (now budget n : ℕ) (t : RateTable)
    → IsMap t
    → length t ≤ max n 1
    → length (check_capped k now budget n t).1 ≤ max n 1
unfolding check_capped make_room prune
length-check_capped-le k now budget n t d h =
    let w = current k now t in
    let swept = retain (is_running now) t in
    elim (Option-cases (lookup k t)) [
      | inl absent ↦ ground (
        arith,
        length-retain-le (is_running now) t,
        length-evict_window n swept (retain-IsMap (is_running now) t d),
        length-insert-le k (record w { count = w.count + 1 }) t,
        length-insert-le k (record w { count = w.count + 1 }) (evict_window n swept),
      )
      | inr (v, there) ↦
          ground (arith, length-insert_of_some k (record w { count = w.count + 1 }) v t there)
    ]
