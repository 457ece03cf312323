-- ===== src/Redemption/Rates.antt =====
-- `RateTable` of core/src/redemption.rs: fixed windows of 60 seconds per key, bounded in number.
pub mod Budget
pub mod Bounds
use nft_gate.Base.{
  ℕ, ◌+◌, ◌-◌, max, Bool, true, false, not, ◌&&◌, Option, none, some, List, ltb, leb, ◌==◌,
  if◌then◌else◌, length,
}
use nft_gate.Base.Words.{u64_max}
use nft_gate.Text.{Text}
use nft_gate.Assoc.{lookup, insert, remove, retain, min_by_key}

abbrev pub rate_window_ms : ℕ
rate_window_ms = 60_000

pub record Window : Type 0 where
  pub start : ℕ
  pub count : ℕ

abbrev pub RateTable : Type 0
RateTable = List (Text × Window)

abbrev pub is_running : ℕ → Window → Bool
is_running now w = ltb (now - w.start) rate_window_ms

unfoldable pub prune : ℕ → RateTable → RateTable
prune now t = retain (is_running now) t

-- The window that a request at `now` falls into: the key's own if it still runs, else a new one.
unfoldable pub current : Text → ℕ → RateTable → Window
current key now t = elim (lookup key t) [
  | none ↦ record { start = now; count = 0 }
  | some w ↦ if is_running now w then w else record { start = now; count = 0 }
]

abbrev contains_key : Text → RateTable → Bool
contains_key key t = elim (lookup key t) [ none ↦ false | some _ ↦ true ]

unfoldable pub evict_window : ℕ → RateTable → RateTable
evict_window max_keys t =
    if leb (max max_keys 1) (length t)
    then elim (min_by_key (λ w. w.start) t) [ none ↦ t | some soonest ↦ remove soonest.0 t ]
    else t

-- The room that a new key needs in a full table.
unfoldable pub make_room : Text → ℕ → ℕ → RateTable → RateTable
make_room key now max_keys t =
    if not (contains_key key t) && leb (max max_keys 1) (length t)
    then evict_window max_keys (prune now t)
    else t

unfoldable pub check_capped : Text → ℕ → ℕ → ℕ → RateTable → Bool × RateTable
check_capped key now max_per_min max_keys t =
    let w = current key now t in
    if max_per_min == 0
    then (true, t)
    else if leb max_per_min w.count
    then (false, t)
    else (true, insert key (record w { count = w.count + 1 }) (make_room key now max_keys t))

-- `usize::MAX`, of 64 bits
unfoldable pub check : Text → ℕ → ℕ → RateTable → Bool × RateTable
unfolding check_capped
check key now max_per_min t = check_capped key now max_per_min u64_max t
