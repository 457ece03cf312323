-- ===== src/Worker/Durable/Limits.antt =====
-- The nonces and the rate windows of worker/src/do_state.rs. Of several nonces that expire first the
-- eviction drops the first of the list, where the engine may choose another; numbers are exact.
use nft_gate.Base.{
  ℕ, ◌+◌, ◌-◌, ◌≡◌, inl, inr, max, Bool, true, false, not, none, some, List, ltb, leb, ◌==◌,
  if◌then◌else◌, length, arith, Option-cases,
}
use nft_gate.Text.{Text}
use nft_gate.Assoc.{lookup, insert, remove, retain, min_by_key}
use nft_gate.Redemption.Rates.{RateTable, Window, check_capped, current}
use nft_gate.Worker.Durable.{expires}

abbrev pub Nonces : Type 0
Nonces = List (Text × ℕ)

unfoldable pub issue : Text → ℕ → ℕ → ℕ → Nonces → ℕ × Nonces
issue nonce now ttl_secs max_entries t =
    let expiry = expires now ttl_secs in
    let live = retain (λ e. not (leb e now)) t in
    let room =
      if leb (max max_entries 1) (length live)
      then elim (min_by_key (λ e. e) live) [ none ↦ live | some oldest ↦ remove oldest.0 live ]
      else live in
    (expiry, insert nonce expiry room)

unfoldable pub take_if_valid : Text → ℕ → Nonces → Bool × Nonces
take_if_valid nonce now t = elim (lookup nonce t) [
  | none ↦ (false, t)
  | some expiry ↦ (ltb now expiry, remove nonce t)
]

-- The window that counts at `now`
unfoldable pub window_at : Text → ℕ → RateTable → Window
window_at addr now t = elim (lookup addr t) [
  | none ↦ record { start = now; count = 0 }
  | some w ↦ if ltb (now - w.start) 60_000 then w else record { start = now; count = 0 }
]

-- `sweep` is the outcome of the draw that sweeps now and then.
unfoldable pub rate_check : Bool → Text → ℕ → ℕ → RateTable → Bool × RateTable
rate_check sweep addr max_per_min now t =
    let w = window_at addr now t in
    let swept = if sweep then retain (λ r. not (ltb r.start (now - 60_000))) t else t in
    if max_per_min == 0
    then (true, t)
    else if leb max_per_min w.count
    then (false, t)
    else (true, insert addr (record { start = w.start; count = w.count + 1 }) swept)

-- The draw does not change the verdict, which is the core's.
pub rate_check-check_capped :
    (sweep : Bool) (addr : Text) (max_per_min max_keys now : ℕ) (t : RateTable)
    → (rate_check sweep addr max_per_min now t).0 ≡ (check_capped addr now max_per_min max_keys t).0
unfolding rate_check check_capped window_at current
rate_check-check_capped sweep addr m n now t = elim (Option-cases (lookup addr t)) [
  | inl h ↦ rw (rate_check, check_capped, window_at, current, h) (ground arith)
  | inr (w, h) ↦ rw (rate_check, check_capped, window_at, current, h) (ground arith)
]
