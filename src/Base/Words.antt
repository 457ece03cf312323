-- ===== src/Base/Words.antt =====
-- The saturating arithmetic of `u64`. A value stays a natural number.
use Prim.Native.Nat.{ℕ, ◌+◌, ◌-◌, ◌*◌, ◌^◌, min}

abbrev pub u64_max : ℕ
u64_max = 2 ^ 64 - 1

-- `a.saturating_add(b)`; `a.saturating_sub(b)` is the `-` of ℕ.
abbrev pub saturating_add : ℕ → ℕ → ℕ
saturating_add a b = min (a + b) u64_max

abbrev pub saturating_mul : ℕ → ℕ → ℕ
saturating_mul a b = min (a * b) u64_max

-- The expiry that every table computes: `now.saturating_add(secs.saturating_mul(1000))`.
abbrev pub after_secs : ℕ → ℕ → ℕ
after_secs now secs = saturating_add now (saturating_mul secs 1000)
