-- ===== src/Native/Clock.antt =====
-- gateway-rust/src/state.rs: the system clock.
use nft_gate.Base.{ℕ, ◌%◌, ◌^◌, min}
use nft_gate.Base.Words.{u64_max, saturating_add}

-- `SystemTime::duration_since(UNIX_EPOCH)`, in milliseconds
pub data Since : Type 0 where
  after_epoch before_epoch : ℕ → Since

unfoldable pub unix_ms : Since → ℕ
unix_ms (after_epoch ms) = min ms u64_max
unix_ms (before_epoch ms) = 0

pub record SystemClock : Type 0 where
  pub wall_at_start : ℕ

unfoldable pub new_clock : Since → SystemClock
unfolding unix_ms
new_clock now = record { wall_at_start = unix_ms now }

-- `elapsed` is the monotonic time since the start, a `u128`.
unfoldable pub now_ms : SystemClock → ℕ → ℕ
now_ms clock elapsed = saturating_add clock.wall_at_start (elapsed % 2 ^ 64)
