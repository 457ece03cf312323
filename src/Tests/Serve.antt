-- ===== src/Tests/Serve.antt =====
-- The accept loop at a concrete run: two connections at most, and a grace period of three milliseconds.
use nft_gate.Base.{ℕ, ◌+◌, ◌-◌, ◌≤◌, refl, arith}
use nft_gate.Native.Serve.{
  Semaphore, IsSemaphore, ServerLimits, draining, stopped, Serving, start, acquired, accepted,
  shut_down, passes, aborted, Reaches, here, next, Run, done, then,
}
use nft_gate.Native.Serve.Laws.{Grace, Reaches-capped, draining_ends}

-- The permits that are left
abbrev counter : Semaphore ℕ
counter = record { new = λ n. n; available = λ s. s; acquire = λ s. s - 1; drop = λ s. s + 1 }

counter-IsSemaphore : IsSemaphore counter
counter-IsSemaphore = record {
  available-new = λ n. refl;
  available-acquire = λ s lt. omega (arith, lt);
  available-drop = λ s. refl;
}

abbrev limits : ServerLimits
limits = record { header_read_timeout = 10_000; max_connections = 2; shutdown_grace = 3 }

-- A client is served, the signal comes, and a millisecond of the grace period passes.
abbrev closing : Serving ℕ
closing = record { phase = draining 1; permits = 1; running = 1; finished = 0 }

closing-Reaches : Reaches counter limits closing
unfolding start
closing-Reaches =
    next (next (next (next here (acquired refl (omega arith))) (accepted refl)) (shut_down refl))
      (passes 0 refl (omega arith))

abbrev stopped_by_abort : Serving ℕ
stopped_by_abort = record closing { phase = stopped; running = 0 }

closing-Run : Run counter limits 3 closing stopped_by_abort
closing-Run =
    then (passes 1 refl (omega arith))
      (then (passes 2 refl (omega arith)) (then (aborted 3 refl (omega arith)) done))

Reaches-capped_example :
    (closing.running ≤ limits.max_connections)
    × Grace counter counter-IsSemaphore limits closing.phase
Reaches-capped_example = Reaches-capped counter counter-IsSemaphore limits closing-Reaches

draining_ends_example : 3 ≤ (limits.shutdown_grace - 1) + closing.running + 1
draining_ends_example =
    draining_ends counter counter-IsSemaphore limits closing-Reaches refl closing-Run
