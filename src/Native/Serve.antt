-- ===== src/Native/Serve.antt =====
-- `serve` of gateway-rust/src/main.rs: the loop that accepts connections under a cap, and the shutdown that
-- gives those in flight a bounded time. The semaphore is tokio's; what the clients, the listener and the
-- signal do is any of the steps.
pub mod Laws
use nft_gate.Base.{ℕ, suc, ◌+◌, ◌≤◌, ◌<◌, ◌≡◌}

pub record Semaphore (S : Type 0) : Type 0 where
  pub new : ℕ → S
  pub available : S → ℕ
  -- `acquire_owned`, which waits while no permit is left, and the drop of a permit
  pub acquire : S → S
  pub drop : S → S

-- What tokio documents
pub record IsSemaphore {S : Type 0} (sem : Semaphore S) : Type 0 where
  pub available-new : (n : ℕ) → sem.available (sem.new n) ≡ n
  pub available-acquire :
      (s : S) → 0 < sem.available s → sem.available (sem.acquire s) + 1 ≡ sem.available s
  pub available-drop : (s : S) → sem.available (sem.drop s) ≡ sem.available s + 1

pub record ServerLimits : Type 0 where
  pub header_read_timeout : ℕ
  pub max_connections : ℕ
  pub shutdown_grace : ℕ

-- Where the loop stands: before the first `select!`, before the second one with a permit, in the
-- draining that began so many milliseconds ago, or after the return.
pub data Phase : Type 0 where
  waiting holding : Phase
  draining : ℕ → Phase
  stopped : Phase

-- `running` tasks hold a permit each; `finished` ones are still in the `JoinSet`.
pub record Serving (S : Type 0) : Type 0 where
  pub phase : Phase
  pub permits : S
  pub running : ℕ
  pub finished : ℕ

module _ {S : Type 0} (sem : Semaphore S) (limits : ServerLimits) where
  unfoldable pub start : Serving S
  start = record {
    phase = waiting;
    permits = sem.new limits.max_connections;
    running = 0;
    finished = 0;
  }

  pub data Step (s : Serving S) : Serving S → Type 0 where
    -- The permit is acquired.
    acquired :
        s.phase ≡ waiting
        → 0 < sem.available s.permits
        → Step s (record s { phase = holding; permits = sem.acquire s.permits })
    -- `accept` fails: `continue` drops the permit.
    accept_failed :
        s.phase ≡ holding → Step s (record s { phase = waiting; permits = sem.drop s.permits })
    -- A connection is accepted: its task takes the permit, and the finished tasks are reaped.
    accepted :
        s.phase ≡ holding
        → Step s (record s { phase = waiting; running = suc s.running; finished = 0 })
    -- The task of a connection ends and drops its permit.
    closed :
        (n : ℕ)
        → s.running ≡ suc n
        → Step s (record s { permits = sem.drop s.permits; running = n; finished = suc s.finished })
    -- The signal comes at the first or at the second `select!`.
    shut_down : s.phase ≡ waiting → Step s (record s { phase = draining 0 })
    shut_down_holding :
        s.phase ≡ holding → Step s (record s { phase = draining 0; permits = sem.drop s.permits })
    -- A millisecond of the grace period passes.
    passes :
        (ms : ℕ)
        → s.phase ≡ draining ms
        → ms < limits.shutdown_grace
        → Step s (record s { phase = draining (suc ms) })
    -- The last task has ended: `serve` returns.
    drained :
        (ms : ℕ)
        → s.phase ≡ draining ms
        → s.running ≡ 0
        → Step s (record s { phase = stopped; finished = 0 })
    -- The grace period is over: the remaining tasks are aborted.
    aborted :
        (ms : ℕ)
        → s.phase ≡ draining ms
        → limits.shutdown_grace ≤ ms
        → Step s (record s { phase = stopped; running = 0; finished = 0 })

  pub data Reaches : Serving S → Type 0 where
    here : Reaches start
    next : {s t : Serving S} → Reaches s → Step s t → Reaches t

  -- A run of so many steps.
  pub data Run : ℕ → Serving S → Serving S → Type 0 where
    done : {s : Serving S} → Run 0 s s
    then : {n : ℕ} {s t u : Serving S} → Step s t → Run n t u → Run (suc n) s u
