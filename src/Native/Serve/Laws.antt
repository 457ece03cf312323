-- ===== src/Native/Serve/Laws.antt =====
-- The cap on connections, and the end of the shutdown.
use mathlib.Core.Path.{subst}
use nft_gate.Base.{sym, ℕ, suc, ◌+◌, ◌-◌, ◌≤◌, ◌<◌, ◌≡◌, refl, arith}
use nft_gate.Native.Serve.{
  Semaphore, IsSemaphore, ServerLimits, Phase, waiting, holding, draining, stopped, Serving, start,
  Step, acquired, accept_failed, accepted, closed, shut_down, shut_down_holding, passes, drained,
  aborted, Reaches, here, next, Run, done, then,
}

-- The permits that the loop holds itself
abbrev pub held : Phase → ℕ
held holding = 1
held other = 0

module _ {S : Type 0} (sem : Semaphore S) (laws : IsSemaphore sem) (limits : ServerLimits) where
  -- Every permit is free, held by the loop or held by a running task, while the server runs; and a
  -- draining has lasted no longer than the grace period.
  abbrev pub Grace : Phase → Type 0
  Grace (draining ms) = ms ≤ limits.shutdown_grace
  Grace other = Unit {0}

  abbrev Accounted : Phase → Serving S → Type 0
  Accounted stopped s = s.running ≡ 0
  Accounted p s = sem.available s.permits + held p + s.running ≡ limits.max_connections

  record Inv (s : Serving S) : Type 0 where
    accounted : Accounted s.phase s
    grace : Grace s.phase

  start-Inv : Inv (start sem limits)
  unfolding start
  start-Inv = record {
    accounted = omega (arith, laws.available-new limits.max_connections);
    grace = tt;
  }

  Step-Inv : {s t : Serving S} → Step sem limits s t → Inv s → Inv t
  Step-Inv {s} (acquired e lt) i = ground (arith, laws.available-acquire s.permits)
  Step-Inv {s} (accept_failed e) i = ground (arith, laws.available-drop s.permits)
  Step-Inv {s} (accepted e) i = ground arith
  Step-Inv {s} (closed n e) i = ground (arith, laws.available-drop s.permits)
  Step-Inv {s} (shut_down e) i = ground arith
  Step-Inv {s} (shut_down_holding e) i = ground (arith, laws.available-drop s.permits)
  Step-Inv {s} (passes ms e lt) i = ground arith
  Step-Inv {s} (drained ms e z) i = ground arith
  Step-Inv {s} (aborted ms e le) i = ground arith

  Reaches-Inv : {s : Serving S} → Reaches sem limits s → Inv s
  Reaches-Inv here = start-Inv
  Reaches-Inv (next r st) = Step-Inv st (Reaches-Inv r)

  Accounted-running :
      (p : Phase) (s : Serving S) → s.phase ≡ p → Accounted p s → s.running ≤ limits.max_connections
  Accounted-running waiting s e h = omega arith
  Accounted-running holding s e h = omega arith
  Accounted-running (draining ms) s e h = omega arith
  Accounted-running stopped s e h = omega arith

  -- In every state that the accept loop reaches, whatever the clients, the listener and the
  -- signal do, no more connections run than the cap, and a draining has lasted no longer than
  -- the grace period.
  pub Reaches-capped :
      {s : Serving S} → Reaches sem limits s → (s.running ≤ limits.max_connections) × Grace s.phase
  Reaches-capped {s} r =
      let i = Reaches-Inv r in (Accounted-running s.phase s refl i.accounted, i.grace)

  -- No slot is lost: whenever the loop waits and fewer connections run than the cap, it can acquire a
  -- permit.
  pub Reaches-slot :
      {s : Serving S}
      → Reaches sem limits s
      → s.phase ≡ waiting
      → s.running < limits.max_connections
      → (t : Serving S) × Step sem limits s t × (t.phase ≡ holding)
  Reaches-slot {s} r e lt =
      let i = Reaches-Inv r in
      let all : Accounted waiting s = subst (λ p. Accounted p s) e i.accounted in
      (_, acquired e (omega arith), refl)

  -- The steps that a draining can still take
  abbrev pub rank : Phase → ℕ → ℕ
  rank (draining ms) running = suc ((limits.shutdown_grace - ms) + running)
  rank other running = 0

  abbrev Closing : Phase → Type 0
  Closing (draining ms) = Unit {0}
  Closing stopped = Unit {0}
  Closing other = ⊥

  closed-rank :
      (p : Phase) (s : Serving S) (n : ℕ)
      → s.running ≡ suc n
      → Closing p
      → Accounted p s
      → (rank p n < rank p s.running) × Closing p
  closed-rank waiting s n e c a = absurd c
  closed-rank holding s n e c a = absurd c
  closed-rank (draining ms) s n e c a = (omega arith, tt)
  closed-rank stopped s n e c a = absurd (omega arith)

  Step-rank :
      {s t : Serving S}
      → Step sem limits s t
      → Inv s
      → Closing s.phase
      → (rank t.phase t.running < rank s.phase s.running) × Closing t.phase
  Step-rank (acquired e lt) i c = ground arith
  Step-rank (accept_failed e) i c = ground arith
  Step-rank (accepted e) i c = ground arith
  Step-rank {s} (closed n e) i c = closed-rank s.phase s n e c i.accounted
  Step-rank (shut_down e) i c = ground arith
  Step-rank (shut_down_holding e) i c = ground arith
  Step-rank (passes ms e lt) i c = ground arith
  Step-rank (drained ms e z) i c = ground arith
  Step-rank (aborted ms e le) i c = ground arith

  Run-rank :
      {n : ℕ} {s t : Serving S}
      → Run sem limits n s t
      → Inv s
      → Closing s.phase
      → n ≤ rank s.phase s.running
  Run-rank done i c = omega arith
  Run-rank (then st r) i c =
      let (less, c') = Step-rank st i c in omega (arith, Run-rank r (Step-Inv st i) c')

  -- From a reachable state of the accept loop that drains, the server takes at most one step for
  -- each millisecond left of the grace period, one for each running connection, and one more.
  pub draining_ends :
      {n ms : ℕ} {s t : Serving S}
      → Reaches sem limits s
      → s.phase ≡ draining ms
      → Run sem limits n s t
      → n ≤ (limits.shutdown_grace - ms) + s.running + 1
  draining_ends {n} {ms} {s} r e run =
      let bound = Run-rank run (Reaches-Inv r) (subst Closing (sym e) tt) in ground (arith, bound)
