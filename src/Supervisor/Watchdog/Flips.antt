-- ===== src/Supervisor/Watchdog/Flips.antt =====
-- When a run of src/supervisor.rs logs a flip, by the history of its evaluations alone.
use condrun.Prelude.{ℕ, ◌<◌, ◌≡◌, ◌↔◌, true, List, [], ◌∷◌}
use condrun.Process.{CommandSpec}
use condrun.Supervisor.{Seams, Supervisor}
use condrun.Supervisor.Exec.{Sys}
use condrun.Supervisor.Run.{run}
use condrun.Supervisor.Trace.{spawns}
use condrun.Supervisor.Clock.{IsCausal}
use condrun.Supervisor.Watchdog.{Poll, EverOverdue, Descending, tripped_iff}
use condrun.Supervisor.Watchdog.Order.{InOrder}
use condrun.Supervisor.Watchdog.Order.Runs.{run-InOrder}
use condrun.Supervisor.Watchdog.Refines.{polls, has_flip, run_refines}

tail-InOrder : {S : Type 0} (s : Sys S) → InOrder s → Descending (polls s.trace)
tail-InOrder s h = go (polls s.trace) h
  where
    go : (ps : List Poll) → Descending ((s.now, true) ∷ ps) → Descending ps
    go [] h = tt
    go ((t, b) ∷ ps) h = h.1

-- The evaluations of a run are in the order of time.
pub run-Descending :
    (w : Seams) (fuel : ℕ) (sup : Supervisor w) (cmd : CommandSpec) (now : ℕ)
    → IsCausal w sup
    → Descending (polls (run w fuel sup cmd now).1.trace)
run-Descending w fuel sup cmd now causal =
    tail-InOrder (run w fuel sup cmd now).1 (run-InOrder w sup causal fuel cmd now)

-- Where no future resolves before it is started, a run that spawned the command logs a flip exactly
-- if at some evaluation in it the predicates had failed for the debounce window and more, without a
-- pass in between.
pub run_flips_iff :
    (w : Seams) (fuel : ℕ) (sup : Supervisor w) (cmd : CommandSpec) (now : ℕ)
    → IsCausal w sup
    → let trace = (run w fuel sup cmd now).1.trace in
      0 < spawns trace → (has_flip trace ≡ true) ↔ EverOverdue sup.config.debounce (polls trace)
run_flips_iff w fuel sup cmd now causal spawned =
    let last = (run w fuel sup cmd now).1 in
    let ordered = run-Descending w fuel sup cmd now causal in
    let replayed = (run_refines w fuel sup cmd now spawned).0 in
    let overdue = tripped_iff sup.config.debounce (polls last.trace) ordered in
    (λ h. overdue.0 (replayed.1 h), λ h. replayed.0 (overdue.1 h))
