-- ===== src/Supervisor/Unwatched.antt =====
-- A run with `--no-kill-on-change`: the path of `Supervisor::run` without the watcher loop.
use condrun.Prelude.{ℕ, ◌≤◌, ◌≡◌, ◌≢◌, false, arith}
use condrun.Signal.{SignalKind}
use condrun.Process.{CommandSpec}
use condrun.Supervisor.{Seams, Supervisor}
use condrun.Supervisor.Exec.{Flow, done, failed, pending, spent, Sys}
use condrun.Supervisor.Run.{
  wait_with_escalation, forward_signal, simple_wait, after_wait, attend, leave_run, call_spawn,
  supervise, gate, after_preflight, run, run_task, call_terminate, map_status,
}
use condrun.Supervisor.Rounds.{is_spent, await-unspent, race-unspent, forward-unspent}
use condrun.Supervisor.Trace.{evaluations, await-trace, race-trace}

module _ (w : Seams) where
  open w use {Child, Source}

  escalation-evaluations :
      (c : Child) (grace : ℕ) (s : Sys Source)
      → evaluations (wait_with_escalation w c grace s).1.trace ≡ evaluations s.trace
  unfolding wait_with_escalation call_terminate
  escalation-evaluations c grace s = grind (arith, race-trace, await-trace)

  forward-evaluations :
      (c : Child) (sig : SignalKind) (grace : ℕ) (s : Sys Source)
      → evaluations (forward_signal w c sig grace s).1.trace ≡ evaluations s.trace
  unfolding forward_signal
  forward-evaluations c sig grace s = grind (arith, escalation-evaluations, await-trace)

  module _ (sup : Supervisor w) (unwatched : sup.config.kill_on_change ≡ false) where
    attend-evaluations :
        (fuel : ℕ) (c : Child) (s : Sys Source)
        → evaluations (attend w fuel sup c s).1.trace ≡ evaluations s.trace
    unfolding attend simple_wait after_wait
    attend-evaluations fuel c s = grind (arith, unwatched, forward-evaluations, race-trace)

    attend-unspent :
        (fuel : ℕ) (c : Child) (s : Sys Source) → is_spent (attend w fuel sup c s).0 ≡ false
    unfolding attend simple_wait after_wait
    attend-unspent fuel c s = grind (arith, unwatched, forward-unspent, race-unspent)

    supervise-evaluations :
        (fuel : ℕ) (cmd : CommandSpec) (s : Sys Source)
        → evaluations (supervise w fuel sup cmd s).1.trace ≡ evaluations s.trace
    unfolding supervise call_spawn leave_run map_status
    supervise-evaluations fuel cmd s = grind (arith, attend-evaluations, await-trace)

    supervise-unspent :
        (fuel : ℕ) (cmd : CommandSpec) (s : Sys Source)
        → is_spent (supervise w fuel sup cmd s).0 ≡ false
    unfolding supervise call_spawn leave_run map_status
    supervise-unspent fuel cmd s = grind (arith, attend-unspent, await-unspent)

not_spent : {A : Type 0} (r : Flow A) → is_spent r ≡ false → r ≢ spent
not_spent (done a) h e = cc
not_spent (failed x) h e = cc
not_spent pending h e = cc
not_spent spent h e = cc

run-unspent :
    (w : Seams) (fuel : ℕ) (sup : Supervisor w) (cmd : CommandSpec) (now : ℕ)
    → sup.config.kill_on_change ≡ false
    → is_spent (run w fuel sup cmd now).0 ≡ false
unfolding run run_task after_preflight gate
run-unspent w fuel sup cmd now off = grind (arith, off, supervise-unspent, race-unspent)

-- Without `kill_on_change` a run needs no fuel and evaluates the predicates at most once.
pub run_unwatched :
    (w : Seams) (fuel : ℕ) (sup : Supervisor w) (cmd : CommandSpec) (now : ℕ)
    → sup.config.kill_on_change ≡ false
    → ((run w fuel sup cmd now).0 ≢ spent) × (evaluations (run w fuel sup cmd now).1.trace ≤ 1)
unfolding run run_task after_preflight gate
run_unwatched w fuel sup cmd now off = (
  not_spent _ (run-unspent w fuel sup cmd now off),
  grind (arith, off, supervise-evaluations, race-trace),
)
