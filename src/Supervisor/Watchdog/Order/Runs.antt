-- ===== src/Supervisor/Watchdog/Order/Runs.antt =====
-- The whole run of src/supervisor.rs keeps the order of time in its evaluations.
use condrun.Prelude.{ℕ, ◌⊎◌, inl, inr, ap, Bool, Bool-cases, true, false, none, if◌then◌else◌}
use condrun.Predicate.{PredicateResult, pass, fail, evaluate}
use condrun.Signal.{SignalKind}
use condrun.Process.{CommandSpec, ExitStatus, success}
use condrun.Supervisor.{Seams, Supervisor}
use condrun.Supervisor.Exec.{Sys, race}
use condrun.Supervisor.Run.{
  Leave, break_with, return_with, forward_signal, watch, simple_wait, after_wait, attend,
  map_status, leave_run, call_spawn, supervise, gate, after_preflight, run_task, run,
}
use condrun.Supervisor.Post.{Post, bind-Post, of-Ends}
use condrun.Supervisor.Trace.{race-trace}
use condrun.Supervisor.TraceLoop.{call_spawn-trace}
use condrun.Supervisor.Clock.{IsCausal, race_later, race_wait_later, spawn_later}
use condrun.Supervisor.Watchdog.Refines.{polls}
use condrun.Supervisor.Watchdog.Order.{
  InOrder, Steady, Fine, keeps-InOrder, polled-InOrder, steady_bind, forward-InOrder, watch-Post,
}

module _ (w : Seams) (sup : Supervisor w) (causal : IsCausal w sup) where
  open w use {Child, Source}

  after_wait-Post :
      (c : Child) (first : (ExitStatus × Child) ⊎ SignalKind) (s : Sys Source)
      → InOrder s
      → Post Fine Steady (after_wait w sup c first s)
  unfolding after_wait
  after_wait-Post c (inl (status, c')) s h = h
  after_wait-Post c (inr sig) s h =
      steady_bind Steady (forward_signal w c sig sup.config.grace) _ s
        (forward-InOrder w sup causal c sig sup.config.grace s h) (λ code s' q. q)

  attend-Post :
      (fuel : ℕ) (c : Child) (s : Sys Source) → InOrder s → Post Fine Steady (attend w fuel sup c s)
  unfolding attend simple_wait
  attend-Post fuel c s h = both sup.config.kill_on_change
    where
      kept : InOrder (race w.runtime w.signals (w.child.wait c) s).1
      kept =
          keeps-InOrder s (race w.runtime w.signals (w.child.wait c) s).1
            (ap polls (race-trace _ _ _ s)) (race_wait_later w sup causal c s) h

      both :
          (b : Bool)
          → Post Fine Steady ((if b then watch w fuel sup none c else simple_wait w sup c) s)
      both true = watch-Post w sup causal fuel c s h
      both false =
          steady_bind Steady (race w.runtime w.signals (w.child.wait c)) _ s kept
            (after_wait-Post c)

  leave-Post : (leave : Leave) (s : Sys Source) → InOrder s → Post Fine Steady (leave_run w leave s)
  unfolding leave_run map_status
  leave-Post (return_with code) s h = h
  leave-Post (break_with status) s h = elim (Bool-cases (success status)) [
    | inl ok ↦ rw ok h
    | inr bad ↦ rw bad h
  ]

  supervise-Post :
      (fuel : ℕ) (cmd : CommandSpec) (s : Sys Source)
      → InOrder s
      → Post Fine Steady (supervise w fuel sup cmd s)
  unfolding supervise
  supervise-Post fuel cmd s h =
      let kept : InOrder (call_spawn w sup cmd s).1 =
        keeps-InOrder s (call_spawn w sup cmd s).1 (ap polls (call_spawn-trace w sup cmd s))
          (spawn_later w sup causal cmd s) h in
      steady_bind Steady (call_spawn w sup cmd) _ s kept (λ c s' k.
        bind-Post Fine Steady Steady (attend w fuel sup c) _ s' (attend-Post fuel c s' k)
          leave-Post)

  gate-Post :
      (fuel : ℕ) (cmd : CommandSpec) (first : PredicateResult ⊎ SignalKind) (s : Sys Source)
      → InOrder s
      → Post Fine Steady (after_preflight w fuel sup cmd first s)
  unfolding after_preflight gate
  gate-Post fuel cmd (inr sig) s h = h
  gate-Post fuel cmd (inl pass) s h = supervise-Post fuel cmd _ (polled-InOrder s pass h)
  gate-Post fuel cmd (inl (fail reason)) s h = elim (Bool-cases sup.config.strict) [
    | inl strict ↦ rw strict (polled-InOrder s (fail reason) h)
    | inr lenient ↦ rw lenient (polled-InOrder s (fail reason) h)
  ]

  run_task-Post :
      (fuel : ℕ) (cmd : CommandSpec) (s : Sys Source)
      → InOrder s
      → Post Fine Steady (run_task w fuel sup cmd s)
  unfolding run_task
  run_task-Post fuel cmd s h =
      let future = evaluate sup.predicate_set sup.state in
      let kept : InOrder (race w.runtime w.signals future s).1 =
        keeps-InOrder s (race w.runtime w.signals future s).1 (ap polls (race-trace _ _ _ s))
          (race_later w.runtime w.signals future s causal.sane causal.evaluates
            (causal.comes s.signals))
          h in
      steady_bind Steady (race w.runtime w.signals future) _ s kept (gate-Post fuel cmd)

  pub run-InOrder : (fuel : ℕ) (cmd : CommandSpec) (now : ℕ) → InOrder (run w fuel sup cmd now).1
  unfolding run
  run-InOrder fuel cmd now =
      of-Ends InOrder (run w fuel sup cmd now).0 (run w fuel sup cmd now).1
        (run_task-Post fuel cmd _ tt)
