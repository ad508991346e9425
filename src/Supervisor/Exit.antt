-- ===== src/Supervisor/Exit.antt =====
-- A child that exits by itself, in a round of the watcher loop of src/supervisor.rs.
pub mod Ends
use condrun.Prelude.{
  ℕ, suc, ◌+◌, ◌≤◌, ◌<◌, ◌≡◌, refl, Bool, Option, none, some, ◌⊎◌, inl, inr, arith, [], ◌∷◌, leb,
  if◌then◌else◌,
}
use condrun.Async.{Async, IsRuntime, ok, select_biased_three, sleep}
use condrun.Async.Select.{three_resolve, first_wins, first_value, second_wins, third_wins}
use condrun.Predicate.{pass, evaluate}
use condrun.Signal.{SignalKind}
use condrun.Process.{ExitStatus, CommandSpec, success}
use condrun.Supervisor.{Seams, Supervisor}
use condrun.Supervisor.Exec.{evaluated, spawned, await, Flow, done, failed, pending, spent, Sys}
use condrun.Supervisor.Run.{
  Leave, WatchOutcome, exited, signal, tick, break_with, handle_outcome, watch_select, watch_round,
  watch, judge, simple_wait, after_wait, attend, supervise, call_spawn, gate, after_preflight, run,
  run_task,
}
use condrun.Supervisor.Loop.{watch_loop, Continues}
use condrun.Supervisor.Rounds.{evaluate_at_once}
use condrun.Supervisor.Kill.{Quiet}
use condrun.Supervisor.Ending.{race_alone, leave_run_lem}
use condrun.Supervisor.Codes.{run_code}
use condrun.Supervisor.Trace.{terminations}

module _ (w : Seams) where
  open w use {Child, Source, child, runtime}

  -- Where the child has exited by the instant at which the loop's `select!` is over, that is its
  -- outcome, whatever signal has come and whether or not the poll is due.
  select_exit :
      (poll v : ℕ) (c c' : Child) (s : Sys Source) (status : ExitStatus)
      → IsRuntime runtime
      → child.wait c s.now ≡ some (v, (status, c'))
      → v ≤ (watch_select w poll c s).1.now
      → watch_select w poll c s
        ≡ (done (exited status), record s { now = (watch_select w poll c s).1.now })
  unfolding watch_select
  select_exit poll v c c' s status sane e early =
      go
        (select_biased_three runtime (child.wait c s.now) (w.signals.next s.signals s.now)
          (sleep poll s.now))
        refl
    where
      go :
          (o : Async ((ExitStatus × Child) ⊎ ((SignalKind × Source) ⊎ Unit {0})))
          → select_biased_three runtime
              (child.wait c s.now)
              (w.signals.next s.signals s.now)
              (sleep poll s.now)
            ≡ o
          → watch_select w poll c s
            ≡ (done (exited status), record s { now = (watch_select w poll c s).1.now })
      go none q = absurd (three_resolve runtime sane _ _ (s.now + poll) tt q)
      go (some (t, x)) q =
          let by : v ≤ t = ground (arith, q, early) in
          let first = first_wins runtime _ _ (s.now + poll) t v tt (status, c') x e by q in
          ground (arith, q, first)

-- The exit of the child has priority: where it has exited by the instant at which the round's
-- `select!` is over, the round leaves the loop with its status and does nothing else, whatever
-- signal has come and whether or not the poll is due.
pub exit_first :
    (w : Seams) (sup : Supervisor w) (started : Option ℕ) (c c' : w.Child) (s : Sys w.Source)
    (v : ℕ) (status : ExitStatus)
    → IsRuntime w.runtime
    → w.child.wait c s.now ≡ some (v, (status, c'))
    → v ≤ (watch_select w sup.config.poll c s).1.now
    → watch_round w sup started c s ≡ (
      done (inl (break_with status)),
      record s { now = (watch_select w sup.config.poll c s).1.now },
    )
unfolding watch_round handle_outcome
exit_first w sup started c c' s v status sane e early =
    ground (arith, select_exit w sup.config.poll v c c' s status sane e early)
