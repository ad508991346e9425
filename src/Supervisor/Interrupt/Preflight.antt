-- ===== src/Supervisor/Interrupt/Preflight.antt =====
-- src/supervisor.rs: a run that starts while a signal is there.
use condrun.Prelude.{ℕ, suc, ◌≤◌, ◌≡◌, refl, Bool, true, false, Option, none, some, [], arith}
use condrun.Async.{Async, ok, ready_by}
use condrun.Predicate.{PredicateResult, pass, fail, evaluate}
use condrun.Signal.{SignalKind}
use condrun.Process.{CommandSpec}
use condrun.Supervisor.{Seams, Supervisor}
use condrun.Supervisor.Exec.{Sys}
use condrun.Supervisor.Run.{gate, after_preflight, run, run_task}
use condrun.Supervisor.Clock.{IsCausal}
use condrun.Supervisor.Interrupt.{Answered, Pending, race_signal, race_drawn, race_undrawn}
use condrun.Supervisor.Interrupt.Told.{supervise_tells}

-- What becomes of a signal that has come when the run starts, for each draw of the `select!` of the
-- pre-flight, given futures that do not resolve before they are started and a spawner that makes a
-- child which has not ended when the run first looks at it: no child runs on without the signal.
-- Where the draw tries the signals first, or the predicates have no answer by the poll, the run ends
-- with 0 and its trace is the log line of that signal. Where it tries the predicates first and they
-- fail, nothing is spawned, and the code is 1 or 0 by `strict`. Where they pass, the child is spawned
-- all the same, and the signal is forwarded to it before anything else is done.
pub run-Answered :
    (w : Seams) (fuel : ℕ) (sup : Supervisor w) (cmd : CommandSpec) (now u : ℕ) (kind : SignalKind)
    (c : w.Child) (launcher : w.Launcher)
    → IsCausal w sup
    → Pending w.signals sup.signals now kind
    → w.spawner.spawn sup.spawner cmd (w.runtime.wakes now) ≡ some (u, (ok c, launcher))
    → ready_by (w.runtime.wakes u) (w.child.wait c u) ≡ none
    → Answered kind cmd sup.config.strict
        (w.runtime.wakes now)
        (w.runtime.toss 0)
        (ready_by (w.runtime.wakes now) (evaluate sup.predicate_set sup.state now))
        (run w (suc fuel) sup cmd now)
unfolding run run_task after_preflight gate
run-Answered w fuel sup cmd now u kind c launcher causal waits p unready =
    by_draw (w.runtime.toss 0) (ready_by (w.runtime.wakes now) (future now)) refl refl
  where
    future : ℕ → Async PredicateResult
    future = evaluate sup.predicate_set sup.state

    start : Sys w.Source
    start = record { now = now; selects = 0; signals = sup.signals; trace = [] }

    first : (rest : w.Source) × (w.signals.next sup.signals now ≡ some (now, (kind, rest)))
    first = waits now (omega arith)

    late : now ≤ u
    late =
        let spawns_late = causal.spawns cmd (w.runtime.wakes now) u (ok c, launcher) p in
        omega (arith, spawns_late, causal.sane.wakes_late now)

    by_draw :
        (b : Bool) (o : Option PredicateResult)
        → w.runtime.toss 0 ≡ b
        → ready_by (w.runtime.wakes now) (future now) ≡ o
        → Answered kind cmd sup.config.strict
            (w.runtime.wakes now)
            b
            o
            (run w (suc fuel) sup cmd now)
    by_draw true (some pass) d r =
        rw
          (race_drawn w.runtime w.signals future start pass kind first.0 causal.sane
            causal.evaluates first.1 r d)
          (supervise_tells w sup cmd kind fuel (w.runtime.wakes now) u c _ launcher (waits u late).0
            causal.sane p unready (waits u late).1 refl)
    by_draw true (some (fail reason)) d r =
        rw
          (race_drawn w.runtime w.signals future start (fail reason) kind first.0 causal.sane
            causal.evaluates first.1 r d)
          (ground arith, ground arith)
    by_draw true none d r =
        rw (race_signal w.runtime w.signals future start now kind first.0 causal.sane first.1 r)
          (refl, refl)
    by_draw false o d r =
        rw
          (race_undrawn w.runtime w.signals future start kind first.0 causal.sane causal.evaluates
            first.1 d)
          (refl, refl)
