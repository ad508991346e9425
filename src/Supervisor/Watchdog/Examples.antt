-- ===== src/Supervisor/Watchdog/Examples.antt =====
-- The theorems on the watchdog, at a run that kills.
use condrun.Prelude.{ℕ, ◌≤◌, ◌<◌, ◌≡◌, ◌↔◌, ◌⊎◌, refl, true, some, List, arith}
use condrun.Async.{ok, select, select_biased, select_biased_three}
use condrun.State.Fake.{fake_state, set_expensive, state_at}
use condrun.Predicate.{PredicateResult, evaluate, evaluate_and}
use condrun.Process.{ExitStatus, success}
use condrun.Supervisor.Exec.{Event, done, await, race}
use condrun.Supervisor.Run.{
  run, run_task, after_preflight, gate, supervise, call_spawn, attend, simple_wait, after_wait,
  watch, watch_round, handle_outcome, watch_select, call_evaluate, judge, kill_child, act_on_fail,
  call_terminate, forward_signal, wait_with_escalation, map_status, leave_run,
}
use condrun.Supervisor.Examples.{silent, supervisor_with, cmd, reads, ideal-IsRuntime}
use condrun.Supervisor.Clock.{IsCausal}
use condrun.Supervisor.Watchdog.Causes.{has_escalation, run_three}
use condrun.Supervisor.Watchdog.Flips.{run_flips_iff}
use condrun.Supervisor.Trace.{terminations, spawns}
use condrun.Supervisor.Watchdog.{tripped, replay, EverOverdue}
use condrun.Supervisor.Watchdog.Refines.{polls, has_flip, run_refines}

-- The run that kills polls at 2, 4, 6, 8 and 10, and is overdue at the last.
abbrev trace_of_10 : List Event
trace_of_10 = (run silent 13 (supervisor_with (ok 600) true) cmd 0).1.trace

spawned_once : 0 < spawns trace_of_10
unfolding run run_task after_preflight gate supervise call_spawn attend simple_wait after_wait watch
    watch_round handle_outcome watch_select call_evaluate judge act_on_fail kill_child
    call_terminate forward_signal wait_with_escalation map_status leave_run race await select
    select_biased select_biased_three evaluate evaluate_and fake_state state_at success
    set_expensive
spawned_once = omega arith

run_refines_example :
    ((replay 3 (polls trace_of_10) ≡ tripped) ↔ (has_flip trace_of_10 ≡ true))
    × (has_flip trace_of_10 ≡ true → 0 < terminations trace_of_10)
run_refines_example = run_refines silent 13 (supervisor_with (ok 600) true) cmd 0 spawned_once

waits_later : (c now t : ℕ) (a : ExitStatus × ℕ) → silent.child.wait c now ≡ some (t, a) → now ≤ t
waits_later c now t a e = ground (arith, e)

evaluates_later :
    (now t : ℕ) (a : PredicateResult)
    → evaluate
        (supervisor_with (ok 600) true).predicate_set
        (supervisor_with (ok 600) true).state
        now
      ≡ some (t, a)
    → now ≤ t
evaluates_later now t a e = let r = reads (ok 600) true now in ground (arith, e, r)

silent-IsCausal : IsCausal silent (supervisor_with (ok 600) true)
silent-IsCausal = record {
  sane = ideal-IsRuntime;
  waits = waits_later;
  terminates = λ c grace now t a e. ground (arith, e);
  signals = λ c sig now t a e. ground (arith, e);
  spawns = λ cmd now t a e. ground (arith, e);
  comes = λ s now t a e. absurd (cc);
  evaluates = evaluates_later;
}

run_flips_iff_example : (has_flip trace_of_10 ≡ true) ↔ EverOverdue 3 (polls trace_of_10)
run_flips_iff_example =
    run_flips_iff silent 13 (supervisor_with (ok 600) true) cmd 0 silent-IsCausal spawned_once

ends_with_3 : (run silent 13 (supervisor_with (ok 600) true) cmd 0).0 ≡ done 3
unfolding run run_task after_preflight gate supervise call_spawn attend simple_wait after_wait watch
    watch_round handle_outcome watch_select call_evaluate judge act_on_fail kill_child
    call_terminate forward_signal wait_with_escalation map_status leave_run race await select
    select_biased select_biased_three evaluate evaluate_and fake_state state_at success
    set_expensive
ends_with_3 = refl

run_three_example : (has_escalation trace_of_10 ≡ true) ⊎ EverOverdue 3 (polls trace_of_10)
run_three_example =
    run_three silent 13 (supervisor_with (ok 600) true) cmd 0 silent-IsCausal ends_with_3
