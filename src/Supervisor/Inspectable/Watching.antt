-- ===== src/Supervisor/Inspectable/Watching.antt =====
-- The tests of src/supervisor.rs on the watcher's timing, on the debounce and on signals, as runs of
-- the inspectable child. A test that aborts the run stops it after a number of rounds.
use condrun.Prelude.{ℕ, ◌*◌, ◌≡◌, refl, true, false, List, [], ◌∷◌}
use condrun.Async.{select, select_biased, select_biased_three}
use condrun.State.Fake.{Script, fake_state, set_expensive, state_at}
use condrun.Predicate.{Predicate, and_set, evaluate, evaluate_and}
use condrun.Predicate.Metered.{reject_expensive}
use condrun.Signal.Fake.{fake_signals, next}
use condrun.Process.{success, code}
use condrun.Supervisor.{SupervisorConfig, Supervisor}
use condrun.Supervisor.Exec.{Event, Flow, done, spent, await, race}
use condrun.Supervisor.Run.{
  run, run_task, after_preflight, gate, supervise, call_spawn, attend, simple_wait, after_wait,
  watch, watch_round, handle_outcome, watch_select, call_evaluate, judge, kill_child, act_on_fail,
  call_terminate, forward_signal, wait_with_escalation, map_status, leave_run,
}
use condrun.Supervisor.Trace.{terminations, evaluations, forwards, spawns}
use condrun.Supervisor.Inspectable.{new, seams, secs, watcher_cfg, supervisor, cmd}

abbrev pub millis : ℕ → ℕ
millis n = n * 1_000_000

-- What a test looks at: the outcome, the clock, and the calls of `evaluate`, `spawn`, `signal` and
-- `terminate`.
pub record Report : Type 0 where
  pub outcome : Flow ℕ
  pub clock : ℕ
  pub evaluated : ℕ
  pub spawned : ℕ
  pub forwarded : ℕ
  pub terminated : ℕ

unfoldable pub report : ℕ → Supervisor seams → Report
unfolding run run_task after_preflight gate supervise call_spawn attend simple_wait after_wait watch
    watch_round handle_outcome watch_select call_evaluate judge act_on_fail kill_child
    call_terminate forward_signal wait_with_escalation map_status leave_run race await select
    select_biased select_biased_three evaluate evaluate_and fake_state state_at success code
    set_expensive next
report fuel sup =
    let (flow, s) = run seams fuel sup cmd 0 in
    record {
      outcome = flow;
      clock = s.now;
      evaluated = evaluations s.trace;
      spawned = spawns s.trace;
      forwarded = forwards s.trace;
      terminated = terminations s.trace;
    }

-- The calls and the log lines of the run, the latest first.
unfoldable pub traced : ℕ → Supervisor seams → List Event
unfolding run run_task after_preflight gate supervise call_spawn attend simple_wait after_wait watch
    watch_round handle_outcome watch_select call_evaluate judge act_on_fail kill_child
    call_terminate forward_signal wait_with_escalation map_status leave_run race await select
    select_biased select_biased_three evaluate evaluate_and fake_state state_at success code
    set_expensive next
traced fuel sup = (run seams fuel sup cmd 0).1.trace

abbrev pub stable : Script
stable = (0, set_expensive false) ∷ []

abbrev pub child_exits_naturally : Supervisor seams
child_exits_naturally = supervisor (watcher_cfg (secs 1) (secs 5)) (new 0 (secs 2)) stable []

child_exits_naturally_during_watch : report 9 child_exits_naturally ≡ record {
  outcome = done 0;
  clock = secs 2;
  evaluated = 1;
  spawned = 1;
  forwarded = 0;
  terminated = 0;
}
unfolding report
child_exits_naturally_during_watch = refl

-- `CountingRejectExpensive`; the trace counts its evaluations.
abbrev counting_reject_expensive : Predicate
counting_reject_expensive = record {
  name = "counting-reject-expensive";
  evaluate = reject_expensive.evaluate;
}

abbrev pub polled : Supervisor seams
polled = record (supervisor (watcher_cfg (secs 1) (secs 5)) (new 0 (secs 600)) stable []) {
  predicate_set = and_set (counting_reject_expensive ∷ []);
}

-- Two rounds until 10 s; the third would end at 15 s.
poll_interval_respected : report 2 polled ≡ record {
  outcome = spent;
  clock = secs 10;
  evaluated = 3;
  spawned = 1;
  forwarded = 0;
  terminated = 0;
}
unfolding report
poll_interval_respected = refl

abbrev pub debounce_cfg : ℕ → ℕ → SupervisorConfig
debounce_cfg debounce poll = record {
  strict = false;
  kill_on_change = true;
  grace = secs 1;
  poll = poll;
  debounce = debounce;
}

abbrev debounced : ℕ → Script → Supervisor seams
debounced debounce script = supervisor (debounce_cfg debounce (secs 2)) (new 0 (secs 600)) script []

abbrev killed_at : ℕ → ℕ → Report
killed_at clock evaluated = record {
  outcome = done 3;
  clock = clock;
  evaluated = evaluated;
  spawned = 1;
  forwarded = 0;
  terminated = 1;
}

abbrev pub immediate : Supervisor seams
immediate = debounced 0 ((0, set_expensive false) ∷ (secs 3, set_expensive true) ∷ [])

debounce_zero_immediate_kill : report 9 immediate ≡ killed_at (secs 4) 3
unfolding report
debounce_zero_immediate_kill = refl

abbrev pub full_duration : Supervisor seams
full_duration =
    debounced (secs 10) ((0, set_expensive false) ∷ (millis 3_500, set_expensive true) ∷ [])

debounce_waits_full_duration : report 9 full_duration ≡ killed_at (secs 14) 8
unfolding report
debounce_waits_full_duration = refl

abbrev pub recovering : Supervisor seams
recovering = debounced (secs 10) (
    (0, set_expensive false)
    ∷ (millis 3_500, set_expensive true)
    ∷ (millis 7_500, set_expensive false)
    ∷ [])

debounce_resets_on_recovery : report 10 recovering ≡ record {
  outcome = spent;
  clock = secs 20;
  evaluated = 11;
  spawned = 1;
  forwarded = 0;
  terminated = 0;
}
unfolding report
debounce_resets_on_recovery = refl

abbrev pub retripped : Supervisor seams
retripped = debounced (secs 10) (
    (0, set_expensive false)
    ∷ (millis 3_500, set_expensive true)
    ∷ (millis 7_500, set_expensive false)
    ∷ (millis 11_500, set_expensive true)
    ∷ [])

debounce_resets_then_retrips : report 20 retripped ≡ killed_at (secs 22) 12
unfolding report
debounce_resets_then_retrips = refl
