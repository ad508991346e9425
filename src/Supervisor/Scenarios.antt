-- ===== src/Supervisor/Scenarios.antt =====
-- The scenarios of the tests in src/supervisor.rs, run on the fakes and an ideal runtime.
mod Theorems
use condrun.Prelude.{
  Bool, ◌&&◌, false, ◌==◌, contains, every, ℕ, ◌≤◌, ◌<◌, ◌≡◌, ◌≢◌, refl, String, true, false, none,
  some, List, [], ◌∷◌, arith,
}
use condrun.Async.{Runtime, IsRuntime, select, select_biased_three}
use condrun.Async.Select.{IsPrompt}
use condrun.State.Fake.{Script, fake_state, set_expensive}
use condrun.Predicate.{pass, fail, and_set, evaluate}
use condrun.Predicate.Metered.{reject_expensive}
use condrun.Signal.{SignalKind}
use condrun.Signal.Fake.{FakeSignals, fake_signals, next}
use condrun.Process.{CommandSpec, Spawner, success, code}
use condrun.Process.Fake.{
  FakeChildHandle, FakeSpawner, fake_child, fake_spawner, new_child, new_spawner, wait, terminate,
  signal, spawn, with_terminate_delay,
}
use condrun.Supervisor.{Seams, SupervisorConfig, Supervisor}
use condrun.Supervisor.Exec.{Event, Flow, done, spent, await, race, Sys}
use condrun.Supervisor.Run.{
  run, run_task, after_preflight, gate, supervise, call_spawn, attend, simple_wait, after_wait,
  watch, watch_round, handle_outcome, watch_select, call_evaluate, judge, kill_child, act_on_fail,
  call_terminate, forward_signal, wait_with_escalation, map_status, leave_run,
}
use condrun.Supervisor.Codes.{kills}
use condrun.Supervisor.Meanings.{Means, run-Means}
use condrun.Supervisor.Debounce.{run-justified, justified}
use condrun.Supervisor.Gate.{gate_open}
use condrun.Supervisor.Unwatched.{run_unwatched}
use condrun.Supervisor.Latency.{TurnsBad}
use condrun.Supervisor.Inspectable.{secs}
use condrun.Supervisor.Inspectable.Watching.{millis, debounce_cfg}
use condrun.Supervisor.Inspectable.Signalled.{cfg}
use condrun.Supervisor.Trace.{error_lines, terminations, spawns, evaluations}

-- A paused tokio clock: tasks are polled when they are ready; the first arm is tried first.
abbrev paused : Runtime
paused = record { wakes = λ t. t; toss = λ n. true }

-- `SharedSpawner`: the clone of the spawner that the test keeps has the same record.
abbrev shared_spawner : Spawner FakeSpawner FakeChildHandle
shared_spawner = record { spawn = fake_spawner.spawn }

abbrev fakes : Seams
fakes = record {
  Child = FakeChildHandle;
  Source = FakeSignals;
  Launcher = FakeSpawner;
  child = fake_child;
  signals = fake_signals;
  spawner = shared_spawner;
  runtime = paused;
}

abbrev supervisor :
    SupervisorConfig → FakeChildHandle → Script → List (ℕ × SignalKind) → Supervisor fakes
supervisor config handle script arrivals = record {
  predicate_set = and_set (reject_expensive ∷ []);
  spawner = record { spawned = []; handles = handle ∷ [] };
  state = fake_state script;
  signals = record { queue = arrivals };
  config = config;
}

abbrev expensive_reason : String
expensive_reason = "current connection is expensive (Personal Hotspot or cellular)"

abbrev echo_cmd : CommandSpec
echo_cmd = record { program = "echo"; args = "hello" ∷ [] }

-- The exit code, with all that the run computes.
code_of : ℕ → Supervisor fakes → Flow ℕ
unfolding run run_task after_preflight gate supervise call_spawn attend simple_wait after_wait watch
    watch_round handle_outcome watch_select call_evaluate judge act_on_fail kill_child
    call_terminate forward_signal wait_with_escalation map_status leave_run race await select
    select_biased_three evaluate fake_state new_child with_terminate_delay success code
    set_expensive next wait terminate signal spawn
code_of fuel sup = (run fakes fuel sup echo_cmd 0).0

-- The trace of the run.
trace_of : ℕ → Supervisor fakes → List Event
unfolding run run_task after_preflight gate supervise call_spawn attend simple_wait after_wait watch
    watch_round handle_outcome watch_select call_evaluate judge act_on_fail kill_child
    call_terminate forward_signal wait_with_escalation map_status leave_run race await select
    select_biased_three evaluate fake_state new_child with_terminate_delay success code
    set_expensive next wait terminate signal spawn
trace_of fuel sup = (run fakes fuel sup echo_cmd 0).1.trace

-- The state is expensive from the start, and then from 3.5 s, 7.5 s, 11.5 s on.
abbrev metered : Script
metered = (0, set_expensive true) ∷ []

abbrev unmetered : Script
unmetered = (0, set_expensive false) ∷ []

abbrev turned_at_5 : Script
turned_at_5 = (0, set_expensive false) ∷ (secs 5, set_expensive true) ∷ []

abbrev flips : Script
flips =
    (millis 3_500, set_expensive true)
    ∷ (millis 7_500, set_expensive false)
    ∷ (millis 11_500, set_expensive true)
    ∷ []

abbrev scenario_1 : Supervisor fakes
scenario_1 = supervisor (cfg false false) (new_child 0 0) unmetered []

abbrev scenario_2 : Supervisor fakes
scenario_2 = supervisor (cfg false false) (new_child 7 0) unmetered []

abbrev scenario_3 : Supervisor fakes
scenario_3 = record (supervisor (cfg false false) (new_child 0 0) metered []) {
  spawner = new_spawner;
}

abbrev scenario_4 : Supervisor fakes
scenario_4 = record (supervisor (cfg true false) (new_child 0 0) metered []) {
  spawner = new_spawner;
}

abbrev keeps_running : Supervisor fakes
keeps_running = supervisor (cfg false false) (new_child 0 (secs 10)) turned_at_5 []

abbrev ends_with : ℕ → ℕ → Supervisor fakes → Bool
ends_with expected spawned sup =
    (elim (code_of 0 sup) [ done c ↦ c == expected | _ ↦ false ])
    && (spawns (trace_of 0 sup) == spawned)

abbrev scenario_1_happy_path : Bool
scenario_1_happy_path = ends_with 0 1 scenario_1

abbrev scenario_2_child_nonzero : Bool
scenario_2_child_nonzero = ends_with 2 1 scenario_2

abbrev scenario_3_preflight_fail_silent : Bool
scenario_3_preflight_fail_silent = ends_with 0 0 scenario_3

abbrev scenario_4_preflight_fail_strict : Bool
scenario_4_preflight_fail_strict = ends_with 1 0 scenario_4

abbrev preflight_fail_log_message : Bool
preflight_fail_log_message =
    ends_with 1 0 scenario_4 && contains (error_lines (trace_of 0 scenario_4)) "expensive"

abbrev no_kill_on_change : Bool
no_kill_on_change = ends_with 0 1 keeps_running

-- The tests of the source pass.
scenario_tests_pass :
    every (
      scenario_1_happy_path ∷ scenario_2_child_nonzero ∷ scenario_3_preflight_fail_silent
      ∷ scenario_4_preflight_fail_strict ∷ preflight_fail_log_message ∷ no_kill_on_change ∷ [])
    ≡ true
unfolding code_of trace_of
scenario_tests_pass = refl
