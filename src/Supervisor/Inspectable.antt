-- ===== src/Supervisor/Inspectable.antt =====
-- The inspectable child and the one-shot spawner of the tests in src/supervisor.rs, and the scenarios
-- of the watcher and of signals that these tests run on them, with an ideal runtime.
pub mod Watching
pub mod Signalled
mod Asserted
use condrun.Prelude.{
  ℕ, ◌+◌, ◌*◌, ◌%◌, ◌^◌, ◌≡◌, refl, Bool, true, false, Option, none, some, List, [], ◌∷◌, leb,
  if◌then◌else◌, String,
}
use condrun.Async.{Async, Result, ok, select, select_biased_three}
use condrun.State.Fake.{Script, fake_state, set_expensive}
use condrun.Predicate.{pass, fail, and_set, evaluate}
use condrun.Predicate.Metered.{reject_expensive}
use condrun.Signal.{SignalKind, interrupt}
use condrun.Signal.Fake.{FakeSignals, fake_signals, next}
use condrun.Process.{CommandSpec, ExitStatus, ChildHandle, Spawner, success, code}
use condrun.Supervisor.{Seams, SupervisorConfig, Supervisor}
use condrun.Supervisor.Exec.{
  info, flipped, forwarding, evaluated, spawned, forwarded, terminated, logged, done, await, race,
}
use condrun.Supervisor.Run.{
  run, run_task, after_preflight, gate, supervise, call_spawn, attend, simple_wait, after_wait,
  watch, watch_round, handle_outcome, watch_select, call_evaluate, judge, kill_child, act_on_fail,
  as_millis, call_terminate, forward_signal, wait_with_escalation, map_status, leave_run,
}

pub record InspectState : Type 0 where
  pub terminated : Bool
  pub killed : Bool
  pub last_signal : Option SignalKind
  pub exited : Bool

pub record InspectableHandle : Type 0 where
  pub exit_code : ℕ
  pub exit_delay : ℕ
  pub terminate_delay : ℕ
  pub state : InspectState

abbrev pub new : ℕ → ℕ → InspectableHandle
new exit_code exit_delay = record {
  exit_code = exit_code;
  exit_delay = exit_delay;
  terminate_delay = 0;
  state = record { terminated = false; killed = false; last_signal = none; exited = false };
}

abbrev pub with_terminate_delay : ℕ → InspectableHandle → InspectableHandle
with_terminate_delay d h = record h { terminate_delay = d }

abbrev make_status : ℕ → ExitStatus
make_status code = record { raw = code * 256 % 2 ^ 32 }

abbrev set_exited : InspectableHandle → InspectableHandle
set_exited h = let s = h.state in record h { state = record s { exited = true } }

abbrev pub wait : InspectableHandle → ℕ → Async (ExitStatus × InspectableHandle)
wait h now =
    if h.state.exited
    then some (now, (make_status h.exit_code, h))
    else some (now + h.exit_delay, (make_status h.exit_code, set_exited h))

abbrev pub terminate : InspectableHandle → ℕ → ℕ → Async (Result (Unit {0}) × InspectableHandle)
terminate h grace now =
    let s = h.state in
    let asked : InspectableHandle = record h { state = record s { terminated = true } } in
    let s' = asked.state in
    if leb h.terminate_delay grace
    then some (now + h.terminate_delay, (ok tt, set_exited asked))
    else some
        (now + grace, (ok tt, set_exited (record asked { state = record s' { killed = true } })))

abbrev pub signal :
    InspectableHandle → SignalKind → ℕ → Async (Result (Unit {0}) × InspectableHandle)
signal h kind now =
    let s = h.state in
    some (now, (ok tt, record h { state = record s { last_signal = some kind } }))

abbrev inspectable : ChildHandle InspectableHandle
inspectable = record { wait = wait; terminate = terminate; signal = signal; pid = λ h. 12_345 }

-- `OneShotSpawner`: its second `spawn` panics, so it never returns.
abbrev spawn :
    Option InspectableHandle
    → CommandSpec
    → ℕ
    → Async (Result InspectableHandle × Option InspectableHandle)
spawn none cmd now = none
spawn (some h) cmd now = some (now, (ok h, none))

abbrev one_shot : Spawner (Option InspectableHandle) InspectableHandle
one_shot = record { spawn = spawn }

abbrev pub seams : Seams
seams = record {
  Child = InspectableHandle;
  Source = FakeSignals;
  Launcher = Option InspectableHandle;
  child = inspectable;
  signals = fake_signals;
  spawner = one_shot;
  runtime = record { wakes = λ t. t; toss = λ n. true };
}

abbrev pub secs : ℕ → ℕ
secs n = n * 1_000_000_000

abbrev pub watcher_cfg : ℕ → ℕ → SupervisorConfig
watcher_cfg grace poll = record {
  strict = false;
  kill_on_change = true;
  grace = grace;
  poll = poll;
  debounce = 0;
}

abbrev pub supervisor :
    SupervisorConfig → InspectableHandle → Script → List (ℕ × SignalKind) → Supervisor seams
supervisor config handle script arrivals = record {
  predicate_set = and_set (reject_expensive ∷ []);
  spawner = some handle;
  state = fake_state script;
  signals = record { queue = arrivals };
  config = config;
}

-- The test flips the state at 3 s.
abbrev flip : Script
flip = (0, set_expensive false) ∷ (secs 3, set_expensive true) ∷ []

abbrev pub scenario_5 : Supervisor seams
scenario_5 = supervisor (watcher_cfg (secs 5) (secs 2)) (new 0 (secs 60)) flip []

abbrev pub scenario_6 : Supervisor seams
scenario_6 =
    supervisor (watcher_cfg (secs 2) (secs 2)) (with_terminate_delay (secs 10) (new 0 (secs 600)))
      flip []

-- A signal at 10 ms.
abbrev pub no_escalation : Supervisor seams
no_escalation =
    supervisor (watcher_cfg (secs 2) (secs 5)) (with_terminate_delay (secs 3) (new 0 (secs 30)))
      ((0, set_expensive false) ∷ []) ((10_000_000, interrupt) ∷ [])

abbrev pub cmd : CommandSpec
cmd = record { program = "echo"; args = "hello" ∷ [] }

abbrev reason : String
reason = "current connection is expensive (Personal Hotspot or cellular)"

-- The poll at 4 s sees the flip, and the child exits on SIGTERM at once.
scenario_5_kill_on_change : run seams 9 scenario_5 cmd 0 ≡ (
  done 3,
  record {
    now = secs 4;
    selects = 1;
    signals = record { queue = [] };
    trace =
        terminated (secs 5)
        ∷ logged info (flipped reason 0 0)
        ∷ evaluated (secs 4) (fail reason)
        ∷ evaluated (secs 2) pass
        ∷ spawned cmd
        ∷ evaluated 0 pass
        ∷ [];
  },
)
unfolding run run_task after_preflight gate supervise call_spawn attend simple_wait after_wait watch
    watch_round handle_outcome watch_select call_evaluate judge act_on_fail as_millis kill_child
    call_terminate forward_signal wait_with_escalation map_status leave_run race await select
    select_biased_three evaluate fake_state success code set_expensive next
scenario_5_kill_on_change = refl

-- The child outlives the grace of 2 s, so `terminate` lasts until 6 s.
scenario_6_sigterm_ignored_then_sigkill :
    ((run seams 9 scenario_6 cmd 0).0 ≡ done 3) × ((run seams 9 scenario_6 cmd 0).1.now ≡ secs 6)
unfolding run run_task after_preflight gate supervise call_spawn attend simple_wait after_wait watch
    watch_round handle_outcome watch_select call_evaluate judge act_on_fail as_millis kill_child
    call_terminate forward_signal wait_with_escalation map_status leave_run race await select
    select_biased_three evaluate fake_state success code set_expensive next
scenario_6_sigterm_ignored_then_sigkill = (refl, refl)

killed_at_the_end_of_grace :
    terminate (with_terminate_delay (secs 10) (new 0 (secs 600))) (secs 2) (secs 4)
    ≡ some (
      secs 6,
      (
        ok tt,
        record {
          exit_code = 0;
          exit_delay = secs 600;
          terminate_delay = secs 10;
          state = record { terminated = true; killed = true; last_signal = none; exited = true };
        },
      ),
    )
killed_at_the_end_of_grace = refl

-- One signal is forwarded and nothing is terminated.
signal_no_escalation : run seams 9 no_escalation cmd 0 ≡ (
  done 0,
  record {
    now = 30_010_000_000;
    selects = 2;
    signals = record { queue = [] };
    trace =
        forwarded interrupt
        ∷ logged info (forwarding interrupt)
        ∷ spawned cmd
        ∷ evaluated 0 pass
        ∷ [];
  },
)
unfolding run run_task after_preflight gate supervise call_spawn attend simple_wait after_wait watch
    watch_round handle_outcome watch_select call_evaluate judge act_on_fail as_millis kill_child
    call_terminate forward_signal wait_with_escalation map_status leave_run race await select
    select_biased_three evaluate fake_state success code set_expensive next
signal_no_escalation = refl
