-- ===== src/Cli/EndToEnd.antt =====
-- What the tests of tests/cli.rs run: `main` on an operating system with the programs that the tests
-- start, each doing what its test says of it, and on the fixture that serde_json reads in the test's
-- file. The runtime is ideal, and the fixture has whole seconds in place of `f64`.
mod Scenarios
use Prim.Native.String
use condrun.Prelude.{
  ℕ, ◌+◌, ◌*◌, ◌/◌, ◌≡◌, refl, String, Bool, true, false, not, ◌&&◌, ◌||◌, Option, none, some, List,
  [], ◌∷◌, ◌++◌, ◌==◌, leb, ltb, same, contains, codes, every, if◌then◌else◌,
}
use condrun.Async.{Async, Result, Runtime, ok, err, select, select_biased, select_biased_three}
use condrun.State.Fixture.{
  Floats, NetworkSnapshot, TimedSnapshot, StateFixture, static, sequence, new, fixture_state,
}
use condrun.State.Fixture.Load.{Disk, load_from_path}
use condrun.Predicate.{evaluate, evaluate_and}
use condrun.Signal.Real.{Streams, RealSignals, next, select_from}
use condrun.Process.{CommandSpec, ExitStatus, success, code}
use condrun.Process.Tokio.Programs.{system}
use condrun.Process.Tokio.{
  Os, OsCommand, OsSignal, sigterm, sigkill, spawn, terminate, kill_group, wait, signal, command_of,
}
use condrun.Supervisor.Exec.{Event, await, race}
use condrun.Supervisor.Trace.{spawns, error_lines}
use condrun.Cli.Real.Causes.{run_trace}
use condrun.Supervisor.Run.{
  run, run_task, after_preflight, gate, supervise, call_spawn, attend, simple_wait, after_wait,
  watch, watch_round, handle_outcome, watch_select, call_evaluate, judge, kill_child, act_on_fail,
  call_terminate, forward_signal, wait_with_escalation, map_status, leave_run,
}
use condrun.Cli.{
  Cli, Command, check, build_network_state, build_set, build_predicates, strip_prefix, file_scheme,
}
use condrun.Cli
use condrun.Cli.Dispatch.{
  Line, pass_line, fail_line, failed_line, debounce_ignored, TryParse, parsed, refused, other, main,
  main_exit, parse_exit, dispatch, run_check, explain_each, supervisor_of, config_of, warns,
}
use condrun.Cli.Fixtures.{fixture_platform, load_fixture}
use condrun.Cli.Real.{real_seams}

abbrev pub secs : ℕ → ℕ
secs n = n * 1_000_000_000

abbrev no_streams : Streams
no_streams = record { Stream = Unit {0}; signal = λ kind. ok tt; recv = λ x now. none }

abbrev no_signals : RealSignals no_streams
no_signals = record { int = tt; term = tt; quit = tt; hup = tt; draws = 0 }

abbrev ideal : Runtime
ideal = record { wakes = λ t. t; toss = λ n. true }

abbrev pub seconds : Floats
seconds = record {
  F64 = ℕ;
  le = leb;
  gt = λ a b. ltb b a;
  as_secs_f64 = λ nanos. nanos / 1_000_000_000;
}

-- `write_fixture`: the file at the path `f`, and what serde_json reads in it.
abbrev read_file : List ℕ → Result (List ℕ)
read_file (b ∷ []) = if b == b'f' then ok [] else err "No such file or directory (os error 2)"
read_file _ = err "No such file or directory (os error 2)"

abbrev write_fixture : StateFixture seconds → Disk seconds
write_fixture fixture = record {
  read_to_string = read_file;
  from_str = λ text. ok fixture;
  display = λ path. "…";
}

abbrev pub static_of : Bool → Bool → StateFixture seconds
static_of expensive low_data = static (record { expensive = expensive; low_data = low_data })

abbrev pub entry : ℕ → Bool → TimedSnapshot seconds
entry at_secs expensive = record {
  at_secs = at_secs;
  state = record { expensive = expensive; low_data = false };
}

-- `file_url`
abbrev file_url : List ℕ
file_url = file_scheme ++ b'f' ∷ []

-- `--state-source file:… <command>`, the other flags with their defaults.
abbrev pub defaults : Command → Cli
defaults command = record {
  command = command;
  strict = false;
  no_kill_on_change = false;
  grace = secs 30;
  poll = secs 30;
  debounce = 0;
  any = false;
  reject_expensive = false;
  reject_low_data = false;
  verbose = 0;
  quiet = false;
  state_source = some file_url;
}

-- … with `--reject-expensive`
abbrev pub rejecting : Command → Cli
rejecting command = record (defaults command) { reject_expensive = true }

-- The process of the binary, with twenty rounds of the watcher.
pub exit_of : StateFixture seconds → TryParse → Option ℕ
unfolding main dispatch main_exit parse_exit warns supervisor_of config_of build_network_state
    build_set build_predicates strip_prefix load_fixture load_from_path fixture_state run_check
    explain_each run run_task after_preflight gate supervise call_spawn attend simple_wait
    after_wait watch watch_round handle_outcome watch_select call_evaluate judge act_on_fail
    kill_child call_terminate forward_signal wait_with_escalation map_status leave_run race await
    select select_biased select_biased_three evaluate evaluate_and spawn terminate kill_group wait
    signal command_of next select_from success code
exit_of fixture args =
    main (real_seams system no_streams ideal (λ n. 0))
      (fixture_platform seconds (write_fixture fixture) (err "no network") 0) tt (ok no_signals) 20
      0 args

-- `.assert().code(expected)`
abbrev pub code_is : ℕ → StateFixture seconds → TryParse → Bool
code_is expected fixture args = elim (exit_of fixture args) [
  | none ↦ false
  | some c ↦ c == expected
]

-- What the run of a command leaves in the trace.
pub trace_of : StateFixture seconds → Cli → CommandSpec → List Event
unfolding exit_of
trace_of fixture cli cmd =
    run_trace system no_streams ideal (λ n. 0)
      (fixture_platform seconds (write_fixture fixture) (err "no network") 0) cli
      (fixture_state seconds (new seconds fixture 0)) no_signals 20 0 cmd

-- What `println!` writes.
abbrev pub stdout_of : List Line → String
stdout_of [] = ""
stdout_of (pass_line name ∷ lines) =
    String.◌++◌ "PASS: " (String.◌++◌ name (String.◌++◌ "\n" (stdout_of lines)))
stdout_of (fail_line name reason ∷ lines) =
    String.◌++◌ "FAIL: " (
      String.◌++◌ name
        (String.◌++◌ " — " (String.◌++◌ reason (String.◌++◌ "\n" (stdout_of lines)))))
stdout_of (_ ∷ lines) = stdout_of lines

-- The lines that the process prints.
pub lines_of : StateFixture seconds → Cli → List Line
unfolding exit_of
lines_of fixture cli =
    (dispatch (real_seams system no_streams ideal (λ n. 0))
      (fixture_platform seconds (write_fixture fixture) (err "no network") 0) tt (ok no_signals) 20
      cli 0).1
