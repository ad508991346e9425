-- ===== src/Cli/Dispatch.antt =====
-- `dispatch` of src/cli.rs and `main` of src/main.rs: from the parsed command line to the exit code.
use condrun.Prelude.{
  ℕ, Bool, true, false, not, ◌&&◌, Option, none, some, String, List, [], ◌∷◌, ltb, if◌then◌else◌,
}
use condrun.Async.{Async, Result, ok, err}
use condrun.State.{NetworkState}
use condrun.Predicate.{Predicate, PredicateResult, pass, fail, evaluate}
use condrun.Process.{CommandSpec}
use condrun.Supervisor.{Seams, Supervisor, SupervisorConfig}
use condrun.Supervisor.Exec.{Flow, done, failed, pending, spent}
use condrun.Supervisor.Run
use condrun.Cli.{
  Cli, Command, Platform, run, check, build_predicates, build_set, build_network_state,
}

-- What the program prints, and the one warning of its log.
pub data Line : Type 0 where
  pass_line : String → Line
  fail_line : String → String → Line
  failed_line : String → Line
  debounce_ignored : Line

abbrev line_of : Predicate → PredicateResult → Line
line_of p pass = pass_line p.name
line_of p (fail reason) = fail_line p.name reason

-- The loop of `check --explain`: a line for each predicate, and the instant behind the last.
unfoldable pub explain_each : List Predicate → NetworkState → ℕ → Async (List Line)
explain_each [] state now = some (now, [])
explain_each (p ∷ ps) state now = elim (p.evaluate state now) [
  | none ↦ none
  | some (t, r) ↦ elim (explain_each ps state t) [
    | none ↦ none
    | some (u, lines) ↦ some (u, line_of p r ∷ lines)
  ]
]

abbrev pub check_code : PredicateResult → ℕ
check_code pass = 0
check_code (fail reason) = 1

abbrev failure_lines : PredicateResult → List Line
failure_lines pass = []
failure_lines (fail reason) = failed_line reason ∷ []

-- The arm of `Command::Check`, past the building of the state; the lines in their order.
unfoldable pub run_check : Cli → Bool → NetworkState → ℕ → Async (ℕ × List Line)
run_check cli false state now = elim (evaluate (build_set cli) state now) [
  | none ↦ none
  | some (t, r) ↦ some (t, (check_code r, failure_lines r))
]
run_check cli true state now = elim (explain_each (build_predicates cli) state now) [
  | none ↦ none
  | some (t, lines) ↦ elim (evaluate (build_set cli) state t) [
    | none ↦ none
    | some (u, r) ↦ some (u, (check_code r, lines))
  ]
]

-- How `dispatch` ends: it may also wait for ever, and `out_of_rounds` is a watcher loop whose fuel ended.
pub data Outcome : Type 0 where
  exit_code : ℕ → Outcome
  error : String → Outcome
  waits out_of_rounds : Outcome

abbrev pub of_flow : Flow ℕ → Outcome
of_flow (done code) = exit_code code
of_flow (failed e) = error e
of_flow pending = waits
of_flow spent = out_of_rounds

abbrev pub of_check : Async (ℕ × List Line) → Outcome × List Line
of_check none = (waits, [])
of_check (some (t, (code, lines))) = (exit_code code, lines)

-- `--debounce is ignored when --no-kill-on-change is set`
unfoldable pub warns : Cli → Bool
warns cli = cli.no_kill_on_change && ltb 0 cli.debounce

unfoldable pub config_of : Cli → SupervisorConfig
config_of cli = record {
  strict = cli.strict;
  kill_on_change = not cli.no_kill_on_change;
  grace = cli.grace;
  poll = cli.poll;
  debounce = cli.debounce;
}

module _ (w : Seams) (platform : Platform) (launcher : w.Launcher) (installed : Result w.Source)
    (fuel : ℕ) (cli : Cli) (now : ℕ) where
  -- The supervisor, once its state and its source of signals (`RealSignals::new()`) are there.
  unfoldable pub supervisor_of : NetworkState → w.Source → Supervisor w
  supervisor_of state source = record {
    predicate_set = build_set cli;
    spawner = launcher;
    state = state;
    signals = source;
    config = config_of cli;
  }

  abbrev with_signals : CommandSpec → NetworkState → Result w.Source → Outcome × List Line
  with_signals spec state (err e) = (error e, [])
  with_signals spec state (ok source) =
      (of_flow (Run.run w fuel (supervisor_of state source) spec now).0, [])

  abbrev run_with : CommandSpec → Result NetworkState → Outcome × List Line
  run_with spec (err e) = (error e, [])
  run_with spec (ok state) = with_signals spec state installed

  abbrev check_with : Bool → Result NetworkState → Outcome × List Line
  check_with explain (err e) = (error e, [])
  check_with explain (ok state) = of_check (run_check cli explain state now)

  abbrev dispatch_command : Command → Outcome × List Line
  dispatch_command (run []) =
      (error "missing command — pass it after `--`, e.g. `condrun run -- echo hi`", [])
  dispatch_command (run (program ∷ args)) =
      run_with (record { program = program; args = args }) (build_network_state platform cli)
  dispatch_command (check explain) = check_with explain (build_network_state platform cli)

  unfoldable pub dispatch : Outcome × List Line
  unfolding supervisor_of warns
  dispatch =
      let (outcome, lines) = dispatch_command cli.command in
      (outcome, if warns cli then debounce_ignored ∷ lines else lines)

-- The kinds of clap's errors that `main` tells apart.
pub data ErrorKind : Type 0 where
  display_help display_version display_help_on_missing_argument_or_subcommand other : ErrorKind

unfoldable pub parse_exit : ErrorKind → ℕ
parse_exit display_help = 0
parse_exit display_version = 0
parse_exit display_help_on_missing_argument_or_subcommand = 0
parse_exit other = 4

-- The end of `main`: the code of the process, if it ends.
unfoldable pub main_exit : Outcome → Option ℕ
main_exit (exit_code code) = some code
main_exit (error e) = some 4
main_exit waits = none
main_exit out_of_rounds = none

-- What `Cli::try_parse` returns.
pub data TryParse : Type 0 where
  parsed : Cli → TryParse
  refused : ErrorKind → TryParse

unfoldable pub main :
    (w : Seams) → Platform → w.Launcher → Result w.Source → ℕ → ℕ → TryParse → Option ℕ
unfolding main_exit parse_exit
main w platform launcher installed fuel now (parsed cli) =
    main_exit (dispatch w platform launcher installed fuel cli now).0
main w platform launcher installed fuel now (refused kind) = some (parse_exit kind)
