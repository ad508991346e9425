-- ===== src/Cli/Tests.antt =====
-- The tests of src/cli.rs and tests/cli.rs that the model reaches, and the theorems on the command
-- line at concrete arguments.
use condrun.Prelude.{ℕ, ◌*◌, ◌≡◌, ◌≢◌, refl, true, false, none, some, List, [], ◌∷◌, ◌++◌, arith}
use condrun.Async.{Result, IsRuntime}
use condrun.State.{NetworkState}
use condrun.Signal.Fake.{FakeSignals, fake_signals, next}
use condrun.Process.Fake.{FakeChildHandle, FakeSpawner, fake_child, fake_spawner, new_child}
use condrun.Predicate.{evaluate}
use condrun.Supervisor.{Seams}
use condrun.Cli.{Cli, Command, Platform, run, check, build_set, build_network_state}
use condrun.Cli.Duration
use condrun.Cli.Duration.{
  parse_duration, overflow, empty_duration, missing_number, invalid_unit, factor, value, all_digits,
  Denotes, parse_complete, parse_sound, split_number, parse_u64, in_unit, checked_mul,
}
use condrun.Cli.Dispatch.{dispatch, main, parsed}
use condrun.Cli.Explain.{explained, warned, check-explains}
use condrun.Cli.Decisions.{verdict_code, build_set_decides, main-run}

abbrev five_minutes : List ℕ
five_minutes = b'5' ∷ b'm' ∷ []

abbrev ninety : List ℕ
ninety = b'9' ∷ b'0' ∷ []

parse_duration_minutes : parse_duration five_minutes ≡ Duration.ok 300_000_000_000
unfolding parse_duration split_number parse_u64 in_unit checked_mul
parse_duration_minutes = refl

parse_duration_rejects_empty : parse_duration [] ≡ Duration.err empty_duration
unfolding parse_duration
parse_duration_rejects_empty = refl

parse_duration_rejects_no_number : parse_duration (b's' ∷ []) ≡ Duration.err missing_number
unfolding parse_duration split_number
parse_duration_rejects_no_number = refl

parse_duration_rejects_unknown_unit :
    parse_duration (b'5' ∷ b'd' ∷ []) ≡ Duration.err (invalid_unit (b'd' ∷ []))
unfolding parse_duration split_number parse_u64 in_unit
parse_duration_rejects_unknown_unit = refl

ninety-nonempty : ninety ≢ []
ninety-nonempty e = cc

parse_complete_example :
    parse_duration (ninety ++ b'm' ∷ []) ≡ Duration.ok (90 * 60 * 1_000_000_000)
parse_complete_example =
    parse_complete ninety (b'm' ∷ []) 60 ninety-nonempty refl refl (omega arith) (omega arith)

parse_sound_example :
    (ds : List ℕ) × (unit : List ℕ) × (five_minutes ≡ ds ++ unit)
    × (ds ≢ [])
    × (all_digits ds ≡ true)
    × Denotes ds unit 300_000_000_000
parse_sound_example = parse_sound five_minutes {nanos = 300_000_000_000} parse_duration_minutes

abbrev seams : Seams
seams = record {
  Child = FakeChildHandle;
  Source = FakeSignals;
  Launcher = FakeSpawner;
  child = fake_child;
  signals = fake_signals;
  spawner = fake_spawner;
  runtime = record { wakes = λ t. t; toss = λ n. true };
}

seams-IsRuntime : IsRuntime seams.runtime
seams-IsRuntime = record { wakes_late = λ t. omega arith }

abbrev launcher : FakeSpawner
launcher = record { spawned = []; handles = new_child 0 0 ∷ [] }

abbrev silence : FakeSignals
silence = record { queue = [] }

silence-quiet : fake_signals.next silence 0 ≡ none
unfolding next
silence-quiet = refl

abbrev tethered : NetworkState
tethered = record { is_expensive = λ now. true; is_low_data_mode = λ now. false }

abbrev platform : Platform
platform = record {
  test_fixture = false;
  load_fixture = λ path. Result.err "no fixture";
  real_network_state = Result.ok tethered;
}

-- `condrun --strict --reject-expensive …`
abbrev cli_of : Command → Cli
cli_of command = record {
  command = command;
  strict = true;
  no_kill_on_change = false;
  grace = 30_000_000_000;
  poll = 30_000_000_000;
  debounce = 0;
  any = false;
  reject_expensive = true;
  reject_low_data = false;
  verbose = 0;
  quiet = false;
  state_source = none;
}

abbrev check_cli : Cli
check_cli = cli_of (check true)

abbrev run_cli : Cli
run_cli = cli_of (run ("echo" ∷ "hi" ∷ []))

reads : (command : Command) → build_network_state platform (cli_of command) ≡ Result.ok tethered
unfolding build_network_state
reads command = refl

build_set_decides_example : verdict_code (evaluate (build_set check_cli) tethered 0) ≡ some (0, 1)
build_set_decides_example = build_set_decides check_cli tethered 0

main-run_example : main seams platform launcher (Result.ok silence) 0 0 (parsed run_cli) ≡ some 1
main-run_example =
    main-run seams platform launcher silence 0 0 run_cli "echo" ("hi" ∷ []) tethered seams-IsRuntime
      refl (reads (run ("echo" ∷ "hi" ∷ []))) silence-quiet refl

check-explains_example :
    (dispatch seams platform launcher (Result.ok silence) 0 check_cli 0).1
    ≡ warned check_cli ++ explained check_cli tethered 0
check-explains_example =
    check-explains seams platform launcher (Result.ok silence) 0 0 check_cli tethered refl
      (reads (check true))
