-- ===== src/Cli/Examples.antt =====
-- The theorems on errors, fixtures and real runs of src/cli.rs, at concrete systems.
use condrun.Prelude.{
  ℕ, ◌+◌, ◌≤◌, ◌<◌, ◌≡◌, refl, true, false, not, Option, none, some, List, [], ◌∷◌, ◌++◌, arith,
  leb, if◌then◌else◌,
}
use condrun.Async.{Async, Result, Runtime, IsRuntime, ok, err}
use condrun.Async.Select.{IsPrompt}
use condrun.State.{NetworkState}
use condrun.State.Fixture.{Floats, StateFixture, static, new, fixture_state}
use condrun.State.Fixture.Load.{Disk, Holds}
use condrun.Signal.Real.{Streams, RealSignals}
use condrun.Process.{CommandSpec, ExitStatus}
use condrun.Process.Tokio.{Os, OsSignal, sigkill}
use condrun.Process.Tokio.Terminate.{Dies}
use condrun.Supervisor.{Seams}
use condrun.Supervisor.Latency.{deadline}
use condrun.Cli.{Cli, Command, Platform, run, check, build_network_state, file_scheme}
use condrun.Cli.Decisions.{allowed}
use condrun.Cli.Dispatch.{main, parsed, config_of}
use condrun.Cli.Fixtures.{fixture_platform, main-check_fixture, main-unloadable}
use condrun.Cli.Real.{real_seams, Remembers, Starts}
use condrun.Cli.Real.Ends.{main-ends}

-- A process by the instant of its end: only SIGKILL ends it.
abbrev pub end_after : Option ℕ → OsSignal → ℕ → Option ℕ
end_after p sigkill now = some now
end_after p _ now = p

abbrev pub wait_end : Option ℕ → ℕ → Async (ExitStatus × Option ℕ)
wait_end none now = none
wait_end (some t) now = some (if leb t now then now else t, (record { raw = 9 }, some t))

abbrev pub system_with : Result (Option ℕ) → Os
system_with started = record {
  Proc = Option ℕ;
  wait = wait_end;
  killpg = λ p sig now. (ok tt, end_after p sig now);
  id = λ p. some 7;
  start = λ cmd now. some (now, started);
}

abbrev pub system : Os
system = system_with (ok none)

pub system-Dies : Dies system 0
system-Dies = record {
  dies = λ p now. (now, record { raw = 9 }, some now, ground arith, omega arith);
}

remembered :
    (p p' : Option ℕ) (v u t : ℕ) (status : ExitStatus)
    → wait_end p v ≡ some (u, (status, p'))
    → u ≤ t
    → wait_end p' t ≡ some (t, (status, p'))
remembered none p' v u t status e h = absurd (cc)
remembered (some x) p' v u t status e h = ground (arith, e, h)

pub system-Remembers : Remembers system
system-Remembers = record { remembers = remembered }

abbrev pub echo_hi : CommandSpec
echo_hi = record { program = "echo"; args = "hi" ∷ [] }

pub system-Starts : Starts system echo_hi 0
system-Starts = record { begins = λ now. (now, 7, none, refl, refl, omega arith, omega arith) }

abbrev pub silent_streams : Streams
silent_streams = record { Stream = Unit {0}; signal = λ kind. ok tt; recv = λ x now. none }

abbrev pub no_signals : RealSignals silent_streams
no_signals = record { int = tt; term = tt; quit = tt; hup = tt; draws = 0 }

abbrev pub ideal : Runtime
ideal = record { wakes = λ t. t; toss = λ n. true }

pub ideal-IsRuntime : IsRuntime ideal
ideal-IsRuntime = record { wakes_late = λ t. omega arith }

pub ideal-IsPrompt : IsPrompt ideal 0
ideal-IsPrompt = record { wakes_soon = λ t. omega arith }

-- Tethered from 50 on.
abbrev pub turning : NetworkState
turning = record { is_expensive = λ now. leb 50 now; is_low_data_mode = λ now. false }

abbrev pub platform : Platform
platform = record {
  test_fixture = false;
  load_fixture = λ path. err "no fixture";
  real_network_state = ok turning;
}

-- `condrun --reject-expensive …`
abbrev pub cli_of : Command → Option (List ℕ) → Cli
cli_of command state_source = record {
  command = command;
  strict = false;
  no_kill_on_change = false;
  grace = 30;
  poll = 20;
  debounce = 5;
  any = false;
  reject_expensive = true;
  reject_low_data = false;
  verbose = 0;
  quiet = false;
  state_source = state_source;
}

abbrev pub run_cli : Cli
run_cli = cli_of (run ("echo" ∷ "hi" ∷ [])) none

pub reads : build_network_state platform run_cli ≡ ok turning
unfolding build_network_state
reads = refl

pub closed_from_50 : (t : ℕ) → 50 ≤ t → allowed run_cli turning t ≡ false
closed_from_50 t h = ground (arith, h)

pub enough : deadline 50 0 (config_of run_cli) < 0 + 100
unfolding config_of
enough = omega arith

main-ends_example :
    (code : ℕ) × (main
        (real_seams system silent_streams ideal (λ n. 0))
        platform
        tt
        (ok no_signals)
        100
        0
        (parsed run_cli)
      ≡ some code)
    × (code ≤ 3)
main-ends_example =
    main-ends system silent_streams ideal (λ n. 0) platform run_cli "echo" ("hi" ∷ []) turning
      no_signals 50 0 0 0 100 0 ideal-IsRuntime ideal-IsPrompt system-Dies system-Remembers
      system-Starts (λ x t. refl) (omega arith) refl refl (omega arith) reads closed_from_50
      (omega arith) enough

-- Over fakes: a spawner that knows no program.
abbrev pub stuck : Seams
stuck = record {
  Child = Unit {0};
  Source = Unit {0};
  Launcher = Unit {0};
  child = record {
    wait = λ c now. none;
    terminate = λ c grace now. none;
    signal = λ c kind now. none;
    pid = λ c. 7;
  };
  signals = record { next = λ s now. none };
  spawner = record { spawn = λ p cmd now. some (now, (err "not found", tt)) };
  runtime = ideal;
}

-- One file, with a name of one byte, that has a static fixture in it.
abbrev seconds : Floats
seconds = record { F64 = ℕ; le = leb; gt = λ a b. not (leb a b); as_secs_f64 = λ nanos. nanos }

abbrev tethered : StateFixture seconds
tethered = static (record { expensive = true; low_data = false })

abbrev read_file : List ℕ → Result (List ℕ)
read_file (b ∷ []) = ok (b'{' ∷ [])
read_file _ = err "No such file or directory (os error 2)"

abbrev disk : Disk seconds
disk = record { read_to_string = read_file; from_str = λ text. ok tethered; display = λ path. "…" }

abbrev check_cli : List ℕ → Cli
check_cli path = cli_of (check false) (some (file_scheme ++ path))

holds : Holds seconds disk (b'a' ∷ []) tethered
holds = (b'{' ∷ [], refl, refl)

main-check_fixture_example :
    main stuck
      (fixture_platform seconds disk (ok turning) 3)
      tt
      (ok tt)
      0
      3
      (parsed (check_cli (b'a' ∷ [])))
    ≡ some (
        if allowed (check_cli (b'a' ∷ [])) (fixture_state seconds (new seconds tethered 3)) 3
        then 0
        else 1)
main-check_fixture_example =
    main-check_fixture seconds disk stuck (ok turning) tt (ok tt) 0 3 (check_cli (b'a' ∷ [])) false
      (b'a' ∷ []) tethered refl refl holds

missing : (fixture : StateFixture seconds) → Holds seconds disk [] fixture → ⊥
missing fixture (text, r, p) = cc

main-unloadable_example :
    main stuck (fixture_platform seconds disk (ok turning) 3) tt (ok tt) 0 3 (parsed (check_cli []))
    ≡ some 4
main-unloadable_example =
    main-unloadable seconds disk stuck (ok turning) tt (ok tt) 0 3 (check_cli []) [] refl missing
