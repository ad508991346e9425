-- ===== src/Lib.antt =====
-- condrun: a command runner that starts a child only while predicates on the network hold, watches
-- them while the child runs, and kills it when they fail for long enough.
--
-- The program is one process with one task. `main` (main.rs) parses the command line and hands it
-- to `dispatch` (cli.rs), which builds the predicates (predicate/), the state of the network that
-- they read (state/), a source of signals (signal/) and a spawner of children (process/), and runs
-- `Supervisor::run` (supervisor.rs) on them. The parts behind the traits `NetworkState`,
-- `Signals`, `Spawner` and `ChildHandle` are interchangeable: the supervisor here is generic in
-- them (`Seams`), and the tests run it on the fakes. All paths are of the repository's directory
-- src/.
--
-- - Async: futures, `select!` and `sleep`. A future is the instant at which it resolves with its
--   value, or none if it never does; instants and durations are nanoseconds as native numbers. The
--   runtime polls a task at some instant after it is ready, and draws the order of the arms of an
--   unbiased `select!`; both are parameters. `IsRuntime` says that no task is polled before it is
--   ready, `IsPrompt` that it is polled at most so much later; the theorems that need this have it
--   as a hypothesis.
-- - Predicate, Predicate.Metered (predicate/mod.rs, predicate/metered.rs): `PredicateSet` with
--   `evaluate` and its short circuits. Predicate.Sets has its theorems, and Predicate.Order the
--   set without the order of its predicates, a quotient by permutation.
-- - State, State.Fake, State.Fixture (state/mod.rs, state/fake.rs, state/fixture.rs): a state is
--   what each reading gives at its instant. `f64` is a parameter of the fixture, whose lookup by
--   time is in State.Fixture.Lookup; the loaders are in State.Fixture.Load, over the file system
--   and serde_json as parameters. State.MacOs (state/macos.rs) has the cached snapshot, its update
--   handler, and the order of the calls of the frameworks, whose answers are a parameter.
--   State.MacOs.Memory has the reference counts of the `Arc`, the block and the objects of the
--   frameworks as a relation of steps that the code and the frameworks take in any order; what the
--   frameworks may do is the rules `enqueues`, `calls` and `lets_go`, by their documentation.
--   Owners counts what the code owns, Safety has the theorems, and Readings relates the memory to
--   the snapshot.
-- - Signal, Signal.Fake, Signal.Real (signal/mod.rs, signal/fake.rs, signal/real.rs): sources of
--   signals; the streams of tokio are a parameter. Signal.Fake.Queue is about the order of the
--   fake whose signals come at given instants; Signal.Fake.Shared has the loop of its `next` and
--   the two halves of `inject` as steps that come in any order, with one clone at a time inside
--   `next`, over tokio's `Notify` as a parameter, with Wakeups on what is lost and Timed on how the
--   two agree. Signal.Real.Takes and Resolves are about the race of the streams.
-- - Process, Process.Fake, Process.Tokio (process/mod.rs, process/fake.rs, process/tokio.rs):
--   commands, statuses, child handles. The child of the operating system is a parameter of
--   Process.Tokio, and Process.Tokio.Terminate is about SIGTERM, the grace and SIGKILL; Touched
--   says what the methods do to the process. Process.Tokio.Programs is a system with the programs
--   that the tests start. Process.Fake.Queue is about the handles that the fake spawner hands out.
-- - Supervisor (supervisor.rs): `Exec` is the monad of the task (clock, signals, trace of the
--   calls and log lines), `Run` has one action for each part of `Supervisor::run` and
--   `wait_with_escalation`. Post, Loop, TraceLoop, Trace and Rounds carry the lemmas on actions,
--   on the loop, on the trace and on one round. Codes, Meanings, Debounce, Gate, Unwatched,
--   Failure and Reaped, with Runs and Codes on the child's end, are about every run; Interrupt,
--   with Told and Preflight, about runs that start while a signal is there; Latency, Kill, Ending
--   and Ending.Kills about runs whose predicates turn bad for good, Exit about a child that exits
--   by itself. Watchdog is what the debounce promises without the loop; Watchdog.Refines, Flips
--   and Causes relate the runs to it, Span and Verdicts say which polls bound an overdue row and
--   what they saw, and Clock and Watchdog.Order are about the order of time, for futures that do
--   not resolve before they are started (`IsCausal`). Scenarios and
--   Inspectable, with its modules Watching, Signalled and Asserted, are the tests of the source as
--   runs; Examples has the theorems at concrete runs.
-- - Cli (cli.rs, main.rs): the parsed flags, `parse_duration` (Cli.Duration), `dispatch` and
--   `main` (Cli.Dispatch), what the flags decide (Cli.Decisions), what `check` prints
--   (Cli.Explain), exit code 4 (Cli.Errors), the state of macOS (Cli.MacOs), the `test-fixture`
--   build down to the file (Cli.Fixtures), and the supervisor on the operating system that
--   `dispatch` makes (Cli.Real), from the flags down to the processes and the streams of signals:
--   Causal is about the order of time there, Ends, Kills, Causes, Reaps and Errors about runs
--   that end.
--   Cli.EndToEnd has the tests of tests/cli.rs as runs of `main`.
--
-- The modules called Tests (but those of Cli, Predicate, Process, Signal and State, which have the
-- theorems at concrete inputs), Predicate.Cases, Supervisor.Scenarios, Inspectable.Asserted and
-- Cli.EndToEnd.Scenarios have the source's tests, each as the Boolean that its assertions make.
--
-- Errors of `anyhow` are their messages, and an action that fails ends with `failed`. The watcher
-- loop runs on fuel, a number of rounds, and is `spent` where it ends; nothing else needs fuel. A
-- round lasts at least as long as `poll` unless it leaves the loop, so a bound on the time is one
-- on the fuel. Numbers do not wrap, but for the status word of the fake child, the 64 bits of
-- `parse_duration` and the milliseconds that the supervisor logs (`as_millis`); that tokio caps a
-- sleep at some tens of years is not modelled.
--
-- Not modelled: several clones of the fake signals inside `next` at once, an error of the system
-- call behind the `wait` of a child, at which the code panics, the parsing of flags (clap), the
-- causes below the outermost message of an error, the JSON parser, what the system does with a
-- command that is set up, and the set-up of the log. Readings of the network take no time: every
-- implementation answers after locking a mutex. The state is built before `dispatch` begins, whose
-- instant `now` is the one at which it is there.
pub mod Prelude
pub mod Async
pub mod State
pub mod Predicate
pub mod Signal
pub mod Process
pub mod Supervisor
pub mod Cli
