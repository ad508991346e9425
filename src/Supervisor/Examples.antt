-- ===== src/Supervisor/Examples.antt =====
-- The theorems on whole runs of the supervisor, at a child that is known by the instant of its end,
-- without signals.
use condrun.Prelude.{
  ℕ, ◌≡◌, ◌⊎◌, inl, refl, String, Bool, true, false, Option, none, some, [], ◌∷◌, arith, leb,
  if◌then◌else◌,
}
use condrun.Async.{Async, Result, ok, err, Runtime, IsRuntime, select_biased_three}
use condrun.Async.Select.{IsPrompt}
use condrun.State.Fake.{Script, fake_state, set_expensive, state_at}
use condrun.Predicate.{pass, fail, Predicate, and_set, evaluate, evaluate_and}
use condrun.Predicate.Metered.{reject_expensive}
use condrun.Signal.{SignalKind, interrupt, Signals}
use condrun.Process.{CommandSpec, ExitStatus, success}
use condrun.Supervisor.{Seams, SupervisorConfig, Supervisor}
use condrun.Supervisor.Exec.{evaluated, spawned, done, failed, Sys}
use condrun.Supervisor.Run.{run, watch_round, watch_select, break_with}
use condrun.Supervisor.Kill.{Killable, Quiet}
use condrun.Supervisor.Ending.{Launches}
use condrun.Supervisor.Exit.{exit_first}
use condrun.Supervisor.Exit.Ends.{EndsAt, PassesUntil, run_exits}
use condrun.Supervisor.Failure.{SpawnFails, KillFails, run_blames}
use condrun.Supervisor.Interrupt.{run_unspawned}
use condrun.Supervisor.Latency.{TurnsBad}
use condrun.Supervisor.Trace.{terminations}

abbrev pub ideal : Runtime
ideal = record { wakes = λ t. t; toss = λ n. true }

pub ideal-IsRuntime : IsRuntime ideal
ideal-IsRuntime = record { wakes_late = λ t. omega arith }

pub ideal-IsPrompt : IsPrompt ideal 0
ideal-IsPrompt = record { wakes_soon = λ t. omega arith }

abbrev pub exit_ok : ExitStatus
exit_ok = record { raw = 0 }

abbrev wait_end : ℕ → ℕ → Async (ExitStatus × ℕ)
wait_end end now = some (if leb now end then end else now, (exit_ok, end))

-- One signal at most, at its instant.
abbrev next_signal : Option (ℕ × SignalKind) → ℕ → Async (SignalKind × Option (ℕ × SignalKind))
next_signal none now = none
next_signal (some (t, kind)) now = some (if leb now t then t else now, (kind, none))

abbrev seams_with : (Source : Type 0) → Signals Source → Seams
seams_with Source signals = record {
  Child = ℕ;
  Source = Source;
  Launcher = Result ℕ;
  child = record {
    wait = wait_end;
    terminate = λ end grace now. some (now, (ok tt, now));
    signal = λ end kind now. some (now, (ok tt, end));
    pid = λ end. 7;
  };
  signals = signals;
  spawner = record { spawn = λ launcher cmd now. some (now, (launcher, launcher)) };
  runtime = ideal;
}

-- Without signals, and with one.
abbrev pub silent : Seams
silent = seams_with (Unit {0}) (record { next = λ s now. none })

abbrev pub signalled : Seams
signalled = seams_with (Option (ℕ × SignalKind)) (record { next = next_signal })

silent-Quiet : Quiet silent
silent-Quiet s t = refl

silent-Killable : Killable silent 30 0
silent-Killable = record {
  dies = λ c now. (now, now, exit_ok, now, now, refl, omega arith, ground arith, omega arith);
}

-- Expensive from 5 on.
abbrev pub turning : Script
turning = (5, set_expensive true) ∷ []

abbrev pub watch_config : Bool → SupervisorConfig
watch_config kill_on_change = record {
  strict = false;
  kill_on_change = kill_on_change;
  grace = 30;
  poll = 2;
  debounce = 3;
}

abbrev pub supervisor_with : Result ℕ → Bool → Supervisor silent
supervisor_with launcher kill_on_change = record {
  predicate_set = and_set (reject_expensive ∷ []);
  spawner = launcher;
  state = fake_state turning;
  signals = tt;
  config = watch_config kill_on_change;
}

abbrev pub cmd : CommandSpec
cmd = record { program = "echo"; args = "hello" ∷ [] }

abbrev pub reason : String
reason = "current connection is expensive (Personal Hotspot or cellular)"

pub reads :
    (launcher : Result ℕ) (kill_on_change : Bool) (t : ℕ)
    → evaluate
        (supervisor_with launcher kill_on_change).predicate_set
        (supervisor_with launcher kill_on_change).state
        t
      ≡ some (t, if leb 5 t then fail reason else pass)
unfolding evaluate evaluate_and fake_state state_at set_expensive
reads launcher kill_on_change t = ground arith

turning-TurnsBad : TurnsBad silent (supervisor_with (ok 600) true) 5
turning-TurnsBad = record {
  result = λ t. if leb 5 t then fail reason else pass;
  at_once = reads (ok 600) true;
  fails = λ t h. (reason, ground (arith, h));
}

launches : Launches silent (supervisor_with (ok 600) true) cmd 0
launches = record { launches = λ now. (now, 600, ok 600, refl, omega arith, omega arith) }

-- A child that exits at 4, before the network turns.
ends_early : EndsAt silent 4 exit_ok 4
ends_early = record { exits = λ now. (4, refl) }

passing_before_4 : PassesUntil silent (supervisor_with (ok 4) true) 4
passing_before_4 = record { passes = λ t h. let r = reads (ok 4) true t in ground (arith, h, r) }

run_exits_example :
    ((run silent 9 (supervisor_with (ok 4) true) cmd 0).0 ≡ done (if success exit_ok then 0 else 2))
    × (terminations (run silent 9 (supervisor_with (ok 4) true) cmd 0).1.trace ≡ 0)
run_exits_example =
    run_exits silent (supervisor_with (ok 4) true) cmd 4 9 0 0 exit_ok 4 (ok 4) ideal-IsRuntime
      silent-Quiet ends_early passing_before_4 (omega arith) (omega arith) refl (omega arith)
      (omega arith)

-- The child's exit, a signal and the poll all come at 2.
abbrev all_at_2 : Sys (Option (ℕ × SignalKind))
all_at_2 = record { now = 0; selects = 1; signals = some (2, interrupt); trace = [] }

abbrev pub signalled_supervisor : Option (ℕ × SignalKind) → Predicate → Supervisor signalled
signalled_supervisor source p = record {
  predicate_set = and_set (p ∷ []);
  spawner = ok 2;
  state = fake_state turning;
  signals = source;
  config = watch_config true;
}

selected_at_2 : (watch_select signalled 2 2 all_at_2).1.now ≡ 2
unfolding watch_select select_biased_three
selected_at_2 = refl

exit_first_example :
    watch_round signalled (signalled_supervisor none reject_expensive) none 2 all_at_2 ≡ (
      done (inl (break_with exit_ok)),
      record all_at_2 { now = (watch_select signalled 2 2 all_at_2).1.now },
    )
exit_first_example =
    exit_first signalled (signalled_supervisor none reject_expensive) none 2 2 all_at_2 2 exit_ok
      ideal-IsRuntime refl (rw selected_at_2 (omega arith))

-- A command that cannot be started.
unspawned :
    ((run silent 0 (supervisor_with (err "no such file") true) cmd 0).0 ≡ failed "no such file")
    × ((run silent 0 (supervisor_with (err "no such file") true) cmd 0).1.trace
        ≡ spawned cmd ∷ evaluated 0 pass ∷ [])
unspawned =
    run_unspawned silent 0 (supervisor_with (err "no such file") true) cmd 0 0 "no such file"
      (err "no such file") ideal-IsRuntime (reads (err "no such file") true 0) refl refl

run_blames_example :
    SpawnFails silent (err "no such file") cmd "no such file"
    ⊎ ((true ≡ true) × KillFails silent 30 "no such file")
run_blames_example =
    run_blames silent 0 (supervisor_with (err "no such file") true) cmd 0 "no such file" unspawned.0
