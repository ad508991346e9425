-- ===== src/Supervisor/Ending/Examples.antt =====
-- The theorem on a child that is killed, at one that ends only when it is terminated.
use condrun.Prelude.{
  ℕ, ◌+◌, ◌*◌, ◌≤◌, ◌≡◌, refl, true, Option, none, some, [], ◌∷◌, arith, leb, if◌then◌else◌,
}
use condrun.Async.{Async, ok}
use condrun.State.Fake.{fake_state, set_expensive, state_at}
use condrun.Predicate.{pass, fail, and_set, evaluate, evaluate_and}
use condrun.Predicate.Metered.{reject_expensive}
use condrun.Process.{ExitStatus}
use condrun.Supervisor.{Seams, Supervisor}
use condrun.Supervisor.Exec.{done}
use condrun.Supervisor.Run.{run}
use condrun.Supervisor.Trace.{terminations}
use condrun.Supervisor.Kill.{Killable, Quiet}
use condrun.Supervisor.Latency.{TurnsBad, deadline}
use condrun.Supervisor.Ending.{Launches}
use condrun.Supervisor.Ending.Kills.{Lasts, run_kills_child}
use condrun.Supervisor.Examples.{
  ideal, ideal-IsRuntime, ideal-IsPrompt, turning, watch_config, cmd, reason, exit_ok,
}

abbrev wait_killed : Option ℕ → ℕ → Async (ExitStatus × Option ℕ)
wait_killed none now = none
wait_killed (some t) now = some (if leb now t then t else now, (exit_ok, some t))

abbrev lasting : Seams
lasting = record {
  Child = Option ℕ;
  Source = Unit {0};
  Launcher = Unit {0};
  child = record {
    wait = wait_killed;
    terminate = λ end grace now. some (now, (ok tt, some now));
    signal = λ end kind now. some (now, (ok tt, end));
    pid = λ end. 7;
  };
  signals = record { next = λ s now. none };
  spawner = record { spawn = λ launcher cmd now. some (now, (ok none, tt)) };
  runtime = ideal;
}

abbrev watcher : Supervisor lasting
watcher = record {
  predicate_set = and_set (reject_expensive ∷ []);
  spawner = tt;
  state = fake_state turning;
  signals = tt;
  config = watch_config true;
}

reads_at :
    (t : ℕ)
    → evaluate watcher.predicate_set watcher.state t
      ≡ some (t, if leb 5 t then fail reason else pass)
unfolding evaluate evaluate_and fake_state state_at set_expensive
reads_at t = ground arith

watcher-TurnsBad : TurnsBad lasting watcher 5
watcher-TurnsBad = record {
  result = λ t. if leb 5 t then fail reason else pass;
  at_once = reads_at;
  fails = λ t h. (reason, ground (arith, h));
}

quiet : Quiet lasting
quiet s t = refl

killable : Killable lasting 30 0
killable = record {
  dies = λ c now.
      (now, now, exit_ok, some now, some now, refl, omega arith, ground arith, omega arith);
}

launches : Launches lasting watcher cmd 0
launches = record { launches = λ now. (now, none, tt, refl, omega arith, omega arith) }

lasts : Lasts lasting watcher cmd
lasts = record { lasts = λ now t u c rest e. ground (arith, e) }

run_kills_child_example :
    ((run lasting 13 watcher cmd 0).0 ≡ done 3)
    × (terminations (run lasting 13 watcher cmd 0).1.trace ≡ 1)
    × ((run lasting 13 watcher cmd 0).1.now ≤ deadline 5 0 (watch_config true) + 2 + 0 + 30 + 3 * 0)
run_kills_child_example =
    run_kills_child lasting watcher cmd 5 0 0 13 0 watcher-TurnsBad (omega arith) ideal-IsRuntime
      ideal-IsPrompt quiet killable launches lasts refl (reads_at 0) (omega arith) (omega arith)
