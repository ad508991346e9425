-- ===== src/Supervisor/Scenarios/Theorems.antt =====
-- The theorems on src/supervisor.rs, at runs of the fakes.
use condrun.Prelude.{false, ℕ, ◌<◌, ◌≡◌, refl, true, false, some, [], arith}
use condrun.Async.{IsRuntime}
use condrun.Predicate.{pass, evaluate}
use condrun.Signal.Fake.{fake_signals}
use condrun.Process.Fake.{fake_child, fake_spawner, new_child}
use condrun.Supervisor.{Supervisor}
use condrun.Supervisor.Exec.{done}
use condrun.Supervisor.Run.{run}
use condrun.Supervisor.Codes.{kills}
use condrun.Supervisor.Meanings.{Means, run-Means}
use condrun.Supervisor.Debounce.{run-justified, justified}
use condrun.Supervisor.Gate.{gate_open}
use condrun.Supervisor.Inspectable.{secs}
use condrun.Supervisor.Inspectable.Watching.{debounce_cfg}
use condrun.Supervisor.Inspectable.Signalled.{cfg}
use condrun.Supervisor.Trace.{terminations, spawns}
use condrun.Supervisor.Reaped.Codes.{Cared, run_reaps}
use condrun.Supervisor.Scenarios.{
  paused, fakes, supervisor, echo_cmd, metered, flips, scenario_2, code_of,
}

abbrev flip_supervisor : Supervisor fakes
flip_supervisor = supervisor (debounce_cfg 0 (secs 2)) (new_child 0 (secs 600)) flips []

abbrev metered_supervisor : Supervisor fakes
metered_supervisor =
    supervisor (debounce_cfg (secs 10) (secs 2)) (new_child 0 (secs 600)) metered []

abbrev strict_supervisor : Supervisor fakes
strict_supervisor = supervisor (cfg true false) (new_child 0 0) metered []

flip_code : (run fakes 9 flip_supervisor echo_cmd 0).0 ≡ done 3
unfolding code_of
flip_code = refl

flip_spawns : 0 < spawns (run fakes 9 flip_supervisor echo_cmd 0).1.trace
unfolding code_of
flip_spawns = omega arith

paused-IsRuntime : IsRuntime paused
paused-IsRuntime = record { wakes_late = λ t. omega arith }

run-justified_example :
    justified (secs 10) (run fakes 20 metered_supervisor echo_cmd 0).1.trace ≡ true
run-justified_example = run-justified fakes 20 metered_supervisor echo_cmd 0

gate_open_example :
    (t : ℕ) × (evaluate flip_supervisor.predicate_set flip_supervisor.state 0 ≡ some (t, pass))
    × (spawns (run fakes 9 flip_supervisor echo_cmd 0).1.trace ≡ 1)
gate_open_example = gate_open fakes 9 flip_supervisor echo_cmd 0 paused-IsRuntime flip_spawns

failing_code : (run fakes 0 scenario_2 echo_cmd 0).0 ≡ done 2
unfolding code_of
failing_code = refl

failing_spawns : 0 < spawns (run fakes 0 scenario_2 echo_cmd 0).1.trace
unfolding code_of
failing_spawns = omega arith

run-Means_example :
    (terminations (run fakes 0 scenario_2 echo_cmd 0).1.trace ≡ kills 2)
    × Means false (run fakes 0 scenario_2 echo_cmd 0).1.trace 2
run-Means_example = run-Means fakes 0 scenario_2 echo_cmd 0 2 failing_code

run_reaps_example : Cared fakes scenario_2 echo_cmd 2 (run fakes 0 scenario_2 echo_cmd 0).1
run_reaps_example = run_reaps fakes 0 scenario_2 echo_cmd 0 2 failing_code failing_spawns
