-- ===== src/Cli/Real/Examples.antt =====
-- The theorem on exit code 3 of src/cli.rs at a process whose network turns bad.
use condrun.Prelude.{ℕ, ◌≤◌, ◌<◌, ◌≡◌, ◌⊎◌, refl, true, Option, some, none, [], ◌∷◌, arith}
use condrun.Async.{ok, err, select, select_biased, select_biased_three}
use condrun.Process.{ExitStatus, success, code}
use condrun.Process.Tokio.{spawn, terminate, kill_group, wait, signal, command_of}
use condrun.Signal.Real.{next, select_from}
use condrun.Predicate.{evaluate, evaluate_and}
use condrun.Supervisor.Exec.{await, race}
use condrun.Supervisor.Run.{
  run, run_task, after_preflight, gate, supervise, call_spawn, attend, simple_wait, after_wait,
  watch, watch_round, handle_outcome, watch_select, call_evaluate, judge, kill_child, act_on_fail,
  call_terminate, forward_signal, wait_with_escalation, map_status, leave_run,
}
use condrun.Supervisor.Watchdog.Causes.{has_escalation}
use condrun.Cli.{build_network_state, build_set, build_predicates}
use condrun.Cli.Dispatch.{main, main_exit, parsed, dispatch, supervisor_of, config_of, warns}
use condrun.Cli.Real.{real_seams}
use condrun.Cli.Real.Causal.{InTime}
use condrun.Cli.Real.Causes.{main-three, run_trace, Disallowed, done_code}
use condrun.Cli.Real.Reaps.{main-reaps, Accounted}
use condrun.Supervisor.Gate.{code-spawns}
use condrun.Supervisor.Trace.{spawns}
use condrun.Cli.Real.Kills.{RunsOn, main-kills}
use condrun.Cli.Real.Errors.{Cause, main-four_os}
use condrun.Cli.Errors.{main-unspawned}
use condrun.Process.Tokio.{Os}
use condrun.Cli.Examples.{
  system_with, system, wait_end, silent_streams, no_signals, ideal, ideal-IsRuntime, turning,
  platform, run_cli, echo_hi, reads, ideal-IsPrompt, system-Dies, system-Remembers, system-Starts,
  closed_from_50, enough,
}

ends_in_time :
    (p : Option ℕ) (now t : ℕ) (a : ExitStatus × Option ℕ) → wait_end p now ≡ some (t, a) → now ≤ t
ends_in_time none now t a e = absurd (cc)
ends_in_time (some x) now t a e = ground (arith, e)

system-InTime : InTime system silent_streams
system-InTime = record {
  waits = ends_in_time;
  begins = λ cmd now t a e. ground (arith, e);
  receives = λ x now t a e. absurd (cc);
}

ends_with_3 :
    main
      (real_seams system silent_streams ideal (λ n. 0))
      platform
      tt
      (ok no_signals)
      10
      0
      (parsed run_cli)
    ≡ some 3
unfolding main dispatch main_exit warns supervisor_of config_of build_network_state build_set
    build_predicates run run_task after_preflight gate supervise call_spawn attend simple_wait
    after_wait watch watch_round handle_outcome watch_select call_evaluate judge act_on_fail
    kill_child call_terminate forward_signal wait_with_escalation map_status leave_run race await
    select select_biased select_biased_three evaluate evaluate_and spawn terminate kill_group wait
    signal command_of next select_from success code
ends_with_3 = refl

main-three_example :
    let trace =
      run_trace system silent_streams ideal
        (λ n. 0)
        platform
        run_cli
        turning
        no_signals
        10
        0
        echo_hi in
    (has_escalation trace ≡ true) ⊎ ((t u : ℕ) × Disallowed run_cli turning trace t u)
main-three_example =
    main-three system silent_streams ideal (λ n. 0) platform run_cli "echo" ("hi" ∷ []) turning
      no_signals 10 0 ideal-IsRuntime system-InTime refl reads ends_with_3

spawns_echo :
    0
    < spawns (
        run_trace system silent_streams ideal
          (λ n. 0)
          platform
          run_cli
          turning
          no_signals
          10
          0
          echo_hi)
unfolding main dispatch
spawns_echo =
    code-spawns (real_seams system silent_streams ideal (λ n. 0)) 10
      (supervisor_of (real_seams system silent_streams ideal (λ n. 0)) platform tt (ok no_signals)
        10 run_cli 0 turning no_signals)
      echo_hi 0 {code = 3} (done_code _ 3 (ground (arith, reads, ends_with_3)) (omega arith))
      (omega arith)

main-reaps_example : Accounted system echo_hi 3
main-reaps_example =
    main-reaps system silent_streams ideal (λ n. 0) platform run_cli "echo" ("hi" ∷ []) turning
      no_signals 10 0 3 refl reads ends_with_3 (omega arith) spawns_echo

still_running :
    (p : Option ℕ) (t now : ℕ) → system.start (command_of echo_hi) now ≡ some (t, ok p) → p ≡ none
still_running p t now e = cc

system-RunsOn : RunsOn system echo_hi
system-RunsOn = record { runs_on = λ now t u p e. rw (still_running p t now e) refl }

main-kills_example :
    main
      (real_seams system silent_streams ideal (λ n. 0))
      platform
      tt
      (ok no_signals)
      100
      0
      (parsed run_cli)
    ≡ some 3
main-kills_example =
    main-kills system silent_streams ideal (λ n. 0) platform run_cli "echo" ("hi" ∷ []) turning
      no_signals 50 0 0 0 100 0 ideal-IsRuntime ideal-IsPrompt system-Dies system-Remembers
      system-Starts system-RunsOn (λ x t. refl) (omega arith) refl refl (omega arith) reads refl
      closed_from_50 (omega arith) enough

-- A system that knows no program.
abbrev empty_system : Os
empty_system = system_with (err "not found")

ends_with_4 :
    main
      (real_seams empty_system silent_streams ideal (λ n. 0))
      platform
      tt
      (ok no_signals)
      0
      0
      (parsed run_cli)
    ≡ some 4
unfolding spawn command_of next select_from
ends_with_4 =
    main-unspawned (real_seams empty_system silent_streams ideal (λ n. 0)) platform tt tt no_signals
      0 0 0 run_cli "echo" "not found" ("hi" ∷ []) turning ideal-IsRuntime refl reads refl refl refl

main-four_os_example : Cause empty_system silent_streams platform (ok no_signals) run_cli
main-four_os_example =
    main-four_os empty_system silent_streams ideal (λ n. 0) platform (ok no_signals) 0 0 run_cli
      ends_with_4
