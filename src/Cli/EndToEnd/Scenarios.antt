-- ===== src/Cli/EndToEnd/Scenarios.antt =====
-- The tests of tests/cli.rs, each as the test that its assertions make of `main`, given what clap makes
-- of its arguments.
use condrun.Prelude.{
  ◌≡◌, refl, Bool, true, false, ◌&&◌, ◌||◌, some, [], ◌∷◌, ◌==◌, contains, codes, every,
}
use condrun.State.Fixture.{StateFixture, sequence}
use condrun.Process.{CommandSpec}
use condrun.Supervisor.Trace.{spawns, error_lines}
use condrun.Cli
use condrun.Cli.{Cli, check}
use condrun.Cli.Dispatch.{parsed, refused, other}
use condrun.Cli.EndToEnd.{
  secs, seconds, static_of, entry, defaults, rejecting, exit_of, code_is, trace_of, lines_of,
  stdout_of,
}

abbrev scenario_1_pass_run_exit_0 : Bool
scenario_1_pass_run_exit_0 =
    code_is 0 (static_of false false) (parsed (rejecting (Cli.run ("echo" ∷ "done" ∷ []))))

abbrev scenario_2_child_fail_exit_2 : Bool
scenario_2_child_fail_exit_2 =
    code_is 2 (static_of false false) (parsed (rejecting (Cli.run ("sh" ∷ "-c" ∷ "exit 7" ∷ []))))

-- The child would print its argument: it is not started.
abbrev scenario_3_preflight_fail_silent : Bool
scenario_3_preflight_fail_silent =
    let cli = rejecting (Cli.run ("echo" ∷ "should-not-run" ∷ [])) in
    let cmd : CommandSpec = record { program = "echo"; args = "should-not-run" ∷ [] } in
    code_is 0 (static_of true false) (parsed cli)
    && (spawns (trace_of (static_of true false) cli cmd) == 0)

abbrev scenario_4_preflight_fail_strict : Bool
scenario_4_preflight_fail_strict =
    code_is 1 (static_of true false)
      (parsed (record (rejecting (Cli.run ("echo" ∷ "no" ∷ []))) { strict = true }))

abbrev flips_at_2 : StateFixture seconds
flips_at_2 = sequence (entry 0 false ∷ entry 2 true ∷ [])

abbrev scenario_5_kill_on_change : Bool
scenario_5_kill_on_change =
    code_is 3 flips_at_2
      (parsed (record (rejecting (Cli.run ("sleep" ∷ "60" ∷ []))) { poll = secs 1 }))

abbrev scenario_6_sigkill_after_grace : Bool
scenario_6_sigkill_after_grace = code_is 3 flips_at_2 (
    parsed (record (rejecting (Cli.run ("sh" ∷ "-c" ∷ "trap '' TERM; sleep 999" ∷ []))) {
      poll = secs 1;
      grace = secs 1;
    }))

abbrev scenario_7_debounce_flicker : Bool
scenario_7_debounce_flicker =
    code_is 0 (sequence (entry 0 false ∷ entry 2 true ∷ entry 3 false ∷ [])) (
      parsed
        (record (rejecting (Cli.run ("sleep" ∷ "10" ∷ []))) { debounce = secs 5; poll = secs 1 }))

abbrev and_composition_low_data_fails : Bool
and_composition_low_data_fails =
    let cli : Cli = record (rejecting (Cli.run ("echo" ∷ "x" ∷ []))) {
      reject_low_data = true;
      strict = true;
    } in
    let stderr =
      error_lines
        (trace_of (static_of false true) cli (record { program = "echo"; args = "x" ∷ [] })) in
    code_is 1 (static_of false true) (parsed cli)
    && (contains stderr "low_data" || contains stderr "Low Data Mode")

abbrev check_pass : Bool
check_pass = code_is 0 (static_of false false) (parsed (rejecting (check false)))

abbrev check_fail : Bool
check_fail = code_is 1 (static_of true false) (parsed (rejecting (check false)))

abbrev check_explain_output : Bool
check_explain_output =
    let stdout = stdout_of (lines_of (static_of true false) (rejecting (check true))) in
    code_is 1 (static_of true false) (parsed (rejecting (check true)))
    && (contains stdout "FAIL: reject-expensive" && contains stdout "expensive")

-- clap refuses the flag.
abbrev invalid_flag_exits_4 : Bool
invalid_flag_exits_4 = code_is 4 (static_of false false) (refused other)

abbrev nonexistent_fixture_exits_4 : Bool
nonexistent_fixture_exits_4 = code_is 4 (static_of false false) (
    parsed (record (defaults (Cli.run ("echo" ∷ "x" ∷ []))) {
      state_source = some (codes "file:/nonexistent-condrun-fixture-xyz.json");
    }))

-- The tests of the source pass.
end_to_end_tests_pass :
    every (
      scenario_1_pass_run_exit_0 ∷ scenario_2_child_fail_exit_2 ∷ scenario_3_preflight_fail_silent
      ∷ scenario_4_preflight_fail_strict ∷ scenario_5_kill_on_change
      ∷ scenario_6_sigkill_after_grace ∷ scenario_7_debounce_flicker
      ∷ and_composition_low_data_fails ∷ check_pass ∷ check_fail ∷ check_explain_output
      ∷ invalid_flag_exits_4 ∷ nonexistent_fixture_exits_4 ∷ [])
    ≡ true
unfolding exit_of trace_of lines_of
end_to_end_tests_pass = refl
