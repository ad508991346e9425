-- ===== src/Process/Tokio/Tests.antt =====
-- The tests of src/process/tokio.rs, each as the test that its assertions make of the handle of a
-- program, at an ideal runtime. A test starts at 0.
use condrun.Prelude.{
  ℕ, ◌+◌, ◌-◌, ◌*◌, ◌≡◌, refl, String, Bool, true, false, ◌&&◌, none, some, List, [], ◌∷◌, ◌==◌,
  leb, ltb, every, not,
}
use condrun.Async.{Result, Runtime, ok, err, select, select_biased}
use condrun.Async.Awaited.{awaits, unwraps}
use condrun.Signal.{interrupt}
use condrun.Process.{CommandSpec, ExitStatus, success, code}
use condrun.Process.Tokio.{
  TokioChildHandle, command_of, spawn, wait, signal, terminate, kill_group, os_signal,
}
use condrun.Process.Tokio.Programs.{system, getsid, own_session}

abbrev ideal : Runtime
ideal = record { wakes = λ t. t; toss = λ n. true }

abbrev secs : ℕ → ℕ
secs n = n * 1_000_000_000

abbrev millis : ℕ → ℕ
millis n = n * 1_000_000

abbrev spec : String → List String → CommandSpec
spec program args = record { program = program; args = args }

-- `spawner.spawn(&…).await.unwrap()`, and a beat before the rest of the test.
abbrev spawned_then : CommandSpec → ℕ → (ℕ → TokioChildHandle system → Bool) → Bool
spawned_then cmd beat test =
    awaits (spawn system cmd 0) λ t (child, launcher). unwraps child λ c. test (t + beat) c

abbrev code_is : ℕ → ExitStatus → Bool
code_is expected status = elim (code status) [ none ↦ false | some c ↦ c == expected ]

abbrev spawn_echo : Bool
spawn_echo =
    spawned_then (spec "echo" ("hello" ∷ [])) 0
      λ t child. awaits (wait system child t) λ u (status, child'). success status

abbrev terminate_kills_child : Bool
terminate_kills_child = spawned_then (spec "sleep" ("999" ∷ [])) (millis 50) λ start child.
    awaits (terminate system ideal child (secs 1) start)
      λ t (r, child'). unwraps r λ unit. ltb (t - start) (secs 2)

abbrev sigkill_after_grace : Bool
sigkill_after_grace =
    spawned_then (spec "sh" ("-c" ∷ "trap '' TERM; sleep 999" ∷ [])) (millis 100) λ start child.
      awaits (terminate system ideal child (secs 1) start)
        λ t (r, child'). unwraps r λ unit. leb (secs 1) (t - start) && ltb (t - start) (secs 3)

abbrev signal_forwarding_no_escalation : Bool
signal_forwarding_no_escalation =
    spawned_then (spec "sh" ("-c" ∷ "trap 'echo got-int; exit 130' INT; sleep 999" ∷ []))
      (millis 150)
      λ start child. awaits (signal system child interrupt start) λ t (r, child'). unwraps r λ unit.
        awaits (wait system child' t)
          λ u (status, child''). code_is 130 status && ltb (u - start) (secs 1)

abbrev is_err : {A : Type 0} → Result A → Bool
is_err (ok a) = false
is_err (err e) = true

abbrev nonexistent_command : Bool
nonexistent_command =
    awaits (spawn system (spec "nonexistent-binary-xyz-condrun-test" []) 0)
      λ t (child, launcher). is_err child

abbrev exit_code_propagation : Bool
exit_code_propagation =
    spawned_then (spec "sh" ("-c" ∷ "exit 42" ∷ [])) 0
      λ t child. awaits (wait system child t) λ u (status, child'). code_is 42 status

abbrev child_in_new_session : Bool
child_in_new_session = spawned_then (spec "sleep" ("30" ∷ [])) 0 λ t child.
    (getsid child.child == child.pid)
    && (not (getsid child.child == own_session)
        && awaits (terminate system ideal child (secs 1) t) λ u (r, child'). unwraps r λ unit. true)

-- The tests of the source pass.
tokio_tests_pass :
    every (
      spawn_echo ∷ terminate_kills_child ∷ sigkill_after_grace ∷ signal_forwarding_no_escalation
      ∷ nonexistent_command ∷ exit_code_propagation ∷ child_in_new_session ∷ [])
    ≡ true
unfolding spawn wait signal terminate kill_group command_of os_signal success code select
    select_biased
tokio_tests_pass = refl
