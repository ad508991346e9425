-- ===== src/Process/Fake/Tests.antt =====
-- The tests of src/process/fake.rs, each as the test that its assertions make of the fakes. A test
-- starts at 0, on a clock that only its awaits move.
use condrun.Prelude.{
  ℕ, ◌*◌, ◌≡◌, refl, Bool, true, false, not, ◌&&◌, none, some, List, [], ◌∷◌, ◌==◌, same, all_same,
  every, length,
}
use condrun.Async.Awaited.{awaits, unwraps}
use condrun.Signal.{SignalKind, interrupt}
use condrun.Process.{CommandSpec, ExitStatus, code}
use condrun.Process.Fake.{
  FakeChildHandle, new_child, with_terminate_delay, wait, terminate, signal, fake_child, fake_pid,
  new_spawner, enqueue_handle, spawn, spawned, terminated, killed, last_signal,
}

abbrev same_command : CommandSpec → CommandSpec → Bool
same_command a b = same a.program b.program && all_same a.args b.args

abbrev same_commands : List CommandSpec → List CommandSpec → Bool
same_commands [] [] = true
same_commands [] (b ∷ bs) = false
same_commands (a ∷ as') [] = false
same_commands (a ∷ as') (b ∷ bs) = same_command a b && same_commands as' bs

-- `exit_code_of(status) == Some(expected)`
abbrev exit_code_is : ℕ → ExitStatus → Bool
exit_code_is expected status = elim (code status) [ none ↦ false | some c ↦ c == expected ]

abbrev kind_number : SignalKind → ℕ
kind_number SignalKind.interrupt = 0
kind_number SignalKind.terminate = 1
kind_number SignalKind.quit = 2
kind_number SignalKind.hup = 3

abbrev last_is : SignalKind → FakeChildHandle → Bool
last_is kind h = elim (last_signal h) [ none ↦ false | some k ↦ kind_number k == kind_number kind ]

abbrev no_signal_yet : FakeChildHandle → Bool
no_signal_yet h = elim (last_signal h) [ none ↦ true | some k ↦ false ]

abbrev secs : ℕ → ℕ
secs n = n * 1_000_000_000

abbrev millis : ℕ → ℕ
millis n = n * 1_000_000

abbrev hello : CommandSpec
hello = record { program = "echo"; args = "hello" ∷ [] }

abbrev cmd_a : CommandSpec
cmd_a = record { program = "a"; args = [] }

abbrev cmd_b : CommandSpec
cmd_b = record { program = "b"; args = "x" ∷ [] }

abbrev cmd_x : CommandSpec
cmd_x = record { program = "x"; args = [] }

abbrev spawn_records_command_spec : Bool
spawn_records_command_spec =
    awaits (spawn new_spawner hello 0)
      λ t (h, spawner). unwraps h λ h'. same_commands (spawned spawner) (hello ∷ [])

abbrev spawn_records_multiple_in_order : Bool
spawn_records_multiple_in_order = awaits (spawn new_spawner cmd_a 0) λ t (h, spawner).
    unwraps h λ h'.
      awaits (spawn spawner cmd_b t)
        λ u (g, spawner'). unwraps g λ g'. same_commands (spawned spawner') (cmd_a ∷ cmd_b ∷ [])

abbrev wait_resolves_with_configured_exit_code_after_delay : Bool
wait_resolves_with_configured_exit_code_after_delay =
    awaits (wait (new_child 0 (secs 1)) 0) λ t (status, h). exit_code_is 0 status

abbrev wait_resolves_with_nonzero_exit_code : Bool
wait_resolves_with_nonzero_exit_code =
    awaits (wait (new_child 42 (millis 500)) 0) λ t (status, h). exit_code_is 42 status

abbrev terminate_marks_terminated_and_resolves_wait_when_graceful : Bool
terminate_marks_terminated_and_resolves_wait_when_graceful =
    let h = with_terminate_delay 0 (new_child 0 (secs 60)) in
    not (terminated h)
    && awaits (terminate h (secs 5) 0) λ t (r, h'). unwraps r λ unit.
      ((terminated h') && not (killed h'))
      && awaits (wait h' t) λ u (status, h''). exit_code_is 0 status

abbrev terminate_escalates_to_kill_when_grace_exceeded : Bool
terminate_escalates_to_kill_when_grace_exceeded =
    awaits (terminate (with_terminate_delay (secs 10) (new_child 0 (secs 600))) (secs 2) 0)
      λ t (r, h). unwraps r λ unit. (terminated h) && (killed h)

abbrev signal_records_kind : Bool
signal_records_kind =
    let h = new_child 0 (secs 60) in
    no_signal_yet h
    && awaits (signal h interrupt 0) λ t (r, h'). unwraps r λ unit.
      last_is interrupt h'
      && awaits (signal h' SignalKind.terminate t) λ u (r', h'').
        unwraps r'
          λ unit'. last_is SignalKind.terminate h'' && (not (terminated h'') && not (killed h''))

abbrev pid_returns_synthetic_value : Bool
pid_returns_synthetic_value = fake_child.pid (new_child 0 0) == fake_pid

abbrev enqueued_handle_used_by_spawn : Bool
enqueued_handle_used_by_spawn =
    awaits (spawn (enqueue_handle (new_child 7 (millis 100)) new_spawner) cmd_x 0)
      λ t (h, spawner). unwraps h λ h'. awaits (wait h' t) λ u (status, h''). exit_code_is 7 status

abbrev cmd_p : CommandSpec
cmd_p = record { program = "p"; args = [] }

-- The spawn is of a task that the test awaits, on a clone of the spawner, which shares its record.
abbrev send_sync_compile : Bool
send_sync_compile =
    awaits (spawn new_spawner cmd_p 0)
      λ t (h, spawner). unwraps h λ h'. length (spawned spawner) == 1

-- The tests of the source pass on the fakes.
fake_process_tests_pass :
    every (
      spawn_records_command_spec ∷ spawn_records_multiple_in_order
      ∷ wait_resolves_with_configured_exit_code_after_delay ∷ wait_resolves_with_nonzero_exit_code
      ∷ terminate_marks_terminated_and_resolves_wait_when_graceful
      ∷ terminate_escalates_to_kill_when_grace_exceeded ∷ signal_records_kind
      ∷ pid_returns_synthetic_value ∷ enqueued_handle_used_by_spawn ∷ send_sync_compile ∷ [])
    ≡ true
unfolding spawn wait terminate signal new_child with_terminate_delay enqueue_handle code
fake_process_tests_pass = refl
