-- ===== src/Supervisor/Inspectable/Asserted.antt =====
-- The tests of src/supervisor.rs on the inspectable child, each as the test that its assertions make
-- of a run. The inspector of the child is the state that the calls in the trace lead the child to. A
-- test that looks at the child at some instant, or aborts the run there, has the rounds until then.
use condrun.Prelude.{
  ℕ, ◌-◌, ◌≡◌, refl, Bool, true, false, not, ◌&&◌, none, some, List, [], ◌∷◌, ◌==◌, leb, every,
}
use condrun.Async.{Async}
use condrun.Signal.{SignalKind, interrupt, quit, hup}
use condrun.Supervisor.{Supervisor}
use condrun.Supervisor.Exec.{Event, forwarded, terminated, done}
use condrun.Supervisor.Inspectable.{
  InspectableHandle, InspectState, signal, terminate, seams, scenario_5, scenario_6, no_escalation,
}
use condrun.Supervisor.Inspectable.Watching.{
  Report, report, traced, child_exits_naturally, polled, immediate, full_duration, recovering,
  retripped,
}
use condrun.Supervisor.Inspectable.Signalled.{signalled, terminated_watched, interrupted, escalated}

abbrev after_call :
    {A : Type 0} → Async (A × InspectableHandle) → InspectableHandle → InspectableHandle
after_call none h = h
after_call (some (t, (r, h'))) h = h'

-- The child after the calls of the trace, the latest first.
abbrev replay : InspectableHandle → List Event → InspectableHandle
replay h [] = h
replay h (forwarded kind ∷ es) = let h' = replay h es in after_call (signal h' kind 0) h'
replay h (terminated grace ∷ es) = let h' = replay h es in after_call (terminate h' grace 0) h'
replay h (_ ∷ es) = replay h es

abbrev exits_with : ℕ → Report → Bool
exits_with expected r = elim r.outcome [ done c ↦ c == expected | _ ↦ false ]

-- The child's state when the run has ended or its rounds are over.
abbrev inspector : ℕ → Supervisor seams → InspectState
inspector fuel sup = elim sup.spawner [
  | none ↦ record { terminated = false; killed = false; last_signal = none; exited = false }
  | some h ↦ (replay h (traced fuel sup)).state
]

abbrev kind_number : SignalKind → ℕ
kind_number SignalKind.interrupt = 0
kind_number SignalKind.terminate = 1
kind_number SignalKind.quit = 2
kind_number SignalKind.hup = 3

abbrev last_is : SignalKind → InspectState → Bool
last_is kind s = elim s.last_signal [ none ↦ false | some k ↦ kind_number k == kind_number kind ]

abbrev scenario_5_kill_on_change : Bool
scenario_5_kill_on_change =
    not (inspector 1 scenario_5).terminated
    && (exits_with 3 (report 9 scenario_5)
        && ((inspector 9 scenario_5).terminated && not (inspector 9 scenario_5).killed))

abbrev scenario_6_sigterm_ignored_then_sigkill : Bool
scenario_6_sigterm_ignored_then_sigkill =
    exits_with 3 (report 9 scenario_6)
    && ((inspector 9 scenario_6).terminated && (inspector 9 scenario_6).killed)

abbrev child_exits_naturally_during_watch : Bool
child_exits_naturally_during_watch =
    exits_with 0 (report 9 child_exits_naturally)
    && (not (inspector 9 child_exits_naturally).terminated
        && not (inspector 9 child_exits_naturally).killed)

-- Two rounds until 12 s; one evaluation is that of the pre-flight.
abbrev poll_interval_respected : Bool
poll_interval_respected =
    let watcher_calls = (report 2 polled).evaluated - 1 in
    leb 2 watcher_calls && leb watcher_calls 3

abbrev debounce_zero_immediate_kill : Bool
debounce_zero_immediate_kill =
    exits_with 3 (report 9 immediate) && (inspector 9 immediate).terminated

-- Six rounds until 12 s.
abbrev debounce_waits_full_duration : Bool
debounce_waits_full_duration =
    not (inspector 6 full_duration).terminated
    && (exits_with 3 (report 9 full_duration) && (inspector 9 full_duration).terminated)

-- Ten rounds until 20 s.
abbrev debounce_resets_on_recovery : Bool
debounce_resets_on_recovery = not (inspector 10 recovering).terminated

abbrev debounce_resets_then_retrips : Bool
debounce_resets_then_retrips =
    not (inspector 10 retripped).terminated
    && (exits_with 3 (report 20 retripped) && (inspector 20 retripped).terminated)

-- The tests of the watcher pass.
watcher_tests_pass :
    every (
      scenario_5_kill_on_change ∷ scenario_6_sigterm_ignored_then_sigkill
      ∷ child_exits_naturally_during_watch ∷ poll_interval_respected ∷ debounce_zero_immediate_kill
      ∷ debounce_waits_full_duration ∷ debounce_resets_on_recovery ∷ debounce_resets_then_retrips
      ∷ [])
    ≡ true
unfolding report traced
watcher_tests_pass = refl

abbrev sigint_forwarded_to_child : Bool
sigint_forwarded_to_child =
    let child = inspector 0 (signalled interrupt) in
    last_is interrupt child
    && (exits_with 0 (report 0 (signalled interrupt)) && (not child.terminated && not child.killed))

abbrev sigterm_forwarded_to_child : Bool
sigterm_forwarded_to_child =
    let child = inspector 9 terminated_watched in
    last_is SignalKind.terminate child
    && (exits_with 2 (report 9 terminated_watched) && not child.terminated)

abbrev signal_during_preflight : Bool
signal_during_preflight =
    exits_with 0 (report 0 interrupted) && ((report 0 interrupted).spawned == 0)

abbrev second_signal_escalates_to_terminate : Bool
second_signal_escalates_to_terminate =
    let child = inspector 0 escalated in
    exits_with 3 (report 0 escalated) && (last_is interrupt child && child.terminated)

abbrev forwards_kind : SignalKind → Bool
forwards_kind kind =
    last_is kind (inspector 0 (signalled kind)) && exits_with 0 (report 0 (signalled kind))

abbrev sigquit_and_sighup_forwarded : Bool
sigquit_and_sighup_forwarded = forwards_kind quit && forwards_kind hup

abbrev signal_no_escalation : Bool
signal_no_escalation =
    let child = inspector 9 no_escalation in
    last_is interrupt child
    && (not child.terminated && (not child.killed && exits_with 0 (report 9 no_escalation)))

-- The tests of the signals pass.
signal_tests_pass :
    every (
      sigint_forwarded_to_child ∷ sigterm_forwarded_to_child ∷ signal_during_preflight
      ∷ second_signal_escalates_to_terminate ∷ sigquit_and_sighup_forwarded ∷ signal_no_escalation
      ∷ [])
    ≡ true
unfolding report traced
signal_tests_pass = refl
