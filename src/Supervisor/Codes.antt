-- ===== src/Supervisor/Codes.antt =====
-- The exit codes of src/supervisor.rs, and the calls of `child.terminate` in the trace.
use condrun.Prelude.{
  ℕ, ◌+◌, ◌≤◌, ◌≡◌, refl, Bool, true, false, Option, none, inl, inr, ◌⊎◌, List, arith, ◌==◌,
  if◌then◌else◌,
}
use condrun.Predicate.{PredicateResult}
use condrun.Signal.{SignalKind}
use condrun.Process.{CommandSpec}
use condrun.Supervisor.{Seams, SupervisorConfig, Supervisor}
use condrun.Supervisor.Exec.{Event, Flow, done, failed, pending, spent, Sys}
use condrun.Supervisor.Run.{
  Leave, return_with, break_with, wait_with_escalation, forward_signal, kill_child, act_on_fail,
  judge, call_evaluate, watch_round, handle_outcome, watch, simple_wait, after_wait, attend,
  leave_run, call_spawn, supervise, gate, run, run_task, after_preflight, call_terminate,
  map_status,
}
use condrun.Supervisor.Post.{Ends, weaken-Ends}
use condrun.Supervisor.Loop.{watch_loop, Continues}
use condrun.Supervisor.Trace.{terminations, await-trace, race-trace, watch_select-trace}

-- How many calls of `terminate` an exit code stands for.
abbrev pub kills : ℕ → ℕ
kills code = if code == 3 then 1 else 0

abbrev leave_code : Leave → ℕ
leave_code (return_with code) = code
leave_code (break_with status) = 0

abbrev round_code : Leave ⊎ Option ℕ → ℕ
round_code (inl leave) = leave_code leave
round_code (inr started) = 0

-- The code of what an action ends with, 0 if it has none.
abbrev pub flow_code : {A : Type 0} → (A → ℕ) → Flow A → ℕ
flow_code f (done a) = f a
flow_code f _ = 0

abbrev pub is_done : {A : Type 0} → Flow A → Bool
is_done (done a) = true
is_done _ = false

-- From `before` calls of `terminate`, an action that ended with a value has made those that the
-- value's code stands for.
abbrev pub Accounts : {A : Type 0} → (A → ℕ) → ℕ → Flow A → List Event → Type 0
Accounts f before flow trace =
    (flow_code f flow ≤ 3)
    × (is_done flow ≡ true → terminations trace ≡ before + kills (flow_code f flow))

-- The same of an action that ended with a value.
abbrev Accounted : {S A : Type 0} → (A → ℕ) → ℕ → A → Sys S → Type 0
Accounted f before a s = (f a ≤ 3) × (terminations s.trace ≡ before + kills (f a))

module _ {S A : Type 0} (f : A → ℕ) (before : ℕ) where
  of_Accounts :
      (flow : Flow A) (s : Sys S)
      → Accounts f before flow s.trace
      → Ends (λ _ _. Unit) (Accounted f before) flow s
  of_Accounts (done a) s h = (h.0, h.1 refl)
  of_Accounts (failed e) s h = tt
  of_Accounts pending s h = tt
  of_Accounts spent s h = tt

  to_Accounts :
      (flow : Flow A) (s : Sys S)
      → Ends (λ _ _. Unit) (Accounted f before) flow s
      → Accounts f before flow s.trace
  to_Accounts (done a) s h = (h.0, λ _. h.1)
  to_Accounts (failed e) s h = ground arith
  to_Accounts pending s h = ground arith
  to_Accounts spent s h = ground arith

round-Continues :
    {S : Type 0} (before n : ℕ)
    → n ≡ before
    → (after : Leave ⊎ Option ℕ) (s : Sys S) → Accounted round_code n after s
    → Continues (λ _ s'. terminations s'.trace ≡ before) (Accounted leave_code before) after s
round-Continues before n e (inl leave) s q = (q.0, omega arith)
round-Continues before n e (inr started) s q = ground arith

module _ (w : Seams) where
  open w use {Child, Source, child, spawner, runtime}

  escalation_code :
      (c : Child) (s : Sys Source) (grace : ℕ)
      → let (flow, s') = wait_with_escalation w c grace s in
        Accounts (λ x. x) (terminations s.trace) flow s'.trace
  unfolding wait_with_escalation call_terminate
  escalation_code c s grace = grind (arith, race-trace, await-trace)

  forward_code :
      (c : Child) (s : Sys Source) (sig : SignalKind) (grace : ℕ)
      → let (flow, s') = forward_signal w c sig grace s in
        Accounts (λ x. x) (terminations s.trace) flow s'.trace
  unfolding forward_signal
  forward_code c s sig grace = grind (arith, escalation_code, await-trace)

  judge_code :
      (c : Child) (s : Sys Source) (config : SupervisorConfig) (started : Option ℕ)
      (r : PredicateResult)
      → let (flow, s') = judge w config started c r s in
        Accounts round_code (terminations s.trace) flow s'.trace
  unfolding judge act_on_fail kill_child call_terminate
  judge_code c s config started r = grind (arith, await-trace)

  round_code_lem :
      (c : Child) (s : Sys Source) (sup : Supervisor w) (started : Option ℕ)
      → let (flow, s') = watch_round w sup started c s in
        Accounts round_code (terminations s.trace) flow s'.trace
  unfolding watch_round handle_outcome call_evaluate
  round_code_lem c s sup started =
      grind (arith, forward_code, judge_code, await-trace, watch_select-trace)

  watch_code :
      (fuel : ℕ) (sup : Supervisor w) (started : Option ℕ) (c : Child) (s : Sys Source)
      → let (flow, s') = watch w fuel sup started c s in
        Accounts leave_code (terminations s.trace) flow s'.trace
  unfolding watch
  watch_code fuel sup started c s = to_Accounts leave_code (terminations s.trace) _ _ (
      watch_loop w sup c (λ _ _. Unit)
        (λ _ started' s'. terminations s'.trace ≡ terminations s.trace)
        (Accounted leave_code (terminations s.trace)) (λ _ _ _. tt)
        (λ k st s' e.
          weaken-Ends (λ _ _. Unit) (Accounted round_code (terminations s'.trace)) _
            (round-Continues (terminations s.trace) (terminations s'.trace) e) _ _
            (of_Accounts round_code _ _ _ (round_code_lem c s' sup st)))
        fuel started s refl)

  simple_code :
      (sup : Supervisor w) (c : Child) (s : Sys Source)
      → let (flow, s') = simple_wait w sup c s in
        Accounts leave_code (terminations s.trace) flow s'.trace
  unfolding simple_wait after_wait
  simple_code sup c s = grind (arith, forward_code, race-trace)

  attend_code :
      (fuel : ℕ) (sup : Supervisor w) (c : Child) (s : Sys Source)
      → let (flow, s') = attend w fuel sup c s in
        Accounts leave_code (terminations s.trace) flow s'.trace
  unfolding attend
  attend_code fuel sup c s = ground (arith, watch_code fuel sup none c s, simple_code sup c s)

  supervise_code :
      (fuel : ℕ) (sup : Supervisor w) (cmd : CommandSpec) (s : Sys Source)
      → let (flow, s') = supervise w fuel sup cmd s in
        Accounts (λ x. x) (terminations s.trace) flow s'.trace
  unfolding supervise call_spawn leave_run map_status
  supervise_code fuel sup cmd s = grind (arith, attend_code, await-trace)

  pub run-Accounts :
      (fuel : ℕ) (sup : Supervisor w) (cmd : CommandSpec) (now : ℕ)
      → let (flow, s') = run w fuel sup cmd now in Accounts (λ x. x) 0 flow s'.trace
  unfolding run run_task after_preflight gate
  run-Accounts fuel sup cmd now = grind (arith, supervise_code, race-trace, await-trace)

-- Whatever the child, the signals and the network do, an exit code of `run` is at most 3, and
-- `child.terminate` was called exactly once if it is 3 and never otherwise.
pub run_code :
    (w : Seams) (fuel : ℕ) (sup : Supervisor w) (cmd : CommandSpec) (now : ℕ) {code : ℕ}
    → (run w fuel sup cmd now).0 ≡ done code
    → (code ≤ 3) × (terminations (run w fuel sup cmd now).1.trace ≡ kills code)
run_code w fuel sup cmd now h = ground (arith, run-Accounts w fuel sup cmd now)
