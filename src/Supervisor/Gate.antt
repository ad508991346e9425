-- ===== src/Supervisor/Gate.antt =====
-- The pre-flight gate: what must hold before the child is spawned.
use condrun.Prelude.{
  ℕ, ◌+◌, ◌≤◌, ◌<◌, ◌≡◌, ◌≢◌, refl, ◌∙◌, String, Option, none, some, inl, inr, ◌⊎◌, [], arith,
  if◌then◌else◌,
}
use condrun.Async.{Async, Runtime, IsRuntime, select}
use condrun.Async.Select.{select_first, select_resolve}
use condrun.Predicate.{PredicateResult, pass, fail, evaluate}
use condrun.Signal.{SignalKind, Signals}
use condrun.Process.{CommandSpec}
use condrun.Supervisor.{Seams, SupervisorConfig, Supervisor}
use condrun.Supervisor.Exec.{done, Sys, race}
use condrun.Supervisor.Run.{
  Leave, handle_outcome, wait_with_escalation, forward_signal, kill_child, act_on_fail, judge,
  call_evaluate, watch_round, watch, simple_wait, after_wait, attend, leave_run, call_spawn,
  supervise, gate, after_preflight, run, run_task, call_terminate, map_status,
}
use condrun.Supervisor.Post.{always-Ends, of-Ends}
use condrun.Supervisor.Loop.{watch_loop, Continues}
use condrun.Supervisor.Trace.{spawns, await-trace, race-trace, watch_select-trace}

module _ (w : Seams) where
  open w use {Child, Source}

  escalation-spawns :
      (c : Child) (grace : ℕ) (s : Sys Source)
      → spawns (wait_with_escalation w c grace s).1.trace ≡ spawns s.trace
  unfolding wait_with_escalation call_terminate
  escalation-spawns c grace s = grind (arith, race-trace, await-trace)

  forward-spawns :
      (c : Child) (sig : SignalKind) (grace : ℕ) (s : Sys Source)
      → spawns (forward_signal w c sig grace s).1.trace ≡ spawns s.trace
  unfolding forward_signal
  forward-spawns c sig grace s = grind (arith, escalation-spawns, await-trace)

  judge-spawns :
      (config : SupervisorConfig) (started : Option ℕ) (c : Child) (r : PredicateResult)
      (s : Sys Source)
      → spawns (judge w config started c r s).1.trace ≡ spawns s.trace
  unfolding judge act_on_fail kill_child call_terminate
  judge-spawns config started c r s = grind (arith, await-trace)

  round-spawns :
      (sup : Supervisor w) (started : Option ℕ) (c : Child) (s : Sys Source)
      → spawns (watch_round w sup started c s).1.trace ≡ spawns s.trace
  unfolding watch_round handle_outcome call_evaluate
  round-spawns sup started c s =
      grind (arith, forward-spawns, judge-spawns, await-trace, watch_select-trace)

  watch-spawns :
      (fuel : ℕ) (sup : Supervisor w) (started : Option ℕ) (c : Child) (s : Sys Source)
      → spawns (watch w fuel sup started c s).1.trace ≡ spawns s.trace
  watch-spawns fuel sup started c s =
      let Same : Sys Source → Type 0 = λ s'. spawns s'.trace ≡ spawns s.trace in
      of-Ends Same _ _ (
        watch_loop w sup c (λ _. Same) (λ _ _. Same) (λ _. Same) (λ _ _ h. h)
          (λ _ st s' h.
            let same = round-spawns sup st c s' ∙ h in
            always-Ends (λ _. Same) (Continues (λ _. Same) (λ _. Same)) _ _ (λ _. same)
              (each Same same))
          fuel started s refl)
    where
      each :
          (Same : Sys Source → Type 0) {s' : Sys Source}
          → Same s'
          → (a : Leave ⊎ Option ℕ) → Continues (λ _. Same) (λ _. Same) a s'
      each Same h (inl leave) = h
      each Same h (inr started') = h

  attend-spawns :
      (fuel : ℕ) (sup : Supervisor w) (c : Child) (s : Sys Source)
      → spawns (attend w fuel sup c s).1.trace ≡ spawns s.trace
  unfolding attend simple_wait after_wait
  attend-spawns fuel sup c s =
      grind (arith, watch-spawns fuel sup none c s, forward-spawns, race-trace)

  supervise-spawns :
      (fuel : ℕ) (sup : Supervisor w) (cmd : CommandSpec) (s : Sys Source)
      → spawns (supervise w fuel sup cmd s).1.trace ≡ spawns s.trace + 1
  unfolding supervise call_spawn leave_run map_status
  supervise-spawns fuel sup cmd s = grind (arith, attend-spawns, await-trace)

module _ {S A : Type 0} (rt : Runtime) (sg : Signals S) (future : ℕ → Async A) (s : Sys S) where
  -- A race with a future that resolves has that future's value or a signal.
  race_value :
      (t : ℕ) (a : A)
      → IsRuntime rt
      → future s.now ≡ some (t, a)
      → ((race rt sg future s).0 ≡ done (inl a))
        ⊎ ((k : SignalKind) × ((race rt sg future s).0 ≡ done (inr k)))
  unfolding race
  race_value t a sane e = go (select rt s.selects (future s.now) (sg.next s.signals s.now)) refl
    where
      go :
          (o : Async (A ⊎ (SignalKind × S)))
          → select rt s.selects (future s.now) (sg.next s.signals s.now) ≡ o
          → ((race rt sg future s).0 ≡ done (inl a))
            ⊎ ((k : SignalKind) × ((race rt sg future s).0 ≡ done (inr k)))
      go none q = absurd (select_resolve rt sane s.selects t a _ (rw e at q))
      go (some (u, inl x)) q = inl (
          ground
            (arith, q, e, select_first rt s.selects (future s.now) (sg.next s.signals s.now) u x q))
      go (some (u, inr (k, rest))) q = inr (k, ground (arith, q))

  -- A future that never resolves does not win.
  race_never : (a : A) → future s.now ≡ none → (race rt sg future s).0 ≢ done (inl a)
  unfolding race select
  race_never a e = ground (arith, e)

  race_unsignalled :
      (k : SignalKind) → sg.next s.signals s.now ≡ none → (race rt sg future s).0 ≢ done (inr k)
  unfolding race select
  race_unsignalled k e = ground (arith, e)

-- Where the predicates fail at the pre-flight the child is never spawned, and the run ends with 0 or,
-- if it is strict, with 0 or 1.
pub gate_closed :
    (w : Seams) (fuel : ℕ) (sup : Supervisor w) (cmd : CommandSpec) (now t : ℕ) (r : String)
    → IsRuntime w.runtime
    → evaluate sup.predicate_set sup.state now ≡ some (t, fail r)
    → (spawns (run w fuel sup cmd now).1.trace ≡ 0)
      × (((run w fuel sup cmd now).0 ≡ done (if sup.config.strict then 1 else 0))
          ⊎ ((run w fuel sup cmd now).0 ≡ done 0))
unfolding run run_task after_preflight gate
gate_closed w fuel sup cmd now t r sane e =
    let start : Sys w.Source = record {
      now = now;
      selects = 0;
      signals = sup.signals;
      trace = [];
    } in
    let future = evaluate sup.predicate_set sup.state in
    elim (race_value w.runtime w.signals future start t (fail r) sane e) [
      | inl p ↦ ground (arith, p, race-trace w.runtime w.signals future start)
      | inr (k, p) ↦ ground (arith, p, race-trace w.runtime w.signals future start)
    ]

-- Where the predicates fail at the pre-flight and no signal comes, the run ends with 1 if it is
-- strict and with 0 if it is not.
pub gate_code :
    (w : Seams) (fuel : ℕ) (sup : Supervisor w) (cmd : CommandSpec) (now t : ℕ) (r : String)
    → IsRuntime w.runtime
    → evaluate sup.predicate_set sup.state now ≡ some (t, fail r)
    → w.signals.next sup.signals now ≡ none
    → (run w fuel sup cmd now).0 ≡ done (if sup.config.strict then 1 else 0)
unfolding run run_task after_preflight gate
gate_code w fuel sup cmd now t r sane e quiet =
    let start : Sys w.Source = record {
      now = now;
      selects = 0;
      signals = sup.signals;
      trace = [];
    } in
    let future = evaluate sup.predicate_set sup.state in
    elim (race_value w.runtime w.signals future start t (fail r) sane e) [
      | inl p ↦ ground (arith, p)
      | inr (k, p) ↦ absurd (race_unsignalled w.runtime w.signals future start k quiet p)
    ]

run-spawns :
    (w : Seams) (fuel : ℕ) (sup : Supervisor w) (cmd : CommandSpec) (now : ℕ)
    → spawns (run w fuel sup cmd now).1.trace ≤ 1
unfolding run run_task after_preflight gate
run-spawns w fuel sup cmd now = grind (arith, supervise-spawns, race-trace)

-- A run that ends with neither 0 nor 1 has spawned the command.
pub code-spawns :
    (w : Seams) (fuel : ℕ) (sup : Supervisor w) (cmd : CommandSpec) (now : ℕ) {code : ℕ}
    → (run w fuel sup cmd now).0 ≡ done code
    → 1 < code
    → 0 < spawns (run w fuel sup cmd now).1.trace
unfolding run run_task after_preflight gate
code-spawns w fuel sup cmd now e h = grind (arith, supervise-spawns, race-trace)

never-spawns :
    (w : Seams) (fuel : ℕ) (sup : Supervisor w) (cmd : CommandSpec) (now : ℕ)
    → evaluate sup.predicate_set sup.state now ≡ none
    → spawns (run w fuel sup cmd now).1.trace ≡ 0
unfolding run run_task after_preflight gate
never-spawns w fuel sup cmd now e = grind (arith, race_never, race-trace)

-- A run that spawns does so once, and its predicates had passed.
pub gate_open :
    (w : Seams) (fuel : ℕ) (sup : Supervisor w) (cmd : CommandSpec) (now : ℕ)
    → IsRuntime w.runtime
    → 0 < spawns (run w fuel sup cmd now).1.trace
    → (t : ℕ) × (evaluate sup.predicate_set sup.state now ≡ some (t, pass))
      × (spawns (run w fuel sup cmd now).1.trace ≡ 1)
gate_open w fuel sup cmd now sane h = go (evaluate sup.predicate_set sup.state now) refl
  where
    go :
        (o : Async PredicateResult)
        → evaluate sup.predicate_set sup.state now ≡ o
        → (t : ℕ) × (evaluate sup.predicate_set sup.state now ≡ some (t, pass))
          × (spawns (run w fuel sup cmd now).1.trace ≡ 1)
    go none e = absurd (omega (arith, never-spawns w fuel sup cmd now e))
    go (some (t, pass)) e = (t, e, omega (arith, run-spawns w fuel sup cmd now))
    go (some (t, fail r)) e = absurd (omega (arith, (gate_closed w fuel sup cmd now t r sane e).0))
