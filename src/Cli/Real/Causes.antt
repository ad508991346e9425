-- ===== src/Cli/Real/Causes.antt =====
-- What stands behind exit code 3 of the process of `condrun run` (src/cli.rs, src/main.rs) on the
-- operating system.
use condrun.Prelude.{
  ℕ, ◌-◌, ◌≤◌, ◌≡◌, ◌⊎◌, inl, inr, Bool, true, false, some, String, List, ◌∷◌, arith,
}
use condrun.Async.{Runtime, IsRuntime, ok}
use condrun.State.{NetworkState}
use condrun.Predicate.{PredicateResult, fail, evaluate}
use condrun.Signal.Real.{Streams, RealSignals}
use condrun.Process.{CommandSpec}
use condrun.Process.Tokio.{Os}
use condrun.Supervisor.Exec.{Event, Flow, done, failed, pending, spent}
use condrun.Supervisor.Run
use condrun.Supervisor.Clock.{Later}
use condrun.Supervisor.Gate.{code-spawns}
use condrun.Supervisor.Watchdog.Flips.{run-Descending}
use condrun.Supervisor.Watchdog.Refines.{polls}
use condrun.Supervisor.Watchdog.Causes.{has_escalation, run_three}
use condrun.Supervisor.Watchdog.Span.{Polled, Spans, EverOverdue-Spans}
use condrun.Supervisor.Watchdog.Verdicts.{run-Seen}
use condrun.Cli.{Cli, Platform, run, build_set, build_network_state}
use condrun.Cli.Decisions.{allowed, build_set_decides}
use condrun.Cli.Dispatch.{dispatch, main, main_exit, of_flow, parsed, supervisor_of, config_of}
use condrun.Cli.Real.{real_seams}
use condrun.Cli.Real.Causal.{InTime, real-IsCausal}

-- A verdict of the predicates of the flags is there at the instant at which they are asked.
verdict_now :
    (cli : Cli) (state : NetworkState) (u t : ℕ) (r : PredicateResult)
    → evaluate (build_set cli) state u ≡ some (t, r)
    → t ≡ u
verdict_now cli state u t r e = ground (arith, e, build_set_decides cli state u)

fails-closed :
    (cli : Cli) (state : NetworkState) (u t : ℕ) (reason : String)
    → evaluate (build_set cli) state u ≡ some (t, fail reason)
    → allowed cli state t ≡ false
fails-closed cli state u t reason e =
    ground (arith, e, verdict_now cli state u t (fail reason) e, build_set_decides cli state u)

-- The flags did not allow the network at two instants, the debounce window and more apart, nor at any
-- poll between them.
pub record Disallowed (cli : Cli) (state : NetworkState) (es : List Event) (t u : ℕ) : Type 0 where
  pub window : cli.debounce ≤ u - t
  pub first : allowed cli state t ≡ false
  pub last : allowed cli state u ≡ false
  pub between :
      (v : ℕ) (b : Bool) → Polled (v, b) (polls es) → t ≤ v → v ≤ u → allowed cli state v ≡ false

-- Only a run that has ended gives the process a code of at most 3, and it gives its own.
pub done_code :
    (r : Flow ℕ) (code : ℕ) → main_exit (of_flow r) ≡ some code → code ≤ 3 → r ≡ done code
unfolding main_exit
done_code (done c) code e h = ground (arith, e)
done_code (failed m) code e h = absurd (ground (arith, e, h))
done_code pending code e h = ground (arith, e)
done_code spent code e h = ground (arith, e)

module _ (os : Os) (st : Streams) (rt : Runtime) (starts : ℕ → ℕ) (platform : Platform) (cli : Cli)
    (state : NetworkState) (source : RealSignals st) (fuel now : ℕ) where
  -- The supervisor of the process, and the trace of its run of a command.
  abbrev pub run_trace : CommandSpec → List Event
  run_trace spec =
      (Run.run (real_seams os st rt starts) fuel
        (supervisor_of (real_seams os st rt starts) platform tt (ok source) fuel cli now state
          source)
        spec now).1.trace

  three-Disallowed :
      (spec : CommandSpec)
      → IsRuntime rt
      → InTime os st
      → (Run.run
          (real_seams os st rt starts)
          fuel
          (supervisor_of
            (real_seams os st rt starts)
            platform
            tt
            (ok source)
            fuel
            cli
            now
            state
            source)
          spec
          now).0
        ≡ done 3
      → (has_escalation (run_trace spec) ≡ true)
        ⊎ ((t u : ℕ) × Disallowed cli state (run_trace spec) t u)
  unfolding supervisor_of config_of
  three-Disallowed spec sane timely e =
      let w = real_seams os st rt starts in
      let sup = supervisor_of w platform tt (ok source) fuel cli now state source in
      let asks : Later (evaluate sup.predicate_set sup.state) =
        λ u t r q. let same = verdict_now cli state u t r q in omega arith in
      let causal = real-IsCausal os st rt starts sane timely sup asks in
      let spawned_it = code-spawns w fuel sup spec now {code = 3} e (omega arith) in
      let closed : (t : ℕ)
          → Polled (t, false) (polls (run_trace spec))
          → allowed cli state t ≡ false =
        λ t q.
          let (r, (u, found)) = run-Seen w fuel sup spec now spawned_it t q in
          fails-closed cli state u t r found in
      elim (run_three w fuel sup spec now causal e) [
        | inl second ↦ inl second
        | inr ever ↦
            let (t, u, s) =
              EverOverdue-Spans cli.debounce (polls (run_trace spec))
                (run-Descending w fuel sup spec now causal) ever in
            inr (
              t,
              u,
              record {
                window = s.window;
                first = closed t s.first;
                last = closed u s.last;
                between = λ v b q from to. each t u s closed v b q (s.between v b q from to);
              },
            )
      ]
    where
      each :
          (t u : ℕ)
          → Spans cli.debounce (polls (run_trace spec)) t u
          → ((t : ℕ) → Polled (t, false) (polls (run_trace spec)) → allowed cli state t ≡ false)
          → (v : ℕ) (b : Bool) → Polled (v, b) (polls (run_trace spec))
          → (v ≡ t) ⊎ ((v ≡ u) ⊎ (b ≡ false))
          → allowed cli state v ≡ false
      each t u s closed v b q (inl e) = rw e (closed t s.first)
      each t u s closed v b q (inr (inl e)) = rw e (closed u s.last)
      each t u s closed v true q (inr (inr e)) = absurd (ground (arith, e))
      each t u s closed v false q (inr (inr e)) = closed v q

-- On the operating system, where no wait, start or signal of it comes before it is asked for: where
-- the process of `condrun run` ends with 3, its supervisor escalated a second signal, or the flags did
-- not allow the network at two instants that are `--debounce` and more apart, nor at any poll of the
-- predicates between them.
pub main-three :
    (os : Os) (st : Streams) (rt : Runtime) (starts : ℕ → ℕ) (platform : Platform) (cli : Cli)
    (program : String) (args : List String) (state : NetworkState) (source : RealSignals st)
    (fuel now : ℕ)
    → IsRuntime rt
    → InTime os st
    → cli.command ≡ run (program ∷ args)
    → build_network_state platform cli ≡ ok state
    → main (real_seams os st rt starts) platform tt (ok source) fuel now (parsed cli) ≡ some 3
    → let trace =
        run_trace os st rt starts platform cli state source fuel now
          (record { program = program; args = args }) in
      (has_escalation trace ≡ true) ⊎ ((t u : ℕ) × Disallowed cli state trace t u)
unfolding main dispatch
main-three os st rt starts platform cli program args state source fuel now sane timely asked e q =
    let spec : CommandSpec = record { program = program; args = args } in
    three-Disallowed os st rt starts platform cli state source fuel now spec sane timely
      (done_code _ 3 (ground (arith, asked, e, q)) (omega arith))
