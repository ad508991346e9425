-- ===== src/Supervisor/Meanings.antt =====
-- What each exit code of src/supervisor.rs stands for in the trace of the run. Leaves is about the part
-- with the child.
pub mod Leaves
use mathlib.Core.Path.{subst}
use condrun.Prelude.{
  ℕ, ◌<◌, ◌≡◌, refl, ap, ◌⊎◌, inl, inr, Bool, Bool-cases, true, false, String, List, [], ◌∷◌,
}
use condrun.Predicate.{PredicateResult, pass, fail, evaluate}
use condrun.Process.{CommandSpec, ExitStatus, success, code}
use condrun.Signal.{SignalKind}
use condrun.Supervisor.{Seams, Supervisor}
use condrun.Supervisor.Exec.{
  Event, evaluated, logged, error, child_exited, preflight_failed_strict, Flow, done, failed,
  pending, spent, Sys, race,
}
use condrun.Supervisor.Run.{
  Leave, break_with, return_with, attend, map_status, leave_run, call_spawn, supervise, gate,
  after_preflight, run_task, run,
}
use condrun.Supervisor.Post.{Ends, Post, bind-Post, always-Ends}
use condrun.Supervisor.Codes.{flow_code, kills, run_code}
use condrun.Supervisor.Trace.{terminations, forwards, race-trace}
use condrun.Supervisor.TraceLoop.{call_spawn-trace}
use condrun.Supervisor.Meanings.Leaves.{
  reports, Whatever, Unreported, unreported, LeftBy, attend-LeftBy,
}

-- What stands behind an exit code: a strict run that refused to start; a child that failed, by its
-- status in the last log line, the only one of its kind; a child that failed after a signal was
-- forwarded to it, whose status no line has; or a kill.
pub data Means (strict : Bool) (es : List Event) (exit_code : ℕ) : Type 0 where
  succeeded : exit_code ≡ 0 → Means strict es exit_code
  refused :
      (t : ℕ) (reason : String)
      → exit_code ≡ 1
      → strict ≡ true
      → es ≡ logged error (preflight_failed_strict reason) ∷ evaluated t (fail reason) ∷ []
      → Means strict es exit_code
  child_failed :
      (status : ExitStatus) (rest : List Event)
      → exit_code ≡ 2
      → success status ≡ false
      → es ≡ logged error (child_exited (code status)) ∷ rest
      → reports rest ≡ 0
      → Means strict es exit_code
  failed_after_signal : exit_code ≡ 2 → 0 < forwards es → reports es ≡ 0 → Means strict es exit_code
  killed : exit_code ≡ 3 → Means strict es exit_code

module _ (w : Seams) (sup : Supervisor w) where
  open w use {Child, Source, child, runtime}

  abbrev Meant : ℕ → Sys Source → Type 0
  Meant c s = Means sup.config.strict s.trace c

  leave-Meant :
      (leave : Leave) (s : Sys Source) → LeftBy leave s → Post Whatever Meant (leave_run w leave s)
  unfolding leave_run map_status
  leave-Meant (return_with c) s (inl e) = Means.killed e
  leave-Meant (return_with c) s (inr (inl e)) = Means.succeeded e
  leave-Meant (return_with c) s (inr (inr (e, h, u))) = Means.failed_after_signal e h u
  leave-Meant (break_with status) s h = elim (Bool-cases (success status)) [
    | inl well ↦ rw well (Means.succeeded refl)
    | inr bad ↦ rw bad (Means.child_failed status s.trace refl bad refl h)
  ]

  supervise-Meant :
      (fuel : ℕ) (cmd : CommandSpec) (s : Sys Source)
      → Unreported s
      → Post Whatever Meant (supervise w fuel sup cmd s)
  unfolding supervise
  supervise-Meant fuel cmd s u =
      bind-Post Whatever (λ _. Unreported) Meant (call_spawn w sup cmd) _ s
        (unreported _ (rw (call_spawn-trace w sup cmd s) u))
        (λ c s' h.
          bind-Post Whatever LeftBy Meant (attend w fuel sup c) _ s'
            (attend-LeftBy w sup fuel c s' h) leave-Meant)

  gate-Meant :
      (fuel : ℕ) (cmd : CommandSpec) (first : PredicateResult ⊎ SignalKind) (s : Sys Source)
      → s.trace ≡ []
      → Post Whatever Meant (after_preflight w fuel sup cmd first s)
  unfolding after_preflight gate
  gate-Meant fuel cmd (inr sig) s e = Means.succeeded refl
  gate-Meant fuel cmd (inl pass) s e = supervise-Meant fuel cmd _ (ap reports e)
  gate-Meant fuel cmd (inl (fail reason)) s e = elim (Bool-cases sup.config.strict) [
    | inl strict ↦ rw strict (Means.refused s.now reason refl refl (rw e refl))
    | inr lenient ↦ rw lenient (Means.succeeded refl)
  ]

  run-Meant :
      (fuel : ℕ) (cmd : CommandSpec) (now : ℕ) → Post Whatever Meant (run w fuel sup cmd now)
  unfolding run run_task
  run-Meant fuel cmd now =
      let s : Sys Source = record { now = now; selects = 0; signals = sup.signals; trace = [] } in
      let future = evaluate sup.predicate_set sup.state in
      bind-Post Whatever (λ _ s'. s'.trace ≡ []) Meant (race runtime w.signals future) _ s
        (always-Ends Whatever (λ _ s'. s'.trace ≡ []) _ _ (λ _. tt)
          (λ _. race-trace runtime w.signals future s))
        (gate-Meant fuel cmd)

-- Whatever the child, the signals and the network do: a run that ends with a code has called
-- `terminate` once if the code is 3 and never otherwise. The code is 0, 1, 2 or 3. With 1 the run is
-- strict, and all it did was to evaluate predicates that failed and to log the refusal; with 2 it
-- has last logged the status of a child, which is not a success, for the only time, or it has
-- forwarded a signal and logged no status at all.
pub run-Means :
    (w : Seams) (fuel : ℕ) (sup : Supervisor w) (cmd : CommandSpec) (now exit_code : ℕ)
    → (run w fuel sup cmd now).0 ≡ done exit_code
    → (terminations (run w fuel sup cmd now).1.trace ≡ kills exit_code)
      × Means sup.config.strict (run w fuel sup cmd now).1.trace exit_code
run-Means w fuel sup cmd now exit_code e = (
  (run_code w fuel sup cmd now {code = exit_code} e).1,
  of_done (run w fuel sup cmd now).0 (run w fuel sup cmd now).1 (run-Meant w sup fuel cmd now) e,
)
  where
    of_done :
        (r : Flow ℕ) (s : Sys w.Source)
        → Ends Whatever (Meant w sup) r s
        → r ≡ done exit_code
        → Means sup.config.strict s.trace exit_code
    of_done (done c) s h q =
        subst (λ (n : ℕ). Means sup.config.strict s.trace n) (ap (flow_code (λ (n : ℕ). n)) q) h
    of_done (failed m) s h q = absurd (cc)
    of_done pending s h q = absurd (cc)
    of_done spent s h q = absurd (cc)
