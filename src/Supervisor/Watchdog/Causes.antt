-- ===== src/Supervisor/Watchdog/Causes.antt =====
-- What stands behind exit code 3 of a run of src/supervisor.rs.
use condrun.Prelude.{ℕ, ◌<◌, ◌≡◌, ◌⊎◌, inl, inr, Bool, true, false, List, [], ◌∷◌, arith}
use condrun.Process.{CommandSpec}
use condrun.Supervisor.{Seams, Supervisor}
use condrun.Supervisor.Exec.{
  Event, evaluated, spawned, forwarded, logged, info, escalating, terminated, done,
}
use condrun.Supervisor.Run.{run}
use condrun.Supervisor.Codes.{run_code}
use condrun.Supervisor.Debounce.{justified, is_decision, run-justified}
use condrun.Supervisor.Gate.{code-spawns}
use condrun.Supervisor.Clock.{IsCausal}
use condrun.Supervisor.Trace.{terminations}
use condrun.Supervisor.Watchdog.{EverOverdue}
use condrun.Supervisor.Watchdog.Refines.{polls, has_flip}
use condrun.Supervisor.Watchdog.Flips.{run_flips_iff}

-- A second signal was escalated.
abbrev pub has_escalation : List Event → Bool
has_escalation [] = false
has_escalation (logged info (escalating k) ∷ es) = true
has_escalation (_ ∷ es) = has_escalation es

abbrev Caused : List Event → Type 0
Caused es = (has_flip es ≡ true) ⊎ (has_escalation es ≡ true)

decided-Caused : (es : List Event) → is_decision es ≡ true → Caused es
decided-Caused es h = ground arith

older-Caused : (e : Event) (es : List Event) → Caused es → Caused (e ∷ es)
older-Caused e es (inl h) = ground arith
older-Caused e es (inr h) = ground arith

justified-Caused :
    (d : ℕ) (es : List Event) → justified d es ≡ true → 0 < terminations es → Caused es
justified-Caused d [] j h = absurd (omega arith)
justified-Caused d (terminated g ∷ es) j h = decided-Caused es (ground (arith, j))
justified-Caused d (evaluated t r ∷ es) j h =
    older-Caused (evaluated t r) es (justified-Caused d es j h)
justified-Caused d (spawned c ∷ es) j h = older-Caused (spawned c) es (justified-Caused d es j h)
justified-Caused d (forwarded k ∷ es) j h =
    older-Caused (forwarded k) es (justified-Caused d es j h)
justified-Caused d (logged l m ∷ es) j h =
    older-Caused (logged l m) es (justified-Caused d es (ground (arith, j)) h)

-- Where no future resolves before it is started: a run that ends with 3 has escalated a second
-- signal, or at some evaluation in it the predicates had failed for the debounce window and more,
-- without a pass in between.
pub run_three :
    (w : Seams) (fuel : ℕ) (sup : Supervisor w) (cmd : CommandSpec) (now : ℕ)
    → IsCausal w sup
    → (run w fuel sup cmd now).0 ≡ done 3
    → let trace = (run w fuel sup cmd now).1.trace in
      (has_escalation trace ≡ true) ⊎ EverOverdue sup.config.debounce (polls trace)
run_three w fuel sup cmd now causal e =
    let trace = (run w fuel sup cmd now).1.trace in
    let (le, once) = run_code w fuel sup cmd now {code = 3} e in
    let killed : 0 < terminations trace = rw once (omega arith) in
    let spawned_it = code-spawns w fuel sup cmd now {code = 3} e (omega arith) in
    elim (justified-Caused sup.config.debounce trace (run-justified w fuel sup cmd now) killed) [
      | inl flip ↦ inr ((run_flips_iff w fuel sup cmd now causal spawned_it).0 flip)
      | inr second ↦ inl second
    ]
