-- ===== src/Supervisor/Interrupt/Examples.antt =====
-- src/supervisor.rs: Ctrl-C has been hit when the run starts, the network is allowed, and the draw of the
-- pre-flight tries the predicates first.
use condrun.Prelude.{ℕ, ◌≤◌, ◌≡◌, refl, Option, none, some, [], ◌∷◌, arith, leb, if◌then◌else◌}
use condrun.Async.{ok}
use condrun.State.Fake.{fake_state, state_at, set_expensive}
use condrun.Predicate.{PredicateResult, pass, fail, evaluate, evaluate_and}
use condrun.Predicate.Metered.{reject_expensive}
use condrun.Signal.{SignalKind, interrupt}
use condrun.Supervisor.{Supervisor}
use condrun.Supervisor.Exec.{info, forwarding, evaluated, spawned, forwarded, logged}
use condrun.Supervisor.Run.{run}
use condrun.Supervisor.Clock.{IsCausal}
use condrun.Supervisor.Examples.{signalled, signalled_supervisor, cmd, reason, ideal-IsRuntime}
use condrun.Supervisor.Interrupt.{opening, Pending}
use condrun.Supervisor.Interrupt.Preflight.{run-Answered}

-- The child would end by itself at 2.
abbrev hit_early : Supervisor signalled
hit_early = signalled_supervisor (some (0, interrupt)) reject_expensive

allows :
    (t : ℕ)
    → evaluate hit_early.predicate_set hit_early.state t
      ≡ some (t, if leb 5 t then fail reason else pass)
unfolding evaluate evaluate_and fake_state state_at set_expensive
allows t = ground arith

evaluates_later :
    (now t : ℕ) (r : PredicateResult)
    → evaluate hit_early.predicate_set hit_early.state now ≡ some (t, r)
    → now ≤ t
evaluates_later now t r e = let a = allows now in ground (arith, e, a)

comes_later :
    (source : Option (ℕ × SignalKind)) (now t : ℕ) (a : SignalKind × Option (ℕ × SignalKind))
    → signalled.signals.next source now ≡ some (t, a)
    → now ≤ t
comes_later none now t a e = absurd (cc)
comes_later (some (u, kind)) now t a e = ground (arith, e)

hit_early-IsCausal : IsCausal signalled hit_early
hit_early-IsCausal = record {
  sane = ideal-IsRuntime;
  waits = λ c now t a e. ground (arith, e);
  terminates = λ c grace now t a e. ground (arith, e);
  signals = λ c sig now t a e. ground (arith, e);
  spawns = λ command now t a e. ground (arith, e);
  comes = comes_later;
  evaluates = evaluates_later;
}

hit_early-Pending : Pending signalled.signals hit_early.signals 0 interrupt
hit_early-Pending u late = (none, ground (arith, late))

run-Answered_example :
    opening (run signalled 1 hit_early cmd 0).1.trace
    ≡ forwarded interrupt ∷ logged info (forwarding interrupt) ∷ spawned cmd ∷ evaluated 0 pass ∷ []
unfolding evaluate evaluate_and fake_state state_at set_expensive
run-Answered_example =
    run-Answered signalled 0 hit_early cmd 0 0 interrupt 2 (ok 2) hit_early-IsCausal
      hit_early-Pending refl refl
