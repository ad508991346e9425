-- ===== src/Supervisor/Debounce.antt =====
-- The debounce of the watcher loop of src/supervisor.rs, read off the trace: the decisions to kill and
-- to wait, and the history of the evaluations behind them.
use condrun.Prelude.{
  ℕ, ◌-◌, ◌≡◌, refl, sym, ◌∙◌, String, Bool, true, false, ◌&&◌, Option, none, some, ◌⊎◌, List, [],
  ◌∷◌, arith, ltb, leb, ◌==◌,
}
use condrun.Predicate.{PredicateResult, pass, fail}
use condrun.Signal.{SignalKind}
use condrun.Process.{CommandSpec}
use condrun.Supervisor.{Seams, SupervisorConfig, Supervisor}
use condrun.Supervisor.Exec.{
  Event, evaluated, terminated, logged, flipped, within_debounce, escalating, debug, info, Sys,
}
use condrun.Supervisor.Run.{
  as_millis, Leave, started_at, wait_with_escalation, forward_signal, kill_child, act_on_fail,
  judge, run, call_terminate,
}
use condrun.Supervisor.Post.{Post, bind-Post}
use condrun.Supervisor.TraceLoop.{
  Traced, Round, Early, nothing, interrupted, refused, skipped, either_way, run_traced,
}
use condrun.Supervisor.Trace.{await-trace, race-trace}

-- The instant of the first evaluation in the unbroken row of failing ones that ends the trace.
abbrev pub failing_since : List Event → Option ℕ
failing_since [] = none
failing_since (evaluated t pass ∷ es) = none
failing_since (evaluated t (fail r) ∷ es) = some (started_at (failing_since es) t)
failing_since (_ ∷ es) = failing_since es

-- How long that row is, where the trace ends with a failing evaluation.
abbrev pub failing_for : List Event → Option ℕ
failing_for (evaluated t (fail r) ∷ es) = some (t - started_at (failing_since es) t)
failing_for _ = none

-- The fields `debounce_ms` and `elapsed_ms` of a line about a row of this length.
abbrev states : ℕ → ℕ → ℕ → ℕ → Bool
states debounce row debounce_ms elapsed_ms =
    debounce_ms == as_millis debounce && elapsed_ms == as_millis row

-- The row lasts at least as long as `debounce`, or less, and the line states both.
abbrev is_over : ℕ → Option ℕ → ℕ → ℕ → Bool
is_over debounce none d e = false
is_over debounce (some row) d e = leb debounce row && states debounce row d e

abbrev is_within : ℕ → Option ℕ → ℕ → ℕ → Bool
is_within debounce none d e = false
is_within debounce (some row) d e = ltb row debounce && states debounce row d e

-- The trace ends with the decision to kill for a flip, or to escalate a second signal.
abbrev pub is_decision : List Event → Bool
is_decision (logged info (flipped r d e) ∷ es) = true
is_decision (logged info (escalating k) ∷ es) = true
is_decision _ = false

-- Each flip was logged after failing evaluations over at least `debounce`, each wait after less;
-- each call of `terminate` directly follows a decision to make it.
abbrev pub justified : ℕ → List Event → Bool
justified debounce [] = true
justified debounce (logged info (flipped r d e) ∷ es) =
    justified debounce es && is_over debounce (failing_for es) d e
justified debounce (logged debug (within_debounce r d e) ∷ es) =
    justified debounce es && is_within debounce (failing_for es) d e
justified debounce (terminated g ∷ es) = justified debounce es && is_decision es
justified debounce (_ ∷ es) = justified debounce es

-- What the loop knows between two rounds: its timer is a function of the history.
abbrev InStep : ℕ → Option ℕ → List Event → Type 0
InStep debounce started es = (started ≡ failing_since es) × (justified debounce es ≡ true)

abbrev Justified : ℕ → List Event → Type 0
Justified debounce es = justified debounce es ≡ true

early-Justified : (debounce : ℕ) (es : List Event) → Early es → Justified debounce es
early-Justified debounce es nothing = refl
early-Justified debounce es (interrupted sig) = refl
early-Justified debounce es (refused t r) = refl
early-Justified debounce es (skipped t r) = refl

module _ (w : Seams) (debounce : ℕ) where
  open w use {Child, Source}

  escalation-justified :
      (c : Child) (grace : ℕ) (s : Sys Source)
      → justified debounce (wait_with_escalation w c grace s).1.trace ≡ justified debounce s.trace
  unfolding wait_with_escalation call_terminate
  escalation-justified c grace s = grind (arith, race-trace, await-trace)

  forward-justified :
      (c : Child) (sig : SignalKind) (grace : ℕ) (s : Sys Source)
      → justified debounce (forward_signal w c sig grace s).1.trace ≡ justified debounce s.trace
  unfolding forward_signal
  forward-justified c sig grace s = grind (arith, escalation-justified, await-trace)

  kill-justified :
      (c : Child) (grace : ℕ) (s : Sys Source)
      → is_decision s.trace ≡ true
      → justified debounce (kill_child w c grace s).1.trace ≡ justified debounce s.trace
  unfolding kill_child call_terminate
  kill-justified c grace s h = grind (arith, await-trace)

  abbrev After : Leave ⊎ Option ℕ → Sys Source → Type 0
  After = Round (InStep debounce) (Justified debounce)

  module _ (config : SupervisorConfig) (same : config.debounce ≡ debounce) where
    act-Post :
        (c : Child) (reason : String) (started elapsed : ℕ) (b : Bool) (s : Sys Source)
        → failing_for s.trace ≡ some elapsed
        → failing_since s.trace ≡ some started
        → leb debounce elapsed ≡ b
        → justified debounce s.trace ≡ true
        → Post
            (Traced (Justified debounce))
            After
            (act_on_fail w config c reason started elapsed b s)
    unfolding act_on_fail
    act-Post c reason started elapsed true s row since due h =
        let s' : Sys Source = record s {
          trace =
              logged info (flipped reason (as_millis config.debounce) (as_millis elapsed))
              ∷ s.trace;
        } in
        let decided : justified debounce s'.trace ≡ true = ground (arith, row) in
        let fine = kill-justified c config.grace s' refl ∙ decided in
        bind-Post (Traced (Justified debounce)) (λ _. Traced (Justified debounce) false) After
          (kill_child w c config.grace) _ s' (either_way (Justified debounce) _ fine)
          (λ code s'' q. q)
    act-Post c reason started elapsed false s row since due h = (sym since, ground (arith, row))

    judge-Post :
        (started : Option ℕ) (c : Child) (r : PredicateResult) (s : Sys Source) (es : List Event)
        → s.trace ≡ evaluated s.now r ∷ es
        → InStep debounce started es
        → Post (Traced (Justified debounce)) After (judge w config started c r s)
    unfolding judge
    judge-Post none c pass s es t (e, h) = (rw t, rw t h)
    judge-Post (some u) c pass s es t (e, h) = (rw t, rw t h)
    judge-Post started c (fail reason) s es t (e, h) =
        act-Post c reason (started_at started s.now) _ _ s (rw (t, e)) (rw (t, e)) (rw same)
          (rw t h)

-- In every run the watcher's log agrees with the history: each `flipped` directly follows a failing
-- evaluation that ends an unbroken row of failing ones over at least the debounce window, each
-- `within_debounce` one whose row is shorter, and both state the window and the length of that row
-- as `as_millis` gives them, in whole milliseconds cut to 64 bits, while the decision between the two
-- is by the uncut durations. `terminate` is called only directly after a flip or after the escalation
-- of a second signal.
pub run-justified :
    (w : Seams) (fuel : ℕ) (sup : Supervisor w) (cmd : CommandSpec) (now : ℕ)
    → justified sup.config.debounce (run w fuel sup cmd now).1.trace ≡ true
run-justified w fuel sup cmd now =
    let d = sup.config.debounce in
    run_traced w sup (InStep d) (Justified d) (λ started es k. k.1)
      (λ c sig s h. forward-justified w d c sig sup.config.grace s ∙ h)
      (λ started c r s es t k _. judge-Post w d sup.config refl started c r s es t k) cmd
      (early-Justified d) (λ t. (refl, refl)) (λ code es h. h) fuel now
