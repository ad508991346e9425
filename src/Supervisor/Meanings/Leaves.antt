-- ===== src/Supervisor/Meanings/Leaves.antt =====
-- How src/supervisor.rs leaves the part of the run that attends to the child.
use condrun.Prelude.{
  ℕ, ◌+◌, ◌<◌, ◌≡◌, ◌⊎◌, inl, inr, Bool, true, false, Option, none, some, String, List, [], ◌∷◌,
  arith, if◌then◌else◌,
}
use condrun.Predicate.{PredicateResult, pass, fail}
use condrun.Process.{ExitStatus}
use condrun.Signal.{SignalKind}
use condrun.Supervisor.{Seams, Supervisor}
use condrun.Supervisor.Exec.{Event, logged, error, child_exited, Flow, Sys, await, race}
use condrun.Supervisor.Run.{
  Leave, break_with, return_with, WatchOutcome, exited, signal, tick, started_at,
  wait_with_escalation, forward_signal, call_terminate, kill_child, act_on_fail, judge,
  call_evaluate, watch_select, handle_outcome, watch_round, watch, simple_wait, after_wait, attend,
}
use condrun.Supervisor.Post.{Post, bind-Post, always-Ends}
use condrun.Supervisor.Loop.{watch_loop, Continues}
use condrun.Supervisor.Trace.{forwards, race-trace, await-trace, watch_select-trace}

-- How often the trace has the log line with the status of a child.
abbrev pub reports : List Event → ℕ
reports [] = 0
reports (logged error (child_exited n) ∷ es) = reports es + 1
reports (_ ∷ es) = reports es

abbrev pub Whatever : {S : Type 0} → Bool → Sys S → Type 0
Whatever b s = Unit {0}

pub any_end : {S A : Type 0} (r : Flow A × Sys S) → Post Whatever (λ _ _. Unit {0}) r
any_end r = always-Ends Whatever (λ _ _. Unit {0}) r.0 r.1 (λ _. tt) (λ _. tt)

abbrev pub Unreported : {S : Type 0} → Sys S → Type 0
Unreported s = reports s.trace ≡ 0

pub unreported :
    {S A : Type 0} (r : Flow A × Sys S) → Unreported r.1 → Post Whatever (λ _. Unreported) r
unreported r u = always-Ends Whatever (λ _. Unreported) r.0 r.1 (λ _. tt) (λ _. u)

-- The code of a run that is left by `return`.
abbrev pub Returned : {S : Type 0} → ℕ → Sys S → Type 0
Returned c s = (c ≡ 3) ⊎ ((c ≡ 0) ⊎ ((c ≡ 2) × (0 < forwards s.trace) × Unreported s))

abbrev pub LeftBy : {S : Type 0} → Leave → Sys S → Type 0
LeftBy (return_with c) s = Returned c s
LeftBy (break_with status) s = Unreported s

module _ (w : Seams) (sup : Supervisor w) where
  open w use {Child, Source, child, runtime}

  abbrev After : Leave ⊎ Option ℕ → Sys Source → Type 0
  After = Continues (λ _ s. Unreported s) LeftBy

  forward-Returned :
      (c : Child) (sig : SignalKind) (grace : ℕ) (s : Sys Source)
      → Unreported s
      → Post Whatever Returned (forward_signal w c sig grace s)
  unfolding forward_signal wait_with_escalation call_terminate
  forward-Returned c sig grace s h = grind (arith, race-trace, await-trace, h)

  kill-Returned :
      (c : Child) (grace : ℕ) (s : Sys Source) → Post Whatever Returned (kill_child w c grace s)
  unfolding kill_child call_terminate await
  kill-Returned c grace s = ground arith

  act-After :
      (c : Child) (reason : String) (started elapsed : ℕ) (b : Bool) (s : Sys Source)
      → Unreported s
      → Post Whatever After (act_on_fail w sup.config c reason started elapsed b s)
  unfolding act_on_fail
  act-After c reason started elapsed true s u =
      bind-Post Whatever Returned After (kill_child w c sup.config.grace) _ _
        (kill-Returned c sup.config.grace _) (λ code s' h. h)
  act-After c reason started elapsed false s u = u

  judge-After :
      (started : Option ℕ) (c : Child) (r : PredicateResult) (s : Sys Source)
      → Unreported s
      → Post Whatever After (judge w sup.config started c r s)
  unfolding judge
  judge-After none c pass s u = u
  judge-After (some f) c pass s u = u
  judge-After started c (fail reason) s u = act-After c reason (started_at started s.now) _ _ s u

  evaluate-Unreported : (s : Sys Source) → Unreported s → Unreported (call_evaluate w sup s).1
  unfolding call_evaluate
  evaluate-Unreported s u = grind (arith, await-trace, u)

  handle-After :
      (started : Option ℕ) (c : Child) (outcome : WatchOutcome) (s : Sys Source)
      → Unreported s
      → Post Whatever After (handle_outcome w sup started c outcome s)
  unfolding handle_outcome
  handle-After started c (exited status) s u = u
  handle-After started c (signal sig) s u =
      bind-Post Whatever Returned After (forward_signal w c sig sup.config.grace) _ s
        (forward-Returned c sig sup.config.grace s u) (λ code s' h. h)
  handle-After started c tick s u =
      bind-Post Whatever (λ _. Unreported) After (call_evaluate w sup) _ s
        (unreported _ (evaluate-Unreported s u)) (λ r s' h. judge-After started c r s' h)

  round-After :
      (started : Option ℕ) (c : Child) (s : Sys Source)
      → Unreported s
      → Post Whatever After (watch_round w sup started c s)
  unfolding watch_round
  round-After started c s u =
      bind-Post Whatever (λ _. Unreported) After (watch_select w sup.config.poll c) _ s
        (unreported _ (rw (watch_select-trace w sup.config.poll c s) u))
        (λ outcome s' h. handle-After started c outcome s' h)

  simple-LeftBy :
      (c : Child) (s : Sys Source) → Unreported s → Post Whatever LeftBy (simple_wait w sup c s)
  unfolding simple_wait after_wait
  simple-LeftBy c s u =
      bind-Post Whatever (λ _. Unreported) LeftBy (race runtime w.signals (child.wait c)) _ s
        (unreported _ (rw (race-trace runtime w.signals (child.wait c) s) u)) either
    where
      either :
          (first : (ExitStatus × Child) ⊎ SignalKind) (s' : Sys Source)
          → Unreported s'
          → Post Whatever LeftBy (after_wait w sup c first s')
      either (inl (status, c')) s' h = h
      either (inr sig) s' h =
          bind-Post Whatever Returned LeftBy (forward_signal w c sig sup.config.grace) _ s'
            (forward-Returned c sig sup.config.grace s' h) (λ code s'' k. k)

  pub attend-LeftBy :
      (fuel : ℕ) (c : Child) (s : Sys Source)
      → Unreported s
      → Post Whatever LeftBy (attend w fuel sup c s)
  unfolding attend
  attend-LeftBy fuel c s u = both sup.config.kill_on_change
    where
      both :
          (b : Bool)
          → Post Whatever LeftBy ((if b then watch w fuel sup none c else simple_wait w sup c) s)
      both true =
          watch_loop w sup c Whatever (λ _ _ s'. Unreported s') LeftBy (λ _ _ _. tt)
            (λ k started s' i. round-After started c s' i) fuel none s u
      both false = simple-LeftBy c s u
