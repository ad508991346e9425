-- ===== src/Supervisor/Watchdog/Order.antt =====
-- The order of time in the evaluations of the trace: the watcher loop of src/supervisor.rs. Runs has
-- the whole run.
use condrun.Prelude.{
  ℕ, ◌≤◌, ◌≡◌, ◌⊎◌, ap, String, Bool, true, false, Option, none, some, List, [], ◌∷◌, arith,
}
use condrun.Predicate.{PredicateResult, pass, fail, evaluate}
use condrun.Signal.{SignalKind}
use condrun.Supervisor.{Seams, Supervisor}
use condrun.Supervisor.Exec.{evaluated, logged, info, flipped, Exec, ◌>>=◌, Sys, await}
use condrun.Supervisor.Run.{
  as_millis, Leave, WatchOutcome, exited, signal, tick, started_at, forward_signal, kill_child,
  act_on_fail, judge, call_evaluate, watch_select, handle_outcome, watch_round, watch,
}
use condrun.Supervisor.Post.{Post, bind-Post, always-Ends}
use condrun.Supervisor.Loop.{watch_loop, Continues}
use condrun.Supervisor.Trace.{await-trace, watch_select-trace}
use condrun.Supervisor.Clock.{IsCausal, await_later, forward_later, kill_later, select_later}
use condrun.Supervisor.Watchdog.{Poll, Descending}
use condrun.Supervisor.Watchdog.Refines.{polls, forward-Alike, kill-trace}
pub mod Runs

-- The evaluations of the trace are in the order of time, and none is later than now.
abbrev pub InOrder : {S : Type 0} → Sys S → Type 0
InOrder s = Descending ((s.now, true) ∷ polls s.trace)

abbrev pub Steady : {S A : Type 0} → A → Sys S → Type 0
Steady a s = InOrder s

later-Descending :
    (t t' : ℕ) (b b' : Bool) (ps : List Poll)
    → t ≤ t'
    → Descending ((t, b) ∷ ps)
    → Descending ((t', b') ∷ ps)
later-Descending t t' b b' [] le h = tt
later-Descending t t' b b' ((u, c) ∷ ps) le h = (omega arith, h.1)

pub keeps-InOrder :
    {S : Type 0} (s s' : Sys S)
    → polls s'.trace ≡ polls s.trace
    → s.now ≤ s'.now
    → InOrder s
    → InOrder s'
keeps-InOrder s s' e le h = rw e (later-Descending s.now s'.now true true (polls s.trace) le h)

pub polled-InOrder :
    {S : Type 0} (s : Sys S) (r : PredicateResult)
    → InOrder s
    → InOrder (record s { trace = evaluated s.now r ∷ s.trace })
polled-InOrder s pass h = (omega arith, h)
polled-InOrder s (fail r) h =
    (omega arith, later-Descending s.now s.now true false (polls s.trace) (omega arith) h)

module _ {S : Type 0} where
  abbrev pub Fine : Bool → Sys S → Type 0
  Fine b s = InOrder s

  -- A part that keeps the order, however it ends, and then the rest.
  pub steady_bind :
      {A B : Type 0} (R : B → Sys S → Type 0) (m : Exec S A) (f : A → Exec S B) (s : Sys S)
      → InOrder (m s).1
      → ((a : A) (s' : Sys S) → InOrder s' → Post Fine R (f a s'))
      → Post Fine R ((m >>= f) s)
  steady_bind R m f s h =
      bind-Post Fine Steady R m f s (always-Ends Fine Steady (m s).0 (m s).1 (λ _. h) (λ _. h))

module _ (w : Seams) (sup : Supervisor w) (causal : IsCausal w sup) where
  open w use {Child, Source}

  abbrev After : Leave ⊎ Option ℕ → Sys Source → Type 0
  After = Continues (λ _. InOrder) (λ _. InOrder)

  pub forward-InOrder :
      (c : Child) (sig : SignalKind) (grace : ℕ) (s : Sys Source)
      → InOrder s
      → InOrder (forward_signal w c sig grace s).1
  forward-InOrder c sig grace s =
      keeps-InOrder s (forward_signal w c sig grace s).1 (forward-Alike w c sig grace s).0
        (forward_later w sup causal c sig grace s)

  kill-InOrder :
      (c : Child) (grace : ℕ) (s : Sys Source) → InOrder s → InOrder (kill_child w c grace s).1
  kill-InOrder c grace s =
      keeps-InOrder s (kill_child w c grace s).1 (ap polls (kill-trace w c grace s))
        (kill_later w sup causal c grace s)

  select-InOrder :
      (c : Child) (s : Sys Source) → InOrder s → InOrder (watch_select w sup.config.poll c s).1
  select-InOrder c s =
      keeps-InOrder s (watch_select w sup.config.poll c s).1
        (ap polls (watch_select-trace w sup.config.poll c s))
        (select_later w sup causal sup.config.poll c s)

  evaluate-Post : (s : Sys Source) → InOrder s → Post Fine Steady (call_evaluate w sup s)
  unfolding call_evaluate
  evaluate-Post s h =
      let future = evaluate sup.predicate_set sup.state in
      let kept : InOrder (await future s).1 =
        keeps-InOrder s (await future s).1 (ap polls (await-trace future s))
          (await_later future s causal.evaluates) h in
      steady_bind Steady (await future) _ s kept (λ r s' k. polled-InOrder s' r k)

  act-Post :
      (c : Child) (reason : String) (started elapsed : ℕ) (b : Bool) (s : Sys Source)
      → InOrder s
      → Post Fine After (act_on_fail w sup.config c reason started elapsed b s)
  unfolding act_on_fail
  act-Post c reason started elapsed true s h =
      let s' : Sys Source = record s {
        trace =
            logged info (flipped reason (as_millis sup.config.debounce) (as_millis elapsed))
            ∷ s.trace;
      } in
      steady_bind After (kill_child w c sup.config.grace) _ s'
        (kill-InOrder c sup.config.grace s' h) (λ code s'' q. q)
  act-Post c reason started elapsed false s h = h

  judge-Post :
      (started : Option ℕ) (c : Child) (r : PredicateResult) (s : Sys Source)
      → InOrder s
      → Post Fine After (judge w sup.config started c r s)
  unfolding judge
  judge-Post none c pass s h = h
  judge-Post (some u) c pass s h = h
  judge-Post started c (fail reason) s h = act-Post c reason (started_at started s.now) _ _ s h

  handle-Post :
      (started : Option ℕ) (c : Child) (outcome : WatchOutcome) (s : Sys Source)
      → InOrder s
      → Post Fine After (handle_outcome w sup started c outcome s)
  unfolding handle_outcome
  handle-Post started c (exited status) s h = h
  handle-Post started c (signal sig) s h =
      steady_bind After (forward_signal w c sig sup.config.grace) _ s
        (forward-InOrder c sig sup.config.grace s h) (λ code s' q. q)
  handle-Post started c tick s h =
      bind-Post Fine Steady After (call_evaluate w sup) _ s (evaluate-Post s h)
        (λ r s' k. judge-Post started c r s' k)

  round-Post :
      (started : Option ℕ) (c : Child) (s : Sys Source)
      → InOrder s
      → Post Fine After (watch_round w sup started c s)
  unfolding watch_round
  round-Post started c s h =
      steady_bind After (watch_select w sup.config.poll c) _ s (select-InOrder c s h)
        (handle-Post started c)

  pub watch-Post :
      (fuel : ℕ) (c : Child) (s : Sys Source)
      → InOrder s
      → Post Fine Steady (watch w fuel sup none c s)
  watch-Post fuel c s h =
      watch_loop w sup c Fine (λ _ _. InOrder) Steady (λ _ _ k. k)
        (λ k started s' i. round-Post started c s' i) fuel none s h
