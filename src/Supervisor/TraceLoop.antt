-- ===== src/Supervisor/TraceLoop.antt =====
-- The rule for what the watcher loop leaves in the trace: one obligation for the forwarding of a
-- signal and one for the judgement of a poll.
use condrun.Prelude.{
  if◌then◌else◌, Bool, true, false, Bool-cases, none, some, inl, inr, [], arith, Option, ◌⊎◌, ℕ,
  String, ◌≡◌, refl, List, ◌∷◌,
}
use condrun.Predicate.{PredicateResult, pass, fail, evaluate}
use condrun.Process.{CommandSpec, ExitStatus, code, success}
use condrun.Signal.{SignalKind}
use condrun.Async.{Async}
use condrun.Supervisor.{Seams, Supervisor}
use condrun.Supervisor.Exec.{
  Event, evaluated, spawned, logged, info, error, child_exited, signal_in_preflight,
  preflight_failed_strict, preflight_failed, Sys, Flow, await, race,
}
use condrun.Supervisor.Run.{
  Leave, break_with, return_with, WatchOutcome, exited, signal, tick, handle_outcome,
  forward_signal, judge, call_evaluate, watch_select, watch_round, watch, simple_wait, after_wait,
  attend, leave_run, map_status, call_spawn, supervise, gate, after_preflight, run_task, run,
}
use condrun.Supervisor.Post.{Post, bind-Post, always-Ends, of-Ends}
use condrun.Supervisor.Loop.{watch_loop, Continues}
use condrun.Supervisor.Trace.{await-trace, race-trace, watch_select-trace}

-- `P` of the trace, however an action ends.
abbrev pub Traced : {S : Type 0} → (List Event → Type 0) → Bool → Sys S → Type 0
Traced P b s = P s.trace

pub either_way :
    {S A : Type 0} (P : List Event → Type 0) (r : Flow A × Sys S)
    → P r.1.trace
    → Post (Traced P) (λ _. Traced P false) r
either_way P r h = always-Ends (Traced P) (λ _. Traced P false) _ _ (λ _. h) (λ _. h)

-- A round that is over leaves `P`, or `I` with the timer of the next one.
abbrev pub Round :
    {S : Type 0}
    → (Option ℕ → List Event → Type 0)
    → (List Event → Type 0)
    → Leave ⊎ Option ℕ
    → Sys S
    → Type 0
Round I P = Continues (λ started s. I started s.trace) (λ _ s. P s.trace)

pub call_spawn-trace :
    (w : Seams) (sup : Supervisor w) (cmd : CommandSpec) (s : Sys w.Source)
    → (call_spawn w sup cmd s).1.trace ≡ spawned cmd ∷ s.trace
unfolding call_spawn
call_spawn-trace w sup cmd s = grind (arith, await-trace)

-- The traces of the runs that spawn nothing.
pub data Early : List Event → Type 0 where
  nothing : Early []
  interrupted : (sig : SignalKind) → Early (logged info (signal_in_preflight sig) ∷ [])
  refused :
      (t : ℕ) (r : String)
      → Early (logged error (preflight_failed_strict r) ∷ evaluated t (fail r) ∷ [])
  skipped :
      (t : ℕ) (r : String) → Early (logged info (preflight_failed r) ∷ evaluated t (fail r) ∷ [])

-- A verdict that an evaluation has come to at this instant.
abbrev pub Found : (w : Seams) → Supervisor w → ℕ → PredicateResult → Type 0
Found w sup t r = (u : ℕ) × (evaluate sup.predicate_set sup.state u ≡ some (t, r))

pub await_value :
    {S A : Type 0} (F : Bool → Sys S → Type 0) (future : ℕ → Async A) (s : Sys S)
    → F false s
    → Post F (λ a s'. (future s.now ≡ some (s'.now, a)) × (s'.trace ≡ s.trace)) (await future s)
unfolding await
await_value {A} F future s h = go (future s.now) refl
  where
    go :
        (o : Async A)
        → future s.now ≡ o
        → Post F (λ a s'. (future s.now ≡ some (s'.now, a)) × (s'.trace ≡ s.trace)) (await future s)
    go none e = rw (e, await) h
    go (some (t, a)) e = rw (e, await) (refl, refl)

module _ (w : Seams) (sup : Supervisor w) (I : Option ℕ → List Event → Type 0)
    (P : List Event → Type 0)
    (weaken : (started : Option ℕ) (es : List Event) → I started es → P es)
    (forwards : (c : w.Child) (sig : SignalKind) (s : Sys w.Source)
      → P s.trace
      → P (forward_signal w c sig sup.config.grace s).1.trace)
    (judges : (started : Option ℕ) (c : w.Child) (r : PredicateResult) (s : Sys w.Source)
        (es : List Event)
      → s.trace ≡ evaluated s.now r ∷ es
      → I started es
      → Found w sup s.now r
      → Post (Traced P) (Round I P) (judge w sup.config started c r s)) where
  open w use {Child, Source}

  abbrev Judged : Option ℕ → PredicateResult → Sys Source → Type 0
  Judged started r s =
      (es : List Event) × (s.trace ≡ evaluated s.now r ∷ es) × I started es × Found w sup s.now r

  evaluates :
      (started : Option ℕ) (s : Sys Source)
      → I started s.trace
      → Post (Traced P) (Judged started) (call_evaluate w sup s)
  unfolding call_evaluate
  evaluates started s h =
      let future = evaluate sup.predicate_set sup.state in
      bind-Post (Traced P) (λ r s'. (future s.now ≡ some (s'.now, r)) × (s'.trace ≡ s.trace))
        (Judged started) (await future) _ s (await_value (Traced P) future s (weaken started _ h))
        (λ r s' (e, t). (s'.trace, refl, rw t h, (s.now, e)))

  handles :
      (started : Option ℕ) (c : Child) (outcome : WatchOutcome) (s : Sys Source)
      → I started s.trace
      → Post (Traced P) (Round I P) (handle_outcome w sup started c outcome s)
  unfolding handle_outcome
  handles started c (exited status) s h = weaken started s.trace h
  handles started c (signal sig) s h =
      let kept = forwards c sig s (weaken started s.trace h) in
      bind-Post (Traced P) (λ _. Traced P false) (Round I P)
        (forward_signal w c sig sup.config.grace) _ s (either_way P _ kept) (λ code s' q. q)
  handles started c tick s h =
      bind-Post (Traced P) (Judged started) (Round I P) (call_evaluate w sup) _ s
        (evaluates started s h) (λ r s' (es, t, k, found). judges started c r s' es t k found)

  rounds :
      (started : Option ℕ) (c : Child) (s : Sys Source)
      → I started s.trace
      → Post (Traced P) (Round I P) (watch_round w sup started c s)
  unfolding watch_round
  rounds started c s h =
      let kept : I started (watch_select w sup.config.poll c s).1.trace = rw watch_select-trace h in
      bind-Post (Traced P) (λ _ s'. I started s'.trace) (Round I P)
        (watch_select w sup.config.poll c) _ s
        (always-Ends (Traced P) (λ _ s'. I started s'.trace) _ _ (λ _. weaken started _ kept)
          (λ _. kept))
        (handles started c)

  watch_traced :
      (fuel : ℕ) (started : Option ℕ) (c : Child) (s : Sys Source)
      → I started s.trace
      → P (watch w fuel sup started c s).1.trace
  watch_traced fuel started c s h = of-Ends (Traced P false) _ _ (
      watch_loop w sup c (Traced P) (λ _ st s'. I st s'.trace) (λ _. Traced P false)
        (λ st s' k. weaken st s'.trace k) (λ k st s' i. rounds st c s' i) fuel started s h)

  after_wait_traced :
      (c : Child) (first : (ExitStatus × Child) ⊎ SignalKind) (s : Sys Source)
      → P s.trace
      → Post (Traced P) (λ _. Traced P false) (after_wait w sup c first s)
  unfolding after_wait
  after_wait_traced c (inl (status, c')) s h = h
  after_wait_traced c (inr sig) s h =
      let kept = forwards c sig s h in
      bind-Post (Traced P) (λ _. Traced P false) (λ _. Traced P false)
        (forward_signal w c sig sup.config.grace) _ s (either_way P _ kept) (λ code s' q. q)

  simple_traced : (c : Child) (s : Sys Source) → P s.trace → P (simple_wait w sup c s).1.trace
  unfolding simple_wait
  simple_traced c s h =
      let future = w.child.wait c in
      let kept : P (race w.runtime w.signals future s).1.trace = rw race-trace h in
      of-Ends (Traced P false) _ _ (
        bind-Post (Traced P) (λ _. Traced P false) (λ _. Traced P false)
          (race w.runtime w.signals future) _ s (either_way P _ kept) (after_wait_traced c))

  attend_traced :
      (fuel : ℕ) (c : Child) (s : Sys Source) → I none s.trace → P (attend w fuel sup c s).1.trace
  unfolding attend
  attend_traced fuel c s h = both sup.config.kill_on_change
    where
      both : (b : Bool) → P ((if b then watch w fuel sup none c else simple_wait w sup c) s).1.trace
      both true = watch_traced fuel none c s h
      both false = simple_traced c s (weaken none s.trace h)

  module _ (cmd : CommandSpec) (early : (es : List Event) → Early es → P es)
      (enters : (t : ℕ) → I none (spawned cmd ∷ evaluated t pass ∷ []))
      (closes : (code : Option ℕ) (es : List Event)
        → P es
        → P (logged error (child_exited code) ∷ es)) where
    leaves :
        (leave : Leave) (s : Sys Source)
        → P s.trace
        → Post (Traced P) (λ _. Traced P false) (leave_run w leave s)
    unfolding leave_run map_status
    leaves (return_with c) s h = h
    leaves (break_with status) s h = elim (Bool-cases (success status)) [
      | inl ok ↦ rw ok h
      | inr bad ↦ rw bad (closes (code status) s.trace h)
    ]

    supervise_traced :
        (fuel : ℕ) (t : ℕ) (s : Sys Source)
        → s.trace ≡ evaluated t pass ∷ []
        → P (supervise w fuel sup cmd s).1.trace
    unfolding supervise
    supervise_traced fuel t s e =
        let ready : I none (call_spawn w sup cmd s).1.trace =
          rw (call_spawn-trace w sup cmd s, e) (enters t) in
        of-Ends (Traced P false) _ _ (
          bind-Post (Traced P) (λ _ s'. I none s'.trace) (λ _. Traced P false)
            (call_spawn w sup cmd) _ s
            (always-Ends (Traced P) (λ _ s'. I none s'.trace) _ _ (λ _. weaken none _ ready)
              (λ _. ready))
            (λ c s' k.
              let kept = attend_traced fuel c s' k in
              bind-Post (Traced P) (λ _. Traced P false) (λ _. Traced P false) (attend w fuel sup c)
                _ s' (either_way P _ kept) leaves))

    gate_traced :
        (fuel : ℕ) (first : PredicateResult ⊎ SignalKind) (s : Sys Source)
        → s.trace ≡ []
        → P (after_preflight w fuel sup cmd first s).1.trace
    unfolding after_preflight gate
    gate_traced fuel (inr sig) s e = rw e (early _ (interrupted sig))
    gate_traced fuel (inl pass) s e = supervise_traced fuel s.now _ (rw e refl)
    gate_traced fuel (inl (fail r)) s e = elim (Bool-cases sup.config.strict) [
      | inl strict ↦ rw (strict, e) (early _ (refused s.now r))
      | inr lenient ↦ rw (lenient, e) (early _ (skipped s.now r))
    ]

    pub run_traced : (fuel now : ℕ) → P (run w fuel sup cmd now).1.trace
    unfolding run run_task
    run_traced fuel now =
        let s : Sys Source = record { now = now; selects = 0; signals = sup.signals; trace = [] } in
        let future = evaluate sup.predicate_set sup.state in
        let kept : (race w.runtime w.signals future s).1.trace ≡ [] = race-trace _ _ _ s in
        of-Ends (Traced P false) _ _ (
          bind-Post (Traced P) (λ _ s'. s'.trace ≡ []) (λ _. Traced P false)
            (race w.runtime w.signals future) _ s
            (always-Ends (Traced P) (λ _ s'. s'.trace ≡ []) _ _ (λ _. rw kept (early _ nothing))
              (λ _. kept))
            (λ first s' k. let done_well = gate_traced fuel first s' k in either_way P _ done_well))
