-- ===== src/Supervisor/Reaped/Runs.antt =====
-- src/supervisor.rs: the end of the child from the watcher loop up to the exit code.
use condrun.Prelude.{
  ℕ, ◌+◌, ◌≡◌, refl, ◌⊎◌, inl, inr, Bool, Bool-cases, true, false, Option, none, some, String,
  if◌then◌else◌,
}
use condrun.Async.{Async, sleep, select_biased_three}
use condrun.Async.Select.{first_value}
use condrun.Predicate.{PredicateResult, pass, fail}
use condrun.Process.{ExitStatus, success}
use condrun.Signal.{SignalKind}
use condrun.Supervisor.{Seams, Supervisor}
use condrun.Supervisor.Exec.{Sys, race}
use condrun.Supervisor.Run.{
  Leave, break_with, return_with, WatchOutcome, exited, signal, tick, started_at, forward_signal,
  kill_child, act_on_fail, judge, call_evaluate, watch_select, handle_outcome, watch_round, watch,
  simple_wait, after_wait, attend, map_status, leave_run,
}
use condrun.Supervisor.Post.{Post, bind-Post}
use condrun.Supervisor.Loop.{watch_loop, Continues}
use condrun.Supervisor.Meanings.Leaves.{Whatever, any_end}
use condrun.Supervisor.Reaped.{
  untouched, Reaped, reaped, Told, Resolved, ready-Resolved, race_arm, forwards-Told, kills-Told,
}

module _ (w : Seams) (c : w.Child) where
  open w use {Child, Source, child, runtime, signals}

  -- How the child is left: by a status that a `wait` gave, or with a code.
  abbrev pub Ended : Leave → Sys Source → Type 0
  Ended (return_with exit_code) s = Told w c exit_code s
  Ended (break_with status) s = (r : Reaped w c s.now) × (r.status ≡ status)

  abbrev After : Leave ⊎ Option ℕ → Sys Source → Type 0
  After = Continues (λ _ _. Unit {0}) Ended

  -- An exit in a round is one that the round's `wait` gave.
  abbrev Seen : WatchOutcome → Sys Source → Type 0
  Seen (exited status) s = (r : Reaped w c s.now) × (r.status ≡ status)
  Seen _ s = Unit {0}

  selects-Seen : (poll : ℕ) (s : Sys Source) → Post Whatever Seen (watch_select w poll c s)
  unfolding watch_select reaped
  selects-Seen poll s =
      go
        (select_biased_three runtime (child.wait c s.now) (signals.next s.signals s.now)
          (sleep poll s.now))
        refl
    where
      go :
          (o : Async ((ExitStatus × Child) ⊎ ((SignalKind × Source) ⊎ Unit {0})))
          → select_biased_three runtime
              (child.wait c s.now)
              (signals.next s.signals s.now)
              (sleep poll s.now)
            ≡ o
          → Post Whatever Seen (watch_select w poll c s)
      go none q = rw (q, watch_select) tt
      go (some (t, inl (status, c'))) q =
          let ready =
            first_value runtime (child.wait c s.now) (signals.next s.signals s.now) (s.now + poll) t
              tt (status, c') q in
          let (u, e, le) =
            ready-Resolved (child.wait c s.now) (status, c') (record s { now = t }) ready in
          rw (q, watch_select) (reaped w c (untouched) e le, refl)
      go (some (t, inr (inl x))) q = rw (q, watch_select) tt
      go (some (t, inr (inr x))) q = rw (q, watch_select) tt

  module _ (sup : Supervisor w) where
    act-After :
        (reason : String) (started elapsed : ℕ) (b : Bool) (s : Sys Source)
        → Post Whatever After (act_on_fail w sup.config c reason started elapsed b s)
    unfolding act_on_fail
    act-After reason started elapsed true s =
        bind-Post Whatever (Told w c) After (kill_child w c sup.config.grace) _ _
          (kills-Told w c c sup.config.grace _ untouched) (λ code s' h. h)
    act-After reason started elapsed false s = tt

    judge-After :
        (started : Option ℕ) (r : PredicateResult) (s : Sys Source)
        → Post Whatever After (judge w sup.config started c r s)
    unfolding judge
    judge-After none pass s = tt
    judge-After (some f) pass s = tt
    judge-After started (fail reason) s = act-After reason (started_at started s.now) _ _ s

    handle-After :
        (started : Option ℕ) (outcome : WatchOutcome) (s : Sys Source)
        → Seen outcome s
        → Post Whatever After (handle_outcome w sup started c outcome s)
    unfolding handle_outcome
    handle-After started (exited status) s h = h
    handle-After started (signal sig) s h =
        bind-Post Whatever (Told w c) After (forward_signal w c sig sup.config.grace) _ s
          (forwards-Told w c c sig sup.config.grace s untouched) (λ code s' k. k)
    handle-After started tick s h =
        bind-Post Whatever (λ _ _. Unit {0}) After (call_evaluate w sup) _ s (any_end _)
          (λ r s' k. judge-After started r s')

    round-After :
        (started : Option ℕ) (s : Sys Source) → Post Whatever After (watch_round w sup started c s)
    unfolding watch_round
    round-After started s =
        bind-Post Whatever Seen After (watch_select w sup.config.poll c) _ s
          (selects-Seen sup.config.poll s) (handle-After started)

    simple-Ended : (s : Sys Source) → Post Whatever Ended (simple_wait w sup c s)
    unfolding simple_wait after_wait reaped
    simple-Ended s =
        bind-Post Whatever
          (λ first s'.
            (a : ExitStatus × Child) → first ≡ inl a → Resolved (child.wait c s.now) a s')
          Ended (race runtime signals (child.wait c)) _ s
          (race_arm runtime signals (child.wait c) s) either
      where
        either :
            (first : (ExitStatus × Child) ⊎ SignalKind) (s' : Sys Source)
            → ((a : ExitStatus × Child) → first ≡ inl a → Resolved (child.wait c s.now) a s')
            → Post Whatever Ended (after_wait w sup c first s')
        either (inl (status, c')) s' arm =
            let (t, q, le) = arm (status, c') refl in (reaped w c untouched q le, refl)
        either (inr sig) s' arm =
            bind-Post Whatever (Told w c) Ended (forward_signal w c sig sup.config.grace) _ s'
              (forwards-Told w c c sig sup.config.grace s' untouched) (λ code s'' k. k)

    pub attend-Ended : (fuel : ℕ) (s : Sys Source) → Post Whatever Ended (attend w fuel sup c s)
    unfolding attend
    attend-Ended fuel s = both sup.config.kill_on_change
      where
        both :
            (b : Bool)
            → Post Whatever Ended ((if b then watch w fuel sup none c else simple_wait w sup c) s)
        both true =
            watch_loop w sup c Whatever (λ _ _ _. Unit {0}) Ended (λ _ _ _. tt)
              (λ k started s' i. round-After started s') fuel none s tt
        both false = simple-Ended s

  pub leaves-Told :
      (leave : Leave) (s : Sys Source)
      → Ended leave s
      → Post Whatever (Told w c) (leave_run w leave s)
  unfolding leave_run map_status
  leaves-Told (return_with exit_code) s h = h
  leaves-Told (break_with status) s (r, same) = elim (Bool-cases (success status)) [
    | inl well ↦ rw well (r, inr (rw (same, well) refl))
    | inr bad ↦ rw bad (r, inr (rw (same, bad) refl))
  ]
