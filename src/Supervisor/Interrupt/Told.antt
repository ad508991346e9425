-- ===== src/Supervisor/Interrupt/Told.antt =====
-- src/supervisor.rs: a child that is spawned while a signal is there is told of it first.
use condrun.Prelude.{
  ℕ, suc, ◌+◌, ◌≡◌, refl, Bool, true, false, Option, none, some, ap, ◌⊎◌, inl, inr, List, [], ◌∷◌,
  arith, if◌then◌else◌,
}
use condrun.Async.{Async, IsRuntime, ok, ready_by, select_biased_three}
use condrun.Predicate.{pass}
use condrun.Signal.{SignalKind}
use condrun.Process.{CommandSpec, ExitStatus}
use condrun.Supervisor.{Seams, Supervisor}
use condrun.Supervisor.Exec.{
  Event, info, logged, evaluated, spawned, forwarded, forwarding, ◌>>=◌, pure, done, Sys, await,
}
use condrun.Supervisor.Run.{
  call_spawn, supervise, forward_signal, wait_with_escalation, call_terminate, attend, watch,
  watch_round, watch_select, handle_outcome, simple_wait, after_wait, leave_run, go_on, Leave,
  return_with, break_with, signal,
}
use condrun.Supervisor.Post.{Post, bind-Post, always-Ends, of-Ends}
use condrun.Supervisor.Trace.{await-trace, race-trace}
use condrun.Supervisor.Interrupt.{opening, race_signal}

module _ (w : Seams) (sup : Supervisor w) (cmd : CommandSpec) (kind : SignalKind) where
  open w use {Child, Source}

  -- What a child that has just been spawned is told first.
  abbrev pub told : ℕ → List Event
  told t = forwarded kind ∷ logged info (forwarding kind) ∷ spawned cmd ∷ evaluated t pass ∷ []

  abbrev Opens : ℕ → List Event → Type 0
  Opens t es = opening es ≡ told t

  forward-Opens :
      (t : ℕ) (c : Child) (grace : ℕ) (s : Sys Source)
      → s.trace ≡ spawned cmd ∷ evaluated t pass ∷ []
      → Opens t (forward_signal w c kind grace s).1.trace
  unfolding forward_signal wait_with_escalation call_terminate
  forward-Opens t c grace s e = grind (arith, await-trace, race-trace, e)

  -- The watcher loop or the wait is left by `return`.
  abbrev Leaves : ℕ → Leave → Sys Source → Type 0
  Leaves t (return_with code) s = Opens t s.trace
  Leaves t (break_with status) s = ⊥

  abbrev Fine : ℕ → Bool → Sys Source → Type 0
  Fine t b s = Opens t s.trace

  -- A child that does not end before the task is polled is told the signal that is there.
  abbrev Unready : Child → ℕ → Type 0
  Unready c now = ready_by (w.runtime.wakes now) (w.child.wait c now) ≡ none

  select_signal :
      (c : Child) (s : Sys Source) (rest : Source)
      → IsRuntime w.runtime
      → Unready c s.now
      → w.signals.next s.signals s.now ≡ some (s.now, (kind, rest))
      → watch_select w sup.config.poll c s
        ≡ (done (signal kind), record s { now = w.runtime.wakes s.now; signals = rest })
  unfolding watch_select select_biased_three
  select_signal c s rest sane unready e = go (w.child.wait c s.now) refl
    where
      go :
          (o : Async (ExitStatus × Child))
          → w.child.wait c s.now ≡ o
          → watch_select w sup.config.poll c s
            ≡ (done (signal kind), record s { now = w.runtime.wakes s.now; signals = rest })
      go none q = ground (arith, e, q, sane.wakes_late s.now)
      go (some (v, a)) q = ground (arith, e, q, unready, sane.wakes_late s.now)

  told-Leaves :
      (t : ℕ) (c : Child) (s : Sys Source)
      → s.trace ≡ spawned cmd ∷ evaluated t pass ∷ []
      → Post (Fine t) (λ (code : ℕ). Fine t true) (forward_signal w c kind sup.config.grace s)
  told-Leaves t c s e =
      let h = forward-Opens t c sup.config.grace s e in
      always-Ends (Fine t) (λ code. Fine t true) _ _ (λ b. h) (λ code. h)

  abbrev After : ℕ → Leave ⊎ Option ℕ → Sys Source → Type 0
  After t (inl leave) s = Leaves t leave s
  After t (inr started) s = ⊥

  left :
      (fuel t : ℕ) (c : Child) (after : Leave ⊎ Option ℕ) (s : Sys Source)
      → After t after s
      → Post (Fine t) (Leaves t) (go_on (λ started. watch w fuel sup started c) after s)
  left fuel t c (inl leave) s h = h
  left fuel t c (inr started) s h = absurd h

  watch_tells :
      (fuel t : ℕ) (c : Child) (s : Sys Source) (rest : Source)
      → IsRuntime w.runtime
      → Unready c s.now
      → w.signals.next s.signals s.now ≡ some (s.now, (kind, rest))
      → s.trace ≡ spawned cmd ∷ evaluated t pass ∷ []
      → Post (Fine t) (Leaves t) (watch w (suc fuel) sup none c s)
  unfolding watch watch_round handle_outcome
  watch_tells fuel t c s rest sane unready e tr =
      let told = told-Leaves t c (record s { now = w.runtime.wakes s.now; signals = rest }) tr in
      rw (select_signal c s rest sane unready e) (
        bind-Post (Fine t) (After t) (Leaves t)
          (forward_signal w c kind sup.config.grace >>= λ code. pure (inl (return_with code))) _ _
          (bind-Post (Fine t) (λ code. Fine t true) (After t)
            (forward_signal w c kind sup.config.grace) _ _ told (λ code s' h. h))
          (left fuel t c))

  simple_tells :
      (t : ℕ) (c : Child) (s : Sys Source) (rest : Source)
      → IsRuntime w.runtime
      → Unready c s.now
      → w.signals.next s.signals s.now ≡ some (s.now, (kind, rest))
      → s.trace ≡ spawned cmd ∷ evaluated t pass ∷ []
      → Post (Fine t) (Leaves t) (simple_wait w sup c s)
  unfolding simple_wait after_wait
  simple_tells t c s rest sane unready e tr =
      let told =
        told-Leaves t c
          (record s { now = w.runtime.wakes s.now; selects = s.selects + 1; signals = rest }) tr in
      rw (race_signal w.runtime w.signals (w.child.wait c) s s.now kind rest sane e unready) (
        bind-Post (Fine t) (λ code. Fine t true) (Leaves t)
          (forward_signal w c kind sup.config.grace) _ _ told (λ code s' h. h))

  attend_tells :
      (fuel t : ℕ) (c : Child) (s : Sys Source) (rest : Source)
      → IsRuntime w.runtime
      → Unready c s.now
      → w.signals.next s.signals s.now ≡ some (s.now, (kind, rest))
      → s.trace ≡ spawned cmd ∷ evaluated t pass ∷ []
      → Post (Fine t) (Leaves t) (attend w (suc fuel) sup c s)
  unfolding attend
  attend_tells fuel t c s rest sane unready e tr = both sup.config.kill_on_change
    where
      both :
          (b : Bool)
          → Post
              (Fine t)
              (Leaves t)
              ((if b then watch w (suc fuel) sup none c else simple_wait w sup c) s)
      both true = watch_tells fuel t c s rest sane unready e tr
      both false = simple_tells t c s rest sane unready e tr

  leave_tells :
      (t : ℕ) (leave : Leave) (s : Sys Source)
      → Leaves t leave s
      → Post (Fine t) (λ (code : ℕ). Fine t true) (leave_run w leave s)
  unfolding leave_run
  leave_tells t (return_with code) s h = h
  leave_tells t (break_with status) s h = absurd h

  call_spawn_lem :
      (s : Sys Source) (u : ℕ) (c : Child) (launcher : w.Launcher)
      → w.spawner.spawn sup.spawner cmd s.now ≡ some (u, (ok c, launcher))
      → call_spawn w sup cmd s ≡ (done c, record s { now = u; trace = spawned cmd ∷ s.trace })
  unfolding call_spawn await
  call_spawn_lem s u c launcher p = ground (arith, p)

  pub supervise_tells :
      (fuel t u : ℕ) (c : Child) (s : Sys Source) (launcher : w.Launcher) (rest : Source)
      → IsRuntime w.runtime
      → w.spawner.spawn sup.spawner cmd s.now ≡ some (u, (ok c, launcher))
      → Unready c u
      → w.signals.next s.signals u ≡ some (u, (kind, rest))
      → s.trace ≡ evaluated t pass ∷ []
      → opening (supervise w (suc fuel) sup cmd s).1.trace ≡ told t
  unfolding supervise
  supervise_tells fuel t u c s launcher rest sane p unready e tr =
      let s' : Sys Source = record s { now = u; trace = spawned cmd ∷ s.trace } in
      let ended : Post (Fine t) (λ (code : ℕ). Fine t true) (supervise w (suc fuel) sup cmd s) =
        rw (call_spawn_lem s u c launcher p) (
          bind-Post (Fine t) (Leaves t) (λ (code : ℕ). Fine t true) (attend w (suc fuel) sup c) _ s'
            (attend_tells fuel t c s' rest sane unready e (ap (λ es. spawned cmd ∷ es) tr))
            (leave_tells t)) in
      of-Ends (Fine t true) (supervise w (suc fuel) sup cmd s).0
        (supervise w (suc fuel) sup cmd s).1 ended
