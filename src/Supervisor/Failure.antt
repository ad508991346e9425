-- ===== src/Supervisor/Failure.antt =====
-- The errors of a run of src/supervisor.rs: where a `?` can leave it, and with what message.
use condrun.Prelude.{
  ℕ, zero, suc, ◌≡◌, refl, String, Bool, Bool-cases, leb, ◌-◌, true, false, Option, none, some, ◌⊎◌,
  inl, inr, arith,
}
use condrun.Async.{Async, Result, ok, err, Runtime}
use condrun.Predicate.{PredicateResult, pass, fail, evaluate}
use condrun.Signal.{SignalKind, Signals}
use condrun.Process.{CommandSpec}
use condrun.Supervisor.{Seams, Supervisor}
use condrun.Supervisor.Exec.{
  Flow, done, failed, pending, spent, Exec, Sys, then_run, ◌>>=◌, await, race,
}
use condrun.Supervisor.Run.{
  Leave, started_at, WatchOutcome, exited, signal, tick, break_with, return_with, go_on,
  wait_with_escalation, forward_signal, call_terminate, kill_child, act_on_fail, judge,
  call_evaluate, watch_select, handle_outcome, watch_round, watch, simple_wait, after_wait, attend,
  leave_run, map_status, call_spawn, supervise, gate, after_preflight, run_task, run,
}

-- An action that fails has this cause.
abbrev Blames : {S A : Type 0} → (String → Type 0) → Flow A × Sys S → Type 0
Blames E r = (e : String) → r.0 ≡ failed e → E e

abbrev Nobody : String → Type 0
Nobody e = ⊥

bind-Blames :
    {S A B : Type 0} (E : String → Type 0) (m : Exec S A) (f : A → Exec S B) (s : Sys S)
    → Blames E (m s)
    → ((a : A) (s' : Sys S) → Blames E (f a s'))
    → Blames E ((m >>= f) s)
bind-Blames {A = A} E m f s h k e = go (m s).0 (m s).1 (h e)
  where
    go : (r : Flow A) (s' : Sys _) → (r ≡ failed e → E e) → (then_run f r s').0 ≡ failed e → E e
    go (done a) s' h q = k a s' e q
    go (failed e') s' h q = h (cc)
    go pending s' h q = absurd (cc)
    go spent s' h q = absurd (cc)

module _ {S A : Type 0} where
  await-Blames : (future : ℕ → Async A) (s : Sys S) → Blames Nobody (await future s)
  unfolding await
  await-Blames future s e q = ground arith

  race-Blames :
      (rt : Runtime) (sg : Signals S) (future : ℕ → Async A) (s : Sys S)
      → Blames Nobody (race rt sg future s)
  unfolding race
  race-Blames rt sg future s e q = ground arith

module _ (w : Seams) where
  open w use {Child, Source, child, spawner}

  -- `terminate` of some child of the run gave this error.
  abbrev pub KillFails : ℕ → String → Type 0
  KillFails grace e =
      (c c' : Child) × (t u : ℕ) × (child.terminate c grace t ≡ some (u, (err e, c')))

  -- `spawn` gave this error.
  abbrev pub SpawnFails : w.Launcher → CommandSpec → String → Type 0
  SpawnFails launcher cmd e =
      (t u : ℕ) × (rest : w.Launcher) × (spawner.spawn launcher cmd t ≡ some (u, (err e, rest)))

  -- Errors of the signal path are logged, and no more.
  escalation-Blames :
      (c : Child) (grace : ℕ) (s : Sys Source) → Blames Nobody (wait_with_escalation w c grace s)
  unfolding wait_with_escalation call_terminate
  escalation-Blames c grace s e q = grind (arith, await-Blames, race-Blames)

  forward-Blames :
      (c : Child) (sig : SignalKind) (grace : ℕ) (s : Sys Source)
      → Blames Nobody (forward_signal w c sig grace s)
  unfolding forward_signal
  forward-Blames c sig grace s e q = grind (arith, await-Blames, escalation-Blames)

  kill-Blames :
      (c : Child) (grace : ℕ) (s : Sys Source) → Blames (KillFails grace) (kill_child w c grace s)
  unfolding kill_child call_terminate await
  kill-Blames c grace s e q = go (child.terminate c grace s.now) refl
    where
      go :
          (o : Async (Result (Unit {0}) × Child))
          → child.terminate c grace s.now ≡ o
          → KillFails grace e
      go none p = absurd (ground (arith, p))
      go (some (u, (ok x, c'))) p = absurd (ground (arith, p))
      go (some (u, (err e', c'))) p = (c, c', s.now, u, ground (arith, p))

  spawn-Blames :
      (sup : Supervisor w) (cmd : CommandSpec) (s : Sys Source)
      → Blames (SpawnFails sup.spawner cmd) (call_spawn w sup cmd s)
  unfolding call_spawn await
  spawn-Blames sup cmd s e q = go (spawner.spawn sup.spawner cmd s.now) refl
    where
      go :
          (o : Async (Result Child × w.Launcher))
          → spawner.spawn sup.spawner cmd s.now ≡ o
          → SpawnFails sup.spawner cmd e
      go none p = absurd (ground (arith, p))
      go (some (u, (ok c, rest))) p = absurd (ground (arith, p))
      go (some (u, (err e', rest))) p = (s.now, u, rest, ground (arith, p))

module _ (w : Seams) (sup : Supervisor w) where
  open w use {Child, Source}

  abbrev Killing : String → Type 0
  Killing = KillFails w sup.config.grace

  lift_kill : {A : Type 0} (r : Flow A × Sys Source) → Blames Nobody r → Blames Killing r
  lift_kill r h e q = absurd (h e q)

  judge-Blames :
      (started : Option ℕ) (c : Child) (r : PredicateResult) (s : Sys Source)
      → Blames Killing (judge w sup.config started c r s)
  unfolding judge act_on_fail
  judge-Blames none c pass s e q = absurd (cc)
  judge-Blames (some f) c pass s e q = absurd (cc)
  judge-Blames started c (fail reason) s e q =
      act (leb sup.config.debounce (s.now - started_at started s.now)) q
    where
      act :
          (b : Bool)
          → (act_on_fail w sup.config c reason
              (started_at started s.now)
              (s.now - started_at started s.now)
              b
              s).0
            ≡ failed e
          → Killing e
      act true q =
          bind-Blames Killing (kill_child w c sup.config.grace) _ _
            (kill-Blames w c sup.config.grace _) (λ code s' e' q'. absurd (cc)) e q
      act false q = absurd (cc)

  handle-Blames :
      (started : Option ℕ) (c : Child) (outcome : WatchOutcome) (s : Sys Source)
      → Blames Killing (handle_outcome w sup started c outcome s)
  unfolding handle_outcome call_evaluate
  handle-Blames started c (exited status) s = λ e q. absurd (cc)
  handle-Blames started c (signal sig) s =
      bind-Blames Killing (forward_signal w c sig sup.config.grace) _ s
        (lift_kill (forward_signal w c sig sup.config.grace s)
          (forward-Blames w c sig sup.config.grace s))
        (λ code s' e' q'. absurd (cc))
  handle-Blames started c tick s =
      bind-Blames Killing (call_evaluate w sup) _ s (λ e' q'. absurd (grind (arith, await-Blames)))
        (λ r s'. judge-Blames started c r s')

  watch-Blames :
      (fuel : ℕ) (started : Option ℕ) (c : Child) (s : Sys Source)
      → Blames Killing (watch w fuel sup started c s)
  unfolding watch watch_round watch_select
  watch-Blames zero started c s = λ e q. absurd (cc)
  watch-Blames (suc fuel) started c s =
      bind-Blames Killing (watch_round w sup started c) _ s
        (bind-Blames Killing (watch_select w sup.config.poll c) _ s (λ e' q'. absurd (ground arith))
          (handle-Blames started c))
        (next (watch-Blames fuel))
    where
      next :
          ((started' : Option ℕ) (c' : Child) (s' : Sys Source)
            → Blames Killing (watch w fuel sup started' c' s'))
          → (after : Leave ⊎ Option ℕ) (s' : Sys Source)
          → Blames Killing (go_on (λ started'. watch w fuel sup started' c) after s')
      next again (inl leave) s' = λ e q. absurd (cc)
      next again (inr started') s' = again started' c s'

  attend-Blames :
      (fuel : ℕ) (c : Child) (s : Sys Source) (e : String)
      → (attend w fuel sup c s).0 ≡ failed e
      → (sup.config.kill_on_change ≡ true) × Killing e
  unfolding attend simple_wait after_wait
  attend-Blames fuel c s e q = elim (Bool-cases sup.config.kill_on_change) [
    | inl on ↦ (on, watch-Blames fuel none c s e (ground (arith, on, q)))
    | inr off ↦ absurd (grind (arith, off, race-Blames, forward-Blames))
  ]

  abbrev Cause : CommandSpec → String → Type 0
  Cause cmd e = SpawnFails w sup.spawner cmd e ⊎ ((sup.config.kill_on_change ≡ true) × Killing e)

  supervise-Blames :
      (fuel : ℕ) (cmd : CommandSpec) (s : Sys Source)
      → Blames (Cause cmd) (supervise w fuel sup cmd s)
  unfolding supervise leave_run map_status
  supervise-Blames fuel cmd s =
      bind-Blames (Cause cmd) (call_spawn w sup cmd) _ s (λ e q. inl (spawn-Blames w sup cmd s e q))
        (λ c s'.
          bind-Blames (Cause cmd) (attend w fuel sup c) _ s'
            (λ e q. inr (attend-Blames fuel c s' e q)) last)
    where
      last : (leave : Leave) (s' : Sys Source) → Blames (Cause cmd) (leave_run w leave s')
      last (return_with code) s' e q = absurd (cc)
      last (break_with status) s' e q = absurd (ground arith)

  gate-Blames :
      (fuel : ℕ) (cmd : CommandSpec) (first : PredicateResult ⊎ SignalKind) (s : Sys Source)
      → Blames (Cause cmd) (after_preflight w fuel sup cmd first s)
  unfolding after_preflight gate
  gate-Blames fuel cmd (inr sig) s = λ e q. absurd (cc)
  gate-Blames fuel cmd (inl pass) s = supervise-Blames fuel cmd _
  gate-Blames fuel cmd (inl (fail reason)) s = λ e q. absurd (ground arith)

-- A run that ends with an error has its message from `spawn` of the command, or, with
-- `kill_on_change`, from `terminate` of a child: no other error leaves it.
pub run_blames :
    (w : Seams) (fuel : ℕ) (sup : Supervisor w) (cmd : CommandSpec) (now : ℕ) (e : String)
    → (run w fuel sup cmd now).0 ≡ failed e
    → SpawnFails w sup.spawner cmd e
      ⊎ ((sup.config.kill_on_change ≡ true) × KillFails w sup.config.grace e)
unfolding run run_task
run_blames w fuel sup cmd now =
    bind-Blames (Cause w sup cmd) (race w.runtime w.signals (evaluate sup.predicate_set sup.state))
      _ _ (λ e q. absurd (race-Blames _ _ _ _ e q)) (gate-Blames w sup fuel cmd)
