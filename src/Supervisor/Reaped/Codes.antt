-- ===== src/Supervisor/Reaped/Codes.antt =====
-- src/supervisor.rs: the end of the child over a whole run.
use mathlib.Core.Path.{subst}
use condrun.Prelude.{ℕ, ◌<◌, ◌≡◌, refl, ap, ◌⊎◌, inl, inr, Bool-cases, some, [], ◌∷◌, arith}
use condrun.Async.{Async, Result, ok, err}
use condrun.Predicate.{PredicateResult, pass, fail, evaluate}
use condrun.Process.{CommandSpec}
use condrun.Signal.{SignalKind}
use condrun.Supervisor.{Seams, Supervisor}
use condrun.Supervisor.Exec.{spawned, Flow, done, failed, pending, spent, Sys, await, race}
use condrun.Supervisor.Run.{attend, call_spawn, supervise, gate, after_preflight, run_task, run}
use condrun.Supervisor.Post.{Ends, Post, bind-Post, always-Ends, weaken-Ends}
use condrun.Supervisor.Meanings.Leaves.{Whatever}
use condrun.Supervisor.Trace.{spawns, race-trace}
use condrun.Supervisor.Codes.{flow_code}
use condrun.Supervisor.Reaped.Runs.{Ended, attend-Ended, leaves-Told}
use condrun.Supervisor.Reaped.{Told, awaits-Post}

module _ (w : Seams) (sup : Supervisor w) (cmd : CommandSpec) where
  open w use {Child, Source, runtime, signals, spawner}

  -- The spawner has given this child.
  abbrev pub Launched : Child → Type 0
  Launched c =
      (t : ℕ) × (u : ℕ) × (rest : w.Launcher) × (spawner.spawn sup.spawner cmd t
        ≡ some (u, (ok c, rest)))

  abbrev pub Cared : ℕ → Sys Source → Type 0
  Cared exit_code s = (c : Child) × Launched c × Told w c exit_code s

  abbrev Kept : ℕ → Sys Source → Type 0
  Kept exit_code s = (spawns s.trace ≡ 0) ⊎ Cared exit_code s

  spawn-Launched : (s : Sys Source) → Post Whatever (λ c s'. Launched c) (call_spawn w sup cmd s)
  unfolding call_spawn
  spawn-Launched s = go (await future noted).0 refl
    where
      future : ℕ → Async (Result Child × w.Launcher)
      future = spawner.spawn sup.spawner cmd

      noted : Sys Source
      noted = record s { trace = spawned cmd ∷ s.trace }

      go :
          (o : Flow (Result Child × w.Launcher))
          → (await future noted).0 ≡ o
          → Post Whatever (λ c s'. Launched c) (call_spawn w sup cmd s)
      go (done (ok c, rest)) e =
          let found : (u : ℕ) × (future noted.now ≡ some (u, (ok c, rest))) = rw e at (
            awaits-Post future noted (λ rc s'. (u : ℕ) × (future noted.now ≡ some (u, rc)))
              (λ rc s' q. (s'.now, q))) in
          rw e (noted.now, found.0, rest, found.1)
      go (done (err m, rest)) e = rw e tt
      go (failed m) e = rw e tt
      go pending e = rw e tt
      go spent e = rw e tt

  supervise-Kept : (fuel : ℕ) (s : Sys Source) → Post Whatever Kept (supervise w fuel sup cmd s)
  unfolding supervise
  supervise-Kept fuel s =
      bind-Post Whatever (λ c _. Launched c) Kept (call_spawn w sup cmd) _ s (spawn-Launched s)
        (λ c s' launched.
          bind-Post Whatever (Ended w c) Kept (attend w fuel sup c) _ s'
            (attend-Ended w c sup fuel s')
            (λ leave s'' ended.
              weaken-Ends Whatever (Told w c) Kept (λ code s3 told. inr (c, launched, told)) _ _
                (leaves-Told w c leave s'' ended)))

  gate-Kept :
      (fuel : ℕ) (first : PredicateResult ⊎ SignalKind) (s : Sys Source)
      → s.trace ≡ []
      → Post Whatever Kept (after_preflight w fuel sup cmd first s)
  unfolding after_preflight gate
  gate-Kept fuel (inr sig) s e = inl (rw e refl)
  gate-Kept fuel (inl pass) s e = supervise-Kept fuel _
  gate-Kept fuel (inl (fail reason)) s e = elim (Bool-cases sup.config.strict) [
    | inl strict ↦ rw strict (inl (rw e refl))
    | inr lenient ↦ rw lenient (inl (rw e refl))
  ]

  run-Kept : (fuel now : ℕ) → Post Whatever Kept (run w fuel sup cmd now)
  unfolding run run_task
  run-Kept fuel now =
      let s : Sys Source = record { now = now; selects = 0; signals = sup.signals; trace = [] } in
      let future = evaluate sup.predicate_set sup.state in
      bind-Post Whatever (λ _ s'. s'.trace ≡ []) Kept (race runtime signals future) _ s
        (always-Ends Whatever (λ _ s'. s'.trace ≡ []) _ _ (λ _. tt)
          (λ _. race-trace runtime signals future s))
        (gate-Kept fuel)

-- Whatever the child, the signals and the network do: a run that spawns the command and ends with a code
-- has not left its child behind. A `wait` on the handle that the spawner gave, after no other calls than
-- of `signal` and `terminate`, has given the child's status before the end of the run; and unless the code
-- is 3 it is 0 exactly if that status is a success, and 2 if it is not.
pub run_reaps :
    (w : Seams) (fuel : ℕ) (sup : Supervisor w) (cmd : CommandSpec) (now exit_code : ℕ)
    → (run w fuel sup cmd now).0 ≡ done exit_code
    → 0 < spawns (run w fuel sup cmd now).1.trace
    → Cared w sup cmd exit_code (run w fuel sup cmd now).1
run_reaps w fuel sup cmd now exit_code e once =
    of_done (run w fuel sup cmd now).0 (run w fuel sup cmd now).1 (run-Kept w sup cmd fuel now) e
      once
  where
    of_done :
        (r : Flow ℕ) (s : Sys w.Source)
        → Ends Whatever (Kept w sup cmd) r s
        → r ≡ done exit_code
        → 0 < spawns s.trace
        → Cared w sup cmd exit_code s
    of_done (done c) s (inl unspawned) q h = absurd (omega arith)
    of_done (done c) s (inr cared) q h =
        subst (λ (n : ℕ). Cared w sup cmd n s) (ap (flow_code (λ (n : ℕ). n)) q) cared
    of_done (failed m) s k q h = absurd (cc)
    of_done pending s k q h = absurd (cc)
    of_done spent s k q h = absurd (cc)
