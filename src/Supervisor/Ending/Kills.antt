-- ===== src/Supervisor/Ending/Kills.antt =====
-- A run of src/supervisor.rs with a child that does not end by itself, where the predicates turn bad.
use condrun.Prelude.{
  ℕ, ◌+◌, ◌*◌, ◌≤◌, ◌<◌, ◌≡◌, refl, ap, Bool, true, false, Option, none, some, ◌⊎◌, [], ◌∷◌, arith,
  String,
}
use condrun.Async.{Async, IsRuntime, ok, err, Result, select_biased_three}
use condrun.Async.Select.{IsPrompt}
use condrun.Predicate.{PredicateResult, pass, fail, evaluate}
use condrun.Process.{CommandSpec}
use condrun.Supervisor.{Seams, Supervisor}
use condrun.Supervisor.Exec.{Flow, done, failed, pending, spent, spawned, Sys, await}
use condrun.Supervisor.Run.{
  Leave, return_with, WatchOutcome, exited, signal, tick, started_at, kill_child, act_on_fail,
  judge, call_evaluate, call_terminate, watch_select, handle_outcome, watch_round, watch, attend,
  leave_run, call_spawn, supervise, gate, after_preflight, run_task, run,
}
use condrun.Supervisor.Post.{Ends, Post, bind-Post, always-Ends}
use condrun.Supervisor.Loop.{watch_loop, Continues}
use condrun.Supervisor.Codes.{run_code}
use condrun.Supervisor.Kill.{Killable, Quiet}
use condrun.Supervisor.Latency.{TurnsBad, deadline}
use condrun.Supervisor.Trace.{terminations}
use condrun.Supervisor.Ending.{Launches, race_alone, run_kills}

-- A spawned child does not end by itself.
pub record Lasts (w : Seams) (sup : Supervisor w) (cmd : CommandSpec) : Type 0 where
  pub lasts :
      (now t u : ℕ) (c : w.Child) (rest : w.Launcher)
      → w.spawner.spawn sup.spawner cmd now ≡ some (t, (ok c, rest))
      → w.child.wait c u ≡ none

-- Nothing is said of an end without a value.
abbrev Whatever : {S : Type 0} → Bool → Sys S → Type 0
Whatever b s = Unit {0}

abbrev Three : {S : Type 0} → ℕ → Sys S → Type 0
Three code s = code ≡ 3

abbrev LeftByKill : {S : Type 0} → Leave → Sys S → Type 0
LeftByKill leave s = leave ≡ return_with 3

any_end : {S A : Type 0} (r : Flow A) (s : Sys S) → Ends Whatever (λ _ _. Unit {0}) r s
any_end r s = always-Ends Whatever (λ _ _. Unit {0}) r s (λ _. tt) (λ _. tt)

module _ (w : Seams) (sup : Supervisor w) (quiet : Quiet w) where
  open w use {Child, Source, child, runtime}

  abbrev After : Leave ⊎ Option ℕ → Sys Source → Type 0
  After = Continues (λ _ _. Unit {0}) LeftByKill

  kill-Three :
      (c : Child) (grace : ℕ) (s : Sys Source) → Post Whatever Three (kill_child w c grace s)
  unfolding kill_child call_terminate await
  kill-Three c grace s = ground arith

  act-Three :
      (c : Child) (reason : String) (started elapsed : ℕ) (b : Bool) (s : Sys Source)
      → Post Whatever After (act_on_fail w sup.config c reason started elapsed b s)
  unfolding act_on_fail
  act-Three c reason started elapsed true s =
      bind-Post Whatever Three After (kill_child w c sup.config.grace) _ _
        (kill-Three c sup.config.grace _) (λ code s' e. ap return_with e)
  act-Three c reason started elapsed false s = tt

  judge-Three :
      (started : Option ℕ) (c : Child) (r : PredicateResult) (s : Sys Source)
      → Post Whatever After (judge w sup.config started c r s)
  unfolding judge
  judge-Three none c pass s = tt
  judge-Three (some f) c pass s = tt
  judge-Three started c (fail reason) s = act-Three c reason (started_at started s.now) _ _ s

  -- The child lasts and no signal comes, so the poll is what ends the `select!`.
  abbrev Ticked : WatchOutcome → Sys Source → Type 0
  Ticked outcome s = outcome ≡ tick

  select-Ticked :
      (c : Child) (s : Sys Source)
      → child.wait c s.now ≡ none
      → Post Whatever Ticked (watch_select w sup.config.poll c s)
  unfolding watch_select select_biased_three
  select-Ticked c s e = ground (arith, e, quiet s.signals s.now)

  round-Three :
      (started : Option ℕ) (c : Child) (s : Sys Source)
      → child.wait c s.now ≡ none
      → Post Whatever After (watch_round w sup started c s)
  unfolding watch_round handle_outcome
  round-Three started c s e =
      bind-Post Whatever Ticked After (watch_select w sup.config.poll c) _ s (select-Ticked c s e)
        polled
    where
      polled :
          (outcome : WatchOutcome) (s' : Sys Source)
          → outcome ≡ tick
          → Post Whatever After (handle_outcome w sup started c outcome s')
      polled tick s' q =
          bind-Post Whatever (λ _ _. Unit {0}) After (call_evaluate w sup) _ s' (any_end _ _)
            (λ r s'' k. judge-Three started c r s'')
      polled (exited status) s' q = absurd (cc)
      polled (signal sig) s' q = absurd (cc)

  watch-Three :
      (fuel : ℕ) (c : Child) (s : Sys Source)
      → ((u : ℕ) → child.wait c u ≡ none)
      → Post Whatever LeftByKill (watch w fuel sup none c s)
  watch-Three fuel c s lasting =
      watch_loop w sup c Whatever (λ _ _ _. Unit {0}) LeftByKill (λ _ _ _. tt)
        (λ k started s' i. round-Three started c s' (lasting s'.now)) fuel none s tt

  supervise-Three :
      (fuel : ℕ) (cmd : CommandSpec) (s : Sys Source)
      → sup.config.kill_on_change ≡ true
      → Lasts w sup cmd
      → Post Whatever Three (supervise w fuel sup cmd s)
  unfolding supervise call_spawn await attend leave_run
  supervise-Three fuel cmd s on lasting = go (w.spawner.spawn sup.spawner cmd s.now) refl
    where
      s' : ℕ → Sys Source
      s' t = record s { now = t; trace = spawned cmd ∷ s.trace }

      go :
          (o : Async (Result Child × w.Launcher))
          → w.spawner.spawn sup.spawner cmd s.now ≡ o
          → Post Whatever Three (supervise w fuel sup cmd s)
      go none e = ground (arith, e)
      go (some (t, (err m, rest))) e = ground (arith, e)
      go (some (t, (ok c, rest))) e =
          let left = watch-Three fuel c (s' t) (λ u. lasting.lasts s.now t u c rest e) in
          ground (arith, e, on, left)

  run-Three :
      (fuel : ℕ) (cmd : CommandSpec) (now : ℕ)
      → IsRuntime runtime
      → sup.config.kill_on_change ≡ true
      → Lasts w sup cmd
      → evaluate sup.predicate_set sup.state now ≡ some (now, pass)
      → Post Whatever Three (run w fuel sup cmd now)
  unfolding run run_task after_preflight gate
  run-Three fuel cmd now sane on lasting open_now =
      let start : Sys Source = record {
        now = now;
        selects = 0;
        signals = sup.signals;
        trace = [];
      } in
      rw
        (race_alone runtime w.signals (evaluate sup.predicate_set sup.state) start now pass sane
          (quiet sup.signals now) open_now)
        (supervise-Three fuel cmd _ on lasting)

of_done :
    {S : Type 0} (r : Flow ℕ) (s : Sys S) (code : ℕ)
    → Ends Whatever Three r s
    → r ≡ done code
    → code ≡ 3
of_done (done code') s code h e = cc
of_done (failed m) s code h e = absurd (cc)
of_done pending s code h e = absurd (cc)
of_done spent s code h e = absurd (cc)

-- With `kill_on_change`: where the predicates are read at once, pass at the pre-flight and fail from
-- `turn` on, no signal comes, the spawner gives a child that does not end by itself but dies when it
-- is terminated, a run that is started early enough before `turn` ends with 3, after one call of
-- `terminate`, and at the latest `debounce`, three times `poll`, `grace` and the delays of the
-- runtime and of the system after `turn`.
pub run_kills_child :
    (w : Seams) (sup : Supervisor w) (cmd : CommandSpec) (turn late slack fuel now : ℕ)
    → TurnsBad w sup turn
    → 0 < sup.config.poll
    → IsRuntime w.runtime
    → IsPrompt w.runtime late
    → Quiet w
    → Killable w sup.config.grace slack
    → Launches w sup cmd slack
    → Lasts w sup cmd
    → sup.config.kill_on_change ≡ true
    → evaluate sup.predicate_set sup.state now ≡ some (now, pass)
    → now + late + slack ≤ turn
    → deadline turn late sup.config < now + fuel
    → ((run w fuel sup cmd now).0 ≡ done 3)
      × (terminations (run w fuel sup cmd now).1.trace ≡ 1)
      × ((run w fuel sup cmd now).1.now
          ≤ deadline turn late sup.config + sup.config.poll + late + sup.config.grace + 3 * slack)
run_kills_child w sup cmd turn late slack fuel now bad pos sane prompt quiet killable launch lasting
      on open_now early room =
    let (code, e, by) =
      run_kills w sup cmd turn late slack fuel now bad pos sane prompt quiet killable launch on
        early room in
    let three =
      of_done (run w fuel sup cmd now).0 (run w fuel sup cmd now).1 code
        (run-Three w sup quiet fuel cmd now sane on lasting open_now) e in
    let ends : (run w fuel sup cmd now).0 ≡ done 3 = cc in
    (ends, (run_code w fuel sup cmd now {code = 3} ends).1, by)
