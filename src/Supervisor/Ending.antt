-- ===== src/Supervisor/Ending.antt =====
-- A whole run that ends: from the gate over the spawn to the watcher loop, where no signal comes.
pub mod Kills
mod Examples
use condrun.Prelude.{
  ℕ, ◌+◌, ◌*◌, ◌≤◌, ◌<◌, ◌≡◌, refl, true, none, some, inl, [], ◌∷◌, arith, if◌then◌else◌,
}
use condrun.Async.{Async, Runtime, IsRuntime, ok, select, select_biased}
use condrun.Async.Select.{IsPrompt}
use condrun.Predicate.{PredicateResult, pass, fail, evaluate}
use condrun.Signal.{Signals}
use condrun.Process.{CommandSpec, success}
use condrun.Supervisor.{Seams, Supervisor}
use condrun.Supervisor.Exec.{evaluated, spawned, Flow, done, Sys, await, race}
use condrun.Supervisor.Run.{
  Leave, break_with, return_with, watch, attend, leave_run, map_status, call_spawn, supervise, gate,
  after_preflight, run, run_task,
}
use condrun.Supervisor.Latency.{TurnsBad, deadline}
use condrun.Supervisor.Kill.{Killable, Quiet, watch_kills}

-- A `select!` with one arm that never resolves is the other arm, polled when it is ready.
pub race_alone :
    {S A : Type 0} (rt : Runtime) (sg : Signals S) (future : ℕ → Async A) (s : Sys S) (t : ℕ)
    (a : A)
    → IsRuntime rt
    → sg.next s.signals s.now ≡ none
    → future s.now ≡ some (t, a)
    → race rt sg future s ≡ (done (inl a), record s { now = rt.wakes t; selects = s.selects + 1 })
unfolding race select select_biased
race_alone rt sg future s t a sane quiet e = ground (arith, quiet, e, sane.wakes_late t)

-- The spawner gives a child within `slack`.
pub record Launches (w : Seams) (sup : Supervisor w) (cmd : CommandSpec) (slack : ℕ) : Type 0 where
  pub launches :
      (now : ℕ)
      → (t : ℕ) × (c : w.Child) × (rest : w.Launcher) × (w.spawner.spawn sup.spawner cmd now
          ≡ some (t, (ok c, rest)))
        × (now ≤ t)
        × (t ≤ now + slack)

module _ (w : Seams) where
  open w use {Source}

  -- An exit code, and the instant at which it was there.
  abbrev pub EndsBy : ℕ → Flow ℕ × Sys Source → Type 0
  EndsBy bound r = (code : ℕ) × (r.0 ≡ done code) × (r.1.now ≤ bound)

  -- The exit code of a watched child: its own, as 0 or 2, or that of an early return.
  abbrev pub code_for : Leave → ℕ
  code_for (return_with code) = code
  code_for (break_with status) = if success status then 0 else 2

  pub leave_run_lem :
      (leave : Leave) (s : Sys Source)
      → ((leave_run w leave s).0 ≡ done (code_for leave)) × ((leave_run w leave s).1.now ≡ s.now)
  unfolding leave_run map_status
  leave_run_lem (return_with code) s = (refl, refl)
  leave_run_lem (break_with status) s = (ground arith, ground arith)

module _ (w : Seams) (sup : Supervisor w) (cmd : CommandSpec) (turn late slack fuel : ℕ)
    (bad : TurnsBad w sup turn) (pos : 0 < sup.config.poll) (sane : IsRuntime w.runtime)
    (prompt : IsPrompt w.runtime late) (quiet : Quiet w)
    (killable : Killable w sup.config.grace slack) (launch : Launches w sup cmd slack)
    (on : sup.config.kill_on_change ≡ true) where
  open w use {Source}

  abbrev finish : ℕ
  finish = deadline turn late sup.config + sup.config.poll + late + sup.config.grace + 3 * slack

  supervise-EndsBy :
      (s : Sys Source)
      → s.now + slack ≤ turn
      → deadline turn late sup.config < s.now + fuel
      → s.trace ≡ evaluated s.now pass ∷ []
      → EndsBy w finish (supervise w fuel sup cmd s)
  unfolding supervise call_spawn await attend
  supervise-EndsBy s early room e =
      let (t, c, rest, p, later, soon) = launch.launches s.now in
      let s' : Sys Source = record s { now = t; trace = spawned cmd ∷ s.trace } in
      let (leave, q, by) =
        watch_kills w sup turn late slack fuel c s' bad pos sane prompt quiet killable (omega arith)
          (omega arith) (rw e (ground arith)) (rw e (omega arith)) in
      let (code, same) = leave_run_lem w leave (watch w fuel sup none c s').1 in
      (code_for w leave, ground (arith, p, on, q, code), ground (arith, p, on, q, same))

  preflight-EndsBy :
      (r : PredicateResult) (s : Sys Source)
      → s.now + slack ≤ turn
      → deadline turn late sup.config < s.now + fuel
      → s.trace ≡ []
      → EndsBy w finish (after_preflight w fuel sup cmd (inl r) s)
  unfolding after_preflight gate
  preflight-EndsBy pass s early room e =
      supervise-EndsBy (record s { trace = evaluated s.now pass ∷ s.trace }) early room (rw e)
  preflight-EndsBy (fail reason) s early room e =
      (if sup.config.strict then 1 else 0, ground arith, ground arith)

-- With `kill_on_change`, where the predicates are read at once and fail from `turn` on, no signal
-- comes, the spawner gives a child and a child that is terminated dies: a run that is started early
-- enough before `turn` ends with an exit code, at the latest `debounce`, three times `poll`, `grace`
-- and the delays of the runtime and of the system after `turn`.
pub run_kills :
    (w : Seams) (sup : Supervisor w) (cmd : CommandSpec) (turn late slack fuel now : ℕ)
    → TurnsBad w sup turn
    → 0 < sup.config.poll
    → IsRuntime w.runtime
    → IsPrompt w.runtime late
    → Quiet w
    → Killable w sup.config.grace slack
    → Launches w sup cmd slack
    → sup.config.kill_on_change ≡ true
    → now + late + slack ≤ turn
    → deadline turn late sup.config < now + fuel
    → (code : ℕ) × ((run w fuel sup cmd now).0 ≡ done code)
      × ((run w fuel sup cmd now).1.now
          ≤ deadline turn late sup.config + sup.config.poll + late + sup.config.grace + 3 * slack)
unfolding run run_task
run_kills w sup cmd turn late slack fuel now bad pos sane prompt quiet killable launch on early
      room =
    let start : Sys w.Source = record {
      now = now;
      selects = 0;
      signals = sup.signals;
      trace = [];
    } in
    let later = sane.wakes_late now in
    let soon = prompt.wakes_soon now in
    rw
      (race_alone w.runtime w.signals (evaluate sup.predicate_set sup.state) start now
        (bad.result now) sane (quiet sup.signals now) (bad.at_once now))
      (preflight-EndsBy w sup cmd turn late slack fuel bad pos sane prompt quiet killable launch on
        (bad.result now) (record start { now = w.runtime.wakes now; selects = 1 }) (omega arith)
        (omega arith) refl)
