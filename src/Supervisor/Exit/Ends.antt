-- ===== src/Supervisor/Exit/Ends.antt =====
-- A whole run of src/supervisor.rs whose child exits by itself while the predicates pass.
use condrun.Prelude.{
  ℕ, suc, ◌+◌, ◌<◌, ◌≡◌, refl, Bool, Option, none, some, ◌⊎◌, inl, inr, arith, [], ◌∷◌, leb,
  if◌then◌else◌,
}
use condrun.Async.{Async, IsRuntime, ok, select_biased_three, sleep}
use condrun.Async.Select.{three_resolve, first_value, second_wins, third_wins}
use condrun.Predicate.{pass, evaluate}
use condrun.Signal.{SignalKind}
use condrun.Process.{ExitStatus, CommandSpec, success}
use condrun.Supervisor.{Seams, Supervisor}
use condrun.Supervisor.Exec.{evaluated, spawned, await, Flow, done, failed, pending, spent, Sys}
use condrun.Supervisor.Run.{
  Leave, WatchOutcome, exited, signal, tick, break_with, handle_outcome, watch_select, watch_round,
  watch, judge, simple_wait, after_wait, attend, supervise, call_spawn, gate, after_preflight, run,
  run_task,
}
use condrun.Supervisor.Post.{Ends, Post, bind-Post}
use condrun.Supervisor.Loop.{watch_loop, Continues}
use condrun.Supervisor.Rounds.{evaluate_at_once}
use condrun.Supervisor.Kill.{Quiet}
use condrun.Supervisor.Ending.{race_alone, leave_run_lem}
use condrun.Supervisor.Codes.{run_code}
use condrun.Supervisor.Trace.{terminations}

-- The child exits with this status at the instant `x`, unless it is signalled.
pub record EndsAt (w : Seams) (c : w.Child) (status : ExitStatus) (x : ℕ) : Type 0 where
  pub exits :
      (now : ℕ)
      → (c' : w.Child) × (w.child.wait c now ≡ some (if leb now x then x else now, (status, c')))

-- The predicates pass, and are read at once, before the instant `x`.
pub record PassesUntil (w : Seams) (sup : Supervisor w) (x : ℕ) : Type 0 where
  pub passes : (t : ℕ) → t < x → evaluate sup.predicate_set sup.state t ≡ some (t, pass)

-- No end without a value.
abbrev Never : {S : Type 0} → Bool → Sys S → Type 0
Never b s = ⊥

value_of_Ends :
    {S A : Type 0} (Q : A → Sys S → Type 0) (r : Flow A) (s : Sys S)
    → Ends Never Q r s
    → (a : A) × (r ≡ done a) × Q a s
value_of_Ends Q (done a) s h = (a, refl, h)
value_of_Ends Q (failed e) s h = absurd h
value_of_Ends Q pending s h = absurd h
value_of_Ends Q spent s h = absurd h

module _ (w : Seams) (sup : Supervisor w) (x : ℕ) (status : ExitStatus) (c : w.Child)
    (sane : IsRuntime w.runtime) (quiet : Quiet w) (exits : EndsAt w c status x)
    (passes : PassesUntil w sup x) (pos : 0 < sup.config.poll) where
  open w use {Child, Source, child, runtime}

  -- What a round's `select!` tells: the child's status, or a poll before its exit.
  abbrev Alive : Sys Source → WatchOutcome → Sys Source → Type 0
  Alive s (exited st) s' = st ≡ status
  Alive s (signal sig) s' = ⊥
  Alive s tick s' = (s.now < s'.now) × (s'.now < x)

  select-Alive : (s : Sys Source) → Post Never (Alive s) (watch_select w sup.config.poll c s)
  unfolding watch_select
  select-Alive s =
      go
        (select_biased_three runtime (child.wait c s.now) (w.signals.next s.signals s.now)
          (sleep sup.config.poll s.now))
        refl
    where
      go :
          (o : Async ((ExitStatus × Child) ⊎ ((SignalKind × Source) ⊎ Unit {0})))
          → select_biased_three runtime
              (child.wait c s.now)
              (w.signals.next s.signals s.now)
              (sleep sup.config.poll s.now)
            ≡ o
          → Post Never (Alive s) (watch_select w sup.config.poll c s)
      go none q = absurd (three_resolve runtime sane _ _ (s.now + sup.config.poll) tt q)
      go (some (t, inl (st, c''))) q =
          let (c', e) = exits.exits s.now in
          let own = first_value runtime _ _ (s.now + sup.config.poll) t tt (st, c'') q in
          rw (q, watch_select) (ground (arith, own, e))
      go (some (t, inr (inl y))) q =
          absurd
            (cc (second_wins runtime _ _ (s.now + sup.config.poll) t tt y q, quiet s.signals s.now))
      go (some (t, inr (inr z))) q =
          let (c', e) = exits.exits s.now in
          let (due, running, unsignalled) =
            third_wins runtime _ _ (s.now + sup.config.poll) t tt z q in
          rw (q, watch_select) (omega arith, ground (arith, running, e, due))

  abbrev Going : ℕ → Option ℕ → Sys Source → Type 0
  Going fuel started s = (x < s.now + fuel) × (0 < fuel)

  abbrev Exited : Leave → Sys Source → Type 0
  Exited leave s = leave ≡ break_with status

  handle-Exited :
      (fuel : ℕ) (started : Option ℕ) (s : Sys Source)
      → x < s.now + suc fuel
      → (outcome : WatchOutcome) (s' : Sys Source) → Alive s outcome s'
      → Post Never (Continues (Going fuel) Exited) (handle_outcome w sup started c outcome s')
  unfolding handle_outcome judge
  handle-Exited fuel started s room (exited st) s' h = ground (arith, h)
  handle-Exited fuel started s room (signal sig) s' h = absurd h
  handle-Exited fuel none s room tick s' h =
      rw (evaluate_at_once w sup s' pass (passes.passes s'.now h.1)) (omega arith, omega arith)
  handle-Exited fuel (some f) s room tick s' h =
      rw (evaluate_at_once w sup s' pass (passes.passes s'.now h.1)) (omega arith, omega arith)

  round-Exited :
      (fuel : ℕ) (started : Option ℕ) (s : Sys Source)
      → Going (suc fuel) started s
      → Post Never (Continues (Going fuel) Exited) (watch_round w sup started c s)
  unfolding watch_round
  round-Exited fuel started s h =
      bind-Post Never (Alive s) (Continues (Going fuel) Exited) (watch_select w sup.config.poll c) _
        s (select-Alive s) (handle-Exited fuel started s h.0)

  watch_exits :
      (fuel : ℕ) (s : Sys Source)
      → x < s.now + fuel
      → 0 < fuel
      → (watch w fuel sup none c s).0 ≡ done (break_with status)
  watch_exits fuel s room some_fuel =
      let (leave, e, same) =
        value_of_Ends Exited (watch w fuel sup none c s).0 (watch w fuel sup none c s).1 (
          watch_loop w sup c Never Going Exited (λ _ _ h. absurd (omega arith))
            (λ k started s' h. round-Exited k started s' h) fuel none s (room, some_fuel)) in
      cc

  simple_exits : (s : Sys Source) → (simple_wait w sup c s).0 ≡ done (break_with status)
  unfolding simple_wait after_wait
  simple_exits s =
      let (c', e) = exits.exits s.now in
      rw (
        race_alone runtime w.signals (child.wait c) s _ (status, c') sane (quiet s.signals s.now) e)

  attend_exits :
      (fuel : ℕ) (s : Sys Source)
      → x < s.now + fuel
      → 0 < fuel
      → (attend w fuel sup c s).0 ≡ done (break_with status)
  unfolding attend
  attend_exits fuel s room some_fuel =
      ground (arith, watch_exits fuel s room some_fuel, simple_exits s)

  supervise_exits :
      (fuel : ℕ) (cmd : CommandSpec) (s : Sys Source) (u : ℕ) (rest : w.Launcher)
      → w.spawner.spawn sup.spawner cmd s.now ≡ some (u, (ok c, rest))
      → x < u + fuel
      → 0 < fuel
      → (supervise w fuel sup cmd s).0 ≡ done (if success status then 0 else 2)
  unfolding supervise call_spawn await
  supervise_exits fuel cmd s u rest e room some_fuel =
      let s' : Sys Source = record s { now = u; trace = spawned cmd ∷ s.trace } in
      let left = attend_exits fuel s' room some_fuel in
      let code = leave_run_lem w (break_with status) (attend w fuel sup c s').1 in
      ground (arith, e, left, code)

-- Where no signal comes, the predicates pass until the child exits by itself and the spawner gives
-- this child: the run ends with 0 or 2 by the child's status, with or without `kill_on_change`, and
-- `terminate` is not called. With the watcher, one round for each instant until the exit is enough
-- fuel.
pub run_exits :
    (w : Seams) (sup : Supervisor w) (cmd : CommandSpec) (x fuel now u : ℕ) (status : ExitStatus)
    (c : w.Child) (rest : w.Launcher)
    → IsRuntime w.runtime
    → Quiet w
    → EndsAt w c status x
    → PassesUntil w sup x
    → 0 < sup.config.poll
    → now < x
    → w.spawner.spawn sup.spawner cmd (w.runtime.wakes now) ≡ some (u, (ok c, rest))
    → x < u + fuel
    → 0 < fuel
    → ((run w fuel sup cmd now).0 ≡ done (if success status then 0 else 2))
      × (terminations (run w fuel sup cmd now).1.trace ≡ 0)
unfolding run run_task after_preflight gate
run_exits w sup cmd x fuel now u status c rest sane quiet exits passes pos early e room some_fuel =
    (
      ends,
      ground (arith, run_code w fuel sup cmd now {code = if success status then 0 else 2} ends),
    )
  where
    start : Sys w.Source
    start = record { now = now; selects = 0; signals = sup.signals; trace = [] }

    ends : (run w fuel sup cmd now).0 ≡ done (if success status then 0 else 2)
    ends =
        rw
          (race_alone w.runtime w.signals (evaluate sup.predicate_set sup.state) start now pass sane
            (quiet sup.signals now) (passes.passes now early))
          (supervise_exits w sup x status c sane quiet exits passes pos fuel cmd
            (record start {
              now = w.runtime.wakes now;
              selects = 1;
              trace = evaluated (w.runtime.wakes now) pass ∷ [];
            })
            u rest e room some_fuel)
