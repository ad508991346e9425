-- ===== src/Supervisor/Trace.antt =====
-- What the actions of the supervisor leave in the trace.
use Prim.Native.String
use condrun.Prelude.{String, ℕ, ◌+◌, ◌≡◌, List, [], ◌∷◌, arith}
use condrun.Async.{Async, Runtime}
use condrun.Signal.{Signals}
use condrun.Supervisor.{Seams}
use condrun.Supervisor.Run.{watch_select}
use condrun.Supervisor.Exec.{
  Event, evaluated, spawned, forwarded, terminated, logged, error, preflight_failed_strict, Sys,
  await, race,
}

-- How often the trace has a call of `child.terminate`, `spawner.spawn`, `child.signal`, `evaluate`.
abbrev pub terminations : List Event → ℕ
terminations [] = 0
terminations (terminated g ∷ es) = terminations es + 1
terminations (_ ∷ es) = terminations es

abbrev pub spawns : List Event → ℕ
spawns [] = 0
spawns (spawned cmd ∷ es) = spawns es + 1
spawns (_ ∷ es) = spawns es

abbrev pub forwards : List Event → ℕ
forwards [] = 0
forwards (forwarded k ∷ es) = forwards es + 1
forwards (_ ∷ es) = forwards es

abbrev pub evaluations : List Event → ℕ
evaluations [] = 0
evaluations (evaluated t r ∷ es) = evaluations es + 1
evaluations (_ ∷ es) = evaluations es

-- The text of the lines at level ERROR, without what the subscriber puts round it.
abbrev pub error_lines : List Event → String
error_lines [] = ""
error_lines (logged error (preflight_failed_strict reason) ∷ es) =
    String.◌++◌ (error_lines es) (String.◌++◌ "pre-flight predicate failed (strict): " reason)
error_lines (_ ∷ es) = error_lines es

module _ {S A : Type 0} where
  pub await-trace : (future : ℕ → Async A) (s : Sys S) → (await future s).1.trace ≡ s.trace
  unfolding await
  await-trace future s = ground arith

  pub race-trace :
      (rt : Runtime) (sg : Signals S) (future : ℕ → Async A) (s : Sys S)
      → (race rt sg future s).1.trace ≡ s.trace
  unfolding race
  race-trace rt sg future s = ground arith

pub watch_select-trace :
    (w : Seams) (poll : ℕ) (c : w.Child) (s : Sys w.Source)
    → (watch_select w poll c s).1.trace ≡ s.trace
unfolding watch_select
watch_select-trace w poll c s = ground arith
