-- ===== src/Cli/Real.antt =====
-- What `dispatch` of src/cli.rs puts behind the traits: `TokioSpawner` and `RealSignals`, over the
-- operating system and the streams of tokio as parameters.
pub mod Ends
pub mod Causal
pub mod Causes
pub mod Kills
pub mod Reaps
pub mod Errors
mod Examples
use condrun.Prelude.{ℕ, ◌+◌, ◌≤◌, ◌≡◌, refl, some, none, arith}
use condrun.Async.{Async, Runtime, IsRuntime, Result, ok}
use condrun.Async.Select.{IsPrompt}
use condrun.Signal.Real.{Streams, RealSignals, real_signals, next, select_from}
use condrun.Signal.Real
use condrun.Process.{ExitStatus, CommandSpec}
use condrun.Process.Tokio.{
  Os, command_of, TokioChildHandle, tokio_child, tokio_spawner, spawn, terminate, wait,
}
use condrun.Process.Tokio.Terminate.{Dies, terminate_reaps}
use condrun.Supervisor.{Seams, Supervisor}
use condrun.Supervisor.Kill.{Killable, Quiet}
use condrun.Supervisor.Ending.{Launches}

abbrev pub real_seams : Os → Streams → Runtime → (ℕ → ℕ) → Seams
real_seams os st rt starts = record {
  Child = TokioChildHandle os;
  Source = RealSignals st;
  Launcher = Unit {0};
  child = tokio_child os rt;
  signals = real_signals st rt starts;
  spawner = tokio_spawner os;
  runtime = rt;
}

-- A child that has been waited for keeps its status: a later wait is over at once.
pub record Remembers (os : Os) : Type 0 where
  pub remembers :
      (p p' : os.Proc) (v u t : ℕ) (status : ExitStatus)
      → os.wait p v ≡ some (u, (status, p'))
      → u ≤ t
      → os.wait p' t ≡ some (t, (status, p'))

-- The system starts the command within `slack`, as a process with an id.
pub record Starts (os : Os) (cmd : CommandSpec) (slack : ℕ) : Type 0 where
  pub begins :
      (now : ℕ)
      → (t pid : ℕ) × (p : os.Proc) × (os.start (command_of cmd) now ≡ some (t, ok p))
        × (os.id p ≡ some pid)
        × (now ≤ t)
        × (t ≤ now + slack)

module _ (os : Os) (st : Streams) (rt : Runtime) (starts : ℕ → ℕ) where
  -- A real child that dies of SIGKILL answers the supervisor's `terminate`.
  pub real-Killable :
      (late reap grace slack : ℕ)
      → IsRuntime rt
      → IsPrompt rt late
      → Dies os reap
      → Remembers os
      → late + reap ≤ slack
      → Killable (real_seams os st rt starts) grace slack
  unfolding wait
  real-Killable late reap grace slack sane prompt mortal keeps room = record {
    dies = λ c now.
        let (t, c', e, soon, (v, u, status, p, f, early)) =
          terminate_reaps os rt late reap c grace now sane prompt mortal in
        let again = keeps.remembers p c'.child v u t status f early in
        (t, t, status, c', c', e, omega arith, rw again, omega arith);
  }

  pub real-Quiet :
      ((x : st.Stream) (t : ℕ) → st.recv x t ≡ none) → Quiet (real_seams os st rt starts)
  unfolding next select_from
  real-Quiet silent s t = rw (silent s.int t, silent s.term t, silent s.quit t, silent s.hup t)

  pub real-Launches :
      (sup : Supervisor (real_seams os st rt starts)) (cmd : CommandSpec) (slack : ℕ)
      → Starts os cmd slack
      → Launches (real_seams os st rt starts) sup cmd slack
  unfolding spawn
  real-Launches sup cmd slack begun = record {
    launches = λ now.
        let (t, pid, p, e, f, later, soon) = begun.begins now in
        (
          t,
          record { child = p; pid = pid; draws = 0 },
          tt,
          rw (e, spawn) (ground (arith, f)),
          later,
          soon,
        );
  }
