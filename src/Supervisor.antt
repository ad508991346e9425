-- ===== src/Supervisor.antt =====
-- src/supervisor.rs: the gate, the spawn, the watcher loop and the forwarding of signals.
pub mod Exec
pub mod Run
pub mod Post
pub mod Loop
pub mod TraceLoop
pub mod Trace
pub mod Codes
pub mod Meanings
pub mod Debounce
pub mod Gate
pub mod Rounds
pub mod Latency
pub mod Unwatched
pub mod Reaped
pub mod Kill
pub mod Ending
pub mod Exit
pub mod Failure
pub mod Interrupt
pub mod Clock
pub mod Watchdog
mod Scenarios
mod Examples
mod Inspectable
use condrun.Prelude.{ℕ, Bool}
use condrun.Async.{Runtime}
use condrun.State.{NetworkState}
use condrun.Predicate.{PredicateSet}
use condrun.Signal.{Signals}
use condrun.Process.{ChildHandle, Spawner}

-- The implementations behind the trait objects, and the runtime: the supervisor is generic in them.
pub record Seams : Type 1 where
  pub Child : Type 0
  pub Source : Type 0
  pub Launcher : Type 0
  pub child : ChildHandle Child
  pub signals : Signals Source
  pub spawner : Spawner Launcher Child
  pub runtime : Runtime

-- Durations are nanoseconds.
pub record SupervisorConfig : Type 0 where
  pub strict : Bool
  pub kill_on_change : Bool
  pub grace : ℕ
  pub poll : ℕ
  pub debounce : ℕ

pub record Supervisor (w : Seams) : Type 0 where
  pub predicate_set : PredicateSet
  pub spawner : w.Launcher
  pub state : NetworkState
  pub signals : w.Source
  pub config : SupervisorConfig
