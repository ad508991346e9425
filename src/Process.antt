-- ===== src/Process.antt =====
-- src/process/mod.rs: commands, exit statuses, and the traits of spawners and child handles.
pub mod Fake
pub mod Tokio
mod Tests
use condrun.Prelude.{
  ℕ, ◌/◌, ◌%◌, ◌≤◌, ◌≡◌, Bool, Option, none, some, String, List, ◌==◌, if◌then◌else◌,
}
use condrun.Async.{Async, Result}
use condrun.Signal.{SignalKind}

pub record CommandSpec : Type 0 where
  pub program : String
  pub args : List String

-- `std::process::ExitStatus` on Unix: the wait status, an `i32`, by its bits.
pub record ExitStatus : Type 0 where
  pub raw : ℕ

unfoldable pub success : ExitStatus → Bool
success status = status.raw == 0

-- `ExitStatus::code`: the second byte, if the child was not ended by a signal.
unfoldable pub code : ExitStatus → Option ℕ
code status = if status.raw % 128 == 0 then some (status.raw / 256 % 256) else none

-- The trait objects: each call takes the object and the instant, and resolves to its result and the
-- object after the call. A `wait` that is dropped before it resolves leaves the handle as it was.
pub record ChildHandle (C : Type 0) : Type 0 where
  pub wait : C → ℕ → Async (ExitStatus × C)
  pub terminate : C → ℕ → ℕ → Async (Result (Unit {0}) × C)
  pub signal : C → SignalKind → ℕ → Async (Result (Unit {0}) × C)
  pub pid : C → ℕ

pub record Spawner (P C : Type 0) : Type 0 where
  pub spawn : P → CommandSpec → ℕ → Async (Result C × P)
