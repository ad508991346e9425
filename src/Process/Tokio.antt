-- ===== src/Process/Tokio.antt =====
-- src/process/tokio.rs: the handle of a real child. The child of the operating system is a
-- parameter: how it is waited for, and what a signal to its process group does.
pub mod Terminate
pub mod Touched
pub mod Programs
mod Tests
use condrun.Prelude.{
  ℕ, ◌+◌, ◌*◌, ◌≤◌, ◌≡◌, ◌≢◌, refl, Bool, true, String, List, Option, Option-cases, none, some, ◌⊎◌,
  inl, inr, arith,
}
use condrun.Async.{Async, Runtime, IsRuntime, Result, ok, err, select, sleep}
use condrun.Signal.{SignalKind}
use condrun.Process.{ChildHandle, ExitStatus, CommandSpec, Spawner}

-- `nix::sys::signal::Signal`, as far as it is used.
pub data OsSignal : Type 0 where
  sigint sigterm sigquit sighup sigkill : OsSignal

pub data Stdio : Type 0 where
  null inherit : Stdio

-- What `tokio::process::Command` is told: `pre_exec` with `setsid` is `new_session`.
pub record OsCommand : Type 0 where
  pub program : String
  pub args : List String
  pub stdin : Stdio
  pub stdout : Stdio
  pub stderr : Stdio
  pub kill_on_drop : Bool
  pub new_session : Bool

unfoldable pub command_of : CommandSpec → OsCommand
command_of cmd = record {
  program = cmd.program;
  args = cmd.args;
  stdin = null;
  stdout = inherit;
  stderr = inherit;
  kill_on_drop = true;
  new_session = true;
}

-- A child of the operating system. `killpg` returns at once, with its result and the child after it.
-- `wait` gives a status: an error of it, at which the source panics, is left out.
pub record Os : Type 1 where
  pub Proc : Type 0
  pub wait : Proc → ℕ → Async (ExitStatus × Proc)
  pub killpg : Proc → OsSignal → ℕ → Result (Unit {0}) × Proc
  pub id : Proc → Option ℕ
  pub start : OsCommand → ℕ → Async (Result Proc)

unfoldable pub os_signal : SignalKind → OsSignal
os_signal SignalKind.interrupt = sigint
os_signal SignalKind.terminate = sigterm
os_signal SignalKind.quit = sigquit
os_signal SignalKind.hup = sighup

module _ (os : Os) where
  open os use {Proc, killpg, id, start}

  -- `draws` is the number of `select!`s of this handle so far.
  pub record TokioChildHandle : Type 0 where
    pub child : Proc
    pub pid : ℕ
    pub draws : ℕ

  abbrev with_child :
      {A : Type 0} → TokioChildHandle → Async (A × Proc) → Async (A × TokioChildHandle)
  with_child h none = none
  with_child h (some (t, (a, child))) = some (t, (a, record h { child = child }))

  unfoldable pub wait : TokioChildHandle → ℕ → Async (ExitStatus × TokioChildHandle)
  wait h now = with_child h (os.wait h.child now)

  unfoldable pub signal :
      TokioChildHandle → SignalKind → ℕ → Async (Result (Unit {0}) × TokioChildHandle)
  unfolding os_signal
  signal h kind now =
      let (ignored, child) = killpg h.child (os_signal kind) now in
      some (now, (ok tt, record h { child = child }))

  -- The end of `terminate` where the grace is over.
  unfoldable pub kill_group : TokioChildHandle → ℕ → Async (Result (Unit {0}) × TokioChildHandle)
  kill_group h now =
      let (ignored, child) = killpg h.child sigkill now in
      elim (os.wait child now) [
        | none ↦ none
        | some (t, (status, reaped)) ↦ some (t, (ok tt, record h { child = reaped }))
      ]

  module _ (rt : Runtime) where
    unfoldable pub terminate :
        TokioChildHandle → ℕ → ℕ → Async (Result (Unit {0}) × TokioChildHandle)
    unfolding kill_group
    terminate h grace now =
        let (ignored, child) = killpg h.child sigterm now in
        let h' : TokioChildHandle = record h { child = child; draws = h.draws + 1 } in
        elim (select rt h.draws (os.wait child now) (sleep grace now)) [
          | none ↦ none
          | some (t, inl (status, reaped)) ↦ some (t, (ok tt, record h' { child = reaped }))
          | some (t, inr _) ↦ kill_group h' t
        ]

    abbrev pub tokio_child : ChildHandle TokioChildHandle
    tokio_child = record { wait = wait; terminate = terminate; signal = signal; pid = λ h. h.pid }

  abbrev with_pid : Proc → Option ℕ → Result TokioChildHandle
  with_pid child none = err "no PID for spawned child"
  with_pid child (some pid) = ok (record { child = child; pid = pid; draws = 0 })

  abbrev spawned : Result Proc → Result TokioChildHandle
  spawned (err e) = err e
  spawned (ok child) = with_pid child (id child)

  -- `TokioSpawner`; a `setsid` that fails is an error of `start`.
  unfoldable pub spawn : CommandSpec → ℕ → Async (Result TokioChildHandle × Unit {0})
  spawn cmd now = elim (start (command_of cmd) now) [
    | none ↦ none
    | some (t, r) ↦ some (t, (spawned r, tt))
  ]

  abbrev pub tokio_spawner : Spawner (Unit {0}) TokioChildHandle
  tokio_spawner = record { spawn = λ _. spawn }
