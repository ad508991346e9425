-- ===== src/Process/Fake.antt =====
-- src/process/fake.rs: the scriptable spawner and child of the tests.
pub mod Queue
mod Tests
use condrun.Prelude.{
  ℕ, ◌+◌, ◌*◌, ◌%◌, ◌^◌, Bool, true, false, Option, none, some, List, [], ◌∷◌, ◌++◌, leb,
  if◌then◌else◌,
}
use condrun.Async.{Async, Result, ok}
use condrun.Signal.{SignalKind}
use condrun.Process.{CommandSpec, ExitStatus, ChildHandle, Spawner}

abbrev pub fake_pid : ℕ
fake_pid = 99999

-- `code << 8` of an `i32`, by its bits.
unfoldable pub make_status : ℕ → ExitStatus
make_status code = record { raw = code * 256 % 2 ^ 32 }

pub record ChildState : Type 0 where
  pub exited : Bool
  pub exit_code : ℕ
  pub terminated : Bool
  pub killed : Bool
  pub last_signal : Option SignalKind

pub record FakeChildHandle : Type 0 where
  pub exit_delay : ℕ
  pub terminate_delay : ℕ
  pub state : ChildState

unfoldable pub new_child : ℕ → ℕ → FakeChildHandle
new_child exit_code exit_delay = record {
  exit_delay = exit_delay;
  terminate_delay = 0;
  state = record {
    exited = false;
    exit_code = exit_code;
    terminated = false;
    killed = false;
    last_signal = none;
  };
}

unfoldable pub with_terminate_delay : ℕ → FakeChildHandle → FakeChildHandle
with_terminate_delay d h = record h { terminate_delay = d }

-- What a test reads of the child.
abbrev pub terminated : FakeChildHandle → Bool
terminated h = h.state.terminated

abbrev pub killed : FakeChildHandle → Bool
killed h = h.state.killed

abbrev pub last_signal : FakeChildHandle → Option SignalKind
last_signal h = h.state.last_signal

abbrev snapshot_exit_code : FakeChildHandle → ℕ
snapshot_exit_code h = h.state.exit_code

mark_exited : FakeChildHandle → FakeChildHandle
mark_exited h = let s = h.state in record h { state = record s { exited = true } }

-- The supervisor alone holds the handle, so no other task ends the wait by a notification: it
-- resolves when the delay of this call is over.
unfoldable pub wait : FakeChildHandle → ℕ → Async (ExitStatus × FakeChildHandle)
unfolding mark_exited make_status
wait h now =
    if h.state.exited
    then some (now, (make_status (snapshot_exit_code h), h))
    else some (now + h.exit_delay, (make_status (snapshot_exit_code h), mark_exited h))

unfoldable pub terminate : FakeChildHandle → ℕ → ℕ → Async (Result (Unit {0}) × FakeChildHandle)
unfolding mark_exited
terminate h grace now =
    let s = h.state in
    let h' : FakeChildHandle = record h { state = record s { terminated = true } } in
    let s' = h'.state in
    if leb h.terminate_delay grace
    then some (now + h.terminate_delay, (ok tt, mark_exited h'))
    else some
        (now + grace, (ok tt, mark_exited (record h' { state = record s' { killed = true } })))

unfoldable pub signal :
    FakeChildHandle → SignalKind → ℕ → Async (Result (Unit {0}) × FakeChildHandle)
signal h kind now =
    let s = h.state in
    some (now, (ok tt, record h { state = record s { last_signal = some kind } }))

instance abbrev pub fake_child : ChildHandle FakeChildHandle
fake_child = record { wait = wait; terminate = terminate; signal = signal; pid = λ h. fake_pid }

pub record FakeSpawner : Type 0 where
  pub spawned : List CommandSpec
  pub handles : List FakeChildHandle

-- The commands that `spawn` was given, in their order.
abbrev pub spawned : FakeSpawner → List CommandSpec
spawned p = p.spawned

abbrev pub new_spawner : FakeSpawner
new_spawner = record { spawned = []; handles = [] }

unfoldable pub enqueue_handle : FakeChildHandle → FakeSpawner → FakeSpawner
enqueue_handle h p = record p { handles = p.handles ++ h ∷ [] }

unfoldable pub spawn : FakeSpawner → CommandSpec → ℕ → Async (Result FakeChildHandle × FakeSpawner)
unfolding new_child
spawn p cmd now = elim p.handles [
  | [] ↦ some (now, (ok (new_child 0 0), record { spawned = p.spawned ++ cmd ∷ []; handles = [] }))
  | h ∷ rest ↦ some (now, (ok h, record { spawned = p.spawned ++ cmd ∷ []; handles = rest }))
]

instance abbrev pub fake_spawner : Spawner FakeSpawner FakeChildHandle
fake_spawner = record { spawn = spawn }
