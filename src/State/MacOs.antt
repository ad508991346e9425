-- ===== src/State/MacOs.antt =====
-- src/state/macos.rs: the snapshot cached behind a mutex, its update handler, and the order of the
-- calls of Network.framework and libdispatch in the constructor and in `drop`.
pub mod Memory
pub mod Owners
pub mod Safety
pub mod Readings
mod Examples
mod Tests
use condrun.Prelude.{
  ℕ, ◌+◌, ◌-◌, ◌≤◌, ◌≡◌, ◌⊎◌, inl, inr, Bool, true, false, Option, none, some, List, [], ◌∷◌, ◌++◌,
  ◌&&◌, ◌||◌, leb, arith, if◌then◌else◌, Bool-cases, Option-cases,
}
use condrun.Async.{Result, ok, err}
use condrun.State.{NetworkState}

pub record NwPathSnapshot : Type 0 where
  pub expensive : Bool
  pub low_data : Bool

pub record SharedState : Type 0 where
  pub snapshot : NwPathSnapshot
  pub ready : Bool

-- `SharedState::default()`
abbrev pub default_shared : SharedState
default_shared = record { snapshot = record { expensive = false; low_data = false }; ready = false }

-- One call of the update handler: a null path is passed over.
unfoldable pub update : Option NwPathSnapshot → SharedState → SharedState
update none s = s
update (some snapshot) s = record { snapshot = snapshot; ready = true }

-- The calls of the handler, in their order, each with its instant.
abbrev pub Updates : Type 0
Updates = List (ℕ × Option NwPathSnapshot)

unfoldable pub shared_at : Updates → SharedState → ℕ → SharedState
unfolding update
shared_at [] s now = s
shared_at ((t, path) ∷ updates) s now =
    shared_at updates (if leb t now then update path s else s) now

-- The readings: a poisoned mutex is read all the same.
unfoldable pub macos_state : Updates → NetworkState
unfolding shared_at
macos_state updates = record {
  is_expensive = λ now. (shared_at updates default_shared now).snapshot.expensive;
  is_low_data_mode = λ now. (shared_at updates default_shared now).snapshot.low_data;
}

-- The calls of the frameworks; a `create` with whether it returned an object.
pub data Call : Type 0 where
  dispatch_queue_create nw_path_monitor_create : Bool → Call
  set_update_handler set_queue start cancel nw_release dispatch_release : Call

-- What the frameworks do: which objects they give, the updates that they send once they are started,
-- and whether a handler poisons the mutex before it is locked or during the wait.
pub record Framework : Type 0 where
  pub gives_queue : Bool
  pub gives_monitor : Bool
  pub poisoned : Bool
  pub poisoned_waiting : Bool
  pub updates : Updates

abbrev pub first_update_timeout : ℕ
first_update_timeout = 1_000_000_000

unfoldable pub first_ready : Updates → Option ℕ
first_ready [] = none
first_ready ((t, none) ∷ updates) = first_ready updates
first_ready ((t, some snapshot) ∷ updates) = some t

-- `wait_timeout_while(guard, FIRST_UPDATE_TIMEOUT, |s| !s.ready)`: the instant at which it returns.
abbrev pub wait_ready : Option ℕ → ℕ → ℕ
wait_ready none now = now + first_update_timeout
wait_ready (some t) now =
    if leb t now
    then now
    else if leb t (now + first_update_timeout)
    then t
    else now + first_update_timeout

abbrev starting : List Call
starting =
    dispatch_queue_create true
    ∷ nw_path_monitor_create true
    ∷ set_update_handler
    ∷ set_queue
    ∷ start
    ∷ []

-- `MacOsNetworkState::new`: the state and the instant at which it is there, and the calls made.
unfoldable pub new : Framework → ℕ → Result (ℕ × Updates) × List Call
unfolding first_ready
new f now =
    if f.gives_queue
    then if f.gives_monitor
      then if f.poisoned
        then (err "snapshot mutex poisoned during construction", starting)
        else if f.poisoned_waiting
        then (err "snapshot mutex poisoned while waiting", starting)
        else (ok (wait_ready (first_ready f.updates) now, f.updates), starting)
      else (
        err "nw_path_monitor_create returned NULL",
        dispatch_queue_create true ∷ nw_path_monitor_create false ∷ dispatch_release ∷ [],
      )
    else (err "dispatch_queue_create returned NULL", dispatch_queue_create false ∷ [])

-- `Drop for MacOsNetworkState`
abbrev pub drop : List Call
drop = cancel ∷ nw_release ∷ dispatch_release ∷ []

-- How many queues and monitors are held after these calls, and whether updates are still sent.
pub record Held : Type 0 where
  pub queues : ℕ
  pub monitors : ℕ
  pub running : Bool

abbrev pub after_call : Call → Held → Held
after_call (dispatch_queue_create given) h = if given then record h { queues = h.queues + 1 } else h
after_call (nw_path_monitor_create given) h =
    if given then record h { monitors = h.monitors + 1 } else h
after_call set_update_handler h = h
after_call set_queue h = h
after_call start h = record h { running = true }
after_call cancel h = record h { running = false }
after_call nw_release h = record h { monitors = h.monitors - 1 }
after_call dispatch_release h = record h { queues = h.queues - 1 }

abbrev pub held_from : Held → List Call → Held
held_from h [] = h
held_from h (call ∷ calls) = held_from (after_call call h) calls

abbrev pub nothing_held : Held
nothing_held = record { queues = 0; monitors = 0; running = false }

abbrev pub held : List Call → Held
held = held_from nothing_held

abbrev pub dropped_if_ok : Result (ℕ × Updates) → List Call
dropped_if_ok (ok state) = drop
dropped_if_ok (err e) = []

-- A queue and a running monitor that nothing will release.
abbrev pub leaked : Held
leaked = record { queues = 1; monitors = 1; running = true }

-- The constructor and, where it succeeds, the `drop` of the state leave no queue and no monitor
-- held and no monitor running, but where both objects were given and the mutex is poisoned: then
-- the error leaves both held and the monitor running.
pub new_releases :
    (f : Framework) (now : ℕ)
    → held ((new f now).1 ++ dropped_if_ok (new f now).0) ≡ (
        if f.gives_queue && (f.gives_monitor && (f.poisoned || f.poisoned_waiting))
        then leaked
        else nothing_held)
unfolding new
new_releases f now = ground arith

stays_ready :
    (updates : Updates) (s : SharedState) (now : ℕ)
    → s.ready ≡ true
    → (shared_at updates s now).ready ≡ true
unfolding shared_at update
stays_ready [] s now h = h
stays_ready ((t, none) ∷ updates) s now h = ground (arith, stays_ready updates s now h)
stays_ready ((t, some snapshot) ∷ updates) s now h = stays_ready updates _ now (ground (arith, h))

pub ready_after :
    (updates : Updates) (s : SharedState) (t now : ℕ)
    → first_ready updates ≡ some t
    → t ≤ now
    → (shared_at updates s now).ready ≡ true
unfolding shared_at update first_ready
ready_after [] s t now e h = cc
ready_after ((u, none) ∷ updates) s t now e h = ground (arith, ready_after updates s t now e h)
ready_after ((u, some snapshot) ∷ updates) s t now e h =
    stays_ready updates _ now (ground (arith, e, h))

pub new_waits :
    (f : Framework) (now u : ℕ) (updates : Updates)
    → (new f now).0 ≡ ok (u, updates)
    → (updates ≡ f.updates) × (u ≡ wait_ready (first_ready f.updates) now)
unfolding new
new_waits f now u updates h = ground arith

-- The constructor returns a state only once an update has come, or when the whole time limit has
-- passed without one.
pub new_barrier :
    (f : Framework) (now u : ℕ) (updates : Updates)
    → (new f now).0 ≡ ok (u, updates)
    → ((shared_at updates default_shared u).ready ≡ true) ⊎ (u ≡ now + first_update_timeout)
new_barrier f now u updates h =
    let (same, wait) = new_waits f now u updates h in
    elim (Option-cases (first_ready updates)) [
      | inl e ↦ inr (ground (arith, e, same, wait))
      | inr (t, e) ↦ elim (Bool-cases (leb t u)) [
        | inl early ↦ inl (ready_after updates default_shared t u e (ground (arith, early)))
        | inr late ↦ inr (ground (arith, e, same, wait, late))
      ]
    ]
