-- ===== src/Process/Fake/Queue.antt =====
-- The queue of handles of `FakeSpawner` in src/process/fake.rs.
use condrun.Prelude.{ℕ, ◌≡◌, refl, none, some, List, [], ◌∷◌, ◌++◌, append-nil, append_assoc}
use condrun.Async.{Async, Result, ok, err}
use condrun.Process.{CommandSpec}
use condrun.Process.Fake.{
  FakeChildHandle, FakeSpawner, new_child, new_spawner, enqueue_handle, spawn,
}

-- Several calls of `enqueue_handle`.
abbrev pub enqueue_all : List FakeChildHandle → FakeSpawner → FakeSpawner
enqueue_all [] p = p
enqueue_all (h ∷ hs) p = enqueue_all hs (enqueue_handle h p)

-- Several calls of `spawn`, one after the other, up to an error.
abbrev pub spawn_all :
    List CommandSpec → FakeSpawner → ℕ → Async (Result (List FakeChildHandle) × FakeSpawner)
spawn_all [] p now = some (now, (ok [], p))
spawn_all (cmd ∷ cmds) p now = elim (spawn p cmd now) [
  | none ↦ none
  | some (t, (err e, rest)) ↦ some (t, (err e, rest))
  | some (t, (ok h, rest)) ↦ elim (spawn_all cmds rest t) [
    | none ↦ none
    | some (u, (err e, last)) ↦ some (u, (err e, last))
    | some (u, (ok hs, last)) ↦ some (u, (ok (h ∷ hs), last))
  ]
]

-- The children for the commands, and the handles that are left: the queue in its order, and then
-- children that exit with 0 at once.
abbrev pub served :
    List FakeChildHandle → List CommandSpec → List FakeChildHandle × List FakeChildHandle
served hs [] = ([], hs)
served [] (cmd ∷ cmds) = (new_child 0 0 ∷ (served [] cmds).0, (served [] cmds).1)
served (h ∷ hs) (cmd ∷ cmds) = (h ∷ (served hs cmds).0, (served hs cmds).1)

enqueue_all_lem :
    (hs : List FakeChildHandle) (p : FakeSpawner)
    → enqueue_all hs p ≡ record { spawned = p.spawned; handles = p.handles ++ hs }
unfolding enqueue_handle
enqueue_all_lem [] p = rw (append-nil p.handles) refl
enqueue_all_lem (h ∷ hs) p = rw (enqueue_all_lem hs (enqueue_handle h p)) (rw append_assoc refl)

spawn_all_lem :
    (cmds old : List CommandSpec) (hs : List FakeChildHandle) (now : ℕ)
    → spawn_all cmds (record { spawned = old; handles = hs }) now
      ≡ some (
        now,
        (ok (served hs cmds).0, record { spawned = old ++ cmds; handles = (served hs cmds).1 }),
      )
unfolding spawn
spawn_all_lem [] old hs now = rw (append-nil old) refl
spawn_all_lem (cmd ∷ cmds) old [] now =
    rw (spawn_all_lem cmds (old ++ cmd ∷ []) [] now) (rw append_assoc refl)
spawn_all_lem (cmd ∷ cmds) old (h ∷ hs) now =
    rw (spawn_all_lem cmds (old ++ cmd ∷ []) hs now) (rw append_assoc refl)

-- A fresh spawner hands out the queued handles in the order in which they were queued, one for each
-- command, then children that exit with 0 at once, and has recorded the commands in their order.
pub spawn_all-enqueue_all :
    (cmds : List CommandSpec) (hs : List FakeChildHandle) (now : ℕ)
    → spawn_all cmds (enqueue_all hs new_spawner) now
      ≡ some (now, (ok (served hs cmds).0, record { spawned = cmds; handles = (served hs cmds).1 }))
spawn_all-enqueue_all cmds hs now =
    rw (enqueue_all_lem hs new_spawner) (spawn_all_lem cmds [] hs now)
