-- ===== src/State/MacOs/Examples.antt =====
-- src/state/macos.rs: a lifetime in which a call of the handler is enqueued before `cancel` and runs after
-- `drop`, and one that ends by a poisoned mutex.
use condrun.Prelude.{arith, ◌+◌, ◌≡◌, refl, true, false, Option, some, List, [], ◌∷◌, ◌++◌}
use condrun.State.MacOs.{Framework, NwPathSnapshot, macos_state}
use condrun.State.MacOs.Memory.{
  Op, Memory, empty_memory, World, works, enqueues, calls, Reaches, here, after, exec, handler,
  constructs, drops, lifetime, starts, reading,
}
use condrun.State.MacOs.Safety.{never_faults, ends_held, held_at_end, Reaches-frees, IsFreed, leaks}
use condrun.State.MacOs.Readings.{delivered, latest, shows, reads_latest}
use condrun.State.MacOs.Owners.{one_if}

abbrev exec_all : List Op → Memory → Memory
exec_all [] m = m
exec_all (op ∷ ops) m = exec_all ops (exec op m)

works_all :
    (ops rest : List Op) (m : Memory) {v : World}
    → Reaches v (record { code = ops ++ rest; memory = m })
    → Reaches v (record { code = rest; memory = exec_all ops m })
works_all [] rest m way = way
works_all (op ∷ ops) rest m way = works_all ops rest (exec op m) (after way works)

abbrev given : Framework
given = record {
  gives_queue = true;
  gives_monitor = true;
  poisoned = false;
  poisoned_waiting = false;
  updates = [];
}

abbrev poisoned : Framework
poisoned = record given { poisoned = true }

abbrev metered : Option NwPathSnapshot
metered = some (record { expensive = true; low_data = false })

abbrev enqueued : Memory
enqueued =
    let m : Memory = exec_all (constructs given) empty_memory in
    record m { pending = m.pending + 1 }

abbrev orphaned : World
orphaned = record {
  code = [];
  memory = handler false metered (exec_all (reading ∷ drops) enqueued);
}

orphaned-Reaches : Reaches (starts given 1) orphaned
unfolding exec handler constructs lifetime
orphaned-Reaches =
    after
      (works_all (reading ∷ drops) [] enqueued (
        after (works_all (constructs given) (reading ∷ drops) empty_memory here)
          (enqueues refl refl)))
      (calls false metered (omega arith))

never_faults_example : orphaned.memory.faulted ≡ false
never_faults_example = never_faults given 1 orphaned orphaned-Reaches

abbrev failed : World
failed = record { code = []; memory = exec_all (constructs poisoned) empty_memory }

failed-Reaches : Reaches (starts poisoned 0) failed
unfolding exec constructs lifetime
failed-Reaches = works_all (constructs poisoned) [] empty_memory here

ends_held_example :
    (failed.memory.held ≡ held_at_end poisoned)
    × (failed.memory.blocks ≡ one_if failed.memory.copied)
    × (failed.memory.arcs ≡ one_if failed.memory.copied)
ends_held_example = ends_held poisoned 0 failed failed-Reaches refl

Reaches-frees_example : (w : World) × Reaches orphaned w × IsFreed w
unfolding leaks
Reaches-frees_example = Reaches-frees given 1 orphaned refl orphaned-Reaches

-- The orphaned call wrote the snapshot.
orphaned_writes : orphaned.memory.contents.snapshot.expensive ≡ true
unfolding handler exec constructs
orphaned_writes = refl

reads_latest_example :
    (orphaned.memory.contents ≡ shows (latest (delivered orphaned-Reaches)))
    × ((macos_state (delivered orphaned-Reaches)).is_expensive 99
        ≡ orphaned.memory.contents.snapshot.expensive)
    × ((macos_state (delivered orphaned-Reaches)).is_low_data_mode 99
        ≡ orphaned.memory.contents.snapshot.low_data)
unfolding orphaned-Reaches works_all constructs lifetime
reads_latest_example = reads_latest given 1 99 orphaned-Reaches (omega arith)
