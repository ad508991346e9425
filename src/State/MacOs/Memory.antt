-- ===== src/State/MacOs/Memory.antt =====
-- src/state/macos.rs: who owns the snapshot's `Arc`, the handler's block and the objects of the
-- frameworks, from the constructor through `drop`, while the frameworks call the handler.
use condrun.Prelude.{
  ℕ, zero, suc, ◌+◌, ◌-◌, ◌<◌, ◌≡◌, Bool, true, false, Option, List, [], ◌∷◌, ◌++◌, ◌&&◌, ◌||◌, not,
  ◌==◌, if◌then◌else◌,
}
use condrun.State.MacOs.{
  Framework, Call, dispatch_queue_create, nw_path_monitor_create, set_update_handler, set_queue,
  start, cancel, nw_release, dispatch_release, Held, after_call, nothing_held, NwPathSnapshot,
  SharedState, default_shared, update,
}

-- What the Rust code does to the objects that it owns: the calls of the frameworks; the `Arc`'s
-- making, its clone for the handler and the end of a handle; the block's making, which moves the clone
-- into it, and the end of the handle on it; and a reading through the state's own handle.
pub data Op : Type 0 where
  arc_new arc_clone block_new arc_drop block_drop reading : Op
  ffi : Call → Op

-- `Arc` and block by their reference counts (0 is freed); the calls of the handler that are still
-- enqueued; whether Network.framework holds its copy of the block; and whether anything freed was used.
pub record Memory : Type 0 where
  pub arcs : ℕ
  pub blocks : ℕ
  pub held : Held
  pub copied : Bool
  pub pending : ℕ
  pub contents : SharedState
  pub faulted : Bool

abbrev pub empty_memory : Memory
empty_memory = record {
  arcs = 0;
  blocks = 0;
  held = nothing_held;
  copied = false;
  pending = 0;
  contents = default_shared;
  faulted = false;
}

-- One reference to the block goes; with the last, the clone that the closure has captured.
unfoldable pub release_block : Memory → Memory
release_block m = record m {
  blocks = m.blocks - 1;
  arcs = if m.blocks == 1 then m.arcs - 1 else m.arcs;
}

abbrev pub fault_if : Bool → Memory → Memory
fault_if b m = record m { faulted = m.faulted || b }

-- Whether a call is given an object that the code does not hold, or releases one under a monitor that
-- still runs.
unfoldable pub misuses : Call → Memory → Bool
misuses (dispatch_queue_create given) m = false
misuses (nw_path_monitor_create given) m = false
misuses set_update_handler m = (m.held.monitors == 0) || (m.blocks == 0)
misuses set_queue m = (m.held.monitors == 0) || (m.held.queues == 0)
misuses start m = m.held.monitors == 0
misuses cancel m = m.held.monitors == 0
misuses nw_release m = (m.held.monitors == 0) || m.held.running
misuses dispatch_release m = (m.held.queues == 0) || m.held.running

-- `nw_path_monitor_set_update_handler` retains the block (`Block_copy`).
unfoldable pub copy_block : Call → Memory → Memory
copy_block set_update_handler m = record m { blocks = m.blocks + 1; copied = true }
copy_block _ m = m

unfoldable pub exec : Op → Memory → Memory
unfolding release_block misuses copy_block
exec arc_new m = record m { arcs = 1 }
exec arc_clone m = record (fault_if (m.arcs == 0) m) { arcs = m.arcs + 1 }
exec block_new m = record m { blocks = 1 }
exec arc_drop m = record (fault_if (m.arcs == 0) m) { arcs = m.arcs - 1 }
exec block_drop m = release_block (fault_if (m.blocks == 0) m)
exec reading m = fault_if (m.arcs == 0) m
exec (ffi call) m = record (copy_block call (fault_if (misuses call m) m)) {
  held = after_call call m.held;
}

-- One call of the handler: it runs the block and, where the mutex is not poisoned, writes through the
-- clone that the block has captured.
unfoldable pub handler : Bool → Option NwPathSnapshot → Memory → Memory
unfolding update
handler poisoned path m = record (fault_if ((m.blocks == 0) || (m.arcs == 0)) m) {
  pending = m.pending - 1;
  contents = if poisoned then m.contents else update path m.contents;
}

-- The constructor: the locals that an error leaves are dropped, the last one first.
unfoldable pub constructs : Framework → List Op
constructs f =
    arc_new
    ∷ ffi (dispatch_queue_create f.gives_queue)
    ∷ (if f.gives_queue
        then ffi (nw_path_monitor_create f.gives_monitor)
          ∷ (if f.gives_monitor
              then arc_clone
                ∷ block_new
                ∷ ffi set_update_handler
                ∷ ffi set_queue
                ∷ ffi start
                ∷ (if f.poisoned || f.poisoned_waiting then block_drop ∷ arc_drop ∷ [] else [])
              else ffi dispatch_release ∷ arc_drop ∷ [])
        else arc_drop ∷ [])

unfoldable pub constructed : Framework → Bool
constructed f = f.gives_queue && (f.gives_monitor && not (f.poisoned || f.poisoned_waiting))

-- `Drop for MacOsNetworkState`, and then its fields in the order of their declaration.
abbrev pub drops : List Op
drops = ffi cancel ∷ ffi nw_release ∷ ffi dispatch_release ∷ arc_drop ∷ block_drop ∷ []

-- The constructor and, where it gives a state, so many readings of it and its end.
abbrev pub readings_then_drop : ℕ → List Op
readings_then_drop zero = drops
readings_then_drop (suc n) = reading ∷ readings_then_drop n

unfoldable pub lifetime : Framework → ℕ → List Op
unfolding constructs constructed
lifetime f n = constructs f ++ (if constructed f then readings_then_drop n else [])

-- What the code has still to do, and the memory.
pub record World : Type 0 where
  pub code : List Op
  pub memory : Memory

-- The code and the frameworks take turns in any order. A monitor that runs enqueues calls of the
-- handler that it has copied; an enqueued call runs, also after `cancel`; and the copy is let go of
-- only when the monitor is stopped and no call is enqueued.
pub data Step : World → World → Type 0 where
  works :
      {op : Op} {ops : List Op} {m : Memory}
      → Step (record { code = op ∷ ops; memory = m }) (record { code = ops; memory = exec op m })
  enqueues :
      {w : World}
      → w.memory.copied ≡ true
      → w.memory.held.running ≡ true
      → Step w (record w { memory = record w.memory { pending = w.memory.pending + 1 } })
  calls :
      {w : World} (poisoned : Bool) (path : Option NwPathSnapshot)
      → 0 < w.memory.pending
      → Step w (record w { memory = handler poisoned path w.memory })
  lets_go :
      {w : World}
      → w.memory.copied ≡ true
      → w.memory.held.running ≡ false
      → w.memory.pending ≡ 0
      → Step w (record w { memory = release_block (record w.memory { copied = false }) })

-- The worlds that are reached from one.
pub data Reaches (v : World) : World → Type 0 where
  here : Reaches v v
  after : {u w : World} → Reaches v u → Step u w → Reaches v w

abbrev pub starts : Framework → ℕ → World
starts f n = record { code = lifetime f n; memory = empty_memory }
