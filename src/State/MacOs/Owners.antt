-- ===== src/State/MacOs/Owners.antt =====
-- src/state/macos.rs: what the code owns at each point of its way, counted from the text of the code
-- alone, and that the memory agrees with it whatever the frameworks do in between.
use condrun.Prelude.{
  ℕ, ◌+◌, ◌-◌, ◌<◌, ◌≡◌, refl, ◌⊎◌, Bool, true, false, List, [], ◌∷◌, ◌&&◌, not, ◌==◌,
  if◌then◌else◌, Option, arith,
}
use condrun.State.MacOs.{
  Call, dispatch_queue_create, nw_path_monitor_create, set_update_handler, set_queue, start, cancel,
  nw_release, dispatch_release, Held, after_call, nothing_held, NwPathSnapshot,
}
use condrun.State.MacOs.Memory.{
  Op, arc_new, arc_clone, block_new, arc_drop, block_drop, reading, ffi, Memory, World, Step,
  Reaches, here, after, works, enqueues, calls, lets_go, release_block, exec, handler,
}

-- The handles on the `Arc` and on the block that the code itself has, the objects that it holds, and
-- whether it has made the block and given it away.
pub record Owned : Type 0 where
  pub arcs : ℕ
  pub blocks : ℕ
  pub held : Held
  pub made : Bool
  pub given : Bool

abbrev pub owns_nothing : Owned
owns_nothing = record { arcs = 0; blocks = 0; held = nothing_held; made = false; given = false }

-- Whether the owner of so much may do this.
abbrev pub may_call : Call → Owned → Bool
may_call (dispatch_queue_create g) o = true
may_call (nw_path_monitor_create g) o = true
may_call set_update_handler o = not (o.held.monitors == 0) && (not (o.blocks == 0) && not o.given)
may_call set_queue o = not (o.held.monitors == 0) && not (o.held.queues == 0)
may_call start o = not (o.held.monitors == 0)
may_call cancel o = not (o.held.monitors == 0)
may_call nw_release o = not (o.held.monitors == 0) && not o.held.running
may_call dispatch_release o = not (o.held.queues == 0) && not o.held.running

abbrev pub may : Op → Owned → Bool
may arc_new o = (o.arcs == 0) && not o.made
may arc_clone o = not (o.arcs == 0)
may block_new o = not (o.arcs == 0) && not o.made
may arc_drop o = not (o.arcs == 0)
may block_drop o = not (o.blocks == 0)
may reading o = not (o.arcs == 0)
may (ffi call) o = may_call call o

abbrev pub gives : Call → Bool → Bool
gives set_update_handler b = true
gives _ b = b

-- What it owns afterwards.
abbrev pub owns : Op → Owned → Owned
owns arc_new o = record o { arcs = 1 }
owns arc_clone o = record o { arcs = o.arcs + 1 }
owns block_new o = record o { arcs = o.arcs - 1; blocks = 1; made = true }
owns arc_drop o = record o { arcs = o.arcs - 1 }
owns block_drop o = record o { blocks = o.blocks - 1 }
owns reading o = o
owns (ffi call) o = record o { held = after_call call o.held; given = gives call o.given }

abbrev pub owns_after : List Op → Owned → Owned
owns_after [] o = o
owns_after (op ∷ ops) o = owns_after ops (owns op o)

abbrev pub keeps_rules : List Op → Owned → Bool
keeps_rules [] o = true
keeps_rules (op ∷ ops) o = may op o && keeps_rules ops (owns op o)

abbrev pub one_if : Bool → ℕ
one_if b = if b then 1 else 0

-- The memory agrees with what the code owns: the block is referred to by the code's handles and the
-- framework's copy, the `Arc` by the code's handles and the closure of a block that is not freed.
pub record Agrees (o : Owned) (m : Memory) : Type 0 where
  pub held : m.held ≡ o.held
  pub blocks : m.blocks ≡ o.blocks + one_if m.copied
  pub arcs : m.arcs ≡ o.arcs + one_if (not (m.blocks == 0))
  pub pending : (m.copied ≡ true) ⊎ (m.pending ≡ 0)
  pub unmade : (o.made ≡ true) ⊎ (o.blocks ≡ 0)
  pub unmade_given : (o.made ≡ true) ⊎ (o.given ≡ false)
  pub ungiven : (o.given ≡ true) ⊎ (m.copied ≡ false)
  pub sound : m.faulted ≡ false

pub call-Agrees :
    (c : Call) (o : Owned) (m : Memory)
    → may_call c o ≡ true
    → Agrees o m
    → Agrees (owns (ffi c) o) (exec (ffi c) m)
unfolding exec
call-Agrees (dispatch_queue_create g) o m h v = ground arith
call-Agrees (nw_path_monitor_create g) o m h v = ground arith
call-Agrees set_update_handler o m h v = ground arith
call-Agrees _ o m h v = ground arith

pub exec-Agrees :
    (op : Op) (o : Owned) (m : Memory)
    → may op o ≡ true
    → Agrees o m
    → Agrees (owns op o) (exec op m)
unfolding exec
exec-Agrees (ffi c) o m h v = call-Agrees c o m h v
exec-Agrees arc_new o m h v = ground arith
exec-Agrees arc_clone o m h v = ground arith
exec-Agrees block_new o m h v = ground arith
exec-Agrees arc_drop o m h v = ground arith
exec-Agrees block_drop o m h v = ground arith
exec-Agrees reading o m h v = ground arith

pub handler-Agrees :
    (o : Owned) (m : Memory) (poisoned : Bool) (path : Option NwPathSnapshot)
    → 0 < m.pending
    → Agrees o m
    → Agrees o (handler poisoned path m)
unfolding handler
handler-Agrees o m poisoned path h v = ground arith

pub let_go-Agrees :
    (o : Owned) (m : Memory)
    → m.copied ≡ true
    → m.pending ≡ 0
    → Agrees o m
    → Agrees o (release_block (record m { copied = false }))
unfolding release_block
let_go-Agrees o m copied idle v = ground arith

-- A world whose memory agrees with what the code owns, and whose code keeps to the rules from there.
abbrev pub IsOwned : Owned → World → Type 0
IsOwned o w = (keeps_rules w.code o ≡ true) × Agrees o w.memory

-- One step of the code or of the frameworks leads to such a world again, which owns what the code
-- that is left makes of it.
pub Step-IsOwned :
    (o : Owned) (v w : World) (last : Owned)
    → Step v w
    → IsOwned o v
    → owns_after v.code o ≡ last
    → (o' : Owned) × IsOwned o' w × (owns_after w.code o' ≡ last)
Step-IsOwned o v w last (works {op} {ops} {m}) (rules, agrees) e =
    (owns op o, (ground arith, exec-Agrees op o m (ground arith) agrees), e)
Step-IsOwned o v w last (enqueues copied running) (rules, agrees) e =
    (o, (rules, ground (arith, copied)), e)
Step-IsOwned o v w last (calls poisoned path waits) (rules, agrees) e =
    (o, (rules, handler-Agrees o v.memory poisoned path waits agrees), e)
Step-IsOwned o v w last (lets_go copied stopped idle) (rules, agrees) e =
    (o, (rules, let_go-Agrees o v.memory copied idle agrees), e)

module _ (v : World) (o : Owned) (begins : IsOwned o v) where
  pub Reaches-IsOwned :
      (w : World)
      → Reaches v w
      → (o' : Owned) × IsOwned o' w × (owns_after w.code o' ≡ owns_after v.code o)
  Reaches-IsOwned w here = (o, begins, refl)
  Reaches-IsOwned w (after {u} way step) =
      let (o', owned, e) = Reaches-IsOwned u way in Step-IsOwned o' u w _ step owned e
