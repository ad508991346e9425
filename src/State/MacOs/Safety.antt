-- ===== src/State/MacOs/Safety.antt =====
-- src/state/macos.rs: from the constructor through `drop`, against every order in which the frameworks
-- may call the handler.
use condrun.Prelude.{
  ℕ, zero, suc, ◌≡◌, refl, sym, ap, ◌∙◌, ◌⊎◌, inl, inr, Bool, true, false, Bool-cases, none, List,
  [], ◌∷◌, ◌++◌, ◌&&◌, ◌||◌, if◌then◌else◌, arith,
}
use condrun.State.MacOs.{Framework, Call, Held, new, drop, nothing_held, leaked, dropped_if_ok}
use condrun.State.MacOs.Memory.{
  Op, ffi, Memory, World, Step, works, calls, lets_go, Reaches, here, after, readings_then_drop,
  lifetime, starts, release_block, handler, exec,
}
use condrun.State.MacOs.Owners.{
  Owned, owns_nothing, keeps_rules, owns_after, Agrees, IsOwned, Reaches-IsOwned, owns, one_if,
  exec-Agrees, handler-Agrees,
}

-- What is owned while the state lives, and when it has ended.
abbrev living : Owned
living = record {
  arcs = 1;
  blocks = 1;
  held = record { queues = 1; monitors = 1; running = true };
  made = true;
  given = true;
}

abbrev ended : Owned
ended = record { arcs = 0; blocks = 0; held = nothing_held; made = true; given = true }

readings-rules : (n : ℕ) → keeps_rules (readings_then_drop n) living ≡ true
readings-rules zero = refl
readings-rules (suc n) = readings-rules n

readings-ended : (n : ℕ) → owns_after (readings_then_drop n) living ≡ ended
readings-ended zero = refl
readings-ended (suc n) = readings-ended n

lifetime-rules : (f : Framework) (n : ℕ) → keeps_rules (lifetime f n) owns_nothing ≡ true
unfolding lifetime
lifetime-rules f n = ground (arith, readings-rules n)

-- The mutex is poisoned once both objects are there.
unfoldable pub leaks : Framework → Bool
leaks f = f.gives_queue && (f.gives_monitor && (f.poisoned || f.poisoned_waiting))

abbrev pub held_at_end : Framework → Held
held_at_end f = if leaks f then leaked else nothing_held

abbrev both_given : Framework → Bool
both_given f = f.gives_queue && f.gives_monitor

abbrev owned_at_end : Framework → Owned
owned_at_end f = record {
  arcs = 0;
  blocks = 0;
  held = held_at_end f;
  made = both_given f;
  given = both_given f;
}

lifetime-ended : (f : Framework) (n : ℕ) → owns_after (lifetime f n) owns_nothing ≡ owned_at_end f
unfolding lifetime leaks
lifetime-ended f n = ground (arith, readings-ended n)

starts-IsOwned : (f : Framework) (n : ℕ) → IsOwned owns_nothing (starts f n)
starts-IsOwned f n = (lifetime-rules f n, ground arith)

Reaches-owned :
    (f : Framework) (n : ℕ) (w : World)
    → Reaches (starts f n) w
    → (o : Owned) × IsOwned o w × (owns_after w.code o ≡ owned_at_end f)
Reaches-owned f n w way =
    let (o, owned, e) = Reaches-IsOwned (starts f n) owns_nothing (starts-IsOwned f n) w way in
    (o, owned, e ∙ lifetime-ended f n)

-- In whatever order the frameworks enqueue and run calls of the handler and let go of their copy of the
-- block, between any two operations of the constructor, of the readings and of `drop`, and also after
-- `drop` or an error: no operation and no call of the handler uses the `Arc`, the block or an object
-- of the frameworks that is freed, and neither object is released under a running monitor.
pub never_faults :
    (f : Framework) (n : ℕ) (w : World) → Reaches (starts f n) w → w.memory.faulted ≡ false
never_faults f n w way = let (o, (rules, agrees), e) = Reaches-owned f n w way in agrees.sound

-- When the code is at its end, the `Arc` and the block live exactly as long as the framework's copy of
-- the block; queue and monitor are released and the monitor is stopped, but where both were given and
-- the mutex was poisoned: then the error leaves both held and the monitor running.
pub ends_held :
    (f : Framework) (n : ℕ) (w : World)
    → Reaches (starts f n) w
    → w.code ≡ []
    → (w.memory.held ≡ held_at_end f)
      × (w.memory.blocks ≡ one_if w.memory.copied)
      × (w.memory.arcs ≡ one_if w.memory.copied)
ends_held f n w way done =
    let (o, (rules, agrees), e) = Reaches-owned f n w way in
    let final : o ≡ owned_at_end f = ap (λ ops. owns_after ops o) (sym done) ∙ e in
    ground (arith, final)

Reaches-cons : {v w u : World} → Step v w → Reaches w u → Reaches v u
Reaches-cons step here = after here step
Reaches-cons step (after way last) = after (Reaches-cons step way) last

-- The code is at its end and nothing is left.
pub record IsFreed (w : World) : Type 0 where
  pub code : w.code ≡ []
  pub held : w.memory.held ≡ nothing_held
  pub arcs : w.memory.arcs ≡ 0
  pub blocks : w.memory.blocks ≡ 0
  pub pending : w.memory.pending ≡ 0

abbrev Frees : World → Type 0
Frees v = (w : World) × Reaches v w × IsFreed w

before : {v w : World} → Step v w → Frees w → Frees v
before step (u, way, freed) = (u, Reaches-cons step way, freed)

module _ (o : Owned) (arcs : o.arcs ≡ 0) (blocks : o.blocks ≡ 0)
    (held : o.held ≡ nothing_held) where
  lets_go-Frees :
      (m : Memory)
      → m.pending ≡ 0
      → Agrees o m
      → (m.copied ≡ true) ⊎ (m.copied ≡ false)
      → Frees (record { code = []; memory = m })
  unfolding release_block
  lets_go-Frees m idle v (inl copied) = before (lets_go copied (ground arith) idle) (
    _,
    here,
    record {
      code = refl;
      held = ground arith;
      arcs = ground arith;
      blocks = ground arith;
      pending = idle;
    },
  )
  lets_go-Frees m idle v (inr gone) = (
    _,
    here,
    record {
      code = refl;
      held = ground arith;
      arcs = ground arith;
      blocks = ground arith;
      pending = idle;
    },
  )

  drains-Frees :
      (k : ℕ) (m : Memory) → m.pending ≡ k → Agrees o m → Frees (record { code = []; memory = m })
  unfolding handler
  drains-Frees zero m e v = lets_go-Frees m e v (Bool-cases m.copied)
  drains-Frees (suc k) m e v = before (calls true none (omega arith)) (
      drains-Frees k (handler true none m) (omega arith)
        (handler-Agrees o m true none (omega arith) v))

works-Frees :
    (ops : List Op) (o : Owned) (m : Memory)
    → keeps_rules ops o ≡ true
    → Agrees o m
    → (owns_after ops o).arcs ≡ 0
    → (owns_after ops o).blocks ≡ 0
    → (owns_after ops o).held ≡ nothing_held
    → Frees (record { code = ops; memory = m })
works-Frees [] o m rules v a b h = drains-Frees o a b h m.pending m refl v
works-Frees (op ∷ ops) o m rules v a b h = before works (
    works-Frees ops (owns op o) (exec op m) (ground arith) (exec-Agrees op o m (ground arith) v) a b
      h)

-- But for that error, the code can be run to its end from every point that it and the frameworks
-- reach, the enqueued calls can be run, and then queue, monitor, block and `Arc` are all freed.
pub Reaches-frees :
    (f : Framework) (n : ℕ) (v : World)
    → leaks f ≡ false
    → Reaches (starts f n) v
    → (w : World) × Reaches v w × IsFreed w
Reaches-frees f n v sound way =
    let (o, (rules, agrees), e) = Reaches-owned f n v way in
    works-Frees v.code o v.memory rules agrees (ap (λ q. q.arcs) e) (ap (λ q. q.blocks) e)
      (ap (λ q. q.held) e ∙ ground (arith, sound))

abbrev ffi_calls : List Op → List Call
ffi_calls [] = []
ffi_calls (ffi call ∷ ops) = call ∷ ffi_calls ops
ffi_calls (_ ∷ ops) = ffi_calls ops

readings-calls : (n : ℕ) → ffi_calls (readings_then_drop n) ≡ drop
readings-calls zero = refl
readings-calls (suc n) = readings-calls n

-- The calls of the frameworks among the operations are those of `new`, and then of `drop`.
pub lifetime-calls :
    (f : Framework) (n now : ℕ)
    → ffi_calls (lifetime f n) ≡ (new f now).1 ++ dropped_if_ok (new f now).0
unfolding lifetime new
lifetime-calls f n now = ground (arith, readings-calls n)
