-- ===== src/Supervisor/Clock.antt =====
-- The clock of a run of src/supervisor.rs, for futures that do not resolve before they are started.
use condrun.Prelude.{ℕ, ◌+◌, ◌≤◌, ◌≡◌, refl, none, some, ◌∷◌, arith}
use condrun.Async.{Async, Runtime, IsRuntime, select, select_biased, select_biased_three}
use condrun.Predicate.{evaluate}
use condrun.Signal.{SignalKind, Signals}
use condrun.Process.{CommandSpec, ExitStatus}
use condrun.Supervisor.{Seams, Supervisor}
use condrun.Supervisor.Exec.{spawned, Sys, await, race}
use condrun.Supervisor.Run.{
  wait_with_escalation, forward_signal, call_terminate, kill_child, watch_select, call_spawn,
}

-- A future resolves no earlier than it is started.
abbrev pub Later : {A : Type 0} → (ℕ → Async A) → Type 0
Later {A} future = (now t : ℕ) (a : A) → future now ≡ some (t, a) → now ≤ t

pub record IsCausal (w : Seams) (sup : Supervisor w) : Type 0 where
  pub sane : IsRuntime w.runtime
  pub waits : (c : w.Child) → Later (w.child.wait c)
  pub terminates : (c : w.Child) (grace : ℕ) → Later (w.child.terminate c grace)
  pub signals : (c : w.Child) (sig : SignalKind) → Later (w.child.signal c sig)
  pub spawns : (cmd : CommandSpec) → Later (w.spawner.spawn sup.spawner cmd)
  pub comes : (s : w.Source) → Later (w.signals.next s)
  pub evaluates : Later (evaluate sup.predicate_set sup.state)

module _ {S A : Type 0} where
  pub await_later :
      (future : ℕ → Async A) (s : Sys S) → Later future → s.now ≤ (await future s).1.now
  unfolding await
  await_later future s h = go (future s.now) refl
    where
      go : (o : Async A) → future s.now ≡ o → s.now ≤ (await future s).1.now
      go none e = ground (arith, e)
      go (some (t, a)) e = let le = h s.now t a e in ground (arith, e, le)

  pub race_later :
      (rt : Runtime) (sg : Signals S) (future : ℕ → Async A) (s : Sys S)
      → IsRuntime rt
      → Later future
      → Later (sg.next s.signals)
      → s.now ≤ (race rt sg future s).1.now
  unfolding race select select_biased
  race_later rt sg future s sane h k = go (future s.now) (sg.next s.signals s.now) refl refl
    where
      go :
          (o : Async A) (p : Async (SignalKind × S))
          → future s.now ≡ o
          → sg.next s.signals s.now ≡ p
          → s.now ≤ (race rt sg future s).1.now
      go none none e f = ground (arith, e, f)
      go none (some (u, b)) e f =
          let le = k s.now u b f in ground (arith, e, f, le, sane.wakes_late u)
      go (some (t, a)) none e f =
          let le = h s.now t a e in ground (arith, e, f, le, sane.wakes_late t)
      go (some (t, a)) (some (u, b)) e f =
          let le = h s.now t a e in
          let le' = k s.now u b f in
          ground (arith, e, f, le, le', sane.wakes_late t, sane.wakes_late u)

module _ (w : Seams) (sup : Supervisor w) (causal : IsCausal w sup) where
  open w use {Child, Source, child, runtime}

  wait_later : (c : Child) (s : Sys Source) → s.now ≤ (await (child.wait c) s).1.now
  wait_later c s = await_later (child.wait c) s (causal.waits c)

  terminate_later :
      (c : Child) (grace : ℕ) (s : Sys Source) → s.now ≤ (await (child.terminate c grace) s).1.now
  terminate_later c grace s = await_later (child.terminate c grace) s (causal.terminates c grace)

  signal_later :
      (c : Child) (sig : SignalKind) (s : Sys Source) → s.now ≤ (await (child.signal c sig) s).1.now
  signal_later c sig s = await_later (child.signal c sig) s (causal.signals c sig)

  pub race_wait_later :
      (c : Child) (s : Sys Source) → s.now ≤ (race runtime w.signals (child.wait c) s).1.now
  race_wait_later c s =
      race_later runtime w.signals (child.wait c) s causal.sane (causal.waits c)
        (causal.comes s.signals)

  pub spawn_later : (cmd : CommandSpec) (s : Sys Source) → s.now ≤ (call_spawn w sup cmd s).1.now
  unfolding call_spawn
  spawn_later cmd s =
      let s' : Sys Source = record s { trace = spawned cmd ∷ s.trace } in
      let later = await_later (w.spawner.spawn sup.spawner cmd) s' (causal.spawns cmd) in
      grind (arith, later)

  escalation_later :
      (c : Child) (grace : ℕ) (s : Sys Source) → s.now ≤ (wait_with_escalation w c grace s).1.now
  unfolding wait_with_escalation call_terminate
  escalation_later c grace s = grind (arith, wait_later, terminate_later, race_wait_later)

  pub forward_later :
      (c : Child) (sig : SignalKind) (grace : ℕ) (s : Sys Source)
      → s.now ≤ (forward_signal w c sig grace s).1.now
  unfolding forward_signal
  forward_later c sig grace s = grind (arith, signal_later, escalation_later)

  pub kill_later : (c : Child) (grace : ℕ) (s : Sys Source) → s.now ≤ (kill_child w c grace s).1.now
  unfolding kill_child call_terminate
  kill_later c grace s = grind (arith, wait_later, terminate_later)

  pub select_later :
      (poll : ℕ) (c : Child) (s : Sys Source) → s.now ≤ (watch_select w poll c s).1.now
  unfolding watch_select select_biased_three
  select_later poll c s = go (child.wait c s.now) (w.signals.next s.signals s.now) refl refl
    where
      go :
          (o : Async (ExitStatus × Child)) (p : Async (SignalKind × Source))
          → child.wait c s.now ≡ o
          → w.signals.next s.signals s.now ≡ p
          → s.now ≤ (watch_select w poll c s).1.now
      go none none e f = ground (arith, e, f, causal.sane.wakes_late (s.now + poll))
      go none (some (u, y)) e f =
          let le = causal.comes s.signals s.now u y f in
          ground (arith, e, f, le, causal.sane.wakes_late u, causal.sane.wakes_late (s.now + poll))
      go (some (t, x)) none e f =
          let le = causal.waits c s.now t x e in
          ground (arith, e, f, le, causal.sane.wakes_late t, causal.sane.wakes_late (s.now + poll))
      go (some (t, x)) (some (u, y)) e f =
          let le = causal.waits c s.now t x e in
          let le' = causal.comes s.signals s.now u y f in
          ground (
            arith,
            e,
            f,
            le,
            le',
            causal.sane.wakes_late t,
            causal.sane.wakes_late u,
            causal.sane.wakes_late (s.now + poll),
          )
