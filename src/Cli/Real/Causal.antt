-- ===== src/Cli/Real/Causal.antt =====
-- The order of time behind the traits as `dispatch` of src/cli.rs fills them: no future of
-- src/process/tokio.rs or src/signal/real.rs resolves before it is started.
use condrun.Prelude.{ℕ, ◌+◌, ◌≤◌, ◌≡◌, ◌⊎◌, inl, inr, refl, none, some, Option-cases, arith}
use condrun.Async.{Async, Runtime, IsRuntime, select, select_biased, sleep}
use condrun.Predicate.{evaluate}
use condrun.Signal.{SignalKind}
use condrun.Signal.Real.{Streams, RealSignals, next}
use condrun.Signal.Real.Takes.{next_takes}
use condrun.Process.{ExitStatus, CommandSpec}
use condrun.Process.Tokio.{
  Os, OsCommand, command_of, TokioChildHandle, spawn, terminate, wait, signal, kill_group, sigterm,
  sigkill,
}
use condrun.Supervisor.{Supervisor}
use condrun.Supervisor.Clock.{Later, IsCausal}
use condrun.Cli.Real.{real_seams}

-- The waits, the starts and the streams of the operating system and of tokio.
pub record InTime (os : Os) (st : Streams) : Type 0 where
  pub waits : (p : os.Proc) → Later (os.wait p)
  pub begins : (cmd : OsCommand) → Later (os.start cmd)
  pub receives : (x : st.Stream) → Later (st.recv x)

module _ (os : Os) (st : Streams) (rt : Runtime) (starts : ℕ → ℕ) (sane : IsRuntime rt)
    (timely : InTime os st) where
  wait-Later : (c : TokioChildHandle os) → Later (wait os c)
  unfolding wait
  wait-Later c now t x e = elim (Option-cases (os.wait c.child now)) [
    | inl never ↦ absurd (ground (arith, e, never))
    | inr ((u, (status, p)), got) ↦
        let le = timely.waits c.child now u (status, p) got in ground (arith, e, got, le)
  ]

  kill_group-Later : (c : TokioChildHandle os) → Later (kill_group os c)
  unfolding kill_group
  kill_group-Later c now t x e =
      elim (Option-cases (os.wait (os.killpg c.child sigkill now).1 now)) [
        | inl never ↦ absurd (ground (arith, e, never))
        | inr ((u, (status, p)), got) ↦
            let le = timely.waits (os.killpg c.child sigkill now).1 now u (status, p) got in
            ground (arith, e, got, le)
      ]

  -- A `select!` between two futures of one instant.
  select-Later :
      {A B : Type 0} (n now t : ℕ) (a : Async A) (b : Async B) (x : A ⊎ B)
      → ((u : ℕ) (y : A) → a ≡ some (u, y) → now ≤ u)
      → ((u : ℕ) (y : B) → b ≡ some (u, y) → now ≤ u)
      → select rt n a b ≡ some (t, x)
      → now ≤ t
  unfolding select select_biased
  select-Later n now t none none x h k e = absurd (ground (arith, e))
  select-Later n now t none (some (u, y)) x h k e =
      let le = k u y refl in ground (arith, e, le, sane.wakes_late u)
  select-Later n now t (some (u, y)) none x h k e =
      let le = h u y refl in ground (arith, e, le, sane.wakes_late u)
  select-Later n now t (some (u, y)) (some (v, z)) x h k e =
      let le = h u y refl in
      let le' = k v z refl in ground (arith, e, le, le', sane.wakes_late u, sane.wakes_late v)

  terminate-Later : (c : TokioChildHandle os) (grace : ℕ) → Later (terminate os rt c grace)
  unfolding terminate
  terminate-Later c grace now t x e =
      let p = (os.killpg c.child sigterm now).1 in
      elim (Option-cases (select rt c.draws (os.wait p now) (sleep grace now))) [
        | inl never ↦ absurd (ground (arith, e, never))
        | inr ((u, inl (status, q)), got) ↦
            let le = selected c.draws p grace now u (inl (status, q)) got in
            ground (arith, e, got, le)
        | inr ((u, inr over), got) ↦
            let le = selected c.draws p grace now u (inr over) got in
            let c' : TokioChildHandle os = record c { child = p; draws = c.draws + 1 } in
            let le' = kill_group-Later c' u t x (ground (arith, e, got)) in omega arith
      ]
    where
      selected :
          (n : ℕ) (p : os.Proc) (grace now u : ℕ) (y : (ExitStatus × os.Proc) ⊎ Unit {0})
          → select rt n (os.wait p now) (sleep grace now) ≡ some (u, y)
          → now ≤ u
      selected n p grace now u y got =
          select-Later n now u (os.wait p now) (sleep grace now) y (timely.waits p now)
            (λ v z q. ground (arith, q)) got

  signal-Later : (c : TokioChildHandle os) (kind : SignalKind) → Later (signal os c kind)
  unfolding signal
  signal-Later c kind now t x e = ground (arith, e)

  spawn-Later : (cmd : CommandSpec) → Later (spawn os cmd)
  unfolding spawn
  spawn-Later cmd now t x e = elim (Option-cases (os.start (command_of cmd) now)) [
    | inl never ↦ absurd (ground (arith, e, never))
    | inr ((u, r), got) ↦
        let le = timely.begins (command_of cmd) now u r got in ground (arith, e, got, le)
  ]

  next-Later : (s : RealSignals st) → Later (next st rt starts s)
  next-Later s now t (kind, s') e =
      let (u, got, early, others) = next_takes st rt starts s s' now t kind e in
      let le = timely.receives _ now u _ got in omega arith

  -- The seams that `dispatch` fills keep the order of time, for predicates that do.
  pub real-IsCausal :
      (sup : Supervisor (real_seams os st rt starts))
      → Later (evaluate sup.predicate_set sup.state)
      → IsCausal (real_seams os st rt starts) sup
  real-IsCausal sup evaluates = record {
    sane = sane;
    waits = wait-Later;
    terminates = terminate-Later;
    signals = signal-Later;
    spawns = spawn-Later;
    comes = next-Later;
    evaluates = evaluates;
  }
