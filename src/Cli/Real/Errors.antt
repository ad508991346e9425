-- ===== src/Cli/Real/Errors.antt =====
-- Exit code 4 of `condrun` (src/cli.rs, src/main.rs) on the operating system.
use condrun.Prelude.{
  ℕ, ◌≡◌, refl, ◌⊎◌, inl, inr, none, some, String, List, [], ◌∷◌, arith, Option-cases,
}
use condrun.Async.{Async, Runtime, Result, ok, err, select, sleep}
use condrun.Signal.Real.{Streams, RealSignals}
use condrun.Process.{CommandSpec, ExitStatus}
use condrun.Process.Tokio.{
  Os, TokioChildHandle, command_of, spawn, terminate, kill_group, sigterm, sigkill,
}
use condrun.Cli.{Cli, Platform, run, build_network_state}
use condrun.Cli.Dispatch.{main, parsed}
use condrun.Cli.Errors.{Broken, no_command, no_state, no_signals, no_child, no_end, main-four}
use condrun.Cli.Real.{real_seams}

module _ (os : Os) (rt : Runtime) where
  kill_group-err :
      (h h' : TokioChildHandle os) (t u : ℕ) (e : String)
      → kill_group os h t ≡ some (u, (err e, h'))
      → ⊥
  unfolding kill_group
  kill_group-err h h' t u e q = elim (Option-cases (os.wait (os.killpg h.child sigkill t).1 t)) [
    | inl never ↦ ground (arith, q, never)
    | inr ((v, (status, reaped)), got) ↦ ground (arith, q, got)
  ]

  -- `terminate` of a process has no error: those of `killpg` are dropped.
  terminate-err :
      (h h' : TokioChildHandle os) (grace t u : ℕ) (e : String)
      → terminate os rt h grace t ≡ some (u, (err e, h'))
      → ⊥
  unfolding terminate
  terminate-err h h' grace t u e q =
      go (select rt h.draws (os.wait (os.killpg h.child sigterm t).1 t) (sleep grace t)) refl
    where
      go :
          (o : Async ((ExitStatus × os.Proc) ⊎ Unit {0}))
          → select rt h.draws (os.wait (os.killpg h.child sigterm t).1 t) (sleep grace t) ≡ o
          → ⊥
      go none p = cc (rw (p, terminate) at q)
      go (some (v, inl (status, reaped))) p = cc (rw (p, terminate) at q)
      go (some (v, inr done)) p = kill_group-err _ h' v u e (rw (p, terminate) at q)

-- The system did not start the command, or gave a process that has no id any more.
pub data Unstarted (os : Os) (spec : CommandSpec) : Type 0 where
  refused :
      (t u : ℕ) (e : String) → os.start (command_of spec) t ≡ some (u, err e) → Unstarted os spec
  without_id :
      (t u : ℕ) (p : os.Proc)
      → os.start (command_of spec) t ≡ some (u, ok p)
      → os.id p ≡ none
      → Unstarted os spec

spawn-err :
    (os : Os) (spec : CommandSpec) (t u : ℕ) (rest : Unit {0}) (e : String)
    → spawn os spec t ≡ some (u, (err e, rest))
    → Unstarted os spec
unfolding spawn
spawn-err os spec t u rest e q = go (os.start (command_of spec) t) refl
  where
    go : (o : Async (Result os.Proc)) → os.start (command_of spec) t ≡ o → Unstarted os spec
    go none p = absurd (ground (arith, q, p))
    go (some (v, err m)) p = refused t v m p
    go (some (v, ok c)) p = elim (Option-cases (os.id c)) [
      | inl unknown ↦ without_id t v c p unknown
      | inr (pid, known) ↦ absurd (ground (arith, q, p, known))
    ]

module _ (os : Os) (st : Streams) (platform : Platform) (installed : Result (RealSignals st))
    (cli : Cli) where
  -- What goes wrong in a process on the operating system that ends with 4.
  pub data Cause : Type 0 where
    commandless : cli.command ≡ run [] → Cause
    unreadable : (e : String) → build_network_state platform cli ≡ err e → Cause
    unsignalled :
        (program e : String) (args : List String)
        → cli.command ≡ run (program ∷ args)
        → installed ≡ err e
        → Cause
    unstarted :
        (program : String) (args : List String)
        → cli.command ≡ run (program ∷ args)
        → Unstarted os (record { program = program; args = args })
        → Cause

  Broken-Cause :
      (rt : Runtime) (starts : ℕ → ℕ)
      → Broken (real_seams os st rt starts) platform tt installed cli
      → Cause
  Broken-Cause rt starts (no_command c) = commandless c
  Broken-Cause rt starts (no_state e q) = unreadable e q
  Broken-Cause rt starts (no_signals program e args c q) = unsignalled program e args c q
  Broken-Cause rt starts (no_child program e args c (t, u, rest, q)) =
      unstarted program args c (spawn-err os _ t u rest e q)
  Broken-Cause rt starts (no_end program e args c on (h, h', t, u, q)) =
      absurd (terminate-err os rt h h' cli.grace t u e q)

-- On the operating system: the process of a command line that clap has parsed ends with 4 only if `run`
-- has no command, if the network state cannot be read, or if `run` cannot install the signals or the
-- system does not start its command as a process with an id; never by an error of `terminate`.
pub main-four_os :
    (os : Os) (st : Streams) (rt : Runtime) (starts : ℕ → ℕ) (platform : Platform)
    (installed : Result (RealSignals st)) (fuel now : ℕ) (cli : Cli)
    → main (real_seams os st rt starts) platform tt installed fuel now (parsed cli) ≡ some 4
    → Cause os st platform installed cli
main-four_os os st rt starts platform installed fuel now cli q =
    Broken-Cause os st platform installed cli rt starts
      (main-four (real_seams os st rt starts) platform tt installed fuel now cli q)
