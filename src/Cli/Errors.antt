-- ===== src/Cli/Errors.antt =====
-- Exit code 4 of src/cli.rs: the errors that reach `main`.
use condrun.Prelude.{
  ℕ, ◌≡◌, refl, Bool, true, false, none, some, ◌⊎◌, inl, inr, String, List, [], ◌∷◌, arith,
}
use condrun.Async.{Async, IsRuntime, Result, ok, err}
use condrun.State.{NetworkState}
use condrun.Process.{CommandSpec}
use condrun.Supervisor.{Seams}
use condrun.Supervisor.Exec.{Flow, done, failed, pending, spent}
use condrun.Supervisor.Codes.{run_code}
use condrun.Supervisor.Run
use condrun.Supervisor.Failure.{SpawnFails, KillFails, run_blames}
use condrun.Supervisor.Interrupt.{run_unspawned}
use condrun.Cli.{Cli, Platform, Command, run, check, build_network_state}
use condrun.Cli.Decisions.{allowed, open-passes, run_check_decides}
use condrun.Cli.Dispatch.{
  of_check, dispatch, main, main_exit, parsed, supervisor_of, config_of, run_check, of_flow, Line,
}

module _ (w : Seams) (platform : Platform) (launcher : w.Launcher) (installed : Result w.Source)
    (cli : Cli) where
  -- What goes wrong in a process that ends with 4.
  pub data Broken : Type 0 where
    no_command : cli.command ≡ run [] → Broken
    no_state : (e : String) → build_network_state platform cli ≡ err e → Broken
    no_signals :
        (program e : String) (args : List String)
        → cli.command ≡ run (program ∷ args)
        → installed ≡ err e
        → Broken
    no_child :
        (program e : String) (args : List String)
        → cli.command ≡ run (program ∷ args)
        → SpawnFails w launcher (record { program = program; args = args }) e
        → Broken
    no_end :
        (program e : String) (args : List String)
        → cli.command ≡ run (program ∷ args)
        → cli.no_kill_on_change ≡ false
        → KillFails w cli.grace e
        → Broken

  flow_of_four :
      (r : Flow ℕ) → main_exit (of_flow r) ≡ some 4 → (r ≡ done 4) ⊎ ((e : String) × (r ≡ failed e))
  unfolding main_exit
  flow_of_four (done code) q = inl (cc)
  flow_of_four (failed e) q = inr (e, refl)
  flow_of_four pending q = absurd (cc)
  flow_of_four spent q = absurd (cc)

  run_four :
      (fuel now : ℕ) (program : String) (args : List String) (state : NetworkState)
      (source : w.Source)
      → cli.command ≡ run (program ∷ args)
      → main_exit (
          of_flow
            (Run.run w fuel
              (supervisor_of w platform launcher installed fuel cli now state source)
              (record { program = program; args = args })
              now).0)
        ≡ some 4
      → Broken
  unfolding supervisor_of config_of
  run_four fuel now program args state source asked q =
      let sup = supervisor_of w platform launcher installed fuel cli now state source in
      let spec : CommandSpec = record { program = program; args = args } in
      elim (flow_of_four (Run.run w fuel sup spec now).0 q) [
        | inl d ↦ absurd (let (le, n) = run_code w fuel sup spec now {code = 4} d in omega arith)
        | inr (e, f) ↦ elim (run_blames w fuel sup spec now e f) [
          | inl launch ↦ no_child program e args asked launch
          | inr (on, kill) ↦ no_end program e args asked (ground (arith, on)) kill
        ]
      ]

  check_four :
      (explain : Bool) (state : NetworkState) (fuel now : ℕ)
      → main_exit (of_check (run_check cli explain state now)).0 ≡ some 4
      → ⊥
  unfolding main_exit
  check_four explain state fuel now q = go (run_check cli explain state now) refl
    where
      go : (o : Async (ℕ × List Line)) → run_check cli explain state now ≡ o → ⊥
      go none e = ground (arith, e, run_check_decides cli explain state now)
      go (some (t, (code, lines))) e = ground (arith, e, q, run_check_decides cli explain state now)

-- The process of a command line that clap has parsed ends with 4 only if `run` has no command, if
-- the network state cannot be read, or if `run` cannot install the signals, gets an error from the
-- spawner, or, unless `--no-kill-on-change` is given, gets one from `terminate` of a child.
pub main-four :
    (w : Seams) (platform : Platform) (launcher : w.Launcher) (installed : Result w.Source)
    (fuel now : ℕ) (cli : Cli)
    → main w platform launcher installed fuel now (parsed cli) ≡ some 4
    → Broken w platform launcher installed cli
unfolding main dispatch
main-four w platform launcher installed fuel now cli q =
    command cli.command refl (build_network_state platform cli) refl
  where
    command :
        (c : Command)
        → cli.command ≡ c
        → (o : Result NetworkState) → build_network_state platform cli ≡ o
        → Broken w platform launcher installed cli
    command (run []) e o r = no_command e
    command c e (err m) r = no_state m r
    command (run (program ∷ args)) e (ok state) r = install installed refl
      where
        install : (o : Result w.Source) → installed ≡ o → Broken w platform launcher installed cli
        install (err m) p = no_signals program m args e p
        install (ok source) p =
            run_four w platform launcher installed cli fuel now program args state source e
              (ground (arith, q, e, r, p))
    command (check explain) e (ok state) r = absurd (
        check_four w platform launcher installed cli explain state fuel now
          (ground (arith, q, e, r)))

-- Where the state can be read and the flags allow the network, the signals are installed and none
-- comes, and the command does not start: the process of `condrun run` ends with 4.
pub main-unspawned :
    (w : Seams) (platform : Platform) (launcher rest : w.Launcher) (source : w.Source)
    (fuel now u : ℕ) (cli : Cli) (program e : String) (args : List String) (state : NetworkState)
    → IsRuntime w.runtime
    → cli.command ≡ run (program ∷ args)
    → build_network_state platform cli ≡ ok state
    → w.signals.next source now ≡ none
    → allowed cli state now ≡ true
    → w.spawner.spawn launcher (record { program = program; args = args }) (w.runtime.wakes now)
      ≡ some (u, (err e, rest))
    → main w platform launcher (ok source) fuel now (parsed cli) ≡ some 4
unfolding main dispatch main_exit supervisor_of config_of
main-unspawned w platform launcher rest source fuel now u cli program e args state sane asked r
      quiet opened broken =
    let sup = supervisor_of w platform launcher (ok source) fuel cli now state source in
    let spec : CommandSpec = record { program = program; args = args } in
    let fails =
      (run_unspawned w fuel sup spec now u e rest sane (open-passes cli state now opened) quiet
        broken).0 in
    ground (arith, asked, r, fails)
