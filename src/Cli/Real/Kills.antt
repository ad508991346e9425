-- ===== src/Cli/Real/Kills.antt =====
-- A process of `condrun run` (src/cli.rs, src/main.rs) on the operating system that kills its child.
use condrun.Prelude.{
  ℕ, ◌+◌, ◌≤◌, ◌<◌, ◌≡◌, refl, true, false, some, none, Option-cases, inl, inr, String, List, ◌∷◌,
  arith,
}
use condrun.Async.{Async, Result, Runtime, IsRuntime, ok, err}
use condrun.Async.Select.{IsPrompt}
use condrun.State.{NetworkState}
use condrun.Signal.Real.{Streams, RealSignals}
use condrun.Process.{CommandSpec}
use condrun.Process.Tokio.{Os, TokioChildHandle, command_of, spawn, wait}
use condrun.Process.Tokio.Terminate.{Dies}
use condrun.Supervisor.{Supervisor}
use condrun.Supervisor.Latency.{deadline}
use condrun.Supervisor.Ending.Kills.{Lasts, run_kills_child}
use condrun.Cli.{Cli, Platform, run, build_network_state}
use condrun.Cli.Decisions.{allowed, open-passes}
use condrun.Cli.Dispatch.{dispatch, main, main_exit, parsed, supervisor_of, config_of}
use condrun.Cli.Real.{real_seams, Remembers, Starts, real-Killable, real-Quiet, real-Launches}
use condrun.Cli.Real.Ends.{allowed-TurnsBad}

-- A process that the command starts does not end by itself.
pub record RunsOn (os : Os) (cmd : CommandSpec) : Type 0 where
  pub runs_on :
      (now t u : ℕ) (p : os.Proc)
      → os.start (command_of cmd) now ≡ some (t, ok p)
      → os.wait p u ≡ none

module _ (os : Os) (st : Streams) (rt : Runtime) (starts : ℕ → ℕ)
    (sup : Supervisor (real_seams os st rt starts)) (cmd : CommandSpec)
    (endless : RunsOn os cmd) where
  started_child :
      (now t : ℕ) (c : TokioChildHandle os)
      → spawn os cmd now ≡ some (t, (ok c, tt))
      → os.start (command_of cmd) now ≡ some (t, ok c.child)
  unfolding spawn
  started_child now t c e = go (os.start (command_of cmd) now) refl
    where
      go :
          (o : Async (Result os.Proc))
          → os.start (command_of cmd) now ≡ o
          → os.start (command_of cmd) now ≡ some (t, ok c.child)
      go none f = absurd (ground (arith, e, f))
      go (some (u, err m)) f = absurd (ground (arith, e, f))
      go (some (u, ok p)) f = elim (Option-cases (os.id p)) [
        | inl no_pid ↦ absurd (ground (arith, e, f, no_pid))
        | inr (pid, has_pid) ↦ ground (arith, e, f, has_pid)
      ]

  real-Lasts : Lasts (real_seams os st rt starts) sup cmd
  unfolding wait
  real-Lasts = record {
    lasts = λ now t u c rest e. rw (endless.runs_on now t u c.child (started_child now t c e)) refl;
  }

-- On the operating system, without signals: where the flags allow the network at the start and never
-- from `turn` on, the process of `condrun run`, unless `--no-kill-on-change` is given, ends with 3,
-- given that the process starts within `slack` and does not end by itself, and that processes die of
-- SIGKILL and keep their status. The fuel is that of `run_kills_child`.
pub main-kills :
    (os : Os) (st : Streams) (rt : Runtime) (starts : ℕ → ℕ) (platform : Platform) (cli : Cli)
    (program : String) (args : List String) (state : NetworkState) (source : RealSignals st)
    (turn late reap slack fuel now : ℕ)
    → IsRuntime rt
    → IsPrompt rt late
    → Dies os reap
    → Remembers os
    → Starts os (record { program = program; args = args }) slack
    → RunsOn os (record { program = program; args = args })
    → ((x : st.Stream) (t : ℕ) → st.recv x t ≡ none)
    → late + reap ≤ slack
    → cli.command ≡ run (program ∷ args)
    → cli.no_kill_on_change ≡ false
    → 0 < cli.poll
    → build_network_state platform cli ≡ ok state
    → allowed cli state now ≡ true
    → ((t : ℕ) → turn ≤ t → allowed cli state t ≡ false)
    → now + late + slack ≤ turn
    → deadline turn late (config_of cli) < now + fuel
    → main (real_seams os st rt starts) platform tt (ok source) fuel now (parsed cli) ≡ some 3
unfolding main dispatch main_exit supervisor_of config_of
main-kills os st rt starts platform cli program args state source turn late reap slack fuel now sane
      prompt mortal keeps begun endless silent room asked on pos e opened closed early enough =
    let w = real_seams os st rt starts in
    let sup = supervisor_of w platform tt (ok source) fuel cli now state source in
    let spec : CommandSpec = record { program = program; args = args } in
    let ends =
      run_kills_child w sup spec turn late slack fuel now
        (allowed-TurnsBad w cli tt state source platform fuel now turn closed) pos sane prompt
        (real-Quiet os st rt starts silent)
        (real-Killable os st rt starts late reap cli.grace slack sane prompt mortal keeps room)
        (real-Launches os st rt starts sup spec slack begun)
        (real-Lasts os st rt starts sup spec endless) (rw on) (open-passes cli state now opened)
        early enough in
    ground (arith, asked, e, ends.0)
