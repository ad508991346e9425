-- ===== src/Cli/Real/Ends.antt =====
-- The end of `condrun run` on the operating system, where the network turns bad for good.
use condrun.Prelude.{ℕ, ◌+◌, ◌≤◌, ◌<◌, ◌≡◌, refl, false, some, none, String, List, ◌∷◌, arith}
use condrun.Async.{Async, Runtime, IsRuntime, ok}
use condrun.Async.Select.{IsPrompt}
use condrun.State.{NetworkState}
use condrun.Predicate.{PredicateResult, pass, fail, evaluate}
use condrun.Signal.Real.{Streams, RealSignals}
use condrun.Process.{CommandSpec}
use condrun.Process.Tokio.{Os}
use condrun.Process.Tokio.Terminate.{Dies}
use condrun.Supervisor.{Seams}
use condrun.Supervisor.Codes.{run_code}
use condrun.Supervisor.Latency.{TurnsBad, deadline}
use condrun.Supervisor.Ending.{run_kills}
use condrun.Cli.{Cli, Platform, run, build_set, build_network_state}
use condrun.Cli.Dispatch.{dispatch, main, main_exit, parsed, supervisor_of, config_of}
use condrun.Cli.Decisions.{allowed, build_set_decides, closed-fails}
use condrun.Cli.Real.{real_seams, Remembers, Starts, real-Killable, real-Quiet, real-Launches}

abbrev answer : Async PredicateResult → PredicateResult
answer none = pass
answer (some (t, r)) = r

answers_at_once :
    (cli : Cli) (state : NetworkState) (t : ℕ)
    → evaluate (build_set cli) state t ≡ some (t, answer (evaluate (build_set cli) state t))
answers_at_once cli state t = go (evaluate (build_set cli) state t) refl
  where
    go : (o : Async PredicateResult) → evaluate (build_set cli) state t ≡ o → o ≡ some (t, answer o)
    go none e = absurd (ground (arith, e, build_set_decides cli state t))
    go (some (u, pass)) e = ground (arith, e, build_set_decides cli state t)
    go (some (u, fail r)) e = ground (arith, e, build_set_decides cli state t)

-- A network that the flags never allow from `turn` on turns the predicates bad.
pub allowed-TurnsBad :
    (w : Seams) (cli : Cli) (launcher : w.Launcher) (state : NetworkState) (source : w.Source)
    (platform : Platform) (fuel now turn : ℕ)
    → ((t : ℕ) → turn ≤ t → allowed cli state t ≡ false)
    → TurnsBad w (supervisor_of w platform launcher (ok source) fuel cli now state source) turn
unfolding supervisor_of
allowed-TurnsBad w cli launcher state source platform fuel now turn closed = record {
  result = λ t. answer (evaluate (build_set cli) state t);
  at_once = answers_at_once cli state;
  fails = λ t h. let (r, e) = closed-fails cli state t (closed t h) in (r, rw e);
}

-- On the operating system, without signals: where the flags never allow the network from `turn` on,
-- the process of `condrun run`, unless `--no-kill-on-change` is given, ends with a code of at most 3,
-- given that processes start, die of SIGKILL and keep their status. The fuel is that of `run_kills`.
pub main-ends :
    (os : Os) (st : Streams) (rt : Runtime) (starts : ℕ → ℕ) (platform : Platform) (cli : Cli)
    (program : String) (args : List String) (state : NetworkState) (source : RealSignals st)
    (turn late reap slack fuel now : ℕ)
    → IsRuntime rt
    → IsPrompt rt late
    → Dies os reap
    → Remembers os
    → Starts os (record { program = program; args = args }) slack
    → ((x : st.Stream) (t : ℕ) → st.recv x t ≡ none)
    → late + reap ≤ slack
    → cli.command ≡ run (program ∷ args)
    → cli.no_kill_on_change ≡ false
    → 0 < cli.poll
    → build_network_state platform cli ≡ ok state
    → ((t : ℕ) → turn ≤ t → allowed cli state t ≡ false)
    → now + late + slack ≤ turn
    → deadline turn late (config_of cli) < now + fuel
    → (code : ℕ) × (main (real_seams os st rt starts) platform tt (ok source) fuel now (parsed cli)
        ≡ some code)
      × (code ≤ 3)
unfolding main dispatch main_exit supervisor_of config_of
main-ends os st rt starts platform cli program args state source turn late reap slack fuel now sane
      prompt mortal keeps begun silent room asked on pos e closed early enough =
    let w = real_seams os st rt starts in
    let sup = supervisor_of w platform tt (ok source) fuel cli now state source in
    let spec : CommandSpec = record { program = program; args = args } in
    let (code, q, by) =
      run_kills w sup spec turn late slack fuel now
        (allowed-TurnsBad w cli tt state source platform fuel now turn closed) pos sane prompt
        (real-Quiet os st rt starts silent)
        (real-Killable os st rt starts late reap cli.grace slack sane prompt mortal keeps room)
        (real-Launches os st rt starts sup spec slack begun) (rw on) early enough in
    (code, ground (arith, asked, e, q), (run_code w fuel sup spec now {code = code} q).0)
