-- ===== src/Cli/Decisions.antt =====
-- What the command line decides: which networks `check` and `run` let pass, and the exit codes.
use condrun.Prelude.{
  ℕ, ◌≤◌, ◌≡◌, refl, Bool, true, false, not, ◌&&◌, ◌||◌, Option, none, some, List, ◌∷◌, arith,
  if◌then◌else◌, String,
}
use condrun.Async.{Async, Result, ok}
use condrun.State.{NetworkState}
use condrun.Predicate.{PredicateResult, pass, fail, evaluate, evaluate_and, evaluate_or}
use condrun.Supervisor.{Seams}
use condrun.Supervisor.Codes.{run-Accounts}
use condrun.Supervisor.Gate.{gate_code}
use condrun.Async.{IsRuntime}
use condrun.Process.{CommandSpec}
use condrun.Cli.{Cli, Platform, run, check, build_predicates, build_set, build_network_state}
use condrun.Cli.Dispatch.{
  Line, explain_each, check_code, run_check, config_of, supervisor_of, dispatch, main, TryParse,
  parsed, main_exit, parse_exit,
}

-- The flags allow the network: with `--any` one wanted property holds, otherwise all of them do.
abbrev pub allowed : Cli → NetworkState → ℕ → Bool
allowed cli state now =
    if cli.any
    then (cli.reject_expensive && not (state.is_expensive now))
      || (cli.reject_low_data && not (state.is_low_data_mode now))
    else not (cli.reject_expensive && state.is_expensive now)
      && not (cli.reject_low_data && state.is_low_data_mode now)

abbrev pub verdict_code : Async PredicateResult → Option (ℕ × ℕ)
verdict_code none = none
verdict_code (some (t, r)) = some (t, check_code r)

-- The set of predicates that the flags build answers at once, and passes exactly for the networks
-- that the flags allow.
pub build_set_decides :
    (cli : Cli) (state : NetworkState) (now : ℕ)
    → verdict_code (evaluate (build_set cli) state now)
      ≡ some (now, if allowed cli state now then 0 else 1)
unfolding build_set build_predicates evaluate evaluate_and evaluate_or
build_set_decides cli state now = ground arith

abbrev pub code_at : Async (ℕ × List Line) → Option (ℕ × ℕ)
code_at none = none
code_at (some (t, (code, lines))) = some (t, code)

-- `check` ends with 0 exactly for the networks that the flags allow and with 1 for the others,
-- whether or not it explains.
pub run_check_decides :
    (cli : Cli) (explain : Bool) (state : NetworkState) (now : ℕ)
    → code_at (run_check cli explain state now) ≡ some (now, if allowed cli state now then 0 else 1)
unfolding run_check explain_each build_set build_predicates evaluate evaluate_and evaluate_or
run_check_decides cli true state now = ground arith
run_check_decides cli false state now = ground arith

-- The process ends, if it does, with a code of at most 4.
pub main_code :
    (w : Seams) (platform : Platform) (launcher : w.Launcher) (installed : Result w.Source)
    (fuel now : ℕ) (args : TryParse) {code : ℕ}
    → main w platform launcher installed fuel now args ≡ some code
    → code ≤ 4
unfolding main dispatch run_check parse_exit main_exit
main_code w platform launcher installed fuel now args h = grind (arith, run-Accounts)

-- Where the state can be read, the process of `condrun check` ends with 0 if the flags allow the
-- network and with 1 if they do not.
pub main-check :
    (w : Seams) (platform : Platform) (launcher : w.Launcher) (installed : Result w.Source)
    (fuel now : ℕ) (cli : Cli) (explain : Bool) (state : NetworkState)
    → cli.command ≡ check explain
    → build_network_state platform cli ≡ ok state
    → main w platform launcher installed fuel now (parsed cli)
      ≡ some (if allowed cli state now then 0 else 1)
unfolding main dispatch main_exit
main-check w platform launcher installed fuel now cli explain state asked e =
    ground (arith, asked, e, run_check_decides cli explain state now)

pub closed-fails :
    (cli : Cli) (state : NetworkState) (now : ℕ)
    → allowed cli state now ≡ false
    → (r : String) × (evaluate (build_set cli) state now ≡ some (now, fail r))
closed-fails cli state now closed = go (evaluate (build_set cli) state now) refl
  where
    go :
        (o : Async PredicateResult)
        → evaluate (build_set cli) state now ≡ o
        → (r : String) × (evaluate (build_set cli) state now ≡ some (now, fail r))
    go none e = absurd (ground (arith, e, closed, build_set_decides cli state now))
    go (some (t, pass)) e = absurd (ground (arith, e, closed, build_set_decides cli state now))
    go (some (t, fail r)) e = (r, ground (arith, e, closed, build_set_decides cli state now))

pub open-passes :
    (cli : Cli) (state : NetworkState) (now : ℕ)
    → allowed cli state now ≡ true
    → evaluate (build_set cli) state now ≡ some (now, pass)
open-passes cli state now opened = go (evaluate (build_set cli) state now) refl
  where
    go :
        (o : Async PredicateResult)
        → evaluate (build_set cli) state now ≡ o
        → evaluate (build_set cli) state now ≡ some (now, pass)
    go none e = absurd (ground (arith, e, opened, build_set_decides cli state now))
    go (some (t, fail r)) e = absurd (ground (arith, e, opened, build_set_decides cli state now))
    go (some (t, pass)) e = ground (arith, e, opened, build_set_decides cli state now)

-- Where the state can be read, the signals are installed and none comes, the process of
-- `condrun run` on a network that the flags do not allow ends with 1 if it is strict and with 0 if
-- it is not.
pub main-run :
    (w : Seams) (platform : Platform) (launcher : w.Launcher) (source : w.Source) (fuel now : ℕ)
    (cli : Cli) (program : String) (args : List String) (state : NetworkState)
    → IsRuntime w.runtime
    → cli.command ≡ run (program ∷ args)
    → build_network_state platform cli ≡ ok state
    → w.signals.next source now ≡ none
    → allowed cli state now ≡ false
    → main w platform launcher (ok source) fuel now (parsed cli)
      ≡ some (if cli.strict then 1 else 0)
unfolding main dispatch main_exit supervisor_of config_of
main-run w platform launcher source fuel now cli program args state sane asked e quiet closed =
    let (r, fails) = closed-fails cli state now closed in
    let spec : CommandSpec = record { program = program; args = args } in
    ground (
      arith,
      asked,
      e,
      gate_code w fuel (supervisor_of w platform launcher (ok source) fuel cli now state source)
          spec now now r sane fails quiet,
    )
