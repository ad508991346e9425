-- ===== src/Cli/Explain.antt =====
-- What `condrun check` of src/cli.rs prints.
use condrun.Prelude.{ℕ, ◌≡◌, String, Bool, true, false, List, [], ◌∷◌, ◌++◌, arith, if◌then◌else◌}
use condrun.Async.{Result, ok}
use condrun.State.{NetworkState}
use condrun.Predicate.{evaluate, evaluate_and, evaluate_or}
use condrun.Supervisor.{Seams}
use condrun.Cli.{Cli, Platform, check, build_predicates, build_set, build_network_state}
use condrun.Cli.Dispatch.{
  Line, pass_line, fail_line, debounce_ignored, explain_each, run_check, warns, dispatch,
}

-- The line for a predicate that the flags ask for.
abbrev pub told : Bool → String → String → Bool → List Line
told false name reason metered = []
told true name reason metered = (if metered then fail_line name reason else pass_line name) ∷ []

abbrev expensive_reason : String
expensive_reason = "current connection is expensive (Personal Hotspot or cellular)"

abbrev low_data_reason : String
low_data_reason = "current connection has Low Data Mode enabled"

abbrev pub explained : Cli → NetworkState → ℕ → List Line
explained cli state now =
    told cli.reject_expensive "reject-expensive" expensive_reason (state.is_expensive now)
    ++ told cli.reject_low_data "reject-low-data" low_data_reason (state.is_low_data_mode now)

abbrev pub warned : Cli → List Line
warned cli = if warns cli then debounce_ignored ∷ [] else []

-- Where the state can be read, `condrun check --explain` prints, behind the warning on `--debounce`, if
-- there is one, a line for each predicate that the flags ask for, first the one on expensive
-- connections, each with its verdict and, where it fails, its reason, also behind one that fails and
-- also with `--any`.
pub check-explains :
    (w : Seams) (platform : Platform) (launcher : w.Launcher) (installed : Result w.Source)
    (fuel now : ℕ) (cli : Cli) (state : NetworkState)
    → cli.command ≡ check true
    → build_network_state platform cli ≡ ok state
    → (dispatch w platform launcher installed fuel cli now).1
      ≡ warned cli ++ explained cli state now
unfolding dispatch run_check explain_each build_set build_predicates evaluate evaluate_and
    evaluate_or
check-explains w platform launcher installed fuel now cli state asked e = ground (arith, asked, e)
