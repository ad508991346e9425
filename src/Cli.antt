-- ===== src/Cli.antt =====
-- src/cli.rs: the parsed command line, and what it is turned into. The parsing of flags (clap) is
-- not modelled; `parse_duration`, which it calls, is.
pub mod Duration
pub mod Dispatch
pub mod Decisions
pub mod Errors
pub mod Fixtures
pub mod MacOs
pub mod Real
pub mod Explain
mod EndToEnd
mod Tests
mod Examples
use condrun.Prelude.{
  ℕ, Bool, true, false, not, Option, none, some, String, List, [], ◌∷◌, ◌++◌, ◌==◌, if◌then◌else◌,
}
use condrun.Async.{Result, ok, err}
use condrun.State.{NetworkState}
use condrun.Predicate.{Predicate, PredicateSet, and_set, or_set}
use condrun.Predicate.Metered

pub data Command : Type 0 where
  run : List String → Command
  check : Bool → Command

-- Durations are nanoseconds; the text of `--state-source` is its bytes.
pub record Cli : Type 0 where
  pub command : Command
  pub strict : Bool
  pub no_kill_on_change : Bool
  pub grace : ℕ
  pub poll : ℕ
  pub debounce : ℕ
  pub any : Bool
  pub reject_expensive : Bool
  pub reject_low_data : Bool
  pub verbose : ℕ
  pub quiet : Bool
  pub state_source : Option (List ℕ)

abbrev push_if : Bool → Predicate → List Predicate → List Predicate
push_if flag p v = if flag then v ++ p ∷ [] else v

unfoldable pub build_predicates : Cli → List Predicate
build_predicates cli =
    let v = push_if cli.reject_expensive Metered.reject_expensive [] in
    push_if cli.reject_low_data Metered.reject_low_data v

-- `if cli.any { PredicateSet::or(…) } else { PredicateSet::and(…) }`
unfoldable pub build_set : Cli → PredicateSet
unfolding build_predicates
build_set cli = if cli.any then or_set (build_predicates cli) else and_set (build_predicates cli)

-- The build and what it reaches: the `test-fixture` feature, the loader of fixture files and the
-- reader of the platform.
pub record Platform : Type 0 where
  pub test_fixture : Bool
  pub load_fixture : List ℕ → Result NetworkState
  pub real_network_state : Result NetworkState

-- `src.strip_prefix("file:")`
unfoldable pub strip_prefix : List ℕ → List ℕ → Option (List ℕ)
strip_prefix [] s = some s
strip_prefix (c ∷ p) [] = none
strip_prefix (c ∷ p) (d ∷ s) = if c == d then strip_prefix p s else none

abbrev pub file_scheme : List ℕ
file_scheme = b'f' ∷ b'i' ∷ b'l' ∷ b'e' ∷ b':' ∷ []

abbrev fixture_at : Platform → Option (List ℕ) → Result NetworkState
fixture_at platform (some path) = platform.load_fixture path
fixture_at platform none = err "--state-source must use the `file:<path>` form"

abbrev from_source : Platform → Option (List ℕ) → Result NetworkState
from_source platform (some src) = fixture_at platform (strip_prefix file_scheme src)
from_source platform none = platform.real_network_state

unfoldable pub build_network_state : Platform → Cli → Result NetworkState
unfolding strip_prefix
build_network_state platform cli =
    if platform.test_fixture
    then from_source platform cli.state_source
    else platform.real_network_state
