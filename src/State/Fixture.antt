-- ===== src/State/Fixture.antt =====
-- src/state/fixture.rs: network states read from a fixture file, past the JSON parser (serde), which
-- is not modelled. `f64` is a parameter: its order, and the seconds of an elapsed time.
pub mod Lookup
pub mod Load
mod Tests
use condrun.Prelude.{ℕ, ◌-◌, Bool, false, List, [], ◌∷◌, if◌then◌else◌}
use condrun.State.{NetworkState}

-- `f64`, with `<=`, `partial_cmp` read as "is greater" (false on NaN, which `unwrap_or(Equal)` takes
-- for equal), and `Duration::as_secs_f64` of a number of nanoseconds.
pub record Floats : Type 1 where
  pub F64 : Type 0
  pub le : F64 → F64 → Bool
  pub gt : F64 → F64 → Bool
  pub as_secs_f64 : ℕ → F64

pub record NetworkSnapshot : Type 0 where
  pub expensive : Bool
  pub low_data : Bool

abbrev pub default_snapshot : NetworkSnapshot
default_snapshot = record { expensive = false; low_data = false }

module _ (fl : Floats) where
  open fl use {F64, le, gt, as_secs_f64}

  pub record TimedSnapshot : Type 0 where
    pub at_secs : F64
    pub state : NetworkSnapshot

  pub data StateFixture : Type 0 where
    static : NetworkSnapshot → StateFixture
    sequence : List TimedSnapshot → StateFixture

  pub record FixtureNetworkState : Type 0 where
    pub fixture : StateFixture
    pub created_at : ℕ

  abbrev pub new : StateFixture → ℕ → FixtureNetworkState
  new fixture now = record { fixture = fixture; created_at = now }

  -- `filter(|s| s.at_secs <= elapsed_secs)`
  unfoldable pub triggered : List TimedSnapshot → F64 → List TimedSnapshot
  triggered [] elapsed = []
  triggered (s ∷ snapshots) elapsed =
      let rest = triggered snapshots elapsed in if le s.at_secs elapsed then s ∷ rest else rest

  -- `Iterator::max_by` from its first item: of two, the later unless the earlier one is greater.
  unfoldable pub max_from : TimedSnapshot → List TimedSnapshot → TimedSnapshot
  max_from best [] = best
  max_from best (s ∷ rest) = max_from (if gt best.at_secs s.at_secs then best else s) rest

  unfoldable pub snapshot_of : List TimedSnapshot → NetworkSnapshot
  unfolding max_from
  snapshot_of [] = default_snapshot
  snapshot_of (s ∷ rest) = (max_from s rest).state

  unfoldable pub snapshot_at : List TimedSnapshot → F64 → NetworkSnapshot
  unfolding triggered snapshot_of
  snapshot_at snapshots elapsed = snapshot_of (triggered snapshots elapsed)

  unfoldable pub snapshot_now : FixtureNetworkState → ℕ → NetworkSnapshot
  unfolding snapshot_at
  snapshot_now f now = elim f.fixture [
    | static snap ↦ snap
    | sequence snaps ↦ snapshot_at snaps (as_secs_f64 (now - f.created_at))
  ]

  unfoldable pub fixture_state : FixtureNetworkState → NetworkState
  unfolding snapshot_now
  fixture_state f = record {
    is_expensive = λ now. (snapshot_now f now).expensive;
    is_low_data_mode = λ now. (snapshot_now f now).low_data;
  }
