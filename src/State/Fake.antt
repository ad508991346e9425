-- ===== src/State/Fake.antt =====
-- src/state/fake.rs: the scriptable state of the tests. Its clones share one `FakeState`, so what a
-- reader sees at an instant is the outcome of the writes made by then.
pub mod Writes
mod Tests
use condrun.Prelude.{ℕ, Bool, false, List, [], ◌∷◌, leb, if◌then◌else◌}
use condrun.State.{NetworkState}

pub record FakeState : Type 0 where
  pub expensive : Bool
  pub low_data : Bool

-- `FakeState::default()`
abbrev pub new : FakeState
new = record { expensive = false; low_data = false }

unfoldable pub set_expensive : Bool → FakeState → FakeState
set_expensive value s = record s { expensive = value }

unfoldable pub set_low_data : Bool → FakeState → FakeState
set_low_data value s = record s { low_data = value }

-- The writes of a script, in their order, each with its instant.
abbrev pub Script : Type 0
Script = List (ℕ × (FakeState → FakeState))

unfoldable pub state_at : Script → FakeState → ℕ → FakeState
state_at [] s now = s
state_at ((t, write) ∷ script) s now = state_at script (if leb t now then write s else s) now

unfoldable pub fake_state : Script → NetworkState
unfolding state_at
fake_state script = record {
  is_expensive = λ now. (state_at script new now).expensive;
  is_low_data_mode = λ now. (state_at script new now).low_data;
}
