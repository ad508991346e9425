-- ===== src/State.antt =====
-- src/state/mod.rs: what the program reads of the system.
--
-- Every implementation answers at once (each only locks a mutex), so a reading is a function of the
-- instant at which it is taken; writes by others are part of that function.
pub mod Fake
pub mod Fixture
pub mod MacOs
mod Tests
use condrun.Prelude.{ℕ, Bool, String}

pub data InterfaceType : Type 0 where
  wifi ethernet cellular_tether unknown : InterfaceType

pub record Interface : Type 0 where
  pub name : String
  pub iface_type : InterfaceType

pub record NetworkState : Type 0 where
  pub is_expensive : ℕ → Bool
  pub is_low_data_mode : ℕ → Bool
