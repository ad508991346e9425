-- ===== src/State/Fake/Tests.antt =====
-- The tests of src/state/fake.rs, each as the test that its assertions make of the fake: a reading is
-- of the writes that the test has made before it. Clones share the state.
use condrun.Prelude.{◌≡◌, refl, Bool, true, false, not, ◌&&◌, [], ◌∷◌, ◌++◌, every}
use condrun.State.Fake.{Script, FakeState, set_expensive, set_low_data, state_at, fake_state}

abbrev written : (FakeState → FakeState) → Script
written write = (0, write) ∷ []

abbrev is_expensive : Script → Bool
is_expensive script = (fake_state script).is_expensive 0

abbrev is_low_data_mode : Script → Bool
is_low_data_mode script = (fake_state script).is_low_data_mode 0

abbrev set_expensive_round_trips : Bool
set_expensive_round_trips =
    let once = written (set_expensive true) in
    let twice = once ++ written (set_expensive false) in
    not (is_expensive []) && (is_expensive once && not (is_expensive twice))

abbrev set_low_data_round_trips : Bool
set_low_data_round_trips =
    let once = written (set_low_data true) in
    let twice = once ++ written (set_low_data false) in
    not (is_low_data_mode []) && (is_low_data_mode once && not (is_low_data_mode twice))

abbrev flags_are_independent : Bool
flags_are_independent =
    let once = written (set_expensive true) in
    let twice = once ++ written (set_low_data true) in
    is_expensive once
    && (not (is_low_data_mode once) && (is_expensive twice && is_low_data_mode twice))

abbrev clone_shares_state : Bool
clone_shares_state = let shared = written (set_expensive true) in is_expensive shared

-- The write is of a task that the test awaits, on a clone.
abbrev send_sync_compile : Bool
send_sync_compile = is_expensive (written (set_expensive true))

-- The tests of the source pass on the fake.
fake_state_tests_pass :
    every (
      set_expensive_round_trips ∷ set_low_data_round_trips ∷ flags_are_independent
      ∷ clone_shares_state ∷ send_sync_compile ∷ [])
    ≡ true
unfolding fake_state state_at set_expensive set_low_data
fake_state_tests_pass = refl
