-- ===== src/State/MacOs/Tests.antt =====
-- The tests of src/state/macos.rs, which need a real host, each as the test that its assertions make on
-- frameworks that report a wifi path without Low Data Mode after 20 ms.
use condrun.Prelude.{
  ℕ, zero, suc, ◌≡◌, refl, Bool, true, false, not, ◌&&◌, some, [], ◌∷◌, ◌++◌, ◌==◌, every,
}
use condrun.Async.{ok, err}
use condrun.State.MacOs.{
  Framework, Updates, new, drop, held, Held, shared_at, default_shared, macos_state, first_ready,
  update,
}

abbrev wifi : Framework
wifi = record {
  gives_queue = true;
  gives_monitor = true;
  poisoned = false;
  poisoned_waiting = false;
  updates = (20_000_000, some (record { expensive = false; low_data = false })) ∷ [];
}

-- `MacOsNetworkState::new().expect(…)` at 0, and a test of the state at the instant of its return.
abbrev constructed : (ℕ → Updates → Bool) → Bool
constructed test = elim (new wifi 0).0 [ ok (t, state) ↦ test t state | err e ↦ false ]

abbrev construct_blocks_until_first_update : Bool
construct_blocks_until_first_update =
    constructed λ t state. (shared_at state default_shared t).ready

abbrev is_expensive_on_wifi : Bool
is_expensive_on_wifi = constructed λ t state. not ((macos_state state).is_expensive t)

abbrev is_low_data_off_default : Bool
is_low_data_off_default = constructed λ t state. not ((macos_state state).is_low_data_mode t)

-- So many states, one after the other: each is constructed, and its `drop` cancels the monitor and
-- gives it and the queue back.
abbrev drops_all : ℕ → Bool
drops_all zero = true
drops_all (suc n) =
    let after : Held = held ((new wifi 0).1 ++ drop) in
    constructed (λ t state. true)
    && (not after.running && ((after.monitors == 0) && ((after.queues == 0) && drops_all n)))

abbrev drop_cancels_monitor : Bool
drop_cancels_monitor = drops_all 8

-- The tests of the source pass on the model.
macos_tests_pass :
    every (
      construct_blocks_until_first_update ∷ is_expensive_on_wifi ∷ is_low_data_off_default
      ∷ drop_cancels_monitor ∷ [])
    ≡ true
unfolding new first_ready shared_at update macos_state
macos_tests_pass = refl
