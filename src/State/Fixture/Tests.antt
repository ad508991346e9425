-- ===== src/State/Fixture/Tests.antt =====
-- The tests of src/state/fixture.rs, each as the test that its assertions make, given what serde_json
-- reads in the test's text. A test starts at 0, with whole seconds in place of `f64`.
use condrun.Prelude.{
  ℕ, ◌*◌, ◌/◌, ◌≡◌, refl, String, Bool, true, false, not, ◌&&◌, ◌||◌, List, [], ◌∷◌, leb, ltb,
  contains, arith,
}
use condrun.Async.{Result, ok, err}
use condrun.Async.Awaited.{unwraps}
use condrun.State.Fixture.{
  Floats, TimedSnapshot, static, sequence, FixtureNetworkState, fixture_state,
}
use condrun.State.Fixture.Load.{Disk, load_from_str, load_from_path}

abbrev seconds : Floats
seconds = record {
  F64 = ℕ;
  le = leb;
  gt = λ a b. ltb b a;
  as_secs_f64 = λ nanos. nanos / 1_000_000_000;
}

abbrev secs : ℕ → ℕ
secs n = n * 1_000_000_000

abbrev entry : ℕ → Bool → Bool → TimedSnapshot seconds
entry at expensive low_data = record {
  at_secs = at;
  state = record { expensive = expensive; low_data = low_data };
}

-- `expect_err` and the message.
abbrev errs : {A : Type 0} → Result A → (String → Bool) → Bool
errs (ok a) test = false
errs (err e) test = test e

module _ (disk : Disk seconds) (json : List ℕ) where
  abbrev loaded : (FixtureNetworkState seconds → Bool) → Bool
  loaded test = unwraps (load_from_str seconds disk json 0) test

  abbrev static_fixture_round_trips_fields : Bool
  static_fixture_round_trips_fields = loaded λ f.
      (fixture_state seconds f).is_expensive 0 && not ((fixture_state seconds f).is_low_data_mode 0)

  abbrev static_fixture_round_trips_inverse_fields : Bool
  static_fixture_round_trips_inverse_fields = loaded λ f.
      not ((fixture_state seconds f).is_expensive 0) && (fixture_state seconds f).is_low_data_mode 0

  abbrev sequence_fixture_flips_after_advance : Bool
  sequence_fixture_flips_after_advance = loaded λ f.
      not ((fixture_state seconds f).is_expensive 0)
      && (fixture_state seconds f).is_expensive (secs 5)

  abbrev sequence_fixture_holds_at_latest_snapshot : Bool
  sequence_fixture_holds_at_latest_snapshot = loaded λ f.
      (fixture_state seconds f).is_expensive (secs 10)
      && (fixture_state seconds f).is_low_data_mode (secs 10)

  abbrev invalid_json_returns_descriptive_error : Bool
  invalid_json_returns_descriptive_error =
      errs (load_from_str seconds disk json 0) λ msg. contains msg "state fixture"

  abbrev malformed_json_does_not_panic : Bool
  malformed_json_does_not_panic = errs (load_from_str seconds disk json 0) λ msg. true

  abbrev nonexistent_path_returns_error : List ℕ → Bool
  nonexistent_path_returns_error path =
      errs (load_from_path seconds disk path 0)
        λ msg. contains msg "state fixture file" || contains msg "definitely"

  -- The tests of the source pass, each given the outcome of the parser or of the file system.
  round_trips_pass :
      disk.from_str json ≡ ok (static (record { expensive = true; low_data = false }))
      → static_fixture_round_trips_fields ≡ true
  unfolding load_from_str fixture_state
  round_trips_pass e = ground (arith, e)

  round_trips_inverse_pass :
      disk.from_str json ≡ ok (static (record { expensive = false; low_data = true }))
      → static_fixture_round_trips_inverse_fields ≡ true
  unfolding load_from_str fixture_state
  round_trips_inverse_pass e = ground (arith, e)

  flips_pass :
      disk.from_str json ≡ ok (sequence (entry 0 false false ∷ entry 5 true false ∷ []))
      → sequence_fixture_flips_after_advance ≡ true
  unfolding load_from_str fixture_state
  flips_pass e = ground (arith, e)

  holds_pass :
      disk.from_str json ≡ ok (sequence (entry 0 false false ∷ entry 2 true true ∷ []))
      → sequence_fixture_holds_at_latest_snapshot ≡ true
  unfolding load_from_str fixture_state
  holds_pass e = ground (arith, e)

  invalid_pass :
      (e : String)
      → disk.from_str json ≡ err e
      → (invalid_json_returns_descriptive_error ≡ true) × (malformed_json_does_not_panic ≡ true)
  unfolding load_from_str
  invalid_pass e h = (ground (arith, h), ground (arith, h))

  nonexistent_pass :
      (path : List ℕ) (e : String)
      → disk.read_to_string path ≡ err e
      → disk.display path ≡ "/definitely/does/not/exist/condrun-fixture.json"
      → nonexistent_path_returns_error path ≡ true
  unfolding load_from_path
  nonexistent_pass path e h shown = rw (h, shown) refl
