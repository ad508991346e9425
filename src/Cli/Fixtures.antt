-- ===== src/Cli/Fixtures.antt =====
-- The `test-fixture` build of src/cli.rs: `--state-source file:<path>`, down to the file.
use Prim.Native.String
use condrun.Prelude.{
  ℕ, ◌≡◌, refl, ◌∙◌, Bool, true, some, String, List, [], ◌∷◌, ◌++◌, arith, if◌then◌else◌,
}
use condrun.Async.{Result, ok, err}
use condrun.State.{NetworkState}
use condrun.State.Fixture.{Floats, StateFixture, FixtureNetworkState, new, fixture_state}
use condrun.State.Fixture.Load.{
  Disk, with_context, ◌>>=◌, load_from_path, Holds, load_from_path-ok_iff,
}
use condrun.Supervisor.{Seams}
use condrun.Cli.{Cli, Platform, Command, run, check, build_network_state, strip_prefix, file_scheme}
use condrun.Cli.Decisions.{allowed, main-check}
use condrun.Cli.Dispatch.{dispatch, main, main_exit, parsed}

module _ (fl : Floats) (disk : Disk fl) where
  -- The `load_from_path(…)` of `build_network_state`, at an instant.
  unfoldable pub load_fixture : ℕ → List ℕ → Result NetworkState
  unfolding with_context ◌>>=◌
  load_fixture now path = do
    f ←
        with_context (load_from_path fl disk path now)
          (String.◌++◌ "failed to load fixture state from " (disk.display path))
    ok (fixture_state fl f)

  abbrev pub fixture_platform : Result NetworkState → ℕ → Platform
  fixture_platform real now = record {
    test_fixture = true;
    load_fixture = load_fixture now;
    real_network_state = real;
  }

  built :
      (real : Result NetworkState) (now : ℕ) (cli : Cli) (path : List ℕ)
      → cli.state_source ≡ some (file_scheme ++ path)
      → build_network_state (fixture_platform real now) cli ≡ load_fixture now path
  unfolding build_network_state strip_prefix
  built real now cli path e = rw e refl

  load_fixture-Holds :
      (now : ℕ) (path : List ℕ) (fixture : StateFixture fl)
      → Holds fl disk path fixture
      → load_fixture now path ≡ ok (fixture_state fl (new fl fixture now))
  unfolding load_fixture
  load_fixture-Holds now path fixture h =
      let loads =
        (load_from_path-ok_iff fl disk path now (new fl fixture now)).1 (fixture, h, refl) in
      rw loads refl

  load_fixture-err :
      (now : ℕ) (path : List ℕ)
      → ((fixture : StateFixture fl) → Holds fl disk path fixture → ⊥)
      → (e : String) × (load_fixture now path ≡ err e)
  unfolding load_fixture
  load_fixture-err now path h = go (load_from_path fl disk path now) refl
    where
      go :
          (o : Result (FixtureNetworkState fl))
          → load_from_path fl disk path now ≡ o
          → (e : String) × (load_fixture now path ≡ err e)
      go (err e) q =
          (String.◌++◌ "failed to load fixture state from " (disk.display path), rw q refl)
      go (ok f) q =
          let (fixture, holds, same) = (load_from_path-ok_iff fl disk path now f).0 q in
          absurd (h fixture holds)

-- In the `test-fixture` build, with `--state-source file:<path>`: the process of `condrun check`
-- ends with 0 if the flags allow the state that the fixture in the file gives at its start, and with
-- 1 if they do not.
pub main-check_fixture :
    (fl : Floats) (disk : Disk fl) (w : Seams) (real : Result NetworkState) (launcher : w.Launcher)
    (installed : Result w.Source) (fuel now : ℕ) (cli : Cli) (explain : Bool) (path : List ℕ)
    (fixture : StateFixture fl)
    → cli.command ≡ check explain
    → cli.state_source ≡ some (file_scheme ++ path)
    → Holds fl disk path fixture
    → main w (fixture_platform fl disk real now) launcher installed fuel now (parsed cli)
      ≡ some (if allowed cli (fixture_state fl (new fl fixture now)) now then 0 else 1)
main-check_fixture fl disk w real launcher installed fuel now cli explain path fixture asked src
      holds =
    main-check w (fixture_platform fl disk real now) launcher installed fuel now cli explain
      (fixture_state fl (new fl fixture now)) asked
      (built fl disk real now cli path src ∙ load_fixture-Holds fl disk now path fixture holds)

-- In the `test-fixture` build, with `--state-source file:<path>`: where the file cannot be read or
-- has no fixture in it, the process of every command ends with 4.
pub main-unloadable :
    (fl : Floats) (disk : Disk fl) (w : Seams) (real : Result NetworkState) (launcher : w.Launcher)
    (installed : Result w.Source) (fuel now : ℕ) (cli : Cli) (path : List ℕ)
    → cli.state_source ≡ some (file_scheme ++ path)
    → ((fixture : StateFixture fl) → Holds fl disk path fixture → ⊥)
    → main w (fixture_platform fl disk real now) launcher installed fuel now (parsed cli) ≡ some 4
unfolding main dispatch main_exit
main-unloadable fl disk w real launcher installed fuel now cli path src missing =
    let (e, q) = load_fixture-err fl disk now path missing in
    let unbuilt = built fl disk real now cli path src ∙ q in command cli.command refl e unbuilt
  where
    command :
        (c : Command)
        → cli.command ≡ c
        → (e : String) → build_network_state (fixture_platform fl disk real now) cli ≡ err e
        → main w (fixture_platform fl disk real now) launcher installed fuel now (parsed cli)
          ≡ some 4
    command (run []) asked e q = ground (arith, asked)
    command (run (program ∷ args)) asked e q = ground (arith, asked, q)
    command (check explain) asked e q = ground (arith, asked, q)
