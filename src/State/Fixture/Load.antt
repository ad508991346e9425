-- ===== src/State/Fixture/Load.antt =====
-- The loaders of src/state/fixture.rs, over the file system and serde_json as parameters.
use Prim.Native.String
use condrun.Prelude.{ℕ, ◌≡◌, ◌↔◌, refl, String, List, arith}
use condrun.Async.{Result, ok, err}
use condrun.State.Fixture.{Floats, StateFixture, FixtureNetworkState, new}

-- `read_to_string`, `serde_json::from_str` on the text of a file, and `Path::display`; a text and a
-- path are their bytes.
pub record Disk (fl : Floats) : Type 0 where
  pub read_to_string : List ℕ → Result (List ℕ)
  pub from_str : List ℕ → Result (StateFixture fl)
  pub display : List ℕ → String

-- `anyhow`'s `context`: the message becomes the given one.
unfoldable pub with_context : {A : Type 0} → Result A → String → Result A
with_context (ok a) message = ok a
with_context (err e) message = err message

-- `?`
infixl 5 ◌>>=◌
unfoldable pub ◌>>=◌ : {A B : Type 0} → Result A → (A → Result B) → Result B
◌>>=◌ (ok a) f = f a
◌>>=◌ (err e) f = err e

module _ (fl : Floats) (disk : Disk fl) where
  unfoldable pub load_from_str : List ℕ → ℕ → Result (FixtureNetworkState fl)
  unfolding with_context ◌>>=◌
  load_from_str s now = do
    fixture ← with_context (disk.from_str s) "failed to parse state fixture JSON"
    ok (new fl fixture now)

  unfoldable pub load_from_path : List ℕ → ℕ → Result (FixtureNetworkState fl)
  unfolding with_context ◌>>=◌
  load_from_path path now = do
    contents ←
        with_context (disk.read_to_string path)
          (String.◌++◌ "failed to read state fixture file: " (disk.display path))
    fixture ←
        with_context (disk.from_str contents)
          (String.◌++◌ "failed to parse state fixture JSON at " (disk.display path))
    ok (new fl fixture now)

  -- What makes a path load: its file can be read, and its text is a fixture.
  abbrev pub Holds : List ℕ → StateFixture fl → Type 0
  Holds path fixture =
      (contents : List ℕ) × (disk.read_to_string path ≡ ok contents)
      × (disk.from_str contents ≡ ok fixture)

  -- A path is loaded exactly if its file can be read and parsed, as that fixture, started now.
  pub load_from_path-ok_iff :
      (path : List ℕ) (now : ℕ) (f : FixtureNetworkState fl)
      → (load_from_path path now ≡ ok f)
        ↔ ((fixture : StateFixture fl) × Holds path fixture × (f ≡ new fl fixture now))
  unfolding load_from_path
  load_from_path-ok_iff path now f = (loaded, loads)
    where
      loads :
          (fixture : StateFixture fl) × Holds path fixture × (f ≡ new fl fixture now)
          → load_from_path path now ≡ ok f
      loads (fixture, (contents, r, p), e) = rw (r, p, e) refl

      parses :
          (contents : List ℕ) (o : Result (StateFixture fl))
          → disk.read_to_string path ≡ ok contents
          → disk.from_str contents ≡ o
          → load_from_path path now ≡ ok f
          → (fixture : StateFixture fl) × Holds path fixture × (f ≡ new fl fixture now)
      parses contents (err e) r p h = absurd (ground (arith, r, p, h))
      parses contents (ok fixture) r p h = (fixture, (contents, r, p), ground (arith, r, p, h))

      loaded :
          load_from_path path now ≡ ok f
          → (fixture : StateFixture fl) × Holds path fixture × (f ≡ new fl fixture now)
      loaded h = reads (disk.read_to_string path) refl
        where
          reads :
              (o : Result (List ℕ))
              → disk.read_to_string path ≡ o
              → (fixture : StateFixture fl) × Holds path fixture × (f ≡ new fl fixture now)
          reads (err e) r = absurd (ground (arith, r, h))
          reads (ok contents) r = parses contents (disk.from_str contents) r refl h
