-- ===== src/Cli/MacOs.antt =====
-- src/cli.rs and src/main.rs on macOS: `real_network_state`, and what `check` decides by.
mod Examples
use condrun.Prelude.{
  ℕ, ◌+◌, ◌≤◌, ◌≡◌, refl, ap, ◌∙◌, ◌⊎◌, inl, inr, Bool, true, false, Bool-cases, Option,
  Option-cases, none, some, String, List, [], ◌∷◌, leb, arith, if◌then◌else◌,
}
use condrun.Async.{Result, ok, err}
use condrun.State.{NetworkState}
use condrun.State.MacOs.{
  NwPathSnapshot, SharedState, default_shared, Updates, Framework, update, shared_at, macos_state,
  new, first_ready, first_update_timeout, ready_after, new_waits,
}
use condrun.State.MacOs.Readings.{latest}
use condrun.Supervisor.{Seams}
use condrun.Cli.{Cli, Platform, check, build_network_state}
use condrun.Cli.Decisions.{allowed, main-check}
use condrun.Cli.Dispatch.{main, parsed}

-- `real_network_state` where `MacOsNetworkState::new` is called at `start`.
abbrev started : Result (ℕ × Updates) → Result NetworkState
started (ok (ready, updates)) = ok (macos_state updates)
started (err e) = err "failed to start NWPathMonitor"

unfoldable pub real_network_state : Framework → ℕ → Result NetworkState
real_network_state f start = started (new f start).0

-- A build without the fixtures.
abbrev pub macos_platform : Framework → ℕ → Platform
macos_platform f start = record {
  test_fixture = false;
  load_fixture = λ path. err "no such option";
  real_network_state = real_network_state f start;
}

-- The calls of the handler by an instant.
abbrev pub arrived : ℕ → Updates → Updates
arrived now [] = []
arrived now ((t, path) ∷ updates) =
    let rest = arrived now updates in if leb t now then (t, path) ∷ rest else rest

abbrev shows_or : SharedState → Option NwPathSnapshot → SharedState
shows_or s none = s
shows_or s (some path) = record { snapshot = path; ready = true }

shared_at-arrived :
    (updates : Updates) (s : SharedState) (now : ℕ)
    → shared_at updates s now ≡ shows_or s (latest (arrived now updates))
unfolding shared_at update
shared_at-arrived [] s now = refl
shared_at-arrived ((u, none) ∷ updates) s now = ground (arith, shared_at-arrived updates s now)
shared_at-arrived ((u, some p) ∷ updates) s now = ground (
  arith,
  shared_at-arrived updates s now,
  shared_at-arrived updates (record { snapshot = p; ready = true }) now,
)

-- The network that a path shows, at every instant.
abbrev pub network_of : NwPathSnapshot → NetworkState
network_of path = record {
  is_expensive = λ now. path.expensive;
  is_low_data_mode = λ now. path.low_data;
}

macos-allowed :
    (cli : Cli) (updates : Updates) (now : ℕ) (path : NwPathSnapshot)
    → latest (arrived now updates) ≡ some path
    → allowed cli (macos_state updates) now ≡ allowed cli (network_of path) now
unfolding macos_state
macos-allowed cli updates now path e =
    ap (λ (m : SharedState). allowed cli (network_of m.snapshot) now)
      (shared_at-arrived updates default_shared now ∙ ap (shows_or default_shared) e)

-- On macOS, where the frameworks call the handler with a path within the time limit of the constructor:
-- the process of `condrun check` ends with 0 if the flags allow the network of the last path that has
-- come when the state is there, and with 1 if they do not; so it never decides by the default snapshot.
pub main-check_macos :
    (w : Seams) (f : Framework) (launcher : w.Launcher) (installed : Result w.Source)
    (fuel start u t : ℕ) (updates : Updates) (cli : Cli) (explain : Bool)
    → cli.command ≡ check explain
    → (new f start).0 ≡ ok (u, updates)
    → first_ready updates ≡ some t
    → t ≤ start + first_update_timeout
    → (path : NwPathSnapshot) × (latest (arrived u updates) ≡ some path)
      × (main w (macos_platform f start) launcher installed fuel u (parsed cli)
          ≡ some (if allowed cli (network_of path) u then 0 else 1))
unfolding real_network_state build_network_state
main-check_macos w f launcher installed fuel start u t updates cli explain asked built first soon =
    let (same, wait) = new_waits f start u updates built in
    let ready = ready_after updates default_shared t u first (ground (arith, same, wait, first)) in
    elim (Option-cases (latest (arrived u updates))) [
      | inl e ↦ absurd (ground (arith, e, ready, shared_at-arrived updates default_shared u))
      | inr (path, e) ↦ (
        path,
        e,
        rw (← macos-allowed cli updates u path e) (
            main-check w (macos_platform f start) launcher installed fuel u cli explain
              (macos_state updates) asked (rw built refl)),
      )
    ]
