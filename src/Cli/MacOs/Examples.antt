-- ===== src/Cli/MacOs/Examples.antt =====
-- `condrun check` on a Mac that is tethered: the first call of the handler has no path, the second comes
-- before the time limit and the third after the constructor has returned.
use condrun.Prelude.{◌≡◌, refl, true, false, none, some, [], ◌∷◌, arith, if◌then◌else◌}
use condrun.Async.{ok}
use condrun.State.MacOs.{NwPathSnapshot, Framework, Updates, new, first_ready}
use condrun.State.MacOs.Readings.{latest}
use condrun.Cli.{Cli, check}
use condrun.Cli.Decisions.{allowed}
use condrun.Cli.Dispatch.{main, parsed}
use condrun.Cli.Examples.{cli_of, stuck}
use condrun.Cli.MacOs.{macos_platform, arrived, network_of, main-check_macos}

abbrev tethered : NwPathSnapshot
tethered = record { expensive = true; low_data = false }

abbrev updates : Updates
updates =
    (2, none) ∷ (5, some tethered) ∷ (9, some (record { expensive = false; low_data = false })) ∷ []

abbrev mac : Framework
mac = record {
  gives_queue = true;
  gives_monitor = true;
  poisoned = false;
  poisoned_waiting = false;
  updates = updates;
}

abbrev asks : Cli
asks = cli_of (check true) none

main-check_macos_example :
    (path : NwPathSnapshot) × (latest (arrived 5 updates) ≡ some path)
    × (main stuck (macos_platform mac 1) tt (ok tt) 0 5 (parsed asks)
        ≡ some (if allowed asks (network_of path) 5 then 0 else 1))
unfolding new first_ready
main-check_macos_example =
    main-check_macos stuck mac tt (ok tt) 0 1 5 5 updates asks true refl refl refl (omega arith)
