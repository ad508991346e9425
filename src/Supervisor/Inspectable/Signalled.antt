-- ===== src/Supervisor/Inspectable/Signalled.antt =====
-- The tests of src/supervisor.rs on signals, as runs of the inspectable child.
use condrun.Prelude.{ℕ, ◌+◌, ◌≡◌, refl, Bool, false, some, [], ◌∷◌}
use condrun.Predicate.{Predicate, pass, and_set}
use condrun.Signal.{SignalKind, interrupt, terminate, quit, hup}
use condrun.Supervisor.{SupervisorConfig, Supervisor}
use condrun.Supervisor.Exec.{done}
use condrun.Supervisor.Inspectable.{new, seams, secs, watcher_cfg, supervisor}
use condrun.Supervisor.Inspectable.Watching.{millis, Report, report, stable}

abbrev pub cfg : Bool → Bool → SupervisorConfig
cfg strict kill_on_change = record {
  strict = strict;
  kill_on_change = kill_on_change;
  grace = 0;
  poll = 0;
  debounce = 0;
}

-- A child that ends by itself after a signal was forwarded to it.
abbrev forwarded_once : ℕ → ℕ → Report
forwarded_once code clock = record {
  outcome = done code;
  clock = clock;
  evaluated = 1;
  spawned = 1;
  forwarded = 1;
  terminated = 0;
}

abbrev pub signalled : SignalKind → Supervisor seams
signalled kind = supervisor (cfg false false) (new 0 (secs 60)) stable ((millis 10, kind) ∷ [])

sigint_forwarded_to_child : report 0 (signalled interrupt) ≡ forwarded_once 0 60_010_000_000
unfolding report
sigint_forwarded_to_child = refl

sigquit_forwarded : report 0 (signalled quit) ≡ forwarded_once 0 60_010_000_000
unfolding report
sigquit_forwarded = refl

sighup_forwarded : report 0 (signalled hup) ≡ forwarded_once 0 60_010_000_000
unfolding report
sighup_forwarded = refl

-- Through the watcher, to a child that fails.
abbrev pub terminated_watched : Supervisor seams
terminated_watched =
    supervisor (watcher_cfg (secs 1) (secs 5)) (new 7 (secs 60)) stable
      ((millis 10, terminate) ∷ [])

sigterm_forwarded_to_child : report 9 terminated_watched ≡ forwarded_once 2 60_010_000_000
unfolding report
sigterm_forwarded_to_child = refl

abbrev slow_pass : ℕ → Predicate
slow_pass delay = record { name = "slow-pass"; evaluate = λ state now. some (now + delay, pass) }

-- The signal is there before the run.
abbrev pub interrupted : Supervisor seams
interrupted = record (supervisor (cfg false false) (new 0 0) stable ((0, interrupt) ∷ [])) {
  predicate_set = and_set (slow_pass (secs 3600) ∷ []);
}

signal_during_preflight : report 0 interrupted ≡ record {
  outcome = done 0;
  clock = 0;
  evaluated = 0;
  spawned = 0;
  forwarded = 0;
  terminated = 0;
}
unfolding report
signal_during_preflight = refl

abbrev pub escalated : Supervisor seams
escalated =
    supervisor (cfg false false) (new 0 (secs 3600)) stable
      ((millis 10, interrupt) ∷ (millis 60, interrupt) ∷ [])

second_signal_escalates_to_terminate : report 0 escalated ≡ record {
  outcome = done 3;
  clock = millis 60;
  evaluated = 1;
  spawned = 1;
  forwarded = 1;
  terminated = 1;
}
unfolding report
second_signal_escalates_to_terminate = refl
