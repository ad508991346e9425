-- ===== src/Supervisor/Run.antt =====
-- src/supervisor.rs: `Supervisor::run` and what it calls.
use condrun.Prelude.{
  ℕ, zero, suc, ◌-◌, ◌/◌, ◌%◌, ◌^◌, String, Bool, true, false, Option, none, some, ◌⊎◌, inl, inr,
  leb, if◌then◌else◌, [],
}
use condrun.Async.{Result, ok, err, sleep, select_biased_three}
use condrun.Predicate.{PredicateResult, pass, fail, evaluate}
use condrun.Signal.{SignalKind}
use condrun.Process.{CommandSpec, ExitStatus, success, code}
use condrun.Supervisor.{Seams, SupervisorConfig, Supervisor}
use condrun.Supervisor.Exec.{
  debug, info, error, signal_in_preflight, forwarding, escalating, preflight_failed_strict,
  preflight_failed, forward_failed, escalation_failed, recovered, flipped, within_debounce, Message,
  child_exited, evaluated, spawned, forwarded, terminated, logged, Sys, Flow, done, pending, Exec,
  pure, fail_with, out_of_fuel, ◌>>=◌, ◌>>◌, note, get_now, await, race,
}

pub data WatchOutcome : Type 0 where
  exited : ExitStatus → WatchOutcome
  tick : WatchOutcome
  signal : SignalKind → WatchOutcome

-- How a part of `run` is left: `break status`, or `return Ok(code)`.
pub data Leave : Type 0 where
  break_with : ExitStatus → Leave
  return_with : ℕ → Leave

-- `Instant::saturating_duration_since` is the truncated difference.
abbrev pub started_at : Option ℕ → ℕ → ℕ
started_at none now = now
started_at (some t) now = t

-- `duration.as_millis() as u64`: whole milliseconds, cut to 64 bits.
unfoldable pub as_millis : ℕ → ℕ
as_millis duration = duration / 1_000_000 % 2 ^ 64

-- Leaves the loop, or makes its next round.
abbrev pub go_on : {S : Type 0} → (Option ℕ → Exec S Leave) → Leave ⊎ Option ℕ → Exec S Leave
go_on again (inl leave) = pure leave
go_on again (inr started) = again started

module _ (w : Seams) where
  open w use {Child, Source, child, spawner, runtime}

  -- `if let Err(err) = … { error!(…) }`
  pub log_error : (String → Message) → Result (Unit {0}) → Exec Source (Unit {0})
  log_error message (ok _) = pure tt
  log_error message (err e) = note (logged error (message e))

  -- `child.terminate(grace).await`, with what is left of the child.
  unfoldable pub call_terminate : Child → ℕ → Exec Source (Result (Unit {0}) × Child)
  call_terminate c grace = do note (terminated grace); await (child.terminate c grace)

  unfoldable pub wait_with_escalation : Child → ℕ → Exec Source ℕ
  unfolding log_error
  wait_with_escalation c grace = do
    first ← race runtime w.signals (child.wait c)
    elim first [
      | inl (status, c') ↦ pure (if success status then 0 else 2)
      | inr sig2 ↦ do
        note (logged info (escalating sig2))
        (result, c') ← call_terminate c grace
        log_error escalation_failed result
        reaped ← await (child.wait c')
        pure 3
    ]

  -- Both places that receive the first signal: `child.signal(sig)`, then the escalation race.
  unfoldable pub forward_signal : Child → SignalKind → ℕ → Exec Source ℕ
  unfolding log_error
  forward_signal c sig grace = do
    note (logged info (forwarding sig))
    note (forwarded sig)
    (result, c') ← await (child.signal c sig)
    log_error forward_failed result
    wait_with_escalation c' grace

  -- The biased `select!` of a round: the child's exit, then a signal, then the tick.
  unfoldable pub watch_select : ℕ → Child → Exec Source WatchOutcome
  watch_select poll c s =
      elim (select_biased_three runtime (child.wait c s.now) (w.signals.next s.signals s.now)
        (sleep poll s.now)) [
          | none ↦ (pending, s)
          | some (t, inl (status, c')) ↦ (done (exited status), record s { now = t })
          | some (t, inr (inl (sig, rest))) ↦
              (done (signal sig), record s { now = t; signals = rest })
          | some (t, inr (inr _)) ↦ (done tick, record s { now = t })
        ]

  log_recovery : Option ℕ → Exec Source (Unit {0})
  log_recovery none = pure tt
  log_recovery (some _) = note (logged debug recovered)

  -- `child.terminate(config.grace).await?`, the drain and `return Ok(3)`.
  unfoldable pub kill_child : Child → ℕ → Exec Source ℕ
  kill_child c grace = do
    (result, c') ← call_terminate c grace
    elim result [ err e ↦ fail_with e | ok _ ↦ do reaped ← await (child.wait c'); pure 3 ]

  -- A failing evaluation: the last argument is `elapsed >= config.debounce`.
  unfoldable pub act_on_fail :
      SupervisorConfig → Child → String → ℕ → ℕ → Bool → Exec Source (Leave ⊎ Option ℕ)
  act_on_fail config c reason started elapsed true = do
    note (logged info (flipped reason (as_millis config.debounce) (as_millis elapsed)))
    code ← kill_child c config.grace
    pure (inl (return_with code))
  act_on_fail config c reason started elapsed false = do
    note (logged debug (within_debounce reason (as_millis config.debounce) (as_millis elapsed)))
    pure (inr (some started))

  -- The evaluation behind a tick: the loop is left, or goes on with this `fail_started_at`.
  unfoldable pub judge :
      SupervisorConfig → Option ℕ → Child → PredicateResult → Exec Source (Leave ⊎ Option ℕ)
  unfolding log_recovery
  judge config fail_started_at c pass = do log_recovery fail_started_at; pure (inr none)
  judge config fail_started_at c (fail reason) = do
    now ← get_now
    let started = started_at fail_started_at now
    let elapsed = now - started
    act_on_fail config c reason started elapsed (leb config.debounce elapsed)

  -- `predicate_set.evaluate(state.as_ref()).await`
  unfoldable pub call_evaluate : Supervisor w → Exec Source PredicateResult
  call_evaluate sup = do
    result ← await (evaluate sup.predicate_set sup.state)
    now ← get_now
    note (evaluated now result)
    pure result

  -- What a round does with the outcome of its `select!`.
  unfoldable pub handle_outcome :
      Supervisor w → Option ℕ → Child → WatchOutcome → Exec Source (Leave ⊎ Option ℕ)
  handle_outcome sup fail_started_at c (exited status) = pure (inl (break_with status))
  handle_outcome sup fail_started_at c (signal sig) = do
    code ← forward_signal c sig sup.config.grace
    pure (inl (return_with code))
  handle_outcome sup fail_started_at c tick = do
    result ← call_evaluate sup
    judge sup.config fail_started_at c result

  -- One round of the watcher loop.
  unfoldable pub watch_round : Supervisor w → Option ℕ → Child → Exec Source (Leave ⊎ Option ℕ)
  watch_round sup fail_started_at c = do
    outcome ← watch_select sup.config.poll c
    handle_outcome sup fail_started_at c outcome

  -- `loop { … }`, on fuel.
  unfoldable pub watch : ℕ → Supervisor w → Option ℕ → Child → Exec Source Leave
  watch zero sup fail_started_at c = out_of_fuel
  watch (suc fuel) sup fail_started_at c = do
    after ← watch_round sup fail_started_at c
    go_on (λ started. watch fuel sup started c) after

  -- The arms of the `select!` without a watcher; a wait that is dropped leaves the child alone.
  unfoldable pub after_wait :
      Supervisor w → Child → (ExitStatus × Child) ⊎ SignalKind → Exec Source Leave
  after_wait sup c (inl (status, c')) = pure (break_with status)
  after_wait sup c (inr sig) = do
    code ← forward_signal c sig sup.config.grace
    pure (return_with code)

  -- The path without a watcher.
  unfoldable pub simple_wait : Supervisor w → Child → Exec Source Leave
  simple_wait sup c = do first ← race runtime w.signals (child.wait c); after_wait sup c first

  -- `let status = if config.kill_on_change { … } else { … }`
  unfoldable pub attend : ℕ → Supervisor w → Child → Exec Source Leave
  attend fuel sup c = if sup.config.kill_on_change then watch fuel sup none c else simple_wait sup c

  -- The exit code for a child that ended by itself.
  unfoldable pub map_status : ExitStatus → Exec Source ℕ
  map_status status =
      if success status
      then pure 0
      else (do note (logged error (child_exited (code status))); pure 2)

  unfoldable pub leave_run : Leave → Exec Source ℕ
  leave_run (return_with code) = pure code
  leave_run (break_with status) = map_status status

  -- `spawner.spawn(cmd).await?`
  unfoldable pub call_spawn : Supervisor w → CommandSpec → Exec Source Child
  call_spawn sup cmd = do
    note (spawned cmd)
    (result, rest) ← await (spawner.spawn sup.spawner cmd)
    elim result [ err e ↦ fail_with e | ok c ↦ pure c ]

  -- What follows a pre-flight that passed.
  unfoldable pub supervise : ℕ → Supervisor w → CommandSpec → Exec Source ℕ
  supervise fuel sup cmd = do c ← call_spawn sup cmd; leave ← attend fuel sup c; leave_run leave

  unfoldable pub gate : ℕ → Supervisor w → CommandSpec → PredicateResult → Exec Source ℕ
  gate fuel sup cmd pass = supervise fuel sup cmd
  gate fuel sup cmd (fail reason) =
      if sup.config.strict
      then (do note (logged error (preflight_failed_strict reason)); pure 1)
      else (do note (logged info (preflight_failed reason)); pure 0)

  -- The arms of the pre-flight `select!`.
  unfoldable pub after_preflight :
      ℕ → Supervisor w → CommandSpec → PredicateResult ⊎ SignalKind → Exec Source ℕ
  after_preflight fuel sup cmd (inr sig) = do note (logged info (signal_in_preflight sig)); pure 0
  after_preflight fuel sup cmd (inl result) = do
    now ← get_now
    note (evaluated now result)
    gate fuel sup cmd result

  unfoldable pub run_task : ℕ → Supervisor w → CommandSpec → Exec Source ℕ
  run_task fuel sup cmd = do
    first ← race runtime w.signals (evaluate sup.predicate_set sup.state)
    after_preflight fuel sup cmd first

  -- `Supervisor::run`, started at an instant; the fuel bounds the rounds of the watcher loop.
  unfoldable pub run : ℕ → Supervisor w → CommandSpec → ℕ → Flow ℕ × Sys Source
  run fuel sup cmd now =
      run_task fuel sup cmd (record { now = now; selects = 0; signals = sup.signals; trace = [] })
