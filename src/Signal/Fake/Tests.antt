-- ===== src/Signal/Fake/Tests.antt =====
-- The tests of src/signal/fake.rs, each as the test that its assertions make of the fake. A test
-- starts at 0.
use condrun.Prelude.{
  ℕ, ◌*◌, ◌≡◌, refl, Bool, true, false, not, ◌&&◌, none, some, [], ◌∷◌, every, leb,
}
use condrun.Async.{Async}
use condrun.Async.Awaited.{awaits}
use condrun.Signal.{SignalKind, interrupt, terminate}
use condrun.Signal.Fake.{new, inject, next}

abbrev same_kind : SignalKind → SignalKind → Bool
same_kind SignalKind.interrupt SignalKind.interrupt = true
same_kind SignalKind.terminate SignalKind.terminate = true
same_kind SignalKind.quit SignalKind.quit = true
same_kind SignalKind.hup SignalKind.hup = true
same_kind _ _ = false

abbrev inject_then_next_returns_injected_kind : Bool
inject_then_next_returns_injected_kind =
    awaits (next (inject 0 interrupt new) 0) λ t (got, s). same_kind got interrupt

abbrev inject_terminate_then_next_returns_terminate : Bool
inject_terminate_then_next_returns_terminate =
    awaits (next (inject 0 terminate new) 0) λ t (got, s). same_kind got terminate

abbrev next_returns_in_fifo_order : Bool
next_returns_in_fifo_order =
    awaits (next (inject 0 terminate (inject 0 interrupt new)) 0) λ t (got, s).
      same_kind got interrupt && awaits (next s t) λ u (got', s'). same_kind got' terminate

-- `waiter.is_finished()` at an instant.
abbrev is_finished : {A : Type 0} → Async A → ℕ → Bool
is_finished none now = false
is_finished (some (t, a)) now = leb t now

-- The waiter is polled by 60 s with the queue empty, and then the signal is injected.
abbrev next_blocks_until_inject : Bool
next_blocks_until_inject =
    let sixty = 60 * 1_000_000_000 in
    not (is_finished (next new 0) sixty)
    && awaits (next (inject sixty terminate new) 0)
        λ t (got, s). leb sixty t && same_kind got terminate

-- The signal is injected by a task that the test awaits, on a clone.
abbrev send_sync_compile : Bool
send_sync_compile = awaits (next (inject 0 interrupt new) 0) λ t (got, s). same_kind got interrupt

-- The tests of the source pass on the fake.
fake_signal_tests_pass :
    every (
      inject_then_next_returns_injected_kind ∷ inject_terminate_then_next_returns_terminate
      ∷ next_returns_in_fifo_order ∷ next_blocks_until_inject ∷ send_sync_compile ∷ [])
    ≡ true
unfolding next inject
fake_signal_tests_pass = refl
