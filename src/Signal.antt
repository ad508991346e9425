-- ===== src/Signal.antt =====
-- src/signal/mod.rs: the signals that condrun observes, and the trait of their sources.
pub mod Fake
pub mod Real
mod Tests
use condrun.Prelude.{ℕ, ◌≤◌, ◌≡◌, some}
use condrun.Async.{Async}

pub data SignalKind : Type 0 where
  interrupt terminate quit hup : SignalKind

-- `Signals`: `next` takes the source and the instant of the call, and resolves to a signal and the
-- source without it. A call that is dropped before it resolves leaves the source as it was.
pub record Signals (S : Type 0) : Type 0 where
  pub next : S → ℕ → Async (SignalKind × S)

-- A signal arrives no earlier than it is waited for.
pub record IsSignals {S : Type 0} (sg : Signals S) : Type 0 where
  pub next_later :
      (s s' : S) (now t : ℕ) (k : SignalKind) → sg.next s now ≡ some (t, (k, s')) → now ≤ t
