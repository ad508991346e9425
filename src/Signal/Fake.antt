-- ===== src/Signal/Fake.antt =====
-- src/signal/fake.rs: a queue of signals, each injected at some instant.
pub mod Queue
pub mod Shared
mod Tests
use condrun.Prelude.{ℕ, none, some, List, [], ◌∷◌, ◌++◌, leb, if◌then◌else◌}
use condrun.Async.{Async}
use condrun.Signal.{SignalKind, Signals}

-- The queue, with the instant of each `inject`, in their order.
pub record FakeSignals : Type 0 where
  pub queue : List (ℕ × SignalKind)

abbrev pub new : FakeSignals
new = record { queue = [] }

unfoldable pub inject : ℕ → SignalKind → FakeSignals → FakeSignals
inject t kind s = record { queue = s.queue ++ (t, kind) ∷ [] }

-- The head of the queue, when it is there; `next` waits for the notification of its `inject`.
unfoldable pub next : FakeSignals → ℕ → Async (SignalKind × FakeSignals)
next s now = elim s.queue [
  | [] ↦ none
  | (t, kind) ∷ rest ↦ some (if leb t now then now else t, (kind, record { queue = rest }))
]

instance abbrev pub fake_signals : Signals FakeSignals
fake_signals = record { next = next }
