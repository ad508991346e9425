-- ===== src/Signal/Fake/Queue.antt =====
-- The order of the injected signals of src/signal/fake.rs.
use condrun.Prelude.{
  ℕ, zero, suc, ◌≤◌, ◌≡◌, refl, none, some, List, [], ◌∷◌, ◌++◌, arith, length, append-nil,
  append_assoc,
}
use condrun.Async.{Async}
use condrun.Signal.{SignalKind}
use condrun.Signal.Fake.{FakeSignals, new, inject, next}

-- Several calls of `inject` at one instant.
abbrev pub inject_all : ℕ → List SignalKind → FakeSignals → FakeSignals
inject_all t [] s = s
inject_all t (kind ∷ kinds) s = inject_all t kinds (inject t kind s)

-- Several calls of `next`, one after the other.
abbrev pub receive : ℕ → FakeSignals → ℕ → Async (List SignalKind × FakeSignals)
receive zero s now = some (now, ([], s))
receive (suc n) s now = elim (next s now) [
  | none ↦ none
  | some (t, (kind, rest)) ↦ elim (receive n rest t) [
    | none ↦ none
    | some (u, (kinds, last)) ↦ some (u, (kind ∷ kinds, last))
  ]
]

abbrev arrivals : ℕ → List SignalKind → List (ℕ × SignalKind)
arrivals t [] = []
arrivals t (kind ∷ kinds) = (t, kind) ∷ arrivals t kinds

inject_all_lem :
    (t : ℕ) (kinds : List SignalKind) (s : FakeSignals)
    → inject_all t kinds s ≡ record { queue = s.queue ++ arrivals t kinds }
unfolding inject
inject_all_lem t [] s = rw (append-nil s.queue) refl
inject_all_lem t (kind ∷ kinds) s =
    rw (inject_all_lem t kinds (inject t kind s)) (rw append_assoc refl)

receive-arrivals :
    (t now : ℕ) (kinds : List SignalKind) (later : List (ℕ × SignalKind))
    → t ≤ now
    → receive (length kinds) (record { queue = arrivals t kinds ++ later }) now
      ≡ some (now, (kinds, record { queue = later }))
unfolding next
receive-arrivals t now [] later h = refl
receive-arrivals t now (kind ∷ kinds) later h =
    let rest = receive-arrivals t now kinds later h in ground (arith, h, rest)

-- Signals are received in the order in which they were injected: so many calls of `next` as there
-- were injections give their signals, at once, and leave those that were injected later.
pub receive-inject_all :
    (t u now : ℕ) (kinds more : List SignalKind)
    → t ≤ now
    → receive (length kinds) (inject_all u more (inject_all t kinds new)) now
      ≡ some (now, (kinds, inject_all u more new))
receive-inject_all t u now kinds more h =
    rw (inject_all_lem t kinds new, inject_all_lem u more new, inject_all_lem u more)
      (receive-arrivals t now kinds (arrivals u more) h)
