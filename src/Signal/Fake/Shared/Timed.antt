-- ===== src/Signal/Fake/Shared/Timed.antt =====
-- src/signal/fake.rs: the shared queue and the fake whose signals come at given instants.
use condrun.Prelude.{ℕ, ◌≡◌, refl, some, map, List, [], ◌∷◌, arith}
use condrun.Signal.{SignalKind}
use condrun.Signal.Fake.{FakeSignals, next}
use condrun.Signal.Fake.Shared.{Notify, checking, Shared, look, go_on, next_step}
use condrun.Signal.Fake.Shared.Wakeups.{HasReturned}

-- The kinds of the signals of a queue with their instants.
abbrev kinds_of : List (ℕ × SignalKind) → List SignalKind
kinds_of = map (λ arrival. arrival.1)

-- Where `next` of the fake gives a signal, a look at the shared queue of the same signals returns it
-- too, and leaves what that leaves.
pub look-next :
    (nt : Notify) (arrivals : List (ℕ × SignalKind)) (now t : ℕ) (k : SignalKind) (f : FakeSignals)
    (s : Shared nt)
    → next (record { queue = arrivals }) now ≡ some (t, (k, f))
    → s.place ≡ checking
    → s.queue ≡ kinds_of arrivals
    → HasReturned nt k (kinds_of f.queue) s (next_step nt s)
unfolding next_step go_on look next
look-next nt [] now t k f s e p q = cc
look-next nt ((u, kind) ∷ rest) now t k f s e p q =
    let (k_same, f_same) : (k ≡ kind) × (f ≡ record { queue = rest }) = ground (arith, e) in
    rw (p, q, k_same, f_same) (record { place = refl; received = refl; queue = refl })
