-- ===== src/Signal/Real.antt =====
-- src/signal/real.rs: the race of the four streams that tokio makes of the signals of the process.
-- The streams are a parameter, and so is the arm at which each `select!` starts.
pub mod Takes
pub mod Resolves
use mathlib.Core.Path.{subst}
use condrun.Prelude.{
  ℕ, zero, suc, ◌+◌, ◌≤◌, ◌≡◌, inl, inr, refl, Bool-cases, Option-cases, Option, none, some, List,
  [], ◌∷◌, ◌++◌, leb, arith,
}
use condrun.Async.{Async, Runtime, Result, ok, err, when, earliest, ready_by}
use condrun.Signal.{SignalKind, Signals, interrupt, terminate}

-- `tokio::signal::unix`: `signal` installs a handler, `recv` waits for a signal of its stream.
pub record Streams : Type 1 where
  pub Stream : Type 0
  pub signal : SignalKind → Result Stream
  pub recv : Stream → ℕ → Async Stream

abbrev pub earliest_of {ℓ} : {A : Type ℓ} → List (Async A) → Option ℕ
earliest_of [] = none
earliest_of (a ∷ arms) = earliest (when a) (earliest_of arms)

abbrev pub first_of {ℓ} : {A : Type ℓ} → ℕ → List (Async A) → Async A
first_of p [] = none
first_of p (a ∷ arms) = elim (ready_by p a) [ some x ↦ some (p, x) | none ↦ first_of p arms ]

abbrev pub rotate {ℓ} : {A : Type ℓ} → ℕ → List A → List A
rotate zero arms = arms
rotate (suc n) [] = []
rotate (suc n) (a ∷ arms) = rotate n (arms ++ a ∷ [])

-- `select!` with any number of arms, tried from the arm `start` on and around.
unfoldable pub select_from {ℓ} : {A : Type ℓ} → Runtime → ℕ → List (Async A) → Async A
select_from rt start arms = elim (earliest_of arms) [
  | none ↦ none
  | some t ↦ first_of (rt.wakes t) (rotate start arms)
]

module _ (st : Streams) where
  open st use {Stream, signal, recv}

  pub record RealSignals : Type 0 where
    pub int : Stream
    pub term : Stream
    pub quit : Stream
    pub hup : Stream
    pub draws : ℕ

  abbrev and_then : {A B : Type 0} → Result A → (A → Result B) → Result B
  and_then (ok a) f = f a
  and_then (err e) f = err e

  -- `RealSignals::new`, the four handlers in their order.
  unfoldable pub new : Result RealSignals
  new = and_then (signal interrupt) λ int. and_then (signal terminate) λ term.
      and_then (signal SignalKind.quit) λ quit.
        and_then (signal SignalKind.hup)
          λ hup. ok (record { int = int; term = term; quit = quit; hup = hup; draws = 0 })

  abbrev pub arm :
      SignalKind → (Stream → RealSignals) → Async Stream → Async (SignalKind × RealSignals)
  arm kind put none = none
  arm kind put (some (t, stream)) = some (t, (kind, put stream))

  module _ (rt : Runtime) (starts : ℕ → ℕ) where
    abbrev pub arms : RealSignals → ℕ → List (Async (SignalKind × RealSignals))
    arms s now =
        let drawn : RealSignals = record s { draws = s.draws + 1 } in
        arm interrupt (λ x. record drawn { int = x }) (recv s.int now)
        ∷ arm terminate (λ x. record drawn { term = x }) (recv s.term now)
        ∷ arm SignalKind.quit (λ x. record drawn { quit = x }) (recv s.quit now)
        ∷ arm SignalKind.hup (λ x. record drawn { hup = x }) (recv s.hup now)
        ∷ []

    -- `Signals::next`
    unfoldable pub next : RealSignals → ℕ → Async (SignalKind × RealSignals)
    unfolding select_from
    next s now = select_from rt (starts s.draws) (arms s now)

    abbrev pub real_signals : Signals RealSignals
    real_signals = record { next = next }

    abbrev pub stream_of : SignalKind → RealSignals → Stream
    stream_of interrupt s = s.int
    stream_of terminate s = s.term
    stream_of SignalKind.quit s = s.quit
    stream_of SignalKind.hup s = s.hup
