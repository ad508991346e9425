-- ===== src/Supervisor/Interrupt.antt =====
-- A signal that is there at the pre-flight of src/supervisor.rs, and a spawn that fails. Told is about
-- the child that is told of the signal, Preflight about the run.
pub mod Told
pub mod Preflight
mod Examples
use condrun.Prelude.{
  ℕ, ◌+◌, ◌≤◌, ◌≡◌, refl, Bool, true, false, Option, none, some, inl, inr, List, [], ◌∷◌, arith,
  String, if◌then◌else◌,
}
use condrun.Async.{Async, Runtime, IsRuntime, err, ready_by, select, select_biased}
use condrun.Predicate.{PredicateResult, pass, fail, evaluate}
use condrun.Signal.{SignalKind, Signals}
use condrun.Process.{CommandSpec}
use condrun.Supervisor.{Seams, Supervisor}
use condrun.Supervisor.Exec.{
  Event, info, signal_in_preflight, logged, evaluated, spawned, forwarded, forwarding, Flow, done,
  failed, Sys, await, race,
}
use condrun.Supervisor.Run.{call_spawn, supervise, gate, after_preflight, run, run_task}
use condrun.Supervisor.Trace.{spawns}
use condrun.Supervisor.Clock.{Later}
use condrun.Supervisor.Ending.{race_alone}

-- The oldest four events of a trace, the latest of them first.
abbrev pub opening : List Event → List Event
opening (e ∷ a ∷ b ∷ c ∷ d ∷ es) = opening (a ∷ b ∷ c ∷ d ∷ es)
opening es = es

-- What comes of a signal that is there at the pre-flight: the draw is `true` where the predicates are
-- tried first, and the answer is what they have given by the poll, at `t`.
abbrev pub Answered :
    {S : Type 0}
    → SignalKind
    → CommandSpec
    → Bool
    → ℕ
    → Bool
    → Option PredicateResult
    → Flow ℕ × Sys S
    → Type 0
Answered kind cmd strict t true (some pass) r =
    opening r.1.trace
    ≡ forwarded kind ∷ logged info (forwarding kind) ∷ spawned cmd ∷ evaluated t pass ∷ []
Answered kind cmd strict t true (some (fail reason)) r =
    (r.0 ≡ done (if strict then 1 else 0)) × (spawns r.1.trace ≡ 0)
Answered kind cmd strict t _ _ r =
    (r.0 ≡ done 0) × (r.1.trace ≡ logged info (signal_in_preflight kind) ∷ [])

-- A signal that has come by `now` is there for each `next` that begins later, until one takes it.
abbrev pub Pending : {S : Type 0} → Signals S → S → ℕ → SignalKind → Type 0
Pending {S} sg source now kind =
    (u : ℕ) → now ≤ u → (rest : S) × (sg.next source u ≡ some (u, (kind, rest)))

-- Where the predicates pass at once, no signal comes before, and the spawner gives an error: the run
-- ends with that error, after one evaluation and one call of `spawn`.
pub run_unspawned :
    (w : Seams) (fuel : ℕ) (sup : Supervisor w) (cmd : CommandSpec) (now u : ℕ) (e : String)
    (rest : w.Launcher)
    → IsRuntime w.runtime
    → evaluate sup.predicate_set sup.state now ≡ some (now, pass)
    → w.signals.next sup.signals now ≡ none
    → w.spawner.spawn sup.spawner cmd (w.runtime.wakes now) ≡ some (u, (err e, rest))
    → ((run w fuel sup cmd now).0 ≡ failed e)
      × ((run w fuel sup cmd now).1.trace ≡ spawned cmd ∷ evaluated (w.runtime.wakes now) pass ∷ [])
unfolding run run_task after_preflight gate supervise call_spawn await
run_unspawned w fuel sup cmd now u e rest sane passes quiet broken =
    let start : Sys w.Source = record {
      now = now;
      selects = 0;
      signals = sup.signals;
      trace = [];
    } in
    rw
      (race_alone w.runtime w.signals (evaluate sup.predicate_set sup.state) start now pass sane
        quiet passes)
      (ground (arith, broken))

-- Where a signal comes and the future is not ready when the task is polled for it, the signal wins.
pub race_signal :
    {S A : Type 0} (rt : Runtime) (sg : Signals S) (future : ℕ → Async A) (s : Sys S) (t : ℕ)
    (kind : SignalKind) (rest : S)
    → IsRuntime rt
    → sg.next s.signals s.now ≡ some (t, (kind, rest))
    → ready_by (rt.wakes t) (future s.now) ≡ none
    → race rt sg future s
      ≡ (done (inr kind), record s { now = rt.wakes t; selects = s.selects + 1; signals = rest })
unfolding race select select_biased
race_signal {A = A} rt sg future s t kind rest sane e unready = go (future s.now) refl
  where
    go :
        (o : Async A)
        → future s.now ≡ o
        → race rt sg future s ≡ (
          done (inr kind),
          record s { now = rt.wakes t; selects = s.selects + 1; signals = rest },
        )
    go none q = ground (arith, e, q, sane.wakes_late t)
    go (some (u, a)) q = ground (arith, e, q, unready, sane.wakes_late t)

-- The draw for the predicates, where they are ready by the poll.
pub race_drawn :
    {S A : Type 0} (rt : Runtime) (sg : Signals S) (future : ℕ → Async A) (s : Sys S) (a : A)
    (kind : SignalKind) (rest : S)
    → IsRuntime rt
    → Later future
    → sg.next s.signals s.now ≡ some (s.now, (kind, rest))
    → ready_by (rt.wakes s.now) (future s.now) ≡ some a
    → rt.toss s.selects ≡ true
    → race rt sg future s
      ≡ (done (inl a), record s { now = rt.wakes s.now; selects = s.selects + 1 })
unfolding race select select_biased
race_drawn {A = A} rt sg future s a kind rest sane later e ready draw = go (future s.now) refl
  where
    go :
        (o : Async A)
        → future s.now ≡ o
        → race rt sg future s
          ≡ (done (inl a), record s { now = rt.wakes s.now; selects = s.selects + 1 })
    go none q = ground (arith, ready, q)
    go (some (u, b)) q = ground (arith, e, q, ready, draw, later s.now u b q)

-- The draw for the signals.
pub race_undrawn :
    {S A : Type 0} (rt : Runtime) (sg : Signals S) (future : ℕ → Async A) (s : Sys S)
    (kind : SignalKind) (rest : S)
    → IsRuntime rt
    → Later future
    → sg.next s.signals s.now ≡ some (s.now, (kind, rest))
    → rt.toss s.selects ≡ false
    → race rt sg future s ≡ (
      done (inr kind),
      record s { now = rt.wakes s.now; selects = s.selects + 1; signals = rest },
    )
unfolding race select select_biased
race_undrawn {A = A} rt sg future s kind rest sane later e draw = go (future s.now) refl
  where
    go :
        (o : Async A)
        → future s.now ≡ o
        → race rt sg future s ≡ (
          done (inr kind),
          record s { now = rt.wakes s.now; selects = s.selects + 1; signals = rest },
        )
    go none q = ground (arith, e, q, draw, sane.wakes_late s.now)
    go (some (u, b)) q = ground (arith, e, q, draw, later s.now u b q, sane.wakes_late s.now)
