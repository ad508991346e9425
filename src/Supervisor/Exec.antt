-- ===== src/Supervisor/Exec.antt =====
-- What a task of the supervisor does while it runs: the clock, the source of signals, the number of
-- unbiased `select!`s so far, and the trace of the calls that it makes and the lines that it logs.
use condrun.Prelude.{ℕ, ◌+◌, String, Option, none, some, ◌⊎◌, inl, inr, List, ◌∷◌}
use condrun.Async.{Async, Runtime, select}
use condrun.Predicate.{PredicateResult}
use condrun.Signal.{SignalKind, Signals}
use condrun.Process.{CommandSpec}

pub data Level : Type 0 where
  debug info error : Level

-- The log lines, by what they print. An exit code that is `none` is printed as -1.
pub data Message : Type 0 where
  signal_in_preflight forwarding escalating : SignalKind → Message
  preflight_failed_strict preflight_failed forward_failed escalation_failed : String → Message
  recovered : Message
  flipped within_debounce : String → ℕ → ℕ → Message
  child_exited : Option ℕ → Message

pub data Event : Type 0 where
  evaluated : ℕ → PredicateResult → Event
  spawned : CommandSpec → Event
  forwarded : SignalKind → Event
  terminated : ℕ → Event
  logged : Level → Message → Event

-- The trace has the latest event first.
pub record Sys (S : Type 0) : Type 0 where
  pub now : ℕ
  pub selects : ℕ
  pub signals : S
  pub trace : List Event

-- A task ends with a value or an error, or waits for ever; `spent` is a loop without fuel.
pub data Flow (A : Type 0) : Type 0 where
  done : A → Flow A
  failed : String → Flow A
  pending spent : Flow A

abbrev pub Exec : Type 0 → Type 0 → Type 0
Exec S A = Sys S → Flow A × Sys S

abbrev pub pure : {S A : Type 0} → A → Exec S A
pure a s = (done a, s)

abbrev pub fail_with : {S A : Type 0} → String → Exec S A
fail_with e s = (failed e, s)

abbrev pub out_of_fuel : {S A : Type 0} → Exec S A
out_of_fuel s = (spent, s)

abbrev pub then_run : {S A B : Type 0} → (A → Exec S B) → Flow A → Sys S → Flow B × Sys S
then_run f (done a) s = f a s
then_run f (failed e) s = (failed e, s)
then_run f pending s = (pending, s)
then_run f spent s = (spent, s)

infixl 5 ◌>>=◌ ◌>>◌
abbrev pub ◌>>=◌ : {S A B : Type 0} → Exec S A → (A → Exec S B) → Exec S B
◌>>=◌ m f s = then_run f (m s).0 (m s).1

abbrev pub ◌>>◌ : {S B : Type 0} → Exec S (Unit {0}) → Exec S B → Exec S B
m >> k = m >>= λ _. k

abbrev pub note : {S : Type 0} → Event → Exec S (Unit {0})
note e s = (done tt, record s { trace = e ∷ s.trace })

-- `Instant::now()`
abbrev pub get_now : {S : Type 0} → Exec S ℕ
get_now s = (done s.now, s)

-- `future.await`, for a future that the instant of its start makes.
unfoldable pub await : {S A : Type 0} → (ℕ → Async A) → Exec S A
await future s = elim (future s.now) [
  | none ↦ (pending, s)
  | some (t, a) ↦ (done a, record s { now = t })
]

-- `select!` between a future and `signals.next()`.
unfoldable pub race : {S A : Type 0} → Runtime → Signals S → (ℕ → Async A) → Exec S (A ⊎ SignalKind)
race rt sg future s = elim (select rt s.selects (future s.now) (sg.next s.signals s.now)) [
  | none ↦ (pending, s)
  | some (t, inl a) ↦ (done (inl a), record s { now = t; selects = s.selects + 1 })
  | some (t, inr (kind, rest)) ↦
      (done (inr kind), record s { now = t; selects = s.selects + 1; signals = rest })
]
