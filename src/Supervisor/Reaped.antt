-- ===== src/Supervisor/Reaped.antt =====
-- src/supervisor.rs: the end of the child, and what the exit code tells of it.
pub mod Runs
pub mod Codes
use condrun.Prelude.{
  ℕ, ◌≤◌, ◌≡◌, refl, ap, ◌∙◌, sym, ◌⊎◌, inl, inr, Bool, Bool-cases, true, false, Option, none, some,
  String, List, [], ◌∷◌, arith, if◌then◌else◌,
}
use condrun.Async.{Async, Runtime, Result, ok, err, select, ready_by}
use condrun.Async.Select.{select_first}
use condrun.Predicate.{PredicateResult, pass, fail}
use condrun.Process.{CommandSpec, ExitStatus, success}
use condrun.Signal.{SignalKind, Signals}
use condrun.Supervisor.{Seams, Supervisor}
use condrun.Supervisor.Exec.{
  Message, escalation_failed, forward_failed, Flow, done, failed, pending, spent, Sys, pure, ◌>>=◌,
  ◌>>◌, await, race,
}
use condrun.Supervisor.Run.{
  Leave, break_with, return_with, WatchOutcome, exited, signal, tick, wait_with_escalation,
  forward_signal, call_terminate, kill_child, log_error,
}
use condrun.Supervisor.Post.{Ends, Post, bind-Post, weaken-Ends}
use condrun.Supervisor.Loop.{watch_loop, Continues}
use condrun.Supervisor.Meanings.Leaves.{Whatever, any_end}
use condrun.Supervisor.TraceLoop.{await_value}

-- The future of this call has resolved with this value by now.
abbrev pub Resolved : {A S : Type 0} → Async A → A → Sys S → Type 0
Resolved future a s = (t : ℕ) × (future ≡ some (t, a)) × (t ≤ s.now)

pub ready-Resolved :
    {A S : Type 0} (future : Async A) (a : A) (s : Sys S)
    → ready_by s.now future ≡ some a
    → Resolved future a s
ready-Resolved none a s e = cc
ready-Resolved (some (t, x)) a s e = (t, ground (arith, e), ground (arith, e))

pub race_arm :
    {A S : Type 0} (rt : Runtime) (sg : Signals S) (future : ℕ → Async A) (s : Sys S)
    → Post Whatever
        (λ first s'. (a : A) → first ≡ inl a → Resolved (future s.now) a s')
        (race rt sg future s)
unfolding race
race_arm {A} {S} rt sg future s =
    go (select rt s.selects (future s.now) (sg.next s.signals s.now)) refl
  where
    go :
        (o : Async (A ⊎ (SignalKind × S)))
        → select rt s.selects (future s.now) (sg.next s.signals s.now) ≡ o
        → Post Whatever
            (λ first s'. (a : A) → first ≡ inl a → Resolved (future s.now) a s')
            (race rt sg future s)
    go none q = rw (q, race) tt
    go (some (t, inl x)) q =
        rw (q, race)
          (λ a e.
            let same : x ≡ a = cc in
            ready-Resolved (future s.now) a (record s { now = t })
              (select_first rt s.selects (future s.now) (sg.next s.signals s.now) t x q
                ∙ ap some same))
    go (some (t, inr (k, rest))) q = rw (q, race) (λ a e. cc)

-- What holds of the value and the end of a future holds after its `await`.
pub awaits-Post :
    {A S : Type 0} (future : ℕ → Async A) (s : Sys S) (Q : A → Sys S → Type 0)
    → ((a : A) (s' : Sys S) → future s.now ≡ some (s'.now, a) → Q a s')
    → Post Whatever Q (await future s)
awaits-Post future s Q h =
    weaken-Ends Whatever (λ a s'. (future s.now ≡ some (s'.now, a)) × (s'.trace ≡ s.trace)) Q
      (λ a s' p. h a s' p.0) _ _ (await_value Whatever future s tt)

module _ (w : Seams) (c0 : w.Child) where
  open w use {Child, Source, child, runtime, signals}

  -- The handle of this child after calls of `signal` and `terminate`.
  pub data Handled : Child → Type 0 where
    untouched : Handled c0
    signalled :
        {c c' : Child} {r : Result (Unit {0})} (kind : SignalKind) (t u : ℕ)
        → Handled c
        → child.signal c kind t ≡ some (u, (r, c'))
        → Handled c'
    terminated :
        {c c' : Child} {r : Result (Unit {0})} (grace t u : ℕ)
        → Handled c
        → child.terminate c grace t ≡ some (u, (r, c'))
        → Handled c'

  -- A `wait` on the handle of this child has given a status by this instant.
  pub record Reaped (now : ℕ) : Type 0 where
    pub handle : Child
    pub handled : Handled handle
    pub asked : ℕ
    pub ended : ℕ
    pub status : ExitStatus
    pub left : Child
    pub waited : child.wait handle asked ≡ some (ended, (status, left))
    pub in_time : ended ≤ now

  abbrev pub Told : ℕ → Sys Source → Type 0
  Told exit_code s =
      (r : Reaped s.now) × ((exit_code ≡ 3) ⊎ (exit_code ≡ (if success r.status then 0 else 2)))

  unfoldable pub reaped :
      {c c' : Child} {status : ExitStatus} {asked ended now : ℕ}
      → Handled c
      → child.wait c asked ≡ some (ended, (status, c'))
      → ended ≤ now
      → Reaped now
  reaped {c} {c'} {status} {asked} {ended} h e le = record {
    handle = c;
    handled = h;
    asked = asked;
    ended = ended;
    status = status;
    left = c';
    waited = e;
    in_time = le;
  }

  terminates :
      (c : Child) (grace : ℕ) (s : Sys Source)
      → Handled c
      → Post Whatever (λ rc s'. Handled rc.1) (call_terminate w c grace s)
  unfolding call_terminate
  terminates c grace s h =
      awaits-Post (child.terminate c grace) _ (λ rc s'. Handled rc.1)
        (λ (r, c') u e. terminated grace _ _ h e)

  waits :
      (c : Child) (s : Sys Source)
      → Handled c
      → Post Whatever (λ sc s'. Reaped s'.now) (await (child.wait c) s)
  waits c s h =
      awaits-Post (child.wait c) s (λ sc s'. Reaped s'.now)
        (λ (status, c') u e. reaped h e (omega arith))

  -- The end of an escalation, where `terminate` has returned.
  drains :
      (message : String → Message) (rc : Result (Unit {0}) × Child) (s : Sys Source)
      → Handled rc.1
      → Post Whatever Told
          ((log_error w message rc.0 >> (await (child.wait rc.1) >>= λ reaped'. pure 3)) s)
  drains message (result, c) s h =
      bind-Post Whatever (λ _ _. Unit {0}) Told (log_error w message result) _ s (any_end _)
        (λ u s' i.
          bind-Post Whatever (λ _ s''. Reaped s''.now) Told (await (child.wait c)) _ s'
            (waits c s' h) (λ sc s'' r. (r, inl refl)))

  escalates :
      (c : Child) (grace : ℕ) (s : Sys Source)
      → Handled c
      → Post Whatever Told (wait_with_escalation w c grace s)
  unfolding wait_with_escalation reaped
  escalates c grace s h = go (race runtime signals (child.wait c) s).0 refl
    where
      go :
          (o : Flow ((ExitStatus × Child) ⊎ SignalKind))
          → (race runtime signals (child.wait c) s).0 ≡ o
          → Post Whatever Told (wait_with_escalation w c grace s)
      go (done (inl (status, c'))) e =
          let arm = rw e at (race_arm runtime signals (child.wait c) s) in
          let (t, q, le) = arm (status, c') refl in rw e (reaped h q le, inr refl)
      go (done (inr sig2)) e = rw e (
          bind-Post Whatever (λ rc s'. Handled rc.1) Told (call_terminate w c grace) _ _
            (terminates c grace _ h) (drains escalation_failed))
      go (failed m) e = rw e tt
      go pending e = rw e tt
      go spent e = rw e tt

  pub forwards-Told :
      (c : Child) (sig : SignalKind) (grace : ℕ) (s : Sys Source)
      → Handled c
      → Post Whatever Told (forward_signal w c sig grace s)
  unfolding forward_signal
  forwards-Told c sig grace s h =
      bind-Post Whatever (λ rc s'. Handled rc.1) Told (await (child.signal c sig)) _ _
        (awaits-Post (child.signal c sig) _ (λ rc s'. Handled rc.1)
          (λ (r, c') u e. signalled sig _ _ h e))
        (λ rc s' h'.
          bind-Post Whatever (λ _ _. Unit {0}) Told (log_error w forward_failed rc.0) _ s'
            (any_end _) (λ u s'' i. escalates rc.1 grace s'' h'))

  pub kills-Told :
      (c : Child) (grace : ℕ) (s : Sys Source)
      → Handled c
      → Post Whatever Told (kill_child w c grace s)
  unfolding kill_child
  kills-Told c grace s h = go (call_terminate w c grace s).0 refl
    where
      go :
          (o : Flow (Result (Unit {0}) × Child))
          → (call_terminate w c grace s).0 ≡ o
          → Post Whatever Told (kill_child w c grace s)
      go (done (ok u, c')) e =
          let h' : Handled c' = rw e at (terminates c grace s h) in
          rw e (
            bind-Post Whatever (λ _ s'. Reaped s'.now) Told (await (child.wait c')) _ _
              (waits c' _ h') (λ sc s' r. (r, inl refl)))
      go (done (err m, c')) e = rw e tt
      go (failed m) e = rw e tt
      go pending e = rw e tt
      go spent e = rw e tt
