-- ===== src/Supervisor/Rounds.antt =====
-- One round of the watcher loop of src/supervisor.rs: its time and its fuel.
use condrun.Prelude.{
  ℕ, ◌+◌, ◌≤◌, ◌≡◌, refl, Bool, true, false, none, some, inl, inr, ◌⊎◌, ◌∷◌, arith,
}
use condrun.Async.{Async, Runtime, ready_by, select_biased_three, sleep}
use condrun.Async.Select.{IsPrompt, third_wins, three_woken}
use condrun.Signal.{SignalKind, Signals}
use condrun.Process.{ExitStatus}
use condrun.Predicate.{PredicateResult, evaluate}
use condrun.Supervisor.{Seams, Supervisor}
use condrun.Supervisor.Exec.{evaluated, Flow, done, failed, pending, spent, Sys, await, race}
use condrun.Supervisor.Run.{
  WatchOutcome, exited, signal, tick, wait_with_escalation, call_terminate, forward_signal,
  kill_child, watch_select, call_evaluate,
}
use condrun.Supervisor.Post.{Ends, Post}

abbrev pub is_spent : {A : Type 0} → Flow A → Bool
is_spent spent = true
is_spent _ = false

module _ {S A : Type 0} where
  pub unspent-Ends :
      (F : Bool → Sys S → Type 0) (Q : A → Sys S → Type 0) (r : Flow A) (s : Sys S)
      → is_spent r ≡ false
      → F false s
      → ((a : A) → Q a s)
      → Ends F Q r s
  unspent-Ends F Q (done a) s e f q = q a
  unspent-Ends F Q (failed x) s e f q = f
  unspent-Ends F Q pending s e f q = f
  unspent-Ends F Q spent s e f q = cc

  pub await-unspent : (future : ℕ → Async A) (s : Sys S) → is_spent (await future s).0 ≡ false
  unfolding await
  await-unspent future s = ground arith

  pub race-unspent :
      (rt : Runtime) (sg : Signals S) (future : ℕ → Async A) (s : Sys S)
      → is_spent (race rt sg future s).0 ≡ false
  unfolding race
  race-unspent rt sg future s = ground arith

module _ (w : Seams) where
  open w use {Child, Source, child, runtime}

  escalation-unspent :
      (c : Child) (grace : ℕ) (s : Sys Source)
      → is_spent (wait_with_escalation w c grace s).0 ≡ false
  unfolding wait_with_escalation call_terminate
  escalation-unspent c grace s = grind (arith, race-unspent, await-unspent)

  pub forward-unspent :
      (c : Child) (sig : SignalKind) (grace : ℕ) (s : Sys Source)
      → is_spent (forward_signal w c sig grace s).0 ≡ false
  unfolding forward_signal
  forward-unspent c sig grace s = grind (arith, escalation-unspent, await-unspent)

  pub kill-unspent :
      (c : Child) (grace : ℕ) (s : Sys Source) → is_spent (kill_child w c grace s).0 ≡ false
  unfolding kill_child call_terminate
  kill-unspent c grace s = grind (arith, await-unspent)

  -- After a tick the poll interval has passed, with at most `late` on top, and the child has not
  -- exited; the trace is as it was.
  abbrev pub Ticked : ℕ → ℕ → Child → Sys Source → WatchOutcome → Sys Source → Type 0
  Ticked late poll c s tick s' =
      (s.now + poll ≤ s'.now)
      × (s'.now ≤ s.now + poll + late)
      × (ready_by s'.now (child.wait c s.now) ≡ none)
      × (s'.trace ≡ s.trace)
  Ticked late poll c s (exited status) s' = s'.trace ≡ s.trace
  Ticked late poll c s (signal sig) s' = s'.trace ≡ s.trace

  pub watch_select-Post :
      (late poll : ℕ) (c : Child) (s : Sys Source) (F : Bool → Sys Source → Type 0)
      → IsPrompt runtime late
      → F false s
      → Post F (Ticked late poll c s) (watch_select w poll c s)
  unfolding watch_select
  watch_select-Post late poll c s F prompt f =
      go
        (select_biased_three runtime (child.wait c s.now) (w.signals.next s.signals s.now)
          (sleep poll s.now))
        refl
    where
      go :
          (o : Async ((ExitStatus × Child) ⊎ ((SignalKind × Source) ⊎ Unit {0})))
          → select_biased_three runtime
              (child.wait c s.now)
              (w.signals.next s.signals s.now)
              (sleep poll s.now)
            ≡ o
          → Post F (Ticked late poll c s) (watch_select w poll c s)
      go none q = rw (q, watch_select) f
      go (some (t, inl x)) q = rw (q, watch_select) refl
      go (some (t, inr (inl x))) q = rw (q, watch_select) refl
      go (some (t, inr (inr z))) q =
          let due = third_wins runtime _ _ (s.now + poll) t tt z q in
          let woken = three_woken runtime _ _ (s.now + poll) t tt (inr (inr z)) q in
          let soon = prompt.wakes_soon woken.0 in
          rw (q, watch_select) (due.0, omega arith, due.1, refl)

-- An evaluation that is there at once takes no time.
pub evaluate_at_once :
    (w : Seams) (sup : Supervisor w) (s : Sys w.Source) (r : PredicateResult)
    → evaluate sup.predicate_set sup.state s.now ≡ some (s.now, r)
    → call_evaluate w sup s ≡ (done r, record s { trace = evaluated s.now r ∷ s.trace })
unfolding call_evaluate await
evaluate_at_once w sup s r e = rw (e, await)
