-- ===== src/Supervisor/Kill.antt =====
-- The end of the watcher loop of src/supervisor.rs where no signal comes.
use condrun.Prelude.{
  ℕ, ◌+◌, ◌*◌, ◌≤◌, ◌<◌, ◌≡◌, ◌≢◌, refl, Bool, true, false, Option, none, some, ◌⊎◌, inl, inr, List,
  [], ◌∷◌, arith, String,
}
use condrun.Async.{Async, IsRuntime, ok, select_biased_three, sleep}
use condrun.Async.Select.{IsPrompt, three_woken, three_resolve, second_wins}
use condrun.Predicate.{PredicateResult, pass, fail, evaluate}
use condrun.Signal.{SignalKind}
use condrun.Process.{ExitStatus}
use condrun.Supervisor.{Seams, Supervisor}
use condrun.Supervisor.Exec.{Event, evaluated, Flow, done, failed, pending, spent, Sys, await}
use condrun.Supervisor.Run.{
  Leave, WatchOutcome, exited, signal, tick, started_at, handle_outcome, kill_child, act_on_fail,
  judge, watch_select, watch_round, watch, call_terminate,
}
use condrun.Supervisor.Post.{Ends, Post, bind-Post}
use condrun.Supervisor.Loop.{watch_loop, Continues}
use condrun.Supervisor.Rounds.{evaluate_at_once}
use condrun.Supervisor.Latency.{TurnsBad, deadline, polled_by, watch-deadline}

-- `terminate` ends without an error and leaves a child that can be waited for, each within `slack`
-- of what it asks for.
pub record Killable (w : Seams) (grace slack : ℕ) : Type 0 where
  pub dies :
      (c : w.Child) (now : ℕ)
      → (t u : ℕ) × (status : ExitStatus) × (c' c'' : w.Child) × (w.child.terminate c grace now
          ≡ some (t, (ok tt, c')))
        × (t ≤ now + grace + slack)
        × (w.child.wait c' t ≡ some (u, (status, c'')))
        × (u ≤ t + slack)

-- No signal ever comes.
abbrev pub Quiet : Seams → Type 0
Quiet w = (s : w.Source) (t : ℕ) → w.signals.next s t ≡ none

-- The instant of the latest evaluation, `entry` where there is none.
abbrev pub last_poll : ℕ → List Event → ℕ
last_poll entry [] = entry
last_poll entry (evaluated t r ∷ es) = t
last_poll entry (_ ∷ es) = last_poll entry es

last_poll-le :
    (entry bound : ℕ) (es : List Event)
    → entry ≤ bound
    → polled_by bound es ≡ true
    → last_poll entry es ≤ bound
last_poll-le entry bound [] h p = h
last_poll-le entry bound (evaluated t r ∷ es) h p = ground arith
last_poll-le entry bound (e ∷ es) h p = ground (arith, last_poll-le entry bound es h)

-- An end with a value: never an error, and never stuck.
abbrev pub Reached : {S : Type 0} → Bool → Sys S → Type 0
Reached true s = Unit
Reached false s = ⊥

module _ (w : Seams) (late : ℕ) (sane : IsRuntime w.runtime) (prompt : IsPrompt w.runtime late)
    (quiet : Quiet w) where
  open w use {Child, Source, child, runtime}

  abbrev pub Settled : ℕ → Sys Source → WatchOutcome → Sys Source → Type 0
  Settled poll s (signal sig) s' = ⊥
  Settled poll s _ s' = (s'.now ≤ s.now + poll + late) × (s'.trace ≡ s.trace)

  pub select-Settled :
      (poll : ℕ) (c : Child) (s : Sys Source)
      → Post Reached (Settled poll s) (watch_select w poll c s)
  unfolding watch_select
  select-Settled poll c s =
      go
        (select_biased_three runtime (child.wait c s.now) (w.signals.next s.signals s.now)
          (sleep poll s.now))
        refl
    where
      go :
          (o : Async ((ExitStatus × Child) ⊎ ((SignalKind × Source) ⊎ Unit {0})))
          → select_biased_three runtime
              (child.wait c s.now)
              (w.signals.next s.signals s.now)
              (sleep poll s.now)
            ≡ o
          → Post Reached (Settled poll s) (watch_select w poll c s)
      go none q = absurd (three_resolve runtime sane _ _ (s.now + poll) tt q)
      go (some (t, inl x)) q =
          let woken = three_woken runtime _ _ (s.now + poll) t tt (inl x) q in
          let soon = prompt.wakes_soon woken.0 in rw (q, watch_select) (omega arith, refl)
      go (some (t, inr (inl x))) q =
          absurd (cc (second_wins runtime _ _ (s.now + poll) t tt x q, quiet s.signals s.now))
      go (some (t, inr (inr z))) q =
          let woken = three_woken runtime _ _ (s.now + poll) t tt (inr (inr z)) q in
          let soon = prompt.wakes_soon woken.0 in rw (q, watch_select) (omega arith, refl)

module _ (w : Seams) (grace slack : ℕ) (killable : Killable w grace slack) (entry : ℕ) where
  open w use {Child, Source}

  -- The child is gone soon after the instant `t` of a poll.
  abbrev Gone : ℕ → ℕ → Sys Source → Type 0
  Gone t code s = (s.now ≤ t + grace + 2 * slack) × (last_poll entry s.trace ≡ t)

  kill-Gone :
      (c : Child) (s : Sys Source)
      → last_poll entry s.trace ≡ s.now
      → Post Reached (Gone s.now) (kill_child w c grace s)
  unfolding kill_child call_terminate await
  kill-Gone c s h =
      let (t, u, status, c', c'', e, early, f, soon) = killable.dies c s.now in ground arith

module _ (w : Seams) (sup : Supervisor w) (late slack entry : ℕ) (sane : IsRuntime w.runtime)
    (prompt : IsPrompt w.runtime late) (quiet : Quiet w)
    (killable : Killable w sup.config.grace slack) (result : ℕ → PredicateResult)
    (at_once : (t : ℕ) → evaluate sup.predicate_set sup.state t ≡ some (t, result t)) where
  open w use {Child, Source}

  -- How long after the latest poll the loop may end.
  abbrev lag : ℕ
  lag = sup.config.poll + late + sup.config.grace + 3 * slack

  abbrev Fresh : Option ℕ → Sys Source → Type 0
  Fresh started s = s.now ≤ last_poll entry s.trace + slack

  abbrev Left : Leave → Sys Source → Type 0
  Left leave s = s.now ≤ last_poll entry s.trace + lag

  act-Left :
      (c : Child) (reason : String) (started elapsed : ℕ) (b : Bool) (s : Sys Source)
      → last_poll entry s.trace ≡ s.now
      → Post Reached (Continues Fresh Left) (act_on_fail w sup.config c reason started elapsed b s)
  unfolding act_on_fail
  act-Left c reason started elapsed true s e =
      bind-Post Reached (Gone w sup.config.grace slack killable entry s.now) (Continues Fresh Left)
        (kill_child w c sup.config.grace) _ _
        (kill-Gone w sup.config.grace slack killable entry c _ e) (λ code s' q. omega arith)
  act-Left c reason started elapsed false s e = omega arith

  judge-Left :
      (started : Option ℕ) (c : Child) (r : PredicateResult) (s : Sys Source)
      → last_poll entry s.trace ≡ s.now
      → Post Reached (Continues Fresh Left) (judge w sup.config started c r s)
  unfolding judge
  judge-Left none c pass s e = omega arith
  judge-Left (some f) c pass s e = omega arith
  judge-Left started c (fail reason) s e = act-Left c reason (started_at started s.now) _ _ s e

  handle-Left :
      (started : Option ℕ) (c : Child) (s : Sys Source)
      → Fresh started s
      → (outcome : WatchOutcome) (s' : Sys Source)
      → Settled w late sane prompt quiet sup.config.poll s outcome s'
      → Post Reached (Continues Fresh Left) (handle_outcome w sup started c outcome s')
  unfolding handle_outcome
  handle-Left started c s h (exited status) s' t = rw t.1 (omega arith)
  handle-Left started c s h (signal sig) s' t = absurd t
  handle-Left started c s h tick s' t =
      rw (evaluate_at_once w sup s' (result s'.now) (at_once s'.now)) (
        judge-Left started c _ (record s' { trace = evaluated s'.now (result s'.now) ∷ s'.trace })
          refl)

  round-Left :
      (started : Option ℕ) (c : Child) (s : Sys Source)
      → Fresh started s
      → Post Reached (Continues Fresh Left) (watch_round w sup started c s)
  unfolding watch_round
  round-Left started c s h =
      bind-Post Reached (Settled w late sane prompt quiet sup.config.poll s) (Continues Fresh Left)
        (watch_select w sup.config.poll c) _ s
        (select-Settled w late sane prompt quiet sup.config.poll c s) (handle-Left started c s h)

  watch-Left :
      (fuel : ℕ) (c : Child) (s : Sys Source)
      → s.now ≤ last_poll entry s.trace + slack
      → Post Reached Left (watch w fuel sup none c s)
  watch-Left fuel c s h =
      watch_loop w sup c Reached (λ _. Fresh) Left (λ _ _ _. tt)
        (λ _ started s' i. round-Left started c s' i) fuel none s h

value_of :
    {S A : Type 0} (Q : A → Sys S → Type 0) (r : Flow A) (s : Sys S)
    → Ends Reached Q r s
    → r ≢ spent
    → (a : A) × (r ≡ done a) × Q a s
value_of Q (done a) s h ne = (a, refl, h)
value_of Q (failed e) s h ne = absurd h
value_of Q pending s h ne = absurd h
value_of Q spent s h ne = absurd (ne refl)

-- Where the predicates are read at once and fail from `turn` on, no signal comes, and a child that
-- is terminated dies: a watcher loop that is entered by `turn`, at most `slack` after an evaluation,
-- ends with a status or a code, at the latest one poll, the grace and the delays of the runtime and
-- of the system after its last possible poll at `turn + debounce + 2 * (poll + late)`.
pub watch_kills :
    (w : Seams) (sup : Supervisor w) (turn late slack fuel : ℕ) (c : w.Child) (s : Sys w.Source)
    → TurnsBad w sup turn
    → 0 < sup.config.poll
    → IsRuntime w.runtime
    → IsPrompt w.runtime late
    → Quiet w
    → Killable w sup.config.grace slack
    → s.now ≤ turn
    → deadline turn late sup.config < s.now + fuel
    → polled_by (deadline turn late sup.config) s.trace ≡ true
    → s.now ≤ last_poll s.now s.trace + slack
    → (leave : Leave) × ((watch w fuel sup none c s).0 ≡ done leave)
      × ((watch w fuel sup none c s).1.now
          ≤ deadline turn late sup.config + sup.config.poll + late + sup.config.grace + 3 * slack)
watch_kills w sup turn late slack fuel c s bad pos sane prompt quiet killable before room h fresh =
    let (ends, polls) = watch-deadline w sup turn late fuel c s bad pos prompt before room h in
    let (leave, e, by) =
      value_of (Left w sup late slack s.now sane prompt quiet killable bad.result bad.at_once)
        (watch w fuel sup none c s).0 (watch w fuel sup none c s).1
        (watch-Left w sup late slack s.now sane prompt quiet killable bad.result bad.at_once fuel c
          s fresh)
        ends in
    let last =
      last_poll-le s.now (deadline turn late sup.config) (watch w fuel sup none c s).1.trace
        (omega arith) polls in
    (leave, e, omega arith)
