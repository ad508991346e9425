-- ===== src/Supervisor/Latency.antt =====
-- How soon the watcher loop acts on a network that has turned bad.
use condrun.Prelude.{
  ℕ, suc, ◌+◌, ◌-◌, ◌*◌, ◌≤◌, ◌<◌, ◌≡◌, ◌≢◌, refl, ◌∙◌, String, Bool, true, false, ◌&&◌, Option,
  none, some, ◌⊎◌, List, [], ◌∷◌, arith, leb,
}
use native.Mathlib.Decide.{dec_le}
use condrun.Async.Select.{IsPrompt}
use condrun.Predicate.{PredicateResult, pass, fail, evaluate}
use condrun.Signal.{SignalKind}
use condrun.Supervisor.{Seams, SupervisorConfig, Supervisor}
use condrun.Supervisor.Exec.{Event, evaluated, Flow, done, failed, pending, spent, Sys}
use condrun.Supervisor.Run.{
  Leave, WatchOutcome, exited, signal, tick, started_at, handle_outcome, wait_with_escalation,
  forward_signal, kill_child, act_on_fail, judge, watch_select, watch_round, watch, call_terminate,
}
use condrun.Supervisor.Post.{Ends, Post, bind-Post}
use condrun.Supervisor.Loop.{watch_loop, Continues}
use condrun.Supervisor.Trace.{await-trace, race-trace}
use condrun.Supervisor.Rounds.{
  unspent-Ends, forward-unspent, kill-unspent, Ticked, watch_select-Post, evaluate_at_once,
}

-- No evaluation of the trace was after `bound`.
abbrev pub polled_by : ℕ → List Event → Bool
polled_by bound [] = true
polled_by bound (evaluated t r ∷ es) = leb t bound && polled_by bound es
polled_by bound (_ ∷ es) = polled_by bound es

module _ (w : Seams) (bound : ℕ) where
  open w use {Child, Source}

  escalation-polled :
      (c : Child) (grace : ℕ) (s : Sys Source)
      → polled_by bound (wait_with_escalation w c grace s).1.trace ≡ polled_by bound s.trace
  unfolding wait_with_escalation call_terminate
  escalation-polled c grace s = grind (arith, race-trace, await-trace)

  forward-polled :
      (c : Child) (sig : SignalKind) (grace : ℕ) (s : Sys Source)
      → polled_by bound (forward_signal w c sig grace s).1.trace ≡ polled_by bound s.trace
  unfolding forward_signal
  forward-polled c sig grace s = grind (arith, escalation-polled, await-trace)

  kill-polled :
      (c : Child) (grace : ℕ) (s : Sys Source)
      → polled_by bound (kill_child w c grace s).1.trace ≡ polled_by bound s.trace
  unfolding kill_child call_terminate
  kill-polled c grace s = grind (arith, await-trace)

-- The predicates are read at once, and from the instant `turn` on they fail.
pub record TurnsBad (w : Seams) (sup : Supervisor w) (turn : ℕ) : Type 0 where
  pub result : ℕ → PredicateResult
  pub at_once : (t : ℕ) → evaluate sup.predicate_set sup.state t ≡ some (t, result t)
  pub fails : (t : ℕ) → turn ≤ t → (r : String) × (result t ≡ fail r)

-- The latest instant at which a watcher still evaluates.
abbrev pub deadline : ℕ → ℕ → SupervisorConfig → ℕ
deadline turn late config = turn + config.debounce + 2 * (config.poll + late)

module _ (w : Seams) (sup : Supervisor w) (turn late : ℕ) (bad : TurnsBad w sup turn)
    (poll_pos : 0 < sup.config.poll) (prompt : IsPrompt w.runtime late) where
  open w use {Child, Source}

  abbrev poll : ℕ
  poll = sup.config.poll

  abbrev bound : ℕ
  bound = deadline turn late sup.config

  -- The timer runs from no later than the first poll behind `turn`, and has not run out.
  abbrev Timer : Option ℕ → ℕ → Type 0
  Timer none now = now ≤ turn
  Timer (some f) now = (f ≤ turn + poll + late) × (f ≤ now) × (now < f + sup.config.debounce)

  abbrev Ready : ℕ → Option ℕ → Sys Source → Type 0
  Ready fuel started s =
      Timer started s.now × (bound < s.now + fuel) × (polled_by bound s.trace ≡ true)

  abbrev Stops : Bool → Sys Source → Type 0
  Stops true s = ⊥
  Stops false s = polled_by bound s.trace ≡ true

  abbrev Next : ℕ → Leave ⊎ Option ℕ → Sys Source → Type 0
  Next fuel = Continues (Ready fuel) (λ _. Stops false)

  act-Post :
      (fuel : ℕ) (c : Child) (reason : String) (started elapsed : ℕ) (b : Bool) (s : Sys Source)
      → started ≤ turn + poll + late
      → started ≤ s.now
      → elapsed ≡ s.now - started
      → leb sup.config.debounce elapsed ≡ b
      → bound < s.now + fuel
      → polled_by bound s.trace ≡ true
      → Post Stops (Next fuel) (act_on_fail w sup.config c reason started elapsed b s)
  unfolding act_on_fail
  act-Post fuel c reason started elapsed true s early before row due room h =
      bind-Post Stops (λ _. Stops false) (Next fuel) (kill_child w c sup.config.grace) _ _
        (let fine = kill-polled w bound c sup.config.grace _ ∙ h in
          unspent-Ends Stops (λ _. Stops false) _ _ (kill-unspent w c sup.config.grace _) fine
            (λ _. fine))
        (λ code s' q. q)
  act-Post fuel c reason started elapsed false s early before row due room h =
      ((early, before, ground (arith, row, due)), room, h)

  pass_early : (t : ℕ) → bad.result t ≡ pass → t ≤ turn
  pass_early t e = elim (dec_le turn t) [
    | yes h ↦ let (r, f) = bad.fails t h in cc
    | no h ↦ omega arith
  ]

  -- The timer and the clock when a tick is handled.
  abbrev Due : ℕ → Option ℕ → Sys Source → Type 0
  Due fuel started s =
      (started_at started s.now ≤ turn + poll + late)
      × (started_at started s.now ≤ s.now)
      × (bound < s.now + fuel)
      × (polled_by bound s.trace ≡ true)

  judge-Post :
      (fuel : ℕ) (started : Option ℕ) (c : Child) (r : PredicateResult) (s : Sys Source)
      → bad.result s.now ≡ r
      → Due fuel started s
      → Post Stops (Next fuel) (judge w sup.config started c r s)
  unfolding judge
  judge-Post fuel none c pass s e d = (pass_early s.now e, d.2, d.3)
  judge-Post fuel (some f) c pass s e d = (pass_early s.now e, d.2, d.3)
  judge-Post fuel started c (fail reason) s e d =
      act-Post fuel c reason (started_at started s.now) _ _ s d.0 d.1 refl refl d.2 d.3

  Due-of_Ready :
      (fuel : ℕ) (started : Option ℕ) (c : Child) (s s' : Sys Source) (r : PredicateResult)
      → Ready (suc fuel) started s
      → Ticked w late poll c s tick s'
      → Due fuel started (record s' { trace = evaluated s'.now r ∷ s'.trace })
  Due-of_Ready fuel none c s s' r h t = ground arith
  Due-of_Ready fuel (some f) c s s' r h t = ground arith

  handle-Post :
      (fuel : ℕ) (started : Option ℕ) (c : Child) (s : Sys Source)
      → Ready (suc fuel) started s
      → (outcome : WatchOutcome) (s' : Sys Source) → Ticked w late poll c s outcome s'
      → Post Stops (Next fuel) (handle_outcome w sup started c outcome s')
  unfolding handle_outcome
  handle-Post fuel started c s h (exited status) s' t = rw t h.2
  handle-Post fuel started c s h (signal sig) s' t =
      let fine : polled_by bound (forward_signal w c sig sup.config.grace s').1.trace ≡ true =
        forward-polled w bound c sig sup.config.grace s' ∙ rw t h.2 in
      bind-Post Stops (λ _. Stops false) (Next fuel) (forward_signal w c sig sup.config.grace) _ s'
        (unspent-Ends Stops (λ _. Stops false) _ _ (forward-unspent w c sig sup.config.grace s')
          fine (λ _. fine))
        (λ code s'' q. q)
  handle-Post fuel started c s h tick s' t =
      rw (evaluate_at_once w sup s' (bad.result s'.now) (bad.at_once s'.now)) (
        judge-Post fuel started c _ _ refl
          (Due-of_Ready fuel started c s s' (bad.result s'.now) h t))

  round-Post :
      (fuel : ℕ) (started : Option ℕ) (c : Child) (s : Sys Source)
      → Ready (suc fuel) started s
      → Post Stops (Next fuel) (watch_round w sup started c s)
  unfolding watch_round
  round-Post fuel started c s h =
      bind-Post Stops (Ticked w late poll c s) (Next fuel) (watch_select w poll c) _ s
        (watch_select-Post w late poll c s Stops prompt h.2) (handle-Post fuel started c s h)

  overdue : (started : Option ℕ) (s : Sys Source) → Ready 0 started s → ⊥
  overdue none s h = omega arith
  overdue (some f) s h = omega arith

  unspent_of_Ends :
      (r : Flow Leave) (s : Sys Source)
      → Ends Stops (λ _. Stops false) r s
      → (r ≢ spent) × (polled_by bound s.trace ≡ true)
  unspent_of_Ends (done x) s h = (λ e. cc, h)
  unspent_of_Ends (failed e) s h = (λ e'. cc, h)
  unspent_of_Ends pending s h = (λ e. cc, h)
  unspent_of_Ends spent s h = absurd h

-- For predicates that are read at once and fail from the instant `turn` on, with a positive `poll`
-- and a runtime that polls at most `late` behind time: a watcher loop that is entered by `turn` is
-- over at the latest with its poll at `turn + debounce + 2 * (poll + late)`. Fuel for one round in
-- each instant until then is enough, and no evaluation is after that instant.
pub watch-deadline :
    (w : Seams) (sup : Supervisor w) (turn late fuel : ℕ) (c : w.Child) (s : Sys w.Source)
    → TurnsBad w sup turn
    → 0 < sup.config.poll
    → IsPrompt w.runtime late
    → s.now ≤ turn
    → deadline turn late sup.config < s.now + fuel
    → polled_by (deadline turn late sup.config) s.trace ≡ true
    → ((watch w fuel sup none c s).0 ≢ spent)
      × (polled_by (deadline turn late sup.config) (watch w fuel sup none c s).1.trace ≡ true)
watch-deadline w sup turn late fuel c s bad pos prompt before room h =
    unspent_of_Ends w sup turn late bad pos prompt _ _ (
      watch_loop w sup c (Stops w sup turn late bad pos prompt)
        (Ready w sup turn late bad pos prompt) (λ _. Stops w sup turn late bad pos prompt false)
        (λ st s' k. absurd (overdue w sup turn late bad pos prompt st s' k))
        (λ k st s' i. round-Post w sup turn late bad pos prompt k st c s' i) fuel none s
        (before, room, h))
