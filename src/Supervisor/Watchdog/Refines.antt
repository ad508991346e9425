-- ===== src/Supervisor/Watchdog/Refines.antt =====
-- The watchdog over the polls of a run of src/supervisor.rs.
use condrun.Prelude.{
  ℕ, ◌-◌, ◌≤◌, ◌<◌, ◌≡◌, ◌↔◌, ◌∙◌, sym, ap, refl, if◌then◌else◌, Bool, true, false, Option, none,
  some, List, [], ◌∷◌, arith, leb, String,
}
use condrun.Predicate.{PredicateResult, pass, fail}
use condrun.Signal.{SignalKind}
use condrun.Process.{CommandSpec}
use condrun.Supervisor.{Seams, SupervisorConfig, Supervisor}
use condrun.Supervisor.Exec.{Event, evaluated, terminated, logged, flipped, info, Sys}
use condrun.Supervisor.Run.{
  as_millis, started_at, wait_with_escalation, forward_signal, kill_child, act_on_fail, judge, run,
  call_terminate,
}
use condrun.Supervisor.Post.{Post, bind-Post}
use condrun.Supervisor.Trace.{spawns, terminations, await-trace, race-trace}
use condrun.Supervisor.TraceLoop.{
  Traced, Round, Early, nothing, interrupted, refused, skipped, either_way, run_traced,
}
use condrun.Supervisor.Watchdog.{Poll, Phase, healthy, failing, tripped, step, replay}

-- The polls of a trace, the latest first.
abbrev pub polls : List Event → List Poll
polls [] = []
polls (evaluated t pass ∷ es) = (t, true) ∷ polls es
polls (evaluated t (fail r) ∷ es) = (t, false) ∷ polls es
polls (_ ∷ es) = polls es

-- The trace has a flip.
abbrev pub has_flip : List Event → Bool
has_flip [] = false
has_flip (logged info (flipped r d e) ∷ es) = true
has_flip (_ ∷ es) = has_flip es

abbrev pub is_tripped : Phase → Bool
is_tripped tripped = true
is_tripped _ = false

-- The loop's timer is the phase of the watchdog.
abbrev phase_of : Option ℕ → Phase
phase_of none = healthy
phase_of (some f) = failing f

-- Two traces tell the same of polls, flips and terminations.
abbrev pub Alike : List Event → List Event → Type 0
Alike es es' =
    (polls es ≡ polls es')
    × (has_flip es ≡ has_flip es')
    × (spawns es ≡ spawns es')
    × (terminations es' ≤ terminations es)

module _ (d : ℕ) where
  abbrev Agrees : List Event → Type 0
  Agrees es =
      (is_tripped (replay d (polls es)) ≡ has_flip es) × (has_flip es ≡ true → 0 < terminations es)

  -- Of a run that never spawned there is nothing to say.
  abbrev Watched : List Event → Type 0
  Watched es = 0 < spawns es → Agrees es

  abbrev InPhase : Option ℕ → List Event → Type 0
  InPhase started es = (phase_of started ≡ replay d (polls es)) × (has_flip es ≡ false)

  Agrees-of_Alike : (es es' : List Event) → Alike es' es → Agrees es → Agrees es'
  Agrees-of_Alike es es' (p, f, n, k) (trips, kills) =
      (rw (p, f) trips, λ h. let old = kills (sym f ∙ h) in omega arith)

  Agrees-of_InPhase : (started : Option ℕ) (es : List Event) → InPhase started es → Agrees es
  Agrees-of_InPhase none es (p, f) = (ap is_tripped (sym p) ∙ sym f, λ h. cc)
  Agrees-of_InPhase (some u) es (p, f) = (ap is_tripped (sym p) ∙ sym f, λ h. cc)

  early-Watched : (es : List Event) → Early es → Watched es
  early-Watched es nothing h = absurd (omega arith)
  early-Watched es (interrupted sig) h = absurd (omega arith)
  early-Watched es (refused t r) h = absurd (omega arith)
  early-Watched es (skipped t r) h = absurd (omega arith)

module _ (w : Seams) where
  open w use {Child, Source}

  escalation-Alike :
      (c : Child) (grace : ℕ) (s : Sys Source)
      → Alike (wait_with_escalation w c grace s).1.trace s.trace
  unfolding wait_with_escalation call_terminate
  escalation-Alike c grace s = grind (arith, race-trace, await-trace)

  pub forward-Alike :
      (c : Child) (sig : SignalKind) (grace : ℕ) (s : Sys Source)
      → Alike (forward_signal w c sig grace s).1.trace s.trace
  unfolding forward_signal
  forward-Alike c sig grace s = grind (arith, escalation-Alike, await-trace)

  forward-Watched :
      (d : ℕ) (c : Child) (sig : SignalKind) (grace : ℕ) (s : Sys Source)
      → Watched d s.trace
      → Watched d (forward_signal w c sig grace s).1.trace
  forward-Watched d c sig grace s h spawned_once =
      let alike = forward-Alike c sig grace s in
      let once : 0 < spawns s.trace = rw (sym alike.2) spawned_once in
      Agrees-of_Alike d s.trace (forward_signal w c sig grace s).1.trace alike (h once)

  pub kill-trace :
      (c : Child) (grace : ℕ) (s : Sys Source)
      → (kill_child w c grace s).1.trace ≡ terminated grace ∷ s.trace
  unfolding kill_child call_terminate
  kill-trace c grace s = grind (arith, await-trace)

  poll_step :
      (d : ℕ) (started : Option ℕ) (t : ℕ)
      → step d (phase_of started) (t, false)
        ≡ (if leb d (t - started_at started t) then tripped else failing (started_at started t))
  poll_step d none t = ground arith
  poll_step d (some f) t = refl

  module _ (config : SupervisorConfig) (d : ℕ) (same : config.debounce ≡ d) where
    act-Watched :
        (c : Child) (reason : String) (started elapsed : ℕ) (b : Bool) (s : Sys Source)
        → replay d (polls s.trace) ≡ (if b then tripped else failing started)
        → has_flip s.trace ≡ false
        → Post
            (Traced (Watched d))
            (Round (InPhase d) (Watched d))
            (act_on_fail w config c reason started elapsed b s)
    unfolding act_on_fail
    act-Watched c reason started elapsed true s phase f =
        let s' : Sys Source = record s {
          trace =
              logged info (flipped reason (as_millis config.debounce) (as_millis elapsed))
              ∷ s.trace;
        } in
        let agrees : Agrees d (kill_child w c config.grace s').1.trace =
          rw (kill-trace c config.grace s') (ap is_tripped phase, λ h. omega arith) in
        bind-Post (Traced (Watched d)) (λ _. Traced (Watched d) false)
          (Round (InPhase d) (Watched d)) (kill_child w c config.grace) _ s'
          (either_way (Watched d) _ (λ _. agrees)) (λ code s'' q. q)
    act-Watched c reason started elapsed false s phase f = (sym phase, f)

    judge-Watched :
        (started : Option ℕ) (c : Child) (r : PredicateResult) (s : Sys Source) (es : List Event)
        → s.trace ≡ evaluated s.now r ∷ es
        → InPhase d started es
        → Post (Traced (Watched d)) (Round (InPhase d) (Watched d)) (judge w config started c r s)
    unfolding judge
    judge-Watched none c pass s es t (p, f) =
        (rw t (ap (λ (ph : Phase). step d ph (s.now, true)) p), rw t f)
    judge-Watched (some u) c pass s es t (p, f) =
        (rw t (ap (λ (ph : Phase). step d ph (s.now, true)) p), rw t f)
    judge-Watched started c (fail reason) s es t (p, f) =
        act-Watched c reason (started_at started s.now) _ _ s
          (rw (t, same)
            (sym (ap (λ (ph : Phase). step d ph (s.now, false)) p) ∙ poll_step d started s.now))
          (rw t f)

run-Watched :
    (w : Seams) (fuel : ℕ) (sup : Supervisor w) (cmd : CommandSpec) (now : ℕ)
    → Watched sup.config.debounce (run w fuel sup cmd now).1.trace
run-Watched w fuel sup cmd now =
    let d = sup.config.debounce in
    run_traced w sup (InPhase d) (Watched d) (λ started es k _. Agrees-of_InPhase d started es k)
      (λ c sig s. forward-Watched w d c sig sup.config.grace s)
      (λ started c r s es t k _. judge-Watched w sup.config d refl started c r s es t k) cmd
      (early-Watched d) (λ t. (refl, refl)) (λ code es h. h) fuel now

tripped_of : (phase : Phase) (b : Bool) → is_tripped phase ≡ b → (phase ≡ tripped) ↔ (b ≡ true)
tripped_of healthy b e = (λ h. cc, λ h. cc)
tripped_of (failing f) b e = (λ h. cc, λ h. cc)
tripped_of tripped b e = (λ h. sym e, λ h. refl)

-- In a run that spawned the command, the watchdog with the run's debounce window, replayed over the
-- run's evaluations, has tripped exactly if the run logged a flip; and a run that logged one called
-- `terminate`.
pub run_refines :
    (w : Seams) (fuel : ℕ) (sup : Supervisor w) (cmd : CommandSpec) (now : ℕ)
    → let trace = (run w fuel sup cmd now).1.trace in
      0 < spawns trace
      → ((replay sup.config.debounce (polls trace) ≡ tripped) ↔ (has_flip trace ≡ true))
        × (has_flip trace ≡ true → 0 < terminations trace)
run_refines w fuel sup cmd now h =
    let agrees = run-Watched w fuel sup cmd now h in (tripped_of _ _ agrees.0, agrees.1)
