-- ===== src/Supervisor/Watchdog/Verdicts.antt =====
-- What the polls in the trace of a run of src/supervisor.rs saw.
use condrun.Prelude.{
  ℕ, ◌<◌, ◌≡◌, inl, inr, sym, ap, String, Bool, true, false, Option, none, some, List, [], ◌∷◌,
  arith,
}
use condrun.Predicate.{PredicateResult, pass, fail}
use condrun.Process.{CommandSpec}
use condrun.Signal.{SignalKind}
use condrun.Supervisor.{Seams, Supervisor}
use condrun.Supervisor.Exec.{Event, evaluated, logged, info, flipped, Sys}
use condrun.Supervisor.Run.{
  as_millis, started_at, forward_signal, kill_child, act_on_fail, judge, run,
}
use condrun.Supervisor.Post.{Post, bind-Post}
use condrun.Supervisor.Trace.{spawns}
use condrun.Supervisor.TraceLoop.{
  Traced, Round, Early, nothing, interrupted, refused, skipped, either_way, Found, run_traced,
}
use condrun.Supervisor.Watchdog.{Poll}
use condrun.Supervisor.Watchdog.Refines.{polls, forward-Alike, kill-trace}
use condrun.Supervisor.Watchdog.Span.{Polled}

module _ (w : Seams) (sup : Supervisor w) where
  -- Each poll that failed did so by an evaluation that came to its verdict at that instant.
  abbrev pub Seen : List Poll → Type 0
  Seen ps = (t : ℕ) → Polled (t, false) ps → (r : String) × Found w sup t (fail r)

  -- Of the runs that spawn the command.
  abbrev SeenOnce : List Event → Type 0
  SeenOnce es = 0 < spawns es → Seen (polls es)

  abbrev SeenFrom : Option ℕ → List Event → Type 0
  SeenFrom started es = Seen (polls es)

  one_more :
      (t : ℕ) (r : String) (ps : List Poll)
      → Found w sup t (fail r)
      → Seen ps
      → Seen ((t, false) ∷ ps)
  one_more t r ps found seen u (inl e) =
      let same : u ≡ t = ap (λ (p : Poll). p.0) e in (r, rw same found)
  one_more t r ps found seen u (inr q) = seen u q

  passed : (t : ℕ) (ps : List Poll) → Seen ps → Seen ((t, true) ∷ ps)
  passed t ps seen u (inl e) = absurd (ground (arith, e))
  passed t ps seen u (inr q) = seen u q

  early-Seen : (es : List Event) → Early es → SeenOnce es
  early-Seen es nothing h = absurd (omega arith)
  early-Seen es (interrupted sig) h = absurd (omega arith)
  early-Seen es (refused t r) h = absurd (omega arith)
  early-Seen es (skipped t r) h = absurd (omega arith)

  forward-Seen :
      (c : w.Child) (sig : SignalKind) (s : Sys w.Source)
      → SeenOnce s.trace
      → SeenOnce (forward_signal w c sig sup.config.grace s).1.trace
  forward-Seen c sig s h once =
      let alike = forward-Alike w c sig sup.config.grace s in rw alike.0 (h (rw (sym alike.2) once))

  act-Seen :
      (c : w.Child) (reason : String) (started elapsed : ℕ) (b : Bool) (s : Sys w.Source)
      → Seen (polls s.trace)
      → Post
          (Traced SeenOnce)
          (Round SeenFrom SeenOnce)
          (act_on_fail w sup.config c reason started elapsed b s)
  unfolding act_on_fail
  act-Seen c reason started elapsed true s seen =
      let s' : Sys w.Source = record s {
        trace =
            logged info (flipped reason (as_millis sup.config.debounce) (as_millis elapsed))
            ∷ s.trace;
      } in
      let kept : SeenOnce (kill_child w c sup.config.grace s').1.trace =
        rw (kill-trace w c sup.config.grace s') (λ _. seen) in
      bind-Post (Traced SeenOnce) (λ _. Traced SeenOnce false) (Round SeenFrom SeenOnce)
        (kill_child w c sup.config.grace) _ s' (either_way SeenOnce _ kept) (λ code s'' q. q)
  act-Seen c reason started elapsed false s seen = seen

  judge-Seen :
      (started : Option ℕ) (c : w.Child) (r : PredicateResult) (s : Sys w.Source) (es : List Event)
      → s.trace ≡ evaluated s.now r ∷ es
      → Seen (polls es)
      → Found w sup s.now r
      → Post (Traced SeenOnce) (Round SeenFrom SeenOnce) (judge w sup.config started c r s)
  unfolding judge
  judge-Seen none c pass s es t seen found = rw t (passed s.now (polls es) seen)
  judge-Seen (some u) c pass s es t seen found = rw t (passed s.now (polls es) seen)
  judge-Seen started c (fail reason) s es t seen found =
      act-Seen c reason (started_at started s.now) _ _ s
        (rw t (one_more s.now reason (polls es) found seen))

  entered : (t : ℕ) → Seen ((t, true) ∷ [])
  entered t = passed t [] (λ u q. absurd q)

-- In a run that spawned the command, each poll that failed did so by an evaluation of the predicates
-- that came to its verdict at the instant of the poll.
pub run-Seen :
    (w : Seams) (fuel : ℕ) (sup : Supervisor w) (cmd : CommandSpec) (now : ℕ)
    → 0 < spawns (run w fuel sup cmd now).1.trace
    → Seen w sup (polls (run w fuel sup cmd now).1.trace)
run-Seen w fuel sup cmd now =
    run_traced w sup (SeenFrom w sup) (SeenOnce w sup) (λ started es k _. k) (forward-Seen w sup)
      (judge-Seen w sup) cmd (early-Seen w sup) (entered w sup) (λ code es h. h) fuel now
