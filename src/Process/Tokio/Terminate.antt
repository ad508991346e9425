-- ===== src/Process/Tokio/Terminate.antt =====
-- `TokioChildHandle::terminate` of src/process/tokio.rs: SIGTERM, the grace, and SIGKILL.
use condrun.Prelude.{
  ℕ, ◌+◌, ◌≤◌, ◌<◌, ◌≡◌, ◌≢◌, refl, none, some, ◌⊎◌, inl, inr, arith, Option-cases,
}
use condrun.Async.{Async, Runtime, IsRuntime, ok, select, select_biased, sleep, ready_by}
use condrun.Async.Select.{IsPrompt, select_first}
use condrun.Process.{ExitStatus}
use condrun.Process.Tokio.{Os, TokioChildHandle, sigterm, sigkill, kill_group, terminate}

-- A child that gets SIGKILL can be waited for within this time.
pub record Dies (os : Os) (reap : ℕ) : Type 0 where
  pub dies :
      (p : os.Proc) (now : ℕ)
      → (t : ℕ) × (status : ExitStatus) × (p' : os.Proc) × (os.wait (os.killpg p sigkill now).1 now
          ≡ some (t, (status, p')))
        × (t ≤ now + reap)

module _ {A B : Type 0} (rt : Runtime) (n : ℕ) (a : Async A) (due : ℕ) (b : B) where
  timed_ends : IsRuntime rt → select rt n a (some (due, b)) ≢ none
  unfolding select select_biased
  timed_ends sane = elim (Option-cases a) [
    | inl e ↦ ground (arith, e, sane.wakes_late due)
    | inr ((t, x), e) ↦ ground (arith, e, sane.wakes_late due, sane.wakes_late t)
  ]

  timed_by :
      (late t : ℕ) (x : A ⊎ B)
      → IsPrompt rt late
      → select rt n a (some (due, b)) ≡ some (t, x)
      → t ≤ due + late
  unfolding select select_biased
  timed_by late t x prompt h = elim (Option-cases a) [
    | inl e ↦ ground (arith, e, h, prompt.wakes_soon due)
    | inr ((u, y), e) ↦ ground (arith, e, h, prompt.wakes_soon due, prompt.wakes_soon u)
  ]

  -- With a timer as its second arm a `select!` ends, no later than the runtime is after the timer.
  timed_select :
      (late : ℕ)
      → IsRuntime rt
      → IsPrompt rt late
      → (t : ℕ) × (x : A ⊎ B) × (select rt n a (some (due, b)) ≡ some (t, x)) × (t ≤ due + late)
  timed_select late sane prompt = elim (Option-cases (select rt n a (some (due, b)))) [
    | inl e ↦ absurd (timed_ends sane e)
    | inr ((t, x), e) ↦ (t, x, e, timed_by late t x prompt e)
  ]

-- The child `p` is what a wait left that had resolved by the instant `t`.
abbrev pub Reaped : (os : Os) → os.Proc → ℕ → Type 0
Reaped os p t =
    (v u : ℕ) × (status : ExitStatus) × (p' : os.Proc) × (os.wait p' v ≡ some (u, (status, p)))
    × (u ≤ t)

waited :
    (os : Os) (p p' : os.Proc) (v t : ℕ) (status : ExitStatus)
    → ready_by t (os.wait p v) ≡ some (status, p')
    → Reaped os p' t
waited os p p' v t status e = elim (Option-cases (os.wait p v)) [
  | inl never ↦ absurd (ground (arith, e, never))
  | inr ((u, r), f) ↦ (v, u, status, p, ground (arith, e, f), ground (arith, e, f))
]

module _ (os : Os) (rt : Runtime) (h : TokioChildHandle os) (grace now : ℕ) where
  kills :
      (reap t : ℕ) (h' : TokioChildHandle os)
      → Dies os reap
      → (u : ℕ) × (r : TokioChildHandle os) × (kill_group os h' t ≡ some (u, (ok tt, r)))
        × (u ≤ t + reap)
        × Reaped os r.child u
  unfolding kill_group
  kills reap t h' mortal =
      let (u, status, p', e, early) = mortal.dies h'.child t in
      (
        u,
        record h' { child = p' },
        rw (e, kill_group),
        early,
        (t, u, status, (os.killpg h'.child sigkill t).1, e, omega arith),
      )

-- `terminate_returns`, with what is known of the child that is left.
pub terminate_reaps :
    (os : Os) (rt : Runtime) (late reap : ℕ) (h : TokioChildHandle os) (grace now : ℕ)
    → IsRuntime rt
    → IsPrompt rt late
    → Dies os reap
    → (t : ℕ) × (h' : TokioChildHandle os) × (terminate os rt h grace now ≡ some (t, (ok tt, h')))
      × (t ≤ now + grace + late + reap)
      × Reaped os h'.child t
unfolding terminate
terminate_reaps os rt late reap h grace now sane prompt mortal =
    go (timed_select rt h.draws _ _ _ late sane prompt)
  where
    asked : os.Proc
    asked = (os.killpg h.child sigterm now).1

    go :
        (t : ℕ) × (x : (ExitStatus × os.Proc) ⊎ Unit {0}) × (select rt h.draws
              (os.wait asked now)
              (sleep grace now)
            ≡ some (t, x))
          × (t ≤ now + grace + late)
        → (t : ℕ) × (h' : TokioChildHandle os) × (terminate os rt h grace now
            ≡ some (t, (ok tt, h')))
          × (t ≤ now + grace + late + reap)
          × Reaped os h'.child t
    go (t, inl (status, reaped), e, early) = (
      t,
      record h { child = reaped; draws = h.draws + 1 },
      rw (e, terminate),
      omega arith,
      waited os asked reaped now t status (select_first rt h.draws _ _ t _ e),
    )
    go (t, inr u, e, early) =
        let h' : TokioChildHandle os = record h { child = asked; draws = h.draws + 1 } in
        let (v, r, gone, soon, reaped) = kills os rt h grace now reap t h' mortal in
        (v, r, rw (e, terminate) gone, omega arith, reaped)

-- A child that dies of SIGKILL is gone in the end: `terminate` returns without an error, at the
-- latest when the grace, the lateness of the runtime and the time to reap the child are over.
pub terminate_returns :
    (os : Os) (rt : Runtime) (late reap : ℕ) (h : TokioChildHandle os) (grace now : ℕ)
    → IsRuntime rt
    → IsPrompt rt late
    → Dies os reap
    → (t : ℕ) × (h' : TokioChildHandle os) × (terminate os rt h grace now ≡ some (t, (ok tt, h')))
      × (t ≤ now + grace + late + reap)
terminate_returns os rt late reap h grace now sane prompt mortal =
    let (t, h', e, soon, reaped) = terminate_reaps os rt late reap h grace now sane prompt mortal in
    (t, h', e, soon)

-- A child that exits on SIGTERM before the grace is over gets no SIGKILL: what is left of it is
-- what the wait after SIGTERM gave.
pub terminate_spares :
    (os : Os) (rt : Runtime) (h : TokioChildHandle os) (grace now t : ℕ) (status : ExitStatus)
    (p' : os.Proc)
    → IsRuntime rt
    → os.wait (os.killpg h.child sigterm now).1 now ≡ some (t, (status, p'))
    → rt.wakes t < now + grace
    → (h' : TokioChildHandle os) × (terminate os rt h grace now ≡ some (rt.wakes t, (ok tt, h')))
      × (h'.child ≡ p')
unfolding terminate select select_biased
terminate_spares os rt h grace now t status p' sane e early = (
  record h { child = p'; draws = h.draws + 1 },
  ground (arith, e, early, sane.wakes_late t),
  refl,
)
