-- ===== src/Process/Tokio/Touched.antt =====
-- src/process/tokio.rs: what the methods of a handle do to the process behind it.
use mathlib.Core.Path.{subst}
use condrun.Prelude.{ℕ, ◌≡◌, refl, none, some, ◌⊎◌, inl, inr, arith, Option-cases}
use condrun.Async.{Async, Runtime, Result, select, sleep, ready_by}
use condrun.Async.Select.{select_first}
use condrun.Signal.{SignalKind}
use condrun.Process.{ExitStatus}
use condrun.Process.Tokio.{
  Os, OsSignal, TokioChildHandle, sigterm, sigkill, os_signal, kill_group, terminate, signal,
}

came :
    {A : Type 0} (future : Async A) (p : ℕ) {a : A}
    → ready_by p future ≡ some a
    → (t : ℕ) × (future ≡ some (t, a))
came none p e = absurd (cc)
came (some (t, x)) p e = (t, ground (arith, e))

module _ (os : Os) (first : os.Proc) where
  -- The process after signals to its group and after waits.
  pub data Touched : os.Proc → Type 0 where
    untouched : Touched first
    signalled :
        {p p' : os.Proc} (sig : OsSignal) (t : ℕ)
        → Touched p
        → (os.killpg p sig t).1 ≡ p'
        → Touched p'
    waited :
        {p p' : os.Proc} {status : ExitStatus} (t u : ℕ)
        → Touched p
        → os.wait p t ≡ some (u, (status, p'))
        → Touched p'

  pub signal-Touched :
      (h h' : TokioChildHandle os) (kind : SignalKind) (t u : ℕ) (r : Result (Unit {0}))
      → Touched h.child
      → signal os h kind t ≡ some (u, (r, h'))
      → Touched h'.child
  unfolding signal
  signal-Touched h h' kind t u r touched e =
      signalled (os_signal kind) t touched (ground (arith, e))

  kill_group-Touched :
      (h h' : TokioChildHandle os) (t u : ℕ) (r : Result (Unit {0}))
      → Touched h.child
      → kill_group os h t ≡ some (u, (r, h'))
      → Touched h'.child
  unfolding kill_group
  kill_group-Touched h h' t u r touched e =
      elim (Option-cases (os.wait (os.killpg h.child sigkill t).1 t)) [
        | inl never ↦ absurd (ground (arith, e, never))
        | inr ((v, (status, reaped)), got) ↦
            let same : reaped ≡ h'.child = ground (arith, e, got) in
            subst Touched same (waited t v (signalled sigkill t touched refl) got)
      ]

  pub terminate-Touched :
      (rt : Runtime) (h h' : TokioChildHandle os) (grace t u : ℕ) (r : Result (Unit {0}))
      → Touched h.child
      → terminate os rt h grace t ≡ some (u, (r, h'))
      → Touched h'.child
  unfolding terminate
  terminate-Touched rt h h' grace t u r touched e =
      go (select rt h.draws (os.wait asked t) (sleep grace t)) refl
    where
      asked : os.Proc
      asked = (os.killpg h.child sigterm t).1

      touched' : Touched asked
      touched' = signalled sigterm t touched refl

      go :
          (o : Async ((ExitStatus × os.Proc) ⊎ Unit {0}))
          → select rt h.draws (os.wait asked t) (sleep grace t) ≡ o
          → Touched h'.child
      go none q = absurd (cc (rw (q, terminate) at e))
      go (some (v, inl (status, reaped))) q =
          let same : reaped ≡ h'.child = ground (arith, e, q) in
          let (x, got) = came _ v (select_first rt h.draws _ _ v _ q) in
          subst Touched same (waited t x touched' got)
      go (some (v, inr done)) q = kill_group-Touched _ h' v u r touched' (rw (q, terminate) at e)
