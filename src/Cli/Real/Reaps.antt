-- ===== src/Cli/Real/Reaps.antt =====
-- The process that `condrun run` (src/cli.rs, src/main.rs) starts on the operating system, at its end.
use condrun.Prelude.{
  ℕ, ◌≤◌, ◌<◌, ◌≡◌, refl, ◌⊎◌, inl, inr, none, some, String, List, ◌∷◌, arith, Option-cases,
  if◌then◌else◌,
}
use condrun.Async.{Async, Runtime, Result, ok, err}
use condrun.State.{NetworkState}
use condrun.Signal.Real.{Streams, RealSignals}
use condrun.Process.{CommandSpec, ExitStatus, success}
use condrun.Process.Tokio.{Os, TokioChildHandle, command_of, spawn, wait}
use condrun.Process.Tokio.Touched.{Touched, untouched, signal-Touched, terminate-Touched}
use condrun.Supervisor.Exec.{done}
use condrun.Supervisor.Run
use condrun.Supervisor.Trace.{spawns}
use condrun.Supervisor.Reaped.{Handled, untouched as unhandled, signalled, terminated}
use condrun.Supervisor.Reaped.Codes.{run_reaps}
use condrun.Cli.{Cli, Platform, run, build_network_state}
use condrun.Cli.Dispatch.{dispatch, main, parsed, supervisor_of}
use condrun.Cli.Real.{real_seams}
use condrun.Cli.Real.Causes.{run_trace, done_code}

-- The process that the system started for the command, after signals to its group and waits, was
-- waited for until it had a status; and the code is 3 or tells whether that is a success.
pub record Accounted (os : Os) (spec : CommandSpec) (code : ℕ) : Type 0 where
  pub process : os.Proc
  pub start_asked : ℕ
  pub start_ended : ℕ
  pub started : os.start (command_of spec) start_asked ≡ some (start_ended, ok process)
  pub last : os.Proc
  pub touched : Touched os process last
  pub wait_asked : ℕ
  pub wait_ended : ℕ
  pub status : ExitStatus
  pub left : os.Proc
  pub waited : os.wait last wait_asked ≡ some (wait_ended, (status, left))
  pub truthful : (code ≡ 3) ⊎ (code ≡ (if success status then 0 else 2))

module _ (os : Os) (st : Streams) (rt : Runtime) (starts : ℕ → ℕ) where
  Handled-Touched :
      (c : TokioChildHandle os) {c' : TokioChildHandle os}
      → Handled (real_seams os st rt starts) c c'
      → Touched os c.child c'.child
  Handled-Touched c unhandled = untouched
  Handled-Touched c (signalled kind t u h e) =
      signal-Touched os c.child _ _ kind t u _ (Handled-Touched c h) e
  Handled-Touched c (terminated grace t u h e) =
      terminate-Touched os c.child rt _ _ grace t u _ (Handled-Touched c h) e

  waited_process :
      (h h' : TokioChildHandle os) (t u : ℕ) (status : ExitStatus)
      → wait os h t ≡ some (u, (status, h'))
      → (p : os.Proc) × (os.wait h.child t ≡ some (u, (status, p)))
  unfolding wait
  waited_process h h' t u status e = elim (Option-cases (os.wait h.child t)) [
    | inl never ↦ absurd (ground (arith, e, never))
    | inr ((v, (s, p)), got) ↦ (p, ground (arith, e, got))
  ]

  started_process :
      (cmd : CommandSpec) (c : TokioChildHandle os) (t u : ℕ) (rest : Unit {0})
      → spawn os cmd t ≡ some (u, (ok c, rest))
      → os.start (command_of cmd) t ≡ some (u, ok c.child)
  unfolding spawn
  started_process cmd c t u rest e = go (os.start (command_of cmd) t) refl
    where
      go :
          (o : Async (Result os.Proc))
          → os.start (command_of cmd) t ≡ o
          → os.start (command_of cmd) t ≡ some (u, ok c.child)
      go none q = absurd (ground (arith, e, q))
      go (some (v, err m)) q = absurd (ground (arith, e, q))
      go (some (v, ok p)) q = elim (Option-cases (os.id p)) [
        | inl unknown ↦ absurd (ground (arith, e, q, unknown))
        | inr (pid, known) ↦ ground (arith, e, q, known)
      ]

-- On the operating system: where the process of `condrun run` has started the command and ends with a
-- code of at most 3, it has not left the command's process behind. That process, after no more than
-- signals to its group and waits, was waited for until it had a status; and unless the code is 3 it is 0
-- exactly if that status is a success, and 2 if it is not.
pub main-reaps :
    (os : Os) (st : Streams) (rt : Runtime) (starts : ℕ → ℕ) (platform : Platform) (cli : Cli)
    (program : String) (args : List String) (state : NetworkState) (source : RealSignals st)
    (fuel now code : ℕ)
    → cli.command ≡ run (program ∷ args)
    → build_network_state platform cli ≡ ok state
    → main (real_seams os st rt starts) platform tt (ok source) fuel now (parsed cli) ≡ some code
    → code ≤ 3
    → 0
      < spawns (
          run_trace os st rt starts platform cli state source fuel now
            (record { program = program; args = args }))
    → Accounted os (record { program = program; args = args }) code
unfolding main dispatch
main-reaps os st rt starts platform cli program args state source fuel now code asked e q small
      once =
    let w = real_seams os st rt starts in
    let spec : CommandSpec = record { program = program; args = args } in
    let sup = supervisor_of w platform tt (ok source) fuel cli now state source in
    let finished : (Run.run w fuel sup spec now).0 ≡ done code =
      done_code _ code (ground (arith, asked, e, q)) small in
    let (c, (t, u, rest, launched), (r, truthful)) =
      run_reaps w fuel sup spec now code finished once in
    let (left, waited) =
      waited_process os st rt starts r.handle r.left r.asked r.ended r.status r.waited in
    record {
      process = c.child;
      start_asked = t;
      start_ended = u;
      started = started_process os st rt starts spec c t u rest launched;
      last = r.handle.child;
      touched = Handled-Touched os st rt starts c r.handled;
      wait_asked = r.asked;
      wait_ended = r.ended;
      status = r.status;
      left = left;
      waited = waited;
      truthful = truthful;
    }
