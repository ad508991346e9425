-- ===== src/Process/Tests.antt =====
-- The tests of src/process/tokio.rs on children that heed SIGTERM or do not, and the theorems on
-- `terminate` at these.
use condrun.Prelude.{
  ℕ, ◌+◌, ◌≤◌, ◌≡◌, refl, Bool, true, false, Option, none, some, [], ◌∷◌, arith, leb, if◌then◌else◌,
}
use condrun.Async.{Async, Runtime, IsRuntime, ok, select, select_biased}
use condrun.Async.Select.{IsPrompt}
use condrun.Process.{CommandSpec, ExitStatus}
use condrun.Process.Fake.{new_child, new_spawner}
use condrun.Process.Fake.Queue.{enqueue_all, spawn_all, spawn_all-enqueue_all}
use condrun.Process.Tokio.{Os, OsSignal, sigterm, sigkill, TokioChildHandle, terminate, kill_group}
use condrun.Process.Tokio.Terminate.{Dies, terminate_returns, terminate_spares}

-- A child by the instant of its end; with `heeds` it ends 5 after a SIGTERM.
abbrev end_after : Bool → Option ℕ → OsSignal → ℕ → Option ℕ
end_after heeds p sigkill now = some now
end_after true p sigterm now = some (now + 5)
end_after heeds p _ now = p

abbrev wait_end : Option ℕ → ℕ → Async (ExitStatus × Option ℕ)
wait_end none now = none
wait_end (some t) now = some (if leb t now then now else t, (record { raw = 9 }, some t))

abbrev system : Bool → Os
system heeds = record {
  Proc = Option ℕ;
  wait = wait_end;
  killpg = λ p sig now. (ok tt, end_after heeds p sig now);
  id = λ p. some 7;
  start = λ cmd now. some (now, ok none);
}

abbrev paused : Runtime
paused = record { wakes = λ t. t; toss = λ n. false }

paused-IsRuntime : IsRuntime paused
paused-IsRuntime = record { wakes_late = λ t. omega arith }

paused-IsPrompt : IsPrompt paused 0
paused-IsPrompt = record { wakes_soon = λ t. omega arith }

abbrev stubborn : TokioChildHandle (system false)
stubborn = record { child = none; pid = 7; draws = 0 }

abbrev polite : TokioChildHandle (system true)
polite = record { child = none; pid = 7; draws = 0 }

sigkill_after_grace :
    terminate (system false) paused stubborn 30 100
    ≡ some (130, (ok tt, record { child = some 130; pid = 7; draws = 1 }))
unfolding terminate kill_group select select_biased
sigkill_after_grace = refl

system-Dies : Dies (system false) 0
system-Dies = record {
  dies = λ p now. (now, record { raw = 9 }, some now, ground arith, omega arith);
}

terminate_returns_example :
    (t : ℕ) × (h' : TokioChildHandle (system false)) × (terminate
        (system false)
        paused
        stubborn
        30
        100
      ≡ some (t, (ok tt, h')))
    × (t ≤ 100 + 30 + 0 + 0)
terminate_returns_example =
    terminate_returns (system false) paused 0 0 stubborn 30 100 paused-IsRuntime paused-IsPrompt
      system-Dies

terminate_spares_example :
    (h' : TokioChildHandle (system true)) × (terminate (system true) paused polite 30 100
      ≡ some (105, (ok tt, h')))
    × (h'.child ≡ some 105)
terminate_spares_example =
    terminate_spares (system true) paused polite 30 100 105 (record { raw = 9 }) (some 105)
      paused-IsRuntime refl (omega arith)

abbrev cmd_a : CommandSpec
cmd_a = record { program = "a"; args = [] }

abbrev cmd_b : CommandSpec
cmd_b = record { program = "b"; args = "x" ∷ [] }

spawn_all-enqueue_all_example :
    spawn_all (cmd_a ∷ cmd_b ∷ []) (enqueue_all (new_child 7 100 ∷ []) new_spawner) 3
    ≡ some (
      3,
      (
        ok (new_child 7 100 ∷ new_child 0 0 ∷ []),
        record { spawned = cmd_a ∷ cmd_b ∷ []; handles = [] },
      ),
    )
spawn_all-enqueue_all_example = spawn_all-enqueue_all (cmd_a ∷ cmd_b ∷ []) (new_child 7 100 ∷ []) 3
