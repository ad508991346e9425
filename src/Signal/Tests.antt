-- ===== src/Signal/Tests.antt =====
-- A source of real signals whose SIGTERM has come, and the theorems on `next` at it.
use condrun.Prelude.{ℕ, ◌≤◌, ◌≡◌, ◌≢◌, ◌+◌, refl, Option, none, some, true, arith}
use condrun.Async.{Async, Runtime, IsRuntime, ok}
use condrun.Signal.{SignalKind, terminate}
use condrun.Signal.Real.{Streams, RealSignals, next, new, select_from, stream_of}
use condrun.Signal.Real.Takes.{next_takes}
use condrun.Signal.Real.Resolves.{next_resolves}
use condrun.Async.Select.{IsPrompt}

-- A stream by the instant of its signal.
abbrev once : Option ℕ → ℕ → Async (Option ℕ)
once none now = none
once (some t) now = some (t, none)

abbrev streams : Streams
streams = record { Stream = Option ℕ; signal = λ kind. ok none; recv = once }

abbrev paused : Runtime
paused = record { wakes = λ t. t; toss = λ n. true }

abbrev quiet_but : Option ℕ → RealSignals streams
quiet_but term = record { int = none; term = term; quit = none; hup = none; draws = 0 }

abbrev drawn : RealSignals streams
drawn = record { int = none; term = none; quit = none; hup = none; draws = 1 }

no_signals_yet : new streams ≡ ok (quiet_but none)
unfolding new
no_signals_yet = refl

terminate_comes :
    next streams paused (λ n. 3) (quiet_but (some 40)) 10 ≡ some (40, (terminate, drawn))
unfolding next select_from
terminate_comes = refl

next_takes_example :
    (u : ℕ) × (once (some 40) 10 ≡ some (u, none))
    × (u ≤ 40)
    × ((k : SignalKind)
        → k ≢ terminate
        → stream_of streams paused (λ n. 3) k drawn
          ≡ stream_of streams paused (λ n. 3) k (quiet_but (some 40)))
next_takes_example =
    next_takes streams paused (λ n. 3) (quiet_but (some 40)) drawn 10 40 terminate terminate_comes

paused-IsRuntime : IsRuntime paused
paused-IsRuntime = record { wakes_late = λ t. omega arith }

paused-IsPrompt : IsPrompt paused 0
paused-IsPrompt = record { wakes_soon = λ t. omega arith }

next_resolves_example :
    (t : ℕ) × (k : SignalKind) × (s' : RealSignals streams) × (next streams paused
        (λ n. 3)
        (quiet_but (some 40))
        10
      ≡ some (t, (k, s')))
    × (t ≤ 40 + 0)
next_resolves_example =
    next_resolves streams paused (λ n. 3) (quiet_but (some 40)) 10 40 0 terminate none
      paused-IsRuntime paused-IsPrompt refl
