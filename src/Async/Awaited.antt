-- ===== src/Async/Awaited.antt =====
-- How a test awaits a future: it goes on with the instant and the value, and fails without.
use condrun.Prelude.{ℕ, Bool, false, none, some}
use condrun.Async.{Async, Result, ok, err}

abbrev pub awaits : {A : Type 0} → Async A → (ℕ → A → Bool) → Bool
awaits none f = false
awaits (some (t, a)) f = f t a

-- `unwrap`
abbrev pub unwraps : {A : Type 0} → Result A → (A → Bool) → Bool
unwraps (err e) f = false
unwraps (ok a) f = f a
