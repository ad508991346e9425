-- ===== src/Supervisor/Loop.antt =====
-- The rule for the watcher loop, over any invariant of its rounds.
use condrun.Prelude.{ℕ, zero, suc, Bool, true, Option, ◌⊎◌, inl, inr}
use condrun.Supervisor.{Seams, Supervisor}
use condrun.Supervisor.Exec.{Sys, Exec}
use condrun.Supervisor.Run.{Leave, go_on, watch, watch_round}
use condrun.Supervisor.Post.{Post, bind-Post}

-- What a round leads to: the loop is left with `R`, or goes on with `I`.
abbrev pub Continues :
    {S : Type 0}
    → (Option ℕ → Sys S → Type 0)
    → (Leave → Sys S → Type 0)
    → Leave ⊎ Option ℕ
    → Sys S
    → Type 0
Continues I R (inl leave) s = R leave s
Continues I R (inr started) s = I started s

go_on-Post :
    {S : Type 0} (F : Bool → Sys S → Type 0) (I : Option ℕ → Sys S → Type 0)
    (R : Leave → Sys S → Type 0) (again : Option ℕ → Exec S Leave)
    → ((started : Option ℕ) (s : Sys S) → I started s → Post F R (again started s))
    → (after : Leave ⊎ Option ℕ) (s : Sys S) → Continues I R after s
    → Post F R (go_on again after s)
go_on-Post F I R again h (inl leave) s q = q
go_on-Post F I R again h (inr started) s q = h started s q

module _ (w : Seams) (sup : Supervisor w) (c : w.Child) (F : Bool → Sys w.Source → Type 0)
    (I : ℕ → Option ℕ → Sys w.Source → Type 0) (R : Leave → Sys w.Source → Type 0) where
  -- `I` may speak of the fuel that is left.
  pub watch_loop :
      ((started : Option ℕ) (s : Sys w.Source) → I zero started s → F true s)
      → ((fuel : ℕ) (started : Option ℕ) (s : Sys w.Source)
          → I (suc fuel) started s
          → Post F (Continues (I fuel) R) (watch_round w sup started c s))
      → (fuel : ℕ) (started : Option ℕ) (s : Sys w.Source) → I fuel started s
      → Post F R (watch w fuel sup started c s)
  unfolding watch
  watch_loop empty round zero started s h = empty started s h
  watch_loop empty round (suc fuel) started s h =
      bind-Post F (Continues (I fuel) R) R (watch_round w sup started c)
        (go_on (λ started'. watch w fuel sup started' c)) s (round fuel started s h)
        (go_on-Post F (I fuel) R (λ started'. watch w fuel sup started' c)
          (watch_loop empty round fuel))
