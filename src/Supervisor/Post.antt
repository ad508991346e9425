-- ===== src/Supervisor/Post.antt =====
-- What holds when an action has ended: one rule for a `do` block.
use condrun.Prelude.{Bool, true, false}
use condrun.Supervisor.Exec.{Sys, Flow, done, failed, pending, spent, Exec, then_run, ◌>>=◌}

-- `Q` of a value and the state that it comes with; `F` of the state where there is no value, with
-- `true` where the fuel ran out.
abbrev pub Ends :
    {S A : Type 0} → (Bool → Sys S → Type 0) → (A → Sys S → Type 0) → Flow A → Sys S → Type 0
Ends F Q (done a) s = Q a s
Ends F Q spent s = F true s
Ends F Q (failed e) s = F false s
Ends F Q pending s = F false s

abbrev pub Post :
    {S A : Type 0} → (Bool → Sys S → Type 0) → (A → Sys S → Type 0) → Flow A × Sys S → Type 0
Post F Q r = Ends F Q r.0 r.1

module _ {S A B : Type 0} (F : Bool → Sys S → Type 0) (Q : A → Sys S → Type 0)
    (R : B → Sys S → Type 0) where
  pub then_run-Ends :
      (f : A → Exec S B) (r : Flow A) (s : Sys S)
      → Ends F Q r s
      → ((a : A) (s' : Sys S) → Q a s' → Post F R (f a s'))
      → Post F R (then_run f r s)
  then_run-Ends f (done a) s q k = k a s q
  then_run-Ends f (failed e) s q k = q
  then_run-Ends f pending s q k = q
  then_run-Ends f spent s q k = q

  pub bind-Post :
      (m : Exec S A) (f : A → Exec S B) (s : Sys S)
      → Post F Q (m s)
      → ((a : A) (s' : Sys S) → Q a s' → Post F R (f a s'))
      → Post F R ((m >>= f) s)
  bind-Post m f s q k = then_run-Ends f (m s).0 (m s).1 q k

pub weaken-Ends :
    {S A : Type 0} (F : Bool → Sys S → Type 0) (Q R : A → Sys S → Type 0)
    → ((a : A) (s : Sys S) → Q a s → R a s)
    → (r : Flow A) (s : Sys S) → Ends F Q r s
    → Ends F R r s
weaken-Ends F Q R h (done a) s q = h a s q
weaken-Ends F Q R h (failed e) s q = q
weaken-Ends F Q R h pending s q = q
weaken-Ends F Q R h spent s q = q

-- What holds of the state that an action ends with, however it ends.
pub always-Ends :
    {S A : Type 0} (F : Bool → Sys S → Type 0) (Q : A → Sys S → Type 0) (r : Flow A) (s : Sys S)
    → ((b : Bool) → F b s)
    → ((a : A) → Q a s)
    → Ends F Q r s
always-Ends F Q (done a) s f q = q a
always-Ends F Q (failed e) s f q = f false
always-Ends F Q pending s f q = f false
always-Ends F Q spent s f q = f true

pub of-Ends :
    {S A : Type 0} (P : Sys S → Type 0) (r : Flow A) (s : Sys S) → Ends (λ _. P) (λ _. P) r s → P s
of-Ends P (done a) s h = h
of-Ends P (failed e) s h = h
of-Ends P pending s h = h
of-Ends P spent s h = h
