-- ===== src/Async/Select.antt =====
-- What the arms of a `select!` tell when one of them wins.
use condrun.Prelude.{
  ℕ, ◌+◌, ◌≤◌, ◌≡◌, ◌≢◌, none, some, ◌⊎◌, inl, inr, arith, Option-cases, leb, if◌then◌else◌,
}
use condrun.Async.{Async, Runtime, IsRuntime, when, earliest, ready_by, select, select_biased_three}

-- The lateness of a runtime: a task is polled at most that much after it could go on.
pub record IsPrompt (rt : Runtime) (late : ℕ) : Type 0 where
  pub wakes_soon : (t : ℕ) → rt.wakes t ≤ t + late

module _ {A B D : Type 0} (rt : Runtime) (a : Async A) (b : Async B) where
  -- A tick that wins is due, and neither of the arms before it is ready.
  pub third_wins :
      (due t : ℕ) (d z : D)
      → select_biased_three rt a b (some (due, d)) ≡ some (t, inr (inr z))
      → (due ≤ t) × (ready_by t a ≡ none) × (ready_by t b ≡ none)
  unfolding select_biased_three
  third_wins due t d z h = ground arith

  -- With a tick among the arms, the poll follows some instant at which the tick is not overdue.
  pub three_woken :
      (due t : ℕ) (d : D) (x : A ⊎ (B ⊎ D))
      → select_biased_three rt a b (some (due, d)) ≡ some (t, x)
      → (u : ℕ) × (t ≡ rt.wakes u) × (u ≤ due)
  unfolding select_biased_three
  three_woken due t d x h = elim (Option-cases (earliest (when a) (when b))) [
    | inl e ↦ (due, ground (arith, e), ground arith)
    | inr (u, e) ↦ (if leb u due then u else due, ground (arith, e), ground (arith, e))
  ]

  -- A first arm that wins does so with its own value.
  pub first_value :
      (due t : ℕ) (d : D) (x : A)
      → select_biased_three rt a b (some (due, d)) ≡ some (t, inl x)
      → ready_by t a ≡ some x
  unfolding select_biased_three
  first_value due t d x h = ground arith

  -- A second arm that wins does so with its own value.
  pub second_wins :
      (due t : ℕ) (d : D) (y : B)
      → select_biased_three rt a b (some (due, d)) ≡ some (t, inr (inl y))
      → ready_by t b ≡ some y
  unfolding select_biased_three
  second_wins due t d y h = ground arith

  -- A first arm that is ready by a wake no later than the others' wins.
  pub first_wins :
      (due t v : ℕ) (d : D) (x : A) (y : A ⊎ (B ⊎ D))
      → a ≡ some (v, x)
      → v ≤ t
      → select_biased_three rt a b (some (due, d)) ≡ some (t, y)
      → y ≡ inl x
  unfolding select_biased_three
  first_wins due t v d x y e h q = ground arith

module _ {A B D : Type 0} (rt : Runtime) (sane : IsRuntime rt) where
  -- With a tick among the arms one of them wins.
  pub three_resolve :
      (a : Async A) (b : Async B) (due : ℕ) (d : D)
      → select_biased_three rt a b (some (due, d)) ≢ none
  unfolding select_biased_three
  three_resolve none none due d = ground (arith, sane.wakes_late due)
  three_resolve none (some (u, y)) due d = ground (arith, sane.wakes_late due, sane.wakes_late u)
  three_resolve (some (t, x)) none due d = ground (arith, sane.wakes_late due, sane.wakes_late t)
  three_resolve (some (t, x)) (some (u, y)) due d =
      ground (arith, sane.wakes_late due, sane.wakes_late t, sane.wakes_late u)

-- A `select!` resolves if its first arm does.
pub select_resolve :
    {A B : Type 0} (rt : Runtime)
    → IsRuntime rt
    → (n : ℕ) (t : ℕ) (x : A) (b : Async B) → select rt n (some (t, x)) b ≢ none
unfolding select
select_resolve rt sane n t x none = ground (arith, sane.wakes_late t)
select_resolve rt sane n t x (some (u, y)) = ground (arith, sane.wakes_late t, sane.wakes_late u)

-- The first arm of a `select!` wins with its own value.
pub select_first :
    {A B : Type 0} (rt : Runtime) (n : ℕ) (a : Async A) (b : Async B) (t : ℕ) (x : A)
    → select rt n a b ≡ some (t, inl x)
    → ready_by t a ≡ some x
unfolding select
select_first rt n a b t x h = ground arith
