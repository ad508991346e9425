-- ===== src/Async.antt =====
-- What the program uses of tokio: futures, `select!` and the instants at which they resolve.
--
-- A future is read as the instant at which it resolves and its value, `none` if it never does;
-- instants and durations are nanoseconds. `select!` sleeps until one arm is ready, and its task is
-- polled some time after that: `Runtime.wakes` says when, and every arm that is ready by then can
-- win. `biased;` tries the arms in order; without it tokio draws the first arm to try, which is
-- `Runtime.toss` at the number of the draw.
pub mod Select
pub mod Awaited
use condrun.Prelude.{
  ℕ, ◌+◌, ◌≤◌, String, Bool, Option, none, some, ◌⊎◌, inl, inr, leb, if◌then◌else◌,
}

abbrev pub Async {ℓ} : Type ℓ → Type ℓ
Async A = Option (ℕ × A)

pub record Runtime : Type 0 where
  pub wakes : ℕ → ℕ
  pub toss : ℕ → Bool

-- A task is polled no earlier than one of its futures is ready.
pub record IsRuntime (rt : Runtime) : Type 0 where
  pub wakes_late : (t : ℕ) → t ≤ rt.wakes t

-- `anyhow::Result`, the error by its message.
pub data Result {ℓ} (A : Type ℓ) : Type ℓ where
  ok : A → Result A
  err : String → Result A

abbrev pub when {ℓ} : {A : Type ℓ} → Async A → Option ℕ
when none = none
when (some (t, a)) = some t

abbrev pub earliest : Option ℕ → Option ℕ → Option ℕ
earliest none u = u
earliest (some t) none = some t
earliest (some t) (some u) = some (if leb t u then t else u)

-- The value of a future that has resolved by the instant `p`.
abbrev pub ready_by {ℓ} : {A : Type ℓ} → ℕ → Async A → Option A
ready_by p none = none
ready_by p (some (t, a)) = if leb t p then some a else none

module _ {ℓ} {A B : Type ℓ} where
  -- the first arm that is ready at the poll at `p`
  abbrev pub first_ready : ℕ → Async A → Async B → Option (A ⊎ B)
  first_ready p a b = elim (ready_by p a) [
    | some x ↦ some (inl x)
    | none ↦ elim (ready_by p b) [ some y ↦ some (inr y) | none ↦ none ]
  ]

  abbrev at_poll : ℕ → Option (A ⊎ B) → Async (A ⊎ B)
  at_poll p none = none
  at_poll p (some w) = some (p, w)

  -- `select! { biased; … }` with two arms.
  unfoldable pub select_biased : Runtime → Async A → Async B → Async (A ⊎ B)
  select_biased rt a b = elim (earliest (when a) (when b)) [
    | none ↦ none
    | some t ↦ at_poll (rt.wakes t) (first_ready (rt.wakes t) a b)
  ]

-- `select! { biased; … }` with three arms.
abbrev pub first_of_three {ℓ} :
    {A B D : Type ℓ} → ℕ → Async A → Async B → Async D → Async (A ⊎ (B ⊎ D))
first_of_three p a b d = elim (ready_by p a) [
  | some x ↦ some (p, inl x)
  | none ↦ elim (ready_by p b) [
    | some y ↦ some (p, inr (inl y))
    | none ↦ elim (ready_by p d) [ some z ↦ some (p, inr (inr z)) | none ↦ none ]
  ]
]

unfoldable pub select_biased_three {ℓ} :
    {A B D : Type ℓ} → Runtime → Async A → Async B → Async D → Async (A ⊎ (B ⊎ D))
select_biased_three rt a b d = elim (earliest (when a) (earliest (when b) (when d))) [
  | none ↦ none
  | some t ↦ first_of_three (rt.wakes t) a b d
]

abbrev swap_arms {ℓ} : {A B : Type ℓ} → Async (B ⊎ A) → Async (A ⊎ B)
swap_arms none = none
swap_arms (some (t, inl b)) = some (t, inr b)
swap_arms (some (t, inr a)) = some (t, inl a)

-- `select!` with two arms, the `n`-th draw.
unfoldable pub select {ℓ} : {A B : Type ℓ} → Runtime → ℕ → Async A → Async B → Async (A ⊎ B)
unfolding select_biased
select rt n a b = if rt.toss n then select_biased rt a b else swap_arms (select_biased rt b a)

-- `tokio::time::sleep`
abbrev pub sleep : ℕ → ℕ → Async (Unit {0})
sleep d now = some (now + d, tt)
