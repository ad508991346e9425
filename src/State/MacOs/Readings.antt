-- ===== src/State/MacOs/Readings.antt =====
-- src/state/macos.rs: what a reading gives, in whatever order the frameworks run the handler.
use condrun.Prelude.{
  ℕ, ◌+◌, ◌≤◌, ◌≡◌, refl, sym, ap, ◌∙◌, true, false, Option, none, some, [], ◌∷◌, ◌++◌, arith,
}
use condrun.State.MacOs.{
  set_update_handler, Framework, Call, NwPathSnapshot, SharedState, default_shared, Updates, update,
  shared_at, macos_state,
}
use condrun.State.MacOs.Memory.{
  Op, arc_new, ffi, Memory, World, Reaches, here, after, works, enqueues, calls, lets_go, exec,
  handler, release_block, starts,
}

-- The number of steps, as the clock of a way.
abbrev pub steps : {v w : World} → Reaches v w → ℕ
steps here = 0
steps (after way step) = steps way + 1

-- The calls of the handler on a way that found the mutex sound, each with its step.
abbrev pub delivered : {v w : World} → Reaches v w → Updates
delivered here = []
delivered (after way (calls false path waits)) = delivered way ++ (steps way + 1, path) ∷ []
delivered (after way (calls true path waits)) = delivered way
delivered (after way works) = delivered way
delivered (after way (enqueues copied running)) = delivered way
delivered (after way (lets_go copied stopped idle)) = delivered way

shared_at-append :
    (updates : Updates) (t now : ℕ) (path : Option NwPathSnapshot) (s : SharedState)
    → t ≤ now
    → shared_at (updates ++ (t, path) ∷ []) s now ≡ update path (shared_at updates s now)
unfolding shared_at
shared_at-append [] t now path s h = ground arith
shared_at-append ((u, p) ∷ updates) t now path s h = shared_at-append updates t now path _ h

call-contents : (c : Call) (m : Memory) → (exec (ffi c) m).contents ≡ m.contents
unfolding exec
call-contents set_update_handler m = refl
call-contents _ m = refl

exec-contents : (op : Op) (m : Memory) → (exec op m).contents ≡ m.contents
unfolding exec
exec-contents (ffi c) m = call-contents c m
exec-contents arc_new m = refl
exec-contents _ m = refl

module _ (v : World) (now : ℕ) where
  Reaches-contents :
      {w : World} (way : Reaches v w)
      → steps way ≤ now
      → shared_at (delivered way) v.memory.contents now ≡ w.memory.contents
  unfolding shared_at handler release_block
  Reaches-contents here h = refl
  Reaches-contents (after way (calls false path waits)) h =
      shared_at-append (delivered way) _ now path _ h
      ∙ ap (update path) (Reaches-contents way (omega arith))
  Reaches-contents (after way (calls true path waits)) h = Reaches-contents way (omega arith)
  Reaches-contents (after way (works {op} {ops} {m})) h =
      Reaches-contents way (omega arith) ∙ sym (exec-contents op m)
  Reaches-contents (after way (enqueues copied running)) h = Reaches-contents way (omega arith)
  Reaches-contents (after way (lets_go copied stopped idle)) h = Reaches-contents way (omega arith)

-- The path of the last update that has one.
abbrev pub latest : Updates → Option NwPathSnapshot
latest [] = none
latest ((t, path) ∷ updates) = elim (latest updates) [ none ↦ path | some later ↦ some later ]

-- The contents of the mutex that have this path.
abbrev pub shows : Option NwPathSnapshot → SharedState
shows none = default_shared
shows (some path) = record { snapshot = path; ready = true }

latest-none : (updates : Updates) (t : ℕ) → latest (updates ++ (t, none) ∷ []) ≡ latest updates
latest-none [] t = refl
latest-none ((u, q) ∷ updates) t = rw (latest-none updates t) refl

latest-some :
    (updates : Updates) (t : ℕ) (p : NwPathSnapshot) → latest (updates ++ (t, some p) ∷ []) ≡ some p
latest-some [] t p = refl
latest-some ((u, q) ∷ updates) t p = rw (latest-some updates t p) refl

latest-append :
    (updates : Updates) (t : ℕ) (path : Option NwPathSnapshot)
    → shows (latest (updates ++ (t, path) ∷ [])) ≡ update path (shows (latest updates))
unfolding update
latest-append updates t none = ap shows (latest-none updates t)
latest-append updates t (some p) = ap shows (latest-some updates t p)

Reaches-latest :
    {v w : World} (way : Reaches v w)
    → v.memory.contents ≡ default_shared
    → w.memory.contents ≡ shows (latest (delivered way))
unfolding handler release_block
Reaches-latest here h = h
Reaches-latest (after way (calls false path waits)) h =
    ap (update path) (Reaches-latest way h) ∙ sym (latest-append (delivered way) _ path)
Reaches-latest (after way (calls true path waits)) h = Reaches-latest way h
Reaches-latest (after way (works {op} {ops} {m})) h = exec-contents op m ∙ Reaches-latest way h
Reaches-latest (after way (enqueues copied running)) h = Reaches-latest way h
Reaches-latest (after way (lets_go copied stopped idle)) h = Reaches-latest way h

-- In whatever order the frameworks run the handler between the operations of the code: the mutex has
-- the path of the last call of the handler that was given one and found it sound, and is ready exactly
-- if there was one; and the readings of the cached snapshot at the instants of these calls, which
-- `macos_state` gives, are those of the mutex.
pub reads_latest :
    (f : Framework) (n now : ℕ) {w : World} (way : Reaches (starts f n) w)
    → steps way ≤ now
    → (w.memory.contents ≡ shows (latest (delivered way)))
      × ((macos_state (delivered way)).is_expensive now ≡ w.memory.contents.snapshot.expensive)
      × ((macos_state (delivered way)).is_low_data_mode now ≡ w.memory.contents.snapshot.low_data)
unfolding macos_state
reads_latest f n now way h =
    let e = Reaches-contents (starts f n) now way h in
    (Reaches-latest way refl, ap (λ m. m.snapshot.expensive) e, ap (λ m. m.snapshot.low_data) e)
