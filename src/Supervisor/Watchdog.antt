-- ===== src/Supervisor/Watchdog.antt =====
-- What the debounce of src/supervisor.rs promises, with no mention of the loop: a watchdog over the
-- polls of the predicates, as a state machine and as a condition on the history.
pub mod Refines
pub mod Order
pub mod Flips
pub mod Causes
pub mod Span
pub mod Verdicts
mod Examples
use condrun.Prelude.{
  ℕ, ◌+◌, ◌-◌, ◌≤◌, ◌<◌, ◌≡◌, ◌≢◌, ◌↔◌, ◌⊎◌, inl, inr, refl, Bool, Bool-cases, true, false, List,
  [], ◌∷◌, arith, leb, if◌then◌else◌,
}

-- A poll: its instant, and whether the predicates passed. Histories have the latest poll first.
abbrev pub Poll : Type 0
Poll = ℕ × Bool

pub data Phase : Type 0 where
  healthy : Phase
  failing : ℕ → Phase
  tripped : Phase

-- A passing poll heals, the first failing one starts the window, and a failing poll trips the
-- watchdog when the window is over; a tripped one stays so.
abbrev pub step : ℕ → Phase → Poll → Phase
step d tripped p = tripped
step d healthy (t, true) = healthy
step d healthy (t, false) = if leb d 0 then tripped else failing t
step d (failing since) (t, true) = healthy
step d (failing since) (t, false) = if leb d (t - since) then tripped else failing since

abbrev pub replay : ℕ → List Poll → Phase
replay d [] = healthy
replay d (p ∷ ps) = step d (replay d ps) p

-- A poll at `t` is one of the failing ones with which the history ends.
abbrev pub InRow : ℕ → List Poll → Type 0
InRow t [] = ⊥
InRow t ((u, true) ∷ ps) = ⊥
InRow t ((u, false) ∷ ps) = (t ≡ u) ⊎ InRow t ps

-- The polls have failed for `d` and more without a pass in between.
abbrev pub Overdue : ℕ → List Poll → Type 0
Overdue d [] = ⊥
Overdue d ((now, b) ∷ ps) = (t : ℕ) × InRow t ((now, b) ∷ ps) × (d ≤ now - t)

-- They once had.
abbrev pub EverOverdue : ℕ → List Poll → Type 0
EverOverdue d [] = ⊥
EverOverdue d (p ∷ ps) = Overdue d (p ∷ ps) ⊎ EverOverdue d ps

abbrev pub Descending : List Poll → Type 0
Descending [] = Unit
Descending ((t, b) ∷ []) = Unit
Descending ((t, b) ∷ (u, b') ∷ ps) = (u ≤ t) × Descending ((u, b') ∷ ps)

-- What a phase says of the history.
abbrev Means : ℕ → List Poll → Phase → Type 0
Means d ps healthy = ((t : ℕ) → InRow t ps → ⊥) × (EverOverdue d ps → ⊥)
Means d ps (failing f) = InRow f ps × ((t : ℕ) → InRow t ps → f ≤ t) × (EverOverdue d ps → ⊥)
Means d ps tripped = EverOverdue d ps

row_before : (t u : ℕ) (b : Bool) (ps : List Poll) → Descending ((u, b) ∷ ps) → InRow t ps → t ≤ u
row_before t u b [] h r = absurd r
row_before t u b ((v, true) ∷ ps) h r = absurd r
row_before t u b ((v, false) ∷ ps) h (inl e) = omega arith
row_before t u b ((v, false) ∷ ps) h (inr r) =
    let before = row_before t v false ps h.1 r in omega arith

healed : (d t : ℕ) (ps : List Poll) → (EverOverdue d ps → ⊥) → Means d ((t, true) ∷ ps) healthy
healed d t ps never = (λ u r. r, still)
  where
    still : EverOverdue d ((t, true) ∷ ps) → ⊥
    still (inl (u, r, long)) = r
    still (inr ever) = never ever

-- A failing poll at `t` in a row that began at `f` leaves the row's start, where it is not overdue.
waiting :
    (d t f : ℕ) (ps : List Poll)
    → InRow f ((t, false) ∷ ps)
    → ((u : ℕ) → InRow u ((t, false) ∷ ps) → f ≤ u)
    → (EverOverdue d ps → ⊥)
    → leb d (t - f) ≡ false
    → Means d ((t, false) ∷ ps) (failing f)
waiting d t f ps began first never short = (began, first, still)
  where
    still : EverOverdue d ((t, false) ∷ ps) → ⊥
    still (inl (u, r, long)) = let from = first u r in ground (arith, short)
    still (inr ever) = never ever

began_now :
    (t : ℕ) (ps : List Poll)
    → ((u : ℕ) → InRow u ps → ⊥)
    → (u : ℕ) → InRow u ((t, false) ∷ ps)
    → t ≤ u
began_now t ps none_before u (inl e) = omega arith
began_now t ps none_before u (inr r) = absurd (none_before u r)

began_before :
    (t f : ℕ) (ps : List Poll)
    → f ≤ t
    → ((u : ℕ) → InRow u ps → f ≤ u)
    → (u : ℕ) → InRow u ((t, false) ∷ ps)
    → f ≤ u
began_before t f ps le first u (inl e) = omega arith
began_before t f ps le first u (inr r) = first u r

step-Means :
    (d : ℕ) (p : Poll) (ps : List Poll) (phase : Phase)
    → Descending (p ∷ ps)
    → Means d ps phase
    → Means d (p ∷ ps) (step d phase p)
step-Means d p ps tripped h m = inr m
step-Means d (t, true) ps healthy h m = healed d t ps m.1
step-Means d (t, true) ps (failing f) h m = healed d t ps m.2
step-Means d (t, false) ps healthy h m = elim (Bool-cases (leb d 0)) [
  | inl due ↦ rw due (inl (t, inl refl, ground (arith, due)))
  | inr short ↦
      rw short (waiting d t t ps (inl refl) (began_now t ps m.0) m.1 (ground (arith, short)))
]
step-Means d (t, false) ps (failing f) h m = elim (Bool-cases (leb d (t - f))) [
  | inl due ↦ rw due (inl (f, inr m.0, ground (arith, due)))
  | inr short ↦ rw short (
      waiting d t f ps (inr m.0) (began_before t f ps (row_before f t false ps h m.0) m.1) m.2
        short)
]

tail-Descending : (p : Poll) (ps : List Poll) → Descending (p ∷ ps) → Descending ps
tail-Descending p [] h = tt
tail-Descending p (q ∷ ps) h = h.1

replay-Means : (d : ℕ) (ps : List Poll) → Descending ps → Means d ps (replay d ps)
replay-Means d [] h = (λ t r. r, λ e. e)
replay-Means d (p ∷ ps) h =
    step-Means d p ps (replay d ps) h (replay-Means d ps (tail-Descending p ps h))

-- The watchdog has tripped exactly when at some poll the predicates had failed for the whole window
-- without a pass in between.
pub tripped_iff :
    (d : ℕ) (ps : List Poll) → Descending ps → (replay d ps ≡ tripped) ↔ EverOverdue d ps
tripped_iff d ps h = go (replay d ps) (replay-Means d ps h)
  where
    go : (phase : Phase) → Means d ps phase → (phase ≡ tripped) ↔ EverOverdue d ps
    go healthy m = (λ e. cc, λ ever. absurd (m.1 ever))
    go (failing f) m = (λ e. cc, λ ever. absurd (m.2 ever))
    go tripped m = (λ e. m, λ ever. refl)
