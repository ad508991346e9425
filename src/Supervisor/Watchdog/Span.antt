-- ===== src/Supervisor/Watchdog/Span.antt =====
-- The debounce of src/supervisor.rs: the two polls that bound an overdue row, and those between them.
use condrun.Prelude.{ℕ, ◌-◌, ◌≤◌, ◌≡◌, refl, ◌⊎◌, inl, inr, Bool, true, false, List, [], ◌∷◌, arith}
use condrun.Supervisor.Watchdog.{Poll, InRow, Overdue, EverOverdue, Descending}

abbrev pub Polled : Poll → List Poll → Type 0
Polled p [] = ⊥
Polled p (q ∷ ps) = (p ≡ q) ⊎ Polled p ps

-- The polls fail at `t` and at `u`, by the window `d` later, and those between them fail as well.
pub record Spans (d : ℕ) (ps : List Poll) (t u : ℕ) : Type 0 where
  pub window : d ≤ u - t
  pub first : Polled (t, false) ps
  pub last : Polled (u, false) ps
  pub between :
      (v : ℕ) (b : Bool) → Polled (v, b) ps → t ≤ v → v ≤ u → (v ≡ t) ⊎ ((v ≡ u) ⊎ (b ≡ false))

Polled-Descending :
    (v u : ℕ) (c b : Bool) (ps : List Poll) → Descending ((u, b) ∷ ps) → Polled (v, c) ps → v ≤ u
Polled-Descending v u c b [] h q = absurd q
Polled-Descending v u c b ((x, y) ∷ ps) h (inl e) = ground (arith, h.0)
Polled-Descending v u c b ((x, y) ∷ ps) h (inr q) =
    let before = Polled-Descending v x c y ps h.1 q in omega (arith, h.0)

Polled-InRow : (t : ℕ) (ps : List Poll) → InRow t ps → Polled (t, false) ps
Polled-InRow t [] r = absurd r
Polled-InRow t ((u, true) ∷ ps) r = absurd r
Polled-InRow t ((u, false) ∷ ps) (inl e) = inl (cc)
Polled-InRow t ((u, false) ∷ ps) (inr r) = inr (Polled-InRow t ps r)

tail-of : (p : Poll) (ps : List Poll) → Descending (p ∷ ps) → Descending ps
tail-of p [] h = tt
tail-of p (q ∷ ps) h = h.1

-- A poll from `t` on fails or is at `t`, where `t` is in the row of failing polls at the end.
row_from :
    (t v : ℕ) (b : Bool) (ps : List Poll)
    → Descending ps
    → InRow t ps
    → Polled (v, b) ps
    → t ≤ v
    → (v ≡ t) ⊎ (b ≡ false)
row_from t v b [] h r q le = absurd r
row_from t v b ((u, true) ∷ ps) h r q le = absurd r
row_from t v b ((u, false) ∷ ps) h r (inl e) le = inr (cc)
row_from t v b ((u, false) ∷ ps) h (inl e) (inr q) le =
    let before = Polled-Descending v u b false ps h q in inl (omega arith)
row_from t v b ((u, false) ∷ ps) h (inr r) (inr q) le =
    row_from t v b ps (tail-of (u, false) ps h) r q le

Overdue-Spans : (d : ℕ) (ps : List Poll) → Descending ps → Overdue d ps → (t u : ℕ) × Spans d ps t u
Overdue-Spans d [] h o = absurd o
Overdue-Spans d ((u, true) ∷ ps) h (t, r, long) = absurd r
Overdue-Spans d ((u, false) ∷ ps) h (t, r, long) = (
  t,
  u,
  record {
    window = long;
    first = Polled-InRow t ((u, false) ∷ ps) r;
    last = inl refl;
    between = λ v b q from to. either v b (row_from t v b ((u, false) ∷ ps) h r q from);
  },
)
  where
    either : (v : ℕ) (b : Bool) → (v ≡ t) ⊎ (b ≡ false) → (v ≡ t) ⊎ ((v ≡ u) ⊎ (b ≡ false))
    either v b (inl e) = inl e
    either v b (inr e) = inr (inr e)

-- A later poll does not come between.
later-Spans :
    (d w t u : ℕ) (c : Bool) (ps : List Poll)
    → Descending ((w, c) ∷ ps)
    → Spans d ps t u
    → Spans d ((w, c) ∷ ps) t u
later-Spans d w t u c ps h s = record {
  window = s.window;
  first = inr s.first;
  last = inr s.last;
  between = next;
}
  where
    next :
        (v : ℕ) (b : Bool)
        → Polled (v, b) ((w, c) ∷ ps)
        → t ≤ v
        → v ≤ u
        → (v ≡ t) ⊎ ((v ≡ u) ⊎ (b ≡ false))
    next v b (inl e) from to =
        let after = Polled-Descending u w false c ps h s.last in inr (inl (ground (arith, e)))
    next v b (inr q) from to = s.between v b q from to

-- Where the predicates had once failed for the window, two failing polls bound it, and the polls
-- between them fail.
pub EverOverdue-Spans :
    (d : ℕ) (ps : List Poll) → Descending ps → EverOverdue d ps → (t u : ℕ) × Spans d ps t u
EverOverdue-Spans d [] h o = absurd o
EverOverdue-Spans d (p ∷ ps) h (inl o) = Overdue-Spans d (p ∷ ps) h o
EverOverdue-Spans d ((w, c) ∷ ps) h (inr o) =
    let (t, u, s) = EverOverdue-Spans d ps (tail-of (w, c) ps h) o in
    (t, u, later-Spans d w t u c ps h s)
