-- ===== src/State/Fixture/Lookup.antt =====
-- `snapshot_at` of src/state/fixture.rs: which snapshot of a sequence is the one of an instant.
use mathlib.Core.Path.{subst}
use condrun.Prelude.{◌≡◌, refl, sym, ◌∙◌, ◌⊎◌, inl, inr, Bool-cases, true, false, List, [], ◌∷◌}
use condrun.State.Fixture.{
  Floats, default_snapshot, TimedSnapshot, triggered, max_from, snapshot_of, snapshot_at,
}

-- The order of `f64` on the numbers that are at most some `e`: none of them is a NaN.
pub record IsOrder (fl : Floats) : Type 0 where
  pub gt_asym :
      (e a b : fl.F64) → fl.le a e ≡ true → fl.le b e ≡ true → fl.gt a b ≡ true → fl.gt b a ≡ false
  pub not_gt_trans :
      (e a b c : fl.F64)
      → fl.le a e ≡ true
      → fl.le b e ≡ true
      → fl.le c e ≡ true
      → fl.gt a b ≡ false
      → fl.gt b c ≡ false
      → fl.gt a c ≡ false

module _ (fl : Floats) where
  abbrev pub In : TimedSnapshot fl → List (TimedSnapshot fl) → Type 0
  In s [] = ⊥
  In s (x ∷ xs) = (s ≡ x) ⊎ In s xs

  abbrev pub Due : fl.F64 → TimedSnapshot fl → Type 0
  Due elapsed s = fl.le s.at_secs elapsed ≡ true

  -- The snapshot `s` has triggered, and none that has is later.
  abbrev pub Latest : List (TimedSnapshot fl) → fl.F64 → TimedSnapshot fl → Type 0
  Latest snapshots elapsed s =
      In s snapshots
      × Due elapsed s
      × ((x : TimedSnapshot fl)
          → In x snapshots
          → Due elapsed x
          → fl.gt x.at_secs s.at_secs ≡ false)

  In-triggered :
      (snapshots : List (TimedSnapshot fl)) (elapsed : fl.F64) (s : TimedSnapshot fl)
      → In s (triggered fl snapshots elapsed)
      → In s snapshots × Due elapsed s
  unfolding triggered
  In-triggered [] elapsed s h = absurd h
  In-triggered (x ∷ xs) elapsed s h = elim (Bool-cases (fl.le x.at_secs elapsed)) [
    | inl due ↦ elim (the_first due) [
      | inl e ↦ (inl e, rw e due)
      | inr later ↦ let (here, fits) = In-triggered xs elapsed s later in (inr here, fits)
    ]
    | inr early ↦ let (here, fits) = In-triggered xs elapsed s (rw early at h) in (inr here, fits)
  ]
    where
      the_first : fl.le x.at_secs elapsed ≡ true → (s ≡ x) ⊎ In s (triggered fl xs elapsed)
      the_first due = rw due at h

  triggered-In :
      (snapshots : List (TimedSnapshot fl)) (elapsed : fl.F64) (s : TimedSnapshot fl)
      → In s snapshots
      → Due elapsed s
      → In s (triggered fl snapshots elapsed)
  unfolding triggered
  triggered-In [] elapsed s h due = absurd h
  triggered-In (x ∷ xs) elapsed s (inl e) due =
      let fits : fl.le x.at_secs elapsed ≡ true = rw (sym e) due in rw fits (inl e)
  triggered-In (x ∷ xs) elapsed s (inr h) due =
      let later = triggered-In xs elapsed s h due in
      elim (Bool-cases (fl.le x.at_secs elapsed)) [
        | inl fits ↦ rw fits (inr later)
        | inr early ↦ rw early later
      ]

  module _ (order : IsOrder fl) (elapsed : fl.F64) where
    not_gt_itself : (s : TimedSnapshot fl) → Due elapsed s → fl.gt s.at_secs s.at_secs ≡ false
    not_gt_itself s due = elim (Bool-cases (fl.gt s.at_secs s.at_secs)) [
      | inl later ↦ order.gt_asym elapsed s.at_secs s.at_secs due due later
      | inr not_later ↦ not_later
    ]

    -- Of `xs`, `m` is one that none is later than.
    abbrev Greatest : List (TimedSnapshot fl) → TimedSnapshot fl → Type 0
    Greatest xs m = In m xs × ((x : TimedSnapshot fl) → In x xs → fl.gt x.at_secs m.at_secs ≡ false)

    abbrev AllDue : List (TimedSnapshot fl) → Type 0
    AllDue xs = (x : TimedSnapshot fl) → In x xs → Due elapsed x

    widen :
        (best s next m : TimedSnapshot fl) (rest : List (TimedSnapshot fl))
        → AllDue (best ∷ s ∷ rest)
        → (next ≡ best) ⊎ (next ≡ s)
        → fl.gt best.at_secs next.at_secs ≡ false
        → fl.gt s.at_secs next.at_secs ≡ false
        → Greatest (next ∷ rest) m
        → Greatest (best ∷ s ∷ rest) m
    widen best s next m rest due which b_le s_le (here, top) = (there which here, above)
      where
        there : (next ≡ best) ⊎ (next ≡ s) → In m (next ∷ rest) → In m (best ∷ s ∷ rest)
        there (inl e) (inl f) = inl (f ∙ e)
        there (inr e) (inl f) = inr (inl (f ∙ e))
        there which (inr h) = inr (inr h)

        next_due : (next ≡ best) ⊎ (next ≡ s) → Due elapsed next
        next_due (inl e) = rw e (due best (inl refl))
        next_due (inr e) = rw e (due s (inr (inl refl)))

        m_due : Due elapsed m
        m_due = due m (there which here)

        above : (x : TimedSnapshot fl) → In x (best ∷ s ∷ rest) → fl.gt x.at_secs m.at_secs ≡ false
        above x (inl e) = rw e (
            order.not_gt_trans elapsed best.at_secs next.at_secs m.at_secs (due best (inl refl))
              (next_due which) m_due b_le (top next (inl refl)))
        above x (inr (inl e)) = rw e (
            order.not_gt_trans elapsed s.at_secs next.at_secs m.at_secs (due s (inr (inl refl)))
              (next_due which) m_due s_le (top next (inl refl)))
        above x (inr (inr h)) = top x (inr h)

    max_from-Greatest :
        (best : TimedSnapshot fl) (rest : List (TimedSnapshot fl))
        → AllDue (best ∷ rest)
        → Greatest (best ∷ rest) (max_from fl best rest)
    unfolding max_from
    max_from-Greatest best [] due = (inl refl, only)
      where
        only : (x : TimedSnapshot fl) → In x (best ∷ []) → fl.gt x.at_secs best.at_secs ≡ false
        only x (inl e) = rw e (not_gt_itself best (due best (inl refl)))
        only x (inr h) = absurd h
    max_from-Greatest best (s ∷ rest) due = elim (Bool-cases (fl.gt best.at_secs s.at_secs)) [
      | inl later ↦
          let e : max_from fl best (s ∷ rest) ≡ max_from fl best rest = rw later in
          subst (Greatest (best ∷ s ∷ rest)) (sym e) (
            widen best s best (max_from fl best rest) rest due (inl refl)
              (not_gt_itself best (due best (inl refl)))
              (order.gt_asym elapsed best.at_secs s.at_secs (due best (inl refl))
                (due s (inr (inl refl))) later)
              (max_from-Greatest best rest λ x h. due x (skip x h)))
      | inr not_later ↦
          let e : max_from fl best (s ∷ rest) ≡ max_from fl s rest = rw not_later in
          subst (Greatest (best ∷ s ∷ rest)) (sym e) (
            widen best s s (max_from fl s rest) rest due (inr refl) not_later
              (not_gt_itself s (due s (inr (inl refl))))
              (max_from-Greatest s rest λ x h. due x (inr h)))
    ]
      where
        skip : (x : TimedSnapshot fl) → In x (best ∷ rest) → In x (best ∷ s ∷ rest)
        skip x (inl h) = inl h
        skip x (inr h) = inr (inr h)

-- The snapshot of an instant is that of the latest entry that has triggered, or the default where
-- none has, whatever the order of the entries.
pub snapshot_at-Latest :
    (fl : Floats) (order : IsOrder fl) (snapshots : List (TimedSnapshot fl)) (elapsed : fl.F64)
    → ((snapshot_at fl snapshots elapsed ≡ default_snapshot)
        × ((x : TimedSnapshot fl) → In fl x snapshots → fl.le x.at_secs elapsed ≡ false))
      ⊎ ((s : TimedSnapshot fl) × (snapshot_at fl snapshots elapsed ≡ s.state)
          × Latest fl snapshots elapsed s)
unfolding snapshot_at snapshot_of
snapshot_at-Latest fl order snapshots elapsed = go (triggered fl snapshots elapsed) refl
  where
    go :
        (found : List (TimedSnapshot fl))
        → triggered fl snapshots elapsed ≡ found
        → ((snapshot_of fl found ≡ default_snapshot)
            × ((x : TimedSnapshot fl) → In fl x snapshots → fl.le x.at_secs elapsed ≡ false))
          ⊎ ((s : TimedSnapshot fl) × (snapshot_of fl found ≡ s.state)
              × Latest fl snapshots elapsed s)
    go [] e = inl (refl, none_due)
      where
        none_due : (x : TimedSnapshot fl) → In fl x snapshots → fl.le x.at_secs elapsed ≡ false
        none_due x h = elim (Bool-cases (fl.le x.at_secs elapsed)) [
          | inl due ↦ absurd (subst (In fl x) e (triggered-In fl snapshots elapsed x h due))
          | inr early ↦ early
        ]
    go (s ∷ rest) e =
        let back : (x : TimedSnapshot fl)
            → In fl x (s ∷ rest)
            → In fl x snapshots × Due fl elapsed x =
          λ x h. In-triggered fl snapshots elapsed x (subst (In fl x) (sym e) h) in
        let (here, top) = max_from-Greatest fl order elapsed s rest (λ x h. (back x h).1) in
        inr (
          max_from fl s rest,
          refl,
          (
            (back (max_from fl s rest) here).0,
            (back (max_from fl s rest) here).1,
            λ x h due. top x (subst (In fl x) e (triggered-In fl snapshots elapsed x h due)),
          ),
        )
