-- ===== src/State/Tests.antt =====
-- Sequences of snapshots at whole seconds, and the theorem on their lookup at one.
use condrun.Prelude.{◌≡◌, ◌⊎◌, refl, true, false, ℕ, List, leb, ltb, false, arith, ◌/◌, [], ◌∷◌}
use condrun.State.Fixture.{
  Floats, default_snapshot, TimedSnapshot, snapshot_at, snapshot_of, triggered, max_from,
}
use condrun.State.Fixture.Lookup.{IsOrder, In, Latest, snapshot_at-Latest}

-- Whole seconds in place of `f64`.
abbrev seconds : Floats
seconds = record {
  F64 = ℕ;
  le = leb;
  gt = λ a b. ltb b a;
  as_secs_f64 = λ nanos. nanos / 1_000_000_000;
}

seconds-IsOrder : IsOrder seconds
seconds-IsOrder = record {
  gt_asym = λ e a b le_a le_b h. ground (arith, h);
  not_gt_trans = λ e a b c le_a le_b le_c h k. ground (arith, h, k);
}

abbrev expensive_from : ℕ → TimedSnapshot seconds
expensive_from t = record { at_secs = t; state = record { expensive = true; low_data = false } }

abbrev cheap_from : ℕ → TimedSnapshot seconds
cheap_from t = record { at_secs = t; state = default_snapshot }

-- The entries need not be in order.
sequence_fixture_holds_at_latest_snapshot :
    snapshot_at seconds (expensive_from 5 ∷ cheap_from 0 ∷ cheap_from 9 ∷ []) 7
    ≡ record { expensive = true; low_data = false }
unfolding snapshot_at snapshot_of triggered max_from
sequence_fixture_holds_at_latest_snapshot = refl

abbrev timeline : List (TimedSnapshot seconds)
timeline = expensive_from 5 ∷ cheap_from 0 ∷ cheap_from 9 ∷ []

snapshot_at-Latest_example :
    ((snapshot_at seconds timeline 7 ≡ default_snapshot)
      × ((x : TimedSnapshot seconds) → In seconds x timeline → leb x.at_secs 7 ≡ false))
    ⊎ ((s : TimedSnapshot seconds) × (snapshot_at seconds timeline 7 ≡ s.state)
        × Latest seconds timeline 7 s)
snapshot_at-Latest_example = snapshot_at-Latest seconds seconds-IsOrder timeline 7
