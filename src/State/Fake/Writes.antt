-- ===== src/State/Fake/Writes.antt =====
-- What a reader of the fake of src/state/fake.rs sees after a write.
use condrun.Prelude.{ℕ, ◌≡◌, refl, Bool, [], ◌∷◌, ◌++◌, arith, leb, if◌then◌else◌}
use condrun.State.Fake.{FakeState, Script, new, set_expensive, set_low_data, state_at, fake_state}

state_at-append :
    (script : Script) (t : ℕ) (write : FakeState → FakeState) (s : FakeState) (now : ℕ)
    → state_at (script ++ (t, write) ∷ []) s now
      ≡ (if leb t now then write (state_at script s now) else state_at script s now)
unfolding state_at
state_at-append [] t write s now = refl
state_at-append ((u, other) ∷ script) t write s now =
    state_at-append script t write (if leb u now then other s else s) now

-- From the instant of a `set_expensive` that is the last write on, a reader sees its value, and
-- before it what it saw without it; the reading of Low Data Mode is not changed. The same holds for
-- `set_low_data` with the readings exchanged.
pub fake_state-write :
    (script : Script) (t now : ℕ) (value : Bool)
    → let before = fake_state script in
      let expensive = fake_state (script ++ (t, set_expensive value) ∷ []) in
      let low_data = fake_state (script ++ (t, set_low_data value) ∷ []) in
      ((expensive.is_expensive now ≡ (if leb t now then value else before.is_expensive now))
        × (expensive.is_low_data_mode now ≡ before.is_low_data_mode now))
      × ((low_data.is_low_data_mode now
            ≡ (if leb t now then value else before.is_low_data_mode now))
          × (low_data.is_expensive now ≡ before.is_expensive now))
unfolding fake_state set_expensive set_low_data
fake_state-write script t now value =
    let e = state_at-append script t (set_expensive value) new now in
    let l = state_at-append script t (set_low_data value) new now in
    ((ground (arith, e), ground (arith, e)), (ground (arith, l), ground (arith, l)))
