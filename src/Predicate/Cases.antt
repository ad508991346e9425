-- ===== src/Predicate/Cases.antt =====
-- The tests of src/predicate/mod.rs and src/predicate/metered.rs, each as the test that its assertions
-- make. A predicate that must not be asked is one that never answers, in place of one that counts how
-- often it is.
use condrun.Prelude.{
  ◌≡◌, refl, String, Bool, true, false, ◌&&◌, ◌||◌, none, some, List, [], ◌∷◌, same, contains,
  every,
}
use condrun.Async.Awaited.{awaits}
use condrun.State.{NetworkState}
use condrun.State.Fake.{FakeState, fake_state, state_at, set_expensive, set_low_data}
use condrun.Predicate.{
  Predicate, PredicateResult, PredicateSet, pass, fail, new, and, or, and_set, or_set, evaluate,
  evaluate_and, evaluate_or, join,
}
use condrun.Predicate.Metered.{reject_expensive, reject_low_data}

abbrev always_pass : Predicate
always_pass = record { name = "always-pass"; evaluate = λ state now. some (now, pass) }

abbrev always_fail : String → Predicate
always_fail reason = record {
  name = "always-fail";
  evaluate = λ state now. some (now, fail reason);
}

abbrev unasked : Predicate
unasked = record { name = "counting"; evaluate = λ state now. none }

abbrev state : NetworkState
state = fake_state []

abbrev is_pass : PredicateResult → Bool
is_pass pass = true
is_pass (fail reason) = false

-- A failure whose reason passes the test.
abbrev fails_with : (String → Bool) → PredicateResult → Bool
fails_with test pass = false
fails_with test (fail reason) = test reason

abbrev all_pass : PredicateSet
all_pass = and_set (always_pass ∷ always_pass ∷ always_pass ∷ [])

abbrev and_all_pass : Bool
and_all_pass = awaits (evaluate all_pass state 0) λ t r. is_pass r

abbrev fails_second : PredicateSet
fails_second = and_set (always_pass ∷ always_fail "x" ∷ unasked ∷ [])

abbrev and_short_circuits : Bool
and_short_circuits =
    awaits (evaluate fails_second state 0) λ t r. fails_with (λ reason. same reason "x") r

abbrev passes_second : PredicateSet
passes_second = or_set (always_fail "a" ∷ always_pass ∷ unasked ∷ [])

abbrev or_short_circuits : Bool
or_short_circuits = awaits (evaluate passes_second state 0) λ t r. is_pass r

abbrev all_fail : PredicateSet
all_fail = or_set (always_fail "a" ∷ always_fail "b" ∷ always_fail "c" ∷ [])

abbrev or_all_fail : Bool
or_all_fail = awaits (evaluate all_fail state 0) λ t r.
    fails_with (λ reason. contains reason "a" && (contains reason "b" && contains reason "c")) r

abbrev and_empty : Bool
and_empty = awaits (evaluate (new [] and) state 0) λ t r. is_pass r

abbrev or_empty : Bool
or_empty = awaits (evaluate (new [] or) state 0) λ t r. fails_with (λ reason. true) r

-- The tests of the source pass.
predicate_set_tests_pass :
    every (
      and_all_pass ∷ and_short_circuits ∷ or_short_circuits ∷ or_all_fail ∷ and_empty ∷ or_empty
      ∷ [])
    ≡ true
unfolding evaluate evaluate_and evaluate_or join
predicate_set_tests_pass = refl

-- src/predicate/metered.rs, whose tests ask one predicate on a state with these writes.
abbrev after_writes : List (FakeState → FakeState) → NetworkState
after_writes [] = fake_state []
after_writes (write ∷ []) = fake_state ((0, write) ∷ [])
after_writes (write ∷ next ∷ _) = fake_state ((0, write) ∷ (0, next) ∷ [])

abbrev asks : Predicate → List (FakeState → FakeState) → (PredicateResult → Bool) → Bool
asks p writes test = awaits (p.evaluate (after_writes writes) 0) λ t r. test r

abbrev reject_expensive_pass : Bool
reject_expensive_pass = asks reject_expensive (set_expensive false ∷ []) is_pass

abbrev reject_expensive_fail : Bool
reject_expensive_fail = asks reject_expensive (set_expensive true ∷ []) (
    fails_with λ reason.
      contains reason "expensive"
      && (contains reason "Personal Hotspot" || contains reason "cellular"))

abbrev reject_expensive_name : Bool
reject_expensive_name = same reject_expensive.name "reject-expensive"

abbrev reject_low_data_pass : Bool
reject_low_data_pass = asks reject_low_data (set_low_data false ∷ []) is_pass

abbrev reject_low_data_fail : Bool
reject_low_data_fail =
    asks reject_low_data (set_low_data true ∷ [])
      (fails_with λ reason. contains reason "Low Data Mode")

abbrev reject_low_data_name : Bool
reject_low_data_name = same reject_low_data.name "reject-low-data"

abbrev both_pass_via_and : Bool
both_pass_via_and =
    let writes = set_expensive false ∷ set_low_data false ∷ [] in
    asks reject_expensive writes is_pass && asks reject_low_data writes is_pass

-- The test's own combination of two verdicts.
abbrev combined : PredicateResult → PredicateResult → PredicateResult
combined pass pass = pass
combined (fail reason) r2 = fail reason
combined pass (fail reason) = fail reason

abbrev and_fails_when_one_fails : Bool
and_fails_when_one_fails =
    let writes = set_expensive false ∷ set_low_data true ∷ [] in
    asks reject_expensive writes λ r1.
      is_pass r1
      && asks reject_low_data writes
          λ r2. fails_with (λ reason. contains reason "Low Data Mode") (combined r1 r2)

metered_tests_pass :
    every (
      reject_expensive_pass ∷ reject_expensive_fail ∷ reject_expensive_name ∷ reject_low_data_pass
      ∷ reject_low_data_fail ∷ reject_low_data_name ∷ both_pass_via_and ∷ and_fails_when_one_fails
      ∷ [])
    ≡ true
unfolding fake_state state_at set_expensive set_low_data
metered_tests_pass = refl
